-- ===== src/Service/Lifecycle/Host.antt =====
-- What LifecycleService calls. Other goroutines run beside it, so each reading may change the world.
use rune_mcp.Prelude.{ℕ, ◌+◌, ◌≤◌, Bool, false, Option, ◌≡◌}
use rune_mcp.Prelude.Text.{Text}
use rune_mcp.Adapters.Config.{Config, Loaded}
use rune_mcp.Adapters.Embedder.{HealthSnapshot, InfoSnapshot}
use rune_mcp.Domain.Errors.{Error, Result}
use rune_mcp.Lifecycle.Boot.{State}
use rune_mcp.Lifecycle.Classify.{BootError}

pub record Host (W : Type 0) : Type 0 where
  -- internal/adapters/config: Load, Save, DefaultConfigPath
  pub load : W → Loaded × W
  pub save : Config → W → Option Error × W
  pub config_path : Text
  -- Manager.Current, LastBootError and Retrigger
  pub current : W → State × W
  pub last_boot_error : W → Option BootError × W
  pub retrigger : W → W
  -- whether the clients are not nil; the Vault client's endpoint and HealthCheck
  pub vault : W → Option Text × W
  pub vault_health : W → (Bool × Option Error) × W
  pub has_embedder : W → Bool × W
  pub embedder_socket : Text
  pub info : W → Result InfoSnapshot × W
  pub health : W → Result HealthSnapshot × W
  pub has_envector : W → Bool × W
  pub get_index_list : W → Option Error × W
  -- time.Now in milliseconds and in RFC 3339; a wait, and whether the context ended it
  pub clock : W → ℕ × W
  pub rfc3339_now : W → Text × W
  pub sleep : ℕ → W → Bool × W
  -- ResolveSocketPath(""), filepath.Dir and Join, %q, and internal/spawn
  pub socket_path : Text
  pub dir : Text → Text
  pub join : Text → Text → Text
  pub quote : Text → Text
  pub resolve_rune_binary : W → Result Text × W
  pub ensure_daemon : Text → Text → Text → W → Option Error × W
  pub recovery_hint : Text
  -- startBootstrapWatcher
  pub start_watcher : W → W

-- A clock that no call turns back, and that a wait advances unless the context ends it.
pub record IsClock {W : Type 0} (h : Host W) (time : W → ℕ) : Type 0 where
  pub reads : (w : W) → (h.clock w).0 ≡ time w
  pub clock_on : (w : W) → time w ≤ time (h.clock w).1
  pub current_on : (w : W) → time w ≤ time (h.current w).1
  pub sleep_on : (d : ℕ) (w : W) → (h.sleep d w).0 ≡ false → time w + d ≤ time (h.sleep d w).1
