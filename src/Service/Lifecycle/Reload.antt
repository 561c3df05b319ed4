-- ===== src/Service/Lifecycle/Reload.antt =====
-- ReloadPipelines: a new boot, a bounded wait for it, and the warm-up of enVector. Milliseconds.
pub mod Wait
use rune_mcp.Prelude.{
  ℕ, zero, suc, ◌+◌, ◌-◌, Bool, true, false, Option, none, some, ltb, if◌then◌else◌,
}
use rune_mcp.Prelude.Text.{Text, codes}
use rune_mcp.Domain.Errors.{Error, error_text}
use rune_mcp.Lifecycle.Boot.{State}
use rune_mcp.Lifecycle.Classify.{BootError}
use rune_mcp.Service.Backend.{Action, pure}
use rune_mcp.Service.Lifecycle.Host.{Host}

-- State.String
abbrev pub state_name : State → Text
state_name State.starting = codes "starting"
state_name State.waiting_for_vault = codes "waiting_for_vault"
state_name State.active = codes "active"
state_name State.dormant = codes "dormant"

pub record WarmupInfo : Type 0 where
  pub okay : Bool
  pub latency_ms : ℕ
  pub error : Option Text

-- Without `errors`, which no code sets.
pub record ReloadPipelinesResult : Type 0 where
  pub okay : Bool
  pub state : Text
  pub scribe_initialized : Bool
  pub retriever_initialized : Bool
  pub last_boot_error : Option BootError
  pub envector_warmup : Option WarmupInfo

-- How a wait ends: the state is terminal, the deadline has passed, the context is done, or, for the
-- model alone, there is no fuel left.
pub data WaitEnd : Type 0 where
  settled late cancelled no_fuel : WaitEnd

abbrev pub is_settled : State → Bool
is_settled State.active = true
is_settled State.dormant = true
is_settled _ = false

abbrev pub is_active : State → Bool
is_active State.active = true
is_active _ = false

module _ {W : Type 0} (h : Host W) where
  -- A round of the loop: the clock, the state, the wait of 100 ms.
  abbrev pub wait_round : ℕ → (W → WaitEnd × W) → W → WaitEnd × W
  wait_round deadline again w =
      let (now, w₁) = h.clock w in
      let (s, w₂) = h.current w₁ in
      let (done, w₃) = h.sleep 100 w₂ in
      if ltb now deadline
      then (if is_settled s
          then (WaitEnd.settled, w₂)
          else if done
          then (WaitEnd.cancelled, w₃)
          else again w₃)
      else (WaitEnd.late, w₁)

  unfoldable pub wait_loop : ℕ → ℕ → W → WaitEnd × W
  wait_loop zero deadline w = (WaitEnd.no_fuel, w)
  wait_loop (suc fuel) deadline w = wait_round deadline (wait_loop fuel deadline) w

  -- waitForBootProgress; a round takes at least 100 ms, so that the fuel is enough.
  unfoldable pub wait_for_boot_progress : ℕ → W → WaitEnd × W
  unfolding wait_loop
  wait_for_boot_progress timeout w =
      let (now, w₁) = h.clock w in
      let (done, w₂) = h.sleep 150 w₁ in
      if done then (WaitEnd.cancelled, w₂) else wait_loop (suc timeout) (now + timeout) w₂

  abbrev pub warmup_of : Option Error → ℕ → WarmupInfo
  warmup_of none elapsed = record { okay = true; latency_ms = elapsed; error = none }
  warmup_of (some e) elapsed = record {
    okay = false;
    latency_ms = elapsed;
    error = some (error_text e);
  }

  unfoldable pub warmup_envector : W → WarmupInfo × W
  warmup_envector w =
      let (t₀, w₁) = h.clock w in
      let (e, w₂) = h.get_index_list w₁ in let (t₁, w₃) = h.clock w₂ in (warmup_of e (t₁ - t₀), w₃)

  abbrev pub warmup_if : Bool → W → Option WarmupInfo × W
  warmup_if false w = (none, w)
  warmup_if true w = let (i, w') = warmup_envector w in (some i, w')

  -- The error that is shown where the second reading of the state is not active.
  abbrev pub boot_error_unless : Bool → W → Option BootError × W
  boot_error_unless true w = (none, w)
  boot_error_unless false w = h.last_boot_error w

  unfoldable pub reload_pipelines : W → ReloadPipelinesResult × W
  unfolding wait_for_boot_progress warmup_envector
  reload_pipelines w =
      let w₁ = (wait_for_boot_progress 5000 (h.retrigger w)).1 in
      let (first, w₂) = h.current w₁ in
      let (second, w₃) = h.current w₂ in
      let (be, w₄) = boot_error_unless (is_active second) w₃ in
      let (wired, w₅) = h.has_envector w₄ in
      let (warmup, w₆) = warmup_if wired w₅ in
      (
        record {
          okay = true;
          state = state_name first;
          scribe_initialized = is_active second;
          retriever_initialized = is_active second;
          last_boot_error = be;
          envector_warmup = warmup;
        },
        w₆,
      )
