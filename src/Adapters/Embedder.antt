-- ===== src/Adapters/Embedder.antt =====
-- internal/adapters/embedder: the client of the embedder daemon (client.go) with its cache of the
-- daemon's Info (cache.go), and the path of its socket (socket.go). Times are in milliseconds.
pub mod Cache
pub mod Batch
use rune_mcp.Prelude.{
  ℕ, zero, suc, ◌-◌, Bool, true, false, ◌&&◌, Option, none, some, List, [], ◌∷◌, ◌++◌, drop, length,
  ltb, take, ◌==◌, leb, if◌then◌else◌,
}
use rune_mcp.Prelude.Int.{ℤ, pos, ltb_ℤ, pos_part}
use rune_mcp.Prelude.Text.{Text, codes, decimal, is_empty}
use rune_mcp.Adapters.Grpc.{map_embedder_error}
use rune_mcp.Adapters.Retry.{retry}
use rune_mcp.Domain.Errors.{Error, Result, err, ok, other, panic}
use rune_mcp.Service.Backend.{Action, either, fail, pure, wrapping, ◌>>=◌}

pub record InfoSnapshot : Type 0 where
  pub daemon_version : Text
  pub model_identity : Text
  pub vector_dim : ℤ
  pub max_text_length : ℤ
  pub max_batch_size : ℤ

abbrev pub no_info : InfoSnapshot
no_info = record {
  daemon_version = [];
  model_identity = [];
  vector_dim = pos 0;
  max_text_length = pos 0;
  max_batch_size = pos 0;
}

pub record HealthSnapshot : Type 0 where
  pub status : Text
  pub uptime_seconds : ℕ
  pub total_requests : ℕ
  pub phase : Text
  pub bytes_done : ℕ
  pub bytes_total : ℕ
  pub message : Text

-- The enums of the daemon's Health answer; `other_status` and `other_phase` are the unspecified ones.
pub data HealthStatus : Type 0 where
  status_ok status_loading status_degraded status_idle status_shutting_down other_status :
      HealthStatus

pub data HealthPhase : Type 0 where
  fetching_llama_server fetching_model starting_llama_server other_phase : HealthPhase

abbrev pub status_name : HealthStatus → Text
status_name HealthStatus.status_ok = codes "OK"
status_name HealthStatus.status_loading = codes "LOADING"
status_name HealthStatus.status_degraded = codes "DEGRADED"
status_name HealthStatus.status_idle = codes "IDLE"
status_name HealthStatus.status_shutting_down = codes "SHUTTING_DOWN"
status_name HealthStatus.other_status = codes "UNSPECIFIED"

abbrev pub phase_name : HealthPhase → Text
phase_name HealthPhase.fetching_llama_server = codes "FETCHING_LLAMA_SERVER"
phase_name HealthPhase.fetching_model = codes "FETCHING_MODEL"
phase_name HealthPhase.starting_llama_server = codes "STARTING_LLAMA_SERVER"
phase_name HealthPhase.other_phase = codes "UNSPECIFIED"

-- The daemon's Health message.
pub record HealthResponse : Type 0 where
  pub status : HealthStatus
  pub uptime_seconds : ℕ
  pub total_requests : ℕ
  pub phase : HealthPhase
  pub bytes_done : ℕ
  pub bytes_total : ℕ
  pub message : Text

-- infoCache, without its lock: each operation is one step.
pub record InfoCache : Type 0 where
  pub is_loaded : Bool
  pub snap : InfoSnapshot
  pub last_err : Option Error
  pub last_attempt : Option ℕ

-- invalidate, also the cache of a new client.
abbrev pub invalidated : InfoCache
invalidated = record { is_loaded = false; snap = no_info; last_err = none; last_attempt = none }

abbrev pub in_cooldown : ℕ → Option ℕ → Bool
in_cooldown now none = false
in_cooldown now (some t) = ltb (now - t) 3000

-- The error that is kept, where there is one; Go returns the two values as they are.
abbrev pub kept_error : Option Error → Result InfoSnapshot
kept_error none = ok no_info
kept_error (some e) = err e

abbrev pub loaded_info : InfoCache → Result InfoSnapshot → InfoCache
loaded_info ic (ok s) = record ic { is_loaded = true; snap = s; last_err = none }
loaded_info ic (err e) = record ic { last_err = some e }
loaded_info ic panic = ic

-- What a client keeps, beside the world of its calls.
pub record Client : Type 0 where
  pub info : InfoCache
  pub last_uptime : ℕ

abbrev pub health_of : HealthResponse → HealthSnapshot
health_of r = record {
  status = status_name r.status;
  uptime_seconds = r.uptime_seconds;
  total_requests = r.total_requests;
  phase = phase_name r.phase;
  bytes_done = r.bytes_done;
  bytes_total = r.bytes_total;
  message = r.message;
}

-- A shorter uptime than the last one tells of a restarted daemon.
unfoldable pub note_uptime : ℕ → Client → Client
note_uptime uptime c = record {
  info = if ltb 0 c.last_uptime && ltb uptime c.last_uptime then invalidated else c.info;
  last_uptime = uptime;
}

module _ {W : Type 0} where
  -- infoCache.Get at `now`; `later` is the clock when the attempt is noted.
  unfoldable pub get_info :
      ℕ → ℕ → (W → Result InfoSnapshot × W) → InfoCache × W → Result InfoSnapshot × (InfoCache × W)
  get_info now later rpc (ic, w) =
      if ic.is_loaded
      then (ok ic.snap, (ic, w))
      else if in_cooldown now ic.last_attempt
      then (kept_error ic.last_err, (ic, w))
      else ((rpc w).0, (loaded_info (record ic { last_attempt = some later }) (rpc w).0, (rpc w).1))

  abbrev pub after_health :
      Result HealthResponse → Client × W → Result HealthSnapshot × (Client × W)
  after_health (ok r) (c, w) = (ok (health_of r), (note_uptime r.uptime_seconds c, w))
  after_health (err e) v = (err (map_embedder_error e), v)
  after_health panic v = (panic, v)

  -- Health, which is not retried.
  unfoldable pub health :
      (W → Result HealthResponse × W) → Client × W → Result HealthSnapshot × (Client × W)
  health rpc (c, w) = after_health (rpc w).0 (c, (rpc w).1)

-- ResolveSocketPath: the environment's path, the config's, or the one in the home directory.
unfoldable pub resolve_socket_path : Text → Option Text → Text → Text
resolve_socket_path env home config_path =
    if is_empty env
    then (if is_empty config_path
        then elim home [ none ↦ [] | some h ↦ h ++ codes "/.runed/embedding.sock" ]
        else config_path)
    else env
