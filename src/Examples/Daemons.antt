-- ===== src/Examples/Daemons.antt =====
-- The embedder client, the capture log and the lifecycle tools in a concrete world: a clock that counts
-- milliseconds, a daemon that answers, and a config that the user has put to sleep.
use rune_mcp.Prelude.{
  Bool, ℕ, suc, ◌+◌, if◌then◌else◌, inr, true, false, Option, none, some, List, [], ◌∷◌, ◌++◌,
  arith, length, map, ◌≡◌, refl,
}
use rune_mcp.Prelude.Float.Fixed
use rune_mcp.Prelude.Int.{pos}
use rune_mcp.Prelude.Text.{Text, codes, teq}
use rune_mcp.Adapters.CaptureLog.{LogFile}
use rune_mcp.Adapters.Config.{Config, Loaded}
use rune_mcp.Adapters.Embedder.{HealthSnapshot, InfoSnapshot, get_info, invalidated, no_info}
use rune_mcp.Adapters.Embedder.Batch.{embed_batch}
use rune_mcp.Adapters.Embedder.Batch.Laws.{embed_batch-order}
use rune_mcp.Adapters.Embedder.Cache.{Reachable, Serves, get_info-Serves, view}
use rune_mcp.Domain.Capture.{CaptureLogEntry}
use rune_mcp.Domain.Errors.{Error, Result, err, ok, other, panic}
use rune_mcp.Lifecycle.Boot.{State}
use rune_mcp.Lifecycle.Boot.Outcomes.{IsBooting}
use rune_mcp.Lifecycle.Retrigger.{System}
use rune_mcp.Service.Backend.{Action}
use rune_mcp.Service.Lifecycle.Activate.{activate}
use rune_mcp.Service.Lifecycle.Activate.Log.{logging}
use rune_mcp.Service.Lifecycle.Activate.Trace.{IsActivation, activate-IsActivation}
use rune_mcp.Service.Lifecycle.Host.{Host, IsClock}
use rune_mcp.Service.Lifecycle.Reload.{wait_for_boot_progress}
use rune_mcp.Service.Lifecycle.Reload.Wait.{HasEnded, wait_for_boot_progress-HasEnded}
use rune_mcp.Service.Lifecycle.Watcher.{Tick, WatchEnd, ended, run_bootstrap_watcher}
use rune_mcp.Service.Lifecycle.Watcher.Laws.{run_bootstrap_watcher-ready}

abbrev small_info : InfoSnapshot
small_info = record no_info { max_batch_size = pos 2 }

-- The world counts the calls.
abbrev info_rpc : ℕ → Result InfoSnapshot × ℕ
info_rpc w = (ok small_info, suc w)

calm : (info_rpc 0).0 ≡ panic → ⊥
calm e = absurd cc

get_info-Serves_example :
    (let r = get_info 5000 5001 info_rpc (invalidated, 0) in
      Serves info_rpc 0 5000 invalidated (view invalidated) r.0 (view r.1.0) r.1.1)
get_info-Serves_example = get_info-Serves 5000 5001 info_rpc 0 invalidated Reachable.fresh calm

abbrev three_texts : List Text
three_texts = codes "a" ∷ codes "b" ∷ codes "c" ∷ []

abbrev no_wait : ℕ → ℕ → Option Error × ℕ
no_wait d w = (none, w)

abbrev embed_one : Text → Action ℕ ℕ
embed_one t w = (ok (length t), suc w)

abbrev embed_texts : List Text → Action ℕ (List ℕ)
embed_texts ts w = (ok (map (λ t. length t) ts), suc w)

embed_batch-order_example :
    (embed_batch no_wait embed_one embed_texts info_rpc three_texts 0).0 ≡ ok (1 ∷ 1 ∷ 1 ∷ [])
unfolding codes
embed_batch-order_example =
    embed_batch-order no_wait embed_one embed_texts info_rpc (λ t. length t) (λ ts w. refl)
      three_texts small_info 0 refl

abbrev log_entry : CaptureLogEntry Fixed.Fixed
log_entry = record {
  ts = codes "2026-01-02T00:00:00Z";
  action = codes "captured";
  id = codes "dec_1";
  title = codes "Go";
  domain = codes "general";
  mode = codes "single";
  novelty_class = none;
  novelty_score = none;
}

-- One line parses.
abbrev parse_line : Text → Option (CaptureLogEntry Fixed.Fixed)
parse_line l = if teq l (codes "{}") then some log_entry else none

abbrev fits : Text → Bool
fits l = false

-- A log with one line that does not parse.
abbrev old_log : LogFile
old_log = LogFile.lines (codes "x" ∷ []) []

abbrev asleep : Config
asleep = record {
  state = codes "dormant";
  dormant_reason = codes "user_deactivated";
  dormant_since = [];
  endpoint = codes "vault.example";
  token = codes "token";
  ca_cert = [];
  tls_disable = false;
}

abbrev idle : HealthSnapshot
idle = record {
  status = codes "IDLE";
  uptime_seconds = 7;
  total_requests = 0;
  phase = codes "UNSPECIFIED";
  bytes_done = 0;
  bytes_total = 0;
  message = [];
}

-- The world is the time.
abbrev plain_host : Host ℕ
plain_host = record {
  load = λ w. (Loaded.loaded asleep, w);
  save = λ c w. (none, w);
  config_path = codes "config.json";
  current = λ w. (State.starting, w);
  last_boot_error = λ w. (none, w);
  retrigger = λ w. w;
  vault = λ w. (none, w);
  vault_health = λ w. ((false, none), w);
  has_embedder = λ w. (true, w);
  embedder_socket = codes "/s";
  info = info_rpc;
  health = λ w. (ok idle, suc w);
  has_envector = λ w. (true, w);
  get_index_list = λ w. (none, suc w);
  clock = λ w. (w, w);
  rfc3339_now = λ w. ([], w);
  sleep = λ d w. (false, w + d);
  socket_path = codes "/s/embedding.sock";
  dir = λ p. codes "/s";
  join = λ d p. d ++ p;
  quote = λ p. p;
  resolve_rune_binary = λ w. (ok (codes "rune"), w);
  ensure_daemon = λ b s l w. (none, suc w);
  recovery_hint = codes "rune install";
  start_watcher = λ w. w;
}

plain_host-IsClock : IsClock plain_host (λ w. w)
plain_host-IsClock = record {
  reads = λ w. refl;
  clock_on = λ w. omega arith;
  current_on = λ w. omega arith;
  sleep_on = λ d w e. omega arith;
}

wait_for_boot_progress-HasEnded_example :
    HasEnded plain_host 5000 0 (wait_for_boot_progress plain_host 5000 0)
wait_for_boot_progress-HasEnded_example =
    wait_for_boot_progress-HasEnded plain_host (λ w. w) plain_host-IsClock 5000 0

activate-IsActivation_example :
    (let r = activate (logging plain_host) (0, []) in IsActivation plain_host r.1.1 r.0)
activate-IsActivation_example = activate-IsActivation plain_host 0

abbrev loading : HealthSnapshot
loading = record idle { status = codes "LOADING" }

abbrev early_ticks : List Tick
early_ticks =
    record { now = 15; health = some (ok loading) }
    ∷ record { now = 30; health = some (err (other [])) }
    ∷ []

abbrev ready_tick : Tick
ready_tick = record { now = 45; health = some (ok idle) }

abbrev sleeping : System
sleeping = record { state = State.dormant; live = 0 }

loading_status : teq loading.status (codes "LOADING") ≡ true
unfolding teq codes
loading_status = refl

run_bootstrap_watcher-ready_example :
    (let end = run_bootstrap_watcher 0 (early_ticks ++ ready_tick ∷ []) in
      (end ≡ WatchEnd.ready) × IsBooting (ended end sleeping).state)
run_bootstrap_watcher-ready_example =
    run_bootstrap_watcher-ready 0 early_ticks [] ready_tick idle sleeping
      (omega arith, (omega arith, (omega arith, tt))) (loading_status, (omega arith, tt)) refl
      (inr refl)
