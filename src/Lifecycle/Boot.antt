-- ===== src/Lifecycle/Boot.antt =====
-- internal/lifecycle/boot.go: bootOnce and RunBootLoop, over what the calls of an attempt answer.
-- A boot error is kept as what it is classified from; the boot log on disk and slog are left out.
pub mod Laws
pub mod Outcomes
pub mod Restart
pub mod Connections
use rune_mcp.Prelude.{
  ℕ, suc, Bool, true, false, ◌||◌, Option, none, some, List, [], ◌∷◌, ◌++◌, if◌then◌else◌,
}
use rune_mcp.Prelude.Text.{Text, codes, is_empty, teq}
use rune_mcp.Adapters.Config.{Config, Loaded, load_failed, loaded, not_found}
use rune_mcp.Domain.Errors.{Error, error_text}

pub data State : Type 0 where
  starting waiting_for_vault active dormant : State

-- BootPhase of internal/domain/boot_error.go
pub data BootPhase : Type 0 where
  config_load config_check vault_dial vault_manifest : BootPhase
  key_save embedder_dial envector_init envector_index : BootPhase

-- The arguments of ClassifyDormantReason, or those of ClassifyBootError.
pub data BootCause : Type 0 where
  dormant_reason : Text → BootCause
  boot_failure : Error → BootPhase → ℕ → BootCause

pub data BootResult : Type 0 where
  boot_retry boot_active boot_dormant : BootResult

pub data Client : Type 0 where
  vault_client embedder_client envector_client : Client

-- The Manager, the dormant reason written to config.json, the clients that were injected, and the
-- connections that are open, each with the newest first.
pub record Boot : Type 0 where
  pub state : State
  pub last_error : Text
  pub boot_error : Option BootCause
  pub attempts : ℕ
  pub marked : Option Text
  pub injected : List Client
  pub connections : List Client

-- What the calls of one attempt answer: `none` is success.
pub record Answers : Type 0 where
  pub config : Loaded
  pub mark_dormant : Option Error
  pub vault_new : Option Error
  pub manifest : Option Error
  pub save_enc_key : Option Error
  pub key_dir : Option Error
  pub embedder_new : Option Error
  pub envector_new : Option Error
  pub open_index : Option Error

abbrev pub opened : Client → Boot → Boot
opened c m = record m { connections = c ∷ m.connections }

abbrev pub close_newest : List Client → List Client
close_newest [] = []
close_newest (c ∷ cs) = cs

-- Close() of the connection that was opened last.
abbrev pub closed : Boot → Boot
closed m = record m { connections = close_newest m.connections }

abbrev pub inject : Client → Boot → Boot
inject c m = record m { injected = c ∷ m.injected }

abbrev pub set_state : State → Boot → Boot
set_state s m = record m { state = s }

-- The mark in the config after MarkDormant, whose error is only logged.
abbrev pub mark_after : Option Error → Text → Option Text → Option Text
mark_after none reason before = some reason
mark_after (some e) reason before = before

-- The three writes of a terminal config failure, and MarkDormant with its answer.
abbrev pub go_dormant : Option Error → Text → Text → Boot → BootResult × Boot
go_dormant mark message reason m = (
  BootResult.boot_dormant,
  record m {
    state = State.dormant;
    last_error = message;
    boot_error = some (BootCause.dormant_reason reason);
    marked = mark_after mark reason m.marked;
  },
)

-- lastError and the boot error of a failed call.
abbrev pub fails : Text → Error → BootPhase → ℕ → Boot → BootResult × Boot
fails what e phase attempt m = (
  BootResult.boot_retry,
  record m {
    last_error = what ++ (codes ": " ++ error_text e);
    boot_error = some (BootCause.boot_failure e phase attempt);
  },
)

-- A step whose error ends the attempt: `on_error` is what happens to the connections, and the
-- state, before the attempt returns.
abbrev pub check :
    Option Error
    → Text
    → BootPhase
    → ℕ
    → (Boot → Boot)
    → (Boot → BootResult × Boot)
    → Boot
    → BootResult × Boot
check none what phase attempt on_error next m = next m
check (some e) what phase attempt on_error next m = fails what e phase attempt (on_error m)

abbrev unchanged : Boot → Boot
unchanged m = m

abbrev waiting : Boot → Boot
waiting m = set_state State.waiting_for_vault m

-- From the envector client to the end.
unfoldable pub boot_envector : Answers → ℕ → Boot → BootResult × Boot
boot_envector a attempt m =
    check a.envector_new (codes "envector new client") BootPhase.envector_init attempt unchanged
      (λ m.
        check a.open_index (codes "envector open index") BootPhase.envector_index attempt closed
          (λ m. (BootResult.boot_active, inject Client.envector_client m))
          (opened Client.envector_client m))
      m

-- From the key material to the embedder.
unfoldable pub boot_keys : Answers → ℕ → Boot → BootResult × Boot
unfolding boot_envector
boot_keys a attempt m =
    check a.save_enc_key (codes "save EncKey") BootPhase.key_save attempt closed
      (λ m.
        check a.key_dir (codes "resolve key dir") BootPhase.key_save attempt unchanged
          (λ m.
            check a.embedder_new (codes "embedder dial") BootPhase.embedder_dial attempt unchanged
              (λ m.
                boot_envector a attempt
                  (inject Client.embedder_client (opened Client.embedder_client m)))
              (inject Client.vault_client m))
          m)
      m

unfoldable pub boot_vault : Answers → ℕ → Boot → BootResult × Boot
unfolding boot_keys
boot_vault a attempt m =
    check a.vault_new (codes "vault dial") BootPhase.vault_dial attempt waiting
      (λ m.
        check a.manifest (codes "vault get manifest") BootPhase.vault_manifest attempt
          (λ m. closed (waiting m)) (boot_keys a attempt) (opened Client.vault_client m))
      m

-- The reason for a config that is not active.
unfoldable pub reason_of : Config → Text
reason_of c =
    if teq c.state (codes "dormant")
    then (if is_empty c.dormant_reason then codes "user_deactivated" else c.dormant_reason)
    else if is_empty c.state
    then codes "not_configured"
    else codes "invalid_state"

unfoldable pub boot_loaded : Loaded → Answers → ℕ → Boot → BootResult × Boot
unfolding boot_vault reason_of
boot_loaded not_found a attempt m =
    go_dormant a.mark_dormant (codes "config.json not found — run /rune:configure to set up")
      (codes "not_configured") m
boot_loaded (load_failed e) a attempt m =
    fails (codes "config load") e BootPhase.config_load attempt m
boot_loaded (loaded c) a attempt m =
    let run = boot_vault a attempt m in
    if teq c.state (codes "active")
    then (if is_empty c.endpoint || is_empty c.token
        then go_dormant a.mark_dormant
            (codes "vault endpoint or token missing in config — run /rune:configure")
            (codes "vault_unconfigured") m
        else run)
    else go_dormant a.mark_dormant (codes "dormant: " ++ reason_of c) (reason_of c) m

-- bootOnce
unfoldable pub boot_once : Answers → ℕ → Boot → BootResult × Boot
unfolding boot_loaded
boot_once a attempt m = boot_loaded a.config a attempt m

abbrev pub with_attempts : ℕ → Boot → Boot
with_attempts n m = record m { attempts = n }

abbrev pub activated : ℕ → Boot → Boot
activated n m = record m { state = State.active; last_error = []; boot_error = none; attempts = n }

-- The `switch` on the result; `again` is the next round of the loop.
abbrev pub after_attempt : BootResult → ℕ → (Boot → Boot) → Boot → Boot
after_attempt BootResult.boot_active n again m = activated n m
after_attempt BootResult.boot_dormant n again m = with_attempts n m
after_attempt BootResult.boot_retry n again m = again m

-- The loop: an attempt for each answer, until the context is cancelled at the end of the list.
unfoldable pub boot_loop : List Answers → ℕ → Boot → Boot
unfolding boot_once
boot_loop [] attempt m = m
boot_loop (a ∷ later) attempt m =
    let (result, m') = boot_once a attempt (with_attempts attempt m) in
    after_attempt result attempt (boot_loop later (suc attempt)) m'

-- RunBootLoop
unfoldable pub run_boot_loop : List Answers → Boot → Boot
unfolding boot_loop
run_boot_loop answers m = boot_loop answers 0 (with_attempts 0 (set_state State.starting m))
