-- ===== src/Examples/Adapters.antt =====
-- Calls of the daemons that fail and are repeated, and a config that is marked dormant.
use rune_mcp.Prelude.{◌∷◌, true, ℕ, false, Option, none, some, [], ◌≡◌, refl, ◌+◌}
use rune_mcp.Prelude.Text.{Text, codes, is_empty}
use rune_mcp.Adapters.Config.{Config, Loaded, clear_dormant, load, mark_dormant, saved}
use rune_mcp.Adapters.Retry.{IsBetween, counting_call, counting_sleep, retry, retry-IsBetween}
use rune_mcp.Domain.Errors.{Adapter, Error, GrpcCode, Result, err, grpc, ok, typed}
use rune_mcp.Examples.Boots.{answers, fresh, good_config}
use rune_mcp.Lifecycle.Boot.{Answers, BootCause, BootResult, State, boot_once}
use rune_mcp.Lifecycle.Boot.Restart.{IsMarked, mark_dormant-survives}
use rune_mcp.Lifecycle.Interceptor.{IsMended, unary_recovery, unary_recovery-IsMended}
use rune_mcp.Lifecycle.Retrigger.{Reachable, Step, System}
use rune_mcp.Prelude.{zero, suc}
use rune_mcp.Prelude.Float.Fixed
use rune_mcp.Service.Backend.{Backend, InsertRequest}
use rune_mcp.Service.Recovery.{insert_with_recovery, score_with_recovery}
use rune_mcp.Service.Recovery.Once.{
  IsDone, IsInsertOnce, IsScoreOnce, insert_with_recovery-IsInsertOnce, logging,
  score_with_recovery-IsScoreOnce,
}
use rune_mcp.Examples.Setting.{demo}

abbrev over_limit : Error
over_limit = grpc GrpcCode.invalid_argument (codes "top_k 50 exceeds limit 10") (codes "rpc error")

abbrev down : Error
down = grpc GrpcCode.unavailable (codes "down") (codes "rpc error: down")

-- A daemon that stays down, with the time that was waited.
abbrev wait_for : ℕ → ℕ → Option Error × ℕ
wait_for d t = (none, t + d)

abbrev down_call : ℕ → Result ℕ × ℕ
down_call t = (err down, t)

retry-IsBetween_example :
    IsBetween wait_for down_call 1 3
      (retry (counting_sleep wait_for down_call) (counting_call wait_for down_call) (0, 0))
retry-IsBetween_example = retry-IsBetween wait_for down_call 0 0

abbrev now : Text
now = codes "2026-01-01T00:00:00Z"

abbrev by_user : Text
by_user = codes "user_deactivated"

abbrev marked_answers : Answers
marked_answers = record (answers none none) {
  config = load [] (
      saved (mark_dormant by_user now (load [] (Loaded.loaded good_config)))
        (Loaded.loaded good_config));
}

mark_dormant-survives_example :
    IsMarked by_user good_config marked_answers.config
    × (mark_dormant by_user now marked_answers.config ≡ none)
    × (is_empty by_user ≡ false
        → ((boot_once marked_answers 0 fresh).0 ≡ BootResult.boot_dormant)
          × ((boot_once marked_answers 0 fresh).1.boot_error
              ≡ some (BootCause.dormant_reason by_user)))
mark_dormant-survives_example =
    mark_dormant-survives by_user now now (Loaded.loaded good_config) marked_answers 0 fresh refl

abbrev dormant_config : Config
dormant_config = record good_config { state = codes "dormant"; dormant_reason = by_user }

abbrev cleared_answers : Answers
cleared_answers = record (answers none none) {
  config = load [] (saved (clear_dormant dormant_config) (Loaded.loaded dormant_config));
}

-- enVector loses the connection once, on the first call.
abbrev lost : Error
lost =
    typed
      (record {
        adapter = Adapter.envector;
        code = codes "ENVECTOR_CONNECTION_LOST";
        message = codes "down";
        retryable = true;
      })
      down

abbrev once_lost : {A : Type 0} → A → ℕ → Result A × ℕ
once_lost x zero = (err lost, 1)
once_lost x (suc n) = (ok x, suc n)

abbrev flaky : Backend Fixed.Fixed
flaky = record demo {
  insert = λ req. once_lost (codes "1" ∷ []);
  envector_score = λ v. once_lost (tt ∷ []);
}

abbrev two_records : InsertRequest Unit
two_records = record { vectors = tt ∷ tt ∷ []; metadata = []; request_id = codes "r" }

insert_with_recovery-IsInsertOnce_example :
    IsDone flaky (IsInsertOnce flaky) (insert_with_recovery (logging flaky) two_records (0, []))
insert_with_recovery-IsInsertOnce_example = insert_with_recovery-IsInsertOnce flaky two_records 0

score_with_recovery-IsScoreOnce_example :
    IsDone flaky (IsScoreOnce flaky) (score_with_recovery (logging flaky) tt (0, []))
score_with_recovery-IsScoreOnce_example = score_with_recovery-IsScoreOnce flaky tt 0

-- The process is active when a unary call fails.
abbrev running : System
running = record { state = State.active; live = 0 }

abbrev unary_down : ℕ × System → Option Error × (ℕ × System)
unary_down (t, s) = (some down, (suc t, s))

running-Reachable : Reachable running
running-Reachable = Reachable.next Reachable.start Step.ends_active

unary_recovery-IsMended_example :
    ((unary_recovery true unary_down (0, running)).0 ≡ some down)
    × ((unary_recovery true unary_down (0, running)).1.0 ≡ 1)
    × IsMended (some down) running (unary_recovery true unary_down (0, running)).1.1
unary_recovery-IsMended_example = unary_recovery-IsMended unary_down (0, running) running-Reachable
