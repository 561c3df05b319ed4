-- ===== src/Mcp/Handlers/Laws.antt =====
-- The gate of the write tools, and what a recall answers through its handler.
use mathlib.Core.List.{Perm}
use mathlib.Core.Path.{subst}
use rune_mcp.Service.Recall.Groups.{Group}
use rune_mcp.Prelude.{
  ◌≤◌, Bool, true, false, Option, none, some, List, ◌≡◌, refl, arith, length, length-map,
  if◌then◌else◌,
}
use rune_mcp.Prelude.Float.{Float}
use rune_mcp.Prelude.Int.{ℤ, pos, ltb_ℤ, negsuc, pos_part}
use rune_mcp.Prelude.Json.{Object}
use rune_mcp.Prelude.Text.{Text, Unicode, codes, is_empty, trim_space}
use rune_mcp.Adapters.AesCtr.{Crypto}
use rune_mcp.Domain.Calendar.{Calendar, Time}
use rune_mcp.Domain.Capture.{CaptureRequest, CaptureResponse}
use rune_mcp.Domain.Errors.{Code, Error, Result, RuneError, err, err_invalid_input, ok, panic, rune}
use rune_mcp.Domain.Query.{RecallArgs, RecallResult}
use rune_mcp.Lifecycle.Boot.{State}
use rune_mcp.Mcp.Handlers.{
  CallToolResult, error_result, gated, handle_batch_capture, handle_capture, handle_recall,
  ok_result, respond,
}
use rune_mcp.Mcp.State.{capped, check_state, defaulted, top_k_error, validate_recall_args}
use rune_mcp.Policy.Regexp.{Regexp}
use rune_mcp.Service.Backend.{Action, Backend, continue, handled, lift, ◌>>=◌}
use rune_mcp.Service.Backend.Outcome.{Outcome, Outcome-map}
use rune_mcp.Service.Capture.{AgentKey, Recorder}
use rune_mcp.Service.Capture.Batch.{BatchCaptureArgs, BatchCaptureResult}
use rune_mcp.Service.Recall.Answer.{entry_of}
use rune_mcp.Service.Recall.Flow.{Walk, recall, top_k_of}
use rune_mcp.Service.Recall.Flow.Outcome.{IsRecallAnswer, IsRecallError, recall-Outcome}

-- A call that is refused for the state: no world is changed.
abbrev pub IsRefusal :
    {F W A : Type 0} → (Object F → Text) → W → Result (CallToolResult × Option A) × W → Type 0
IsRefusal marshal_map w r =
    (e : RuneError) × (r ≡ (ok (error_result marshal_map (rune e), none), w))
    × (e.code ≡ Code.pipeline_not_ready)
    × (is_empty e.recovery_hint ≡ false)

module _ {F W A : Type 0} (marshal_map : Object F → Text) (marshal : A → Text × Option Error) where
  respond-IsRefusal :
      (state : Option State) (act : Action W A) (w : W)
      → (state ≡ some State.active → ⊥)
      → IsRefusal marshal_map w (respond marshal_map marshal (gated state act) w)
  unfolding respond gated check_state codes
  respond-IsRefusal none act w h = (_, refl, refl, refl)
  respond-IsRefusal (some State.active) act w h = absurd (h refl)
  respond-IsRefusal (some State.starting) act w h = (_, refl, refl, refl)
  respond-IsRefusal (some State.waiting_for_vault) act w h = (_, refl, refl, refl)
  respond-IsRefusal (some State.dormant) act w h = (_, refl, refl, refl)

module _ {F A : Type 0} (marshal_map : Object F → Text) (marshal : A → Text × Option Error) where
  -- An answer with its content, or an error without.
  abbrev pub IsResponse : (A → Type 0) → CallToolResult × Option A → Type 0
  IsResponse P (r, some out) = (r ≡ ok_result marshal_map (marshal out)) × P out
  IsResponse P (r, none) = r.is_error ≡ true

  respond-Outcome :
      {W : Type 0} (P : A → Type 0) (Q : Error → Type 0) (act : Action W A) (w : W)
      → Outcome P Q (act w).0
      → Outcome (IsResponse P) (λ e. ⊥) (respond marshal_map marshal act w).0
  unfolding respond
  respond-Outcome {W} P Q act w h = handled_case (act w).0 (act w).1 h
    where
      handled_case :
          (r : Result A) (w' : W)
          → Outcome P Q r
          → Outcome
              (IsResponse P)
              (λ e. ⊥)
              (handled r
                (λ out w. (ok (ok_result marshal_map (marshal out), some out), w))
                (λ e w. (ok (error_result marshal_map e, none), w))
                w').0
      handled_case (ok out) w' k = (refl, k)
      handled_case (err e) w' k = refl
      handled_case panic w' k = tt

top_k_of_bound : (k : ℤ) → ltb_ℤ (pos 50) k ≡ false → pos_part (top_k_of k) ≤ 50
top_k_of_bound (pos n) h = ground arith
top_k_of_bound (negsuc n) h = ground arith

capped-top_k :
    (args args' : RecallArgs) → capped args ≡ ok args' → pos_part (top_k_of args'.top_k) ≤ 50
capped-top_k args args' h = decided (ltb_ℤ (pos 50) args.top_k) refl h
  where
    decided :
        (b : Bool)
        → ltb_ℤ (pos 50) args.top_k ≡ b
        → (if b then err (top_k_error args.top_k) else ok args) ≡ ok args'
        → pos_part (top_k_of args'.top_k) ≤ 50
    decided true e k = absurd cc
    decided false e k =
        let same : args ≡ args' = cc in
        subst (λ (a : RecallArgs). pos_part (top_k_of a.top_k) ≤ 50) same
          (top_k_of_bound args.top_k e)

validated-top_k :
    (args args' : RecallArgs)
    → validate_recall_args args ≡ ok args'
    → pos_part (top_k_of args'.top_k) ≤ 50
unfolding validate_recall_args
validated-top_k args args' h = decided (is_empty (trim_space args.query)) h
  where
    decided :
        (b : Bool)
        → (if b then err (rune err_invalid_input) else capped (defaulted args)) ≡ ok args'
        → pos_part (top_k_of args'.top_k) ≤ 50
    decided true k = absurd cc
    decided false k = capped-top_k (defaulted args) args' k

module _ ⦃fl : Float⦄ ⦃u : Unicode⦄ ⦃rx : Regexp⦄ ⦃cal : Calendar⦄ (b : Backend fl.F)
    (marshal_map : Object fl.F → Text) (state : Option State) where
  -- While the state is not Active, every write tool answers with PIPELINE_NOT_READY and a hint, whatever
  -- its arguments, and calls no daemon and writes nothing: the world is as it was.
  pub handlers-IsRefusal :
      (crypto : Crypto b.W) (rec : Recorder fl.F b.W) (key : AgentKey) (walk : Walk fl.F)
      (recalled : RecallResult fl.F → Text × Option Error)
      (captured : CaptureResponse fl.F → Text × Option Error)
      (batched : BatchCaptureResult → Text × Option Error)
      (parse_items : Text → Option (List (Option (Object fl.F)))) (args : RecallArgs)
      (req : CaptureRequest fl.F) (items : BatchCaptureArgs) (now later : Time) (w : b.W)
      → (state ≡ some State.active → ⊥)
      → IsRefusal marshal_map w (handle_recall b marshal_map state recalled walk args now w)
        × IsRefusal marshal_map w
            (handle_capture b marshal_map state crypto rec key captured req now later w)
        × IsRefusal marshal_map w (
            handle_batch_capture b marshal_map state crypto rec key batched parse_items items now
              later w)
  unfolding handle_recall handle_capture handle_batch_capture
  handlers-IsRefusal crypto rec key walk recalled captured batched parse_items args req items now
        later w h =
      (
        respond-IsRefusal marshal_map recalled state _ w h,
        respond-IsRefusal marshal_map captured state _ w h,
        respond-IsRefusal marshal_map batched state _ w h,
      )

  module _ (walk : Walk fl.F) (visits : (gs : List (Group fl.F)) → Perm (walk.visit gs) gs)
      (marshal : RecallResult fl.F → Text × Option Error) where
    -- An answer to checked arguments, of at most 50 results.
    abbrev pub IsAnswered : RecallArgs → RecallResult fl.F → Type 0
    IsAnswered args out =
        (state ≡ some State.active)
        × ((args' : RecallArgs) × (validate_recall_args args ≡ ok args')
            × IsRecallAnswer b walk visits args' out)
        × (out.found ≤ 50)

    IsRecallAnswer-found :
        (args : RecallArgs) (out : RecallResult fl.F)
        → IsRecallAnswer b walk visits args out
        → out.found ≤ pos_part (top_k_of args.top_k)
    IsRecallAnswer-found args out (hits, ranked, results, found, _, _) =
        let n : length out.results ≡ length hits = rw results (length-map hits entry_of) in
        omega (arith, ranked.0)

    checked-Outcome :
        (args : RecallArgs) (now : Time) (w : b.W) (v : Result RecallArgs)
        → state ≡ some State.active
        → validate_recall_args args ≡ v
        → Outcome
            (IsAnswered args)
            (λ e. Unit {0})
            (continue v (λ args. recall b walk args now) w).0
    checked-Outcome args now w (ok args') s e =
        Outcome-map (IsRecallAnswer b walk visits args') (IsAnswered args) (IsRecallError b)
          (λ e. Unit {0}) (recall b walk args' now w).0
          (λ out h. (
            s,
            (args', e, h),
            (let n = IsRecallAnswer-found args' out h in
                omega (arith, validated-top_k args args' e)),
          ))
          (λ e q. tt) (recall-Outcome b walk visits args' now w)
    checked-Outcome args now w (err x) s e = tt
    checked-Outcome args now w panic s e = tt

    gated-Outcome :
        (args : RecallArgs) (now : Time) (w : b.W) (st : Option State)
        → state ≡ st
        → Outcome
            (IsAnswered args)
            (λ e. Unit {0})
            (gated st (lift (validate_recall_args args) >>= λ args. recall b walk args now) w).0
    unfolding gated check_state
    gated-Outcome args now w none s = tt
    gated-Outcome args now w (some State.active) s =
        checked-Outcome args now w (validate_recall_args args) s refl
    gated-Outcome args now w (some State.starting) s = tt
    gated-Outcome args now w (some State.waiting_for_vault) s = tt
    gated-Outcome args now w (some State.dormant) s = tt

    -- The recall tool, whatever the daemons answer and in whatever order Go visits the map of the
    -- groups: it returns structured content only while the state is Active and the arguments pass, and
    -- then it is an answer to them with at most 50 results, beside its text; else it is an error.
    pub handle_recall-Outcome :
        (args : RecallArgs) (now : Time) (w : b.W)
        → Outcome
            (IsResponse marshal_map marshal (IsAnswered args))
            (λ e. ⊥)
            (handle_recall b marshal_map state marshal walk args now w).0
    unfolding handle_recall
    handle_recall-Outcome args now w =
        respond-Outcome marshal_map marshal (IsAnswered args) (λ e. Unit {0})
          (gated state (lift (validate_recall_args args) >>= λ args. recall b walk args now)) w
          (gated-Outcome args now w state refl)
