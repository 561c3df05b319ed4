-- ===== src/Examples/Tools.antt =====
-- The tools in the concrete world.
use mathlib.Core.List.Perm
use rune_mcp.Prelude.{Option, none, some, []}
use rune_mcp.Prelude.Float.{fixed}
use rune_mcp.Prelude.Float.Fixed
use rune_mcp.Prelude.Json.{Object}
use rune_mcp.Prelude.Text.{Text, ascii, codes}
use rune_mcp.Domain.Errors.{Error}
use rune_mcp.Lifecycle.Boot.{State}
use rune_mcp.Mcp.Handlers.{handle_batch_capture, handle_capture, handle_recall}
use rune_mcp.Mcp.Handlers.Laws.{
  IsAnswered, IsRefusal, IsResponse, handle_recall-Outcome, handlers-IsRefusal,
}
use rune_mcp.Service.Backend.Outcome.{Outcome}
use rune_mcp.Service.Capture.Batch.{BatchCaptureArgs}
use rune_mcp.Examples.Captures.{demo_recorder, empty_request, no_key}
use rune_mcp.Examples.Recalls.{demo_args}
use rune_mcp.Examples.Setting.{demo, demo_crypto, no_patterns, one_day, plain_walk}

abbrev no_text : Object Fixed.Fixed → Text
no_text o = []

abbrev no_body : {A : Type 0} → A → Text × Option Error
no_body a = (codes "{}", none)

abbrev no_items : BatchCaptureArgs
no_items = record { items_text = []; source = []; user = none; channel = none }

handlers-IsRefusal_example :
    IsRefusal no_text 0 (
      handle_recall ⦃fl = fixed⦄ ⦃u = ascii⦄ ⦃rx = no_patterns⦄ ⦃cal = one_day⦄ demo no_text
        (some State.starting)
        no_body
        plain_walk
        demo_args
        1
        0)
    × IsRefusal no_text 0 (
        handle_capture ⦃fl = fixed⦄ ⦃u = ascii⦄ ⦃rx = no_patterns⦄ ⦃cal = one_day⦄ demo no_text
          (some State.starting)
          demo_crypto
          demo_recorder
          no_key
          no_body
          empty_request
          1
          2
          0)
    × IsRefusal no_text 0 (
        handle_batch_capture ⦃fl = fixed⦄ ⦃u = ascii⦄ ⦃rx = no_patterns⦄ ⦃cal = one_day⦄ demo
          no_text
          (some State.starting)
          demo_crypto
          demo_recorder
          no_key
          no_body
          (λ s. none)
          no_items
          1
          2
          0)
handlers-IsRefusal_example =
    handlers-IsRefusal ⦃fl = fixed⦄ ⦃u = ascii⦄ ⦃rx = no_patterns⦄ ⦃cal = one_day⦄ demo no_text
      (some State.starting) demo_crypto demo_recorder no_key plain_walk no_body no_body no_body
      (λ s. none) demo_args empty_request no_items 1 2 0 (λ e. absurd cc)

handle_recall-Outcome_example :
    Outcome
      (IsResponse no_text no_body (
        IsAnswered ⦃fl = fixed⦄ ⦃u = ascii⦄ ⦃rx = no_patterns⦄ ⦃cal = one_day⦄ demo no_text
          (some State.active)
          plain_walk
          (λ gs. Perm.rfl)
          no_body
          demo_args))
      (λ e. ⊥)
      (handle_recall ⦃fl = fixed⦄ ⦃u = ascii⦄ ⦃rx = no_patterns⦄ ⦃cal = one_day⦄ demo no_text
        (some State.active)
        no_body
        plain_walk
        demo_args
        1
        0).0
handle_recall-Outcome_example =
    handle_recall-Outcome ⦃fl = fixed⦄ ⦃u = ascii⦄ ⦃rx = no_patterns⦄ ⦃cal = one_day⦄ demo no_text
      (some State.active) plain_walk (λ gs. Perm.rfl) no_body demo_args 1 0
