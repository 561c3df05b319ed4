-- ===== src/Examples/Deletes.antt =====
-- Deletions in the concrete world, and in one whose metadata is sealed.
use rune_mcp.Prelude.{ℕ, Option, some, List, [], ◌∷◌, All, refl}
use rune_mcp.Prelude.Float.{fixed}
use rune_mcp.Prelude.Float.Fixed
use rune_mcp.Prelude.Json.{Json, Object, end, field, get}
use rune_mcp.Prelude.Text.{Text, codes, teq, trim_space}
use rune_mcp.Domain.Capture.{CaptureLogEntry}
use rune_mcp.Domain.Errors.{Result, ok}
use rune_mcp.Service.Backend.{Backend, MetadataRef}
use rune_mcp.Service.Backend.Outcome.{Ends, Outcome}
use rune_mcp.Service.Capture.{AgentKey}
use rune_mcp.Service.Lifecycle.Delete.{delete_capture}
use rune_mcp.Service.Lifecycle.Delete.Found.{IsEnvelope}
use rune_mcp.Service.Lifecycle.Delete.Laws.{
  IsDeletion, delete_capture-Outcome, delete_capture-sealed,
}
use rune_mcp.Service.Recall.Metadata.{classify_metadata}
use rune_mcp.Examples.Captures.{demo_key}
use rune_mcp.Examples.Setting.{demo, demo_crypto, one_day}

abbrev agent : Option AgentKey
agent = some (record { agent_id = codes "agent"; agent_dek = demo_key })

abbrev no_marshal : Object Fixed.Fixed → Result Text
no_marshal m = ok (codes "{}")

abbrev no_log : CaptureLogEntry Fixed.Fixed → ℕ → ℕ
no_log e w = w

delete_capture-Outcome_example :
    Ends
      (IsDeletion ⦃fl = fixed⦄ ⦃cal = one_day⦄ demo demo_crypto no_marshal
        (λ s. s)
        no_log
        agent
        (codes "dec_1")
        1
        0)
      (delete_capture ⦃fl = fixed⦄ demo ⦃cal = one_day⦄ demo_crypto no_marshal
        (λ s. s)
        no_log
        agent
        (codes "dec_1")
        1
        0)
delete_capture-Outcome_example =
    delete_capture-Outcome ⦃fl = fixed⦄ ⦃cal = one_day⦄ demo demo_crypto no_marshal (λ s. s) no_log
      agent (codes "dec_1") 1 0

abbrev envelope : Object Fixed.Fixed
envelope = field (codes "a") (Json.str []) (field (codes "c") (Json.str []) end)

abbrev sealed_world : Backend Fixed.Fixed
sealed_world = record demo {
  get_metadata = λ refs w. (ok (codes "m" ∷ []), w);
  parse_object = λ s. some envelope;
}

is_sealed :
    (refs : List MetadataRef) (w : ℕ)
    → Outcome
        (All (IsEnvelope ⦃fl = fixed⦄ sealed_world))
        (λ e. Unit {0})
        (sealed_world.get_metadata refs w).0
unfolding classify_metadata get teq trim_space codes
is_sealed refs w = (refl, tt)

delete_capture-sealed_example :
    Outcome
      (λ r. ⊥)
      (λ e. Unit {0})
      (delete_capture ⦃fl = fixed⦄ sealed_world ⦃cal = one_day⦄ demo_crypto no_marshal
        (λ s. s)
        no_log
        agent
        (codes "dec_1")
        1
        0).0
delete_capture-sealed_example =
    delete_capture-sealed ⦃fl = fixed⦄ ⦃cal = one_day⦄ sealed_world demo_crypto no_marshal (λ s. s)
      no_log agent (codes "dec_1") 1 0 is_sealed
