-- ===== src/Examples/Captures.antt =====
-- Captures, a batch and an envelope in the concrete world.
use mathlib.Core.Path.{subst}
use rune_mcp.Prelude.{ℕ, true, false, Option, none, some, List, [], ◌∷◌, ◌≡◌, ◌≢◌, refl, length}
use rune_mcp.Prelude.Float.{fixed}
use rune_mcp.Prelude.Float.Fixed
use rune_mcp.Prelude.Json.{Json, Object, end, field, get}
use rune_mcp.Prelude.Text.{Text, ascii, codes, teq, trim_space}
use rune_mcp.Adapters.AesCtr.{
  Bytes, IsLawful, drop-append, key_error, open-seal, open_envelope, seal, take-append,
}
use rune_mcp.Domain.Capture.{CaptureRequest, CaptureResponse}
use rune_mcp.Domain.Errors.{ok, err, other}
use rune_mcp.Domain.Extraction.{raw_phases, str_slice, str_val}
use rune_mcp.Service.Backend.{Action, pure, fail}
use rune_mcp.Service.Backend.Outcome.{Outcome}
use rune_mcp.Service.Capture.{AgentKey, Recorder, capture}
use rune_mcp.Service.Capture.Batch.{BatchCaptureArgs, batch}
use rune_mcp.Service.Capture.Batch.Tally.{IsTally, Never, batch-IsTally}
use rune_mcp.Service.Capture.Contentless.{capture-contentless, expected, is_bare}
use rune_mcp.Service.Capture.Laws.{IsCheck, run_novelty_check-IsCheck}
use rune_mcp.Service.Capture.Laws as Laws
use rune_mcp.Service.Capture.Novelty.{run_novelty_check}
use rune_mcp.Examples.Setting.{demo, demo_crypto, demo_iv, no_patterns, one_day, parse_envelope}

abbrev pub empty_request : CaptureRequest Fixed.Fixed
empty_request = record {
  text = codes " ";
  source = codes "s";
  user = [];
  channel = [];
  extracted = some end;
}

abbrev pub demo_recorder : Recorder Fixed.Fixed ℕ
demo_recorder = record {
  marshal_record = λ r. ok r.id;
  utf8 = λ s. s;
  request_id = λ w. ([], w);
  append_log = λ e w. w;
}

abbrev pub no_key : AgentKey
no_key = record { agent_id = []; agent_dek = [] }

-- An item that wraps what it should hold.
abbrev wrapped_object : Object Fixed.Fixed
wrapped_object =
    field (codes "text") (Json.str (codes "we chose Go"))
      (field (codes "extracted") (Json.obj (field (codes "title") (Json.str (codes "Go")) end)) end)

abbrev wrapper : CaptureRequest Fixed.Fixed
wrapper = record empty_request { extracted = some wrapped_object }

no_phases : raw_phases ⦃u = ascii⦄ wrapped_object ≡ []
unfolding get teq codes
no_phases = refl

blank : trim_space wrapper.text ≡ []
unfolding trim_space codes
blank = refl

-- So it is rejected.
wrapped_object-bare : is_bare wrapped_object ≡ true
unfolding str_val str_slice get teq codes
wrapped_object-bare = refl

capture-contentless_example :
    capture ⦃fl = fixed⦄ ⦃u = ascii⦄ ⦃rx = no_patterns⦄ ⦃cal = one_day⦄ demo demo_crypto
      demo_recorder no_key wrapper 1 2 0
    ≡ expected ⦃u = ascii⦄ ⦃fl = fixed⦄ ⦃rx = no_patterns⦄ ⦃cal = one_day⦄ demo demo_crypto
        demo_recorder no_key wrapper 1 2
        (some wrapped_object)
        0
capture-contentless_example =
    capture-contentless ⦃u = ascii⦄ ⦃fl = fixed⦄ ⦃rx = no_patterns⦄ ⦃cal = one_day⦄ demo demo_crypto
      demo_recorder no_key wrapper 1 2 0 blank no_phases

run_novelty_check-IsCheck_example :
    Outcome
      (IsCheck ⦃fl = fixed⦄)
      (Laws.Never ⦃fl = fixed⦄)
      (run_novelty_check ⦃fl = fixed⦄ demo (codes "text") 0).0
run_novelty_check-IsCheck_example = run_novelty_check-IsCheck ⦃fl = fixed⦄ demo (codes "text") 0

abbrev two_items : List (Option (Object Fixed.Fixed))
two_items = some end ∷ none ∷ []

abbrev batch_args : BatchCaptureArgs
batch_args = record { items_text = codes "[{},null]"; source = []; user = none; channel = none }

-- A capture that rejects a nil extraction and skips every other item.
abbrev skip : CaptureRequest Fixed.Fixed → Action ℕ (CaptureResponse Fixed.Fixed)
skip req = elim req.extracted [
  | none ↦ fail (other (codes "extracted JSON is nil"))
  | some m ↦ pure (record {
    okay = true;
    captured = false;
    record_id = [];
    title = [];
    domain = none;
    reason = [];
    novelty = none;
  })
]

batch-IsTally_example :
    Outcome (IsTally 2 2) (Never skip) (batch skip (λ s. some two_items) batch_args 0).0
batch-IsTally_example = batch-IsTally skip (λ s. some two_items) batch_args two_items 0 refl

abbrev pub demo_key : Bytes
demo_key =
    1 ∷ 2 ∷ 3 ∷ 4 ∷ 5 ∷ 6 ∷ 7 ∷ 8 ∷ 1 ∷ 2 ∷ 3 ∷ 4 ∷ 5 ∷ 6 ∷ 7 ∷ 8 ∷ 1 ∷ 2 ∷ 3 ∷ 4 ∷ 5 ∷ 6 ∷ 7 ∷ 8
    ∷ 1 ∷ 2 ∷ 3 ∷ 4 ∷ 5 ∷ 6 ∷ 7 ∷ 8 ∷ []

some-injective : {x y : Bytes} → some x ≡ some y → x ≡ y
some-injective e = cc

iv_known : (iv : Bytes) → some demo_iv ≡ some iv → length iv ≡ 16
iv_known iv e = subst (λ x. length x ≡ 16) (some-injective e) refl

pub demo_crypto-IsLawful : IsLawful demo_crypto
unfolding parse_envelope
demo_crypto-IsLawful = record {
  iv_length = λ w iv e. iv_known iv e;
  involutive = λ k iv x. refl;
  decode-encode = λ x. refl;
  unmarshal-marshal = λ e.
      rw (take-append e.agent e.cipher (length e.agent) refl)
        (rw (drop-append e.agent e.cipher (length e.agent) refl) refl);
}

open-seal_example :
    (length demo_key ≡ 32
      → (s : Text) → (seal demo_crypto demo_key (codes "agent") (7 ∷ []) 0).0 ≡ ok s
      → open_envelope demo_crypto demo_key (codes "agent") s ≡ ok (7 ∷ []))
    × (length demo_key ≢ 32
        → seal demo_crypto demo_key (codes "agent") (7 ∷ []) 0 ≡ (err (key_error demo_key), 0))
open-seal_example = open-seal demo_crypto demo_crypto-IsLawful demo_key (codes "agent") (7 ∷ []) 0
