-- ===== src/Examples/Setting.antt =====
-- A concrete outside world: no pattern matches, every search finds one record of two phases.
use rune_mcp.Prelude.{
  ℕ, suc, true, false, Option, none, some, [], ◌∷◌, ◌++◌, map, drop, take, length,
}
use rune_mcp.Prelude.Float.{fixed}
use rune_mcp.Prelude.Float.Fixed
use rune_mcp.Prelude.Json.{Json, Object, end, field}
use rune_mcp.Prelude.Text.{Text, codes}
use rune_mcp.Adapters.AesCtr.{Crypto, Envelope, Bytes}
use rune_mcp.Domain.Calendar.{Calendar}
use rune_mcp.Domain.Errors.{ok}
use rune_mcp.Policy.Regexp.{Regexp}
use rune_mcp.Service.Backend.{Backend}
use rune_mcp.Service.Recall.Flow.{Walk}

abbrev pub no_patterns : Regexp
no_patterns = record {
  match_string = λ p s. false;
  find_all = λ p s. [];
  find_all_submatch = λ p s. [];
  replace_all = λ p s r. s;
}

abbrev pub one_day : Calendar
one_day = record {
  date = λ t. codes "2026-01-02";
  rfc3339 = λ t. codes "2026-01-02T00:00:00Z";
  parse_rfc3339 = λ s. none;
}

abbrev pub half : Fixed.Fixed
half = fixed.lit 5 1

abbrev pub stored : Object Fixed.Fixed
stored = field (codes "id") (Json.str (codes "dec_1")) (
    field (codes "group_id") (Json.str (codes "grp_1"))
      (field (codes "phase_total") (Json.num (fixed.lit 2 0)) end))

-- The world counts the inserts.
abbrev pub demo : Backend Fixed.Fixed
demo = record {
  W = ℕ;
  Vec = Unit;
  Blob = Unit;
  embed_batch = λ texts w. (ok (map (λ t. tt) texts), w);
  embed_single = λ text w. (ok tt, w);
  envector_score = λ v w. (ok (tt ∷ []), w);
  get_metadata = λ refs w. (ok (map (λ r. codes "m") refs), w);
  insert = λ req w. (ok (codes "1" ∷ []), suc w);
  decrypt_scores = λ blob k w. (ok (record { shard_idx = 0; row_idx = 1; score = half } ∷ []), w);
  decrypt_metadata = λ es w. (ok [], w);
  wait_for_active = λ w. (true, w);
  base64 = λ blob. codes "b";
  base64_decode = λ s. none;
  parse_object = λ s. some stored;
}

abbrev pub plain_walk : Walk Fixed.Fixed
plain_walk = record { arrange = λ gs. gs; visit = λ gs. gs }

unfoldable pub parse_envelope : Text → Option Envelope
parse_envelope [] = none
parse_envelope (n ∷ s) = some (record { agent = take n s; cipher = drop n s })

abbrev pub demo_iv : Bytes
demo_iv = 1 ∷ 2 ∷ 3 ∷ 4 ∷ 5 ∷ 6 ∷ 7 ∷ 8 ∷ 1 ∷ 2 ∷ 3 ∷ 4 ∷ 5 ∷ 6 ∷ 7 ∷ 8 ∷ []

abbrev pub demo_crypto : Crypto ℕ
demo_crypto = record {
  random_iv = λ w. (some demo_iv, w);
  xor_key_stream = λ k iv x. x;
  encode = λ x. x;
  decode = λ s. some s;
  marshal = λ e. length e.agent ∷ (e.agent ++ e.cipher);
  unmarshal = parse_envelope;
}
