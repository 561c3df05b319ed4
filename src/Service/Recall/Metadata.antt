-- ===== src/Service/Recall/Metadata.antt =====
-- Metadata entries: classification, decryption in a batch or one by one, conversion to hits.
use rune_mcp.Prelude.{Bool, true, false, ◌&&◌, Option, none, some, List, [], ◌∷◌, if◌then◌else◌}
use rune_mcp.Prelude.Float.{Float, fgt, fzero}
use rune_mcp.Prelude.Int.{ℤ}
use rune_mcp.Prelude.Json.{Json, Object, as_float, as_object, as_string, get}
use rune_mcp.Prelude.Text.{Text, codes, is_empty, trim_space}
use rune_mcp.Domain.Query.{SearchHit}
use rune_mcp.Service.Backend.{Action, Backend, ScoreEntry, either, pure, ◌>>=◌}

pub data MetadataFormat : Type 0 where
  unrecognized aes_envelope plain_json base64_json : MetadataFormat

abbrev string_or : Option Text → Text → Text
string_or none def = def
string_or (some []) def = def
string_or (some (c ∷ s)) def = c ∷ s

unfoldable pub str_from_map : {F : Type 0} → Object F → Text → Text → Text
str_from_map m key def = string_or (as_string (get m key)) def

abbrev non_empty : Option Text → Option Text
non_empty none = none
non_empty (some []) = none
non_empty (some (c ∷ s)) = some (c ∷ s)

abbrev or_nothing : Option Text → Text
or_nothing none = []
or_nothing (some s) = s

module _ {F : Type 0} where
  abbrev text_of : Option (Object F) → Text
  text_of none = []
  text_of (some payload) = or_nothing (as_string (get payload (codes "text")))

  -- ExtractPayloadText
  unfoldable pub extract_payload_text : Object F → Text
  extract_payload_text metadata = text_of (as_object (get metadata (codes "payload")))

  abbrev certainty_of : Option (Object F) → Text
  certainty_of none = codes "unknown"
  certainty_of (some why) = str_from_map why (codes "certainty") (codes "unknown")

  abbrev pub has_key : Option (Json F) → Bool
  has_key none = false
  has_key (some v) = true

module _ ⦃fl : Float⦄ where
  abbrev pub by_score : SearchHit fl.F → SearchHit fl.F → Bool
  by_score h k = fgt h.score k.score

  abbrev int_of : Option fl.F → Option ℤ
  int_of none = none
  int_of (some x) = some (fl.trunc x)

  unfoldable pub to_search_hit : Object fl.F → fl.F → SearchHit fl.F
  unfolding str_from_map extract_payload_text
  to_search_hit metadata score = record {
    record_id = str_from_map metadata (codes "id") (codes "unknown");
    title = str_from_map metadata (codes "title") (codes "Untitled");
    payload_text = extract_payload_text metadata;
    domain = str_from_map metadata (codes "domain") (codes "general");
    certainty = certainty_of (as_object (get metadata (codes "why")));
    status = str_from_map metadata (codes "status") (codes "unknown");
    score = score;
    reusable_insight = or_nothing (as_string (get metadata (codes "reusable_insight")));
    adjusted_score = fzero;
    metadata = metadata;
    group_id = non_empty (as_string (get metadata (codes "group_id")));
    group_type = non_empty (as_string (get metadata (codes "group_type")));
    phase_seq = int_of (as_float (get metadata (codes "phase_seq")));
    phase_total = int_of (as_float (get metadata (codes "phase_total")));
  }

-- classifiedItem, without the fields that only repeat the loop's index and entry.
pub record ClassifiedItem (F : Type 0) : Type 0 where
  pub format : MetadataFormat
  pub parsed : Option (Object F)
  pub raw : Text
  pub score : F

module _ ⦃fl : Float⦄ (b : Backend fl.F) where
  abbrev pub classify_object : Object fl.F → MetadataFormat × Option (Object fl.F)
  classify_object m =
      if has_key (get m (codes "a")) && has_key (get m (codes "c"))
      then (MetadataFormat.aes_envelope, none)
      else (MetadataFormat.plain_json, some m)

  abbrev pub classify_decoded : Option (Object fl.F) → MetadataFormat × Option (Object fl.F)
  classify_decoded none = (MetadataFormat.unrecognized, none)
  classify_decoded (some m) = (MetadataFormat.base64_json, some m)

  abbrev pub classify_base64 : Option Text → MetadataFormat × Option (Object fl.F)
  classify_base64 none = (MetadataFormat.unrecognized, none)
  classify_base64 (some decoded) = classify_decoded (b.parse_object decoded)

  abbrev pub classify_parsed : Option (Object fl.F) → Text → MetadataFormat × Option (Object fl.F)
  classify_parsed none data_ = classify_base64 (b.base64_decode data_)
  classify_parsed (some m) data_ = classify_object m

  unfoldable pub classify_metadata : Text → MetadataFormat × Option (Object fl.F)
  classify_metadata entry =
      let data_ = trim_space entry in
      if is_empty data_
      then (MetadataFormat.unrecognized, none)
      else classify_parsed (b.parse_object data_) data_

  abbrev pub score_at : List (ScoreEntry fl.F) → fl.F
  score_at [] = fzero
  score_at (s ∷ ss) = s.score

  abbrev pub rest_of : List (ScoreEntry fl.F) → List (ScoreEntry fl.F)
  rest_of [] = []
  rest_of (s ∷ ss) = ss

  -- The first loop: `scores` is `scores[i:]`. An entry without a score gets 0.
  unfoldable pub classify_entries : List Text → List (ScoreEntry fl.F) → List (ClassifiedItem fl.F)
  unfolding classify_metadata
  classify_entries [] scores = []
  classify_entries (e ∷ es) scores =
      let (f, parsed) = classify_metadata e in
      record { format = f; parsed = parsed; raw = e; score = score_at scores }
      ∷ classify_entries es (rest_of scores)

  abbrev is_envelope : MetadataFormat → Bool
  is_envelope MetadataFormat.aes_envelope = true
  is_envelope _ = false

  -- `aesList`
  unfoldable pub envelopes : List (ClassifiedItem fl.F) → List Text
  envelopes [] = []
  envelopes (it ∷ its) = if is_envelope it.format then it.raw ∷ envelopes its else envelopes its

  -- The item with its decrypted text, if that parses.
  abbrev decrypted_item : ClassifiedItem fl.F → Option (Object fl.F) → ClassifiedItem fl.F
  decrypted_item it none = it
  decrypted_item it (some m) = record it { parsed = some m; format = MetadataFormat.plain_json }

  abbrev text_item : ClassifiedItem fl.F → List Text → ClassifiedItem fl.F
  text_item it [] = it
  text_item it (t ∷ ts) = decrypted_item it (b.parse_object t)

  abbrev tail_texts : List Text → List Text
  tail_texts [] = []
  tail_texts (t ∷ ts) = ts

  -- The answer of the batch: its j-th text belongs to the j-th envelope.
  unfoldable pub apply_batch : List (ClassifiedItem fl.F) → List Text → List (ClassifiedItem fl.F)
  apply_batch [] texts = []
  apply_batch (it ∷ its) texts =
      let here = text_item it texts ∷ apply_batch its (tail_texts texts) in
      let skip = it ∷ apply_batch its texts in if is_envelope it.format then here else skip

  -- The fallback: a call for each envelope, whose error leaves the item as it is.
  unfoldable pub decrypt_one_by_one :
      List (ClassifiedItem fl.F) → Action b.W (List (ClassifiedItem fl.F))
  decrypt_one_by_one [] = pure []
  decrypt_one_by_one (it ∷ its) =
      let rest = decrypt_one_by_one its in
      if is_envelope it.format
      then either (b.decrypt_metadata (it.raw ∷ []))
          (λ texts. rest >>= λ done. pure (text_item it texts ∷ done))
          (λ e. rest >>= λ done. pure (it ∷ done))
      else (rest >>= λ done. pure (it ∷ done))

  unfoldable pub decrypt_items :
      List (ClassifiedItem fl.F) → Action b.W (List (ClassifiedItem fl.F))
  unfolding envelopes apply_batch decrypt_one_by_one
  decrypt_items its = elim (envelopes its) [
    | [] ↦ pure its
    | e ∷ es ↦
        either (b.decrypt_metadata (e ∷ es)) (λ texts. pure (apply_batch its texts))
          (λ err. decrypt_one_by_one its)
  ]

  abbrev push_hit : Option (Object fl.F) → fl.F → List (SearchHit fl.F) → List (SearchHit fl.F)
  push_hit none score hits = hits
  push_hit (some m) score hits = to_search_hit m score ∷ hits

  -- The last loop: an item with no parsed metadata is left out.
  unfoldable pub hits_of : List (ClassifiedItem fl.F) → List (SearchHit fl.F)
  hits_of [] = []
  hits_of (it ∷ its) = push_hit it.parsed it.score (hits_of its)

  unfoldable pub resolve_metadata :
      List Text → List (ScoreEntry fl.F) → Action b.W (List (SearchHit fl.F))
  unfolding classify_entries decrypt_items hits_of
  resolve_metadata entries scores =
      decrypt_items (classify_entries entries scores) >>= λ its. pure (hits_of its)
