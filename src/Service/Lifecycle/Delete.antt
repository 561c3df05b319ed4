-- ===== src/Service/Lifecycle/Delete.antt =====
-- DeleteCapture, with SearchByID of internal/service/search.go.
pub mod Found
pub mod Laws
use rune_mcp.Prelude.{
  ℕ, Bool, true, false, not, ◌&&◌, Option, none, some, List, [], ◌∷◌, ◌++◌, if◌then◌else◌,
}
use rune_mcp.Prelude.Float.{Float}
use rune_mcp.Prelude.Int.{pos}
use rune_mcp.Prelude.Json.{Json, Object, end, field}
use rune_mcp.Prelude.Text.{Text, codes, is_empty, teq}
use rune_mcp.Adapters.AesCtr.{Bytes, Crypto, seal}
use rune_mcp.Domain.Calendar.{Calendar, Time}
use rune_mcp.Domain.Capture.{CaptureLogEntry}
use rune_mcp.Domain.Errors.{Code, Error, Result, other, rune}
use rune_mcp.Domain.Query.{SearchHit}
use rune_mcp.Service.Backend.{
  Action, Backend, InsertRequest, MetadataRef, ScoreEntry, fail, lift, pure, wrapping, ◌>>=◌,
}
use rune_mcp.Service.Capture.{AgentKey}
use rune_mcp.Service.Recall.Metadata.{classify_metadata, rest_of, score_at, to_search_hit}
use rune_mcp.Service.Recall.Search.{refs_of}

pub record DeleteCaptureResult : Type 0 where
  pub okay : Bool
  pub deleted : Bool
  pub record_id : Text
  pub title : Text
  pub method : Text

-- `m[key] = v`
unfoldable pub set_field : {F : Type 0} → Object F → Text → Json F → Object F
set_field end key v = field key v end
set_field (field k x m) key v =
    let rest = set_field m key v in if teq k key then field k v m else field k x rest

abbrev pub reverted : {F : Type 0} → Object F → Object F
reverted m = set_field m (codes "status") (Json.str (codes "reverted"))

module _ ⦃fl : Float⦄ (b : Backend fl.F) where
  -- An entry with its parsed metadata: the hit, if it has the id.
  abbrev pub hit_or :
      Text → fl.F → Option (SearchHit fl.F) → Option (Object fl.F) → Option (SearchHit fl.F)
  hit_or id score rest none = rest
  hit_or id score rest (some m) =
      let hit = to_search_hit m score in if teq hit.record_id id then some hit else rest

  -- The loop over the entries; `scores` are those of the entries that are left.
  unfoldable pub find_hit : Text → List Text → List (ScoreEntry fl.F) → Option (SearchHit fl.F)
  find_hit id [] scores = none
  find_hit id (e ∷ es) scores =
      hit_or id (score_at b scores) (find_hit id es (rest_of b scores)) (classify_metadata b e).1

  abbrev pub search_blobs : Text → List b.Blob → Action b.W (Option (SearchHit fl.F))
  search_blobs id [] = pure none
  search_blobs id (blob ∷ blobs) =
      wrapping (codes "search by ID: decrypt scores") (b.decrypt_scores (b.base64 blob) (pos 5))
      >>= λ scores.
          wrapping (codes "search by ID: get metadata") (b.get_metadata (refs_of b scores))
          >>= λ metas. pure (find_hit id metas scores)

  unfoldable pub search_by_id : Text → Action b.W (Option (SearchHit fl.F))
  unfolding find_hit
  search_by_id id =
      wrapping (codes "search by ID: embed") (b.embed_single (codes "ID: " ++ id)) >>= λ vec.
      wrapping (codes "search by ID: score") (b.envector_score vec) >>= search_blobs id

  abbrev pub not_found : Text → Error
  not_found id = rune (record {
    code = Code.invalid_input;
    message = codes "record " ++ (id ++ codes " not found");
    retryable = false;
    recovery_hint = [];
  })

  abbrev pub embed_text_of : SearchHit fl.F → Text
  embed_text_of hit =
      if is_empty hit.reusable_insight then hit.payload_text else hit.reusable_insight

  -- json.Marshal of the metadata, the bytes of a string, and the append to the capture log, whose
  -- error is dropped.
  module _ ⦃cal : Calendar⦄ (crypto : Crypto b.W) (marshal_map : Object fl.F → Result Text)
      (utf8 : Text → Bytes) (append_log : CaptureLogEntry fl.F → b.W → b.W) where
    abbrev pub usable_key : Option AgentKey → Option AgentKey
    usable_key none = none
    usable_key (some k) =
        if not (is_empty k.agent_dek) && not (is_empty k.agent_id) then some k else none

    abbrev pub seal_body : Option AgentKey → Text → Action b.W Text
    seal_body none body = fail (other (codes "delete: missing agent DEK or ID for encryption"))
    seal_body (some k) body =
        wrapping (codes "delete: seal") (seal crypto k.agent_dek k.agent_id (utf8 body))

    abbrev pub delete_entry : Text → SearchHit fl.F → Time → CaptureLogEntry fl.F
    delete_entry id hit now = record {
      ts = cal.rfc3339 now;
      action = codes "deleted";
      id = id;
      title = hit.title;
      domain = hit.domain;
      mode = codes "soft-delete";
      novelty_class = none;
      novelty_score = none;
    }

    abbrev pub deletion : Text → SearchHit fl.F → DeleteCaptureResult
    deletion id hit = record {
      okay = true;
      deleted = true;
      record_id = id;
      title = hit.title;
      method = codes "soft-delete (status=reverted)";
    }

    abbrev pub log_deletion : Text → SearchHit fl.F → Time → Action b.W DeleteCaptureResult
    log_deletion id hit now w = (pure (deletion id hit) (append_log (delete_entry id hit now) w))

    abbrev pub delete_request : b.Vec → Text → InsertRequest b.Vec
    delete_request vec envelope = record {
      vectors = vec ∷ [];
      metadata = envelope ∷ [];
      request_id = [];
    }

    -- What follows the search.
    unfoldable pub delete_hit :
        Option AgentKey → Text → Time → Option (SearchHit fl.F) → Action b.W DeleteCaptureResult
    delete_hit key id now none = fail (not_found id)
    delete_hit key id now (some hit) =
        wrapping (codes "delete: re-embed") (b.embed_single (embed_text_of hit)) >>= λ vec.
        wrapping (codes "delete: marshal") (lift (marshal_map (reverted hit.metadata))) >>= λ body.
        seal_body (usable_key key) body >>= λ envelope.
        wrapping (codes "delete: re-insert") (b.insert (delete_request vec envelope)) >>= λ ids.
        log_deletion id hit now

    -- DeleteCapture; `key` is the capture service's, if there is one.
    unfoldable pub delete_capture : Option AgentKey → Text → Time → Action b.W DeleteCaptureResult
    unfolding search_by_id delete_hit
    delete_capture key id now =
        wrapping (codes "delete: search by ID") (search_by_id id) >>= delete_hit key id now
