-- ===== src/Service/Capture.antt =====
-- internal/service/capture.go: the flow of a capture. The service is wired: its clients, its log and
-- its state manager are not nil. Log lines of slog are left out.
pub mod Novelty
pub mod Batch
pub mod Contentless
pub mod Laws
use rune_mcp.Prelude.{
  ℕ, zero, suc, Bool, true, false, not, ◌&&◌, Option, none, some, List, [], ◌∷◌, ◌++◌, map, length,
  take, if◌then◌else◌,
}
use rune_mcp.Prelude.Float.{Float, fone}
use rune_mcp.Prelude.Text.{Text, Unicode, codes, decimal, is_empty, trim_space}
use rune_mcp.Adapters.AesCtr.{Bytes, Crypto, seal}
use rune_mcp.Domain.Calendar.{Calendar, Time}
use rune_mcp.Domain.Capture.{CaptureLogEntry, CaptureRequest, CaptureResponse}
use rune_mcp.Domain.Errors.{Code, Error, Result, ok, err, other, rune}
use rune_mcp.Domain.Extraction.{
  Detection, ExtractionResult, has_content, parse_extraction_from_agent,
}
use rune_mcp.Domain.Record.{DecisionRecord, domain_text}
use rune_mcp.Policy.Builder.{build_phases}
use rune_mcp.Policy.Evidence.{RawEvent}
use rune_mcp.Policy.Novelty.{NoveltyClass, NoveltyInfo}
use rune_mcp.Policy.Regexp.{Regexp}
use rune_mcp.Service.Backend.{Action, Backend, InsertRequest, fail, lift, pure, wrapping, ◌>>=◌}
use rune_mcp.Service.Capture.Novelty.{pick_embed_text, run_novelty_check}
use rune_mcp.Service.Recovery.{insert_with_recovery}

-- What else a capture uses: json.Marshal of a record, the bytes of a string, the random request id
-- (empty where rand fails) and the append to the capture log, whose error is dropped.
pub record Recorder (F W : Type 0) : Type 0 where
  pub marshal_record : DecisionRecord F → Result Text
  pub utf8 : Text → Bytes
  pub request_id : W → Text × W
  pub append_log : CaptureLogEntry F → W → W

-- The fields of CaptureService that come from the Vault bundle.
pub record AgentKey : Type 0 where
  pub agent_id : Text
  pub agent_dek : Bytes

abbrev pub contentless_message : Text
contentless_message =
    codes "item has no usable extraction content: provide a top-level decision field "
    ++ codes "(\"reusable_insight\", \"title\", \"rationale\", or \"problem\"), or the "
    ++ codes "{group_title, phases} multi-phase shape. A bare \"group_title\" without \"phases\" "
    ++ codes "is not enough — it is only read in the multi-phase shape. Each batch item is a flat "
    ++ codes "extracted object, not a {text, extracted} wrapper."

abbrev pub contentless_error : Error
contentless_error = rune (record {
  code = Code.invalid_input;
  message = contentless_message;
  retryable = false;
  recovery_hint = [];
})

abbrev or_default : Text → Text → Text
or_default s def = if is_empty s then def else s

module _ ⦃fl : Float⦄ where
  unfoldable pub raw_event : CaptureRequest fl.F → RawEvent
  raw_event req = record {
    text = req.text;
    source = req.source;
    user = or_default req.user (codes "unknown");
    channel = or_default req.channel (codes "claude_session");
  }

  abbrev pub is_contentless : CaptureRequest fl.F → ExtractionResult fl.F → Bool
  is_contentless req extraction = is_empty (trim_space req.text) && not (has_content extraction)

  module _ ⦃u : Unicode⦄ ⦃rx : Regexp⦄ ⦃cal : Calendar⦄ (b : Backend fl.F) (crypto : Crypto b.W)
      (rec : Recorder fl.F b.W) (key : AgentKey) where
    abbrev seal_text : Text → Action b.W Text
    seal_text body =
        if not (is_empty key.agent_dek) && not (is_empty key.agent_id)
        then wrapping (codes "seal record") (seal crypto key.agent_dek key.agent_id (rec.utf8 body))
        else pure body

    -- sealMetadata
    unfoldable pub seal_metadata : List (DecisionRecord fl.F) → Action b.W (List Text)
    seal_metadata [] = pure []
    seal_metadata (r ∷ rs) =
        wrapping (codes "marshal record") (lift (rec.marshal_record r)) >>= λ body.
        seal_text body >>= λ envelope. seal_metadata rs >>= λ rest. pure (envelope ∷ rest)

    abbrev with_request_id : {A : Type 0} → (Text → Action b.W A) → Action b.W A
    with_request_id f w = let (id, w') = rec.request_id w in f id w'

    abbrev log_entry : DecisionRecord fl.F → NoveltyInfo fl.F → Time → CaptureLogEntry fl.F
    log_entry r info later = record {
      ts = cal.rfc3339 later;
      action = codes "captured";
      id = r.id;
      title = r.title;
      domain = domain_text r.domain;
      mode = codes "agent-delegated";
      novelty_class = some info.class_;
      novelty_score = some info.score;
    }

    abbrev append : CaptureLogEntry fl.F → Action b.W Unit
    append entry w = (ok tt, rec.append_log entry w)

    abbrev captured_response : DecisionRecord fl.F → NoveltyInfo fl.F → CaptureResponse fl.F
    captured_response r info = record {
      okay = true;
      captured = true;
      record_id = r.id;
      title = r.title;
      domain = some r.domain;
      reason = [];
      novelty = some info;
    }

    -- Phases 5 to 7, after the novelty check let the records pass.
    unfoldable pub store :
        DecisionRecord fl.F
        → List (DecisionRecord fl.F)
        → NoveltyInfo fl.F
        → Time
        → Action b.W (CaptureResponse fl.F)
    unfolding seal_metadata
    store first records info later =
        wrapping (codes "embed batch") (b.embed_batch (map pick_embed_text records)) >>= λ vectors.
        wrapping (codes "seal metadata") (seal_metadata records) >>= λ envelopes.
        with_request_id (λ id.
          wrapping (codes "envector insert") (
            insert_with_recovery b
              (record { vectors = vectors; metadata = envelopes; request_id = id }))
          >>= λ ids.
              append (log_entry first info later) >>= λ u. pure (captured_response first info))

    abbrev pub after_check :
        DecisionRecord fl.F
        → List (DecisionRecord fl.F)
        → Time
        → NoveltyInfo fl.F × Option (CaptureResponse fl.F)
        → Action b.W (CaptureResponse fl.F)
    after_check first records later (info, some early) = pure early
    after_check first records later (info, none) = store first records info later

    abbrev pub capture_records :
        List (DecisionRecord fl.F) → Time → Action b.W (CaptureResponse fl.F)
    capture_records [] later = fail (other (codes "build phases returned 0 records"))
    capture_records (r ∷ rs) later =
        run_novelty_check b (pick_embed_text r) >>= after_check r (r ∷ rs) later

    abbrev pub capture_parsed :
        CaptureRequest fl.F
        → Time
        → Time
        → Detection fl.F × ExtractionResult fl.F
        → Action b.W (CaptureResponse fl.F)
    capture_parsed req now later (detection, extraction) =
        if is_contentless req extraction
        then fail contentless_error
        else (wrapping (codes "build phases")
              (lift (build_phases (raw_event req) detection (some extraction) now))
            >>= λ records. capture_records records later)

    -- CaptureService.Handle; the clock gives `now`, and `later` for the log entry.
    unfoldable pub capture : CaptureRequest fl.F → Time → Time → Action b.W (CaptureResponse fl.F)
    unfolding store raw_event
    capture req now later =
        lift (parse_extraction_from_agent req.extracted) >>= capture_parsed req now later
