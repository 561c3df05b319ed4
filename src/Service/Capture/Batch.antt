-- ===== src/Service/Capture/Batch.antt =====
-- CaptureService.Batch, over the capture of one item.
pub mod Tally
use rune_mcp.Prelude.{
  ℕ, suc, Bool, true, false, Option, none, some, List, [], ◌∷◌, ◌++◌, length, ◌+◌, if◌then◌else◌,
  ◌≡◌, refl, arith, length-append, if-elim, Bool-cases,
}
use rune_mcp.Prelude.Json.{Object}
use rune_mcp.Prelude.Text.{Text, codes}
use rune_mcp.Domain.Capture.{CaptureRequest, CaptureResponse}
use rune_mcp.Domain.Errors.{Code, Error, Result, ok, err, error_text, invalid_input_error, panic}
use rune_mcp.Policy.Novelty.{NoveltyClass, NoveltyInfo}
use rune_mcp.Service.Backend.{Action, fail, pure}
use rune_mcp.Service.Backend.Outcome.{Outcome}

pub record BatchCaptureArgs : Type 0 where
  pub items_text : Text
  pub source : Text
  pub user : Option Text
  pub channel : Option Text

pub data ItemStatus : Type 0 where
  captured skipped near_duplicate error : ItemStatus

pub record BatchItemResult : Type 0 where
  pub index : ℕ
  pub title : Text
  pub status : ItemStatus
  pub novelty : Option NoveltyClass
  pub error_message : Option Text

pub record BatchCaptureResult : Type 0 where
  pub okay : Bool
  pub total : ℕ
  pub results : List BatchItemResult
  pub captured : ℕ
  pub skipped : ℕ
  pub errors : ℕ

abbrev text_or_empty : Option Text → Text
text_or_empty none = []
text_or_empty (some s) = s

abbrev pub class_of : {F : Type 0} → Option (NoveltyInfo F) → Option NoveltyClass
class_of none = none
class_of (some i) = some i.class_

abbrev pub skipped_status : Option NoveltyClass → ItemStatus
skipped_status (some NoveltyClass.near_duplicate) = ItemStatus.near_duplicate
skipped_status _ = ItemStatus.skipped

abbrev pub error_item : ℕ → Error → BatchItemResult
error_item i e = record {
  index = i;
  title = [];
  status = ItemStatus.error;
  novelty = none;
  error_message = some (error_text e);
}

unfoldable pub add_error : Error → BatchCaptureResult → BatchCaptureResult
add_error e r = record r {
  results = r.results ++ error_item (length r.results) e ∷ [];
  errors = suc r.errors;
}

module _ {F : Type 0} where
  unfoldable pub item_request : BatchCaptureArgs → Option (Object F) → CaptureRequest F
  item_request args item = record {
    text = [];
    source = args.source;
    user = text_or_empty args.user;
    channel = text_or_empty args.channel;
    extracted = item;
  }

  abbrev pub captured_item : ℕ → CaptureResponse F → BatchItemResult
  captured_item i resp = record {
    index = i;
    title = resp.title;
    status = ItemStatus.captured;
    novelty = class_of resp.novelty;
    error_message = none;
  }

  abbrev pub skipped_item : ℕ → CaptureResponse F → BatchItemResult
  skipped_item i resp = record {
    index = i;
    title = [];
    status = skipped_status (class_of resp.novelty);
    novelty = none;
    error_message = none;
  }

  -- The result so far with the outcome of an item.
  unfoldable pub add_response : CaptureResponse F → BatchCaptureResult → BatchCaptureResult
  add_response resp r =
      let i = length r.results in
      if resp.captured
      then record r { results = r.results ++ captured_item i resp ∷ []; captured = suc r.captured }
      else record r { results = r.results ++ skipped_item i resp ∷ []; skipped = suc r.skipped }

  module _ {W : Type 0} (handle : CaptureRequest F → Action W (CaptureResponse F)) where
    abbrev pub next_item :
        Result (CaptureResponse F)
        → (BatchCaptureResult → Action W BatchCaptureResult)
        → BatchCaptureResult
        → Action W BatchCaptureResult
    next_item (ok resp) rest r w = rest (add_response resp r) w
    next_item (err e) rest r w = rest (add_error e r) w
    next_item panic rest r w = (panic, w)

    -- The loop over the items; each one runs in the world that those before it left.
    unfoldable pub batch_loop :
        BatchCaptureArgs
        → List (Option (Object F))
        → BatchCaptureResult
        → Action W BatchCaptureResult
    unfolding item_request
    batch_loop args [] r w = (ok r, w)
    batch_loop args (item ∷ rest) r w =
        next_item (handle (item_request args item) w).0 (batch_loop args rest) r
          (handle (item_request args item) w).1

    abbrev pub empty_result : ℕ → BatchCaptureResult
    empty_result n = record {
      okay = true;
      total = n;
      results = [];
      captured = 0;
      skipped = 0;
      errors = 0;
    }

    abbrev pub batch_parsed :
        BatchCaptureArgs → Option (List (Option (Object F))) → Action W BatchCaptureResult
    batch_parsed args none = fail (invalid_input_error "invalid items JSON array")
    batch_parsed args (some raw_items) = batch_loop args raw_items (empty_result (length raw_items))

    -- Batch; `parse_items` is json.Unmarshal into a slice of maps, where a null item is a nil map.
    unfoldable pub batch :
        (Text → Option (List (Option (Object F)))) → BatchCaptureArgs → Action W BatchCaptureResult
    unfolding batch_loop
    batch parse_items args = batch_parsed args (parse_items args.items_text)
