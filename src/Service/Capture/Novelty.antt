-- ===== src/Service/Capture/Novelty.antt =====
-- runNoveltyCheck and its helpers. Every failure counts as a novel item.
use rune_mcp.Prelude.{
  true, false, Option, none, some, List, [], ◌∷◌, ◌++◌, map, take, if◌then◌else◌,
}
use rune_mcp.Prelude.Float.{Float, fgt, fone, fzero}
use rune_mcp.Prelude.Int.{pos}
use rune_mcp.Prelude.Text.{Text, codes, decimal, is_empty}
use rune_mcp.Domain.Capture.{CaptureResponse}
use rune_mcp.Domain.Record.{DecisionRecord}
use rune_mcp.Policy.Novelty.{
  NoveltyClass, NoveltyInfo, RelatedRecord, classify_novelty, default_novelty_thresholds,
}
use rune_mcp.Service.Backend.{Action, Backend, ScoreEntry, either, pure}
use rune_mcp.Service.Recovery.{score_with_recovery}

-- pickEmbedText
unfoldable pub pick_embed_text : {F : Type 0} → DecisionRecord F → Text
pick_embed_text r = if is_empty r.reusable_insight then r.payload.text else r.reusable_insight

module _ ⦃fl : Float⦄ where
  abbrev pub max_sim : List (ScoreEntry fl.F) → fl.F → fl.F
  max_sim [] m = m
  max_sim (e ∷ es) m = max_sim es (if fgt e.score m then e.score else m)

  abbrev pub related_of : ScoreEntry fl.F → RelatedRecord fl.F
  related_of e = record {
    id = codes "shard:" ++ (decimal e.shard_idx ++ (codes "/row:" ++ decimal e.row_idx));
    title = [];
    similarity = fl.div (fl.round (fl.mul e.score (fl.lit 1000 0))) (fl.lit 1000 0);
  }

  unfoldable pub build_related_top3 : List (ScoreEntry fl.F) → List (RelatedRecord fl.F)
  build_related_top3 entries = map related_of (take 3 entries)

  abbrev pub novel_info : NoveltyInfo fl.F
  novel_info = record { class_ = NoveltyClass.novel; score = fone; related_records = [] }

  abbrev pub Check : Type 0
  Check = NoveltyInfo fl.F × Option (CaptureResponse fl.F)

  abbrev duplicate_response : NoveltyInfo fl.F → CaptureResponse fl.F
  duplicate_response info = record {
    okay = true;
    captured = false;
    record_id = [];
    title = [];
    domain = none;
    reason = codes "Near-duplicate - virtually identical insight already stored";
    novelty = some info;
  }

  abbrev pub early_of : NoveltyClass → NoveltyInfo fl.F → Option (CaptureResponse fl.F)
  early_of NoveltyClass.near_duplicate info = some (duplicate_response info)
  early_of _ info = none

  abbrev pub info_of : List (ScoreEntry fl.F) → NoveltyInfo fl.F
  info_of entries =
      let (cls, score) = classify_novelty (max_sim entries fzero) default_novelty_thresholds in
      record { class_ = cls; score = score; related_records = build_related_top3 entries }

  -- The classification of the decrypted scores.
  unfoldable pub check_entries : List (ScoreEntry fl.F) → Check
  unfolding build_related_top3
  check_entries [] = (novel_info, none)
  check_entries (e ∷ es) =
      let info : NoveltyInfo fl.F = info_of (e ∷ es) in (info, early_of info.class_ info)

  module _ (b : Backend fl.F) where
    abbrev pub novel_check : Action b.W Check
    novel_check = pure (novel_info, none)

    abbrev pub check_blobs : List b.Blob → Action b.W Check
    check_blobs [] = novel_check
    check_blobs (blob ∷ blobs) =
        either (b.decrypt_scores (b.base64 blob) (pos 3)) (λ entries. pure (check_entries entries))
          (λ e. novel_check)

    unfoldable pub run_novelty_check : Text → Action b.W Check
    unfolding check_entries
    run_novelty_check text =
        either (b.embed_single text)
          (λ vec. either (score_with_recovery b vec) check_blobs (λ e. novel_check))
          (λ e. novel_check)
