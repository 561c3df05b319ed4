-- ===== src/Service/Capture/Laws.antt =====
-- What the novelty check of a capture promises.
use rune_mcp.Prelude.{
  ◌≤◌, true, false, none, some, List, [], ◌∷◌, ◌≡◌, ◌≢◌, refl, arith, length, length-map,
  length-take, take, ◌⊎◌, inl, inr,
}
use rune_mcp.Prelude.Float.{Float}
use rune_mcp.Prelude.Int.{pos}
use rune_mcp.Prelude.Text.{Text}
use rune_mcp.Domain.Capture.{CaptureResponse}
use rune_mcp.Domain.Errors.{Error}
use rune_mcp.Policy.Novelty.{NoveltyClass, NoveltyInfo}
use rune_mcp.Service.Backend.{Backend, ScoreEntry, either, pure}
use rune_mcp.Service.Backend.Outcome.{Outcome, either-Outcome}
use rune_mcp.Service.Capture.Novelty.{
  Check, build_related_top3, check_blobs, check_entries, early_of, info_of, novel_check, novel_info,
  related_of, run_novelty_check,
}
use rune_mcp.Service.Recovery.{score_with_recovery}

module _ ⦃fl : Float⦄ where
  -- The response to a near-duplicate, and none for every other class.
  abbrev pub IsCheck : Check → Type 0
  IsCheck (info, o) =
      (length info.related_records ≤ 3)
      × (((o ≡ none) × (info.class_ ≢ NoveltyClass.near_duplicate))
          ⊎ ((resp : CaptureResponse fl.F) × (o ≡ some resp)
              × (resp.okay ≡ true)
              × (resp.captured ≡ false)
              × (resp.novelty ≡ some info)
              × (info.class_ ≡ NoveltyClass.near_duplicate)))

  early_of-IsCheck :
      (c : NoveltyClass) (info : NoveltyInfo fl.F)
      → info.class_ ≡ c
      → length info.related_records ≤ 3
      → IsCheck (info, early_of c info)
  early_of-IsCheck NoveltyClass.near_duplicate info e n = (n, inr (_, refl, refl, refl, refl, e))
  early_of-IsCheck NoveltyClass.novel info e n = (n, inl (refl, λ d. absurd cc))
  early_of-IsCheck NoveltyClass.evolution info e n = (n, inl (refl, λ d. absurd cc))
  early_of-IsCheck NoveltyClass.related info e n = (n, inl (refl, λ d. absurd cc))

  novel-IsCheck : IsCheck (novel_info, none)
  novel-IsCheck = (omega arith, inl (refl, λ d. absurd cc))

  check_entries-IsCheck : (entries : List (ScoreEntry fl.F)) → IsCheck (check_entries entries)
  unfolding check_entries build_related_top3
  check_entries-IsCheck [] = novel-IsCheck
  check_entries-IsCheck (e ∷ es) =
      early_of-IsCheck (info_of (e ∷ es)).class_ (info_of (e ∷ es)) refl
        (omega (arith, length-map (take 3 (e ∷ es)) related_of, length-take 3 (e ∷ es)))

  abbrev pub Never : Error → Type 0
  Never e = ⊥

  module _ (b : Backend fl.F) where
    check_blobs-IsCheck :
        (blobs : List b.Blob) (w : b.W) → Outcome IsCheck Never (check_blobs b blobs w).0
    check_blobs-IsCheck [] w = novel-IsCheck
    check_blobs-IsCheck (blob ∷ blobs) w =
        either-Outcome IsCheck Never (b.decrypt_scores (b.base64 blob) (pos 3))
          (λ entries. pure (check_entries entries)) (λ e. novel_check b) w
          (λ entries w'. check_entries-IsCheck entries) (λ e w'. novel-IsCheck)

    -- The novelty check never fails with an error, whatever fails in it. It names at most 3 related
    -- records, and it answers the capture itself, as not captured, exactly where the class is
    -- near-duplicate.
    pub run_novelty_check-IsCheck :
        (text : Text) (w : b.W) → Outcome IsCheck Never (run_novelty_check b text w).0
    unfolding run_novelty_check
    run_novelty_check-IsCheck text w =
        either-Outcome IsCheck Never (b.embed_single text)
          (λ vec. either (score_with_recovery b vec) (check_blobs b) (λ e. novel_check b))
          (λ e. novel_check b) w
          (λ vec w'.
            either-Outcome IsCheck Never (score_with_recovery b vec) (check_blobs b)
              (λ e. novel_check b) w' check_blobs-IsCheck (λ e w''. novel-IsCheck))
          (λ e w'. novel-IsCheck)
