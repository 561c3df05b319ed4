-- ===== src/Policy/Novelty.antt =====
-- internal/policy/novelty.go and internal/domain/novelty.go: how new a capture is.
use rune_mcp.Prelude.{◌≡◌, ◌↔◌, Bool, true, false, List, arith, if◌then◌else◌}
use rune_mcp.Prelude.Float.{Float, fge, fone}
use rune_mcp.Prelude.Text.{Text}

pub data NoveltyClass : Type 0 where
  novel evolution related near_duplicate : NoveltyClass

pub record RelatedRecord (F : Type 0) : Type 0 where
  pub id : Text
  pub title : Text
  pub similarity : F

pub record NoveltyInfo (F : Type 0) : Type 0 where
  pub class_ : NoveltyClass
  pub score : F
  pub related_records : List (RelatedRecord F)

pub record NoveltyThresholds (F : Type 0) : Type 0 where
  pub novel_at : F
  pub related_at : F
  pub near_dup_at : F

module _ ⦃fl : Float⦄ where
  abbrev pub default_novelty_thresholds : NoveltyThresholds fl.F
  default_novelty_thresholds = record {
    novel_at = fl.lit 3 1;
    related_at = fl.lit 7 1;
    near_dup_at = fl.lit 95 2;
  }

  unfoldable pub classify_novelty : fl.F → NoveltyThresholds fl.F → NoveltyClass × fl.F
  classify_novelty max_similarity th =
      let novelty_score = fl.sub fone max_similarity in
      let score = fl.div (fl.round (fl.mul novelty_score (fl.lit 10000 0))) (fl.lit 10000 0) in
      if fge max_similarity th.near_dup_at
      then (NoveltyClass.near_duplicate, score)
      else if fge max_similarity th.related_at
      then (NoveltyClass.related, score)
      else if fge max_similarity th.novel_at
      then (NoveltyClass.evolution, score)
      else (NoveltyClass.novel, score)

  -- How strongly a class speaks against a capture.
  abbrev pub rank : NoveltyClass → NoveltyClass → Bool
  rank NoveltyClass.novel c = true
  rank NoveltyClass.evolution NoveltyClass.novel = false
  rank NoveltyClass.evolution c = true
  rank NoveltyClass.related NoveltyClass.near_duplicate = true
  rank NoveltyClass.related NoveltyClass.related = true
  rank NoveltyClass.related c = false
  rank NoveltyClass.near_duplicate NoveltyClass.near_duplicate = true
  rank NoveltyClass.near_duplicate c = false

  -- With thresholds in ascending order a higher similarity never gives a newer class, and the class
  -- is near-duplicate exactly when the similarity reaches the near-duplicate threshold.
  pub classify_novelty_monotone :
      (a b : fl.F) (th : NoveltyThresholds fl.F)
      → fl.lt th.related_at th.novel_at ≡ false
      → fl.lt th.near_dup_at th.related_at ≡ false
      → fl.lt b a ≡ false
      → (rank (classify_novelty a th).0 (classify_novelty b th).0 ≡ true)
        × (((classify_novelty a th).0 ≡ NoveltyClass.near_duplicate)
            ↔ (fl.lt a th.near_dup_at ≡ false))
  unfolding classify_novelty
  classify_novelty_monotone a b th low high le =
      let step = λ (t : fl.F). fl.neg_trans t a b in
      ground (
        arith,
        step th.near_dup_at,
        step th.related_at,
        step th.novel_at,
        fl.neg_trans th.related_at th.near_dup_at a,
        fl.neg_trans th.novel_at th.related_at a,
        fl.neg_trans th.related_at th.near_dup_at b,
        fl.neg_trans th.novel_at th.related_at b,
      )
