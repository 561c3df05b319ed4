-- ===== src/Service/Recall/Groups/Merge.antt =====
-- The merge loop: what it returns, and when it takes from a side that is used up.
use mathlib.Core.List.{Perm, append_assoc, perm_middle}
use mathlib.Core.List.Perm
use rune_mcp.Prelude.{false, List, [], ◌∷◌, ◌++◌, ◌≡◌, refl, ap, sym, All, if-elim, arith}
use rune_mcp.Prelude.Float.{Float, fge}
use rune_mcp.Prelude.Permuted.{perm_of_eq}
use rune_mcp.Domain.Errors.{Result, ok, panic}
use rune_mcp.Service.Recall.Groups.{Group, merge_groups, minus_one, push_hits}
use rune_mcp.Service.Recall.Groups.Split.{Hit, IsAbove, IsBestAbove, flat}

module _ ⦃fl : Float⦄ where
  abbrev pub Merged : Result (List Hit) → List Hit → Type 0
  Merged r hs = (l : List Hit) × (r ≡ ok l) × Perm l hs

  push_hits-Merged :
      (hs rest all : List Hit) (r : Result (List Hit))
      → Merged r rest
      → Perm (hs ++ rest) all
      → Merged (push_hits hs r) all
  push_hits-Merged hs rest all r (l, e, p) q =
      (hs ++ l, ap (push_hits hs) e, Perm.trans (Perm.append_left hs p) q)

  pub merge_groups-Merged :
      (gs : List (Group fl.F)) (ss : List Hit)
      → All IsBestAbove gs
      → All IsAbove ss
      → Merged (merge_groups gs ss) (flat gs ++ ss)
  unfolding merge_groups
  merge_groups-Merged [] [] ag aa = ([], refl, Perm.rfl)
  merge_groups-Merged [] (s ∷ ss) ag aa =
      if-elim (λ r. Merged r (s ∷ ss)) (fge minus_one s.score) (λ e. absurd (ground (arith, aa.0)))
        (λ e.
          push_hits-Merged (s ∷ []) ss (s ∷ ss) (merge_groups [] ss)
            (merge_groups-Merged [] ss ag aa.1) Perm.rfl)
  merge_groups-Merged (g ∷ gs) [] ag aa =
      if-elim (λ r. Merged r (flat (g ∷ gs) ++ [])) (fge g.best_score minus_one)
        (λ e.
          push_hits-Merged g.hits (flat gs ++ []) (flat (g ∷ gs) ++ []) (merge_groups gs [])
            (merge_groups-Merged gs [] ag.1 tt)
            (perm_of_eq (sym (append_assoc g.hits (flat gs) []))))
        (λ e. absurd (ground (arith, ag.0)))
  merge_groups-Merged (g ∷ gs) (s ∷ ss) ag aa =
      if-elim (λ r. Merged r (flat (g ∷ gs) ++ s ∷ ss)) (fge g.best_score s.score)
        (λ e.
          push_hits-Merged g.hits (flat gs ++ s ∷ ss) (flat (g ∷ gs) ++ s ∷ ss)
            (merge_groups gs (s ∷ ss)) (merge_groups-Merged gs (s ∷ ss) ag.1 aa)
            (perm_of_eq (sym (append_assoc g.hits (flat gs) (s ∷ ss)))))
        (λ e.
          push_hits-Merged (s ∷ []) (flat (g ∷ gs) ++ ss) (flat (g ∷ gs) ++ s ∷ ss)
            (merge_groups (g ∷ gs) ss) (merge_groups-Merged (g ∷ gs) ss ag aa.1)
            (Perm.symm (perm_middle (flat (g ∷ gs)) ss)))

  -- A hit that scores more than a group's best is above -1.
  IsAbove-best :
      (g : Group fl.F) (s : Hit) → IsBestAbove g → fge g.best_score s.score ≡ false → IsAbove s
  IsAbove-best g s a e = ground (
    arith,
    fl.neg_trans minus_one g.best_score s.score,
    fl.neg_trans s.score minus_one g.best_score,
    fl.neg_trans g.best_score s.score minus_one,
    fl.asym g.best_score s.score,
  )

  pub merge_groups-panic :
      (gs : List (Group fl.F)) (ss : List Hit)
      → All IsBestAbove gs
      → (All IsAbove ss → ⊥)
      → merge_groups gs ss ≡ panic
  unfolding merge_groups
  merge_groups-panic [] [] ag bad = absurd (bad tt)
  merge_groups-panic [] (s ∷ ss) ag bad =
      if-elim (λ r. r ≡ panic) (fge minus_one s.score) (λ e. refl)
        (λ e. ap (push_hits (s ∷ [])) (merge_groups-panic [] ss ag (λ a. bad (e, a))))
  merge_groups-panic (g ∷ gs) [] ag bad = absurd (bad tt)
  merge_groups-panic (g ∷ gs) (s ∷ ss) ag bad =
      if-elim (λ r. r ≡ panic) (fge g.best_score s.score)
        (λ e. ap (push_hits g.hits) (merge_groups-panic gs (s ∷ ss) ag.1 bad))
        (λ e.
          ap (push_hits (s ∷ []))
            (merge_groups-panic (g ∷ gs) ss ag (λ a. bad (IsAbove-best g s ag.0 e, a))))
