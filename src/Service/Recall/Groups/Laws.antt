-- ===== src/Service/Recall/Groups/Laws.antt =====
-- When the assembly of the groups returns, and that it returns every hit once.
use mathlib.Core.List.{Perm, append-nil}
use mathlib.Core.List.Perm
use rune_mcp.Prelude.{List, [], ◌∷◌, ◌++◌, map, ◌≡◌, All}
use rune_mcp.Prelude.Float.{Float}
use rune_mcp.Prelude.Permuted.{All-perm, concat_of-perm, perm_of_eq}
use rune_mcp.Prelude.Sort.{All-sort_stable, sort_stable, sort_stable-perm}
use rune_mcp.Domain.Errors.{ok, panic}
use rune_mcp.Service.Recall.Metadata.{by_score}
use rune_mcp.Service.Recall.Groups.{
  Group, assemble_groups, by_best, by_phase, sort_phases, split_hits,
}
use rune_mcp.Service.Recall.Groups.Split.{
  Hit, IsAbove, IsBestAbove, IsMergeable, flat, hits_of_group, split_hits-above, split_hits-alone,
  split_hits-alone_inv, split_hits-perm,
}
use rune_mcp.Service.Recall.Groups.Merge.{merge_groups-Merged, merge_groups-panic}

module _ ⦃fl : Float⦄ where
  sort_phases-flat : (gs : List (Group fl.F)) → Perm (flat (map sort_phases gs)) (flat gs)
  sort_phases-flat [] = Perm.rfl
  sort_phases-flat (g ∷ gs) = Perm.append (sort_stable-perm by_phase g.hits) (sort_phases-flat gs)

  sort_phases-above :
      (gs : List (Group fl.F)) → All IsBestAbove gs → All IsBestAbove (map sort_phases gs)
  sort_phases-above [] a = tt
  sort_phases-above (g ∷ gs) a = (a.0, sort_phases-above gs a.1)

  module _ (visit : List (Group fl.F) → List (Group fl.F))
      (visits : (gs : List (Group fl.F)) → Perm (visit gs) gs) (results : List Hit) where
    abbrev split : List (Group fl.F) × List Hit
    split = split_hits results ([], [])

    abbrev sorted_groups : List (Group fl.F)
    sorted_groups = sort_stable by_best (map sort_phases (visit split.0))

    abbrev sorted_alone : List Hit
    sorted_alone = sort_stable by_score split.1

    sorted_groups-above : All IsBestAbove sorted_groups
    sorted_groups-above = All-sort_stable IsBestAbove by_best (map sort_phases (visit split.0)) (
        sort_phases-above (visit split.0) (
          All-perm IsBestAbove (λ g. hlevel) (Perm.symm (visits split.0))
            (split_hits-above results ([], []) tt)))

    sorted-perm : Perm (flat sorted_groups ++ sorted_alone) results
    sorted-perm =
        Perm.trans
          (Perm.append
            (Perm.trans
              (concat_of-perm hits_of_group
                (sort_stable-perm by_best (map sort_phases (visit split.0))))
              (Perm.trans (sort_phases-flat (visit split.0))
                (concat_of-perm hits_of_group (visits split.0))))
            (sort_stable-perm by_score split.1))
          (Perm.trans (split_hits-perm results ([], [])) (perm_of_eq (append-nil results)))

    -- Whatever order the map of the groups is visited in: where every hit without a group scores
    -- above -1, the assembly returns the hits it was given, each as often as it was given.
    pub assemble_groups-perm :
        All IsMergeable results
        → (l : List Hit) × (assemble_groups visit results ≡ ok l) × Perm l results
    unfolding assemble_groups
    assemble_groups-perm m =
        let (l, e, p) =
          merge_groups-Merged sorted_groups sorted_alone sorted_groups-above
            (All-sort_stable IsAbove by_score split.1 (split_hits-alone results ([], []) m tt)) in
        (l, e, Perm.trans p sorted-perm)

    -- Where a hit without a group scores -1 or less, the merge loop indexes the groups out of range.
    pub assemble_groups-panic :
        (All IsMergeable results → ⊥) → assemble_groups visit results ≡ panic
    unfolding assemble_groups
    assemble_groups-panic bad =
        merge_groups-panic sorted_groups sorted_alone sorted_groups-above λ a.
          bad
            (split_hits-alone_inv results ([], [])
              (All-perm IsAbove (λ s. hlevel) (sort_stable-perm by_score split.1) a)).0
