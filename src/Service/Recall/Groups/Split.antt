-- ===== src/Service/Recall/Groups/Split.antt =====
-- The first loop of the assembly: it places every hit once, and no group has a best score below 0.
use mathlib.Core.List.{Perm, perm_middle}
use mathlib.Core.List.Perm
use rune_mcp.Prelude.{
  true, false, Option, none, some, List, [], ◌∷◌, ◌++◌, ◌≡◌, All, All-append, if-elim, arith,
}
use rune_mcp.Prelude.Float.{Float, fge, fzero}
use rune_mcp.Prelude.Permuted.{concat_of, perm-snoc}
use rune_mcp.Prelude.Text.{Text, teq}
use rune_mcp.Domain.Query.{SearchHit}
use rune_mcp.Service.Recall.Groups.{Group, add_to_group, better, minus_one, place, split_hits}

module _ ⦃fl : Float⦄ where
  abbrev pub Hit : Type 0
  Hit = SearchHit fl.F

  abbrev pub hits_of_group : Group fl.F → List Hit
  hits_of_group g = g.hits

  abbrev pub flat : List (Group fl.F) → List Hit
  flat gs = concat_of hits_of_group gs

  -- The merge loop takes from a side only while it has something.
  abbrev pub IsAbove : Hit → Type 0
  IsAbove s = fge minus_one s.score ≡ false

  abbrev pub IsBestAbove : Group fl.F → Type 0
  IsBestAbove g = fge g.best_score minus_one ≡ true

  -- Every hit so far, grouped or standalone.
  abbrev pub placed : List (Group fl.F) × List Hit → List Hit
  placed (groups, alone) = flat groups ++ alone

  add_to_group-perm :
      (gid : Text) (h : Hit) (gs : List (Group fl.F))
      → Perm (flat (add_to_group gid h gs)) (h ∷ flat gs)
  unfolding add_to_group
  add_to_group-perm gid h [] = Perm.rfl
  add_to_group-perm gid h (g ∷ gs) =
      if-elim (λ l. Perm (flat l) (h ∷ flat (g ∷ gs))) (teq g.gid gid)
        (λ _. Perm.append_right (flat gs) (perm-snoc g.hits h))
        (λ _.
          Perm.trans (Perm.append_left g.hits (add_to_group-perm gid h gs))
            (perm_middle g.hits (flat gs)))

  place-perm :
      (o : Option Text) (h : Hit) (acc : List (Group fl.F) × List Hit)
      → Perm (placed (place o h acc)) (h ∷ placed acc)
  place-perm none h (groups, alone) =
      Perm.trans (Perm.append_left (flat groups) (perm-snoc alone h))
        (perm_middle (flat groups) alone)
  place-perm (some gid) h (groups, alone) = Perm.append_right alone (add_to_group-perm gid h groups)

  pub split_hits-perm :
      (hs : List Hit) (acc : List (Group fl.F) × List Hit)
      → Perm (placed (split_hits hs acc)) (hs ++ placed acc)
  unfolding split_hits
  split_hits-perm [] acc = Perm.rfl
  split_hits-perm (h ∷ hs) acc =
      Perm.trans (split_hits-perm hs (place h.group_id h acc)) (
        Perm.trans (Perm.append_left hs (place-perm h.group_id h acc))
          (perm_middle hs (placed acc)))

  -- The best score starts at 0 and only grows.
  better-above : (new old : fl.F) → fge old minus_one ≡ true → fge (better new old) minus_one ≡ true
  better-above new old h =
      ground
        (arith, fl.asym old new, fl.neg_trans minus_one old new, fl.neg_trans old new minus_one)

  zero-above : fge fzero minus_one ≡ true
  zero-above = ground (arith, fl.asym minus_one fzero, fl.minus_one_lt_zero)

  add_to_group-above :
      (gid : Text) (h : Hit) (gs : List (Group fl.F))
      → All IsBestAbove gs
      → All IsBestAbove (add_to_group gid h gs)
  unfolding add_to_group
  add_to_group-above gid h [] a = (better-above h.score fzero zero-above, tt)
  add_to_group-above gid h (g ∷ gs) a =
      if-elim (All IsBestAbove) (teq g.gid gid) (λ _. (better-above h.score g.best_score a.0, a.1))
        (λ _. (a.0, add_to_group-above gid h gs a.1))

  place-above :
      (o : Option Text) (h : Hit) (acc : List (Group fl.F) × List Hit)
      → All IsBestAbove acc.0
      → All IsBestAbove (place o h acc).0
  place-above none h (groups, alone) a = a
  place-above (some gid) h (groups, alone) a = add_to_group-above gid h groups a

  pub split_hits-above :
      (hs : List Hit) (acc : List (Group fl.F) × List Hit)
      → All IsBestAbove acc.0
      → All IsBestAbove (split_hits hs acc).0
  unfolding split_hits
  split_hits-above [] acc a = a
  split_hits-above (h ∷ hs) acc a =
      split_hits-above hs (place h.group_id h acc) (place-above h.group_id h acc a)

  -- A hit that the merge can take: one of a group, or one that scores above -1.
  abbrev pub IsMergeableIn : Option Text → Hit → Type 0
  IsMergeableIn none h = IsAbove h
  IsMergeableIn (some gid) h = Unit

  abbrev pub IsMergeable : Hit → Type 0
  IsMergeable h = IsMergeableIn h.group_id h

  place-alone :
      (o : Option Text) (h : Hit) (acc : List (Group fl.F) × List Hit)
      → IsMergeableIn o h
      → All IsAbove acc.1
      → All IsAbove (place o h acc).1
  place-alone none h (groups, alone) m a = All-append IsAbove alone (h ∷ []) a (m, tt)
  place-alone (some gid) h (groups, alone) m a = a

  pub split_hits-alone :
      (hs : List Hit) (acc : List (Group fl.F) × List Hit)
      → All IsMergeable hs
      → All IsAbove acc.1
      → All IsAbove (split_hits hs acc).1
  unfolding split_hits
  split_hits-alone [] acc m a = a
  split_hits-alone (h ∷ hs) acc m a =
      split_hits-alone hs (place h.group_id h acc) m.1 (place-alone h.group_id h acc m.0 a)

  All-snoc_inv : (xs : List Hit) (x : Hit) → All IsAbove (xs ++ x ∷ []) → All IsAbove xs × IsAbove x
  All-snoc_inv [] x a = (tt, a.0)
  All-snoc_inv (y ∷ xs) x a = let r = All-snoc_inv xs x a.1 in ((a.0, r.0), r.1)

  place-alone_inv :
      (o : Option Text) (h : Hit) (acc : List (Group fl.F) × List Hit)
      → All IsAbove (place o h acc).1
      → IsMergeableIn o h × All IsAbove acc.1
  place-alone_inv none h (groups, alone) a = let r = All-snoc_inv alone h a in (r.1, r.0)
  place-alone_inv (some gid) h (groups, alone) a = (tt, a)

  pub split_hits-alone_inv :
      (hs : List Hit) (acc : List (Group fl.F) × List Hit)
      → All IsAbove (split_hits hs acc).1
      → All IsMergeable hs × All IsAbove acc.1
  unfolding split_hits
  split_hits-alone_inv [] acc a = (tt, a)
  split_hits-alone_inv (h ∷ hs) acc a =
      let r = split_hits-alone_inv hs (place h.group_id h acc) a in
      let q = place-alone_inv h.group_id h acc r.1 in ((q.0, r.0), q.1)
