-- ===== src/Service/Recall/Expand/Laws.antt =====
-- The search for siblings only adds: new hits of the chosen groups, at the end.
use mathlib.Core.List.{Mem, append-nil, append_assoc, mem-cons_of_mem, mem-cons_self}
use rune_mcp.Prelude.{
  true, false, List, [], ◌∷◌, ◌++◌, map, ◌≡◌, sym, ◌∙◌, ap, All, All-append, All-impl, arith,
  if-elim,
}
use rune_mcp.Prelude.Float.{Float}
use rune_mcp.Prelude.Permuted.{AllPairs, AllPairs-snoc}
use rune_mcp.Prelude.Seen.{member_apart}
use rune_mcp.Prelude.Text.{Text, codes, member, teq_refl}
use rune_mcp.Domain.Query.{SearchHit}
use rune_mcp.Domain.Errors.{Error}
use rune_mcp.Service.Backend.{Backend, either}
use rune_mcp.Service.Backend.Outcome.{Outcome, bind-Outcome, either-Outcome}
use rune_mcp.Service.Recall.Expand.{
  Chain, GroupInfo, add_siblings, chosen_groups, expand_phase_chains, first_chain, is_sibling,
  results_of, same_group, search_siblings,
}
use rune_mcp.Service.Recall.Search.{search_single}
use rune_mcp.Service.Recall.Search.Laws.{DifferentId}

abbrev pub NoError : Error → Type 0
NoError e = ⊥

module _ {A : Type 0} where
  All-mem : (xs : List A) → All (λ x. Mem x xs) xs
  All-mem [] = tt
  All-mem (x ∷ xs) = (mem-cons_self, All-impl (λ y m. mem-cons_of_mem x m) xs (All-mem xs))

module _ ⦃fl : Float⦄ where
  abbrev IsSeenIn : List Text → SearchHit fl.F → Type 0
  IsSeenIn seen h = member h.record_id seen ≡ true

  -- The hits are the `results`, then hits that satisfy `G`; their ids differ and are all seen.
  abbrev Grows : (SearchHit fl.F → Type 0) → List (SearchHit fl.F) → List (SearchHit fl.F) → Type 0
  Grows G results l = (extra : List (SearchHit fl.F)) × (l ≡ results ++ extra) × All G extra

  abbrev IsChain : (SearchHit fl.F → Type 0) → List (SearchHit fl.F) → Chain → Type 0
  IsChain G results (l, seen) = AllPairs DifferentId l × All (IsSeenIn seen) l × Grows G results l

  seen_more :
      (t : Text) (seen : List Text) (h : SearchHit fl.F) → IsSeenIn seen h → IsSeenIn (t ∷ seen) h
  unfolding member
  seen_more t seen h e = ground arith

  seen_head : (seen : List Text) (h : SearchHit fl.F) → IsSeenIn (h.record_id ∷ seen) h
  unfolding member
  seen_head seen h = ground (arith, teq_refl h.record_id)

  sibling_new :
      (gid : Text) (seen : List Text) (h : SearchHit fl.F)
      → is_sibling gid seen h ≡ true
      → (member h.record_id seen ≡ false) × (same_group gid h.group_id ≡ true)
  sibling_new gid seen h e = ground arith

  add_sibling-IsChain :
      (G : SearchHit fl.F → Type 0) (results : List (SearchHit fl.F)) (h : SearchHit fl.F)
      (l : List (SearchHit fl.F)) (seen : List Text)
      → IsChain G results (l, seen)
      → member h.record_id seen ≡ false
      → G h
      → IsChain G results (l ++ h ∷ [], h.record_id ∷ seen)
  add_sibling-IsChain G results h l seen (apart, known, (extra, e, g)) new gh = (
    AllPairs-snoc DifferentId l h apart
        (All-impl (λ k m. member_apart h.record_id k.record_id seen new m) l known),
    All-append (IsSeenIn (h.record_id ∷ seen)) l (h ∷ [])
        (All-impl (seen_more h.record_id seen) l known) (seen_head seen h, tt),
    (
      extra ++ h ∷ [],
      ap (λ z. z ++ h ∷ []) e ∙ append_assoc results extra (h ∷ []),
      All-append G extra (h ∷ []) g (gh, tt),
    ),
  )

  add_siblings-IsChain :
      (G : SearchHit fl.F → Type 0) (results : List (SearchHit fl.F)) (gid : Text)
      → ((h : SearchHit fl.F) → same_group gid h.group_id ≡ true → G h)
      → (hs : List (SearchHit fl.F)) (chain : Chain) → IsChain G results chain
      → IsChain G results (add_siblings gid hs chain)
  unfolding add_siblings
  add_siblings-IsChain G results gid f [] chain c = c
  add_siblings-IsChain G results gid f (h ∷ hs) (l, seen) c =
      if-elim (IsChain G results) (is_sibling gid seen h)
        (λ e.
          let (new, same) = sibling_new gid seen h e in
          add_siblings-IsChain G results gid f hs (l ++ h ∷ [], h.record_id ∷ seen)
            (add_sibling-IsChain G results h l seen c new (f h same)))
        (λ e. add_siblings-IsChain G results gid f hs (l, seen) c)

  first_seen_ids :
      (results : List (SearchHit fl.F)) → All (IsSeenIn (map (λ h. h.record_id) results)) results
  first_seen_ids [] = tt
  first_seen_ids (h ∷ hs) = (
    seen_head (map (λ k. k.record_id) hs) h,
    All-impl (seen_more h.record_id (map (λ k. k.record_id) hs)) hs (first_seen_ids hs),
  )

  module _ (b : Backend fl.F) where
    search_siblings-IsChain :
        (G : SearchHit fl.F → Type 0) (results : List (SearchHit fl.F)) (gs : List (GroupInfo fl.F))
        → All (λ g. (h : SearchHit fl.F) → same_group g.gid h.group_id ≡ true → G h) gs
        → (chain : Chain) (w : b.W) → IsChain G results chain
        → Outcome (IsChain G results) NoError (search_siblings b gs chain w).0
    unfolding search_siblings
    search_siblings-IsChain G results [] f chain w c = c
    search_siblings-IsChain G results (g ∷ gs) f chain w c =
        either-Outcome (IsChain G results) NoError (b.embed_single (codes "Group: " ++ g.gid))
          (λ vec.
            either (search_single b vec g.total)
              (λ hits. search_siblings b gs (add_siblings g.gid hits chain))
              (λ e. search_siblings b gs chain))
          (λ e. search_siblings b gs chain) w
          (λ vec w'.
            either-Outcome (IsChain G results) NoError (search_single b vec g.total)
              (λ hits. search_siblings b gs (add_siblings g.gid hits chain))
              (λ e. search_siblings b gs chain) w'
              (λ hits w''.
                search_siblings-IsChain G results gs f.1 (add_siblings g.gid hits chain) w''
                  (add_siblings-IsChain G results g.gid f.0 hits chain c))
              (λ e w''. search_siblings-IsChain G results gs f.1 chain w'' c))
          (λ e w'. search_siblings-IsChain G results gs f.1 chain w' c)

    -- A hit of one of the groups.
    abbrev pub IsIn : List (GroupInfo fl.F) → SearchHit fl.F → Type 0
    IsIn gs h = (g : GroupInfo fl.F) × Mem g gs × (same_group g.gid h.group_id ≡ true)

    abbrev pub IsExpansion :
        (List (GroupInfo fl.F) → List (GroupInfo fl.F))
        → List (SearchHit fl.F)
        → List (SearchHit fl.F)
        → Type 0
    IsExpansion arrange results l =
        AllPairs DifferentId l × Grows (IsIn (chosen_groups b arrange results)) results l

    -- Where no two of the hits have the same id, the search for siblings returns the hits it was
    -- given, then hits of the (at most two) chosen groups, with no id twice; it never fails with an
    -- error.
    pub expand_phase_chains-IsExpansion :
        (arrange : List (GroupInfo fl.F) → List (GroupInfo fl.F)) (results : List (SearchHit fl.F))
        (w : b.W)
        → AllPairs DifferentId results
        → Outcome (IsExpansion arrange results) NoError (expand_phase_chains b arrange results w).0
    unfolding expand_phase_chains
    expand_phase_chains-IsExpansion arrange results w apart =
        let gs = chosen_groups b arrange results in
        bind-Outcome (IsChain (IsIn gs) results) (IsExpansion arrange results) NoError
          (search_siblings b gs (first_chain b results)) (results_of b) w
          (search_siblings-IsChain (IsIn gs) results gs
            (All-impl (λ g m h e. (g, m, e)) gs (All-mem gs)) (first_chain b results) w
            (apart, first_seen_ids results, ([], sym (append-nil results), tt)))
          (λ chain w' c. (c.0, c.2))
