-- ===== src/Service/Recall/Groups.antt =====
-- Phase 6 of a recall: assembleGroups. Go visits a map in an order of its own: `visit` gives the
-- groups in that order.
pub mod Split
mod Merge
pub mod Laws
use rune_mcp.Prelude.{
  ℕ, Bool, true, false, Option, none, some, List, [], ◌∷◌, ◌++◌, map, if◌then◌else◌,
}
use rune_mcp.Prelude.Float.{Float, fge, fgt, fone, fzero}
use rune_mcp.Prelude.Int.{ℤ, pos, ltb_ℤ}
use rune_mcp.Prelude.Sort.{sort_stable}
use rune_mcp.Prelude.Text.{Text, teq}
use rune_mcp.Domain.Errors.{Result, ok, err, panic}
use rune_mcp.Domain.Query.{SearchHit}
use rune_mcp.Service.Recall.Metadata.{by_score}

pub record Group (F : Type 0) : Type 0 where
  pub gid : Text
  pub hits : List (SearchHit F)
  pub best_score : F

abbrev seq_or_zero : Option ℤ → ℤ
seq_or_zero none = pos 0
seq_or_zero (some s) = s

module _ {F : Type 0} where
  abbrev pub by_phase : SearchHit F → SearchHit F → Bool
  by_phase h k = ltb_ℤ (seq_or_zero h.phase_seq) (seq_or_zero k.phase_seq)

module _ ⦃fl : Float⦄ where
  abbrev better : fl.F → fl.F → fl.F
  better new old = if fgt new old then new else old

  -- `groups[gid]`, made on first sight, gets the hit.
  unfoldable pub add_to_group : Text → SearchHit fl.F → List (Group fl.F) → List (Group fl.F)
  add_to_group gid h [] =
      record { gid = gid; hits = h ∷ []; best_score = better h.score fzero } ∷ []
  add_to_group gid h (g ∷ gs) =
      if teq g.gid gid
      then record g { hits = g.hits ++ h ∷ []; best_score = better h.score g.best_score } ∷ gs
      else g ∷ add_to_group gid h gs

  abbrev place :
      Option Text
      → SearchHit fl.F
      → List (Group fl.F) × List (SearchHit fl.F)
      → List (Group fl.F) × List (SearchHit fl.F)
  place none h (groups, alone) = (groups, alone ++ h ∷ [])
  place (some gid) h (groups, alone) = (add_to_group gid h groups, alone)

  -- The first loop, from the groups and the standalone hits so far.
  unfoldable pub split_hits :
      List (SearchHit fl.F)
      → List (Group fl.F) × List (SearchHit fl.F)
      → List (Group fl.F) × List (SearchHit fl.F)
  unfolding add_to_group
  split_hits [] acc = acc
  split_hits (h ∷ hs) acc = split_hits hs (place h.group_id h acc)

  abbrev pub sort_phases : Group fl.F → Group fl.F
  sort_phases g = record g { hits = sort_stable by_phase g.hits }

  abbrev pub by_best : Group fl.F → Group fl.F → Bool
  by_best g k = fgt g.best_score k.best_score

  abbrev pub minus_one : fl.F
  minus_one = fl.neg fone

  abbrev pub push_hits :
      List (SearchHit fl.F) → Result (List (SearchHit fl.F)) → Result (List (SearchHit fl.F))
  push_hits hs (ok rest) = ok (hs ++ rest)
  push_hits hs (err e) = err e
  push_hits hs panic = panic

  -- The merge loop. A side that is used up has the score -1; taking from it is an index out of range.
  unfoldable pub merge_groups :
      List (Group fl.F) → List (SearchHit fl.F) → Result (List (SearchHit fl.F))
  merge_groups [] [] = ok []
  merge_groups [] (s ∷ ss) =
      let rest = push_hits (s ∷ []) (merge_groups [] ss) in
      if fge minus_one s.score then panic else rest
  merge_groups (g ∷ gs) [] =
      let rest = push_hits g.hits (merge_groups gs []) in
      if fge g.best_score minus_one then rest else panic
  merge_groups (g ∷ gs) (s ∷ ss) =
      let take_group = push_hits g.hits (merge_groups gs (s ∷ ss)) in
      let take_alone = push_hits (s ∷ []) (merge_groups (g ∷ gs) ss) in
      if fge g.best_score s.score then take_group else take_alone

  -- assembleGroups
  unfoldable pub assemble_groups :
      (List (Group fl.F) → List (Group fl.F))
      → List (SearchHit fl.F)
      → Result (List (SearchHit fl.F))
  unfolding split_hits merge_groups
  assemble_groups visit results =
      let split = split_hits results ([], []) in
      merge_groups (sort_stable by_best (map sort_phases (visit split.0)))
        (sort_stable by_score split.1)
