-- ===== src/Service/Recall/Expand.antt =====
-- expandPhaseChains: the missing siblings of at most two groups.
pub mod Laws
use rune_mcp.Prelude.{
  ℕ, suc, Bool, true, false, not, ◌&&◌, Option, none, some, List, [], ◌∷◌, ◌++◌, map, keep, take,
  if◌then◌else◌,
}
use rune_mcp.Prelude.Float.{Float, fgt, fzero}
use rune_mcp.Prelude.Int.{ℤ, pos, ltb_ℤ}
use rune_mcp.Prelude.Text.{Text, codes, member, teq}
use rune_mcp.Domain.Query.{SearchHit}
use rune_mcp.Service.Backend.{Action, Backend, either, pure, ◌>>=◌}
use rune_mcp.Service.Recall.Search.{search_single}

pub record GroupInfo (F : Type 0) : Type 0 where
  pub gid : Text
  pub total : ℤ
  pub present : ℕ
  pub best_score : F

abbrev total_or_zero : Option ℤ → ℤ
total_or_zero none = pos 0
total_or_zero (some t) = t

abbrev pub same_group : Text → Option Text → Bool
same_group gid none = false
same_group gid (some g) = teq g gid

module _ ⦃fl : Float⦄ where
  abbrev counted : SearchHit fl.F → GroupInfo fl.F → GroupInfo fl.F
  counted h g = record g {
    present = suc g.present;
    best_score = if fgt h.score g.best_score then h.score else g.best_score;
  }

  -- The group of the hit, made on first sight, counts it. The first hit gives the total.
  unfoldable pub count_hit : Text → SearchHit fl.F → List (GroupInfo fl.F) → List (GroupInfo fl.F)
  count_hit gid h [] =
      counted h
        (record { gid = gid; total = total_or_zero h.phase_total; present = 0; best_score = fzero })
      ∷ []
  count_hit gid h (g ∷ gs) = if teq g.gid gid then counted h g ∷ gs else g ∷ count_hit gid h gs

  abbrev count_in : Option Text → SearchHit fl.F → List (GroupInfo fl.F) → List (GroupInfo fl.F)
  count_in none h gs = gs
  count_in (some gid) h gs = count_hit gid h gs

  unfoldable pub count_groups :
      List (SearchHit fl.F) → List (GroupInfo fl.F) → List (GroupInfo fl.F)
  unfolding count_hit
  count_groups [] gs = gs
  count_groups (h ∷ hs) gs = count_groups hs (count_in h.group_id h gs)

  abbrev pub is_incomplete : GroupInfo fl.F → Bool
  is_incomplete g = ltb_ℤ (pos g.present) g.total

  abbrev pub Chain : Type 0
  Chain = List (SearchHit fl.F) × List Text

  abbrev pub is_sibling : Text → List Text → SearchHit fl.F → Bool
  is_sibling gid seen h = not (member h.record_id seen) && same_group gid h.group_id

  -- The loop over the hits of one search, with the results and the ids seen so far.
  unfoldable pub add_siblings : Text → List (SearchHit fl.F) → Chain → Chain
  add_siblings gid [] chain = chain
  add_siblings gid (h ∷ hs) (results, seen) =
      let added = add_siblings gid hs (results ++ h ∷ [], h.record_id ∷ seen) in
      let same = add_siblings gid hs (results, seen) in
      if is_sibling gid seen h then added else same

  module _ (b : Backend fl.F) where
    -- The loop over the groups: a failed embedding or search is passed over.
    unfoldable pub search_siblings : List (GroupInfo fl.F) → Chain → Action b.W Chain
    unfolding add_siblings
    search_siblings [] chain = pure chain
    search_siblings (g ∷ gs) chain =
        either (b.embed_single (codes "Group: " ++ g.gid))
          (λ vec.
            either (search_single b vec g.total)
              (λ hits. search_siblings gs (add_siblings g.gid hits chain))
              (λ e. search_siblings gs chain))
          (λ e. search_siblings gs chain)

    abbrev pub results_of : Chain → Action b.W (List (SearchHit fl.F))
    results_of (results, seen) = pure results

    abbrev pub chosen_groups :
        (List (GroupInfo fl.F) → List (GroupInfo fl.F))
        → List (SearchHit fl.F)
        → List (GroupInfo fl.F)
    chosen_groups arrange results = take 2 (arrange (keep is_incomplete (count_groups results [])))

    abbrev pub first_chain : List (SearchHit fl.F) → Chain
    first_chain results = (results, map (λ h. h.record_id) results)

    -- `arrange` is the order that the walk through the map and the sort, which is not stable, give.
    unfoldable pub expand_phase_chains :
        (List (GroupInfo fl.F) → List (GroupInfo fl.F))
        → List (SearchHit fl.F)
        → Action b.W (List (SearchHit fl.F))
    unfolding count_groups search_siblings
    expand_phase_chains arrange results =
        search_siblings (chosen_groups arrange results) (first_chain results) >>= results_of
