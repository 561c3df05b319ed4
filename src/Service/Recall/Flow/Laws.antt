-- ===== src/Service/Recall/Flow/Laws.antt =====
-- What the answer of a recall promises.
use rune_mcp.Prelude.{
  ℕ, ◌≤◌, true, Option, none, some, List, [], ◌∷◌, map, ◌≡◌, All, All-keep, All-keep_test, All-take,
  arith, keep, length, length-take,
}
use mathlib.Core.List.Perm
use rune_mcp.Prelude.Float.{Float}
use rune_mcp.Prelude.Int.{pos_part}
use rune_mcp.Prelude.Permuted.{AllPairs, AllPairs-keep, AllPairs-take}
use rune_mcp.Prelude.Sort.{
  All-sort_stable, IsRanking, IsSorted, IsSorted-take, sort_stable, sort_stable-IsSorted,
  sort_stable-perm,
}
use rune_mcp.Prelude.Text.{Unicode}
use rune_mcp.Domain.Calendar.{Calendar, Time}
use rune_mcp.Domain.Query.{ParsedQuery, RecallArgs, SearchHit}
use rune_mcp.Policy.Regexp.{Regexp}
use rune_mcp.Policy.Rerank.{
  apply_recency_weighting, by_adjusted, filter_by_time, is_recent, keep_recent, time_range, weigh,
}
use rune_mcp.Service.Recall.Filter.{apply_metadata_filters, passes_filters}
use rune_mcp.Service.Recall.Flow.{filters_of, finish, top_k_of}
use rune_mcp.Service.Recall.Search.Laws.{DifferentId, DifferentId-perm}

module _ ⦃fl : Float⦄ ⦃u : Unicode⦄ ⦃rx : Regexp⦄ ⦃cal : Calendar⦄ where
  by_adjusted-IsRanking : IsRanking (by_adjusted ⦃fl = fl⦄)
  by_adjusted-IsRanking = record {
    asym = λ h k. fl.asym k.adjusted_score h.adjusted_score;
    trans = λ h k l e e'. fl.neg_trans l.adjusted_score k.adjusted_score h.adjusted_score e' e;
  }

  abbrev Passes : RecallArgs → SearchHit fl.F → Type 0
  Passes args h = passes_filters (filters_of args) h ≡ true

  abbrev pub IsRanked : RecallArgs → List (SearchHit fl.F) → Type 0
  IsRanked args hits =
      (length hits ≤ pos_part (top_k_of args.top_k))
      × IsSorted by_adjusted hits
      × AllPairs DifferentId hits
      × All (Passes args) hits

  weigh-Passes :
      (args : RecallArgs) (now : Time) (hits : List (SearchHit fl.F))
      → All (Passes args) hits
      → All (Passes args) (map (weigh now) hits)
  unfolding passes_filters
  weigh-Passes args now [] h = tt
  weigh-Passes args now (x ∷ xs) h = (h.0, weigh-Passes args now xs h.1)

  weigh-All_different :
      (now : Time) (x : SearchHit fl.F) (hits : List (SearchHit fl.F))
      → All (DifferentId x) hits
      → All (DifferentId (weigh now x)) (map (weigh now) hits)
  weigh-All_different now x [] h = tt
  weigh-All_different now x (y ∷ ys) h = (h.0, weigh-All_different now x ys h.1)

  weigh-DifferentId :
      (now : Time) (hits : List (SearchHit fl.F))
      → AllPairs DifferentId hits
      → AllPairs DifferentId (map (weigh now) hits)
  weigh-DifferentId now [] h = tt
  weigh-DifferentId now (x ∷ xs) h =
      (weigh-All_different now x xs h.0, weigh-DifferentId now xs h.1)

  keep_recent-All :
      (P : SearchHit fl.F → Type 0) (o : Option ℕ) (hits : List (SearchHit fl.F)) (now : Time)
      → All P hits
      → All P (keep_recent o hits now)
  keep_recent-All P none hits now h = h
  keep_recent-All P (some range) hits now h = All-keep P (is_recent range now) hits h

  keep_recent-DifferentId :
      (o : Option ℕ) (hits : List (SearchHit fl.F)) (now : Time)
      → AllPairs DifferentId hits
      → AllPairs DifferentId (keep_recent o hits now)
  keep_recent-DifferentId none hits now h = h
  keep_recent-DifferentId (some range) hits now h =
      AllPairs-keep DifferentId (is_recent range now) hits h

  -- Filters, time scope, weights and the cut, on hits with different ids.
  pub finish-IsRanked :
      (args : RecallArgs) (parsed : ParsedQuery) (now : Time) (hits : List (SearchHit fl.F))
      → AllPairs DifferentId hits
      → IsRanked args (finish args parsed now hits)
  unfolding finish apply_metadata_filters filter_by_time apply_recency_weighting
  finish-IsRanked args parsed now hits apart =
      let n = pos_part (top_k_of args.top_k) in
      let kept = keep (passes_filters (filters_of args)) hits in
      let recent = keep_recent (time_range parsed.time_scope) kept now in
      let weighed = map (weigh now) recent in
      let sorted = sort_stable by_adjusted weighed in
      let pass = weigh-Passes args now recent (
        keep_recent-All (Passes args) (time_range parsed.time_scope) kept now
          (All-keep_test (Passes args) (passes_filters (filters_of args)) (λ h e. e) hits)) in
      let differ = weigh-DifferentId now recent (
        keep_recent-DifferentId (time_range parsed.time_scope) kept now
          (AllPairs-keep DifferentId (passes_filters (filters_of args)) hits apart)) in
      (
        omega (arith, length-take n sorted),
        IsSorted-take by_adjusted n sorted (sort_stable-IsSorted by_adjusted-IsRanking weighed),
        AllPairs-take DifferentId n sorted (
            DifferentId-perm weighed sorted (Perm.symm (sort_stable-perm by_adjusted weighed))
              differ),
        All-take (Passes args) n sorted (All-sort_stable (Passes args) by_adjusted weighed pass),
      )
