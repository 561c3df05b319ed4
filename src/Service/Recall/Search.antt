-- ===== src/Service/Recall/Search.antt =====
-- Phase 4 of a recall: one search, and the searches for the expansions of the query.
pub mod Laws
use rune_mcp.Prelude.{
  ℕ, zero, suc, ◌+◌, Bool, true, false, not, ◌&&◌, Option, none, some, List, [], ◌∷◌, ◌++◌, map,
  ◌==◌, if◌then◌else◌,
}
use rune_mcp.Prelude.Float.{Float, fgt}
use rune_mcp.Prelude.Int.{ℤ}
use rune_mcp.Prelude.Sort.{sort_stable}
use rune_mcp.Prelude.Text.{Text, codes, member, teq}
use rune_mcp.Domain.Errors.{
  Adapter, AdapterError, Code, Error, Result, RuneError, as_adapter, ok, err,
}
use rune_mcp.Service.Backend.{
  Action, Backend, MetadataRef, ScoreEntry, either, fail, pure, wrapping, ◌>>=◌,
}
use rune_mcp.Service.Recovery.{score_with_recovery}
use rune_mcp.Domain.Query.{SearchHit}
use rune_mcp.Service.Recall.Metadata.{by_score, resolve_metadata}

abbrev pub vault_topk_exceeded : Text
vault_topk_exceeded = codes "VAULT_TOPK_EXCEEDED"

unfoldable pub topk_limit_of : Option AdapterError → Option RuneError
topk_limit_of none = none
topk_limit_of (some a) =
    if teq a.code vault_topk_exceeded
    then some (record {
      code = Code.topk_limit;
      message = a.message;
      retryable = false;
      recovery_hint = [];
    })
    else none

-- topKLimitErr
unfoldable pub topk_limit_err : Error → Option RuneError
unfolding topk_limit_of
topk_limit_err e = topk_limit_of (as_adapter Adapter.vault e)

-- The loop that keeps the hits whose id was not `seen`; it returns them with the ids seen since.
unfoldable pub fresh_hits :
    {F : Type 0} → List Text → List (SearchHit F) → List (SearchHit F) × List Text
fresh_hits seen [] = ([], seen)
fresh_hits seen (h ∷ hs) =
    let old = fresh_hits seen hs in
    let new = fresh_hits (h.record_id ∷ seen) hs in
    if member h.record_id seen then old else (h ∷ new.0, new.1)

module _ ⦃fl : Float⦄ (b : Backend fl.F) where
  abbrev pub refs_of : List (ScoreEntry fl.F) → List MetadataRef
  refs_of entries = map (λ e. record { shard_idx = e.shard_idx; row_idx = e.row_idx }) entries

  abbrev with_entries : List (ScoreEntry fl.F) → Action b.W (List (SearchHit fl.F))
  with_entries [] = pure []
  with_entries (e ∷ es) =
      wrapping (codes "envector get_metadata") (b.get_metadata (refs_of (e ∷ es))) >>= λ metas.
      wrapping (codes "resolve metadata") (resolve_metadata b metas (e ∷ es))

  abbrev with_blobs : ℤ → List b.Blob → Action b.W (List (SearchHit fl.F))
  with_blobs topk [] = pure []
  with_blobs topk (blob ∷ blobs) =
      wrapping (codes "vault decrypt scores") (b.decrypt_scores (b.base64 blob) topk)
      >>= with_entries

  -- searchSingle
  unfoldable pub search_single : b.Vec → ℤ → Action b.W (List (SearchHit fl.F))
  search_single vec topk =
      wrapping (codes "envector score") (score_with_recovery b vec) >>= with_blobs topk

  -- `if te := topKLimitErr(err); te != nil { return nil, te }`, and the best-effort case.
  abbrev pub unless_topk : {A : Type 0} → Option RuneError → Action b.W A → Action b.W A
  unless_topk none next = next
  unless_topk (some te) next = fail (Error.rune te)

  abbrev pub Found : Type 0
  Found = List (SearchHit fl.F) × List Text

  abbrev pub more_found : Found → List (SearchHit fl.F) → Found
  more_found (hits, seen) new = let (kept, seen') = fresh_hits seen new in (hits ++ kept, seen')

  -- The loop over the vectors, which stops with the expansions.
  unfoldable pub search_each : List b.Vec → List Text → ℤ → Found → Action b.W Found
  search_each [] exps topk found = pure found
  search_each (vec ∷ vecs) [] topk found = pure found
  search_each (vec ∷ vecs) (e ∷ exps) topk found =
      either (search_single vec topk) (λ hits. search_each vecs exps topk (more_found found hits))
        (λ er. unless_topk (topk_limit_err er) (search_each vecs exps topk found))

  -- The search for the query itself, where it is none of the expansions.
  unfoldable pub search_original : Text → List Text → ℤ → Found → Action b.W Found
  search_original original exps topk found =
      if member original exps
      then pure found
      else either (b.embed_single original)
          (λ vec.
            either (search_single vec topk) (λ hits. pure (more_found found hits))
              (λ er. unless_topk (topk_limit_err er) (pure found)))
          (λ er. pure found)

  unfoldable pub search_with_expansions :
      Text → List Text → List b.Vec → ℤ → Action b.W (List (SearchHit fl.F))
  unfolding search_each search_original
  search_with_expansions original exps vectors topk =
      search_each vectors exps topk ([], []) >>= λ found.
      search_original original exps topk found >>= λ all. pure (sort_stable by_score all.0)
