-- ===== src/Service/Recall/Search/Laws.antt =====
-- The searches give every record once, best score first, and abort for one kind of error only.
use rune_mcp.Prelude.{
  false, Option, none, some, List, [], ◌∷◌, ◌++◌, ◌≡◌, refl, ap, sym, ◌∙◌, All, All-impl, if-elim,
  arith,
}
use mathlib.Core.List.{Perm}
use mathlib.Core.List.Perm
use rune_mcp.Prelude.Float.{Float}
use rune_mcp.Prelude.Int.{ℤ}
use rune_mcp.Prelude.Permuted.{AllPairs, AllPairs-perm}
use rune_mcp.Prelude.Sort.{IsRanking, IsSorted, sort_stable, sort_stable-IsSorted, sort_stable-perm}
use rune_mcp.Prelude.Text.{Text, member, teq, teq_iff}
use rune_mcp.Domain.Errors.{Adapter, AdapterError, Code, Error, RuneError, as_adapter}
use rune_mcp.Service.Backend.{Action, Backend, either, pure, ◌>>=◌}
use rune_mcp.Service.Backend.Outcome.{Outcome, bind-Outcome, either-Outcome}
use rune_mcp.Domain.Query.{SearchHit}
use rune_mcp.Service.Recall.Metadata.{by_score}
use rune_mcp.Service.Recall.Search.{
  Found, fresh_hits, more_found, search_each, search_original, search_single,
  search_with_expansions, topk_limit_err, topk_limit_of, unless_topk, vault_topk_exceeded,
}

module _ {F : Type 0} where
  -- No hit has an id that was seen before it.
  abbrev pub IsFresh : List Text → List (SearchHit F) → Type 0
  IsFresh seen [] = Unit
  IsFresh seen (h ∷ hs) = (member h.record_id seen ≡ false) × IsFresh (h.record_id ∷ seen) hs

  abbrev grown : List Text → List (SearchHit F) → List Text
  grown seen [] = seen
  grown seen (h ∷ hs) = grown (h.record_id ∷ seen) hs

  fresh_hits-IsFresh :
      (seen : List Text) (hs : List (SearchHit F)) → IsFresh seen (fresh_hits seen hs).0
  unfolding fresh_hits
  fresh_hits-IsFresh seen [] = tt
  fresh_hits-IsFresh seen (h ∷ hs) =
      if-elim {A = List (SearchHit F) × List Text} (λ r. IsFresh seen r.0) (member h.record_id seen)
        (λ e. fresh_hits-IsFresh seen hs) (λ e. (e, fresh_hits-IsFresh (h.record_id ∷ seen) hs))

  fresh_hits-grown :
      (seen : List Text) (hs : List (SearchHit F))
      → (fresh_hits seen hs).1 ≡ grown seen (fresh_hits seen hs).0
  unfolding fresh_hits
  fresh_hits-grown seen [] = refl
  fresh_hits-grown seen (h ∷ hs) =
      if-elim {A = List (SearchHit F) × List Text} (λ r. r.1 ≡ grown seen r.0)
        (member h.record_id seen) (λ e. fresh_hits-grown seen hs)
        (λ e. fresh_hits-grown (h.record_id ∷ seen) hs)

  IsFresh-append :
      (seen : List Text) (xs ys : List (SearchHit F))
      → IsFresh seen xs
      → IsFresh (grown seen xs) ys
      → IsFresh seen (xs ++ ys)
  IsFresh-append seen [] ys hx hy = hy
  IsFresh-append seen (x ∷ xs) ys hx hy = (hx.0, IsFresh-append (x.record_id ∷ seen) xs ys hx.1 hy)

  grown-append :
      (seen : List Text) (xs ys : List (SearchHit F))
      → grown seen (xs ++ ys) ≡ grown (grown seen xs) ys
  grown-append seen [] ys = refl
  grown-append seen (x ∷ xs) ys = grown-append (x.record_id ∷ seen) xs ys

  -- The ids of two hits differ.
  abbrev pub DifferentId : SearchHit F → SearchHit F → Type 0
  DifferentId h k = teq h.record_id k.record_id ≡ false

  DifferentId-sym : (h k : SearchHit F) → DifferentId h k → DifferentId k h
  DifferentId-sym h k e =
      ground (arith, teq_iff h.record_id k.record_id, teq_iff k.record_id h.record_id)

  abbrev IsUnseen : List Text → SearchHit F → Type 0
  IsUnseen seen h = member h.record_id seen ≡ false

  IsUnseen-cons :
      (t : Text) (seen : List Text) (h : SearchHit F)
      → IsUnseen (t ∷ seen) h
      → (teq t h.record_id ≡ false) × IsUnseen seen h
  unfolding member
  IsUnseen-cons t seen h e = ground arith

  IsFresh-IsUnseen :
      (seen : List Text) (hs : List (SearchHit F)) → IsFresh seen hs → All (IsUnseen seen) hs
  IsFresh-IsUnseen seen [] f = tt
  IsFresh-IsUnseen seen (h ∷ hs) f = (
    f.0,
    All-impl (λ k e. (IsUnseen-cons h.record_id seen k e).1) hs
        (IsFresh-IsUnseen (h.record_id ∷ seen) hs f.1),
  )

  pub IsFresh-pairs :
      (seen : List Text) (hs : List (SearchHit F)) → IsFresh seen hs → AllPairs DifferentId hs
  IsFresh-pairs seen [] f = tt
  IsFresh-pairs seen (h ∷ hs) f = (
    All-impl (λ k e. (IsUnseen-cons h.record_id seen k e).0) hs
        (IsFresh-IsUnseen (h.record_id ∷ seen) hs f.1),
    IsFresh-pairs (h.record_id ∷ seen) hs f.1,
  )

  pub DifferentId-perm :
      (xs ys : List (SearchHit F)) → Perm xs ys → AllPairs DifferentId xs → AllPairs DifferentId ys
  DifferentId-perm xs ys p h = AllPairs-perm DifferentId DifferentId-sym (λ a b. hlevel) p h

module _ ⦃fl : Float⦄ where
  pub by_score-IsRanking : IsRanking (by_score ⦃fl = fl⦄)
  by_score-IsRanking = record {
    asym = λ h k. fl.asym k.score h.score;
    trans = λ h k l e e'. fl.neg_trans l.score k.score h.score e' e;
  }

  module _ (b : Backend fl.F) where
    -- The hits so far have different ids, and these are the ids `seen`.
    abbrev IsConsistent : Found b → Type 0
    IsConsistent (hits, seen) = IsFresh [] hits × (seen ≡ grown [] hits)

    more_found-IsConsistent :
        (found : Found b) (new : List (SearchHit fl.F))
        → IsConsistent found
        → IsConsistent (more_found b found new)
    more_found-IsConsistent (hits, seen) new (f, e) = (
      IsFresh-append [] hits (fresh_hits seen new).0 f (rw (sym e) (fresh_hits-IsFresh seen new)),
      fresh_hits-grown seen new
          ∙ (ap (λ s. grown s (fresh_hits seen new).0) e
              ∙ sym (grown-append [] hits (fresh_hits seen new).0)),
    )

    -- The error that aborts a recall.
    abbrev pub IsTopkLimit : Error → Type 0
    IsTopkLimit e = (te : RuneError) × (e ≡ Error.rune te) × (te.code ≡ Code.topk_limit)

    unless_topk-Outcome :
        {A : Type 0} (P : A → Type 0) (o : Option AdapterError) (next : Action b.W A) (w : b.W)
        → Outcome P IsTopkLimit (next w).0
        → Outcome P IsTopkLimit (unless_topk b (topk_limit_of o) next w).0
    unfolding topk_limit_of
    unless_topk-Outcome P none next w h = h
    unless_topk-Outcome P (some a) next w h =
        if-elim (λ t. Outcome P IsTopkLimit (unless_topk b t next w).0)
          (teq a.code vault_topk_exceeded)
          (λ e. (
            record {
              code = Code.topk_limit;
              message = a.message;
              retryable = false;
              recovery_hint = [];
            },
            refl,
            refl,
          ))
          (λ e. h)

    search_each-Outcome :
        (vecs : List b.Vec) (exps : List Text) (topk : ℤ) (found : Found b) (w : b.W)
        → IsConsistent found
        → Outcome IsConsistent IsTopkLimit (search_each b vecs exps topk found w).0
    unfolding search_each topk_limit_err
    search_each-Outcome [] exps topk found w c = c
    search_each-Outcome (vec ∷ vecs) [] topk found w c = c
    search_each-Outcome (vec ∷ vecs) (e ∷ exps) topk found w c =
        either-Outcome IsConsistent IsTopkLimit (search_single b vec topk)
          (λ hits. search_each b vecs exps topk (more_found b found hits))
          (λ er. unless_topk b (topk_limit_err er) (search_each b vecs exps topk found)) w
          (λ hits w'.
            search_each-Outcome vecs exps topk (more_found b found hits) w'
              (more_found-IsConsistent found hits c))
          (λ er w'.
            unless_topk-Outcome IsConsistent (as_adapter Adapter.vault er)
              (search_each b vecs exps topk found) w'
              (search_each-Outcome vecs exps topk found w' c))

    search_original-Outcome :
        (original : Text) (exps : List Text) (topk : ℤ) (found : Found b) (w : b.W)
        → IsConsistent found
        → Outcome IsConsistent IsTopkLimit (search_original b original exps topk found w).0
    unfolding search_original topk_limit_err
    search_original-Outcome original exps topk found w c =
        if-elim {A = Action b.W (Found b)} (λ m. Outcome IsConsistent IsTopkLimit (m w).0)
          (member original exps) (λ e. c)
          (λ e.
            either-Outcome IsConsistent IsTopkLimit (b.embed_single original)
              (λ vec.
                either (search_single b vec topk) (λ hits. pure (more_found b found hits))
                  (λ er. unless_topk b (topk_limit_err er) (pure found)))
              (λ er. pure found) w
              (λ vec w'.
                either-Outcome IsConsistent IsTopkLimit (search_single b vec topk)
                  (λ hits. pure (more_found b found hits))
                  (λ er. unless_topk b (topk_limit_err er) (pure found)) w'
                  (λ hits w''. more_found-IsConsistent found hits c)
                  (λ er w''.
                    unless_topk-Outcome IsConsistent (as_adapter Adapter.vault er) (pure found) w''
                      c))
              (λ er w'. c))

    abbrev pub IsAnswer : List (SearchHit fl.F) → Type 0
    IsAnswer hits = AllPairs DifferentId hits × IsSorted by_score hits

    -- Whatever the daemons answer: where the searches return hits, no two of them have the same
    -- record id and none has a higher score than one before it; where they return an error, it is the
    -- TOPK_LIMIT error, since every other error of a search is only logged.
    pub search_with_expansions-Outcome :
        (original : Text) (exps : List Text) (vectors : List b.Vec) (topk : ℤ) (w : b.W)
        → Outcome IsAnswer IsTopkLimit (search_with_expansions b original exps vectors topk w).0
    unfolding search_with_expansions
    search_with_expansions-Outcome original exps vectors topk w =
        bind-Outcome IsConsistent IsAnswer IsTopkLimit (search_each b vectors exps topk ([], []))
          (λ found.
            search_original b original exps topk found >>= λ all. pure (sort_stable by_score all.0))
          w (search_each-Outcome vectors exps topk ([], []) w (tt, refl))
          λ found w' c.
            bind-Outcome IsConsistent IsAnswer IsTopkLimit
              (search_original b original exps topk found)
              (λ all. pure (sort_stable by_score all.0)) w'
              (search_original-Outcome original exps topk found w' c)
              λ all w'' c'. (
                DifferentId-perm all.0 (sort_stable by_score all.0)
                    (Perm.symm (sort_stable-perm by_score all.0)) (IsFresh-pairs [] all.0 c'.0),
                sort_stable-IsSorted by_score-IsRanking all.0,
              )
