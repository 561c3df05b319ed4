-- ===== src/Service/Lifecycle/Delete/Found.antt =====
-- What SearchByID finds.
use rune_mcp.Prelude.{
  ◌&&◌, Option, none, some, List, [], ◌∷◌, ◌++◌, ◌≡◌, refl, All, if-elim, ◌⊎◌, inl, inr, false,
}
use rune_mcp.Prelude.Float.{Float}
use rune_mcp.Prelude.Int.{pos}
use rune_mcp.Prelude.Json.{Object, get}
use rune_mcp.Prelude.Text.{Text, codes, is_empty, trim_space, teq, teq_iff}
use rune_mcp.Domain.Errors.{ok}
use rune_mcp.Domain.Query.{SearchHit}
use rune_mcp.Service.Backend.{Action, Backend, MetadataRef, ScoreEntry, wrapping}
use rune_mcp.Service.Backend.Outcome.{
  Ends, Outcome, any-Outcome, bind-Outcome, call-Ends, wrapped-Outcome,
}
use rune_mcp.Service.Lifecycle.Delete.{find_hit, hit_or, search_blobs, search_by_id}
use rune_mcp.Service.Recall.Metadata.{
  MetadataFormat, classify_base64, classify_decoded, classify_metadata, classify_parsed, has_key,
  rest_of, score_at, str_from_map, to_search_hit,
}
use rune_mcp.Service.Recall.Search.{refs_of}

module _ ⦃fl : Float⦄ (b : Backend fl.F) where
  -- The entry's metadata parse, and carry the id; they parse to other metadata, or not at all.
  abbrev pub IsEntry : Text → Text → fl.F → SearchHit fl.F → Type 0
  IsEntry id e score hit =
      (m : Object fl.F) × ((classify_metadata b e).1 ≡ some m)
      × (str_from_map m (codes "id") (codes "unknown") ≡ id)
      × (hit ≡ to_search_hit m score)

  abbrev pub IsOther : Text → Text → Type 0
  IsOther id e =
      (m : Object fl.F)
      → (classify_metadata b e).1 ≡ some m
      → teq (str_from_map m (codes "id") (codes "unknown")) id ≡ false

  -- The hit is that of the first entry whose metadata carry the id.
  abbrev pub IsFirst : Text → List Text → List (ScoreEntry fl.F) → SearchHit fl.F → Type 0
  IsFirst id [] scores hit = ⊥
  IsFirst id (e ∷ es) scores hit =
      IsEntry id e (score_at b scores) hit ⊎ (IsOther id e × IsFirst id es (rest_of b scores) hit)

  abbrev FirstIf : Text → List Text → List (ScoreEntry fl.F) → Option (SearchHit fl.F) → Type 0
  FirstIf id es scores none = Unit {0}
  FirstIf id es scores (some hit) = IsFirst id es scores hit

  later-FirstIf :
      (id e : Text) (es : List Text) (scores : List (ScoreEntry fl.F)) (o : Option (SearchHit fl.F))
      → IsOther id e
      → FirstIf id es (rest_of b scores) o
      → FirstIf id (e ∷ es) scores o
  later-FirstIf id e es scores none other h = tt
  later-FirstIf id e es scores (some hit) other h = inr (other, h)

  hit_or-FirstIf :
      (id e : Text) (es : List Text) (scores : List (ScoreEntry fl.F))
      (rest : Option (SearchHit fl.F)) (o : Option (Object fl.F))
      → (classify_metadata b e).1 ≡ o
      → FirstIf id es (rest_of b scores) rest
      → FirstIf id (e ∷ es) scores (hit_or b id (score_at b scores) rest o)
  unfolding to_search_hit
  hit_or-FirstIf id e es scores rest none q h =
      later-FirstIf id e es scores rest (λ m p. absurd cc) h
  hit_or-FirstIf id e es scores rest (some m) q h =
      let found = str_from_map m (codes "id") (codes "unknown") in
      if-elim (FirstIf id (e ∷ es) scores) (teq found id)
        (λ t. inl (m, q, (teq_iff found id).0 t, refl))
        (λ f. later-FirstIf id e es scores rest (λ m' p. let same : m ≡ m' = cc in rw (← same) f) h)

  find_hit-FirstIf :
      (id : Text) (es : List Text) (scores : List (ScoreEntry fl.F))
      → FirstIf id es scores (find_hit b id es scores)
  unfolding find_hit
  find_hit-FirstIf id [] scores = tt
  find_hit-FirstIf id (e ∷ es) scores =
      hit_or-FirstIf id e es scores (find_hit b id es (rest_of b scores)) (classify_metadata b e).1
        refl (find_hit-FirstIf id es (rest_of b scores))

  -- The calls of a search for the id that finds the hit, from the one world to the other.
  abbrev pub IsSearch : Text → b.W → SearchHit fl.F → b.W → Type 0
  IsSearch id w hit w₄ =
      (vec : b.Vec) × (blob : b.Blob) × (blobs : List b.Blob) × (scores : List (ScoreEntry fl.F))
      × (metas : List Text) × (w₁ : b.W) × (w₂ : b.W) × (w₃ : b.W) × (b.embed_single
            (codes "ID: " ++ id) w
          ≡ (ok vec, w₁))
      × (b.envector_score vec w₁ ≡ (ok (blob ∷ blobs), w₂))
      × (b.decrypt_scores (b.base64 blob) (pos 5) w₂ ≡ (ok scores, w₃))
      × (b.get_metadata (refs_of b scores) w₃ ≡ (ok metas, w₄))
      × IsFirst id metas scores hit

  abbrev pub SearchIf : Text → b.W → Option (SearchHit fl.F) → b.W → Type 0
  SearchIf id w none w' = Unit {0}
  SearchIf id w (some hit) w' = IsSearch id w hit w'

  search_blobs-SearchIf :
      (id : Text) (w w₁ : b.W) (vec : b.Vec) (blobs : List b.Blob) (w₂ : b.W)
      → b.embed_single (codes "ID: " ++ id) w ≡ (ok vec, w₁)
      → b.envector_score vec w₁ ≡ (ok blobs, w₂)
      → Ends (SearchIf id w) (search_blobs b id blobs w₂)
  search_blobs-SearchIf id w w₁ vec [] w₂ p q = tt
  search_blobs-SearchIf id w w₁ vec (blob ∷ blobs) w₂ p q =
      call-Ends (SearchIf id w) _ (b.decrypt_scores (b.base64 blob) (pos 5)) _ w₂ λ scores w₃ r.
        call-Ends (SearchIf id w) _ (b.get_metadata (refs_of b scores)) _ w₃ λ metas w₄ t.
          found (find_hit b id metas scores) w₃ w₄ scores metas r t
            (find_hit-FirstIf id metas scores)
    where
      found :
          (o : Option (SearchHit fl.F)) (w₃ w₄ : b.W) (scores : List (ScoreEntry fl.F))
          (metas : List Text)
          → b.decrypt_scores (b.base64 blob) (pos 5) w₂ ≡ (ok scores, w₃)
          → b.get_metadata (refs_of b scores) w₃ ≡ (ok metas, w₄)
          → FirstIf id metas scores o
          → SearchIf id w o w₄
      found none w₃ w₄ scores metas r t h = tt
      found (some hit) w₃ w₄ scores metas r t h =
          (vec, blob, blobs, scores, metas, w₁, w₂, w₃, p, q, r, t, h)

  pub search_by_id-SearchIf : (id : Text) (w : b.W) → Ends (SearchIf id w) (search_by_id b id w)
  unfolding search_by_id
  search_by_id-SearchIf id w =
      call-Ends (SearchIf id w) _ (b.embed_single (codes "ID: " ++ id)) _ w λ vec w₁ p.
        call-Ends (SearchIf id w) _ (b.envector_score vec) _ w₁
          λ blobs w₂ q. search_blobs-SearchIf id w w₁ vec blobs w₂ p q

  -- An envelope, such as sealMetadata makes.
  abbrev pub IsEnvelope : Text → Type 0
  IsEnvelope e = (classify_metadata b e).0 ≡ MetadataFormat.aes_envelope

  abbrev IsSealed : MetadataFormat × Option (Object fl.F) → Type 0
  IsSealed r = r.0 ≡ MetadataFormat.aes_envelope → r.1 ≡ none

  classify_parsed-IsSealed :
      (o : Option (Object fl.F)) (d : Text) → IsSealed (classify_parsed b o d)
  classify_parsed-IsSealed (some m) d =
      if-elim IsSealed (has_key (get m (codes "a")) && has_key (get m (codes "c"))) (λ _ e. refl)
        (λ _ e. absurd cc)
  classify_parsed-IsSealed none d = base64_case (b.base64_decode d)
    where
      decoded_case : (o : Option (Object fl.F)) → IsSealed (classify_decoded b o)
      decoded_case none = λ e. refl
      decoded_case (some m) = λ e. absurd cc

      base64_case : (o : Option Text) → IsSealed (classify_base64 b o)
      base64_case none = λ e. refl
      base64_case (some x) = decoded_case (b.parse_object x)

  classify_metadata-IsSealed : (e : Text) → IsSealed (classify_metadata b e)
  unfolding classify_metadata
  classify_metadata-IsSealed e =
      if-elim IsSealed (is_empty (trim_space e)) (λ _ _. refl)
        (λ _. classify_parsed-IsSealed (b.parse_object (trim_space e)) (trim_space e))

  pub find_hit-sealed :
      (id : Text) (es : List Text) (scores : List (ScoreEntry fl.F))
      → All IsEnvelope es
      → find_hit b id es scores ≡ none
  unfolding find_hit
  find_hit-sealed id [] scores h = refl
  find_hit-sealed id (e ∷ es) scores h =
      rw (classify_metadata-IsSealed e h.0) (find_hit-sealed id es (rest_of b scores) h.1)

  module _ (P : Option (SearchHit fl.F) → Type 0) (none_holds : P none) (Q : List Text → Type 0)
      (id : Text)
      (read : (es : List Text) (scores : List (ScoreEntry fl.F))
        → Q es
        → P (find_hit b id es scores))
      (metadata : (refs : List MetadataRef) (w : b.W)
        → Outcome Q (λ e. Unit {0}) (b.get_metadata refs w).0) where
    wrapped_call :
        {A : Type 0} (R : A → Type 0) (m : Text) (call : Action b.W A) (w : b.W)
        → Outcome R (λ e. Unit {0}) (call w).0
        → Outcome R (λ e. Unit {0}) (wrapping m call w).0
    wrapped_call R m call w h =
        wrapped-Outcome R (λ e. Unit {0}) (λ e. Unit {0}) m (call w).0 (λ e q. tt) h

    search_blobs-Outcome :
        (blobs : List b.Blob) (w : b.W) → Outcome P (λ e. Unit {0}) (search_blobs b id blobs w).0
    search_blobs-Outcome [] w = none_holds
    search_blobs-Outcome (blob ∷ blobs) w =
        let scored =
          wrapping (codes "search by ID: decrypt scores")
            (b.decrypt_scores (b.base64 blob) (pos 5)) in
        let reading = codes "search by ID: get metadata" in
        bind-Outcome (λ scores. Unit {0}) P (λ e. Unit {0}) scored _ w (any-Outcome (scored w).0)
          (λ scores w₁ _.
            bind-Outcome Q P (λ e. Unit {0}) (wrapping reading (b.get_metadata (refs_of b scores)))
              _ w₁
              (wrapped_call Q reading (b.get_metadata (refs_of b scores)) w₁
                (metadata (refs_of b scores) w₁))
              (λ metas w₂ q. read metas scores q))

    pub search_by_id-Outcome : (w : b.W) → Outcome P (λ e. Unit {0}) (search_by_id b id w).0
    unfolding search_by_id
    search_by_id-Outcome w =
        let embedded =
          wrapping (codes "search by ID: embed") (b.embed_single (codes "ID: " ++ id)) in
        bind-Outcome (λ vec. Unit {0}) P (λ e. Unit {0}) embedded _ w (any-Outcome (embedded w).0)
          (λ vec w₁ _.
            let scored = wrapping (codes "search by ID: score") (b.envector_score vec) in
            bind-Outcome (λ blobs. Unit {0}) P (λ e. Unit {0}) scored _ w₁
              (any-Outcome (scored w₁).0) (λ blobs w₂ _. search_blobs-Outcome blobs w₂))
