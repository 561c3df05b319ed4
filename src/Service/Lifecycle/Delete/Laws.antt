-- ===== src/Service/Lifecycle/Delete/Laws.antt =====
-- What a deletion finds and writes.
use mathlib.Core.Path.{subst}
use rune_mcp.Prelude.{
  false, not, ◌&&◌, Option, none, some, List, [], ◌∷◌, ◌≡◌, refl, ap, arith, All, inl, inr,
  Bool-cases, if-elim,
}
use rune_mcp.Prelude.Float.{Float}
use rune_mcp.Prelude.Json.{Json, Object, end, field, get}
use rune_mcp.Prelude.Text.{Text, codes, is_empty, teq, teq_iff, teq_refl}
use rune_mcp.Adapters.AesCtr.{Bytes, Crypto, seal}
use rune_mcp.Domain.Calendar.{Calendar, Time}
use rune_mcp.Domain.Capture.{CaptureLogEntry}
use rune_mcp.Domain.Errors.{Result, err, ok, panic}
use rune_mcp.Domain.Query.{SearchHit}
use rune_mcp.Service.Backend.{Backend, MetadataRef, lift, wrapped, wrapping}
use rune_mcp.Service.Backend.Outcome.{
  Ends, Outcome, bind-Ends, bind-Outcome, call-Ends, wrapped-Outcome,
}
use rune_mcp.Service.Capture.{AgentKey}
use rune_mcp.Service.Lifecycle.Delete.{
  DeleteCaptureResult, delete_capture, delete_entry, delete_hit, delete_request, embed_text_of,
  reverted, search_by_id, seal_body, set_field, usable_key,
}
use rune_mcp.Service.Lifecycle.Delete.Found.{
  IsEnvelope, IsSearch, SearchIf, find_hit-sealed, search_by_id-Outcome, search_by_id-SearchIf,
}

get-set_field :
    {F : Type 0} (m : Object F) (k : Text) (v : Json F) → get (set_field m k v) k ≡ some v
unfolding get set_field
get-set_field end k v = rw (teq_refl k) refl
get-set_field (field n x m) k v = elim (Bool-cases (teq n k)) [
  | inl e ↦ rw e (rw e refl)
  | inr e ↦ rw e (rw e (get-set_field m k v))
]

get-set_field_other :
    {F : Type 0} (m : Object F) (k n : Text) (v : Json F)
    → teq k n ≡ false
    → get (set_field m k v) n ≡ get m n
unfolding get set_field
get-set_field_other end k n v h = rw h refl
get-set_field_other (field i x m) k n v h = elim (Bool-cases (teq i k)) [
  | inl e ↦
      let same = (teq_iff i k).0 e in
      let apart : teq i n ≡ false = rw same h in rw e (rw apart refl)
  | inr e ↦ rw e (rw (get-set_field_other m k n v h) refl)
]

-- The metadata that is written: the found one, with its status reverted.
abbrev pub IsReverted : {F : Type 0} → Object F → Object F → Type 0
IsReverted old new =
    (get new (codes "status") ≡ some (Json.str (codes "reverted")))
    × ((k : Text) → teq (codes "status") k ≡ false → get new k ≡ get old k)

module _ ⦃fl : Float⦄ ⦃cal : Calendar⦄ (b : Backend fl.F) (crypto : Crypto b.W)
    (marshal_map : Object fl.F → Result Text) (utf8 : Text → Bytes)
    (append_log : CaptureLogEntry fl.F → b.W → b.W) where
  -- The body is sealed with the capture service's key, which is there and complete.
  abbrev pub IsSealing : Option AgentKey → Text → b.W → Text → b.W → Type 0
  IsSealing key body w envelope w' =
      (k : AgentKey) × (key ≡ some k)
      × (is_empty k.agent_dek ≡ false)
      × (is_empty k.agent_id ≡ false)
      × (seal crypto k.agent_dek k.agent_id (utf8 body) w ≡ (ok envelope, w'))

  unwrapped :
      {A : Type 0} (t : Text) (r : Result A × b.W) (a : A) (w : b.W)
      → ◌≡◌ {A = Result A × b.W} (wrapped t r.0, r.1) (ok a, w)
      → r ≡ (ok a, w)
  unwrapped {A} t (ok x, w₁) a w e = e
  unwrapped {A} t (err x, w₁) a w e =
      let apart : wrapped t (err x) ≡ ok a = ap (λ r. r.0) e in absurd cc
  unwrapped {A} t (panic, w₁) a w e =
      let apart : wrapped t panic ≡ ok a = ap (λ r. r.0) e in absurd cc

  sealed_by :
      (key : Option AgentKey) (body : Text) (w : b.W) (envelope : Text) (w' : b.W)
      → seal_body b crypto marshal_map utf8 append_log
          (usable_key b crypto marshal_map utf8 append_log key)
          body
          w
        ≡ (ok envelope, w')
      → IsSealing key body w envelope w'
  sealed_by none body w envelope w' e = absurd cc
  sealed_by (some k) body w envelope w' h =
      if-elim
        (λ o.
          seal_body b crypto marshal_map utf8 append_log o body w ≡ (ok envelope, w')
          → IsSealing (some k) body w envelope w')
        (not (is_empty k.agent_dek) && not (is_empty k.agent_id))
        (λ full e. (
          k,
          refl,
          ground arith,
          ground arith,
          unwrapped _ (seal crypto k.agent_dek k.agent_id (utf8 body) w) envelope w' e,
        ))
        (λ part e. absurd cc) h

  -- A deletion that answers: the calls that found the record, what was written for it and with which
  -- vector, the insert that enVector took, and the entry of the capture log.
  abbrev pub IsDeletion : Option AgentKey → Text → Time → b.W → DeleteCaptureResult → b.W → Type 0
  IsDeletion key id now w r w' =
      (hit : SearchHit fl.F) × (new : Object fl.F) × (body : Text) × (envelope : Text)
      × (vec : b.Vec) × (ids : List Text) × (w₁ : b.W) × (w₂ : b.W) × (w₃ : b.W) × (w₄ : b.W)
      × IsSearch b id w hit w₁
      × (r.record_id ≡ id)
      × (r.title ≡ hit.title)
      × (b.embed_single (embed_text_of b hit) w₁ ≡ (ok vec, w₂))
      × IsReverted hit.metadata new
      × (marshal_map new ≡ ok body)
      × IsSealing key body w₂ envelope w₃
      × (b.insert (record { vectors = vec ∷ []; metadata = envelope ∷ []; request_id = [] }) w₃
          ≡ (ok ids, w₄))
      × (w' ≡ append_log (delete_entry b crypto marshal_map utf8 append_log id hit now) w₄)

  delete_hit-Ends :
      (key : Option AgentKey) (id : Text) (now : Time) (w : b.W) (o : Option (SearchHit fl.F))
      (w₁ : b.W)
      → SearchIf b id w o w₁
      → Ends
          (IsDeletion key id now w)
          (delete_hit b crypto marshal_map utf8 append_log key id now o w₁)
  unfolding delete_hit
  delete_hit-Ends key id now w none w₁ found = tt
  delete_hit-Ends key id now w (some hit) w₁ found =
      let P = IsDeletion key id now w in
      let new = reverted hit.metadata in
      let usable = usable_key b crypto marshal_map utf8 append_log key in
      call-Ends P (codes "delete: re-embed") (b.embed_single (embed_text_of b hit)) _ w₁
        λ vec w₂ embedded.
          call-Ends P (codes "delete: marshal") (lift (marshal_map new)) _ w₂ λ body w₂' written.
            let same : w₂ ≡ w₂' = ap (λ r. r.1) written in
            bind-Ends P (seal_body b crypto marshal_map utf8 append_log usable body) _ w₂'
              λ envelope w₃ closed.
                call-Ends P (codes "delete: re-insert")
                  (b.insert (delete_request b crypto marshal_map utf8 append_log vec envelope)) _ w₃
                  λ ids w₄ taken. (
                    hit,
                    new,
                    body,
                    envelope,
                    vec,
                    ids,
                    w₁,
                    w₂',
                    w₃,
                    w₄,
                    found,
                    refl,
                    refl,
                    rw (← same) embedded,
                    (
                      get-set_field hit.metadata (codes "status") _,
                      λ k apart. get-set_field_other hit.metadata (codes "status") k _ apart,
                    ),
                    ap (λ r. r.0) written,
                    sealed_by key body w₂' envelope w₃ closed,
                    taken,
                    refl,
                  )

  -- A deletion that answers has searched for the id: the record is that of the first entry, among those
  -- that enVector returned for the scores, whose metadata parse and carry the id. Then enVector has
  -- taken one vector, of the record's insight or else its payload text, with one envelope, sealed with
  -- the capture service's key, that holds the record's metadata with the status reverted and all else
  -- as it was; and the deletion is appended to the capture log.
  pub delete_capture-Outcome :
      (key : Option AgentKey) (id : Text) (now : Time) (w : b.W)
      → Ends
          (IsDeletion key id now w)
          (delete_capture b crypto marshal_map utf8 append_log key id now w)
  unfolding delete_capture
  delete_capture-Outcome key id now w =
      call-Ends (IsDeletion key id now w) (codes "delete: search by ID") (search_by_id b id) _ w
        λ o w₁ e.
          delete_hit-Ends key id now w o w₁
            (subst (Ends (SearchIf b id w)) e (search_by_id-SearchIf b id w))

  -- Where all the metadata that enVector returns is sealed in envelopes, no deletion answers, whatever the
  -- key and the id: the search does not open envelopes, so it finds no record.
  pub delete_capture-sealed :
      (key : Option AgentKey) (id : Text) (now : Time) (w : b.W)
      → ((refs : List MetadataRef) (w' : b.W)
          → Outcome (All (IsEnvelope b)) (λ e. Unit {0}) (b.get_metadata refs w').0)
      → Outcome
          (λ r. ⊥)
          (λ e. Unit {0})
          (delete_capture b crypto marshal_map utf8 append_log key id now w).0
  unfolding delete_capture delete_hit
  delete_capture-sealed key id now w sealed =
      bind-Outcome (λ o. o ≡ none) (λ r. ⊥) (λ e. Unit {0})
        (wrapping (codes "delete: search by ID") (search_by_id b id))
        (delete_hit b crypto marshal_map utf8 append_log key id now) w
        (wrapped-Outcome (λ o. o ≡ none) (λ e. Unit {0}) (λ e. Unit {0})
          (codes "delete: search by ID") (search_by_id b id w).0 (λ e q. tt)
          (search_by_id-Outcome b (λ o. o ≡ none) refl (All (IsEnvelope b)) id
            (λ es scores q. find_hit-sealed b id es scores q) sealed w))
        (λ o w' h. rw h tt)
