-- ===== src/Adapters/Embedder/Batch/Laws.antt =====
-- The cut of a batch, and what EmbedBatch gives for each text.
use mathlib.Core.List.{append-nil, append_assoc, map-append}
use rune_mcp.Prelude.{
  ℕ, zero, suc, ◌+◌, ◌≤◌, ◌<◌, Option, List, [], ◌∷◌, ◌++◌, All, drop, length, leb, take, ◌==◌, ◌≡◌,
  refl, ap, sym, ◌∙◌, arith, if-elim, length-append, length-map, length-take, map, ==_iff,
}
use rune_mcp.Prelude.Int.{pos, ltb_ℤ, pos_part}
use rune_mcp.Prelude.Text.{Text, codes}
use rune_mcp.Adapters.Embedder.{InfoSnapshot}
use rune_mcp.Adapters.Retry.{retry, retry_first}
use rune_mcp.Adapters.Embedder.Batch.{
  chunks, concat_all, counted, embed_batch, embed_batch_once, embed_chunks, embed_sized,
}
use rune_mcp.Domain.Errors.{Error, ok}
use rune_mcp.Service.Backend.{Action, wrapping}
use rune_mcp.Service.Backend.Outcome.{Outcome, any-Outcome, bind-Outcome}

take-drop : {A : Type 0} (n : ℕ) (xs : List A) → take n xs ++ drop n xs ≡ xs
take-drop zero xs = refl
take-drop (suc n) [] = refl
take-drop (suc n) (x ∷ xs) = ap (◌∷◌ x) (take-drop n xs)

length-drop_suc : {A : Type 0} (n : ℕ) (xs : List A) → length (drop n xs) ≤ length xs
length-drop_suc zero xs = omega arith
length-drop_suc (suc n) [] = omega arith
length-drop_suc (suc n) (x ∷ xs) = omega (arith, length-drop_suc n xs)

-- A slice of the batch: not empty, and at most the batch size.
abbrev pub IsSlice : ℕ → List Text → Type 0
IsSlice size c = (0 < length c) × (length c ≤ size)

abbrev IsCut : ℕ → List Text → List (List Text) → Type 0
IsCut size texts cs = (concat_all cs ≡ texts) × All (IsSlice size) cs

take-IsSlice : (n : ℕ) (t : Text) (ts : List Text) → IsSlice (suc n) (take (suc n) (t ∷ ts))
take-IsSlice n t ts = (omega arith, omega (arith, length-take n ts))

chunks-IsCut_fuel :
    (n fuel : ℕ) (texts : List Text)
    → length texts ≤ fuel
    → IsCut (suc n) texts (chunks (suc n) fuel texts)
unfolding chunks
chunks-IsCut_fuel n fuel [] h = (refl, tt)
chunks-IsCut_fuel n zero (t ∷ ts) h = absurd (omega arith)
chunks-IsCut_fuel n (suc fuel) (t ∷ ts) h =
    let ih = chunks-IsCut_fuel n fuel (drop n ts) (omega (arith, length-drop_suc n ts)) in
    (
      ap (λ r. take (suc n) (t ∷ ts) ++ r) ih.0 ∙ take-drop (suc n) (t ∷ ts),
      (take-IsSlice n t ts, ih.1),
    )

-- For a batch size above 0 the loop ends, having visited every text once and in order: its slices, cut
-- with as much fuel as there are texts, add up to the batch; none is empty and none is above the size.
pub chunks-IsCut :
    (size : ℕ) (texts : List Text)
    → 0 < size
    → (concat_all (chunks size (length texts) texts) ≡ texts)
      × All (IsSlice size) (chunks size (length texts) texts)
chunks-IsCut zero texts h = absurd (omega arith)
chunks-IsCut (suc n) texts h = chunks-IsCut_fuel n (length texts) texts (omega arith)

module _ {W Vec : Type 0} (sleep : ℕ → W → Option Error × W) (embed : Text → Action W Vec)
    (embed_all : List Text → Action W (List Vec)) (info : Action W InfoSnapshot) where
  abbrev pub IsCounted : ℕ → List Vec → Type 0
  IsCounted n vs = length vs ≡ n

  counted-Outcome :
      (texts : List Text) (vs : List Vec) (w : W)
      → Outcome
          (IsCounted (length texts))
          (λ e. Unit {0})
          (counted sleep embed embed_all info texts vs w).0
  counted-Outcome texts vs w =
      if-elim {A = Action W (List Vec)}
        (λ a. Outcome (IsCounted (length texts)) (λ e. Unit {0}) (a w).0)
        (length vs == length texts) (λ h. (==_iff (length vs) (length texts)).0 h) (λ _. tt)

  embed_batch_once-Outcome :
      (texts : List Text) (w : W)
      → Outcome
          (IsCounted (length texts))
          (λ e. Unit {0})
          (embed_batch_once sleep embed embed_all info texts w).0
  unfolding embed_batch_once
  embed_batch_once-Outcome texts w =
      bind-Outcome (λ vs. Unit {0}) (IsCounted (length texts)) (λ e. Unit {0})
        (retry sleep (embed_all texts)) (counted sleep embed embed_all info texts) w
        (any-Outcome (retry sleep (embed_all texts) w).0) (λ vs w' _. counted-Outcome texts vs w')

  embed_chunks-Outcome :
      (cs : List (List Text)) (out : List Vec) (w : W) (n : ℕ)
      → length out + length (concat_all cs) ≡ n
      → Outcome (IsCounted n) (λ e. Unit {0}) (embed_chunks sleep embed embed_all info cs out w).0
  unfolding embed_chunks
  embed_chunks-Outcome [] out w n h = omega arith
  embed_chunks-Outcome (c ∷ cs) out w n h =
      bind-Outcome (IsCounted (length c)) (IsCounted n) (λ e. Unit {0})
        (embed_batch_once sleep embed embed_all info c)
        (λ vs. embed_chunks sleep embed embed_all info cs (out ++ vs)) w
        (embed_batch_once-Outcome c w)
        (λ vs w' k.
          embed_chunks-Outcome cs (out ++ vs) w' n
            (omega (arith, length-append out vs, length-append c (concat_all cs))))

  embed_sized-Outcome :
      (texts : List Text) (i : InfoSnapshot) (w : W)
      → Outcome
          (IsCounted (length texts))
          (λ e. Unit {0})
          (embed_sized sleep embed embed_all info texts i w).0
  embed_sized-Outcome texts i w =
      let P =
        λ (a : Action W (List Vec)). Outcome (IsCounted (length texts)) (λ e. Unit {0}) (a w).0 in
      let cs = chunks (pos_part i.max_batch_size) (length texts) texts in
      let whole = embed_batch_once-Outcome texts w in
      if-elim P (ltb_ℤ (pos 0) i.max_batch_size)
        (λ h.
          if-elim P (leb (length texts) (pos_part i.max_batch_size)) (λ _. whole)
            (λ _. embed_chunks-Outcome cs [] w (length texts) (
              let e = chunks-IsCut (pos_part i.max_batch_size) texts (ground arith) in
              omega (arith, ap length e.0))))
        (λ _. whole)

  -- Whatever the daemon, the waits and the cache of Info answer: a batch that succeeds has exactly one
  -- vector for each text.
  pub embed_batch-Outcome :
      (texts : List Text) (w : W)
      → Outcome
          (λ vs. length vs ≡ length texts)
          (λ e. Unit {0})
          (embed_batch sleep embed embed_all info texts w).0
  unfolding embed_batch
  embed_batch-Outcome [] w = refl
  embed_batch-Outcome (t ∷ ts) w =
      let load = wrapping (codes "embedder: load Info before EmbedBatch") info in
      bind-Outcome (λ i. Unit {0}) (IsCounted (length (t ∷ ts))) (λ e. Unit {0}) load
        (embed_sized sleep embed embed_all info (t ∷ ts)) w (any-Outcome (load w).0)
        (λ i w' _. embed_sized-Outcome (t ∷ ts) i w')

module _ {W Vec : Type 0} (sleep : ℕ → W → Option Error × W) (embed : Text → Action W Vec)
    (embed_all : List Text → Action W (List Vec)) (info : Action W InfoSnapshot) (vec : Text → Vec)
    (answers : (texts : List Text) (w : W) → (embed_all texts w).0 ≡ ok (map vec texts)) where
  map-concat_all :
      (c : List Text) (rest : List Text) (out : List Vec)
      → (out ++ map vec c) ++ map vec rest ≡ out ++ map vec (c ++ rest)
  map-concat_all c rest out =
      append_assoc out (map vec c) (map vec rest)
      ∙ ap (λ vs. out ++ vs) (sym (map-append vec c rest))

  embed_batch_once-order :
      (texts : List Text) (w : W)
      → (embed_batch_once sleep embed embed_all info texts w).0 ≡ ok (map vec texts)
  unfolding embed_batch_once
  embed_batch_once-order texts w =
      let first = retry_first sleep (embed_all texts) (map vec texts) w (answers texts w) in
      rw first (rw (length-map texts vec) (rw ((==_iff (length texts) (length texts)).1 refl) refl))

  embed_chunks-order :
      (cs : List (List Text)) (out : List Vec) (w : W)
      → (embed_chunks sleep embed embed_all info cs out w).0 ≡ ok (out ++ map vec (concat_all cs))
  unfolding embed_chunks
  embed_chunks-order [] out w = ap ok (sym (append-nil out))
  embed_chunks-order (c ∷ cs) out w = rw (embed_batch_once-order c w) (
      embed_chunks-order cs (out ++ map vec c) (embed_batch_once sleep embed embed_all info c w).1
      ∙ ap ok (map-concat_all c (concat_all cs) out))

  -- Where the daemon answers each request with the vectors of its texts, EmbedBatch gives the vectors of
  -- all its texts, in their order: into which slices Info's batch size cuts them does not show.
  pub embed_batch-order :
      (texts : List Text) (i : InfoSnapshot) (w : W)
      → (info w).0 ≡ ok i
      → (embed_batch sleep embed embed_all info texts w).0 ≡ ok (map vec texts)
  unfolding embed_batch
  embed_batch-order [] i w h = refl
  embed_batch-order (t ∷ ts) i w h =
      let P = λ (a : Action W (List Vec)). (a (info w).1).0 ≡ ok (map vec (t ∷ ts)) in
      let cs = chunks (pos_part i.max_batch_size) (length (t ∷ ts)) (t ∷ ts) in
      let whole = embed_batch_once-order (t ∷ ts) (info w).1 in
      rw h (
        if-elim P (ltb_ℤ (pos 0) i.max_batch_size)
          (λ above.
            if-elim P (leb (length (t ∷ ts)) (pos_part i.max_batch_size)) (λ _. whole)
              (λ _.
                embed_chunks-order cs [] (info w).1
                ∙ ap (λ xs. ok (map vec xs))
                    (chunks-IsCut (pos_part i.max_batch_size) (t ∷ ts) (ground arith)).0))
          (λ _. whole))
