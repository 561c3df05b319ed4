-- ===== src/Adapters/Embedder/Batch.antt =====
-- EmbedSingle and EmbedBatch of internal/adapters/embedder/client.go.
pub mod Laws
use rune_mcp.Prelude.{
  ℕ, zero, suc, ◌+◌, ◌≤◌, ◌<◌, Bool, true, false, Option, none, some, List, [], ◌∷◌, ◌++◌, All,
  drop, length, ltb, leb, take, ◌==◌, ◌≡◌, refl, ap, sym, ◌∙◌, arith, if◌then◌else◌, if-elim,
  length-append, length-take, min, ==_iff,
}
use rune_mcp.Prelude.Int.{ℤ, pos, ltb_ℤ, pos_part}
use rune_mcp.Prelude.Text.{Text, codes, decimal}
use rune_mcp.Adapters.Embedder.{InfoSnapshot}
use rune_mcp.Adapters.Retry.{retry}
use rune_mcp.Domain.Errors.{Error, Result, err, ok, other, panic}
use rune_mcp.Service.Backend.{Action, continue, fail, pure, wrapping, ◌>>=◌}

-- The slices `texts[i:end]` of the loop, for a batch size above 0. Each one takes at least one text, so
-- the number of texts is fuel enough.
unfoldable pub chunks : ℕ → ℕ → List Text → List (List Text)
chunks size fuel [] = []
chunks size zero (t ∷ ts) = []
chunks size (suc fuel) (t ∷ ts) = take size (t ∷ ts) ∷ chunks size fuel (drop size (t ∷ ts))

abbrev pub concat_all : {A : Type 0} → List (List A) → List A
concat_all [] = []
concat_all (x ∷ xs) = x ++ concat_all xs

abbrev pub count_error : ℕ → ℕ → Error
count_error n m =
    other (codes "embedder: expected " ++ (decimal n ++ (codes " embeddings, got " ++ decimal m)))

module _ {W Vec : Type 0} (sleep : ℕ → W → Option Error × W) (embed : Text → Action W Vec)
    (embed_all : List Text → Action W (List Vec)) (info : Action W InfoSnapshot) where
  unfoldable pub embed_single : Text → Action W Vec
  embed_single text = retry sleep (embed text)

  -- The vectors, if there is one for each text.
  abbrev pub counted : List Text → List Vec → Action W (List Vec)
  counted texts vs =
      if length vs == length texts then pure vs else fail (count_error (length texts) (length vs))

  unfoldable pub embed_batch_once : List Text → Action W (List Vec)
  embed_batch_once texts = retry sleep (embed_all texts) >>= counted texts

  -- The loop; `out` are the vectors so far.
  unfoldable pub embed_chunks : List (List Text) → List Vec → Action W (List Vec)
  unfolding embed_batch_once
  embed_chunks [] out = pure out
  embed_chunks (c ∷ cs) out = embed_batch_once c >>= λ vs. embed_chunks cs (out ++ vs)

  abbrev pub embed_sized : List Text → InfoSnapshot → Action W (List Vec)
  embed_sized texts i =
      if ltb_ℤ (pos 0) i.max_batch_size
      then (if leb (length texts) (pos_part i.max_batch_size)
          then embed_batch_once texts
          else embed_chunks (chunks (pos_part i.max_batch_size) (length texts) texts) [])
      else embed_batch_once texts

  unfoldable pub embed_batch : List Text → Action W (List Vec)
  unfolding embed_chunks chunks
  embed_batch [] = pure []
  embed_batch (t ∷ ts) =
      wrapping (codes "embedder: load Info before EmbedBatch") info >>= embed_sized (t ∷ ts)
