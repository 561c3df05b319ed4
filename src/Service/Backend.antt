-- ===== src/Service/Backend.antt =====
-- What the services call and this repository does not implement: the embedder daemon, enVector,
-- Vault (through their clients), `encoding/json` and `encoding/base64`. `W` is the outside world:
-- each call may read and change it, so two equal calls may differ. A deadline that expires is an
-- error of the call.
pub mod Outcome
use rune_mcp.Prelude.{ℕ, Bool, Option, none, some, List, [], ◌∷◌}
use rune_mcp.Prelude.Float.{Float}
use rune_mcp.Prelude.Int.{ℤ}
use rune_mcp.Prelude.Json.{Object}
use rune_mcp.Prelude.Text.{Text}
use rune_mcp.Domain.Errors.{Error, Result, ok, err, panic}

-- vault.ScoreEntry
pub record ScoreEntry (F : Type 0) : Type 0 where
  pub shard_idx : ℕ
  pub row_idx : ℕ
  pub score : F

-- envector.MetadataRef
pub record MetadataRef : Type 0 where
  pub shard_idx : ℕ
  pub row_idx : ℕ

-- envector.InsertRequest
pub record InsertRequest (Vec : Type 0) : Type 0 where
  pub vectors : List Vec
  pub metadata : List Text
  pub request_id : Text

-- An action on the outside world.
abbrev pub Action : Type 0 → Type 0 → Type 0
Action W A = W → Result A × W

pub record Backend (F : Type 0) : Type 1 where
  pub W : Type 0
  pub Vec : Type 0
  pub Blob : Type 0
  pub embed_batch : List Text → Action W (List Vec)
  pub embed_single : Text → Action W Vec
  pub envector_score : Vec → Action W (List Blob)
  pub get_metadata : List MetadataRef → Action W (List Text)
  pub insert : InsertRequest Vec → Action W (List Text)  -- the item ids
  pub decrypt_scores : Text → ℤ → Action W (List (ScoreEntry F))
  pub decrypt_metadata : List Text → Action W (List Text)
  pub wait_for_active : W → Bool × W  -- State.WaitForActive(ctx, RecoverTimeout)
  pub base64 : Blob → Text
  pub base64_decode : Text → Option Text
  pub parse_object : Text → Option (Object F)  -- json.Unmarshal into a map

-- `fmt.Errorf("…: %w", err)` round the error of a call.
abbrev pub wrapped : {A : Type 0} → Text → Result A → Result A
wrapped m (ok a) = ok a
wrapped m (err e) = err (Error.wrap m e)
wrapped m panic = panic

module _ {W : Type 0} where
  abbrev pub pure : {A : Type 0} → A → Action W A
  pure a w = (ok a, w)

  abbrev pub fail : {A : Type 0} → Error → Action W A
  fail e w = (err e, w)

  abbrev pub lift : {A : Type 0} → Result A → Action W A
  lift r w = (r, w)

  abbrev pub continue : {A B : Type 0} → Result A → (A → Action W B) → Action W B
  continue (ok a) f w = f a w
  continue (err e) f w = (err e, w)
  continue panic f w = (panic, w)

  infixl 5 ◌>>=◌
  abbrev pub ◌>>=◌ : {A B : Type 0} → Action W A → (A → Action W B) → Action W B
  ◌>>=◌ m f w = continue (m w).0 f (m w).1

  abbrev pub wrapping : {A : Type 0} → Text → Action W A → Action W A
  wrapping m a w = (wrapped m (a w).0, (a w).1)

  -- The call, and a handler of its error.
  abbrev pub handled :
      {A B : Type 0} → Result A → (A → Action W B) → (Error → Action W B) → Action W B
  handled (ok a) f h w = f a w
  handled (err e) f h w = h e w
  handled panic f h w = (panic, w)

  abbrev pub either :
      {A B : Type 0} → Action W A → (A → Action W B) → (Error → Action W B) → Action W B
  either m f h w = handled (m w).0 f h (m w).1
