-- ===== src/Adapters/Envector.antt =====
-- internal/adapters/envector/client.go: the calls of an opened index, and the close. The SDK is a
-- parameter.
use rune_mcp.Prelude.{Bool, true, false, Option, none, some, List, [], ◌≡◌, refl, if◌then◌else◌}
use rune_mcp.Prelude.Text.{Text, codes}
use rune_mcp.Adapters.Grpc.{map_sdk_error}
use rune_mcp.Domain.Errors.{Adapter, Error, Result, err, ok, other, panic, typed}
use rune_mcp.Service.Backend.{Action, InsertRequest, MetadataRef}

-- Which handles the client holds: the SDK's client, the keys, the index.
pub record Handles : Type 0 where
  pub sdk : Bool
  pub keys : Bool
  pub index : Bool

pub record Sdk (W Vec Blob : Type 0) : Type 0 where
  pub open_index : W → Option Error × W
  pub insert : InsertRequest Vec → Action W (List Text)
  pub score : Vec → Action W (List Blob)
  pub get_metadata : List MetadataRef → Action W (List Text)
  pub get_index_list : Action W (List Text)
  pub close_keys : W → Option Error × W
  pub close_sdk : W → Option Error × W

abbrev pub not_activated : Text → Error
not_activated message =
    typed
      (record {
        adapter = Adapter.envector;
        code = codes "ENVECTOR_NOT_ACTIVATED";
        message = message;
        retryable = false;
      })
      (other [])

abbrev pub sdk_mapped : {A : Type 0} → Result A → Result A
sdk_mapped (ok a) = ok a
sdk_mapped (err e) = err (map_sdk_error e)
sdk_mapped panic = panic

module _ {W Vec Blob : Type 0} (sdk : Sdk W Vec Blob) where
  abbrev pub index_opened : Option Error → Handles → Option Error × Handles
  index_opened none h = (none, record h { index = true })
  index_opened (some e) h = (some (map_sdk_error e), h)

  unfoldable pub open_index : Handles × W → Option Error × (Handles × W)
  open_index (h, w) =
      let (o, w') = sdk.open_index w in let (e, h') = index_opened o h in (e, (h', w'))

  -- A call of the index, once it is opened.
  abbrev pub with_index : {A : Type 0} → Handles → Text → Action W A → Action W A
  with_index h message call w =
      if h.index then (sdk_mapped (call w).0, (call w).1) else (err (not_activated message), w)

  unfoldable pub insert : Handles → InsertRequest Vec → Action W (List Text)
  insert h req = with_index h (codes "OpenIndex must be called before Insert") (sdk.insert req)

  unfoldable pub score : Handles → Vec → Action W (List Blob)
  score h vec = with_index h (codes "OpenIndex must be called before Score") (sdk.score vec)

  unfoldable pub get_metadata : Handles → List MetadataRef → Action W (List Text)
  get_metadata h refs =
      with_index h (codes "OpenIndex must be called before GetMetadata") (sdk.get_metadata refs)

  unfoldable pub get_index_list : Action W (List Text)
  get_index_list w = (sdk_mapped (sdk.get_index_list w).0, (sdk.get_index_list w).1)

  abbrev pub first_error : Option Error → Option Error → Option Error
  first_error none e = e
  first_error (some e) f = some e

  abbrev pub close_if : Bool → (W → Option Error × W) → W → Option Error × W
  close_if false close w = (none, w)
  close_if true close w = close w

  unfoldable pub close_client : Handles × W → Option Error × (Handles × W)
  close_client (h, w) =
      let (e, w₁) = close_if h.keys sdk.close_keys w in
      let (f, w₂) = close_if h.sdk sdk.close_sdk w₁ in
      (first_error e f, (record { sdk = false; keys = false; index = false }, w₂))

  -- A closed client: its index is refused without a call of the SDK, and a second close closes nothing.
  close_client_twice :
      (h : Handles) (w : W) (req : InsertRequest Vec)
      → (let v = (close_client (h, w)).1 in
          (insert v.0 req v.1
            ≡ (err (not_activated (codes "OpenIndex must be called before Insert")), v.1))
          × (close_client v ≡ (none, v)))
  unfolding close_client insert
  close_client_twice h w req = (refl, refl)
