-- ===== src/Adapters/Vault/Client.antt =====
-- internal/adapters/vault/client.go: the manifest, and the calls after their gRPC stub.
pub mod Laws
use rune_mcp.Prelude.{
  ℕ, ◌-◌, ◌%◌, ◌^◌, Bool, true, Option, none, some, List, [], ◌++◌, ◌≡◌, refl, length, ltb, ◌==◌,
  ==_iff, if◌then◌else◌, if-elim,
}
use rune_mcp.Prelude.Int.{ℤ, pos, negsuc}
use rune_mcp.Prelude.Text.{Text, codes, decimal, is_empty}
use rune_mcp.Adapters.AesCtr.{Bytes, Crypto, IsLawful, open-seal, open_envelope, seal}
use rune_mcp.Adapters.Grpc.{map_vault_error}
use rune_mcp.Domain.Errors.{Adapter, Error, Result, err, ok, other, panic, typed, wrap}
use rune_mcp.Service.Backend.{Action, ScoreEntry, ◌>>=◌, lift}
use rune_mcp.Service.Backend.Outcome.{Outcome}

pub record Bundle : Type 0 where
  pub enc_key : Text
  pub envector_endpoint : Text
  pub envector_api_key : Text
  pub agent_id : Text
  pub agent_dek : Bytes
  pub key_id : Text
  pub index_name : Text

-- manifestJSON
pub record ManifestJson : Type 0 where
  pub enc_key_json : Text
  pub envector_endpoint : Text
  pub envector_api_key : Text
  pub agent_id : Text
  pub agent_dek : Text
  pub key_id : Text
  pub index_name : Text

-- json.Unmarshal of the manifest and base64's DecodeString.
module _ (unmarshal : Text → Result ManifestJson) (decode : Text → Result Bytes) where
  abbrev pub dek_of : Result Bytes → Result Bytes
  dek_of (ok b) =
      if length b == 32
      then ok b
      else err (
          other (
            codes "vault: invalid agent_dek size "
            ++ (decimal (length b) ++ codes " (expected 32)")))
  dek_of (err e) = err (wrap (codes "vault: agent_dek invalid base64") e)
  dek_of panic = panic

  unfoldable pub decode_agent_dek : Text → Result Bytes
  decode_agent_dek b64 =
      if is_empty b64 then err (other (codes "vault: agent_dek is empty")) else dek_of (decode b64)

  abbrev pub bundle_of : ManifestJson → Result Bytes → Result Bundle
  bundle_of m (ok dek) = ok (record {
    enc_key = m.enc_key_json;
    envector_endpoint = m.envector_endpoint;
    envector_api_key = m.envector_api_key;
    agent_id = m.agent_id;
    agent_dek = dek;
    key_id = m.key_id;
    index_name = m.index_name;
  })
  bundle_of m (err e) = err e
  bundle_of m panic = panic

  abbrev pub parsed_manifest : Result ManifestJson → Result Bundle
  parsed_manifest (ok m) = bundle_of m (decode_agent_dek m.agent_dek)
  parsed_manifest (err e) = err (wrap (codes "vault: parse manifest_json") e)
  parsed_manifest panic = panic

  unfoldable pub parse_manifest_json : Text → Result Bundle
  unfolding decode_agent_dek
  parse_manifest_json raw = parsed_manifest (unmarshal raw)

-- An answer of the Vault: its error field, and what it carries.
pub record Reply (A : Type 0) : Type 0 where
  pub error : Text
  pub value : A

abbrev pub internal_error : Text → Error
internal_error message =
    typed
      (record {
        adapter = Adapter.vault;
        code = codes "VAULT_INTERNAL";
        message = message;
        retryable = true;
      })
      (other [])

-- The checks that follow a call of that name.
abbrev pub checked : {A : Type 0} → Text → Result (Reply A) → Result A
checked name (ok r) =
    if is_empty r.error then ok r.value else err (internal_error (name ++ (codes ": " ++ r.error)))
checked name (err e) = err (map_vault_error e)
checked name panic = panic

-- `int32(topK)`, which wraps around.
abbrev pub uint32_of : ℤ → ℕ
uint32_of (pos n) = n % 2 ^ 32
uint32_of (negsuc n) = 2 ^ 32 - 1 - n % 2 ^ 32

unfoldable pub int32_of : ℤ → ℤ
int32_of k = let r = uint32_of k in if ltb r (2 ^ 31) then pos r else negsuc (2 ^ 32 - 1 - r)

abbrev pub health_of_check : Result Bool → Result Bool
health_of_check (ok serving) = ok serving
health_of_check (err e) = err (map_vault_error e)
health_of_check panic = panic

module _ {F W : Type 0} (unmarshal : Text → Result ManifestJson) (decode : Text → Result Bytes)
    (manifest_call : Action W (Reply Text))
    (scores_call : Text → ℤ → Action W (Reply (List (ScoreEntry F))))
    (metadata_call : List Text → Action W (Reply (List Text))) (check_call : Action W Bool) where
  abbrev pub manifest_of : Result Text → Result Bundle
  manifest_of (ok raw) = parse_manifest_json unmarshal decode raw
  manifest_of (err e) = err e
  manifest_of panic = panic

  unfoldable pub get_agent_manifest : Action W Bundle
  get_agent_manifest w =
      (manifest_of (checked (codes "GetAgentManifest") (manifest_call w).0), (manifest_call w).1)

  unfoldable pub decrypt_scores : Text → ℤ → Action W (List (ScoreEntry F))
  decrypt_scores blob top_k w =
      let (r, w') = scores_call blob (int32_of top_k) w in (checked (codes "DecryptScores") r, w')

  unfoldable pub decrypt_metadata : List Text → Action W (List Text)
  decrypt_metadata entries w =
      let (r, w') = metadata_call entries w in (checked (codes "DecryptMetadata") r, w')

  unfoldable pub health_check : Action W Bool
  health_check w = let (r, w') = check_call w in (health_of_check r, w')
