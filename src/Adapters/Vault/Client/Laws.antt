-- ===== src/Adapters/Vault/Client/Laws.antt =====
-- The manifest's key, with the envelopes that it seals.
use rune_mcp.Prelude.{◌≡◌, length, ◌==◌, ==_iff, if-elim}
use rune_mcp.Prelude.Text.{Text, is_empty}
use rune_mcp.Adapters.AesCtr.{Bytes, Crypto, IsLawful, open-seal, open_envelope, seal}
use rune_mcp.Domain.Errors.{Result, err, ok, panic}
use rune_mcp.Service.Backend.Outcome.{Outcome}
use rune_mcp.Adapters.Vault.Client.{
  Bundle, ManifestJson, bundle_of, decode_agent_dek, dek_of, parse_manifest_json, parsed_manifest,
}

module _ {W : Type 0} (c : Crypto W) (lawful : IsLawful c) (unmarshal : Text → Result ManifestJson)
    (decode : Text → Result Bytes) where
  abbrev pub Opens : Bundle → Type 0
  Opens bd =
      (length bd.agent_dek ≡ 32)
      × ((plaintext : Bytes) (w : W) (s : Text)
          → (seal c bd.agent_dek bd.agent_id plaintext w).0 ≡ ok s
          → open_envelope c bd.agent_dek bd.agent_id s ≡ ok plaintext)

  bundle_of-Outcome :
      (m : ManifestJson) (r : Result Bytes)
      → Outcome (λ dek. length dek ≡ 32) (λ e. Unit {0}) r
      → Outcome Opens (λ e. Unit {0}) (bundle_of unmarshal decode m r)
  bundle_of-Outcome m (ok dek) h =
      (h, λ plaintext w s e. (open-seal c lawful dek m.agent_id plaintext w).0 h s e)
  bundle_of-Outcome m (err e) h = tt
  bundle_of-Outcome m panic h = tt

  decode_agent_dek-Outcome :
      (b64 : Text)
      → Outcome (λ dek. length dek ≡ 32) (λ e. Unit {0}) (decode_agent_dek unmarshal decode b64)
  unfolding decode_agent_dek
  decode_agent_dek-Outcome b64 =
      if-elim (Outcome (λ (dek : Bytes). length dek ≡ 32) (λ e. Unit {0})) (is_empty b64) (λ _. tt)
        (λ _. decoded_case (decode b64))
    where
      decoded_case :
          (r : Result Bytes)
          → Outcome (λ dek. length dek ≡ 32) (λ e. Unit {0}) (dek_of unmarshal decode r)
      decoded_case (ok dek) =
          if-elim (Outcome (λ (dek : Bytes). length dek ≡ 32) (λ e. Unit {0})) (length dek == 32)
            (λ h. (==_iff (length dek) 32).0 h) (λ _. tt)
      decoded_case (err e) = tt
      decoded_case panic = tt

  -- Whatever the manifest and its base64 hold: a manifest that parses gives a key of 32 bytes, and what is
  -- sealed with that key and the manifest's agent id opens with them to the text that was sealed.
  pub parse_manifest_json-Outcome :
      (raw : Text) → Outcome Opens (λ e. Unit {0}) (parse_manifest_json unmarshal decode raw)
  unfolding parse_manifest_json
  parse_manifest_json-Outcome raw = manifest_case (unmarshal raw)
    where
      manifest_case :
          (r : Result ManifestJson)
          → Outcome Opens (λ e. Unit {0}) (parsed_manifest unmarshal decode r)
      manifest_case (ok m) =
          bundle_of-Outcome m (decode_agent_dek unmarshal decode m.agent_dek)
            (decode_agent_dek-Outcome m.agent_dek)
      manifest_case (err e) = tt
      manifest_case panic = tt
