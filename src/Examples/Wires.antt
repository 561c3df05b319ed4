-- ===== src/Examples/Wires.antt =====
-- The Vault's endpoint and manifest, and the wiring of the clients, in the concrete world.
use rune_mcp.Prelude.{ℕ, Bool, false, none, some, [], ◌==◌, ◌≡◌, refl}
use rune_mcp.Prelude.Text.{Text, codes, has_prefix, trim_space}
use rune_mcp.Adapters.Vault.Client.{Bundle, ManifestJson, parse_manifest_json}
use rune_mcp.Adapters.Vault.Client.Laws.{Opens, parse_manifest_json-Outcome}
use rune_mcp.Adapters.Vault.Endpoint.{from_char, normalize_endpoint}
use rune_mcp.Adapters.Vault.Endpoint.Laws.{
  HostForm, IsForm, normalize_endpoint-panic, normalize_endpoint-written, or_default_port, written,
}
use rune_mcp.Domain.Errors.{Result, ok, panic}
use rune_mcp.Mcp.Wiring.{Clients, Deps, apply_vault_bundle, inject_vault}
use rune_mcp.Mcp.Wiring.Laws.{IsWired, Wired, Wired-IsWired}
use rune_mcp.Service.Backend.Outcome.{Outcome}
use rune_mcp.Examples.Captures.{demo_crypto-IsLawful, demo_key}
use rune_mcp.Examples.Setting.{demo_crypto}

abbrev whole_host : Text → Result Text
whole_host raw = ok raw

-- The loopback address in brackets, without a port.
abbrev loopback : HostForm
loopback = HostForm.bracketed (codes "::1")

loopback-IsForm : IsForm loopback
unfolding codes from_char
loopback-IsForm = refl

normalize_endpoint-written_example :
    normalize_endpoint (λ raw. ok (codes "[::1]")) (codes "tcp://[::1]")
    ≡ ok (written loopback (some (or_default_port none)))
unfolding trim_space has_prefix codes
normalize_endpoint-written_example =
    normalize_endpoint-written (λ raw. ok (codes "[::1]")) (codes "tcp://[::1]") loopback none
      loopback-IsForm refl refl

normalize_endpoint-panic_example : normalize_endpoint whole_host (codes "[::1") ≡ panic
unfolding trim_space codes from_char
normalize_endpoint-panic_example =
    normalize_endpoint-panic whole_host (codes "[::1") (codes "::1") refl refl

abbrev manifest : ManifestJson
manifest = record {
  enc_key_json = codes "{}";
  envector_endpoint = codes "envector.example";
  envector_api_key = codes "key";
  agent_id = codes "agent";
  agent_dek = codes "AQID";
  key_id = codes "k";
  index_name = codes "team";
}

parse_manifest_json-Outcome_example :
    Outcome
      (Opens demo_crypto demo_crypto-IsLawful (λ s. ok manifest) (λ s. ok demo_key))
      (λ e. Unit {0})
      (parse_manifest_json (λ s. ok manifest) (λ s. ok demo_key) (codes "{}"))
parse_manifest_json-Outcome_example =
    parse_manifest_json-Outcome demo_crypto demo_crypto-IsLawful (λ s. ok manifest)
      (λ s. ok demo_key) (codes "{}")

-- A client is a number.
abbrev no_clients : Clients ℕ ℕ ℕ
no_clients = record { vault = none; embedder = none; envector = none }

abbrev fresh_deps : Deps ℕ ℕ ℕ
fresh_deps = record {
  clients = no_clients;
  capture_service =
      some (record { clients = no_clients; agent_id = []; agent_dek = []; index_name = [] });
  recall_service = some (record { clients = no_clients; index_name = [] });
  lifecycle_service = some (record {
    clients = no_clients;
    index_name = [];
    key_id = [];
    agent_dek = [];
    enc_key_loaded = false;
  });
}

abbrev bundle : Bundle
bundle = record {
  enc_key = codes "{}";
  envector_endpoint = codes "envector.example";
  envector_api_key = codes "key";
  agent_id = codes "agent";
  agent_dek = demo_key;
  key_id = codes "k";
  index_name = codes "team";
}

abbrev same_number : ℕ → ℕ → Bool
same_number n m = n == m

abbrev booted : Deps ℕ ℕ ℕ
booted = apply_vault_bundle (some bundle) (inject_vault same_number 1 fresh_deps).0

Wired-IsWired_example : IsWired (some bundle) booted
Wired-IsWired_example =
    Wired-IsWired {start = fresh_deps} (refl, refl, refl)
      (Wired.bundle_in bundle (Wired.vault_in same_number 1 Wired.started refl) refl)
