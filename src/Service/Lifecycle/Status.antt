-- ===== src/Service/Lifecycle/Status.antt =====
-- VaultStatus.
use rune_mcp.Prelude.{Bool, true, false, Option, none, some}
use rune_mcp.Prelude.Text.{Text, codes}
use rune_mcp.Domain.Errors.{Error}
use rune_mcp.Service.Lifecycle.Host.{Host}

pub record VaultStatusResult : Type 0 where
  pub okay : Bool
  pub vault_configured : Bool
  pub vault_endpoint : Option Text
  pub secure_search_available : Bool
  pub mode : Text
  pub vault_healthy : Option Bool
  pub warning : Option Text

abbrev pub standard_status : VaultStatusResult
standard_status = record {
  okay = true;
  vault_configured = false;
  vault_endpoint = none;
  secure_search_available = false;
  mode = codes "standard (no Vault)";
  vault_healthy = none;
  warning = some (codes "secret key may be accessible locally. Configure Vault for secure mode.");
}

abbrev pub secure_status : Text → Bool → VaultStatusResult
secure_status endpoint healthy = record {
  okay = true;
  vault_configured = true;
  vault_endpoint = some endpoint;
  secure_search_available = healthy;
  mode = codes "secure (Vault-backed)";
  vault_healthy = some healthy;
  warning = none;
}

-- The health that VaultStatus shows: false where HealthCheck returns an error.
abbrev pub shown_health : Bool × Option Error → Bool
shown_health (healthy, none) = healthy
shown_health (healthy, some e) = false

module _ {W : Type 0} (h : Host W) where
  abbrev pub status_of : Option Text → W → VaultStatusResult × W
  status_of none w = (standard_status, w)
  status_of (some endpoint) w =
      (secure_status endpoint (shown_health (h.vault_health w).0), (h.vault_health w).1)

  unfoldable pub vault_status : W → VaultStatusResult × W
  vault_status w = status_of (h.vault w).0 (h.vault w).1
