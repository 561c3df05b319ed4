-- ===== src/Service/Lifecycle/Configure.antt =====
-- Configure: the credentials are written, then Vault is probed with them.
use rune_mcp.Prelude.{Bool, true, false, Option, none, some, [], if◌then◌else◌}
use rune_mcp.Prelude.Text.{Text, codes, is_empty}
use rune_mcp.Adapters.Config.{Config, config_or_fresh}
use rune_mcp.Domain.Errors.{Error, error_text, invalid_input_error, wrap}
use rune_mcp.Service.Backend.{Action, fail, pure}
use rune_mcp.Service.Lifecycle.Host.{Host}

pub record ConfigureArgs : Type 0 where
  pub endpoint : Text
  pub token : Text
  pub ca_cert_path : Text
  pub tls_disable : Bool

pub record ConfigureResult : Type 0 where
  pub okay : Bool
  pub path : Text
  pub state : Text
  pub configured_at : Text
  pub next_step : Text
  pub vault_reachable : Option Bool
  pub probe_error : Text

-- The config that is written; its metadata, with the time, is left out of `Config`.
abbrev pub configured : ConfigureArgs → Config → Config
configured args c = record c {
  endpoint = args.endpoint;
  token = args.token;
  ca_cert = args.ca_cert_path;
  tls_disable = args.tls_disable;
  state = codes "active";
  dormant_reason = [];
  dormant_since = [];
}

-- The result with the probe's error, if it has one.
abbrev pub probed : Text → Text → Option Error → ConfigureResult
probed path now none = record {
  okay = true;
  path = path;
  state = codes "active";
  configured_at = now;
  next_step = codes "Run /rune:activate to apply the new credentials";
  vault_reachable = some true;
  probe_error = [];
}
probed path now (some e) = record {
  okay = true;
  path = path;
  state = codes "active";
  configured_at = now;
  next_step =
      codes
        "Vault unreachable from this host - verify endpoint/token, then run /rune:activate to retry";
  vault_reachable = some false;
  probe_error = error_text e;
}

-- `probe` is vault.NewClient, HealthCheck and Close with the new credentials.
module _ {W : Type 0} (h : Host W) (probe : ConfigureArgs → W → Option Error × W) where
  abbrev pub after_save : ConfigureArgs → Text → Option Error → Action W ConfigureResult
  after_save args now none w = let (e, w') = probe args w in pure (probed h.config_path now e) w'
  after_save args now (some e) w = fail (wrap (codes "save config") e) w

  abbrev pub write_config : ConfigureArgs → Action W ConfigureResult
  write_config args w =
      let (old, w₁) = h.load w in
      let (now, w₂) = h.rfc3339_now w₁ in
      let (e, w₃) = h.save (configured args (config_or_fresh old)) w₂ in after_save args now e w₃

  unfoldable pub configure : ConfigureArgs → Action W ConfigureResult
  configure args =
      if is_empty args.endpoint
      then fail (invalid_input_error "endpoint is required")
      else if is_empty args.token
      then fail (invalid_input_error "token is required")
      else write_config args
