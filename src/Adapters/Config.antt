-- ===== src/Adapters/Config.antt =====
-- internal/adapters/config: config.json, and its changes by MarkDormant and ClearDormant.
use rune_mcp.Prelude.{Bool, false, ◌&&◌, Option, none, some, [], if◌then◌else◌}
use rune_mcp.Prelude.Text.{Text, codes, is_empty, teq}
use rune_mcp.Domain.Errors.{Error}

-- Config with its Vault section; the metadata map is left out, which these functions never read.
pub record Config : Type 0 where
  pub state : Text
  pub dormant_reason : Text
  pub dormant_since : Text
  pub endpoint : Text
  pub token : Text
  pub ca_cert : Text
  pub tls_disable : Bool

-- The result of Load, and what the file holds.
pub data Loaded : Type 0 where
  not_found : Loaded
  load_failed : Error → Loaded
  loaded : Config → Loaded

-- LoadFromPath, of what the file holds: RUNE_STATE, where it is set, replaces the state.
unfoldable pub load : Text → Loaded → Loaded
load env not_found = not_found
load env (load_failed e) = load_failed e
load env (loaded c) = if is_empty env then loaded c else loaded (record c { state = env })

abbrev pub fresh_config : Config
fresh_config = record {
  state = [];
  dormant_reason = [];
  dormant_since = [];
  endpoint = [];
  token = [];
  ca_cert = [];
  tls_disable = false;
}

abbrev pub config_or_fresh : Loaded → Config
config_or_fresh not_found = fresh_config
config_or_fresh (load_failed e) = fresh_config
config_or_fresh (loaded c) = c

-- MarkDormant: the config that is saved, or none where the write is skipped. `now` is in RFC 3339.
unfoldable pub mark_dormant : Text → Text → Loaded → Option Config
mark_dormant reason now l =
    let cfg = config_or_fresh l in
    if teq cfg.state (codes "dormant") && teq cfg.dormant_reason reason
    then none
    else some (record cfg { state = codes "dormant"; dormant_reason = reason; dormant_since = now })

-- ClearDormant, of a config that loads.
unfoldable pub clear_dormant : Config → Option Config
clear_dormant cfg =
    if teq cfg.state (codes "active") && is_empty cfg.dormant_reason && is_empty cfg.dormant_since
    then none
    else some (record cfg { state = codes "active"; dormant_reason = []; dormant_since = [] })

-- What the file holds after the save.
abbrev pub saved : Option Config → Loaded → Loaded
saved none l = l
saved (some c) l = Loaded.loaded c
