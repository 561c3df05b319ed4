-- ===== src/Mcp/Wiring.antt =====
-- internal/mcp/tools.go: the clients and the bundle that the boot hands to the services, and the check of
-- a tool's name. `V`, `E` and `N` are the clients of Vault, the embedder and enVector.
pub mod Laws
use rune_mcp.Prelude.{
  ℕ, Bool, true, false, not, ◌&&◌, ◌||◌, Option, none, some, List, [], ◌∷◌, ◌==◌, ◌≡◌, refl, leb,
  length, ltb, if◌then◌else◌,
}
use rune_mcp.Prelude.Text.{Text, byte_len, is_empty}
use rune_mcp.Adapters.AesCtr.{Bytes}
use rune_mcp.Adapters.Vault.Client.{Bundle}

pub record Clients (V E N : Type 0) : Type 0 where
  pub vault : Option V
  pub embedder : Option E
  pub envector : Option N

pub record CaptureWiring (V E N : Type 0) : Type 0 where
  pub clients : Clients V E N
  pub agent_id : Text
  pub agent_dek : Bytes
  pub index_name : Text

pub record RecallWiring (V E N : Type 0) : Type 0 where
  pub clients : Clients V E N
  pub index_name : Text

pub record LifecycleWiring (V E N : Type 0) : Type 0 where
  pub clients : Clients V E N
  pub index_name : Text
  pub key_id : Text
  pub agent_dek : Bytes
  pub enc_key_loaded : Bool

-- Deps, without the manager.
pub record Deps (V E N : Type 0) : Type 0 where
  pub clients : Clients V E N
  pub capture_service : Option (CaptureWiring V E N)
  pub recall_service : Option (RecallWiring V E N)
  pub lifecycle_service : Option (LifecycleWiring V E N)

-- closeAfterInterval: the client that is closed once its calls have had 30 seconds.
abbrev pub closing : {C : Type 0} → (C → C → Bool) → Option C → C → Option C
closing same none next = none
closing same (some prev) next = if same prev next then none else some prev

abbrev pub over : {A : Type 0} → (A → A) → Option A → Option A
over f none = none
over f (some a) = some (f a)

module _ {V E N : Type 0} where
  -- The same change of the clients in the dependencies and in each service there is.
  unfoldable pub inject_clients : (Clients V E N → Clients V E N) → Deps V E N → Deps V E N
  inject_clients f d = record {
    clients = f d.clients;
    capture_service = over (λ s. record s { clients = f s.clients }) d.capture_service;
    recall_service = over (λ s. record s { clients = f s.clients }) d.recall_service;
    lifecycle_service = over (λ s. record s { clients = f s.clients }) d.lifecycle_service;
  }

  unfoldable pub inject_vault : (V → V → Bool) → V → Deps V E N → Deps V E N × Option V
  unfolding inject_clients
  inject_vault same client d = (
    inject_clients (λ c. record c { vault = some client }) d,
    closing same d.clients.vault client,
  )

  unfoldable pub inject_embedder : (E → E → Bool) → E → Deps V E N → Deps V E N × Option E
  unfolding inject_clients
  inject_embedder same client d = (
    inject_clients (λ c. record c { embedder = some client }) d,
    closing same d.clients.embedder client,
  )

  unfoldable pub inject_envector : (N → N → Bool) → N → Deps V E N → Deps V E N × Option N
  unfolding inject_clients
  inject_envector same client d = (
    inject_clients (λ c. record c { envector = some client }) d,
    closing same d.clients.envector client,
  )

  abbrev pub capture_with : Bundle → CaptureWiring V E N → CaptureWiring V E N
  capture_with b s = record s {
    agent_id = b.agent_id;
    agent_dek = b.agent_dek;
    index_name = b.index_name;
  }

  abbrev pub recall_with : Bundle → RecallWiring V E N → RecallWiring V E N
  recall_with b s = record s { index_name = b.index_name }

  abbrev pub lifecycle_with : Bundle → LifecycleWiring V E N → LifecycleWiring V E N
  lifecycle_with b s = record s {
    index_name = b.index_name;
    key_id = b.key_id;
    agent_dek = b.agent_dek;
    enc_key_loaded = ltb 0 (length b.enc_key);
  }

  unfoldable pub apply_vault_bundle : Option Bundle → Deps V E N → Deps V E N
  apply_vault_bundle none d = d
  apply_vault_bundle (some b) d = record d {
    capture_service = over (capture_with b) d.capture_service;
    recall_service = over (recall_with b) d.recall_service;
    lifecycle_service = over (lifecycle_with b) d.lifecycle_service;
  }

-- The characters of a tool's name.
abbrev pub is_name_char : ℕ → Bool
is_name_char r =
    (leb b'a' r && leb r b'z')
    || ((leb b'A' r && leb r b'Z') || ((leb b'0' r && leb r b'9') || (r == b'_' || r == b'-')))

unfoldable pub are_name_chars : Text → Bool
are_name_chars [] = true
are_name_chars (r ∷ s) = is_name_char r && are_name_chars s

unfoldable pub is_valid_tool_name : Text → Bool
unfolding are_name_chars
is_valid_tool_name name = not (is_empty name || ltb 128 (byte_len name)) && are_name_chars name
