-- ===== src/Service/Lifecycle/Diagnostics.antt =====
-- Diagnostics, with the parts that it collects.
pub mod Envector
use rune_mcp.Prelude.{
  ℕ, ◌-◌, Bool, true, false, not, ◌&&◌, Option, none, some, List, [], ◌++◌, ltb, length,
  if◌then◌else◌,
}
use rune_mcp.Prelude.Int.{ℤ, pos}
use rune_mcp.Prelude.Text.{Text, codes, decimal, is_empty}
use rune_mcp.Adapters.AesCtr.{Bytes}
use rune_mcp.Adapters.Config.{Config, Loaded}
use rune_mcp.Adapters.Embedder.{HealthSnapshot, InfoSnapshot}
use rune_mcp.Domain.Errors.{Error, GrpcCode, Result, as_status, err, error_text, ok, panic}
use rune_mcp.Lifecycle.Boot.{State}
use rune_mcp.Lifecycle.Classify.{BootError}
use rune_mcp.Service.Lifecycle.Host.{Host}
use rune_mcp.Service.Backend.{Action, pure, ◌>>=◌}
use rune_mcp.Service.Lifecycle.Diagnostics.Envector.{
  EnvectorInfo, ProbeEnd, envector_info, no_envector,
}
use rune_mcp.Service.Lifecycle.Reload.{is_active}

abbrev pub text_of_error : Option Error → Text
text_of_error none = []
text_of_error (some e) = error_text e

pub record VaultInfo : Type 0 where
  pub configured : Bool
  pub healthy : Bool
  pub endpoint : Text
  pub error : Text
  pub last_boot_error : Option BootError

pub record KeysInfo : Type 0 where
  pub enc_key_loaded : Bool
  pub key_id : Text
  pub agent_dek_loaded : Bool

pub record EmbeddingInfo : Type 0 where
  pub model : Text
  pub mode : Text
  pub vector_dim : ℤ
  pub daemon_version : Text
  pub socket_path : Text
  pub health : HealthSnapshot
  pub info_error : Text
  pub health_error : Text

-- The key state that the boot writes into the service.
pub record KeyState : Type 0 where
  pub enc_key_loaded : Bool
  pub key_id : Text
  pub agent_dek : Bytes

-- DiagnosticsResult, without the environment.
pub record DiagnosticsResult : Type 0 where
  pub okay : Bool
  pub state : Option Text
  pub dormant_reason : Option Text
  pub dormant_since : Option Text
  pub vault : VaultInfo
  pub keys : KeysInfo
  pub scribe_initialized : Bool
  pub retriever_initialized : Bool
  pub embedding : EmbeddingInfo
  pub envector : EnvectorInfo

abbrev non_empty : Text → Option Text
non_empty s = if is_empty s then none else some s

abbrev pub no_health : HealthSnapshot
no_health = record {
  status = [];
  uptime_seconds = 0;
  total_requests = 0;
  phase = [];
  bytes_done = 0;
  bytes_total = 0;
  message = [];
}

abbrev pub no_embedding : EmbeddingInfo
no_embedding = record {
  model = [];
  mode = codes "external gRPC";
  vector_dim = pos 0;
  daemon_version = [];
  socket_path = [];
  health = no_health;
  info_error = [];
  health_error = [];
}

abbrev pub is_wired : Option Text → Bool
is_wired none = false
is_wired (some endpoint) = true

module _ {W : Type 0} (h : Host W) where
  abbrev pub vault_info_of : Option Text → Option BootError → W → VaultInfo × W
  vault_info_of none be w = (
    record { configured = false; healthy = false; endpoint = []; error = []; last_boot_error = be },
    w,
  )
  vault_info_of (some endpoint) be w = (
    record {
      configured = true;
      healthy = (h.vault_health w).0.0;
      endpoint = endpoint;
      error = text_of_error (h.vault_health w).0.1;
      last_boot_error = be;
    },
    (h.vault_health w).1,
  )

  -- collectVault
  unfoldable pub collect_vault : W → VaultInfo × W
  collect_vault w =
      let (be, w₁) = h.last_boot_error w in let (v, w₂) = h.vault w₁ in vault_info_of v be w₂

  abbrev pub with_info : EmbeddingInfo → Result InfoSnapshot → Result EmbeddingInfo
  with_info i (ok s) = ok (record i {
    model = s.model_identity;
    vector_dim = s.vector_dim;
    daemon_version = s.daemon_version;
  })
  with_info i (err e) = ok (record i { info_error = error_text e })
  with_info i panic = panic

  abbrev pub with_health : EmbeddingInfo → Result HealthSnapshot → Result EmbeddingInfo
  with_health i (ok s) = ok (record i { health = s })
  with_health i (err e) = ok (record i { health_error = error_text e })
  with_health i panic = panic

  abbrev pub embedding_if : Bool → Action W EmbeddingInfo
  embedding_if false = pure no_embedding
  embedding_if true =
      (λ w. (
        with_info (record no_embedding { socket_path = h.embedder_socket }) (h.info w).0,
        (h.info w).1,
      ))
      >>= λ i w. (with_health i (h.health w).0, (h.health w).1)

  -- collectEmbedding
  unfoldable pub collect_embedding : Action W EmbeddingInfo
  collect_embedding w = embedding_if (h.has_embedder w).0 (h.has_embedder w).1

  module _ (probe : W → ProbeEnd × W) where
    abbrev pub envector_if : Bool → W → EnvectorInfo × W
    envector_if false w = (no_envector, w)
    envector_if true w =
        let (t₀, w₁) = h.clock w in
        let (end, w₂) = probe w₁ in let (t₁, w₃) = h.clock w₂ in (envector_info end (t₁ - t₀), w₃)

    -- collectEnvector, with probeEnvector
    unfoldable pub collect_envector : W → EnvectorInfo × W
    collect_envector w = envector_if (h.has_envector w).0 (h.has_envector w).1

    abbrev pub config_part : Loaded → Option Config
    config_part (Loaded.loaded c) = some c
    config_part _ = none

    abbrev pub state_shown : Option Config → Option Text
    state_shown none = none
    state_shown (some c) = some c.state

    abbrev pub reason_shown : Option Config → Option Text
    reason_shown none = none
    reason_shown (some c) = non_empty c.dormant_reason

    abbrev pub since_shown : Option Config → Option Text
    since_shown none = none
    since_shown (some c) = non_empty c.dormant_since

    -- Diagnostics, without the environment. The two readings of the state, and of the Vault client at
    -- the end, are readings of the world.
    unfoldable pub diagnostics : KeyState → Action W DiagnosticsResult
    unfolding collect_vault collect_embedding collect_envector
    diagnostics keys w =
        let (read, w₁) = h.load w in
        let (vault, w₂) = collect_vault w₁ in
        let (first, w₃) = h.current w₂ in
        let (second, w₄) = h.current w₃ in
        (collect_embedding >>= λ embedding w₅.
        let (envector, w₆) = collect_envector w₅ in
        let (client, w₇) = h.vault w₆ in
        pure
          (record {
            okay = not (is_wired client && not vault.healthy) && keys.enc_key_loaded;
            state = state_shown (config_part read);
            dormant_reason = reason_shown (config_part read);
            dormant_since = since_shown (config_part read);
            vault = vault;
            keys = record {
              enc_key_loaded = keys.enc_key_loaded;
              key_id = keys.key_id;
              agent_dek_loaded = ltb 0 (length keys.agent_dek);
            };
            scribe_initialized = is_active first;
            retriever_initialized = is_active second;
            embedding = embedding;
            envector = envector;
          })
          w₇)
          w₄
