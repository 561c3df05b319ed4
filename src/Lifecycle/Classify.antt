-- ===== src/Lifecycle/Classify.antt =====
-- internal/lifecycle/boot_classify.go and internal/domain/boot_error.go: the boot errors that
-- diagnostics shows.
pub mod Hints
pub mod Codes
pub mod Laws
pub mod Vault
use rune_mcp.Prelude.{
  ℕ, Bool, true, false, not, ◌&&◌, Option, none, some, List, [], ◌∷◌, ◌++◌, if◌then◌else◌,
}
use rune_mcp.Prelude.Text.{Text, codes, is_empty, teq}
use rune_mcp.Domain.Errors.{Error, error_text}
use rune_mcp.Lifecycle.Boot.{BootPhase}
use rune_mcp.Lifecycle.Classify.Hints.{
  BootErrCtx, BootErrorKind, Chain, Hint, case_or, classify_config_err, classify_tls_err,
}
use rune_mcp.Lifecycle.Classify.Codes.{
  classify_grpc_status, classify_net_err, classify_vault_sentinel,
}

-- The phase of a dormant reason is left empty; `at` is the time of the classification.
pub record BootError : Type 0 where
  pub kind : BootErrorKind
  pub detail : Text
  pub hint : Text
  pub phase : Option BootPhase
  pub at : ℕ
  pub attempts : ℕ

abbrev pub is_unknown : BootErrorKind → Bool
is_unknown BootErrorKind.unknown = true
is_unknown _ = false

abbrev pub hint_of_phase : BootPhase → Hint
hint_of_phase BootPhase.config_load = (
  BootErrorKind.config_invalid,
  codes
      "Failed to load ~/.rune/config.json. Check the file is valid JSON with the expected schema.",
)
hint_of_phase BootPhase.config_check =
    (BootErrorKind.config_invalid, codes "Config loaded but has invalid values.")
hint_of_phase BootPhase.vault_dial = (
  BootErrorKind.vault_dial_opts,
  codes "Could not initialize the Vault gRPC client (endpoint, CA, or dial options rejected).",
)
hint_of_phase BootPhase.vault_manifest = (
  BootErrorKind.vault_manifest,
  codes "Vault responded but the agent manifest could not be parsed or was empty.",
)
hint_of_phase BootPhase.key_save = (
  BootErrorKind.key_save,
  codes "Could not save key material to ~/.rune/. Check filesystem permissions.",
)
hint_of_phase BootPhase.embedder_dial = (
  BootErrorKind.embedder_unreachable,
  codes "Embedder daemon (runed) is not reachable on its UDS socket. Start it with `runed start`.",
)
hint_of_phase BootPhase.envector_init = (
  BootErrorKind.envector_init,
  codes
      "Envector client could not be initialized — check the manifest's envector_endpoint and api_key.",
)
hint_of_phase BootPhase.envector_index = (
  BootErrorKind.envector_index,
  codes
      "Envector index could not be opened. The index may be missing on the server, or auth failed.",
)

unfoldable pub apply_phase_fallback : Hint → BootErrCtx → Hint
apply_phase_fallback (kind, hint) c =
    if not (is_empty hint) && not (is_unknown kind) then (kind, hint) else hint_of_phase c.phase

-- The first classifier that answers.
abbrev pub first_hint : List (Option Hint) → Hint → Hint
first_hint [] h = h
first_hint (none ∷ os) h = first_hint os h
first_hint (some h' ∷ os) h = h'

abbrev pub answers_of : Chain → Error → BootErrCtx → List (Option Hint)
answers_of ch e c =
    classify_config_err ch e c
    ∷ classify_tls_err ch e c
    ∷ classify_vault_sentinel e c
    ∷ classify_net_err ch e c
    ∷ classify_grpc_status ch e c
    ∷ []

unfoldable pub classify_boot_error : Chain → Error → BootErrCtx → ℕ → BootError
classify_boot_error ch e c now =
    let (kind, hint) =
      first_hint (answers_of ch e c) (apply_phase_fallback (BootErrorKind.unknown, []) c) in
    record {
      kind = kind;
      detail = error_text e;
      hint = hint;
      phase = some c.phase;
      at = now;
      attempts = c.attempts;
    }

abbrev pub reason_cases : Text → List (Bool × Hint)
reason_cases reason =
    (
      teq reason (codes "not_configured"),
      (
        BootErrorKind.config_missing,
        codes "~/.rune/config.json is missing. Run /rune:configure to set up Vault credentials.",
      ),
    )
    ∷ (
      teq reason (codes "vault_unconfigured"),
      (
        BootErrorKind.vault_not_configured,
        codes "Vault endpoint or token is empty in ~/.rune/config.json. Run /rune:configure.",
      ),
    )
    ∷ (
      teq reason (codes "user_deactivated"),
      (
        BootErrorKind.user_deactivated,
        codes "Rune is dormant by user choice. Run /rune:activate to resume.",
      ),
    )
    ∷ (
      teq reason (codes "invalid_state"),
      (
        BootErrorKind.config_invalid,
        codes "config.json has an unknown state value. Edit it or re-run /rune:configure.",
      ),
    )
    ∷ (
      is_empty reason,
      (
        BootErrorKind.config_invalid,
        codes "Dormant for unknown reason. Run /rune:configure to reset.",
      ),
    )
    ∷ []

abbrev pub hint_of_reason : Text → Hint
hint_of_reason reason =
    case_or (reason_cases reason) (BootErrorKind.config_invalid, codes "Dormant: " ++ reason)

unfoldable pub classify_dormant_reason : Text → ℕ → BootError
classify_dormant_reason reason now =
    let (kind, hint) = hint_of_reason reason in
    record {
      kind = kind;
      detail = codes "dormant: " ++ reason;
      hint = hint;
      phase = none;
      at = now;
      attempts = 0;
    }

abbrev pub retryable_kind : BootErrorKind → Bool
retryable_kind BootErrorKind.config_missing = false
retryable_kind BootErrorKind.config_invalid = false
retryable_kind BootErrorKind.config_parse = false
retryable_kind BootErrorKind.user_deactivated = false
retryable_kind BootErrorKind.vault_not_configured = false
retryable_kind BootErrorKind.vault_bad_endpoint = false
retryable_kind BootErrorKind.vault_ca_file = false
retryable_kind BootErrorKind.vault_dial_opts = false
retryable_kind BootErrorKind.vault_tls_handshake = false
retryable_kind BootErrorKind.vault_tls_hostname = false
retryable_kind BootErrorKind.vault_auth = false
retryable_kind BootErrorKind.vault_permission = false
retryable_kind BootErrorKind.vault_invalid_input = false
retryable_kind BootErrorKind.vault_manifest = false
retryable_kind _ = true
