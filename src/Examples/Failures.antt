-- ===== src/Examples/Failures.antt =====
-- Boot errors of a Vault that refuses a top_k and of an enVector that is down.
use rune_mcp.Prelude.{false, not, ◌||◌, none, some, [], ◌++◌, ◌≡◌, refl}
use rune_mcp.Prelude.Text.{ascii, codes, contains, has_prefix, to_lower}
use rune_mcp.Adapters.Grpc.{map_sdk_error, map_vault_error}
use rune_mcp.Adapters.Grpc.Laws.{is_permanent, is_topk_status}
use rune_mcp.Domain.Errors.{
  Error, GrpcCode, adapter_text, as_status, error_text, grpc, status_message,
}
use rune_mcp.Lifecycle.Boot.{BootPhase}
use rune_mcp.Lifecycle.Classify.{classify_boot_error, retryable_kind}
use rune_mcp.Lifecycle.Classify.Hints.{BootErrCtx, Chain, classify_config_err, classify_tls_err}
use rune_mcp.Lifecycle.Classify.Laws.{IsHelpful, classify_boot_error-IsHelpful}
use rune_mcp.Lifecycle.Classify.Vault.{classify_boot_error-IsAgreed}

-- No error is of the types of the other packages.
abbrev plain_chain : Chain
plain_chain = record {
  is_not_exist = λ e. false;
  has_path_error = λ e. false;
  has_unknown_authority = λ e. false;
  has_hostname_error = λ e. false;
  has_certificate_invalid = λ e. false;
  dns_error = λ e. none;
  op_error = λ e. none;
  url_error = λ e. none;
  quote = λ s. codes "\"" ++ (s ++ codes "\"");
  code_name = λ g. codes "code";
  unicode = ascii;
}

abbrev at_phase : BootPhase → BootErrCtx
at_phase p = record {
  phase = p;
  vault_endpoint = codes "tcp://vault:1";
  vault_ca_path = [];
  attempts = 3;
}

abbrev refused : Error
refused = grpc GrpcCode.invalid_argument (codes "top_k 50 exceeds limit 10") (codes "rpc error")

abbrev down : Error
down = map_sdk_error (grpc GrpcCode.unavailable (codes "down") (codes "rpc error: down"))

classify_boot_error-IsHelpful_example :
    (let be = classify_boot_error plain_chain down (at_phase BootPhase.envector_index) 9 in
      IsHelpful be.kind be.hint
      × (be.detail ≡ error_text down)
      × (be.phase ≡ some BootPhase.envector_index)
      × (be.attempts ≡ 3))
classify_boot_error-IsHelpful_example =
    classify_boot_error-IsHelpful plain_chain down (at_phase BootPhase.envector_index) 9

refused-config :
    classify_config_err plain_chain (map_vault_error refused) (at_phase BootPhase.vault_manifest)
    ≡ none
unfolding classify_config_err
refused-config = refl

refused-tls :
    classify_tls_err plain_chain (map_vault_error refused) (at_phase BootPhase.vault_manifest)
    ≡ none
unfolding classify_tls_err map_vault_error as_status status_message error_text adapter_text to_lower
    contains has_prefix codes
refused-tls = refl

classify_boot_error-IsAgreed_example :
    retryable_kind
      (classify_boot_error plain_chain
        (map_vault_error refused)
        (at_phase BootPhase.vault_manifest)
        9).kind
    ≡ (not (is_permanent (as_status refused))
        || is_topk_status (as_status refused) (status_message refused))
classify_boot_error-IsAgreed_example =
    classify_boot_error-IsAgreed plain_chain refused (at_phase BootPhase.vault_manifest) 9
      refused-config refused-tls
