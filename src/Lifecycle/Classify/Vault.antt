-- ===== src/Lifecycle/Classify/Vault.antt =====
-- The boot errors that ClassifyBootError makes of the errors of the Vault adapter.
use rune_mcp.Prelude.{ℕ, Bool, true, false, not, ◌||◌, Option, none, some, List, ◌∷◌, ◌≡◌, refl}
use rune_mcp.Prelude.Text.{codes, teq}
use rune_mcp.Adapters.Grpc.{is_topk_message, map_vault_error, vault_mapped, vault_status}
use rune_mcp.Adapters.Grpc.Laws.{is_permanent, is_topk_status}
use rune_mcp.Domain.Errors.{Adapter, Error, GrpcCode, as_adapter, as_status, status_message}
use rune_mcp.Lifecycle.Classify.{classify_boot_error, first_hint, retryable_kind}
use rune_mcp.Lifecycle.Classify.Hints.{
  BootErrCtx, Chain, Hint, classify_config_err, classify_tls_err,
}
use rune_mcp.Lifecycle.Classify.Codes.{classify_vault_sentinel, vault_hint}

-- The kind, where the Vault classifier is the first to look at it.
abbrev vault_retryable : Error → BootErrCtx → List (Option Hint) → Hint → Bool
vault_retryable r c os d =
    retryable_kind (first_hint (vault_hint (as_adapter Adapter.vault r) c ∷ os) d).0

abbrev IsAgreed : Option GrpcCode → Error → Bool → Type 0
IsAgreed o e b = b ≡ (not (is_permanent o) || is_topk_status o (status_message e))

module _ (e : Error) (c : BootErrCtx) (os : List (Option Hint)) (d : Hint) where
  invalid_argument-IsAgreed :
      (topk : Bool)
      → is_topk_message (status_message e) ≡ topk
      → IsAgreed
          (some GrpcCode.invalid_argument)
          e
          (vault_retryable (vault_status GrpcCode.invalid_argument e) c os d)
  unfolding as_adapter teq codes
  invalid_argument-IsAgreed true h = rw h refl
  invalid_argument-IsAgreed false h = rw h refl

  vault_mapped-IsAgreed :
      (o : Option GrpcCode) → IsAgreed o e (vault_retryable (vault_mapped o e) c os d)
  unfolding as_adapter teq codes
  vault_mapped-IsAgreed none = refl
  vault_mapped-IsAgreed (some GrpcCode.grpc_ok) = refl
  vault_mapped-IsAgreed (some GrpcCode.cancelled) = refl
  vault_mapped-IsAgreed (some GrpcCode.unknown_code) = refl
  vault_mapped-IsAgreed (some GrpcCode.invalid_argument) =
      invalid_argument-IsAgreed (is_topk_message (status_message e)) refl
  vault_mapped-IsAgreed (some GrpcCode.deadline_exceeded) = refl
  vault_mapped-IsAgreed (some GrpcCode.not_found) = refl
  vault_mapped-IsAgreed (some GrpcCode.already_exists) = refl
  vault_mapped-IsAgreed (some GrpcCode.permission_denied) = refl
  vault_mapped-IsAgreed (some GrpcCode.resource_exhausted) = refl
  vault_mapped-IsAgreed (some GrpcCode.failed_precondition) = refl
  vault_mapped-IsAgreed (some GrpcCode.aborted) = refl
  vault_mapped-IsAgreed (some GrpcCode.out_of_range) = refl
  vault_mapped-IsAgreed (some GrpcCode.unimplemented) = refl
  vault_mapped-IsAgreed (some GrpcCode.internal_code) = refl
  vault_mapped-IsAgreed (some GrpcCode.unavailable) = refl
  vault_mapped-IsAgreed (some GrpcCode.data_loss) = refl
  vault_mapped-IsAgreed (some GrpcCode.unauthenticated) = refl

-- Where neither the config nor the TLS classifier answers, the boot error of an error of the Vault
-- adapter is retryable exactly where the adapter says so (its status is none of Unauthenticated,
-- PermissionDenied, InvalidArgument and NotFound), and also for the limit of top_k, whose code the
-- classifier does not know.
pub classify_boot_error-IsAgreed :
    (ch : Chain) (e : Error) (c : BootErrCtx) (now : ℕ)
    → classify_config_err ch (map_vault_error e) c ≡ none
    → classify_tls_err ch (map_vault_error e) c ≡ none
    → retryable_kind (classify_boot_error ch (map_vault_error e) c now).kind
      ≡ (not (is_permanent (as_status e)) || is_topk_status (as_status e) (status_message e))
unfolding classify_boot_error classify_vault_sentinel map_vault_error
classify_boot_error-IsAgreed ch e c now hc ht =
    rw hc (rw ht (vault_mapped-IsAgreed e c _ _ (as_status e)))
