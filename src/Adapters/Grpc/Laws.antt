-- ===== src/Adapters/Grpc/Laws.antt =====
-- Which errors of the daemons may be retried, and which one is the limit of top_k.
use rune_mcp.Prelude.{not, Bool-cases, inl, inr, Bool, true, false, Option, none, some, ◌≡◌, refl}
use rune_mcp.Prelude.Text.{Text, codes, teq}
use rune_mcp.Domain.Errors.{
  Adapter, AdapterError, Error, GrpcCode, as_status, status_message, typed,
}
use rune_mcp.Adapters.Grpc.{is_topk_message, map_vault_error, vault_mapped, vault_status}

-- The Vault codes that say that a repetition cannot help.
abbrev pub is_permanent : Option GrpcCode → Bool
is_permanent (some GrpcCode.unauthenticated) = true
is_permanent (some GrpcCode.permission_denied) = true
is_permanent (some GrpcCode.invalid_argument) = true
is_permanent (some GrpcCode.not_found) = true
is_permanent _ = false

abbrev pub is_topk_status : Option GrpcCode → Text → Bool
is_topk_status (some GrpcCode.invalid_argument) m = is_topk_message m
is_topk_status _ m = false

-- What the Vault adapter makes of an error with that status.
abbrev pub IsVaultError : Option GrpcCode → Error → Error → Type 0
IsVaultError o e r =
    (a : AdapterError) × (r ≡ typed a e)
    × (a.adapter ≡ Adapter.vault)
    × (a.retryable ≡ not (is_permanent o))
    × (teq a.code (codes "VAULT_TOPK_EXCEEDED") ≡ is_topk_status o (status_message e))
    × (is_topk_status o (status_message e) ≡ true → a.message ≡ status_message e)

vault_invalid-IsVaultError :
    (e : Error)
    → IsVaultError (some GrpcCode.invalid_argument) e (vault_status GrpcCode.invalid_argument e)
unfolding teq codes
vault_invalid-IsVaultError e = elim (Bool-cases (is_topk_message (status_message e))) [
  | inl t ↦ rw t (_, refl, refl, refl, refl, λ h. refl)
  | inr f ↦ rw f (_, refl, refl, refl, refl, λ h. refl)
]

vault_mapped-IsVaultError : (o : Option GrpcCode) (e : Error) → IsVaultError o e (vault_mapped o e)
unfolding teq codes
vault_mapped-IsVaultError none e = (_, refl, refl, refl, refl, λ h. absurd cc)
vault_mapped-IsVaultError (some GrpcCode.grpc_ok) e = (_, refl, refl, refl, refl, λ h. absurd cc)
vault_mapped-IsVaultError (some GrpcCode.cancelled) e = (_, refl, refl, refl, refl, λ h. absurd cc)
vault_mapped-IsVaultError (some GrpcCode.unknown_code) e =
    (_, refl, refl, refl, refl, λ h. absurd cc)
vault_mapped-IsVaultError (some GrpcCode.invalid_argument) e = vault_invalid-IsVaultError e
vault_mapped-IsVaultError (some GrpcCode.deadline_exceeded) e =
    (_, refl, refl, refl, refl, λ h. absurd cc)
vault_mapped-IsVaultError (some GrpcCode.not_found) e = (_, refl, refl, refl, refl, λ h. absurd cc)
vault_mapped-IsVaultError (some GrpcCode.already_exists) e =
    (_, refl, refl, refl, refl, λ h. absurd cc)
vault_mapped-IsVaultError (some GrpcCode.permission_denied) e =
    (_, refl, refl, refl, refl, λ h. absurd cc)
vault_mapped-IsVaultError (some GrpcCode.resource_exhausted) e =
    (_, refl, refl, refl, refl, λ h. absurd cc)
vault_mapped-IsVaultError (some GrpcCode.failed_precondition) e =
    (_, refl, refl, refl, refl, λ h. absurd cc)
vault_mapped-IsVaultError (some GrpcCode.aborted) e = (_, refl, refl, refl, refl, λ h. absurd cc)
vault_mapped-IsVaultError (some GrpcCode.out_of_range) e =
    (_, refl, refl, refl, refl, λ h. absurd cc)
vault_mapped-IsVaultError (some GrpcCode.unimplemented) e =
    (_, refl, refl, refl, refl, λ h. absurd cc)
vault_mapped-IsVaultError (some GrpcCode.internal_code) e =
    (_, refl, refl, refl, refl, λ h. absurd cc)
vault_mapped-IsVaultError (some GrpcCode.unavailable) e =
    (_, refl, refl, refl, refl, λ h. absurd cc)
vault_mapped-IsVaultError (some GrpcCode.data_loss) e = (_, refl, refl, refl, refl, λ h. absurd cc)
vault_mapped-IsVaultError (some GrpcCode.unauthenticated) e =
    (_, refl, refl, refl, refl, λ h. absurd cc)

-- Every error of a Vault call becomes an error of the adapter with the error as its cause. It may be
-- retried unless the status is Unauthenticated, PermissionDenied, InvalidArgument or NotFound; it has
-- the code VAULT_TOPK_EXCEEDED exactly for an InvalidArgument whose message contains "top_k" and
-- "exceeds limit", and then it keeps that message.
pub map_vault_error-IsVaultError : (e : Error) → IsVaultError (as_status e) e (map_vault_error e)
unfolding map_vault_error
map_vault_error-IsVaultError e = vault_mapped-IsVaultError (as_status e) e
