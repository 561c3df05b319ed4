-- ===== src/Lifecycle/Classify/Codes.antt =====
-- internal/lifecycle/boot_classify.go: the classifiers of Vault's codes, of network errors and of gRPC
-- statuses.
use rune_mcp.Prelude.{Bool, true, Option, none, some, List, [], ◌∷◌, ◌++◌}
use rune_mcp.Prelude.Text.{Text, codes, teq}
use rune_mcp.Domain.Errors.{Adapter, AdapterError, Error, GrpcCode, as_adapter, as_status}
use rune_mcp.Lifecycle.Classify.Hints.{BootErrCtx, BootErrorKind, Chain, Hint, first_case}

-- The cases of vault.Error's codes; the last one is the default.
abbrev pub vault_code_cases : Text → BootErrCtx → List (Bool × Hint)
vault_code_cases code c =
    (
      teq code (codes "VAULT_AUTH_FAILED"),
      (
        BootErrorKind.vault_auth,
        codes
            "Vault rejected the token. Check the token in ~/.rune/config.json — it may be wrong or revoked. Re-issue with `runevault token issue` if needed.",
      ),
    )
    ∷ (
      teq code (codes "VAULT_PERMISSION_DENIED"),
      (
        BootErrorKind.vault_permission,
        codes
            "Token authenticated but lacks the required role/scope. Re-issue the token with the correct role.",
      ),
    )
    ∷ (
      teq code (codes "VAULT_RATE_LIMITED"),
      (
        BootErrorKind.vault_rate_limit,
        codes "Vault rate-limited this token. Wait and retry, or check token quota.",
      ),
    )
    ∷ (
      teq code (codes "VAULT_TIMEOUT"),
      (
        BootErrorKind.vault_timeout,
        codes "Vault did not respond within the timeout (endpoint "
            ++ (c.vault_endpoint ++ codes "). Network latency or server overload."),
      ),
    )
    ∷ (
      teq code (codes "VAULT_UNAVAILABLE"),
      (
        BootErrorKind.vault_network,
        codes "Vault endpoint "
            ++ (c.vault_endpoint
                ++ codes
                    " is not reachable. Verify TCP connectivity (e.g., `nc -vz host port`) and firewall, and confirm the server is running."),
      ),
    )
    ∷ (
      teq code (codes "VAULT_KEY_NOT_FOUND"),
      (
        BootErrorKind.vault_manifest,
        codes
            "Vault returned NotFound for this token's manifest. Confirm the token is provisioned for an active agent.",
      ),
    )
    ∷ (
      teq code (codes "VAULT_INVALID_INPUT"),
      (
        BootErrorKind.vault_invalid_input,
        codes "Vault rejected the request as invalid input. Likely a malformed token or endpoint.",
      ),
    )
    ∷ (
      teq code (codes "VAULT_INTERNAL"),
      (
        BootErrorKind.vault_internal,
        codes
            "Vault server returned an internal error. Share the detail field with your Vault admin.",
      ),
    )
    ∷ (true, (BootErrorKind.vault_internal, codes "Vault returned an unrecognized error."))
    ∷ []

abbrev pub vault_code_hint : Text → BootErrCtx → Option Hint
vault_code_hint code c = first_case (vault_code_cases code c)

abbrev pub vault_hint : Option AdapterError → BootErrCtx → Option Hint
vault_hint none c = none
vault_hint (some a) c = vault_code_hint a.code c

unfoldable pub classify_vault_sentinel : Error → BootErrCtx → Option Hint
classify_vault_sentinel e c = vault_hint (as_adapter Adapter.vault e) c

abbrev pub url_hint : Chain → Option Text → BootErrCtx → Option Hint
url_hint ch none c = none
url_hint ch (some m) c = some (
  BootErrorKind.vault_bad_endpoint,
  codes "Endpoint "
      ++ (ch.quote c.vault_endpoint
          ++ (codes " could not be parsed: "
              ++ (m ++ codes ". Format: host:port or tcp://host:port."))),
)

abbrev pub op_hint : Option (Text × Text) → Option Hint → BootErrCtx → Option Hint
op_hint none next c = next
op_hint (some (op, m)) next c = some (
  BootErrorKind.vault_network,
  codes "Network error contacting "
      ++ (c.vault_endpoint ++ (codes " during " ++ (op ++ (codes ": " ++ (m ++ codes "."))))),
)

abbrev pub dns_hint : Option Text → Option Hint → BootErrCtx → Option Hint
dns_hint none next c = next
dns_hint (some m) next c = some (
  BootErrorKind.vault_dns,
  codes "Cannot resolve hostname for "
      ++ (c.vault_endpoint
          ++ (codes ": " ++ (m ++ codes ". Check the endpoint spelling and DNS."))),
)

unfoldable pub classify_net_err : Chain → Error → BootErrCtx → Option Hint
classify_net_err ch e c =
    dns_hint (ch.dns_error e) (op_hint (ch.op_error e) (url_hint ch (ch.url_error e) c) c) c

abbrev pub status_hint : Chain → GrpcCode → BootErrCtx → Option Hint
status_hint ch GrpcCode.unauthenticated c =
    some (BootErrorKind.vault_auth, codes "Vault rejected the token (gRPC Unauthenticated).")
status_hint ch GrpcCode.permission_denied c = some (
  BootErrorKind.vault_permission,
  codes "Token authenticated but lacks required role (gRPC PermissionDenied).",
)
status_hint ch GrpcCode.resource_exhausted c = some (
  BootErrorKind.vault_rate_limit,
  codes "Vault rate-limited this token (gRPC ResourceExhausted).",
)
status_hint ch GrpcCode.unavailable c = some (
  BootErrorKind.vault_network,
  codes "Vault endpoint " ++ (c.vault_endpoint ++ codes " is not reachable (gRPC Unavailable)."),
)
status_hint ch GrpcCode.deadline_exceeded c =
    some (BootErrorKind.vault_timeout, codes "Vault did not respond within the deadline.")
status_hint ch GrpcCode.not_found c = some (
  BootErrorKind.vault_manifest,
  codes "Vault returned NotFound — manifest may not exist for this token.",
)
status_hint ch GrpcCode.invalid_argument c =
    some (BootErrorKind.vault_invalid_input, codes "Vault rejected the request as invalid input.")
status_hint ch GrpcCode.grpc_ok c = none
status_hint ch code c =
    some (
      BootErrorKind.vault_internal,
      codes "Vault returned gRPC " ++ (ch.code_name code ++ codes "."),
    )

abbrev pub grpc_hint : Chain → Option GrpcCode → BootErrCtx → Option Hint
grpc_hint ch none c = none
grpc_hint ch (some code) c = status_hint ch code c

unfoldable pub classify_grpc_status : Chain → Error → BootErrCtx → Option Hint
classify_grpc_status ch e c = grpc_hint ch (as_status e) c
