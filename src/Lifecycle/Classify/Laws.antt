-- ===== src/Lifecycle/Classify/Laws.antt =====
-- Boot errors: every one has a kind and a hint, and those of Vault are as retryable as its adapter says.
use rune_mcp.Prelude.{ℕ, Bool, true, false, Option, none, some, List, [], ◌∷◌, ◌≡◌, refl, ◌++◌}
use rune_mcp.Prelude.Text.{Text, codes, is_empty}
use rune_mcp.Domain.Errors.{
  Adapter, AdapterError, Error, GrpcCode, as_adapter, as_status, error_text,
}
use rune_mcp.Lifecycle.Boot.{BootPhase}
use rune_mcp.Lifecycle.Classify.{
  answers_of, reason_cases, apply_phase_fallback, classify_boot_error, classify_dormant_reason,
  first_hint, hint_of_phase, hint_of_reason, is_unknown, retryable_kind,
}
use rune_mcp.Lifecycle.Classify.Hints.{
  BootErrCtx, BootErrorKind, Chain, Hint, case_or, config_cases, tls_cases, tls_message_cases,
  classify_config_err, classify_tls_err, first_case, tls_message_hint,
}
use rune_mcp.Lifecycle.Classify.Codes.{
  vault_code_cases, classify_grpc_status, classify_net_err, classify_vault_sentinel, dns_hint,
  grpc_hint, op_hint, status_hint, url_hint, vault_hint,
}

abbrev pub IsHelpful : BootErrorKind → Text → Type 0
IsHelpful kind hint = (is_unknown kind ≡ false) × (is_empty hint ≡ false)

abbrev IsHint : Hint → Type 0
IsHint h = IsHelpful h.0 h.1

abbrev IsAnswer : Option Hint → Type 0
IsAnswer none = Unit
IsAnswer (some h) = IsHint h

abbrev AreCases : (Hint → Type 0) → List (Bool × Hint) → Type 0
AreCases P [] = Unit
AreCases P ((b, h) ∷ cs) = P h × AreCases P cs

abbrev AreAnswers : List (Option Hint) → Type 0
AreAnswers [] = Unit
AreAnswers (o ∷ os) = IsAnswer o × AreAnswers os

first_case-IsAnswer : (cs : List (Bool × Hint)) → AreCases IsHint cs → IsAnswer (first_case cs)
first_case-IsAnswer [] h = tt
first_case-IsAnswer ((true, f) ∷ cs) h = h.0
first_case-IsAnswer ((false, f) ∷ cs) h = first_case-IsAnswer cs h.1

first_hint-IsHint :
    (os : List (Option Hint)) (d : Hint) → AreAnswers os → IsHint d → IsHint (first_hint os d)
first_hint-IsHint [] d h k = k
first_hint-IsHint (none ∷ os) d h k = first_hint-IsHint os d h.1 k
first_hint-IsHint (some f ∷ os) d h k = h.0

case_or-AreCases :
    (P : Hint → Type 0) (cs : List (Bool × Hint)) (d : Hint)
    → AreCases P cs
    → P d
    → P (case_or cs d)
case_or-AreCases P [] d h k = k
case_or-AreCases P ((true, f) ∷ cs) d h k = h.0
case_or-AreCases P ((false, f) ∷ cs) d h k = case_or-AreCases P cs d h.1 k

tls_message_hint-IsHint :
    (ch : Chain) (e : Error) (c : BootErrCtx) → IsHint (tls_message_hint ch e c)
unfolding codes
tls_message_hint-IsHint ch e c =
    case_or-AreCases IsHint (tls_message_cases ch e c)
      (
        BootErrorKind.vault_tls_handshake,
        codes
            "TLS handshake with Vault failed. Detail field contains specifics — share with your Vault admin.",
      )
      ((refl, refl), ((refl, refl), ((refl, refl), tt))) (refl, refl)

classify_config_err-IsAnswer :
    (ch : Chain) (e : Error) (c : BootErrCtx) → IsAnswer (classify_config_err ch e c)
unfolding classify_config_err codes
classify_config_err-IsAnswer ch e c =
    first_case-IsAnswer (config_cases ch e c) ((refl, refl), ((refl, refl), tt))

classify_tls_err-IsAnswer :
    (ch : Chain) (e : Error) (c : BootErrCtx) → IsAnswer (classify_tls_err ch e c)
unfolding classify_tls_err codes
classify_tls_err-IsAnswer ch e c = first_case-IsAnswer (tls_cases ch e c) (
  (refl, refl),
  ((refl, refl), ((refl, refl), ((refl, refl), (tls_message_hint-IsHint ch e c, tt)))),
)

vault_hint-IsAnswer : (o : Option AdapterError) (c : BootErrCtx) → IsAnswer (vault_hint o c)
unfolding codes
vault_hint-IsAnswer none c = tt
vault_hint-IsAnswer (some a) c = first_case-IsAnswer (vault_code_cases a.code c) (
  (refl, refl),
  (
    (refl, refl),
    (
      (refl, refl),
      (
        (refl, refl),
        ((refl, refl), ((refl, refl), ((refl, refl), ((refl, refl), ((refl, refl), tt))))),
      ),
    ),
  ),
)

url_hint-IsAnswer : (ch : Chain) (o : Option Text) (c : BootErrCtx) → IsAnswer (url_hint ch o c)
unfolding codes
url_hint-IsAnswer ch none c = tt
url_hint-IsAnswer ch (some m) c = (refl, refl)

op_hint-IsAnswer :
    (o : Option (Text × Text)) (next : Option Hint) (c : BootErrCtx)
    → IsAnswer next
    → IsAnswer (op_hint o next c)
unfolding codes
op_hint-IsAnswer none next c h = h
op_hint-IsAnswer (some (op, m)) next c h = (refl, refl)

dns_hint-IsAnswer :
    (o : Option Text) (next : Option Hint) (c : BootErrCtx)
    → IsAnswer next
    → IsAnswer (dns_hint o next c)
unfolding codes
dns_hint-IsAnswer none next c h = h
dns_hint-IsAnswer (some m) next c h = (refl, refl)

classify_net_err-IsAnswer :
    (ch : Chain) (e : Error) (c : BootErrCtx) → IsAnswer (classify_net_err ch e c)
unfolding classify_net_err
classify_net_err-IsAnswer ch e c =
    dns_hint-IsAnswer (ch.dns_error e) _ c
      (op_hint-IsAnswer (ch.op_error e) _ c (url_hint-IsAnswer ch (ch.url_error e) c))

status_hint-IsAnswer : (ch : Chain) (g : GrpcCode) (c : BootErrCtx) → IsAnswer (status_hint ch g c)
unfolding codes
status_hint-IsAnswer ch GrpcCode.grpc_ok c = tt
status_hint-IsAnswer ch GrpcCode.cancelled c = (refl, refl)
status_hint-IsAnswer ch GrpcCode.unknown_code c = (refl, refl)
status_hint-IsAnswer ch GrpcCode.invalid_argument c = (refl, refl)
status_hint-IsAnswer ch GrpcCode.deadline_exceeded c = (refl, refl)
status_hint-IsAnswer ch GrpcCode.not_found c = (refl, refl)
status_hint-IsAnswer ch GrpcCode.already_exists c = (refl, refl)
status_hint-IsAnswer ch GrpcCode.permission_denied c = (refl, refl)
status_hint-IsAnswer ch GrpcCode.resource_exhausted c = (refl, refl)
status_hint-IsAnswer ch GrpcCode.failed_precondition c = (refl, refl)
status_hint-IsAnswer ch GrpcCode.aborted c = (refl, refl)
status_hint-IsAnswer ch GrpcCode.out_of_range c = (refl, refl)
status_hint-IsAnswer ch GrpcCode.unimplemented c = (refl, refl)
status_hint-IsAnswer ch GrpcCode.internal_code c = (refl, refl)
status_hint-IsAnswer ch GrpcCode.unavailable c = (refl, refl)
status_hint-IsAnswer ch GrpcCode.data_loss c = (refl, refl)
status_hint-IsAnswer ch GrpcCode.unauthenticated c = (refl, refl)

grpc_hint-IsAnswer :
    (ch : Chain) (o : Option GrpcCode) (c : BootErrCtx) → IsAnswer (grpc_hint ch o c)
grpc_hint-IsAnswer ch none c = tt
grpc_hint-IsAnswer ch (some g) c = status_hint-IsAnswer ch g c

hint_of_phase-IsHint : (p : BootPhase) → IsHint (hint_of_phase p)
unfolding codes
hint_of_phase-IsHint BootPhase.config_load = (refl, refl)
hint_of_phase-IsHint BootPhase.config_check = (refl, refl)
hint_of_phase-IsHint BootPhase.vault_dial = (refl, refl)
hint_of_phase-IsHint BootPhase.vault_manifest = (refl, refl)
hint_of_phase-IsHint BootPhase.key_save = (refl, refl)
hint_of_phase-IsHint BootPhase.embedder_dial = (refl, refl)
hint_of_phase-IsHint BootPhase.envector_init = (refl, refl)
hint_of_phase-IsHint BootPhase.envector_index = (refl, refl)

-- Whatever error a phase of the boot ends with: the boot error has a kind that is not "unknown" and a
-- hint that is not empty, and it keeps the error's text, the phase and the number of attempts.
pub classify_boot_error-IsHelpful :
    (ch : Chain) (e : Error) (c : BootErrCtx) (now : ℕ)
    → (let be = classify_boot_error ch e c now in
        IsHelpful be.kind be.hint
        × (be.detail ≡ error_text e)
        × (be.phase ≡ some c.phase)
        × (be.attempts ≡ c.attempts))
unfolding classify_boot_error apply_phase_fallback classify_vault_sentinel classify_grpc_status
classify_boot_error-IsHelpful ch e c now = (
  first_hint-IsHint (answers_of ch e c) (hint_of_phase c.phase)
      (
        classify_config_err-IsAnswer ch e c,
        (
          classify_tls_err-IsAnswer ch e c,
          (
            vault_hint-IsAnswer (as_adapter Adapter.vault e) c,
            (classify_net_err-IsAnswer ch e c, (grpc_hint-IsAnswer ch (as_status e) c, tt)),
          ),
        ),
      )
      (hint_of_phase-IsHint c.phase),
  refl,
  refl,
  refl,
)

-- A hint that says that only the user can help.
abbrev IsTerminal : Hint → Type 0
IsTerminal h = IsHint h × (retryable_kind h.0 ≡ false)

hint_of_reason-IsTerminal : (reason : Text) → IsTerminal (hint_of_reason reason)
unfolding codes
hint_of_reason-IsTerminal reason =
    let t : ((false ≡ false) × (false ≡ false)) × (false ≡ false) = ((refl, refl), refl) in
    case_or-AreCases IsTerminal (reason_cases reason)
      (BootErrorKind.config_invalid, codes "Dormant: " ++ reason) (t, (t, (t, (t, (t, tt))))) t

-- Whatever reason a boot is dormant for: the boot error has a kind that is not "unknown", a hint that
-- is not empty and the detail "dormant: " with the reason, and it is not retryable.
pub classify_dormant_reason-IsHelpful :
    (reason : Text) (now : ℕ)
    → (let be = classify_dormant_reason reason now in
        IsHelpful be.kind be.hint
        × (be.detail ≡ codes "dormant: " ++ reason)
        × (retryable_kind be.kind ≡ false))
unfolding classify_dormant_reason
classify_dormant_reason-IsHelpful reason now =
    let h = hint_of_reason-IsTerminal reason in (h.0, refl, h.1)
