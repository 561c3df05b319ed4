-- ===== src/Lifecycle/Interceptor.antt =====
-- internal/recovery/interceptor.go: the interceptor of the unary calls, which asks the manager for a
-- new boot after a failure that a new connection may mend.
use rune_mcp.Prelude.{
  Bool, true, false, Option, none, some, ◌≡◌, refl, inl, inr, if◌then◌else◌, if-elim, ℕ,
}
use rune_mcp.Domain.Errors.{Error, GrpcCode, as_status}
use rune_mcp.Lifecycle.Boot.{State}
use rune_mcp.Lifecycle.Boot.Outcomes.{IsBooting}
use rune_mcp.Lifecycle.Retrigger.{Reachable, Step, System, claim, compare_and_swap, retrigger}

abbrev retryable_status : Option GrpcCode → Bool
retryable_status (some GrpcCode.unavailable) = true
retryable_status (some GrpcCode.deadline_exceeded) = true
retryable_status (some GrpcCode.resource_exhausted) = true
retryable_status _ = false

-- isRetryableGRPC
unfoldable pub is_retryable_grpc : Error → Bool
is_retryable_grpc e = retryable_status (as_status e)

-- What is left to do after the invoker: `mgr` is whether the interceptor has a manager.
abbrev pub after_call : Bool → Option Error → System → System
after_call mgr none s = s
after_call false (some e) s = s
after_call true (some e) s = if is_retryable_grpc e then retrigger s else s

-- UnaryRecovery, round an invoker whose world has the manager's system beside it.
unfoldable pub unary_recovery :
    {W : Type 0}
    → Bool
    → (W × System → Option Error × (W × System))
    → W × System
    → Option Error × (W × System)
unary_recovery mgr call v = let (e, (w, s)) = call v in (e, (w, after_call mgr e s))

abbrev is_mended : Option Error → Bool
is_mended none = false
is_mended (some e) = is_retryable_grpc e

pub retrigger-IsBooting :
    (t : State) (n : ℕ) → IsBooting (retrigger (record { state = t; live = n })).state
unfolding retrigger claim compare_and_swap
retrigger-IsBooting State.starting n = inl refl
retrigger-IsBooting State.waiting_for_vault n = inr refl
retrigger-IsBooting State.active n = inl refl
retrigger-IsBooting State.dormant n = inl refl

-- What a call leaves of the manager's system `s`, in `t`.
abbrev pub IsMended : Option Error → System → System → Type 0
IsMended e s t =
    Reachable t × (is_mended e ≡ false → t ≡ s) × (is_mended e ≡ true → IsBooting t.state)

after_call-IsMended :
    (e : Option Error) (s : System) → Reachable s → IsMended e s (after_call true e s)
after_call-IsMended none s r = (r, λ h. refl, λ h. absurd cc)
after_call-IsMended (some e) s r =
    if-elim (λ t. IsMended (some e) s t) (is_retryable_grpc e)
      (λ h.
        (Reachable.next r Step.retriggers, λ k. absurd cc, λ k. retrigger-IsBooting s.state s.live))
      (λ h. (r, λ k. refl, λ k. absurd cc))

-- However the invoker and the steps beside it change the world: the caller gets exactly the error of
-- the one call. Where the call leaves the manager in a state that its steps reach, so does the
-- interceptor; it changes that state only where the call failed with Unavailable, DeadlineExceeded or
-- ResourceExhausted, and then the process is booting.
pub unary_recovery-IsMended :
    {W : Type 0} (call : W × System → Option Error × (W × System)) (v : W × System)
    → Reachable (call v).1.1
    → ((unary_recovery true call v).0 ≡ (call v).0)
      × ((unary_recovery true call v).1.0 ≡ (call v).1.0)
      × IsMended (call v).0 (call v).1.1 (unary_recovery true call v).1.1
unfolding unary_recovery
unary_recovery-IsMended call v r = (refl, refl, after_call-IsMended (call v).0 (call v).1.1 r)
