-- ===== src/Adapters/Vault/Endpoint/Laws.antt =====
-- The endpoints that the dial gets.
use mathlib.Core.List.{append-nil, append_assoc}
use rune_mcp.Prelude.{
  ℕ, Bool, true, false, Option, none, some, [], ◌∷◌, ◌++◌, ◌==◌, ◌≡◌, refl, ap, inl, inr,
  Bool-cases, if◌then◌else◌,
}
use rune_mcp.Prelude.Text.{Text, codes, has_prefix, is_empty, trim_space}
use rune_mcp.Domain.Errors.{Result, ok, panic}
use rune_mcp.Adapters.Vault.Endpoint.{
  ends_with, from_char, has_char, has_port, host_of, normalize_endpoint, ported, starts_with,
}

-- A name or an IPv4 address; an IPv6 literal in brackets; and one without them.
pub data HostForm : Type 0 where
  named bracketed unbracketed : Text → HostForm

-- A name has no colon and no opening bracket at its start, a literal no closing bracket inside.
abbrev pub IsForm : HostForm → Type 0
IsForm (HostForm.named n) =
    (is_empty n ≡ false) × (starts_with b'[' n ≡ false) × (has_char b':' n ≡ false)
IsForm (HostForm.bracketed s) = from_char b']' s ≡ none
IsForm (HostForm.unbracketed s) = (starts_with b'[' s ≡ false) × (has_char b':' s ≡ true)

abbrev pub port_text : Option Text → Text
port_text none = []
port_text (some port) = b':' ∷ port

-- How the host is written, with a port or without; without brackets there is no place for one.
abbrev pub written : HostForm → Option Text → Text
written (HostForm.named n) port = n ++ port_text port
written (HostForm.bracketed s) port = b'[' ∷ (s ++ b']' ∷ port_text port)
written (HostForm.unbracketed s) port = s

abbrev pub or_default_port : Option Text → Text
or_default_port none = codes "50051"
or_default_port (some port) = port

has_char-append : (c : ℕ) (s t : Text) → has_char c t ≡ true → has_char c (s ++ t) ≡ true
unfolding has_char
has_char-append c [] t h = h
has_char-append c (d ∷ s) t h = elim (Bool-cases (d == c)) [
  | inl e ↦ rw e refl
  | inr e ↦ rw e (has_char-append c s t h)
]

-- The suffix from a `]` that is the first.
from_char-append :
    (s t : Text) → from_char b']' s ≡ none → from_char b']' (s ++ b']' ∷ t) ≡ some (b']' ∷ t)
unfolding from_char
from_char-append [] t h = refl
from_char-append (d ∷ s) t h = decided (d == b']') refl (λ k. from_char-append s t k) h
  where
    decided :
        (b : Bool)
        → (d == b']') ≡ b
        → (from_char b']' s ≡ none → from_char b']' (s ++ b']' ∷ t) ≡ some (b']' ∷ t))
        → (if b then some (d ∷ s) else from_char b']' s) ≡ none
        → from_char b']' (d ∷ s ++ b']' ∷ t) ≡ some (b']' ∷ t)
    decided true e ih k = absurd cc
    decided false e ih k = rw e (ih k)

ends_with-append : (c : ℕ) (s : Text) → (c == c) ≡ true → ends_with c (s ++ c ∷ []) ≡ true
unfolding ends_with
ends_with-append c [] h = h
ends_with-append c (d ∷ []) h = h
ends_with-append c (d ∷ e ∷ s) h = ends_with-append c (e ∷ s) h

starts_with-append :
    (c : ℕ) (s t : Text) → is_empty s ≡ false → starts_with c (s ++ t) ≡ starts_with c s
starts_with-append c [] t h = absurd cc
starts_with-append c (d ∷ s) t h = refl

ported-written :
    (h : HostForm) (port : Option Text)
    → IsForm h
    → ported (written h port) (has_port (written h port))
      ≡ ok (written h (some (or_default_port port)))
unfolding has_port has_char ends_with codes
ported-written (HostForm.named n) none (full, b, c) =
    rw (append-nil n) (rw b (rw c (rw b (rw c refl))))
ported-written (HostForm.named n) (some port) (full, b, c) =
    rw (starts_with-append b'[' n (b':' ∷ port) full)
      (rw b (rw (has_char-append b':' n (b':' ∷ port) refl) refl))
ported-written (HostForm.bracketed s) none f = rw (from_char-append s [] f) (
    rw (ends_with-append b']' (b'[' ∷ s) refl)
      (ap (λ t. ok (b'[' ∷ t)) (append_assoc s (b']' ∷ []) (codes ":50051"))))
ported-written (HostForm.bracketed s) (some port) f = rw (from_char-append s (b':' ∷ port) f) refl
ported-written (HostForm.unbracketed s) port (b, c) = rw b (rw c refl)

written-is_empty :
    (h : HostForm) (port : Option Text) → IsForm h → is_empty (written h port) ≡ false
unfolding has_char
written-is_empty (HostForm.named []) port (full, b, c) = absurd cc
written-is_empty (HostForm.named (d ∷ n)) port f = refl
written-is_empty (HostForm.bracketed s) port f = refl
written-is_empty (HostForm.unbracketed []) port (b, c) = absurd cc
written-is_empty (HostForm.unbracketed (d ∷ s)) port f = refl

module _ (parse_host : Text → Result Text) where
  -- Where the host of an endpoint is a name, an IPv4 address or a bracketed IPv6 literal, the dial gets
  -- it with the port that is given, or with 50051 where none is. An IPv6 literal without brackets is
  -- taken for a host with a port: the dial gets it as it is, without a port.
  pub normalize_endpoint-written :
      (raw : Text) (h : HostForm) (port : Option Text)
      → IsForm h
      → is_empty (trim_space raw) ≡ false
      → host_of parse_host (trim_space raw) ≡ ok (written h port)
      → normalize_endpoint parse_host raw ≡ ok (written h (some (or_default_port port)))
  unfolding normalize_endpoint
  normalize_endpoint-written raw h port f full e =
      rw full (rw e (rw (written-is_empty h port f) (ported-written h port f)))

  -- An endpoint that starts with an opening bracket and has no closing one makes the function panic.
  pub normalize_endpoint-panic :
      (raw s : Text)
      → trim_space raw ≡ b'[' ∷ s
      → from_char b']' s ≡ none
      → normalize_endpoint parse_host raw ≡ panic
  unfolding normalize_endpoint has_port has_prefix codes from_char
  normalize_endpoint-panic raw s e f = rw e (rw f refl)
