-- ===== src/Adapters/Vault/Endpoint.antt =====
-- internal/adapters/vault/endpoint.go: NormalizeEndpoint. `url.Parse` is a parameter.
pub mod Laws
use rune_mcp.Prelude.{
  ℕ, Bool, true, false, ◌&&◌, ◌||◌, Option, none, some, [], ◌∷◌, ◌++◌, ◌==◌, if◌then◌else◌,
}
use rune_mcp.Prelude.Text.{Text, codes, has_prefix, is_empty, trim_space}
use rune_mcp.Domain.Errors.{Adapter, Error, Result, err, error_text, ok, other, panic, typed}

-- The adapter's error, which has no cause: an error without text stands for nil.
abbrev pub bad_endpoint : Text → Error
bad_endpoint message =
    typed
      (record {
        adapter = Adapter.vault;
        code = codes "VAULT_BAD_ENDPOINT";
        message = message;
        retryable = false;
      })
      (other [])

-- strings.Contains, HasPrefix and HasSuffix of one character.
unfoldable pub has_char : ℕ → Text → Bool
has_char c [] = false
has_char c (d ∷ s) = d == c || has_char c s

abbrev pub starts_with : ℕ → Text → Bool
starts_with c [] = false
starts_with c (d ∷ s) = d == c

unfoldable pub ends_with : ℕ → Text → Bool
ends_with c [] = false
ends_with c (d ∷ []) = d == c
ends_with c (d ∷ e ∷ s) = ends_with c (e ∷ s)

-- `s[strings.Index(s, c):]`, where there is a `c`.
unfoldable pub from_char : ℕ → Text → Option Text
from_char c [] = none
from_char c (d ∷ s) = let rest = from_char c s in if d == c then some (d ∷ s) else rest

-- strings.Index is -1 where there is no closing bracket: the slice panics.
abbrev pub port_after : Option Text → Result Bool
port_after none = panic
port_after (some s) = ok (has_char b':' s)

unfoldable pub has_port : Text → Result Bool
unfolding has_char from_char
has_port host =
    if starts_with b'[' host then port_after (from_char b']' host) else ok (has_char b':' host)

-- net.JoinHostPort with the default port.
abbrev pub join_host_port : Text → Text
join_host_port host =
    if has_char b':' host then b'[' ∷ (host ++ codes "]:50051") else host ++ codes ":50051"

abbrev pub with_default_port : Text → Text
with_default_port host =
    if starts_with b'[' host && ends_with b']' host
    then host ++ codes ":50051"
    else join_host_port host

abbrev pub ported : Text → Result Bool → Result Text
ported host (ok true) = ok host
ported host (ok false) = ok (with_default_port host)
ported host (err e) = err e
ported host panic = panic

abbrev pub has_scheme : Text → Bool
has_scheme raw =
    has_prefix raw (codes "tcp://")
    || (has_prefix raw (codes "http://") || has_prefix raw (codes "https://"))

abbrev pub parsed_host : Result Text → Result Text
parsed_host (ok host) = ok host
parsed_host (err e) = err (bad_endpoint (codes "parse endpoint: " ++ error_text e))
parsed_host panic = panic

-- `parse_host` is url.Parse and the Host of its answer.
module _ (parse_host : Text → Result Text) where
  abbrev pub host_of : Text → Result Text
  host_of raw = if has_scheme raw then parsed_host (parse_host raw) else ok raw

  abbrev pub normalize_host : Text → Result Text → Result Text
  normalize_host raw (ok host) =
      if is_empty host
      then err (bad_endpoint (codes "endpoint missing host: " ++ raw))
      else ported host (has_port host)
  normalize_host raw (err e) = err e
  normalize_host raw panic = panic

  abbrev pub normalize_trimmed : Text → Result Text
  normalize_trimmed raw =
      if is_empty raw
      then err (bad_endpoint (codes "endpoint is empty"))
      else normalize_host raw (host_of raw)

  unfoldable pub normalize_endpoint : Text → Result Text
  unfolding has_port
  normalize_endpoint raw = normalize_trimmed (trim_space raw)
