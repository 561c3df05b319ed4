-- ===== src/Lifecycle/Classify/Hints.antt =====
-- internal/lifecycle/boot_classify.go: the kinds, and the classifiers of config and TLS errors. A switch
-- is the list of its cases, each with its test.
use rune_mcp.Prelude.{
  ℕ, Bool, true, false, ◌&&◌, ◌||◌, Option, none, some, List, [], ◌∷◌, ◌++◌, if◌then◌else◌,
}
use rune_mcp.Prelude.Text.{Text, Unicode, codes, contains, is_empty, to_lower}
use rune_mcp.Domain.Errors.{Error, GrpcCode, error_text}
use rune_mcp.Lifecycle.Boot.{BootPhase}

pub data BootErrorKind : Type 0 where
  unknown config_missing config_invalid config_parse user_deactivated : BootErrorKind
  vault_not_configured vault_bad_endpoint vault_ca_file vault_dial_opts : BootErrorKind
  vault_tls_handshake vault_tls_hostname vault_dns vault_network vault_timeout : BootErrorKind
  vault_auth vault_permission vault_rate_limit vault_invalid_input : BootErrorKind
  vault_manifest vault_internal embedder_unreachable envector_init : BootErrorKind
  envector_index key_save local_io : BootErrorKind

pub record BootErrCtx : Type 0 where
  pub phase : BootPhase
  pub vault_endpoint : Text
  pub vault_ca_path : Text
  pub attempts : ℕ

-- What errors.Is and errors.As find in the chain of an error for the types of io/fs, crypto/x509, net
-- and net/url, with the messages that are shown; `%q` of fmt, and the names of the gRPC codes.
pub record Chain : Type 0 where
  pub is_not_exist : Error → Bool
  pub has_path_error : Error → Bool
  pub has_unknown_authority : Error → Bool
  pub has_hostname_error : Error → Bool
  pub has_certificate_invalid : Error → Bool
  pub dns_error : Error → Option Text
  pub op_error : Error → Option (Text × Text)
  pub url_error : Error → Option Text
  pub quote : Text → Text
  pub code_name : GrpcCode → Text
  pub unicode : Unicode

abbrev pub Hint : Type 0
Hint = BootErrorKind × Text

abbrev pub first_case : List (Bool × Hint) → Option Hint
first_case [] = none
first_case ((true, h) ∷ cs) = some h
first_case ((false, h) ∷ cs) = first_case cs

-- A switch with a default.
abbrev pub case_or : List (Bool × Hint) → Hint → Hint
case_or [] d = d
case_or ((true, h) ∷ cs) d = h
case_or ((false, h) ∷ cs) d = case_or cs d

abbrev pub is_config_load : BootPhase → Bool
is_config_load BootPhase.config_load = true
is_config_load _ = false

-- strings.Contains(strings.ToLower(err.Error()), s)
abbrev pub says : Chain → Error → Text → Bool
says ch e s = contains (to_lower ⦃u = ch.unicode⦄ (error_text e)) s

abbrev pub config_cases : Chain → Error → BootErrCtx → List (Bool × Hint)
config_cases ch e c =
    (
      ch.is_not_exist e && is_config_load c.phase,
      (
        BootErrorKind.config_missing,
        codes "~/.rune/config.json not found. Run /rune:configure to set up.",
      ),
    )
    ∷ (
      is_config_load c.phase && says ch e (codes "unmarshal"),
      (
        BootErrorKind.config_parse,
        codes "~/.rune/config.json is not valid JSON. Edit or re-run /rune:configure.",
      ),
    )
    ∷ []

unfoldable pub classify_config_err : Chain → Error → BootErrCtx → Option Hint
classify_config_err ch e c = first_case (config_cases ch e c)

abbrev or_text : Text → Text → Text
or_text s d = if is_empty s then d else s

abbrev pub tls_ca_mismatch_hint : BootErrCtx → Text
tls_ca_mismatch_hint c =
    codes "Vault server's certificate is not signed by the CA at "
    ++ (or_text c.vault_ca_path (codes "(no CA cert configured)")
        ++ (codes
              ". The CA may have been regenerated on the server side (same CN, different keypair) and the local CA is stale. Re-fetch the current CA from "
            ++ (or_text c.vault_endpoint (codes "the Vault server")
                ++ codes " admin and replace ~/.rune/certs/ca.pem.")))

-- The string fallback: what a TLS message without a typed error says.
abbrev pub tls_message_cases : Chain → Error → BootErrCtx → List (Bool × Hint)
tls_message_cases ch e c =
    (
      says ch e (codes "signed by unknown authority")
          || says ch e (codes "unable to verify")
          || says ch e (codes "unknown ca"),
      (BootErrorKind.vault_tls_handshake, tls_ca_mismatch_hint c),
    )
    ∷ (
      says ch e (codes "is valid for")
          || says ch e (codes "not valid for")
          || says ch e (codes "doesn't contain any ip sans")
          || says ch e (codes "san"),
      (
        BootErrorKind.vault_tls_hostname,
        codes "Vault server cert does not match the endpoint "
            ++ (ch.quote c.vault_endpoint
                ++ codes
                    ". Either use a different endpoint or re-issue the cert with the right SAN."),
      ),
    )
    ∷ (
      says ch e (codes "expired") || says ch e (codes "not yet valid"),
      (
        BootErrorKind.vault_tls_handshake,
        codes "Vault server cert is expired or not yet valid. Re-issue the cert.",
      ),
    )
    ∷ []

abbrev pub tls_message_hint : Chain → Error → BootErrCtx → Hint
tls_message_hint ch e c = case_or (tls_message_cases ch e c) (
  BootErrorKind.vault_tls_handshake,
  codes
      "TLS handshake with Vault failed. Detail field contains specifics — share with your Vault admin.",
)

abbrev pub tls_cases : Chain → Error → BootErrCtx → List (Bool × Hint)
tls_cases ch e c =
    (
      ch.has_path_error e && says ch e (codes "ca cert"),
      (
        BootErrorKind.vault_ca_file,
        codes "CA cert file "
            ++ (ch.quote c.vault_ca_path
                ++ codes " could not be opened. Check the path in ~/.rune/config.json."),
      ),
    )
    ∷ (ch.has_unknown_authority e, (BootErrorKind.vault_tls_handshake, tls_ca_mismatch_hint c))
    ∷ (
      ch.has_hostname_error e,
      (
        BootErrorKind.vault_tls_hostname,
        codes "Vault server cert does not include "
            ++ (ch.quote c.vault_endpoint
                ++ codes
                    " in its SAN. Use an endpoint that matches the cert, or re-issue the cert with the right SAN."),
      ),
    )
    ∷ (
      ch.has_certificate_invalid e,
      (
        BootErrorKind.vault_tls_handshake,
        codes
            "Vault server cert is not valid (expired, not yet valid, or malformed). Re-issue the cert.",
      ),
    )
    ∷ (
      says ch e (codes "tls:")
          || says ch e (codes "x509:")
          || says ch e (codes "authentication handshake failed"),
      tls_message_hint ch e c,
    )
    ∷ []

unfoldable pub classify_tls_err : Chain → Error → BootErrCtx → Option Hint
classify_tls_err ch e c = first_case (tls_cases ch e c)
