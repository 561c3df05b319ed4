-- ===== src/Obs.antt =====
-- internal/obs/slog.go: the redaction of what is logged. A `slog` value is a tree.
pub mod Laws
use rune_mcp.Prelude.{ℕ, ◌-◌, Bool, Option, none, some, List, [], ◌∷◌, ◌++◌, leb, if◌then◌else◌}
use rune_mcp.Prelude.Text.{Text, byte_len, codes, width}

abbrev pub sensitive_patterns : List Text
sensitive_patterns =
    codes "(sk-|pk-|api_|envector_|evt_)[a-zA-Z0-9_-]{10,}"
    ∷ codes "(?i)\\b(token|key|secret|password)[\"\\s:=]+[a-zA-Z0-9_-]{20,}"
    ∷ []

-- `m[:n]`, where it does not cut a rune.
unfoldable pub take_bytes : ℕ → Text → Text
take_bytes n [] = []
take_bytes n (c ∷ s) =
    let rest = take_bytes (n - width c) s in if leb (width c) n then c ∷ rest else []

unfoldable pub mask : Text → Text
unfolding take_bytes
mask m = if leb (byte_len m) 8 then codes "***" else take_bytes 8 m ++ codes "***"

mutual
  -- slog.Value. A LogValuer is given with what it resolves to; a value of kind Any (`A`) with what its
  -- String method returns, if it has one, unless that panics.
  pub data Value (A : Type 0) : Type 0 where
    string : Text → Value A
    scalar : A → Value A
    group : Attrs A → Value A
    log_valuer : Value A → Value A
    plain_any : A → Value A
    stringer : Text → A → Value A
    broken_stringer : A → Value A

  pub data Attrs (A : Type 0) : Type 0 where
    no_attrs : Attrs A
    attr : Text → Value A → Attrs A → Attrs A

pub record Record (A : Type 0) : Type 0 where
  pub message : Text
  pub attrs : Attrs A

-- Regexp.ReplaceAllStringFunc, of a pattern.
module _ (replace_all_func : Text → Text → (Text → Text) → Text) where
  unfoldable pub redact_with : List Text → Text → Text
  redact_with [] s = s
  redact_with (p ∷ ps) s = redact_with ps (replace_all_func p s mask)

  unfoldable pub redact : Text → Text
  unfolding redact_with mask
  redact s = redact_with sensitive_patterns s

  module _ {A : Type 0} where
    unfoldable mutual
      unfolding redact

      -- redactAttr, of the attribute's value.
      pub redact_value : Value A → Value A
      redact_value (Value.string s) = Value.string (redact s)
      redact_value (Value.scalar a) = Value.scalar a
      redact_value (Value.group more) = Value.group (redact_attrs more)
      redact_value (Value.log_valuer v) = redact_value v
      redact_value (Value.plain_any a) = Value.plain_any a
      redact_value (Value.stringer s a) = Value.string (redact s)
      redact_value (Value.broken_stringer a) = Value.broken_stringer a

      pub redact_attrs : Attrs A → Attrs A
      redact_attrs Attrs.no_attrs = Attrs.no_attrs
      redact_attrs (Attrs.attr k v more) = Attrs.attr k (redact_value v) (redact_attrs more)

    -- What Handle forwards to the inner handler.
    unfoldable pub handled_record : Record A → Record A
    unfolding redact_value redact
    handled_record r = record { message = redact r.message; attrs = redact_attrs r.attrs }
