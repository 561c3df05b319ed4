-- ===== src/Obs/Laws.antt =====
-- What reaches the inner handler.
use rune_mcp.Prelude.{◌≡◌, refl}
use rune_mcp.Prelude.Text.{Text}
use rune_mcp.Obs.{Attrs, Record, Value, handled_record, redact, redact_attrs, redact_value}

abbrev pub IsRedacted : (Text → Text → (Text → Text) → Text) → Text → Type 0
IsRedacted replace_all_func s = (t : Text) × (s ≡ redact replace_all_func t)

module _ (replace_all_func : Text → Text → (Text → Text) → Text) {A : Type 0} where
  mutual
    -- Each string, at any depth, is redacted; only what is no string is passed on as it is.
    pub data Scrubbed : Value A → Type 0 where
      a_string : {s : Text} → IsRedacted replace_all_func s → Scrubbed (Value.string s)
      a_scalar : (a : A) → Scrubbed (Value.scalar a)
      an_any : (a : A) → Scrubbed (Value.plain_any a)
      a_broken : (a : A) → Scrubbed (Value.broken_stringer a)
      a_group : {more : Attrs A} → ScrubbedAttrs more → Scrubbed (Value.group more)

    pub data ScrubbedAttrs : Attrs A → Type 0 where
      no_more : ScrubbedAttrs Attrs.no_attrs
      and_more :
          (k : Text) {v : Value A} {more : Attrs A}
          → Scrubbed v
          → ScrubbedAttrs more
          → ScrubbedAttrs (Attrs.attr k v more)

  mutual
    unfolding redact_value

    scrub_value : (v : Value A) → Scrubbed (redact_value replace_all_func v)
    scrub_value (Value.string s) = Scrubbed.a_string (s, refl)
    scrub_value (Value.scalar a) = Scrubbed.a_scalar a
    scrub_value (Value.group more) = Scrubbed.a_group (scrub_attrs more)
    scrub_value (Value.log_valuer v) = scrub_value v
    scrub_value (Value.plain_any a) = Scrubbed.an_any a
    scrub_value (Value.stringer s a) = Scrubbed.a_string (s, refl)
    scrub_value (Value.broken_stringer a) = Scrubbed.a_broken a

    scrub_attrs : (more : Attrs A) → ScrubbedAttrs (redact_attrs replace_all_func more)
    scrub_attrs Attrs.no_attrs = ScrubbedAttrs.no_more
    scrub_attrs (Attrs.attr k v more) = ScrubbedAttrs.and_more k (scrub_value v) (scrub_attrs more)

  -- Whatever is logged: its message is redacted, and so is every string among its attributes, at any depth
  -- of groups and behind LogValuers and Stringers; what is passed on as it is are values that are no
  -- strings: scalars, values without a String method, and those whose String method panics.
  pub handled_record-IsScrubbed :
      (r : Record A)
      → IsRedacted replace_all_func (handled_record replace_all_func r).message
        × ScrubbedAttrs (handled_record replace_all_func r).attrs
  unfolding handled_record
  handled_record-IsScrubbed r = ((r.message, refl), scrub_attrs r.attrs)
