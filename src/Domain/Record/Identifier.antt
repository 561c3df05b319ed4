-- ===== src/Domain/Record/Identifier.antt =====
-- Record and group identifiers of internal/domain/schema.go.
use rune_mcp.Prelude.{
  Bool, true, not, ◌&&◌, ◌||◌, [], ◌∷◌, ◌++◌, ◌≡◌, refl, take, drop, length, keep, ◌==◌,
  if◌then◌else◌,
}
use rune_mcp.Prelude.Text.{Text, Unicode, codes, is_empty, to_lower, fields, join, has_prefix}
use rune_mcp.Domain.Calendar.{Time, Calendar}
use rune_mcp.Domain.Record.{Domain, domain_text}

-- `strings.TrimPrefix(s, p)`
unfoldable pub trim_prefix : Text → Text → Text
trim_prefix s p = if has_prefix s p then drop (length p) s else s

module _ ⦃u : Unicode⦄ where
  all_alnum : Text → Bool
  all_alnum [] = true
  all_alnum (c ∷ s) = (u.is_letter c || u.is_digit c) && all_alnum s

  unfoldable pub is_py_isalnum : Text → Bool
  unfolding all_alnum
  is_py_isalnum s = not (is_empty s) && all_alnum s

  -- The word, or the word without its underscores, is alphanumeric.
  unfoldable pub is_slug_word : Text → Bool
  unfolding is_py_isalnum
  is_slug_word w = is_py_isalnum w || is_py_isalnum (keep (λ c. not (c == b'_')) w)

  unfoldable pub slug : Text → Text
  unfolding is_slug_word
  slug title = join (keep is_slug_word (take 3 (fields (to_lower title)))) (codes "_")

  module _ ⦃cal : Calendar⦄ where
    unfoldable pub generate_record_id : Time → Domain → Text → Text
    unfolding slug
    generate_record_id ts d title =
        codes "dec_" ++ (cal.date ts ++ (codes "_" ++ (domain_text d ++ (codes "_" ++ slug title))))

    unfoldable pub generate_group_id : Time → Domain → Text → Text
    unfolding generate_record_id trim_prefix
    generate_group_id ts d title =
        codes "grp_" ++ trim_prefix (generate_record_id ts d title) (codes "dec_")

    -- For every time, domain and title the group identifier is the record identifier with "grp_" in
    -- the place of "dec_": both carry the date, the domain and the slug of the title.
    pub generate_group_id-slug :
        (ts : Time) (d : Domain) (title : Text)
        → (t : Text) × (generate_record_id ts d title ≡ codes "dec_" ++ t)
          × (generate_group_id ts d title ≡ codes "grp_" ++ t)
          × (t ≡ cal.date ts ++ (codes "_" ++ (domain_text d ++ (codes "_" ++ slug title))))
    unfolding generate_group_id has_prefix codes
    generate_group_id-slug ts d title = (
      cal.date ts ++ (codes "_" ++ (domain_text d ++ (codes "_" ++ slug title))),
      refl,
      refl,
      refl,
    )
