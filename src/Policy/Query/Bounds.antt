-- ===== src/Policy/Query/Bounds.antt =====
-- What a parsed query promises of its parts.
use rune_mcp.Prelude.{
  ℕ, ◌≤◌, ◌<◌, true, false, List, [], ◌∷◌, ◌≡◌, refl, All, All-append, All-keep_test, All-take,
  arith, leb, length, length-take, take, get_elem?, some, if-elim,
}
use rune_mcp.Prelude.Permuted.{AllPairs, AllPairs-snoc, AllPairs-take}
use rune_mcp.Prelude.Seen.{All-first_seen, first_seen, first_seen-AllPairs, member-All}
use rune_mcp.Prelude.Text.{Text, Unicode, byte_len, member, teq, to_lower}
use rune_mcp.Domain.Query.{ParsedQuery, QueryIntent}
use rune_mcp.Policy.Query.{
  add_all, add_unique, all_entities, all_expansions, clean_query, extract_entities,
  extract_keywords, generate_expansions, is_keyword, parse, phrase_texts, quoted_texts, tech_texts,
}
use rune_mcp.Policy.Regexp.{Regexp}

abbrev pub Different : Text → Text → Type 0
Different s t = teq s t ≡ false

-- An entity is longer than a byte.
abbrev pub IsLong : Text → Type 0
IsLong s = 1 < byte_len s

abbrev AreEntities : List Text → Type 0
AreEntities es = All IsLong es × AllPairs Different es

add_unique-AreEntities :
    (es : List Text) (e : Text) → AreEntities es → AreEntities (add_unique es e)
unfolding add_unique
add_unique-AreEntities es e (long, apart) =
    if-elim AreEntities (leb (byte_len e) 1) (λ _. (long, apart))
      λ more.
        if-elim AreEntities (member e es) (λ _. (long, apart))
          λ new. (
            All-append IsLong es (e ∷ []) long (ground arith, tt),
            AllPairs-snoc Different es e apart (member-All e es new),
          )

add_all-AreEntities :
    (es : List Text) (new : List Text) → AreEntities es → AreEntities (add_all es new)
unfolding add_all
add_all-AreEntities es [] h = h
add_all-AreEntities es (e ∷ new) h =
    add_all-AreEntities (add_unique es e) new (add_unique-AreEntities es e h)

module _ ⦃u : Unicode⦄ ⦃rx : Regexp⦄ where
  abbrev pub IsKeyword : Text → Type 0
  IsKeyword w = is_keyword w ≡ true

  abbrev pub DifferentLower : Text → Text → Type 0
  DifferentLower s t = teq (to_lower s) (to_lower t) ≡ false

  abbrev pub IsBoundedQuery : ParsedQuery → Type 0
  IsBoundedQuery p =
      ((length p.entities ≤ 10) × AreEntities p.entities)
      × ((length p.keywords ≤ 15) × All IsKeyword p.keywords × AllPairs Different p.keywords)
      × ((length p.expanded_queries ≤ 5)
          × (get_elem? p.expanded_queries 0 ≡ some p.cleaned)
          × AllPairs DifferentLower p.expanded_queries)

  length-take_le : (n : ℕ) (xs : List Text) → length (take n xs) ≤ n
  length-take_le n xs = omega (arith, length-take n xs)

  all_entities-AreEntities : (q : Text) → AreEntities (all_entities q)
  unfolding all_entities
  all_entities-AreEntities q =
      let quotes = add_all-AreEntities [] (quoted_texts q) (tt, tt) in
      let more = add_all-AreEntities (add_all [] (quoted_texts q)) (phrase_texts q) quotes in
      add_all-AreEntities (add_all (add_all [] (quoted_texts q)) (phrase_texts q)) (tech_texts q)
        more

  extract_entities-bounds :
      (q : Text) → (length (extract_entities q) ≤ 10) × AreEntities (extract_entities q)
  unfolding extract_entities
  extract_entities-bounds q =
      let (long, apart) = all_entities-AreEntities q in
      (
        length-take_le 10 (all_entities q),
        (
          All-take IsLong 10 (all_entities q) long,
          AllPairs-take Different 10 (all_entities q) apart,
        ),
      )

  extract_keywords-bounds :
      (q : Text)
      → (length (extract_keywords q) ≤ 15)
        × All IsKeyword (extract_keywords q)
        × AllPairs Different (extract_keywords q)
  unfolding extract_keywords
  extract_keywords-bounds q = (
    length-take_le 15 _,
    All-take IsKeyword 15 _
        (All-first_seen (λ w. w) IsKeyword [] _ (All-keep_test IsKeyword is_keyword (λ w e. e) _)),
    AllPairs-take Different 15 _ (first_seen-AllPairs (λ w. w) [] _),
  )

  generate_expansions-bounds :
      (q : Text) (intent : QueryIntent) (entities : List Text)
      → (length (generate_expansions q intent entities) ≤ 5)
        × (get_elem? (generate_expansions q intent entities) 0 ≡ some q)
        × AllPairs DifferentLower (generate_expansions q intent entities)
  unfolding generate_expansions first_seen member
  generate_expansions-bounds q intent entities = (
    length-take_le 5 (first_seen to_lower [] (all_expansions q intent entities)),
    refl,
    AllPairs-take DifferentLower 5 (first_seen to_lower [] (all_expansions q intent entities))
        (first_seen-AllPairs to_lower [] (all_expansions q intent entities)),
  )

  -- Whatever the query and whatever the patterns match: there are at most 10 entities, longer than a
  -- byte and all different; at most 15 keywords, all different and each longer than two bytes and no
  -- stop word; and at most 5 expansions, the cleaned query first, no two equal in lower case.
  pub parse-IsBoundedQuery : (q : Text) → IsBoundedQuery (parse q)
  unfolding parse
  parse-IsBoundedQuery q = (
    extract_entities-bounds q,
    extract_keywords-bounds (clean_query q),
    generate_expansions-bounds (clean_query q) (parse q).intent (extract_entities q),
  )
