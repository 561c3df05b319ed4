-- ===== src/Policy/Query.antt =====
-- internal/policy/query.go: the parts of a query.
pub mod Bounds
use rune_mcp.Prelude.{
  ℕ, Bool, true, false, not, ◌&&◌, Option, none, some, List, [], ◌∷◌, ◌++◌, map, drop, get_elem?,
  keep, leb, ltb, take, String, if◌then◌else◌,
}
use rune_mcp.Prelude.Seen.{first_seen}
use rune_mcp.Prelude.Text.{
  Text, Unicode, byte_len, codes, fields, is_empty, join, member, to_lower, trim_space,
}
use rune_mcp.Domain.Query.{ParsedQuery, QueryIntent, TimeScope}
use rune_mcp.Policy.Regexp.{Regexp}

pub record IntentRule : Type 0 where
  pub intent : QueryIntent
  pub patterns : List String

pub record TimeRule : Type 0 where
  pub scope : TimeScope
  pub patterns : List String

-- Each pattern is compiled with "(?i)" in front.
abbrev pub intent_rules : List IntentRule
intent_rules =
    record {
      intent = QueryIntent.decision_rationale;
      patterns =
          "(?i)why did we (choose|decide|go with|select|pick)"
          ∷ "(?i)what was the (reasoning|rationale|logic|thinking)" ∷ "(?i)why .+ over .+"
          ∷ "(?i)what were the (reasons|factors)" ∷ "(?i)why (not|didn't we)"
          ∷ "(?i)reasoning behind" ∷ [];
    }
    ∷ record {
      intent = QueryIntent.feature_history;
      patterns =
          "(?i)(have|did) (customers?|users?) (asked|requested|wanted)" ∷ "(?i)feature request"
          ∷ "(?i)why did we (reject|say no|decline)" ∷ "(?i)(how many|which) customers"
          ∷ "(?i)customer feedback (on|about)" ∷ [];
    }
    ∷ record {
      intent = QueryIntent.pattern_lookup;
      patterns =
          "(?i)how do we (handle|deal with|approach|manage)"
          ∷ "(?i)what'?s our (approach|process|standard|convention)"
          ∷ "(?i)is there (an?|existing) (pattern|standard|convention)"
          ∷ "(?i)what'?s the (best practice|recommended way)" ∷ "(?i)how should (we|I)" ∷ [];
    }
    ∷ record {
      intent = QueryIntent.technical_context;
      patterns =
          "(?i)what'?s our (architecture|design|system) for"
          ∷ "(?i)how (does|is) .+ (implemented|built|designed)"
          ∷ "(?i)(explain|describe) (the|our) .+ (system|architecture|design)"
          ∷ "(?i)technical (details|overview) (of|for)" ∷ [];
    }
    ∷ record {
      intent = QueryIntent.security_compliance;
      patterns =
          "(?i)(security|compliance) (requirements?|considerations?)"
          ∷ "(?i)what (security|privacy) (measures|controls)"
          ∷ "(?i)(gdpr|hipaa|sox|pci) (requirements?|compliance)"
          ∷ "(?i)audit (requirements?|trail)" ∷ [];
    }
    ∷ record {
      intent = QueryIntent.historical_context;
      patterns =
          "(?i)when did we (decide|choose|implement|launch)" ∷ "(?i)(history|timeline) of"
          ∷ "(?i)(have|did) we (ever|previously)" ∷ "(?i)how long (have|has) .+ been" ∷ [];
    }
    ∷ record {
      intent = QueryIntent.attribution;
      patterns =
          "(?i)who (decided|chose|approved|owns)"
          ∷ "(?i)which (team|person|group) (is responsible|decided|owns)"
          ∷ "(?i)(owner|maintainer) of" ∷ [];
    }
    ∷ []

abbrev pub time_rules : List TimeRule
time_rules =
    record {
      scope = TimeScope.last_week;
      patterns = "(?i)last week" ∷ "(?i)this week" ∷ "(?i)past week" ∷ "(?i)7 days" ∷ [];
    }
    ∷ record {
      scope = TimeScope.last_month;
      patterns = "(?i)last month" ∷ "(?i)this month" ∷ "(?i)past month" ∷ "(?i)30 days" ∷ [];
    }
    ∷ record {
      scope = TimeScope.last_quarter;
      patterns = "(?i)last quarter" ∷ "(?i)this quarter" ∷ "(?i)Q[1-4]" ∷ "(?i)past 3 months" ∷ [];
    }
    ∷ record {
      scope = TimeScope.last_year;
      patterns = "(?i)last year" ∷ "(?i)this year" ∷ "(?i)20\\d{2}" ∷ "(?i)past year" ∷ [];
    }
    ∷ []

-- StopWords, as a text of words.
abbrev pub stop_words : Text
stop_words =
    codes "the a an is are was were be been being have has had do does did will would could "
    ++ codes "should may might must shall can need dare ought used to of in for on with at by "
    ++ codes "from up about into over after we our us i me my you your it its they them their "
    ++ codes "this that these those what which who whom when where why how and or but if because "
    ++ codes "as until while although though even just also"

abbrev tech_patterns : List String
tech_patterns =
    "(?i)\\b(PostgreSQL|MySQL|MongoDB|Redis|Elasticsearch|Kafka)\\b"
    ∷ "(?i)\\b(React|Vue|Angular|Next\\.js|Node\\.js|Python|Java|Go)\\b"
    ∷ "(?i)\\b(AWS|GCP|Azure|Kubernetes|Docker|Terraform)\\b"
    ∷ "(?i)\\b(REST|GraphQL|gRPC|WebSocket|HTTP|HTTPS)\\b" ∷ []

-- A word that starts with one of the bytes A to Z.
unfoldable pub is_capital : Text → Bool
is_capital [] = false
is_capital (c ∷ w) = leb b'A' c && leb c b'Z'

-- The capital words in front.
unfoldable pub capital_run : List Text → List Text
capital_run [] = []
capital_run (w ∷ ws) = let rest = capital_run ws in if is_capital w then w ∷ rest else []

-- The phrases of the words from one that is not the first.
unfoldable pub phrases : List Text → List Text
unfolding is_capital capital_run
phrases [] = []
phrases (w ∷ ws) =
    let rest = phrases ws in
    if is_capital w && ltb 1 (byte_len w)
    then join (w ∷ capital_run ws) (codes " ") ∷ rest
    else rest

unfoldable pub add_unique : List Text → Text → List Text
add_unique entities e =
    if leb (byte_len e) 1
    then entities
    else if member e entities
    then entities
    else entities ++ e ∷ []

unfoldable pub add_all : List Text → List Text → List Text
unfolding add_unique
add_all entities [] = entities
add_all entities (e ∷ es) = add_all (add_unique entities e) es

abbrev group_of : Option Text → Text
group_of none = []
group_of (some g) = g

-- The quoted text of a match, in double or in single quotes.
abbrev quoted : List Text → List Text
quoted m =
    let double = group_of (get_elem? m 1) in
    let single = group_of (get_elem? m 2) in
    if not (is_empty double) then double ∷ [] else if not (is_empty single) then single ∷ [] else []

abbrev quoted_all : List (List Text) → List Text
quoted_all [] = []
quoted_all (m ∷ ms) = quoted m ++ quoted_all ms

unfoldable pub intent_expansions : QueryIntent → Text → List Text
intent_expansions QueryIntent.decision_rationale q =
    (codes "decision " ++ q) ∷ (codes "rationale " ++ q) ∷ (codes "trade-off " ++ q) ∷ []
intent_expansions QueryIntent.feature_history q =
    (codes "customer request " ++ q) ∷ (codes "feature rejected " ++ q) ∷ []
intent_expansions QueryIntent.pattern_lookup q =
    (codes "standard approach " ++ q) ∷ (codes "best practice " ++ q) ∷ []
intent_expansions QueryIntent.technical_context q =
    (codes "architecture " ++ q) ∷ (codes "implementation " ++ q) ∷ []
intent_expansions _ q = []

unfoldable pub entity_expansions : List Text → List Text
entity_expansions [] = []
entity_expansions (e ∷ es) = (e ++ codes " decision") ∷ (codes "why " ++ e) ∷ entity_expansions es

module _ ⦃u : Unicode⦄ ⦃rx : Regexp⦄ where
  unfoldable pub clean_query : Text → Text
  clean_query q =
      let c = trim_space (to_lower q) in
      let c = rx.replace_all "\\s+" c (codes " ") in rx.replace_all "[.!,;:]+$" c []

  abbrev matches_any : List String → Text → Bool
  matches_any [] q = false
  matches_any (p ∷ ps) q = let rest = matches_any ps q in if rx.match_string p q then true else rest

  -- detectIntent, over the rules that are left.
  unfoldable pub intent_by : List IntentRule → Text → QueryIntent
  intent_by [] q = QueryIntent.general
  intent_by (r ∷ rs) q =
      let rest = intent_by rs q in if matches_any r.patterns q then r.intent else rest

  unfoldable pub detect_intent : Text → QueryIntent
  unfolding intent_by
  detect_intent q = intent_by intent_rules q

  unfoldable pub scope_by : List TimeRule → Text → TimeScope
  scope_by [] q = TimeScope.all_time
  scope_by (r ∷ rs) q =
      let rest = scope_by rs q in if matches_any r.patterns q then r.scope else rest

  unfoldable pub detect_time_scope : Text → TimeScope
  unfolding scope_by
  detect_time_scope q = scope_by time_rules q

  abbrev tech_words : List String → Text → List Text
  tech_words [] q = []
  tech_words (p ∷ ps) q = rx.find_all p q ++ tech_words ps q

  abbrev pub quoted_texts : Text → List Text
  quoted_texts q = quoted_all (rx.find_all_submatch "\"([^\"]+)\"|'([^']+)'" q)

  abbrev pub phrase_texts : Text → List Text
  phrase_texts q = phrases (drop 1 (fields q))

  abbrev pub tech_texts : Text → List Text
  tech_texts q = tech_words tech_patterns q

  unfoldable pub all_entities : Text → List Text
  unfolding add_all phrases
  all_entities q = add_all (add_all (add_all [] (quoted_texts q)) (phrase_texts q)) (tech_texts q)

  unfoldable pub extract_entities : Text → List Text
  unfolding all_entities
  extract_entities q = take 10 (all_entities q)

  abbrev pub is_keyword : Text → Bool
  is_keyword w = not (member w (fields stop_words)) && ltb 2 (byte_len w)

  unfoldable pub extract_keywords : Text → List Text
  extract_keywords q_lower =
      take 15 (first_seen (λ w. w) [] (keep is_keyword (rx.find_all "\\b\\w+\\b" q_lower)))

  abbrev pub all_expansions : Text → QueryIntent → List Text → List Text
  all_expansions q_lower intent entities =
      q_lower ∷ (intent_expansions intent q_lower ++ entity_expansions (take 3 entities))

  unfoldable pub generate_expansions : Text → QueryIntent → List Text → List Text
  unfolding intent_expansions entity_expansions
  generate_expansions q_lower intent entities =
      take 5 (first_seen to_lower [] (all_expansions q_lower intent entities))

  -- Parse
  unfoldable pub parse : Text → ParsedQuery
  unfolding clean_query detect_intent detect_time_scope extract_entities extract_keywords
      generate_expansions
  parse q =
      let cleaned = clean_query q in
      let intent = detect_intent cleaned in
      let entities = extract_entities q in
      record {
        original = q;
        cleaned = cleaned;
        intent = intent;
        time_scope = detect_time_scope cleaned;
        entities = entities;
        keywords = extract_keywords cleaned;
        expanded_queries = generate_expansions cleaned intent entities;
      }
