-- ===== src/Domain/Record.antt =====
-- internal/domain/schema.go: the decision record, its enums and the evidence rules.
pub mod Identifier
pub mod Consistency
use Prim.Native.Nat.{ℕ}
use rune_mcp.Prelude.{Bool, true, false, Option, none, some, List, [], ◌∷◌, if◌then◌else◌}
use rune_mcp.Prelude.Text.{Text, Unicode, codes, is_empty, to_lower, contains, trim_space}
use rune_mcp.Domain.Calendar.{Time}

pub data Domain : Type 0 where
  architecture security product exec ops design dataset hr marketing incident : Domain
  debugging qa legal finance sales customer_success research risk general : Domain

-- The string of a domain (`dataset` stands for `DomainData`).
unfoldable pub domain_text : Domain → Text
domain_text Domain.architecture = codes "architecture"
domain_text Domain.security = codes "security"
domain_text Domain.product = codes "product"
domain_text Domain.exec = codes "exec"
domain_text Domain.ops = codes "ops"
domain_text Domain.design = codes "design"
domain_text Domain.dataset = codes "data"
domain_text Domain.hr = codes "hr"
domain_text Domain.marketing = codes "marketing"
domain_text Domain.incident = codes "incident"
domain_text Domain.debugging = codes "debugging"
domain_text Domain.qa = codes "qa"
domain_text Domain.legal = codes "legal"
domain_text Domain.finance = codes "finance"
domain_text Domain.sales = codes "sales"
domain_text Domain.customer_success = codes "customer_success"
domain_text Domain.research = codes "research"
domain_text Domain.risk = codes "risk"
domain_text Domain.general = codes "general"

-- The search order of `ParseDomain`; each key is the string of its value.
abbrev pub domain_list : List Domain
domain_list =
    Domain.architecture ∷ Domain.security ∷ Domain.product ∷ Domain.exec ∷ Domain.ops
    ∷ Domain.design ∷ Domain.dataset ∷ Domain.hr ∷ Domain.marketing ∷ Domain.incident
    ∷ Domain.debugging ∷ Domain.qa ∷ Domain.legal ∷ Domain.finance ∷ Domain.sales
    ∷ Domain.customer_success ∷ Domain.research ∷ Domain.risk ∷ Domain.general ∷ []

unfoldable pub first_domain : Text → List Domain → Domain
first_domain s [] = Domain.general
first_domain s (d ∷ ds) = if contains s (domain_text d) then d else first_domain s ds

unfoldable pub parse_domain : ⦃u : Unicode⦄ → Text → Domain
unfolding first_domain
parse_domain s = if is_empty s then Domain.general else first_domain (to_lower s) domain_list

pub data Sensitivity : Type 0 where
  public internal restricted : Sensitivity

pub data Status : Type 0 where
  proposed accepted superseded reverted : Status

pub data Certainty : Type 0 where
  supported partially_supported unknown : Certainty

pub data ReviewState : Type 0 where
  unreviewed approved edited rejected : ReviewState

pub data SourceType : Type 0 where
  slack meeting doc github email notion other : SourceType

unfoldable pub sensitivity_text : Sensitivity → Text
sensitivity_text Sensitivity.public = codes "public"
sensitivity_text Sensitivity.internal = codes "internal"
sensitivity_text Sensitivity.restricted = codes "restricted"

unfoldable pub status_text : Status → Text
status_text Status.proposed = codes "proposed"
status_text Status.accepted = codes "accepted"
status_text Status.superseded = codes "superseded"
status_text Status.reverted = codes "reverted"

unfoldable pub certainty_text : Certainty → Text
certainty_text Certainty.supported = codes "supported"
certainty_text Certainty.partially_supported = codes "partially_supported"
certainty_text Certainty.unknown = codes "unknown"

unfoldable pub source_type_text : SourceType → Text
source_type_text SourceType.slack = codes "slack"
source_type_text SourceType.meeting = codes "meeting"
source_type_text SourceType.doc = codes "doc"
source_type_text SourceType.github = codes "github"
source_type_text SourceType.email = codes "email"
source_type_text SourceType.notion = codes "notion"
source_type_text SourceType.other = codes "other"

pub record SourceRef : Type 0 where
  pub source_type : SourceType
  pub url : Option Text
  pub pointer : Option Text

pub record Evidence : Type 0 where
  pub claim : Text
  pub quote : Text
  pub source : SourceRef

pub record Assumption (F : Type 0) : Type 0 where
  pub assumption : Text
  pub confidence : F

pub record Risk : Type 0 where
  pub risk : Text
  pub mitigation : Option Text

pub record DecisionDetail : Type 0 where
  pub what : Text
  pub who : List Text
  pub where_ : Text
  pub when : Text

pub record Context (F : Type 0) : Type 0 where
  pub problem : Text
  pub scope : Option Text
  pub constraints : List Text
  pub alternatives : List Text
  pub chosen : Text
  pub trade_offs : List Text
  pub assumptions : List (Assumption F)
  pub risks : List Risk

pub record Why : Type 0 where
  pub rationale_summary : Text
  pub certainty : Certainty
  pub missing_info : List Text

pub record Quality (F : Type 0) : Type 0 where
  pub scribe_confidence : F
  pub review_state : ReviewState
  pub reviewed_by : Option Text
  pub review_notes : Option Text

pub record Payload : Type 0 where
  pub format : Text
  pub text : Text

-- A link is read for its `rel` and `url` only; none is set by the builder.
pub record Link : Type 0 where
  pub rel : Option Text
  pub url : Option Text

pub record DecisionRecord (F : Type 0) : Type 0 where
  pub schema_version : Text
  pub id : Text
  pub record_type : Text
  pub domain : Domain
  pub sensitivity : Sensitivity
  pub status : Status
  pub superseded_by : Option Text
  pub timestamp : Time
  pub title : Text
  pub decision : DecisionDetail
  pub context : Context F
  pub why : Why
  pub evidence : List Evidence
  pub links : List Link
  pub tags : List Text
  pub group_id : Option Text
  pub group_type : Option Text
  pub phase_seq : Option ℕ
  pub phase_total : Option ℕ
  pub original_text : Option Text
  pub group_summary : Option Text
  pub reusable_insight : Text
  pub quality : Quality F
  pub payload : Payload

abbrev pub max_title_len : ℕ
max_title_len = 60

abbrev pub max_phases : ℕ
max_phases = 7

abbrev pub max_bundle_facets : ℕ
max_bundle_facets = 5

-- EmbeddingTextForRecord
unfoldable pub embedding_text_for_record : {F : Type 0} → DecisionRecord F → Text
embedding_text_for_record r =
    let s = trim_space r.reusable_insight in if is_empty s then r.payload.text else s
