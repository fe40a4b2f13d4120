-- ===== src/Fallback/Authored.antt =====
-- What fallback-plan-edit.mjs makes of one plan, and its comparisons.
-- The keys that a call may name are options, with the names that may not be there in a list of their
-- own, and a list of hops is one. The team catalogue is the list of its keys. A
-- `FallbackEditRefusedError` is a refusal: its code and its detail, with an empty list for `null`.
use azure_llm_governance_api.Prelude.{
  suc, String, Bool, true, false, not, ◌&&◌, ◌||◌, Option, none, some, List, [], ◌∷◌, str_eq,
  is_none, or_default,
}
use azure_llm_governance_api.Prelude.Time.{Instant}
use azure_llm_governance_api.Prelude.Lists.{sort_by}
use azure_llm_governance_api.Fallback.{Edge, Party, Plan}
use azure_llm_governance_api.Fallback.Compile.{Comparison, less, same, greater, Registry}
use azure_llm_governance_api.Budget.Snapshot.{precedes}

pub record Refusal : Type 0 where
  pub code : String
  pub detail : List String

abbrev pub refusal : String → List String → Refusal
refusal code detail = record { code = code; detail = detail }

pub record PlanChanges : Type 0 where
  pub enabled : Option Bool
  pub model_selection_intent : Option String
  pub substitution_notice : Option String
  pub state : Option String
  pub edges : Option (List Edge)
  pub unknown : List String

pub record Draft : Type 0 where
  pub plan_id : String
  pub target : Party
  pub edges : List Edge
  pub enabled : Option Bool
  pub model_selection_intent : Option String
  pub substitution_notice : Option String
  pub unknown : List String

-- What an addition knows besides the snapshot and the draft.
pub record Authoring : Type 0 where
  pub registry : Registry
  pub team_catalog : List String
  pub issued_by : Party

unfoldable pub has_plan_id : String → Plan → Bool
has_plan_id id p = str_eq p.plan_id id

unfoldable pub same_key : Option String → Option String → Bool
same_key none none = true
same_key (some a) (some b) = str_eq a b
same_key _ _ = false

unfoldable pub same_target : Party → Party → Bool
unfolding same_key
same_target a b = str_eq a.kind b.kind && same_key a.key b.key

module _ (compare : String → String → Comparison) where
  edge_before : Edge → Edge → Bool
  edge_before a b = elim (compare a.from b.from) [
    | less ↦ true
    | same ↦ precedes compare a.to b.to
    | greater ↦ false
  ]

  unfoldable pub canonical_edges : List Edge → List Edge
  unfolding edge_before
  canonical_edges edges = sort_by edge_before edges

same_edges : List Edge → List Edge → Bool
same_edges [] [] = true
same_edges (a ∷ xs) (b ∷ ys) = str_eq a.from b.from && str_eq a.to b.to && same_edges xs ys
same_edges _ _ = false

same_flag : Bool → Bool → Bool
same_flag true b = b
same_flag false b = not b

unfoldable pub is_inline : Option String → Bool
is_inline none = false
is_inline (some notice) = str_eq notice "inline"

unfoldable pub is_preferred : Option String → Bool
is_preferred none = false
is_preferred (some intent) = str_eq intent "preferred"

-- An inline notice, and no preferred model.
unfoldable pub promises_in_vain : Plan → Bool
unfolding is_inline is_preferred
promises_in_vain p = is_inline p.substitution_notice && not (is_preferred p.model_selection_intent)

unfoldable pub created : (String → String → Comparison) → Draft → Authoring → Instant → Plan
unfolding canonical_edges
created compare d a at = record {
  plan_id = d.plan_id;
  plan_version = 1;
  state = "active";
  target = d.target;
  enabled = or_default d.enabled false;
  edges = canonical_edges compare d.edges;
  valid_from = at;
  valid_until = none;
  issued_by = a.issued_by;
  reason_code = "fallback-plan-created";
  on_exhausted = none;
  model_selection_intent = some (or_default d.model_selection_intent "pinned");
  substitution_notice = some (or_default d.substitution_notice "header");
}

either : Option String → Option String → Option String
either none k = k
either (some k) _ = some k

changed_edges : (String → String → Comparison) → Option (List Edge) → List Edge → List Edge
unfolding canonical_edges
changed_edges compare none edges = edges
changed_edges compare (some new) edges = canonical_edges compare new

unfoldable pub edited : (String → String → Comparison) → Plan → PlanChanges → Plan
unfolding changed_edges either
edited compare p c = record {
  plan_id = p.plan_id;
  plan_version = suc p.plan_version;
  state = or_default c.state p.state;
  target = p.target;
  enabled = or_default c.enabled p.enabled;
  edges = changed_edges compare c.edges p.edges;
  valid_from = p.valid_from;
  valid_until = p.valid_until;
  issued_by = p.issued_by;
  reason_code = p.reason_code;
  on_exhausted = p.on_exhausted;
  model_selection_intent = either c.model_selection_intent p.model_selection_intent;
  substitution_notice = either c.substitution_notice p.substitution_notice;
}

unfoldable pub no_keys : PlanChanges → Bool
no_keys c =
    is_none c.enabled
    && is_none c.model_selection_intent
    && is_none c.substitution_notice
    && is_none c.state
    && is_none c.edges

-- `Object.keys(changes).every((key) => sameEditableValue(key, target[key], edited[key]))`
unfoldable pub all_same : (String → String → Comparison) → Plan → Plan → PlanChanges → Bool
unfolding same_flag same_key same_edges canonical_edges
all_same compare before after c =
    (is_none c.enabled || same_flag before.enabled after.enabled)
    && (is_none c.model_selection_intent
        || same_key before.model_selection_intent after.model_selection_intent)
    && (is_none c.substitution_notice
        || same_key before.substitution_notice after.substitution_notice)
    && (is_none c.state || str_eq before.state after.state)
    && (is_none c.edges
        || same_edges (canonical_edges compare before.edges) (canonical_edges compare after.edges))
