-- ===== src/Fallback/Select.antt =====
-- `selectFallbackPlan` of fallback-plan-compiler.mjs: the one plan that governs a caller.
use azure_llm_governance_api.Prelude.{
  ℕ, String, Bool, true, false, ◌&&◌, ◌||◌, Option, none, some, List, [], ◌∷◌, str_eq, ltb,
  if◌then◌else◌,
}
use azure_llm_governance_api.Fallback.{Plan}

-- `TARGET_SPECIFICITY`
unfoldable pub specificity : String → ℕ
specificity kind =
    if str_eq kind "application"
    then 3
    else if str_eq kind "subject"
    then 2
    else if str_eq kind "team"
    then 1
    else 0

-- The keys of a caller; `none` for a key that the caller has not.
pub record Caller : Type 0 where
  pub application_id : Option String
  pub subject_id : Option String
  pub team_key : Option String

-- `keyByKind[kind]` of a kind that is not `global`.
unfoldable pub key_by_kind : Caller → String → Option String
key_by_kind c kind =
    if str_eq kind "application"
    then c.application_id
    else if str_eq kind "subject"
    then c.subject_id
    else if str_eq kind "team"
    then c.team_key
    else none

same_key : Option String → Option String → Bool
same_key (some a) (some b) = str_eq a b
same_key _ _ = false

-- What passes both `continue`s of the loop.
unfoldable pub addresses : Caller → Plan → Bool
unfolding key_by_kind same_key
addresses c p = str_eq p.target.kind "global" || same_key p.target.key (key_by_kind c p.target.kind)

-- `selected === null || TARGET_SPECIFICITY[kind] > TARGET_SPECIFICITY[selected.target.kind]`
unfoldable pub outranks : Plan → Option Plan → Bool
unfolding specificity
outranks p none = true
outranks p (some q) = ltb (specificity q.target.kind) (specificity p.target.kind)

unfoldable pub select_from : Caller → Option Plan → List Plan → Option Plan
unfolding addresses outranks
select_from c selected [] = selected
select_from c selected (p ∷ ps) =
    select_from c (if addresses c p && outranks p selected then some p else selected) ps

unfoldable pub select_fallback_plan : List Plan → Caller → Option Plan
unfolding select_from
select_fallback_plan ps c = select_from c none ps
