-- ===== src/Authorization/Rules.antt =====
-- The rules of the evaluator: which records apply, which scopes they open and which models and rates
-- a list of bindings leaves.
use azure_llm_governance_api.Prelude.{
  ℕ, String, Bool, true, false, not, ◌&&◌, Option, none, some, List, [], ◌∷◌, map, min, leb, ltb,
  str_eq, if◌then◌else◌, any, every, keep, Reply, done, ensure, for_each, ◌>>◌,
}
use azure_llm_governance_api.Prelude.Sets.{contains, unique, sorted_set, flat_map}
use azure_llm_governance_api.Authorization.{
  RecordState, active, Assignee, subject, application, group, Scope, global, team, Assignment,
  Target, everyone, of_team, of_subject, of_application, Limits, Binding, Group, Principal,
  TeamMapping, is_global_scope,
}

abbrev pub is_active : RecordState → Bool
is_active active = true
is_active _ = false

abbrev pub ends_after : Option ℕ → ℕ → Bool
ends_after none now = true
ends_after (some t) now = ltb now t

unfoldable pub is_active_at : RecordState → ℕ → Option ℕ → ℕ → Bool
is_active_at state from until now = is_active state && (leb from now && ends_after until now)

unfoldable pub assignment_matches : Principal → Assignee → Bool
assignment_matches p (subject k) = str_eq k p.subject_id
assignment_matches p (application k) = str_eq k p.application_id
assignment_matches p (group k) = any (λ g. g.authorization_relevant && str_eq g.group_id k) p.groups

unfoldable pub get_matching_role_assignments : Principal → List Assignment → ℕ → List Assignment
unfolding assignment_matches is_active_at
get_matching_role_assignments p assignments now =
    keep (λ a. assignment_matches p a.assignee)
      (keep (λ a. is_active_at a.state a.valid_from a.valid_until now) assignments)

-- `new Map(entries).get(group)`: the last entry of a key wins.
unfoldable pub team_by_group : List TeamMapping → String → Option String
team_by_group [] k = none
team_by_group (m ∷ ms) k =
    let later = team_by_group ms k in
    elim later [
      | some t ↦ some t
      | none ↦ if str_eq m.membership_group_id k then some m.team_key else none
    ]

-- `teamByGroup.values()`: one team for each group, in the order of the first entries.
unfoldable pub team_values : List TeamMapping → List String
team_values catalog =
    flat_map (λ k. elim (team_by_group catalog k) [ some t ↦ t ∷ [] | none ↦ [] ])
      (unique (map (λ m. m.membership_group_id) catalog))

team_of_group : List TeamMapping → Group → List String
unfolding team_by_group
team_of_group catalog g =
    if g.authorization_relevant
    then elim (team_by_group catalog g.group_id) [
      | none ↦ []
      | some t ↦ if str_eq t "" then [] else t ∷ []
    ]
    else []

unfoldable pub team_keys : List TeamMapping → List Group → List String
unfolding team_of_group
team_keys catalog groups = flat_map (team_of_group catalog) groups

is_text : String → Option String → Bool
is_text k none = false
is_text k (some t) = str_eq t k

assignment_team_ok : List TeamMapping → Assignee → Scope → Reply ⊥ Unit
unfolding team_by_group is_text team_values
assignment_team_ok catalog assignee global = done tt
assignment_team_ok catalog (group g) (team k) = do
  ensure (contains k (team_values catalog)) "Role assignment references an unknown team."
  ensure (is_text k (team_by_group catalog g))
      "Group role assignment does not match its team mapping."
assignment_team_ok catalog assignee (team k) =
    ensure (contains k (team_values catalog)) "Role assignment references an unknown team."

unfoldable pub validate_team_role_assignments : List Assignment → List TeamMapping → Reply ⊥ Unit
unfolding assignment_team_ok
validate_team_role_assignments assignments catalog =
    for_each (λ a. assignment_team_ok catalog a.assignee a.scope) assignments

unfoldable pub binding_matches : Principal → List String → Target → Bool
binding_matches p teams everyone = true
binding_matches p teams (of_team k) = contains k teams
binding_matches p teams (of_subject k) = str_eq k p.subject_id
binding_matches p teams (of_application k) = str_eq k p.application_id

pub data ReadScope : Type 0 where
  self in_team everywhere : ReadScope

-- `GOVERNANCE_ROLE_READ_SCOPES[role]`: whether it names `team`, and `global`.
reads_team : String → Bool
reads_team role = contains role (
    "team-viewer" ∷ "team-admin" ∷ "auditor" ∷ "governance-admin" ∷ "configuration-approver"
    ∷ "configuration-publisher" ∷ "platform-operator" ∷ [])

reads_global : String → Bool
reads_global role = contains role (
    "auditor" ∷ "governance-admin" ∷ "configuration-approver" ∷ "configuration-publisher"
    ∷ "platform-operator" ∷ [])

unfoldable pub resolve_read_scopes : List Assignment → List ReadScope
unfolding reads_team reads_global
resolve_read_scopes [] = []
resolve_read_scopes (a ∷ others) =
    let team_part = any (λ b. reads_team b.role_code) (a ∷ others) in
    let global_part = any (λ b. is_global_scope b.scope && reads_global b.role_code) (a ∷ others) in
    let rest = if global_part then everywhere ∷ [] else [] in
    self ∷ (if team_part then in_team ∷ rest else rest)

scope_teams : Scope → List String
scope_teams global = []
scope_teams (team k) = k ∷ []

unfoldable pub resolve_team_keys : List Assignment → List String → List String
unfolding scope_teams
resolve_team_keys assignments known =
    if any (λ a. is_global_scope a.scope) assignments
    then sorted_set known
    else sorted_set (flat_map (λ a. scope_teams a.scope) assignments)

pub record AppliedAssignment : Type 0 where
  pub assignment_id : String
  pub assignment_version : ℕ
  pub role_code : String
  pub scope : Scope

unfoldable pub project_assignments : List Assignment → List AppliedAssignment
project_assignments = map (λ a. record {
  assignment_id = a.assignment_id;
  assignment_version = a.assignment_version;
  role_code = a.role_code;
  scope = a.scope;
})

pub record AppliedBinding : Type 0 where
  pub binding_id : String
  pub binding_version : ℕ
  pub target : Target

unfoldable pub project_bindings : List Binding → List AppliedBinding
project_bindings = map (λ b. record {
  binding_id = b.binding_id;
  binding_version = b.binding_version;
  target = b.target;
})

abbrev pub is_everyone : Target → Bool
is_everyone everyone = true
is_everyone _ = false

abbrev pub is_organization : Binding → Bool
is_organization b = is_everyone b.target

abbrev pub is_grant : Binding → Bool
is_grant b = not (is_everyone b.target)

unfoldable pub ceiling : List Binding → List String
ceiling [] = []
ceiling (o ∷ os) =
    unique (keep (λ m. every (λ b. contains m b.model_allowlist) (o ∷ os)) o.model_allowlist)

unfoldable pub allowlist_of : List Binding → List Binding → List String
unfolding ceiling
allowlist_of [] grants = []
allowlist_of (o ∷ os) [] = sorted_set (ceiling (o ∷ os))
allowlist_of (o ∷ os) (g ∷ gs) = sorted_set (
    keep (λ m. contains m (ceiling (o ∷ os))) (unique (flat_map (λ b. b.model_allowlist) (g ∷ gs))))

unfoldable pub resolve_model_allowlist : List Binding → List String
unfolding allowlist_of
resolve_model_allowlist bindings =
    allowlist_of (keep is_organization bindings) (keep is_grant bindings)

-- `Math.min(...values)`, `null` where no binding sets the limit.
unfoldable pub minimum_limit : (Limits → Option ℕ) → List Binding → Option ℕ
minimum_limit name [] = none
minimum_limit name (b ∷ bs) =
    let rest = minimum_limit name bs in
    elim (name b.limits) [
      | none ↦ rest
      | some v ↦ elim rest [ none ↦ some v | some w ↦ some (min v w) ]
    ]
