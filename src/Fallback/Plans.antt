-- ===== src/Fallback/Plans.antt =====
-- `assertPlan` and `classifyAuthoredPlan` of fallback-plan-compiler.mjs. A plan here has the fields that
-- `assertExactKeys` asks for, each of the type that the source expects.
use azure_llm_governance_api.Prelude.{
  ℕ, suc, String, ◌<>◌, Bool, true, false, not, Option, none, some, List, [], ◌∷◌, ◌++◌, str_eq,
  leb, ltb, is_positive, if◌then◌else◌, length, Reply, Error, done, refused, thrown, type_error,
  range_error, coded_error, ensure, ◌>>=◌, ◌>>◌,
}
use azure_llm_governance_api.Prelude.Text.{is_safe_id, is_alias, index_text}
use azure_llm_governance_api.Prelude.Time.{Instant, is_instant, ms}
use azure_llm_governance_api.Prelude.Sets.{contains}
use azure_llm_governance_api.Fallback.{Edge, Party, Plan}
use azure_llm_governance_api.Fallback.Cycles.{Successors, keys, assert_acyclic}

-- `if (!test) fail(message, code)`
abbrev pub ensure_coded : Bool → String → String → Reply ⊥ Unit
ensure_coded true message code = done tt
ensure_coded false message code = thrown (coded_error message code)

assert_safe_id : Option String → String → Reply ⊥ Unit
assert_safe_id none path = thrown (type_error (path <> " must be a bounded safe identifier."))
assert_safe_id (some id) path =
    ensure (is_safe_id id) (path <> " must be a bounded safe identifier.")

unfoldable pub parse_time : Instant → String → Reply ⊥ ℕ
parse_time t path = do
  ensure (is_instant t) (path <> " must be an RFC 3339 timestamp.")
  done (ms t)

is_absent : Option String → Bool
is_absent none = true
is_absent (some _) = false

assert_target : Party → String → Reply ⊥ Unit
unfolding assert_safe_id is_absent
assert_target t path = do
  ensure (contains t.kind ("global" ∷ "team" ∷ "subject" ∷ "application" ∷ []))
      (path <> ".kind is unsupported.")
  (if str_eq t.kind "global"
      then ensure (is_absent t.key) (path <> ".key must be null for a global target.")
      else assert_safe_id t.key (path <> ".key"))

assert_issuer : Party → String → Reply ⊥ Unit
unfolding assert_safe_id
assert_issuer i path = do
  ensure (contains i.kind ("subject" ∷ "system" ∷ [])) (path <> ".kind is unsupported.")
  assert_safe_id i.key (path <> ".key")

one_of : Option String → List String → String → Reply ⊥ Unit
one_of none names message = done tt
one_of (some name) names message = ensure (contains name names) message

-- `${path}.edges[${index}]`; an index is below `MAX_EDGES`.
unfoldable pub edge_path : String → ℕ → String
unfolding index_text
edge_path path n = path <> ".edges[" <> index_text n <> "]"

-- The checks of one hop, against the hops before it.
unfoldable pub assert_edge : String → Edge → Successors → Reply ⊥ Unit
assert_edge path e successors = do
  ensure (is_alias e.from) (path <> ".from must be a bounded model alias.")
  ensure (is_alias e.to) (path <> ".to must be a bounded model alias.")
  ensure_coded (not (str_eq e.from e.to)) (path <> " must not point a model at itself.")
      "authoring-self-loop"
  ensure_coded (not (contains e.from (keys successors)))
      (path <> " gives " <> e.from <> " more than one fallback target.")
      "authoring-multiple-targets"

-- `plan.edges.forEach(…)`, which fills `successors`.
unfoldable pub add_edges : String → ℕ → Successors → List Edge → Reply ⊥ Successors
unfolding edge_path assert_edge
add_edges path n successors [] = done successors
add_edges path n successors (e ∷ es) = do
  assert_edge (edge_path path n) e successors
  add_edges path (suc n) (successors ++ (e.from, e.to) ∷ []) es

abbrev pub max_edges : ℕ
max_edges = 32

assert_window : String → ℕ → Option Instant → Reply ⊥ Unit
unfolding parse_time
assert_window path from none = done tt
assert_window path from (some until) = do
  end ← parse_time until (path <> ".validUntil")
  ensure_coded (ltb from end) (path <> ".validUntil must follow validFrom.")
      "authoring-window-inverted"

-- The checks before the hops.
unfoldable pub assert_head : Plan → String → Reply ⊥ Unit
unfolding assert_safe_id assert_target one_of
assert_head p path = do
  assert_safe_id (some p.plan_id) (path <> ".planId")
  ensure (is_positive p.plan_version) (path <> ".planVersion must be a positive integer.")
  ensure (contains p.state ("active" ∷ "revoked" ∷ "expired" ∷ []))
      (path <> ".state is unsupported.")
  assert_target p.target (path <> ".target")
  one_of p.on_exhausted ("deny" ∷ "continue-with-requested" ∷ [])
      (path <> ".onExhausted must be deny or continue-with-requested.")
  one_of p.model_selection_intent ("pinned" ∷ "preferred" ∷ [])
      (path <> ".modelSelectionIntent must be pinned or preferred.")
  one_of p.substitution_notice ("header" ∷ "inline" ∷ [])
      (path <> ".substitutionNotice must be header or inline.")
  ensure_coded (leb (length p.edges) max_edges)
      (path <> ".edges must be an array of at most 32 hops.") "authoring-too-many-edges"

-- The checks after the hops.
unfoldable pub assert_tail : Plan → String → Reply ⊥ Unit
unfolding parse_time assert_window assert_issuer assert_safe_id
assert_tail p path = do
  from ← parse_time p.valid_from (path <> ".validFrom")
  assert_window path from p.valid_until
  assert_issuer p.issued_by (path <> ".issuedBy")
  assert_safe_id (some p.reason_code) (path <> ".reasonCode")

unfoldable pub assert_plan : Plan → String → Reply ⊥ Unit
unfolding assert_head add_edges assert_acyclic assert_tail
assert_plan p path = do
  assert_head p path
  successors ← add_edges path 0 [] p.edges
  assert_acyclic (path <> ".edges") successors
  assert_tail p path

abbrev pub authoring_reason_codes : List String
authoring_reason_codes =
    "authoring-cycle" ∷ "authoring-self-loop" ∷ "authoring-multiple-targets"
    ∷ "authoring-too-many-edges" ∷ "authoring-window-inverted" ∷ "authoring-malformed" ∷ []

pub record Classified : Type 0 where
  pub valid : Bool
  pub reason_code : String

unfoldable pub rejection_code : Error → String
rejection_code (type_error message) = "authoring-malformed"
rejection_code (range_error message) = "authoring-malformed"
rejection_code (coded_error message code) =
    if contains code authoring_reason_codes then code else "authoring-malformed"

unfoldable pub classify : Reply ⊥ Unit → Classified
unfolding rejection_code
classify (done _) = record { valid = true; reason_code = "authoring-accepted" }
classify (refused r) = absurd r
classify (thrown e) = record { valid = false; reason_code = rejection_code e }

unfoldable pub classify_authored_plan : Plan → Classified
unfolding classify assert_plan
classify_authored_plan p = classify (assert_plan p "plan")
