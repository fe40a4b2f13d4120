-- ===== src/Usage/Period.antt =====
-- `observePeriodConsumption` of period-consumption.mjs: the consumption of a period by its roll-ups,
-- and whether every window of the period is there. A document here has a completeness and totals.
use azure_llm_governance_api.Prelude.{
  is_positive, ℕ, zero, suc, ◌+◌, ◌-◌, ◌*◌, ◌/◌, ◌%◌, String, ◌<>◌, Bool, true, false, not, ◌&&◌,
  Option, none, some, List, [], ◌∷◌, str_eq, leb, ltb, ◌==◌, if◌then◌else◌, is_none, or_default,
  any, keep, find, length, Reply, done, thrown, type_error, ensure, ◌>>◌, ◌>>=◌,
}
use azure_llm_governance_api.Prelude.Lists.{sort_by}
use azure_llm_governance_api.Prelude.Sets.{contains}
use azure_llm_governance_api.Prelude.Time.{Instant, is_instant, ms}
use azure_llm_governance_api.Usage.{same_option}

pub record ModelUse : Type 0 where
  pub model : String
  pub total_tokens : Option ℕ

pub record Rollup : Type 0 where
  pub grain : String
  pub grain_key : Option String
  pub window_start : Instant
  pub window_end : Instant
  pub completeness_state : String
  pub total_tokens : ℕ
  pub by_model : Option (List ModelUse)

pub record Selector : Type 0 where
  pub scope : String
  pub scope_key : Option String
  pub model_scope : Option String
  pub model_key : Option String

pub record Span : Type 0 where
  pub period_start : Instant
  pub period_end : Instant
  pub window_seconds : ℕ

pub record Consumption : Type 0 where
  pub scope : String
  pub scope_key : Option String
  pub consumed_tokens : ℕ
  pub completeness : String
  pub completeness_reason : Option String
  pub windows_expected : ℕ
  pub windows_covered : ℕ
  pub windows_missing : ℕ
  pub covered_windows : Option (List Rollup)
  pub missing_windows : Option (List ℕ)
  pub latest_closed_window : Option Rollup

-- `covered`: the last document of each window, in the order of the first.
abbrev pub Covered : Type 0
Covered = List (ℕ × Rollup)

abbrev pub lookup : ℕ → Covered → Option Rollup
lookup t [] = none
lookup t ((u, d) ∷ m) = if u == t then some d else lookup t m

unfoldable pub insert : ℕ → Rollup → Covered → Covered
insert t d [] = (t, d) ∷ []
insert t d ((u, e) ∷ m) = if u == t then (u, d) ∷ m else (u, e) ∷ insert t d m

abbrev pub windows : Covered → List Rollup
windows [] = []
windows ((t, d) ∷ m) = d ∷ windows m

-- The length of a window in milliseconds.
abbrev pub size : Span → ℕ
size p = p.window_seconds * 1000

abbrev pub max_explicit_windows : ℕ
max_explicit_windows = 744

-- A document of a selector's key that starts within the period.
unfoldable pub is_selected : String → Option String → Rollup → Bool
is_selected grain key d = str_eq d.grain grain && same_option d.grain_key key

unfoldable pub is_inside : Span → ℕ → Bool
is_inside p t = leb (ms p.period_start) t && ltb t (ms p.period_end)

ends_at : Instant → ℕ → Bool
ends_at none t = false
ends_at (some u) t = u == t

unfoldable pub is_aligned : Span → ℕ → Rollup → Bool
unfolding ends_at
is_aligned p t d = (t - ms p.period_start) % size p == 0 && ends_at d.window_end (t + size p)

-- `Number.isFinite(Date.parse(windowStart))`
unfoldable pub cover_at : Span → Rollup → Instant → Covered → Reply ⊥ Covered
unfolding is_inside is_aligned insert
cover_at p d none covered = thrown (type_error "A selected rollup must have a valid windowStart.")
cover_at p d (some t) covered =
    if not (is_inside p t)
    then done covered
    else ensure (is_aligned p t d)
        "A selected rollup must align to one complete observation window."
      >> done (insert t d covered)

unfoldable pub cover_all : Span → String → Option String → List Rollup → Covered → Reply ⊥ Covered
unfolding is_selected cover_at
cover_all p grain key [] covered = done covered
cover_all p grain key (d ∷ ds) covered =
    (if is_selected grain key d then cover_at p d d.window_start covered else done covered)
    >>= cover_all p grain key ds

model_tokens : Option ModelUse → Reply ⊥ ℕ
model_tokens none = done 0
model_tokens (some u) = elim u.total_tokens [
  | none ↦ thrown (type_error "Model totalTokens must be a non-negative integer.")
  | some n ↦ done n
]

-- The tokens that one document adds.
unfoldable pub tokens_of : Bool → Option String → Rollup → Reply ⊥ ℕ
unfolding model_tokens
tokens_of all_models key d = if all_models then done d.total_tokens else elim d.by_model [
  | none ↦ thrown (type_error "A per-model observation requires rollup byModel data.")
  | some uses ↦ model_tokens (find (λ u. same_option (some u.model) key) uses)
]

unfoldable pub sum_tokens : Bool → Option String → List Rollup → ℕ → Reply ⊥ ℕ
unfolding tokens_of
sum_tokens all_models key [] total = done total
sum_tokens all_models key (d ∷ ds) total =
    tokens_of all_models key d >>= λ n. sum_tokens all_models key ds (total + n)

unfoldable pub is_complete : Rollup → Bool
is_complete d = str_eq d.completeness_state "complete"

unfoldable pub completeness_reason_of : ℕ → List Rollup → Option String
unfolding is_complete
completeness_reason_of missing [] = some "aggregate-missing"
completeness_reason_of missing (d ∷ ds) =
    if ltb 0 missing
    then some "window-missing"
    else if any (λ e. not (is_complete e)) (d ∷ ds)
    then some "window-incomplete"
    else none

-- `Array.from({ length: expected }, …)` from the window `index` on.
starts_from : ℕ → ℕ → ℕ → ℕ → List ℕ
starts_from start width index zero = []
starts_from start width index (suc n) =
    (start + index * width) ∷ starts_from start width (suc index) n

last_of : List Rollup → Option Rollup
last_of [] = none
last_of (d ∷ []) = some d
last_of (d ∷ e ∷ ds) = last_of (e ∷ ds)

unfoldable pub assert_selector : Selector → Reply ⊥ Unit
assert_selector s = do
  ensure (contains s.scope ("organization" ∷ "team" ∷ "subject" ∷ "application" ∷ []))
      ("scope '" <> s.scope <> "' is unsupported.")
  ensure (contains (or_default s.model_scope "all-models") ("all-models" ∷ "per-model" ∷ []))
      "modelScope is unsupported."
  ensure
      (not (
        str_eq (or_default s.model_scope "all-models") "per-model"
        && str_eq (or_default s.model_key "") ""))
      "A per-model observation must name its modelKey."
  ensure
      (not
        (str_eq (or_default s.model_scope "all-models") "all-models" && not (is_none s.model_key)))
      "An all-models observation cannot name a modelKey."

abbrev pub expected_windows : Span → ℕ
expected_windows p = (ms p.period_end - ms p.period_start) / size p

unfoldable pub consumption : Span → Selector → Covered → ℕ → Consumption
unfolding completeness_reason_of starts_from last_of is_complete
consumption p s covered consumed =
    let expected = expected_windows p in
    let ordered = sort_by (λ d e. ltb (ms d.window_start) (ms e.window_start)) (windows covered) in
    let missing = expected - length covered in
    let reason = completeness_reason_of missing (windows covered) in
    let explicit = leb expected max_explicit_windows in
    record {
      scope = s.scope;
      scope_key = s.scope_key;
      consumed_tokens = consumed;
      completeness = if is_none reason then "complete" else "partial";
      completeness_reason = reason;
      windows_expected = expected;
      windows_covered = length covered;
      windows_missing = missing;
      covered_windows = if explicit then some ordered else none;
      missing_windows =
          if explicit
          then some (
              keep (λ t. is_none (lookup t covered))
                (starts_from (ms p.period_start) (size p) 0 expected))
          else none;
      latest_closed_window = last_of (keep is_complete ordered);
    }

unfoldable pub observe_scope : Span → List Rollup → Selector → Reply ⊥ Consumption
unfolding assert_selector cover_all sum_tokens consumption
observe_scope p rollups s = do
  assert_selector s
  covered ← cover_all p s.scope s.scope_key rollups []
  consumed ←
      sum_tokens (str_eq (or_default s.model_scope "all-models") "all-models") s.model_key
        (windows covered) 0
  done (consumption p s covered consumed)

unfoldable pub observe_scopes : Span → List Rollup → List Selector → Reply ⊥ (List Consumption)
unfolding observe_scope
observe_scopes p rollups [] = done []
observe_scopes p rollups (s ∷ ss) = do
  o ← observe_scope p rollups s
  os ← observe_scopes p rollups ss
  done (o ∷ os)

unfoldable pub assert_span : Span → Reply ⊥ Unit
assert_span p = do
  ensure (is_instant p.period_start) "periodStart must be an ISO-8601 instant."
  ensure (is_instant p.period_end) "periodEnd must be an ISO-8601 instant."
  ensure (is_positive p.window_seconds) "windowSeconds must be a positive integer."

unfoldable pub assert_division : Span → Reply ⊥ Unit
assert_division p = do
  ensure (ltb (ms p.period_start) (ms p.period_end)) "periodEnd must follow periodStart."
  ensure ((ms p.period_end - ms p.period_start) % size p == 0)
      "The period must divide into whole windows."

unfoldable pub has_some : List Selector → Bool
has_some [] = false
has_some (_ ∷ _) = true

unfoldable pub observe_period_consumption :
    Span → List Rollup → List Selector → Reply ⊥ (List Consumption)
unfolding assert_span has_some assert_division observe_scopes
observe_period_consumption p rollups scopes = do
  assert_span p
  ensure (has_some scopes) "scopes must name at least one scope."
  assert_division p
  observe_scopes p rollups scopes
