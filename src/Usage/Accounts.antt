-- ===== src/Usage/Accounts.antt =====
-- A consumption accounts for every window of its period.
use mathlib.Core.List.{Memᴰ}
use mathlib.Core.List.Memᴰ
use azure_llm_governance_api.Prelude.{
  ℕ, ◌+◌, ◌-◌, ◌*◌, ◌%◌, ◌≤◌, ◌<◌, ◌≡◌, ◌≢◌, ◌⊎◌, ◌↔◌, String, Option, some, is_none, if◌then◌else◌,
  refl, inl, inr, true, false, not, none, List, [], ◌∷◌, str_eq, ltb, any, length, done, ensure,
  >>-done, >>=-eq-done, done_injective, Bool-cases, Option-cases, arith, All, or_default,
}
use azure_llm_governance_api.Prelude.Time.{ms}
use azure_llm_governance_api.Usage.Period.{
  Rollup, Selector, Span, Consumption, Covered, lookup, windows, size, cover_all, sum_tokens,
  is_complete, completeness_reason_of, expected_windows, consumption, assert_selector,
  observe_scope, observe_scopes, assert_span, assert_division, has_some, observe_period_consumption,
}
use azure_llm_governance_api.Usage.Coverage.{
  Covers, WellCovered, WellCovered-cover_all, length-covered, none_left_out, found,
}

complete_each :
    (ds : List Rollup) (d : Rollup)
    → any (λ e. not (is_complete e)) ds ≡ false
    → Memᴰ d ds
    → is_complete d ≡ true
complete_each [] d h m = absurd (Memᴰ.not-nil m)
complete_each (e ∷ ds) d h (Memᴰ.head same) = rw same (ground arith)
complete_each (e ∷ ds) d h (Memᴰ.tail m) = complete_each ds d (ground arith) m

no_reason :
    (missing : ℕ) (ds : List Rollup)
    → completeness_reason_of missing ds ≡ none
    → (missing ≡ 0) × (any (λ e. not (is_complete e)) ds ≡ false)
unfolding completeness_reason_of
no_reason missing [] h = cc
no_reason missing (d ∷ ds) h = elim (Bool-cases (ltb 0 missing)) [
  | inl e ↦ absurd (cc (let bad = rw e at h in bad))
  | inr e ↦ elim (Bool-cases (any (λ e. not (is_complete e)) (d ∷ ds))) [
    | inl f ↦ absurd (cc (let bad = rw (e, f) at h in bad))
    | inr f ↦ (ground arith, f)
  ]
]

All-of_mem :
    (ds : List Rollup) (f : (d : Rollup) → Type 0) → ((d : Rollup) → Memᴰ d ds → f d) → All f ds
All-of_mem [] f h = tt
All-of_mem (d ∷ ds) f h = (h d (Memᴰ.head refl), All-of_mem ds f (λ e m. h e (Memᴰ.tail m)))

-- What a consumption says of the windows of its period.
pub record Accounts (p : Span) (rollups : List Rollup) (o : Consumption) : Type 0 where
  pub within : o.windows_covered ≤ o.windows_expected
  pub in_all : o.windows_covered + o.windows_missing ≡ o.windows_expected
  pub called : (o.completeness ≡ "complete") ⊎ (o.completeness ≡ "partial")
  pub reasoned : (o.completeness ≡ "partial") ↔ (o.completeness_reason ≢ none)
  pub whole :
      o.completeness ≡ "complete"
      → (i : ℕ) → i < o.windows_expected
      → (d : Rollup) × Covers p o.scope o.scope_key rollups (ms p.period_start + i * size p) d
        × (is_complete d ≡ true)

-- The completeness of a reason that may be there.
abbrev label : Option String → String
label r = if is_none r then "complete" else "partial"

called_one : (r : Option String) → (label r ≡ "complete") ⊎ (label r ≡ "partial")
called_one none = inl refl
called_one (some t) = inr refl

called_complete : (r : Option String) → label r ≡ "complete" → r ≡ none
called_complete none h = refl
called_complete (some t) h = cc

called_partial : (r : Option String) → (label r ≡ "partial") ↔ (r ≢ none)
called_partial none = (λ h. cc, λ h. absurd (h refl))
called_partial (some t) = (λ h e. cc, λ h. refl)

consumption-Accounts :
    (p : Span) (rollups : List Rollup) (s : Selector) (m : Covered) (n : ℕ)
    → 0 < size p
    → (ms p.period_end - ms p.period_start) % size p ≡ 0
    → WellCovered p s.scope s.scope_key rollups m
    → Accounts p rollups (consumption p s m n)
unfolding consumption
consumption-Accounts p rollups s m n pos whole w =
    let bound = length-covered p s.scope s.scope_key rollups m pos whole w in
    let r = completeness_reason_of (expected_windows p - length m) (windows m) in
    record {
      within = bound;
      in_all = omega (arith, bound);
      called = called_one r;
      reasoned = called_partial r;
      whole = λ c i low.
          let (no_gap, each) =
            no_reason (expected_windows p - length m) (windows m) (called_complete r c) in
          elim (Option-cases (lookup (ms p.period_start + i * size p) m)) [
            | inl gone ↦
                absurd (
                  none_left_out p s.scope s.scope_key rollups m i pos whole w low (omega arith)
                    gone)
            | inr (d, there) ↦
                let (c, listed) = found p s.scope s.scope_key rollups _ d m w there in
                (d, c, complete_each (windows m) d each listed)
          ];
    }

observe_scope-Accounts :
    (p : Span) (rollups : List Rollup) (s : Selector) {o : Consumption}
    → 0 < size p
    → (ms p.period_end - ms p.period_start) % size p ≡ 0
    → observe_scope p rollups s ≡ done o
    → Accounts p rollups o
unfolding observe_scope
observe_scope-Accounts p rollups s pos whole h =
    let (_, h1) = >>-done (assert_selector s) _ h in
    let (m, covered, h2) = >>=-eq-done (cover_all p s.scope s.scope_key rollups []) _ h1 in
    let (n, _, made) =
      >>=-eq-done
        (sum_tokens (str_eq (or_default s.model_scope "all-models") "all-models") s.model_key
          (windows m) 0)
        _ h2 in
    rw (← done_injective _ _ made) (
      consumption-Accounts p rollups s m n pos whole (
        WellCovered-cover_all p s.scope s.scope_key rollups rollups []
          (All-of_mem rollups _ (λ d r. r)) tt covered))

observe_scopes-Accounts :
    (p : Span) (rollups : List Rollup) (ss : List Selector) {os : List Consumption}
    → 0 < size p
    → (ms p.period_end - ms p.period_start) % size p ≡ 0
    → observe_scopes p rollups ss ≡ done os
    → All (Accounts p rollups) os
unfolding observe_scopes
observe_scopes-Accounts p rollups [] pos whole h = rw (← done_injective _ _ h) tt
observe_scopes-Accounts p rollups (s ∷ ss) pos whole h =
    let (o, one, h1) = >>=-eq-done (observe_scope p rollups s) _ h in
    let (os, more, made) = >>=-eq-done (observe_scopes p rollups ss) _ h1 in
    rw (← done_injective _ _ made) (
      observe_scope-Accounts p rollups s pos whole one,
      observe_scopes-Accounts p rollups ss pos whole more,
    )

span_facts :
    (p : Span)
    → assert_span p ≡ done tt
    → assert_division p ≡ done tt
    → (0 < size p) × ((ms p.period_end - ms p.period_start) % size p ≡ 0)
unfolding assert_span assert_division
span_facts p h k = (ground arith, ground arith)

-- Every consumption counts no more windows than the period has, and accounts for all of them. It is
-- called complete or partial, partial exactly if it gives a reason. One that is called complete has,
-- for each window of the period, a complete document among the roll-ups of its scope that starts with
-- the window.
pub observe-Accounts :
    (p : Span) (rollups : List Rollup) (ss : List Selector) {os : List Consumption}
    → observe_period_consumption p rollups ss ≡ done os
    → All (Accounts p rollups) os
unfolding observe_period_consumption
observe-Accounts p rollups ss h =
    let (span, h1) = >>-done (assert_span p) _ h in
    let (_, h2) = >>-done (ensure (has_some ss) _) _ h1 in
    let (divides, h3) = >>-done (assert_division p) _ h2 in
    let (pos, whole) = span_facts p span divides in
    observe_scopes-Accounts p rollups ss pos whole h3
