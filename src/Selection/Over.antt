-- ===== src/Selection/Over.antt =====
-- When a budget is over its share, said without the loops of the selector.
use mathlib.Core.Path.{subst}
use azure_llm_governance_api.Prelude.{
  ℕ, ◌+◌, ◌*◌, ◌≤◌, ◌<◌, String, Bool, true, false, ◌&&◌, ◌||◌, Option, none, some, List, [], ◌∷◌,
  ltb, leb, leb→le, le→leb, ltb→lt, str_eq, if◌then◌else◌, find, or_default, ◌≡◌, refl, sym, ap,
  ◌⊎◌, ◌↔◌, inl, inr, arith, Bool-cases, Option-cases, eq_iff, &&_iff,
}
use azure_llm_governance_api.Prelude.Sets.{contains}
use azure_llm_governance_api.Selection.{
  Limit, Remaining, Pressure, Policy, over_share, scope_breached, is_breached, breached_among,
  breached_scopes, under_share, model_under_pressure, scope_order, has_any,
}

-- A scope whose tokens are used up to the threshold: its limit on all models is `quota`, of which `left`
-- are left.
pub record ScopeOver (p : Policy) (remaining : List Remaining) (threshold : ℕ) (scope : String)
    : Type 0 where
  pub limit : Limit
  pub entry : Remaining
  pub quota : ℕ
  pub left : ℕ
  pub limited :
      find (λ l. str_eq l.scope scope && str_eq l.model_scope "all-models") p.limits ≡ some limit
  pub counted : find (λ r. str_eq r.scope scope) remaining ≡ some entry
  pub quota_is : limit.token_quota ≡ some quota
  pub left_is : entry.tokens ≡ some left
  pub is_positive : 0 < quota
  pub is_spent : threshold * quota + left * 100 ≤ quota * 100

-- A model whose own budget is used up to the threshold.
pub record ModelOver (p : Policy) (requested : String) (threshold : ℕ) : Type 0 where
  pub entries : List Pressure
  pub entry : Pressure
  pub points : ℕ
  pub reported : p.model_pressure ≡ some entries
  pub found : find (λ e. str_eq e.model requested) entries ≡ some entry
  pub points_are : entry.consumed_basis_points ≡ some points
  pub is_spent : threshold * 100 ≤ points

-- The threshold is reached: by a scope, or by the model.
abbrev pub Reached : Policy → List Remaining → String → ℕ → Type 0
Reached p remaining requested threshold =
    ((scope : String) × (contains scope scope_order ≡ true) × ScopeOver p remaining threshold scope)
    ⊎ ModelOver p requested threshold

pub record IsOver (p : Policy) (remaining : List Remaining) (requested : String) : Type 0 where
  pub threshold : ℕ
  pub threshold_is : p.warn_threshold_percent ≡ some threshold
  pub is_armed : 0 < threshold
  pub reached : Reached p remaining requested threshold

module _ (p : Policy) (remaining : List Remaining) (threshold : ℕ) where
  is_breached-ScopeOver :
      (scope : String)
      → is_breached p.limits remaining threshold scope ≡ true
      → ScopeOver p remaining threshold scope
  unfolding is_breached scope_breached over_share
  is_breached-ScopeOver scope h =
      elim (Option-cases
        (find (λ l. str_eq l.scope scope && str_eq l.model_scope "all-models") p.limits)) [
          | inl e ↦ absurd (cc (let bad = rw e at h in bad))
          | inr (limit, e) ↦ elim (Option-cases (find (λ r. str_eq r.scope scope) remaining)) [
            | inl f ↦ absurd (cc (let bad = rw (e, f) at h in bad))
            | inr (entry, f) ↦ elim (Option-cases limit.token_quota) [
              | inl q ↦ absurd (cc (let bad = rw (e, f, q) at h in bad))
              | inr (quota, q) ↦ elim (Option-cases entry.tokens) [
                | inl t ↦ absurd (cc (let bad = rw (e, f, q, t) at h in bad))
                | inr (left, t) ↦
                    let both : (ltb 0 quota && leb (threshold * quota + left * 100) (quota * 100))
                        ≡ true =
                      rw (e, f, q, t) at h in
                    record {
                      limit = limit;
                      entry = entry;
                      quota = quota;
                      left = left;
                      limited = e;
                      counted = f;
                      quota_is = q;
                      left_is = t;
                      is_positive = ltb→lt _ _ ((&&_iff _ _).0 both).0;
                      is_spent = leb→le _ _ ((&&_iff _ _).0 both).1;
                    }
              ]
            ]
          ]
        ]

  ScopeOver-is_breached :
      (scope : String)
      → ScopeOver p remaining threshold scope
      → is_breached p.limits remaining threshold scope ≡ true
  unfolding is_breached scope_breached over_share
  ScopeOver-is_breached scope o =
      rw (o.limited, o.counted, o.quota_is, o.left_is)
        ((&&_iff _ _).1 (ground (arith, o.is_positive), le→leb _ _ o.is_spent))

  under-ModelOver :
      (requested : String)
      → model_under_pressure p requested threshold ≡ true
      → ModelOver p requested threshold
  unfolding model_under_pressure under_share
  under-ModelOver requested h = elim (Option-cases p.model_pressure) [
    | inl e ↦ absurd (cc (let bad = rw e at h in bad))
    | inr (entries, e) ↦ elim (Option-cases (find (λ x. str_eq x.model requested) entries)) [
      | inl f ↦ absurd (cc (let bad = rw (e, f) at h in bad))
      | inr (entry, f) ↦ elim (Option-cases entry.consumed_basis_points) [
        | inl g ↦ absurd (cc (let bad = rw (e, f, g) at h in bad))
        | inr (points, g) ↦ record {
          entries = entries;
          entry = entry;
          points = points;
          reported = e;
          found = f;
          points_are = g;
          is_spent = leb→le _ _ (rw (e, f, g) at h);
        }
      ]
    ]
  ]

  ModelOver-under :
      (requested : String)
      → ModelOver p requested threshold
      → model_under_pressure p requested threshold ≡ true
  unfolding model_under_pressure under_share
  ModelOver-under requested o = rw (o.reported, o.found, o.points_are) (le→leb _ _ o.is_spent)

  breached-one :
      (ss : List String)
      → has_any (breached_among p.limits remaining threshold ss) ≡ true
      → (scope : String) × (contains scope ss ≡ true)
        × (is_breached p.limits remaining threshold scope ≡ true)
  unfolding breached_among has_any
  breached-one [] h = cc
  breached-one (s ∷ ss) h = elim (Bool-cases (is_breached p.limits remaining threshold s)) [
    | inl e ↦ (s, ground (arith, eq_iff s s), e)
    | inr e ↦
        let (scope, there, over) = breached-one ss (rw e at h) in
        (scope, ground (arith, there), over)
  ]

  one-breached :
      (scope : String) (ss : List String)
      → contains scope ss ≡ true
      → is_breached p.limits remaining threshold scope ≡ true
      → has_any (breached_among p.limits remaining threshold ss) ≡ true
  unfolding breached_among has_any
  one-breached scope [] h over = cc
  one-breached scope (s ∷ ss) h over =
      elim (Bool-cases (is_breached p.limits remaining threshold s)) [
        | inl e ↦ rw e refl
        | inr e ↦ elim (Bool-cases (str_eq s scope)) [
          | inl same ↦
              let hit : is_breached p.limits remaining threshold s ≡ true =
                rw ((eq_iff s scope).0 same) over in
              absurd (cc (hit, e))
          | inr other ↦ rw e (one-breached scope ss (rw other at h) over)
        ]
      ]

-- What the selector computes of the threshold, the scopes and the model, for a policy.
abbrev pub breached_of : Policy → List Remaining → List String
breached_of p remaining =
    let threshold = or_default p.warn_threshold_percent 0 in
    if ltb 0 threshold then breached_scopes p.limits remaining threshold else []

abbrev pub pressed_of : Policy → String → Bool
pressed_of p requested =
    let threshold = or_default p.warn_threshold_percent 0 in
    ltb 0 threshold && model_under_pressure p requested threshold

over_at_iff :
    (p : Policy) (remaining : List Remaining) (requested : String) (t : ℕ)
    → ((has_any (breached_scopes p.limits remaining t) || model_under_pressure p requested t)
        ≡ true)
      ↔ Reached p remaining requested t
unfolding breached_scopes
over_at_iff p remaining requested t = (
  λ h. elim (Bool-cases (has_any (breached_among p.limits remaining t scope_order))) [
    | inl f ↦
        let (scope, there, over) = breached-one p remaining t scope_order f in
        inl (scope, there, is_breached-ScopeOver p remaining t scope over)
    | inr f ↦
        let hit : model_under_pressure p requested t ≡ true = ground (arith, h, f) in
        inr (under-ModelOver p remaining t requested hit)
  ],
  λ r. elim r [
    | inl (scope, there, over) ↦
        let f =
          one-breached p remaining t scope scope_order there
            (ScopeOver-is_breached p remaining t scope over) in
        ground (arith, f)
    | inr over ↦ let f = ModelOver-under p remaining t requested over in ground (arith, f)
  ],
)

armed_as : (o : Option ℕ) → ltb 0 (or_default o 0) ≡ true → o ≡ some (or_default o 0)
armed_as none h = cc
armed_as (some t) h = refl

-- The selector's test, for a threshold above 0.
pub IsOver-iff :
    (p : Policy) (remaining : List Remaining) (requested : String)
    → ltb 0 (or_default p.warn_threshold_percent 0) ≡ true
    → ((has_any (breached_of p remaining) || pressed_of p requested) ≡ true)
      ↔ IsOver p remaining requested
IsOver-iff p remaining requested armed =
    let t = or_default p.warn_threshold_percent 0 in
    let (into, back) = over_at_iff p remaining requested t in
    rw armed (
      λ h. record {
        threshold = t;
        threshold_is = armed_as p.warn_threshold_percent armed;
        is_armed = ltb→lt _ _ armed;
        reached = into h;
      },
      λ o.
          let same : o.threshold ≡ t = sym (ap (λ (w : Option ℕ). or_default w 0) o.threshold_is) in
          back (subst (Reached p remaining requested) same o.reached),
    )

-- No threshold above 0, nothing is over.
pub unarmed-IsOver :
    (p : Policy) (remaining : List Remaining) (requested : String)
    → ltb 0 (or_default p.warn_threshold_percent 0) ≡ false
    → ¬ IsOver p remaining requested
unarmed-IsOver p remaining requested low o =
    let same : or_default p.warn_threshold_percent 0 ≡ o.threshold =
      ap (λ (w : Option ℕ). or_default w 0) o.threshold_is in
    absurd (ground (arith, same, low, o.is_armed))
