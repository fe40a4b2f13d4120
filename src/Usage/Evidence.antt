-- ===== src/Usage/Evidence.antt =====
-- A crossing is planned from a complete count alone.
use mathlib.Core.List.{Memᴰ}
use mathlib.Core.List.Memᴰ
use azure_llm_governance_api.Prelude.{
  arith, ℕ, ◌≤◌, String, ◌≡◌, refl, sym, eq_iff, ==_iff, some_injective, Option-cases, ap, ◌∙◌, ◌⊎◌,
  inl, inr, true, Option, none, some, List, [], ◌∷◌, str_eq, leb, leb→le, any, keep, done,
  Bool-cases,
}
use azure_llm_governance_api.Prelude.Lists.{Memᴰ-of-keep}
use azure_llm_governance_api.Prelude.Sets.{contains}
use azure_llm_governance_api.Usage.{
  Watched, Observation, observation_for, matches_budget_observation, notification_key, exhausted,
  threshold_reached, budget_unenforceable, aggregate_stale, Planned, Threshold,
}
use azure_llm_governance_api.Usage.Planner.{
  Period, Planning, Published, base, about, crossing, consumed_basis_points,
  plan_budget_notifications,
}
use azure_llm_governance_api.Usage.Earned.{add, add_all, crossings}
use azure_llm_governance_api.Usage.Once.{
  earned, measured, observed, all_earned, plan_lem, planned-published,
}

-- A notification that a threshold was reached.
abbrev pub IsCrossing : Planned → Type 0
IsCrossing n = (n.kind ≡ exhausted) ⊎ (n.kind ≡ threshold_reached)

add_mem :
    (already : List String) (n m : Planned) (ns : List Planned)
    → Memᴰ m (add already n ns)
    → Memᴰ m ns ⊎ (m ≡ n)
add_mem already n m ns h = elim (Bool-cases (contains n.key already)) [
  | inl e ↦ inl (rw e at h)
  | inr e ↦ elim (Bool-cases (any (λ c. str_eq c.key n.key) ns)) [
    | inl f ↦ inl (rw (e, f) at h)
    | inr f ↦ elim (Memᴰ.append_cases ns (rw (e, f) at h)) [
      | inl old ↦ inl old
      | inr new ↦ elim (Memᴰ.cases_cons new) [
        | inl same ↦ inr same
        | inr gone ↦ absurd (Memᴰ.not-nil gone)
      ]
    ]
  ]
]

add_all_mem :
    (already : List String) (more : List Planned) (m : Planned) (ns : List Planned)
    → Memᴰ m (add_all already more ns)
    → Memᴰ m ns ⊎ Memᴰ m more
add_all_mem already [] m ns h = inl h
add_all_mem already (n ∷ more) m ns h = elim (add_all_mem already more m (add already n ns) h) [
  | inl old ↦ elim (add_mem already n m ns old) [ inl o ↦ inl o | inr same ↦ inr (Memᴰ.head same) ]
  | inr new ↦ inr (Memᴰ.tail new)
]

module _ (basis_points : ℕ → ℕ → ℕ) where
  -- The complete count behind a crossing, the threshold that it has reached, and the budget that the
  -- notification names.
  pub record Supported (c : Period) (observations : List Observation) (w : Watched) (n : Planned)
      : Type 0 where
    pub enforceable : str_eq w.entry.state "enforceable" ≡ true
    pub observation : Observation
    pub observed_as : observation_for observations w ≡ some observation
    pub observed_budget : observation.budget_id ≡ some w.entry.budget_id
    pub observed_version : observation.budget_version ≡ w.entry.budget_version
    pub observed_scope : (observation.scope ≡ w.entry.scope) × (observation.period ≡ w.entry.period)
    pub is_complete : str_eq observation.completeness "complete" ≡ true
    pub consumed : ℕ
    pub consumed_as :
        consumed_basis_points basis_points observation.consumed_tokens w.entry.enforced_token_quota
        ≡ some consumed
    pub threshold : ℕ
    pub at_threshold : n.extra.at_basis_points ≡ some threshold
    pub is_reached : threshold ≤ consumed
    pub named_budget : n.extra.budget_id ≡ some w.entry.budget_id
    pub named_scope : (n.extra.scope ≡ some w.entry.scope) × (n.extra.scope_key ≡ w.scope_key)
    pub named_count : n.extra.consumed_basis_points ≡ some consumed
    pub named_quota : n.extra.enforced_token_quota ≡ w.entry.enforced_token_quota
    pub keyed :
        n.key
        ≡ notification_key (record {
          scope_group_id = c.scope_group_id;
          kind = n.kind;
          budget_id = some w.entry.budget_id;
          budget_version = some w.entry.budget_version;
          period_start = c.period_start;
          scope = some w.entry.scope;
          scope_key = w.scope_key;
          at_basis_points = some threshold;
        })

  -- What an observation shares with the entry it is found for.
  matched :
      (o : Observation) (w : Watched)
      → matches_budget_observation o w ≡ true
      → (o.budget_id ≡ some w.entry.budget_id)
        × (o.budget_version ≡ w.entry.budget_version)
        × (o.scope ≡ w.entry.scope)
        × (o.period ≡ w.entry.period)
  unfolding matches_budget_observation
  matched o w h = elim (Option-cases o.budget_id) [
    | inl e ↦ absurd (ground (arith, e))
    | inr (id, e) ↦
        let same : str_eq id w.entry.budget_id ≡ true = ground (arith, e) in
        (
          e ∙ ap some ((eq_iff _ _).0 same),
          (==_iff _ _).0 (ground (arith, e)),
          (eq_iff _ _).0 (ground (arith, e)),
          (eq_iff _ _).0 (ground (arith, e)),
        )
  ]

  found_matches :
      (os : List Observation) (w : Watched) {o : Observation}
      → observation_for os w ≡ some o
      → matches_budget_observation o w ≡ true
  unfolding observation_for
  found_matches [] w h = cc
  found_matches (x ∷ os) w {o} h = elim (Bool-cases (matches_budget_observation x w)) [
    | inl e ↦ let same : x ≡ o = some_injective _ _ (rw e at h) in rw (← same) e
    | inr e ↦ found_matches os w (rw e at h)
  ]

  crossing_mem :
      (c : Period) (w : Watched) (consumed : ℕ) (ts : List Threshold) (n : Planned)
      → Memᴰ n (crossings c w consumed ts)
      → (t : Threshold) × (n ≡ base c t.kind w (crossing w consumed t))
        × (t.at_basis_points ≤ consumed)
  crossing_mem c w consumed ts n m =
      let (t, found, e) =
        Memᴰ.of_map (λ (t : Threshold). base c t.kind w (crossing w consumed t))
          (keep (λ (t : Threshold). leb t.at_basis_points consumed) ts) m in
      let (_, reached) =
        Memᴰ-of-keep (λ (t : Threshold). leb t.at_basis_points consumed) ts found in
      (t, sym e, leb→le _ _ reached)

  stale_crosses_not :
      (c : Period) (w : Watched) (r : Option String) (n : Planned)
      → n ≡ base c aggregate_stale w (about w r)
      → IsCrossing n
      → ⊥
  unfolding base
  stale_crosses_not c w r n e (inl k) = cc (ap (λ (p : Planned). p.kind) e)
  stale_crosses_not c w r n e (inr k) = cc (ap (λ (p : Planned). p.kind) e)

  idle_crosses_not :
      (c : Period) (w : Watched) (r : Option String) (n : Planned)
      → n ≡ base c budget_unenforceable w (about w r)
      → IsCrossing n
      → ⊥
  unfolding base
  idle_crosses_not c w r n e (inl k) = cc (ap (λ (p : Planned). p.kind) e)
  idle_crosses_not c w r n e (inr k) = cc (ap (λ (p : Planned). p.kind) e)

  measured-Supported :
      (c : Period) (observations : List Observation) (w : Watched) (o : Observation) (n : Planned)
      → str_eq w.entry.state "enforceable" ≡ true
      → observation_for observations w ≡ some o
      → str_eq o.completeness "complete" ≡ true
      → (consumed : Option ℕ)
      → consumed_basis_points basis_points o.consumed_tokens w.entry.enforced_token_quota ≡ consumed
      → Memᴰ n (measured basis_points c w consumed)
      → Supported c observations w n
  unfolding base crossing
  measured-Supported c observations w o n s seen whole none e m = absurd (Memᴰ.not-nil m)
  measured-Supported c observations w o n s seen whole (some consumed) e m =
      let (t, made, reached) = crossing_mem c w consumed _ n m in
      let (of_budget, of_version, of_scope, of_period) =
        matched o w (found_matches observations w seen) in
      record {
        enforceable = s;
        observation = o;
        observed_as = seen;
        observed_budget = of_budget;
        observed_version = of_version;
        observed_scope = (of_scope, of_period);
        is_complete = whole;
        consumed = consumed;
        consumed_as = e;
        threshold = t.at_basis_points;
        at_threshold = ap (λ (p : Planned). p.extra.at_basis_points) made;
        is_reached = reached;
        named_budget = ap (λ (p : Planned). p.extra.budget_id) made;
        named_scope = (
          ap (λ (p : Planned). p.extra.scope) made,
          ap (λ (p : Planned). p.extra.scope_key) made,
        );
        named_count = ap (λ (p : Planned). p.extra.consumed_basis_points) made;
        named_quota = ap (λ (p : Planned). p.extra.enforced_token_quota) made;
        keyed = rw made refl;
      }

  observed-Supported :
      (c : Period) (observations : List Observation) (w : Watched) (n : Planned)
      → str_eq w.entry.state "enforceable" ≡ true
      → IsCrossing n
      → (o : Option Observation) → observation_for observations w ≡ o
      → Memᴰ n (observed basis_points c w o)
      → Supported c observations w n
  observed-Supported c observations w n s x none e m = absurd (Memᴰ.not-nil m)
  observed-Supported c observations w n s x (some o) e m =
      elim (Bool-cases (str_eq o.completeness "complete")) [
        | inl whole ↦ measured-Supported c observations w o n s e whole _ refl (rw whole at m)
        | inr part ↦ elim (Memᴰ.cases_cons (rw part at m)) [
          | inl same ↦ absurd (stale_crosses_not c w _ n same x)
          | inr gone ↦ absurd (Memᴰ.not-nil gone)
        ]
      ]

  earned-Supported :
      (c : Period) (observations : List Observation) (w : Watched) (n : Planned)
      → IsCrossing n
      → Memᴰ n (earned basis_points c observations w)
      → Supported c observations w n
  earned-Supported c observations w n x m = elim (Bool-cases (str_eq w.entry.state "enforceable")) [
    | inl s ↦
        observed-Supported c observations w n s x (observation_for observations w) refl (rw s at m)
    | inr s ↦ elim (Memᴰ.cases_cons (rw s at m)) [
      | inl same ↦ absurd (idle_crosses_not c w _ n same x)
      | inr gone ↦ absurd (Memᴰ.not-nil gone)
    ]
  ]

  all-Supported :
      (c : Period) (observations : List Observation) (ws : List Watched) (n : Planned)
      → IsCrossing n
      → Memᴰ n (all_earned basis_points c observations ws)
      → (w : Watched) × Memᴰ w ws × Supported c observations w n
  all-Supported c observations [] n x m = absurd (Memᴰ.not-nil m)
  all-Supported c observations (w ∷ ws) n x m =
      elim (Memᴰ.append_cases (earned basis_points c observations w) m) [
        | inl first ↦ (w, Memᴰ.head refl, earned-Supported c observations w n x first)
        | inr later ↦
            let (v, there, proof) = all-Supported c observations ws n x later in
            (v, Memᴰ.tail there, proof)
      ]

  -- A crossing of a published snapshot is planned only for an enforceable budget of it. The notification
  -- names that budget, its scope and its quota, in its key as well; the budget has a complete
  -- observation of its own version, scope and period, whose consumption the notification names and
  -- which has reached the threshold that it names.
  pub plan-Supported :
      (c : Period) (publication : Published) (observations : List Observation) (n : Planned)
      {p : Planning}
      → plan_budget_notifications basis_points c publication observations ≡ done p
      → str_eq publication.state "published" ≡ true
      → Memᴰ n p.planned
      → IsCrossing n
      → (w : Watched) × Memᴰ w publication.entries × Supported c observations w n
  plan-Supported c publication observations n {p} h live m x =
      let e = plan_lem basis_points c publication observations h in
      let f = planned-published basis_points c publication observations in
      let g : p.planned
          ≡ add_all c.already_notified (all_earned basis_points c observations publication.entries)
              [] =
        rw live at (ap (λ (r : Planning). r.planned) e ∙ f) in
      elim (add_all_mem c.already_notified _ n [] (rw g at m)) [
        | inl gone ↦ absurd (Memᴰ.not-nil gone)
        | inr earned_one ↦ all-Supported c observations publication.entries n x earned_one
      ]
