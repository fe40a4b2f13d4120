-- ===== src/Usage/Exhausted.antt =====
-- A budget that is used up is announced.
use mathlib.Core.List.{Memᴰ}
use mathlib.Core.List.Memᴰ
use azure_llm_governance_api.Prelude.{
  ℕ, ◌≤◌, ◌<◌, String, ◌≡◌, refl, ◌∙◌, true, not, Option, some, List, [], ◌∷◌, str_eq, le→leb, done,
  arith, eq_refl,
}
use azure_llm_governance_api.Prelude.Sets.{contains, contains-append}
use azure_llm_governance_api.Usage.{
  Watched, Observation, observation_for, exhausted, Planned, thresholds_for, exhausted_basis_points,
}
use azure_llm_governance_api.Usage.Planner.{
  Period, Planning, Published, base, crossing, consumed_basis_points, plan_budget_notifications,
}
use azure_llm_governance_api.Usage.Earned.{keys, map-append_keys, crossings}
use azure_llm_governance_api.Usage.Once.{earned, all_earned, due, plan-earned}

module _ (basis_points : ℕ → ℕ → ℕ) where
  contains-all_earned :
      (c : Period) (observations : List Observation) (w : Watched) (k : String) (ws : List Watched)
      → Memᴰ w ws
      → contains k (keys (earned basis_points c observations w)) ≡ true
      → contains k (keys (all_earned basis_points c observations ws)) ≡ true
  contains-all_earned c observations w k [] m h = absurd (Memᴰ.not-nil m)
  contains-all_earned c observations w k (v ∷ ws) (Memᴰ.head e) h =
      rw
        (
          map-append_keys (earned basis_points c observations v)
              (all_earned basis_points c observations ws),
          contains-append k (keys (earned basis_points c observations v))
              (keys (all_earned basis_points c observations ws)),
          ← e,
          h,
        )
        refl
  contains-all_earned c observations w k (v ∷ ws) (Memᴰ.tail m) h =
      rw
        (
          map-append_keys (earned basis_points c observations v)
              (all_earned basis_points c observations ws),
          contains-append k (keys (earned basis_points c observations v))
              (keys (all_earned basis_points c observations ws)),
          contains-all_earned c observations w k ws m h,
        )
        (ground arith)

  abbrev pub exhaustion : Period → Watched → ℕ → Planned
  exhaustion c w consumed =
      base c exhausted w (
        crossing w consumed (record { kind = exhausted; at_basis_points = exhausted_basis_points }))

  consumed_given :
      (tokens quota : ℕ) (e : Option ℕ)
      → e ≡ some quota
      → 0 < quota
      → consumed_basis_points basis_points tokens e ≡ some (basis_points tokens quota)
  unfolding consumed_basis_points
  consumed_given tokens quota e same pos = rw same (ground arith)

  crossings_full :
      (c : Period) (w : Watched) (n quota : ℕ) (e percent : Option ℕ)
      → e ≡ some quota
      → exhausted_basis_points ≤ n
      → contains (exhaustion c w n).key (keys (crossings c w n (thresholds_for e percent))) ≡ true
  unfolding thresholds_for
  crossings_full c w n quota e percent same full =
      rw (same, le→leb exhausted_basis_points n full, eq_refl (exhaustion c w n).key) refl

  earned-exhaustion :
      (c : Period) (observations : List Observation) (w : Watched) (o : Observation) (quota : ℕ)
      → str_eq w.entry.state "enforceable" ≡ true
      → observation_for observations w ≡ some o
      → str_eq o.completeness "complete" ≡ true
      → w.entry.enforced_token_quota ≡ some quota
      → 0 < quota
      → exhausted_basis_points ≤ basis_points o.consumed_tokens quota
      → contains
          (exhaustion c w (basis_points o.consumed_tokens quota)).key
          (keys (earned basis_points c observations w))
        ≡ true
  earned-exhaustion c observations w o quota s seen whole q pos full =
      let spent = consumed_given o.consumed_tokens quota w.entry.enforced_token_quota q pos in
      rw (s, seen, whole, spent)
        (crossings_full c w (basis_points o.consumed_tokens quota) quota
          w.entry.enforced_token_quota w.entry.warn_threshold_percent q full)

  -- An enforceable budget of a publication that is out, whose complete count has reached its positive
  -- quota, is announced as exhausted exactly if it was not announced before, where the rounded quotient
  -- of a count that is no less than its quota is at least the whole in basis points.
  pub exhausted-planned :
      (c : Period) (publication : Published) (observations : List Observation) (w : Watched)
      (o : Observation) (quota : ℕ) {p : Planning}
      → ((n q : ℕ) → 0 < q → q ≤ n → exhausted_basis_points ≤ basis_points n q)
      → plan_budget_notifications basis_points c publication observations ≡ done p
      → str_eq publication.state "published" ≡ true
      → Memᴰ w publication.entries
      → str_eq w.entry.state "enforceable" ≡ true
      → observation_for observations w ≡ some o
      → str_eq o.completeness "complete" ≡ true
      → w.entry.enforced_token_quota ≡ some quota
      → 0 < quota
      → quota ≤ o.consumed_tokens
      → contains (exhaustion c w (basis_points o.consumed_tokens quota)).key (keys p.planned)
        ≡ not (
            contains (exhaustion c w (basis_points o.consumed_tokens quota)).key c.already_notified)
  exhausted-planned c publication observations w o quota law h live there s seen whole q pos over =
      let k = (exhaustion c w (basis_points o.consumed_tokens quota)).key in
      let (_, all) = plan-earned basis_points c publication observations h in
      let one =
        earned-exhaustion c observations w o quota s seen whole q pos
          (law o.consumed_tokens quota pos over) in
      let some_day : contains k (keys (due basis_points c publication observations)) ≡ true =
        rw live (contains-all_earned c observations w k publication.entries there one) in
      all k ∙ rw some_day refl
