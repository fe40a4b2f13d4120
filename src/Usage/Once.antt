-- ===== src/Usage/Once.antt =====
-- The planner says what a period has earned, each thing once.
use azure_llm_governance_api.Prelude.{
  ℕ, String, ◌≡◌, refl, sym, ◌∙◌, inl, inr, false, not, ◌&&◌, Option, none, some, List, [], ◌∷◌,
  ◌++◌, str_eq, if◌then◌else◌, or_default, done, ensure, >>-done, done_injective, Bool-cases, arith,
  eq_refl,
}
use azure_llm_governance_api.Prelude.Time.{is_instant}
use azure_llm_governance_api.Prelude.Sets.{contains, contains-append, Distinct}
use azure_llm_governance_api.Usage.{
  Watched, Observation, observation_for, budget_unenforceable, aggregate_stale, Planned,
  thresholds_for,
}
use azure_llm_governance_api.Usage.Planner.{
  Period, Planning, Published, suppress, base, base_of_none, about, consumed_basis_points,
  plan_measured, plan_observed, plan_entry, plan_entries, plan_published, plan_budget_notifications,
}
use azure_llm_governance_api.Usage.Earned.{
  keys, add_all, add_all-append, contains-add_all, Distinct-add_all, crossings, planned-emit,
  planned-emit_crossings,
}

module _ (basis_points : ℕ → ℕ → ℕ) where
  abbrev pub measured : Period → Watched → Option ℕ → List Planned
  measured c w none = []
  measured c w (some consumed) =
      crossings c w consumed
        (thresholds_for w.entry.enforced_token_quota w.entry.warn_threshold_percent)

  abbrev pub observed : Period → Watched → Option Observation → List Planned
  observed c w none = []
  observed c w (some o) =
      if str_eq o.completeness "complete"
      then measured c w
          (consumed_basis_points basis_points o.consumed_tokens w.entry.enforced_token_quota)
      else base c aggregate_stale w
          (about w (some (or_default o.completeness_reason "aggregate-incomplete")))
        ∷ []

  -- What one entry has earned: that its budget is not enforced, that its count is not complete, or the
  -- thresholds that a complete count has reached.
  abbrev pub earned : Period → List Observation → Watched → List Planned
  earned c observations w =
      if str_eq w.entry.state "enforceable"
      then observed c w (observation_for observations w)
      else base c budget_unenforceable w (about w w.entry.reason_code) ∷ []

  abbrev pub all_earned : Period → List Observation → List Watched → List Planned
  all_earned c observations [] = []
  all_earned c observations (w ∷ ws) = earned c observations w ++ all_earned c observations ws

  planned-measured :
      (c : Period) (w : Watched) (consumed : Option ℕ) (p : Planning)
      → (plan_measured basis_points c w consumed p).planned
        ≡ add_all c.already_notified (measured c w consumed) p.planned
  unfolding plan_measured suppress
  planned-measured c w none p = refl
  planned-measured c w (some n) p = planned-emit_crossings c w n _ p

  planned-observed :
      (c : Period) (w : Watched) (o : Option Observation) (p : Planning)
      → (plan_observed basis_points c w o p).planned
        ≡ add_all c.already_notified (observed c w o) p.planned
  unfolding plan_observed suppress
  planned-observed c w none p = refl
  planned-observed c w (some o) p = elim (Bool-cases (str_eq o.completeness "complete")) [
    | inl e ↦ rw e (planned-measured c w _ p)
    | inr e ↦ rw e (planned-emit c.already_notified _ p)
  ]

  planned-entry :
      (c : Period) (observations : List Observation) (w : Watched) (p : Planning)
      → (plan_entry basis_points c observations w p).planned
        ≡ add_all c.already_notified (earned c observations w) p.planned
  unfolding plan_entry
  planned-entry c observations w p = elim (Bool-cases (str_eq w.entry.state "enforceable")) [
    | inl e ↦ rw e (planned-observed c w (observation_for observations w) p)
    | inr e ↦ rw e (planned-emit c.already_notified _ p)
  ]

  planned-entries :
      (c : Period) (observations : List Observation) (ws : List Watched) (p : Planning)
      → (plan_entries basis_points c observations ws p).planned
        ≡ add_all c.already_notified (all_earned c observations ws) p.planned
  unfolding plan_entries
  planned-entries c observations [] p = refl
  planned-entries c observations (w ∷ ws) p =
      planned-entries c observations ws (plan_entry basis_points c observations w p)
      ∙ rw (planned-entry c observations w p) (
          sym (
            add_all-append c.already_notified (earned c observations w)
              (all_earned c observations ws) p.planned))

  -- What a publication has earned.
  abbrev pub due : Period → Published → List Observation → List Planned
  due c publication observations =
      if str_eq publication.state "published"
      then all_earned c observations publication.entries
      else base_of_none c budget_unenforceable publication.reason_code ∷ []

  pub plan_lem :
      (c : Period) (publication : Published) (observations : List Observation) {p : Planning}
      → plan_budget_notifications basis_points c publication observations ≡ done p
      → p ≡ plan_published basis_points c publication observations
  unfolding plan_budget_notifications
  plan_lem c publication observations h =
      let (_, h1) = >>-done (ensure (not (str_eq c.scope_group_id "")) _) _ h in
      let (_, h2) = >>-done (ensure (is_instant c.starts_at) _) _ h1 in
      let (_, h3) = >>-done (ensure (is_instant c.evaluation_time) _) _ h2 in
      sym (done_injective _ _ h3)

  pub planned-published :
      (c : Period) (publication : Published) (observations : List Observation)
      → (plan_published basis_points c publication observations).planned
        ≡ add_all c.already_notified (due c publication observations) []
  unfolding plan_published
  planned-published c publication observations =
      elim (Bool-cases (str_eq publication.state "published")) [
        | inl e ↦ rw e (planned-entries c observations publication.entries _)
        | inr e ↦ rw e (ground arith)
      ]

  -- A plan names what the period has earned and was not notified before, each key once.
  pub plan-earned :
      (c : Period) (publication : Published) (observations : List Observation) {p : Planning}
      → plan_budget_notifications basis_points c publication observations ≡ done p
      → Distinct (keys p.planned)
        × ((k : String)
            → contains k (keys p.planned) ≡ (
                contains k (keys (due c publication observations))
                && not (contains k c.already_notified)))
  plan-earned c publication observations h =
      let e = plan_lem c publication observations h in
      let f = planned-published c publication observations in
      rw (e, f)
        (
          Distinct-add_all c.already_notified (due c publication observations) [] tt,
          λ k. contains-add_all c.already_notified (due c publication observations) [] k,
        )

  abbrev pub notified : Period → List String → Period
  notified c ks = record c { already_notified = c.already_notified ++ ks }

  same_earned :
      (c : Period) (ks : List String) (observations : List Observation) (w : Watched)
      → earned (notified c ks) observations w ≡ earned c observations w
  unfolding base
  same_earned c ks observations w = refl

  same_all_earned :
      (c : Period) (ks : List String) (observations : List Observation) (ws : List Watched)
      → all_earned (notified c ks) observations ws ≡ all_earned c observations ws
  same_all_earned c ks observations [] = refl
  same_all_earned c ks observations (w ∷ ws) =
      rw (same_earned c ks observations w, same_all_earned c ks observations ws) refl

  same_due :
      (c : Period) (ks : List String) (publication : Published) (observations : List Observation)
      → due (notified c ks) publication observations ≡ due c publication observations
  unfolding base_of_none
  same_due c ks publication observations =
      rw (same_all_earned c ks observations publication.entries) refl

  no_keys : (ns : List Planned) → ((k : String) → contains k (keys ns) ≡ false) → ns ≡ []
  no_keys [] h = refl
  no_keys (n ∷ ns) h = absurd (ground (arith, h n.key, eq_refl n.key))

  -- Once what a plan names is recorded as notified, the same evaluation plans nothing.
  pub plan_again :
      (c : Period) (publication : Published) (observations : List Observation) {p q : Planning}
      → plan_budget_notifications basis_points c publication observations ≡ done p
      → plan_budget_notifications basis_points
          (notified c (keys p.planned))
          publication
          observations
        ≡ done q
      → q.planned ≡ []
  plan_again c publication observations {p} {q} h again =
      let (_, first) = plan-earned c publication observations h in
      let (_, second) = plan-earned (notified c (keys p.planned)) publication observations again in
      no_keys q.planned (λ k.
        second k
        ∙ rw
            (
              same_due c (keys p.planned) publication observations,
              contains-append k c.already_notified (keys p.planned),
              first k,
            )
            (ground arith))
