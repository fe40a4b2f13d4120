-- ===== src/Decision/Records.antt =====
-- That a record of a decision names a provider for every model in it, or none at all.
use mathlib.Core.Path.{subst}
use azure_llm_governance_api.Prelude.{
  false, ℕ, ensure, ensure-true, >>-done, ap, ◌∙◌, arith, String, true, not, ◌||◌, ◌==◌, Option,
  none, some, List, [], ◌∷◌, str_eq, if◌then◌else◌, find, Reply, done, >>=-eq-done, done_injective,
  some_injective, if_cases, ◌≡◌, ◌≢◌, refl, sym, inl, inr, Bool-cases, eq_iff,
}
use azure_llm_governance_api.Prelude.Text.{is_application_key}
use azure_llm_governance_api.Prelude.Sets.{contains}
use azure_llm_governance_api.Fallback.Compile.{Descriptor, Registry, resolve_model_descriptor}
use azure_llm_governance_api.Selection.{
  Policy, Remaining, Selection, Verdict, selected, denied, select_effective_model,
}
use azure_llm_governance_api.Selection.Moves.{Outcome, kept, moved, turned_away, select-Outcome}
use azure_llm_governance_api.Decision.{
  Attribution, attribution_for, Ruling, ruled_selected, ruled_denied, ruled_unavailable, Identity,
  Decision, Query, unavailable_decision, unmoved, moved_to, is_selected, ruling_of,
  resolve_effective, describe_target, describe, decide_registered, decide_model_selection,
  resolve_application_attribution,
}

-- An identity that the registry backs: the model is there, under the provider that is named.
pub Backed : Registry → Identity → Type 0
Backed r i =
    (d : Descriptor) × (resolve_model_descriptor r i.model_key ≡ some d)
    × (i.provider_key ≡ some d.provider_key)

-- The selector's answer to the query.
abbrev pub Answered : Query → Selection → Type 0
Answered q s = select_effective_model q.requested_model q.policy q.remaining q.on_exhausted ≡ done s

-- What a record says, for each ruling.
pub Evidenced : Query → Ruling → Decision → Type 0
Evidenced q ruled_selected d =
    Backed q.registry d.requested
    × ((s : Selection) × Answered q s
        × (s.decision ≡ selected)
        × (d.hops ≡ s.hops)
        × ((e : Identity) × (d.effective ≡ some e)
            × (s.effective_model ≡ some e.model_key)
            × Backed q.registry e))
Evidenced q ruled_denied d =
    Backed q.registry d.requested
    × (d.effective ≡ none)
    × ((s : Selection) × Answered q s × (s.decision ≡ denied))
Evidenced q ruled_unavailable d = (d.requested.provider_key ≡ none) × (d.effective ≡ none)

pub IsEvidenced : Query → Decision → Type 0
IsEvidenced q d = (d.requested.model_key ≡ q.requested_model) × Evidenced q d.decision d

found_key :
    (key : String) (ds : List Descriptor) {d : Descriptor}
    → find (λ x. str_eq x.model_key key) ds ≡ some d
    → d.model_key ≡ key
found_key key [] h = cc
found_key key (x ∷ ds) {d} h = elim (if_cases (str_eq x.model_key key) _ _ h) [
  | inl (e, same) ↦
      subst (λ (y : Descriptor). y.model_key ≡ key) (some_injective _ _ same)
        ((eq_iff x.model_key key).0 e)
  | inr (_, rest) ↦ found_key key ds rest
]

unavailable-IsEvidenced :
    (q : Query) (a : Attribution) (reason : String)
    → IsEvidenced q (unavailable_decision q a reason)
unfolding unavailable_decision IsEvidenced Evidenced
unavailable-IsEvidenced q a reason = (refl, (refl, refl))

-- A descriptor that was found is the one of the key that was asked for.
effective_found :
    (r : Registry) (o : Option String) (d : Descriptor)
    → resolve_effective r o ≡ some d
    → (o ≡ some d.model_key) × (resolve_model_descriptor r d.model_key ≡ some d)
unfolding resolve_effective resolve_model_descriptor
effective_found r none d h = cc
effective_found r (some key) d h =
    let same : d.model_key ≡ key = found_key key r.models h in
    (
      ap some (sym same),
      subst (λ k. find (λ x. str_eq x.model_key k) r.models ≡ some d) (sym same) h,
    )

-- A call that is answered had a model and a known policy.
asked :
    (requested on_exhausted : String) (p : Policy) (remaining : List Remaining) {s : Selection}
    → select_effective_model requested p remaining on_exhausted ≡ done s
    → (requested ≢ "") × (contains on_exhausted ("deny" ∷ "continue-with-requested" ∷ []) ≡ true)
unfolding select_effective_model
asked requested on_exhausted p remaining h =
    let (named, h1) =
      >>-done (ensure (not (str_eq requested "")) "requestedModel is required.") _ h in
    let (known, _) =
      >>-done
        (ensure (contains on_exhausted ("deny" ∷ "continue-with-requested" ∷ []))
          "onExhausted must be deny or continue-with-requested.")
        _ h1 in
    (
      λ e. absurd (ground (arith, ensure-true _ _ named, (eq_iff requested "").1 e)),
      ensure-true _ _ known,
    )

-- A request that was not moved is served with the model that it named.
unmoved_model :
    (q : Query) (s : Selection)
    → Answered q s
    → s.decision ≡ selected
    → s.hops ≡ 0
    → s.effective_model ≡ some q.requested_model
unmoved_model q s h chosen still =
    let (named, known) = asked q.requested_model q.on_exhausted q.policy q.remaining h in
    let (t, answer, outcome) =
      select-Outcome q.requested_model q.policy q.remaining q.on_exhausted named known in
    let same : t ≡ s = done_injective _ _ (sym answer ∙ h) in
    elim (subst (Outcome q.requested_model q.policy q.remaining q.on_exhausted) same outcome) [
      | kept _ e _ _ ↦ e
      | moved c last _ _ _ _ some_hop _ _ ↦ absurd (omega (arith, some_hop, still))
      | turned_away _ e _ _ _ _ _ ↦ absurd (cc (chosen, e))
    ]

module _ (q : Query) (a : Attribution) (source : Descriptor)
    (there : resolve_model_descriptor q.registry q.requested_model ≡ some source) where
  source_identity : Identity
  source_identity = record {
    model_key = q.requested_model;
    provider_key = some source.provider_key;
  }

  unmoved-IsEvidenced :
      (s : Selection) (v : Verdict)
      → Answered q s
      → s.decision ≡ v
      → (not (is_selected v) || s.hops == 0) ≡ true
      → IsEvidenced q (unmoved q a source s)
  unfolding unmoved IsEvidenced Evidenced Backed ruling_of source_identity
  unmoved-IsEvidenced s selected h chosen still =
      let at_rest : s.hops ≡ 0 = ground (arith, still) in
      rw (unmoved, chosen)
        (
          refl,
          (
            (source, there, refl),
            (
              s,
              h,
              chosen,
              sym at_rest,
              (source_identity, refl, unmoved_model q s h chosen at_rest, (source, there, refl)),
            ),
          ),
        )
  unmoved-IsEvidenced s denied h chosen still =
      rw (unmoved, chosen) (refl, ((source, there, refl), refl, (s, h, chosen)))

  describe_target-IsEvidenced :
      (s : Selection) (o : Option Descriptor)
      → Answered q s
      → s.decision ≡ selected
      → resolve_effective q.registry s.effective_model ≡ o
      → IsEvidenced q (describe_target q a source s o)
  unfolding describe_target moved_to IsEvidenced Evidenced Backed
  describe_target-IsEvidenced s none answer chosen h =
      unavailable-IsEvidenced q a "effective-model-unregistered"
  describe_target-IsEvidenced s (some target) answer chosen h =
      let (effective, found) = effective_found q.registry s.effective_model target h in
      (
        refl,
        (
          (source, there, refl),
          (
            s,
            answer,
            chosen,
            refl,
            (
              record { model_key = target.model_key; provider_key = some target.provider_key },
              refl,
              effective,
              (target, found, refl),
            ),
          ),
        ),
      )

  selected-one : (v : Verdict) (n : ℕ) → (not (is_selected v) || n == 0) ≡ false → v ≡ selected
  selected-one selected n h = refl
  selected-one denied n h = cc

  describe-IsEvidenced : (s : Selection) → Answered q s → IsEvidenced q (describe q a source s)
  unfolding describe
  describe-IsEvidenced s h = elim (Bool-cases (not (is_selected s.decision) || s.hops == 0)) [
    | inl e ↦ rw (describe, e) (unmoved-IsEvidenced s s.decision h refl e)
    | inr e ↦
        rw (describe, e) (describe_target-IsEvidenced s _ h (selected-one s.decision s.hops e) refl)
  ]

registered-IsEvidenced :
    (q : Query) (a : Attribution) (o : Option Descriptor) (d : Decision)
    → resolve_model_descriptor q.registry q.requested_model ≡ o
    → decide_registered q a o ≡ done d
    → IsEvidenced q d
unfolding decide_registered
registered-IsEvidenced q a none d there h =
    subst (IsEvidenced q) (done_injective _ _ h)
      (unavailable-IsEvidenced q a "requested-model-unregistered")
registered-IsEvidenced q a (some source) d there h =
    let (s, answer, e) =
      >>=-eq-done (select_effective_model q.requested_model q.policy q.remaining q.on_exhausted)
        (λ s. done (describe q a source s)) h in
    subst (IsEvidenced q) (done_injective _ _ e) (describe-IsEvidenced q a source there s answer)

-- Whatever was decided, the record is about the requested model, and it is never filled in by half. A
-- selection names the requested model and the one that the selector chose, each with the provider that
-- the registry has for it, and the selector's number of hops; a denial is the selector's, and names the
-- requested model and no effective one; otherwise there is no provider and no effective model.
pub decide-IsEvidenced :
    (q : Query) (d : Decision) → decide_model_selection q ≡ done d → IsEvidenced q d
unfolding decide_model_selection
decide-IsEvidenced q d h =
    let settled : Attribution → Reply ⊥ Decision =
      λ a. decide_registered q a (resolve_model_descriptor q.registry q.requested_model) in
    let (a, _, rest) =
      >>=-eq-done (attribution_for q.registry q.application_id q.application_key)
        (λ a.
          if str_eq q.registry.status "complete"
          then settled a
          else done (unavailable_decision q a "model-registry-unavailable"))
        h in
    elim (if_cases (str_eq q.registry.status "complete") (settled a) _ rest) [
      | inl (_, e) ↦ registered-IsEvidenced q a _ d refl e
      | inr (_, e) ↦
          subst (IsEvidenced q) (done_injective _ _ e)
            (unavailable-IsEvidenced q a "model-registry-unavailable")
    ]

-- A call with a pseudonym, a model and a known policy is answered, for a complete registry.
answered :
    (q : Query) (a : Attribution) (o : Option Descriptor)
    → q.requested_model ≢ ""
    → contains q.on_exhausted ("deny" ∷ "continue-with-requested" ∷ []) ≡ true
    → (d : Decision) × (decide_registered q a o ≡ done d)
unfolding decide_registered
answered q a none named known = (unavailable_decision q a "requested-model-unregistered", refl)
answered q a (some source) named known =
    let (s, e, _) =
      select-Outcome q.requested_model q.policy q.remaining q.on_exhausted named known in
    (describe q a source s, rw e refl)

-- A call with a versioned pseudonym, a model and a known policy for exhaustion is always answered.
pub decide_total :
    (q : Query)
    → is_application_key q.application_key ≡ true
    → q.requested_model ≢ ""
    → contains q.on_exhausted ("deny" ∷ "continue-with-requested" ∷ []) ≡ true
    → (d : Decision) × (decide_model_selection q ≡ done d)
unfolding decide_model_selection attribution_for
decide_total q key named known = elim (Bool-cases (str_eq q.registry.status "complete")) [
  | inl e ↦
      let a = resolve_application_attribution q.registry q.application_id q.application_key in
      let (d, h) =
        answered q a (resolve_model_descriptor q.registry q.requested_model) named known in
      (d, rw (key, e) h)
  | inr e ↦
      let a : Attribution = record {
        application_key = q.application_key;
        quality = none;
        display_code = none;
        reason_code = "model-registry-unavailable";
      } in
      (unavailable_decision q a "model-registry-unavailable", rw (key, e) refl)
]
