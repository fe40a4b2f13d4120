-- ===== src/Policy/Composed.antt =====
-- What a composed document keeps of the decision, the plan and the budgets that it was composed from.
use mathlib.Core.List.{Memᴰ}
use azure_llm_governance_api.Prelude.{
  ℕ, ◌||◌, String, ◌≡◌, ◌∙◌, refl, sym, inl, inr, true, false, not, Option, none, some, List, [],
  ◌∷◌, is_none, done, ensure, ensure-true, >>-done, >>=-eq-done, done_injective, Bool-cases, arith,
  All,
}
use azure_llm_governance_api.Prelude.Sets.{contains, sorted_set}
use azure_llm_governance_api.Fallback.{Edge}
use azure_llm_governance_api.Fallback.Compile.{Comparison}
use azure_llm_governance_api.Authorization.{Binding}
use azure_llm_governance_api.Policy.{BudgetLimit, governed_scope}
use azure_llm_governance_api.Policy.Merged.{CapAt, HasScope, budget_caps, budget_identity}
use azure_llm_governance_api.Policy.Listed.{plain, has_caps, binding-CapAt, budget-CapAt}
use azure_llm_governance_api.Policy.Compose.{
  Request, Document, Chain, Deployment, no_chain, assert_hop, assert_hops, chain_of_hops,
  assert_compiled_fallback, collect_model_deployments, applied_bindings, least, assert_warning,
  has_organization, assert_selection, assert_request, assert_times, document, limits_for,
  compose_document,
}

-- The parts that a document was made of.
pub record MadeOf (compare : String → String → Comparison) (r : Request) (d : Document)
    : Type 0 where
  pub bindings : List Binding
  pub deployments : List Deployment
  pub chain : Chain
  pub applied :
      applied_bindings r.entitlements.bindings r.authorization.applied_bindings ≡ done bindings
  pub organization : has_organization (limits_for compare r bindings) ≡ true
  pub fallback :
      assert_compiled_fallback r.fallback (sorted_set r.authorization.model_allowlist) ≡ done chain
  pub warned :
      assert_warning chain (least r.warn_threshold_percent r.budget_warn_threshold_percent)
      ≡ done tt
  pub made :
      d
      ≡ document compare r
          (sorted_set r.authorization.model_allowlist)
          deployments
          (limits_for compare r bindings)
          chain

pub compose-MadeOf :
    (compare : String → String → Comparison) (r : Request) {d : Document}
    → compose_document compare r ≡ done d
    → MadeOf compare r d
unfolding compose_document
compose-MadeOf compare r h =
    let allowed = sorted_set r.authorization.model_allowlist in
    let (_, h1) = >>-done (assert_request r allowed) _ h in
    let (bs, applied, h2) =
      >>=-eq-done (applied_bindings r.entitlements.bindings r.authorization.applied_bindings) _
        h1 in
    let (org, h3) = >>-done (ensure (has_organization (limits_for compare r bs)) _) _ h2 in
    let (_, h4) = >>-done (assert_times r) _ h3 in
    let (ds, _, h5) = >>=-eq-done (collect_model_deployments r.models allowed) _ h4 in
    let (chain, fallback, h6) = >>=-eq-done (assert_compiled_fallback r.fallback allowed) _ h5 in
    let (warned, h7) =
      >>-done
        (assert_warning chain (least r.warn_threshold_percent r.budget_warn_threshold_percent)) _
        h6 in
    let (_, h8) = >>-done (assert_selection r.model_selection_intent r.substitution_notice) _ h7 in
    record {
      bindings = bs;
      deployments = ds;
      chain = chain;
      applied = applied;
      organization = ensure-true _ _ org;
      fallback = fallback;
      warned = warned;
      made = sym (done_injective _ _ h8);
    }

-- Whatever an applied binding caps, a document caps in the binding's scope as tightly at least.
pub composed-binding :
    (compare : String → String → Comparison) (r : Request) (bs : List Binding) (b : Binding)
    {d : Document}
    → compose_document compare r ≡ done d
    → applied_bindings r.entitlements.bindings r.authorization.applied_bindings ≡ done bs
    → All HasScope r.budget_limits
    → Memᴰ b bs
    → has_caps b.limits ≡ true
    → CapAt
        (plain (governed_scope (not (is_none r.identifiers.team_key)) b.target))
        b.limits
        d.limits
unfolding document limits_for
composed-binding compare r bs b h applied hs there capped =
    let k = compose-MadeOf compare r h in
    let same : k.bindings ≡ bs = done_injective _ _ (sym k.applied ∙ applied) in
    rw (k.made, same)
      (binding-CapAt compare (not (is_none r.identifiers.team_key)) bs r.budget_limits b hs there
        capped)

-- Whatever a budget caps, a document caps on the budget's counter as tightly at least.
pub composed-budget :
    (compare : String → String → Comparison) (r : Request) (c : BudgetLimit) {d : Document}
    → compose_document compare r ≡ done d
    → All HasScope r.budget_limits
    → Memᴰ c r.budget_limits
    → CapAt (budget_identity c) (budget_caps c) d.limits
unfolding document limits_for
composed-budget compare r c h hs there =
    let k = compose-MadeOf compare r h in
    rw k.made (
      budget-CapAt compare (not (is_none r.identifiers.team_key)) k.bindings r.budget_limits c hs
        there)

-- A hop between models that the caller may use.
abbrev pub Within : List String → Edge → Type 0
Within allowed e = (contains e.from allowed ≡ true) × (contains e.to allowed ≡ true)

Within-assert_hops :
    (allowed : List String) (es : List Edge)
    → assert_hops allowed es ≡ done tt
    → All (Within allowed) es
unfolding assert_hops assert_hop
Within-assert_hops allowed [] h = tt
Within-assert_hops allowed (e ∷ es) h =
    let (one, rest) = >>-done (assert_hop allowed e) _ h in
    let (from, to) = >>-done (ensure (contains e.from allowed) _) _ one in
    ((ensure-true _ _ from, ensure-true _ _ to), Within-assert_hops allowed es rest)

Within-chain_of_hops :
    (allowed : List String) (depth : ℕ) (es : List Edge)
    → All (Within allowed) es
    → All (Within allowed) (chain_of_hops depth es).chain
unfolding chain_of_hops
Within-chain_of_hops allowed depth [] h = tt
Within-chain_of_hops allowed depth (e ∷ es) h = h

Within-chain :
    (o : Option Chain) (allowed : List String) {k : Chain}
    → assert_compiled_fallback o allowed ≡ done k
    → All (Within allowed) k.chain
unfolding assert_compiled_fallback
Within-chain none allowed h = rw (← done_injective {R = ⊥} no_chain _ h) tt
Within-chain (some c) allowed h = elim (Bool-cases c.enabled) [
  | inr e ↦ rw (← done_injective {R = ⊥} no_chain _ (rw e at h)) tt
  | inl e ↦
      let (hops, made) = >>-done (assert_hops allowed c.chain) _ (rw e at h) in
      rw (← done_injective _ _ made)
        (Within-chain_of_hops allowed c.max_depth c.chain (Within-assert_hops allowed c.chain hops))
]

warning_given :
    (k : Chain) (warn : Option ℕ)
    → assert_warning k warn ≡ done tt
    → k.enabled ≡ true
    → is_none warn ≡ false
unfolding assert_warning
warning_given k none h e = cc (ensure-true _ _ h)
warning_given k (some n) h e = refl

-- In a document each hop of the fallback leads from one allowed model to another, a limit of the whole
-- organization stands among the limits, and a fallback that is enabled has the threshold that arms it.
pub composed-fallback :
    (compare : String → String → Comparison) (r : Request) {d : Document}
    → compose_document compare r ≡ done d
    → All (Within d.allowed_models) d.fallback.chain
      × (has_organization d.limits ≡ true)
      × ((not d.fallback.enabled || not (is_none d.warn_threshold_percent)) ≡ true)
unfolding document
composed-fallback compare r h =
    let k = compose-MadeOf compare r h in
    rw k.made (
      Within-chain r.fallback (sorted_set r.authorization.model_allowlist) k.fallback,
      k.organization,
      ground (
        arith,
        warning_given k.chain (least r.warn_threshold_percent r.budget_warn_threshold_percent)
            k.warned,
      ),
    )
