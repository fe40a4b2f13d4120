-- ===== src/Selection/Compiled.antt =====
-- The selector on the chain that fallback-plan-compiler.mjs has compiled.
use mathlib.Core.Path.{subst}
use mathlib.Core.List.{Memᴰ}
use azure_llm_governance_api.Prelude.{
  ℕ, zero, suc, ◌<◌, String, true, none, some, List, [], ◌∷◌, done, done_injective, some_injective,
  ◌≡◌, ◌≢◌, refl, sym, ◌∙◌, ◌⊎◌, inl, inr, arith, ◌&&◌, str_eq, Bool-cases, eq_iff,
}
use azure_llm_governance_api.Prelude.Sets.{contains}
use azure_llm_governance_api.Prelude.Time.{Instant}
use azure_llm_governance_api.Fallback.{Edge, Plan}
use azure_llm_governance_api.Fallback.Compile.{
  Registry, Compiled, Comparison, compile_fallback_plan,
}
use azure_llm_governance_api.Fallback.Hops.{Serves, evaluate_hop_lem}
use azure_llm_governance_api.Fallback.Splits.{compile-chain}
use azure_llm_governance_api.Selection.{
  Limit, Remaining, Chain, Policy, is_breached, breached_scopes, breached_among, scope_order,
  Selection, select_effective_model,
}
use azure_llm_governance_api.Selection.Moves.{
  Walks, here, hop, Outcome, kept, moved, turned_away, select-Outcome,
}

-- A model that a caller is entitled to and that serves a contract.
pub record Granted (r : Registry) (allowed : List String) (family : String) (m : String)
    : Type 0 where
  pub entitled : contains m allowed ≡ true
  pub serves : Serves r family m

module _ (compare : String → String → Comparison) (plan : Plan) (r : Registry)
    (allowed : List String) (family : String) (at : Instant) (compiled : Compiled)
    (ready : compile_fallback_plan compare plan r allowed at family ≡ done compiled) where
  hop-Granted : (e : Edge) → Memᴰ e compiled.chain → Granted r allowed family e.to
  hop-Granted e m =
      let (_, free) = compile-chain compare plan r allowed family at compiled ready e m in
      let (_, entitled, _, serves) = (evaluate_hop_lem e r allowed family).0 free in
      record { entitled = entitled; serves = serves }

  Walks-Granted :
      (models : List String) (m : String) (n : ℕ) (last : String)
      → Walks compiled.chain models m n last
      → 0 < n
      → Granted r allowed family last
  Walks-Granted models m n last here h = absurd (omega (arith, h))
  Walks-Granted models m n last (hop {n = zero} e k f a here) h = hop-Granted e k
  Walks-Granted models m n last (hop {n = suc i} e k f a rest) h =
      Walks-Granted models e.to (suc i) last rest (omega arith)

  -- Under a policy that carries a compiled chain, the model that is served is the requested one, or one
  -- that the caller is entitled to and that the registry says serves the contract in use.
  pub selected-Granted :
      (requested on_exhausted : String) (p : Policy) (remaining : List Remaining) (s : Selection)
      (m : String)
      → requested ≢ ""
      → contains on_exhausted ("deny" ∷ "continue-with-requested" ∷ []) ≡ true
      → ((c : Chain) → p.fallback ≡ some c → c.chain ≡ compiled.chain)
      → select_effective_model requested p remaining on_exhausted ≡ done s
      → s.effective_model ≡ some m
      → (m ≡ requested) ⊎ Granted r allowed family m
  selected-Granted requested on_exhausted p remaining s m named known carried h model =
      let (t, answered, outcome) = select-Outcome requested p remaining on_exhausted named known in
      let same : t ≡ s = done_injective _ _ (sym answered ∙ h) in
      elim (subst (Outcome requested p remaining on_exhausted) same outcome) [
        | kept _ e _ _ ↦ inl (some_injective _ _ (sym model ∙ e))
        | moved c last _ e u over some_hop few path ↦
            let here_last : last ≡ m = some_injective _ _ (sym e ∙ model) in
            let chain = carried c u.attached in
            inr (
              subst (Granted r allowed family) here_last (
                Walks-Granted p.allowed_models requested s.hops last
                  (subst (λ es. Walks es p.allowed_models requested s.hops last) chain path)
                  some_hop))
        | turned_away _ _ e _ _ _ _ ↦ absurd (let f : none ≡ some m = sym e ∙ model in cc)
      ]

contains-breached_among :
    (limits : List Limit) (remaining : List Remaining) (threshold : ℕ) (scope : String)
    (ss : List String)
    → contains scope (breached_among limits remaining threshold ss)
      ≡ (contains scope ss && is_breached limits remaining threshold scope)
unfolding breached_among
contains-breached_among limits remaining threshold scope [] = refl
contains-breached_among limits remaining threshold scope (t ∷ ts) =
    elim (Bool-cases (str_eq t scope)) [
      | inl e ↦ rw ((eq_iff t scope).0 e) (
          ground (
            arith,
            contains-breached_among limits remaining threshold scope ts,
            eq_iff scope scope,
          ))
      | inr e ↦ ground (arith, contains-breached_among limits remaining threshold scope ts, e)
    ]

-- The scopes that are reported are the known ones whose share is used up.
pub contains-breached_scopes :
    (limits : List Limit) (remaining : List Remaining) (threshold : ℕ) (scope : String)
    → contains scope (breached_scopes limits remaining threshold)
      ≡ (contains scope scope_order && is_breached limits remaining threshold scope)
unfolding breached_scopes
contains-breached_scopes limits remaining threshold scope =
    contains-breached_among limits remaining threshold scope scope_order
