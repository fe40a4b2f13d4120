-- ===== src/Fallback/Splits.antt =====
-- What `compileFallbackPlan` answers: a plan without a chain, or the split of its hops.
use mathlib.Core.Path.{subst}
use mathlib.Core.List.{Memᴰ}
use mathlib.Core.List.Memᴰ
use azure_llm_governance_api.Prelude.{
  ℕ, ◌+◌, ◌≤◌, ◌<◌, String, Bool, true, false, not, none, some, List, [], length, ltb, str_eq,
  if◌then◌else◌, Reply, done, thrown, refused, ensure, ◌>>=◌, >>-done, >>=-eq-done, done_injective,
  if_cases, ◌<>◌, ◌≡◌, refl, sym, ap, ◌↔◌, ◌⊎◌, inl, inr, arith, eq_iff,
}
use azure_llm_governance_api.Prelude.Lists.{Memᴰ-sort_by, length-sort_by}
use azure_llm_governance_api.Prelude.Time.{Instant, is_instant}
use azure_llm_governance_api.Prelude.Sets.{contains}
use azure_llm_governance_api.Fallback.{Edge, Plan}
use azure_llm_governance_api.Fallback.Plans.{parse_time}
use azure_llm_governance_api.Fallback.Compile.{
  Registry, evaluate_hop, api_families, Disposition, unavailable, disabled, Compiled, without_chain,
  chain_of, rejections_of, Comparison, by_from, compile_edges, compile_in_time,
  compile_fallback_plan, window_closed, compiled_plan,
}
use azure_llm_governance_api.Fallback.Hops.{
  chain_of_sound, chain_of_complete, rejections_of_complete, length-parts,
}

-- A compiled plan that splits the authored hops: the chain holds exactly those that may be taken, and
-- each of the others is among the rejections, with its reason; there is nothing else.
pub record IsSplit (p : Plan) (r : Registry) (allowed : List String) (family : String)
    (c : Compiled) : Type 0 where
  pub chain_hop :
      (e : Edge) → Memᴰ e c.chain ↔ (Memᴰ e p.edges × (evaluate_hop e r allowed family ≡ none))
  pub rejected_hop :
      (e : Edge) (reason : String)
      → Memᴰ e p.edges
      → evaluate_hop e r allowed family ≡ some reason
      → Memᴰ (record { from = e.from; to = e.to; blocked_by = reason }) c.rejections
  pub nothing_else : length c.chain + length c.rejections ≡ length p.edges

-- A plan that is opted into, active and inside its window at a time.
pub record InForce (p : Plan) (now : ℕ) : Type 0 where
  pub is_enabled : p.enabled ≡ true
  pub is_active : p.state ≡ "active"
  pub from : ℕ
  pub from_time : p.valid_from ≡ some from
  pub from_instant : is_instant (some from) ≡ true
  pub begun : from ≤ now
  pub window :
      (p.valid_until ≡ none)
      ⊎ ((end : ℕ) × (p.valid_until ≡ some (some end))
          × (is_instant (some end) ≡ true)
          × (now < end))

module _ (compare : String → String → Comparison) (p : Plan) (r : Registry) (allowed : List String)
    (family : String) where
  compile_edges-IsSplit : IsSplit p r allowed family (compile_edges compare p r allowed family)
  unfolding compile_edges compiled_plan
  compile_edges-IsSplit = record {
    chain_hop = λ e. (
      λ m. chain_of_sound r allowed family e p.edges ((Memᴰ-sort_by _ e _).0 m),
      λ (m, h). (Memᴰ-sort_by _ e _).1 (chain_of_complete r allowed family e p.edges m h),
    );
    rejected_hop = λ e reason m h.
        (Memᴰ-sort_by _ _ _).1 (rejections_of_complete r allowed family e p.edges reason m h);
    nothing_else = omega (
      arith,
      length-sort_by (λ e f. by_from compare e.from e.to f.from f.to)
          (chain_of r allowed family p.edges),
      length-sort_by (λ e f. by_from compare e.from e.to f.from f.to)
          (rejections_of r allowed family p.edges),
      length-parts r allowed family p.edges,
    );
  }

  -- A call answers with a plan that has no chain, or with the split of the hops.
  Answered : Compiled → Type 0
  Answered c = (c.chain ≡ []) ⊎ (c ≡ compile_edges compare p r allowed family)

  window-Answered :
      (now : ℕ) (o : Reply ⊥ Bool) (c : Compiled)
      → (o >>= λ closed. done (
          if closed
          then without_chain disabled p "fallback-plan-window-closed"
          else compile_edges compare p r allowed family))
        ≡ done c
      → Answered c
  unfolding Answered without_chain
  window-Answered now (done true) c h =
      let e : without_chain disabled p "fallback-plan-window-closed" ≡ c = cc in inl (rw (← e) refl)
  window-Answered now (done false) c h =
      let e : compile_edges compare p r allowed family ≡ c = cc in inr (sym e)
  window-Answered now (refused e) c h = cc
  window-Answered now (thrown e) c h = cc

  no_chain :
      (d : Disposition) (reason : String) {c : Compiled} → without_chain d p reason ≡ c → Answered c
  unfolding Answered without_chain
  no_chain d reason e = inl (ap (λ x. x.chain) (sym e))

  in_time-Answered :
      (at : Instant) (c : Compiled)
      → compile_in_time compare p r allowed at family ≡ done c
      → Answered c
  unfolding compile_in_time parse_time
  in_time-Answered at c h =
      let rest : ℕ → Reply ⊥ Compiled = λ now. (do
        closed ← window_closed p.valid_until now
        done (
            if closed
            then without_chain disabled p "fallback-plan-window-closed"
            else compile_edges compare p r allowed family)) in
      let in_window : ℕ → Reply ⊥ Compiled = λ now. (do
        from ← parse_time p.valid_from "plan.validFrom"
        (if ltb now from
            then done (without_chain disabled p "fallback-plan-not-yet-valid")
            else rest now)) in
      let (now, _, started) = >>=-eq-done (parse_time at "evaluationTime") in_window h in
      let (from, _, tested) =
        >>=-eq-done (parse_time p.valid_from "plan.validFrom")
          (λ from.
            if ltb now from
            then done (without_chain disabled p "fallback-plan-not-yet-valid")
            else rest now)
          started in
      elim (if_cases (ltb now from) _ _ tested) [
        | inl (_, e) ↦ no_chain disabled "fallback-plan-not-yet-valid" (done_injective _ _ e)
        | inr (_, e) ↦ window-Answered now (window_closed p.valid_until now) c e
      ]

  compile-Answered :
      (at : Instant) (c : Compiled)
      → compile_fallback_plan compare p r allowed at family ≡ done c
      → Answered c
  unfolding compile_fallback_plan
  compile-Answered at c h =
      let late : Reply ⊥ Compiled = compile_in_time compare p r allowed at family in
      let active : Reply ⊥ Compiled =
        (if not (str_eq p.state "active")
          then done (without_chain disabled p ("fallback-plan-" <> p.state))
          else late) in
      let enabled : Reply ⊥ Compiled =
        (if not p.enabled
          then done (without_chain disabled p "fallback-not-opted-in")
          else active) in
      let main : Reply ⊥ Compiled =
        (if not (str_eq r.status "complete")
          then done (without_chain unavailable p "model-registry-unavailable")
          else enabled) in
      let known =
        >>-done
          (ensure (contains family api_families)
            "apiFamily must name the wire contract the chain is compiled for.")
          main h in
      elim (if_cases (not (str_eq r.status "complete")) _ enabled known.1) [
        | inl (_, e) ↦ no_chain unavailable "model-registry-unavailable" (done_injective _ _ e)
        | inr (_, e) ↦ elim (if_cases (not p.enabled) _ active e) [
          | inl (_, f) ↦ no_chain disabled "fallback-not-opted-in" (done_injective _ _ f)
          | inr (_, f) ↦ elim (if_cases (not (str_eq p.state "active")) _ late f) [
            | inl (_, g) ↦ no_chain disabled ("fallback-plan-" <> p.state) (done_injective _ _ g)
            | inr (_, g) ↦ in_time-Answered at c g
          ]
        ]
      ]

  -- A plan that is in force compiles to the split of its hops.
  compile-InForce :
      (now : ℕ)
      → is_instant (some now) ≡ true
      → contains family api_families ≡ true
      → r.status ≡ "complete"
      → InForce p now
      → compile_fallback_plan compare p r allowed (some now) family
        ≡ done (compile_edges compare p r allowed family)
  unfolding compile_fallback_plan compile_in_time parse_time window_closed
  compile-InForce now at known ready f = elim f.window [
    | inl e ↦ ground (
      arith,
      at,
      known,
      ready,
      e,
      eq_iff r.status "complete",
      eq_iff p.state "active",
      f.is_enabled,
      f.is_active,
      f.from_time,
      f.from_instant,
      f.begun,
    )
    | inr (end, e, ok, before) ↦ ground (
      arith,
      at,
      known,
      ready,
      e,
      ok,
      before,
      eq_iff r.status "complete",
      eq_iff p.state "active",
      f.is_enabled,
      f.is_active,
      f.from_time,
      f.from_instant,
      f.begun,
    )
  ]

  -- Whatever the plan, the registry, the allowlist and the order of texts, each hop of a compiled chain
  -- was authored, and the caller may take it.
  pub compile-chain :
      (at : Instant) (c : Compiled)
      → compile_fallback_plan compare p r allowed at family ≡ done c
      → (e : Edge) → Memᴰ e c.chain
      → Memᴰ e p.edges × (evaluate_hop e r allowed family ≡ none)
  unfolding Answered
  compile-chain at c h e m = elim (compile-Answered at c h) [
    | inl none_left ↦ absurd (Memᴰ.not-nil (subst (Memᴰ e) none_left m))
    | inr same ↦
        (compile_edges-IsSplit.chain_hop e).0 (subst (λ (x : Compiled). Memᴰ e x.chain) same m)
  ]

  -- A plan in force compiles, for a known contract and a complete registry, and splits its hops: the
  -- chain holds exactly those that may be taken, and each other one is rejected with its reason.
  pub compile-IsSplit :
      (now : ℕ)
      → is_instant (some now) ≡ true
      → contains family api_families ≡ true
      → r.status ≡ "complete"
      → InForce p now
      → (c : Compiled) × (compile_fallback_plan compare p r allowed (some now) family ≡ done c)
        × IsSplit p r allowed family c
  compile-IsSplit now at known ready f = (
    compile_edges compare p r allowed family,
    compile-InForce now at known ready f,
    compile_edges-IsSplit,
  )
