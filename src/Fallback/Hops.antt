-- ===== src/Fallback/Hops.antt =====
-- When a hop may be taken, and how the compiler parts the hops that may from the others.
use mathlib.Core.List.{Memᴰ}
use mathlib.Core.List.Memᴰ
use azure_llm_governance_api.Prelude.{
  ◌+◌, String, Bool, true, Option, none, some, List, [], ◌∷◌, length, is_none, ◌≡◌, refl, ap, ◌↔◌,
  inl, inr, arith, Bool-cases, Option-cases,
}
use azure_llm_governance_api.Prelude.Sets.{contains}
use azure_llm_governance_api.Fallback.{Edge}
use azure_llm_governance_api.Fallback.Compile.{
  Descriptor, Registry, resolve_model_descriptor, registered_hop, evaluate_hop, chain_of,
  rejections_of,
}

-- A model that the registry holds and that serves a wire contract.
pub Serves : Registry → String → String → Type 0
Serves r family key =
    (d : Descriptor) × (resolve_model_descriptor r key ≡ some d)
    × (contains family d.api_families ≡ true)

-- A hop may be taken exactly when the caller is entitled to both models, and the registry holds both
-- and says that both serve the contract.
pub evaluate_hop_lem :
    (e : Edge) (r : Registry) (allowed : List String) (family : String)
    → (evaluate_hop e r allowed family ≡ none) ↔ (
        (contains e.from allowed ≡ true)
        × (contains e.to allowed ≡ true)
        × Serves r family e.from
        × Serves r family e.to)
unfolding evaluate_hop Serves registered_hop
evaluate_hop_lem e r allowed family = elim (Option-cases (resolve_model_descriptor r e.from)) [
  | inl a ↦ (λ h. ground (arith, a, h), λ (p, q, (d, x, y), t). ground (arith, a, x))
  | inr (d, a) ↦ elim (Option-cases (resolve_model_descriptor r e.to)) [
    | inl b ↦ (λ h. ground (arith, a, b, h), λ (p, q, s, (f, x, y)). ground (arith, b, x))
    | inr (f, b) ↦ (
      λ h. (
        ground (arith, a, b, h),
        ground (arith, a, b, h),
        (d, a, ground (arith, a, b, h)),
        (f, b, ground (arith, a, b, h)),
      ),
      λ (p, q, (x, hx, sx), (y, hy, sy)).
          let source : d ≡ x = cc in
          let target : f ≡ y = cc in
          let s : contains family d.api_families ≡ true = rw source sx in
          let t : contains family f.api_families ≡ true = rw target sy in
          ground (arith, a, b, p, q, s, t),
    )
  ]
]

module _ (r : Registry) (allowed : List String) (family : String) where
  abbrev permitted_hop : Edge → Bool
  permitted_hop e = is_none (evaluate_hop e r allowed family)

  none_of : (o : Option String) → is_none o ≡ true → o ≡ none
  none_of none h = refl
  none_of (some x) h = cc

  -- A hop of the chain is one of the authored hops, and may be taken.
  pub chain_of_sound :
      (e : Edge) (es : List Edge)
      → Memᴰ e (chain_of r allowed family es)
      → Memᴰ e es × (evaluate_hop e r allowed family ≡ none)
  unfolding chain_of
  chain_of_sound e [] m = absurd (Memᴰ.not-nil m)
  chain_of_sound e (f ∷ es) m = elim (Bool-cases (permitted_hop f)) [
    | inl h ↦ elim (Memᴰ.cases_cons (rw h at m)) [
      | inl same ↦ (Memᴰ.head same, rw same (none_of _ h))
      | inr n ↦ let (k, q) = chain_of_sound e es n in (Memᴰ.tail k, q)
    ]
    | inr h ↦ let (k, q) = chain_of_sound e es (rw h at m) in (Memᴰ.tail k, q)
  ]

  pub chain_of_complete :
      (e : Edge) (es : List Edge)
      → Memᴰ e es
      → evaluate_hop e r allowed family ≡ none
      → Memᴰ e (chain_of r allowed family es)
  unfolding chain_of
  chain_of_complete e [] m h = absurd (Memᴰ.not-nil m)
  chain_of_complete e (f ∷ es) m h = elim (Memᴰ.cases_cons m) [
    | inl same ↦
        let p : permitted_hop f ≡ true = rw (← same) (ap is_none h) in rw p (Memᴰ.head same)
    | inr n ↦ elim (Bool-cases (permitted_hop f)) [
      | inl p ↦ rw p (Memᴰ.tail (chain_of_complete e es n h))
      | inr p ↦ rw p (chain_of_complete e es n h)
    ]
  ]

  pub rejections_of_complete :
      (e : Edge) (es : List Edge) (reason : String)
      → Memᴰ e es
      → evaluate_hop e r allowed family ≡ some reason
      → Memᴰ
          (record { from = e.from; to = e.to; blocked_by = reason })
          (rejections_of r allowed family es)
  unfolding rejections_of
  rejections_of_complete e [] reason m h = absurd (Memᴰ.not-nil m)
  rejections_of_complete e (f ∷ es) reason m h = elim (Memᴰ.cases_cons m) [
    | inl same ↦
        let p : evaluate_hop f r allowed family ≡ some reason = rw (← same) h in
        rw (rejections_of, p) (rw same (Memᴰ.head refl))
    | inr n ↦ elim (Option-cases (evaluate_hop f r allowed family)) [
      | inl p ↦ rw (rejections_of, p) (rejections_of_complete e es reason n h)
      | inr (_, p) ↦ rw (rejections_of, p) (Memᴰ.tail (rejections_of_complete e es reason n h))
    ]
  ]

  pub length-parts :
      (es : List Edge)
      → length (chain_of r allowed family es) + length (rejections_of r allowed family es)
        ≡ length es
  unfolding chain_of rejections_of
  length-parts [] = omega arith
  length-parts (e ∷ es) = elim (Option-cases (evaluate_hop e r allowed family)) [
    | inl h ↦ rw (chain_of, rejections_of, h) (omega (arith, length-parts es))
    | inr (reason, h) ↦ rw (chain_of, rejections_of, h) (omega (arith, length-parts es))
  ]
