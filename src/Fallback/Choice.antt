-- ===== src/Fallback/Choice.antt =====
-- Which plan governs a caller, and which targets the authoring screen offers.
use mathlib.Core.List.{Memᴰ}
use mathlib.Core.List.Memᴰ
use azure_llm_governance_api.Prelude.{
  ℕ, ◌≤◌, String, true, false, not, ◌&&◌, Option, none, some, List, [], ◌∷◌, is_none, ltb, ensure,
  ◌>>◌, >>-done, done_injective, if_cases, str_eq, if◌then◌else◌, Reply, done, ◌≡◌, refl, sym, ap,
  ◌∙◌, ◌↔◌, ◌⊎◌, inl, inr, arith, Bool-cases, Option-cases, eq_iff,
}
use azure_llm_governance_api.Prelude.Sets.{contains, sorted_set, contains-sorted_set}
use azure_llm_governance_api.Fallback.{Edge, Plan}
use azure_llm_governance_api.Fallback.Compile.{
  Registry, evaluate_hop, Targets, targets_of, add_target, api_families, derive_permitted_targets,
}
use azure_llm_governance_api.Fallback.Select.{
  Caller, specificity, addresses, outranks, select_from, select_fallback_plan,
}

abbrev rank : Plan → ℕ
rank p = specificity p.target.kind

-- The plan that governs: it is one of a list and addresses the caller, and none that does ranks higher.
pub record Governs (c : Caller) (ps : List Plan) (p : Plan) : Type 0 where
  pub held : Memᴰ p ps
  pub addressed : addresses c p ≡ true
  pub highest : (q : Plan) → Memᴰ q ps → addresses c q ≡ true → rank q ≤ rank p

-- The state of the loop: the best of the plans that are behind it.
Best : Caller → List Plan → Option Plan → Type 0
Best c seen none = (q : Plan) → Memᴰ q seen → addresses c q ≡ false
Best c seen (some p) = Governs c seen p

Best-step :
    (c : Caller) (seen : List Plan) (o : Option Plan) (p : Plan)
    → Best c seen o
    → Best c (p ∷ seen) (if addresses c p && outranks p o then some p else o)
unfolding Best outranks
Best-step c seen none p b = elim (Bool-cases (addresses c p)) [
  | inl e ↦ rw e (record {
    held = Memᴰ.head refl;
    addressed = e;
    highest = λ q m a. elim (Memᴰ.cases_cons m) [
      | inl same ↦ rw same (omega arith)
      | inr n ↦ let f = b q n in cc
    ];
  })
  | inr e ↦ rw e (λ q m. elim (Memᴰ.cases_cons m) [ inl same ↦ rw same e | inr n ↦ b q n ])
]
Best-step c seen (some s) p b = elim (Bool-cases (addresses c p && ltb (rank s) (rank p))) [
  | inl e ↦ rw e (record {
    held = Memᴰ.head refl;
    addressed = ground (arith, e);
    highest = λ q m a. elim (Memᴰ.cases_cons m) [
      | inl same ↦ rw same (omega arith)
      | inr n ↦ ground (arith, b.highest q n a, e)
    ];
  })
  | inr e ↦ rw e (record {
    held = Memᴰ.tail b.held;
    addressed = b.addressed;
    highest = λ q m a. elim (Memᴰ.cases_cons m) [
      | inl same ↦ let f : addresses c p ≡ true = rw (← same) a in rw same (ground (arith, e, f))
      | inr n ↦ b.highest q n a
    ];
  })
]

-- The plans behind the loop, the last one first.
abbrev onto : List Plan → List Plan → List Plan
onto [] seen = seen
onto (p ∷ ps) seen = onto ps (p ∷ seen)

select_from-Best :
    (c : Caller) (seen : List Plan) (o : Option Plan) (ps : List Plan)
    → Best c seen o
    → Best c (onto ps seen) (select_from c o ps)
unfolding select_from
select_from-Best c seen o [] b = b
select_from-Best c seen o (p ∷ ps) b =
    select_from-Best c (p ∷ seen) (if addresses c p && outranks p o then some p else o) ps
      (Best-step c seen o p b)

Memᴰ-onto : (q : Plan) (ps seen : List Plan) → Memᴰ q (onto ps seen) ↔ (Memᴰ q ps ⊎ Memᴰ q seen)
Memᴰ-onto q [] seen = (inr, λ m. elim m [ inl n ↦ absurd (Memᴰ.not-nil n) | inr n ↦ n ])
Memᴰ-onto q (p ∷ ps) seen =
    let ih = Memᴰ-onto q ps (p ∷ seen) in
    (
      λ m. elim (ih.0 m) [
        | inl n ↦ inl (Memᴰ.tail n)
        | inr n ↦ elim (Memᴰ.cases_cons n) [ inl e ↦ inl (Memᴰ.head e) | inr k ↦ inr k ]
      ],
      λ m. ih.1 (elim m [
        | inl n ↦ elim (Memᴰ.cases_cons n) [ inl e ↦ inr (Memᴰ.head e) | inr k ↦ inl k ]
        | inr n ↦ inr (Memᴰ.tail n)
      ]),
    )

in_list : (q : Plan) (ps : List Plan) → Memᴰ q (onto ps []) → Memᴰ q ps
in_list q ps m = elim ((Memᴰ-onto q ps []).0 m) [ inl n ↦ n | inr n ↦ absurd (Memᴰ.not-nil n) ]

-- What a choice says of a list of plans.
pub IsChoice : Caller → List Plan → Option Plan → Type 0
IsChoice c ps none = (q : Plan) → Memᴰ q ps → addresses c q ≡ false
IsChoice c ps (some p) = Governs c ps p

Best-IsChoice :
    (c : Caller) (ps : List Plan) (o : Option Plan) → Best c (onto ps []) o → IsChoice c ps o
unfolding Best IsChoice
Best-IsChoice c ps none b = λ q m. b q ((Memᴰ-onto q ps []).1 (inl m))
Best-IsChoice c ps (some p) b = record {
  held = in_list p ps b.held;
  addressed = b.addressed;
  highest = λ q m a. b.highest q ((Memᴰ-onto q ps []).1 (inl m)) a;
}

-- The plan that is selected addresses the caller and no plan of the list that does is more specific;
-- none is selected only where no plan addresses the caller.
pub select_fallback_plan-IsChoice :
    (ps : List Plan) (c : Caller) → IsChoice c ps (select_fallback_plan ps c)
unfolding select_fallback_plan Best
select_fallback_plan-IsChoice ps c =
    Best-IsChoice c ps _ (select_from-Best c [] none ps (λ q m. absurd (Memᴰ.not-nil m)))

module _ (r : Registry) (allowed : List String) (source family : String) where
  abbrev hop_to : String → Edge
  hop_to t = record { from = source; to = t }

  targets_of-permitted :
      (t : String) (ts : List String)
      → contains t (targets_of r allowed source family ts).permitted ≡ (
          contains t ts
          && (not (str_eq t source) && is_none (evaluate_hop (hop_to t) r allowed family)))
  unfolding targets_of add_target
  targets_of-permitted t [] = refl
  targets_of-permitted t (u ∷ us) = elim (Bool-cases (str_eq u t)) [
    | inl e ↦
        rw ((eq_iff u t).0 e) (elim (Option-cases (evaluate_hop (hop_to t) r allowed family)) [
          | inl h ↦ ground (arith, targets_of-permitted t us, h, eq_iff t t)
          | inr (x, h) ↦ ground (arith, targets_of-permitted t us, h, eq_iff t t)
        ])
    | inr e ↦ elim (Option-cases (evaluate_hop (hop_to u) r allowed family)) [
      | inl h ↦ ground (arith, targets_of-permitted t us, h, e)
      | inr (x, h) ↦ ground (arith, targets_of-permitted t us, h, e)
    ]
  ]

  -- For a complete registry, the screen offers as targets exactly the entitled models other than the
  -- source to which the compiler lets the hop pass.
  pub derive-permitted :
      (targets : Targets)
      → r.status ≡ "complete"
      → derive_permitted_targets r allowed source family ≡ done targets
      → (t : String)
      → contains t targets.permitted ≡ (
          contains t allowed
          && (not (str_eq t source) && is_none (evaluate_hop (hop_to t) r allowed family)))
  unfolding derive_permitted_targets
  derive-permitted targets ready h t =
      let derived : Targets =
        (if str_eq r.status "complete"
          then targets_of r allowed source family (sorted_set allowed)
          else record { permitted = []; refused = [] }) in
      let known : Reply ⊥ Targets = (do
        ensure (contains family api_families)
            "apiFamily must name the wire contract the targets are judged for."
        done derived) in
      let (_, named) =
        >>-done (ensure (not (str_eq source "")) "source must name a model.") known h in
      let (_, e) =
        >>-done
          (ensure (contains family api_families)
            "apiFamily must name the wire contract the targets are judged for.")
          (done derived) named in
      elim (if_cases (str_eq r.status "complete") _ _ (done_injective _ _ e)) [
        | inl (_, same) ↦
            ap (λ (x : Targets). contains t x.permitted) (sym same)
            ∙ (targets_of-permitted t (sorted_set allowed)
                ∙ ap
                    (λ b.
                      b
                      && (not (str_eq t source)
                          && is_none (evaluate_hop (hop_to t) r allowed family)))
                    (contains-sorted_set t allowed))
        | inr (other, _) ↦ ground (arith, other, ready, eq_iff r.status "complete")
      ]
