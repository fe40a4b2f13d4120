-- ===== src/Fallback/Governed.antt =====
-- What accepted additions and edits of fallback plans keep of the plans.
use azure_llm_governance_api.Prelude.{
  String, ◌≡◌, refl, sym, ap, ◌∙◌, ◌⊎◌, inl, inr, true, false, Bool, Option, none, some, List, [],
  ◌∷◌, map, find, any, arith, Bool-cases, eq_refl, some_injective,
}
use mathlib.Core.List.{Memᴰ}
use mathlib.Core.List.Memᴰ
use azure_llm_governance_api.Fallback.{Party, Plan}
use azure_llm_governance_api.Fallback.Compile.{Comparison}
use azure_llm_governance_api.Fallback.Snapshot.{FallbackPolicy}
use azure_llm_governance_api.Fallback.Authored.{
  PlanChanges, has_plan_id, same_target, same_key, promises_in_vain, edited,
}
use azure_llm_governance_api.Fallback.Edit.{swapped_plan}

same_key_refl : (k : Option String) → same_key k k ≡ true
unfolding same_key
same_key_refl none = refl
same_key_refl (some k) = eq_refl k

same_target_refl : (t : Party) → same_target t t ≡ true
unfolding same_target
same_target_refl t = ground (arith, eq_refl t.kind, same_key_refl t.key)

none-satisfies :
    (f : Plan → Bool) (xs : List Plan) {p : Plan} → any f xs ≡ false → Memᴰ p xs → f p ≡ false
none-satisfies f [] h m = absurd (Memᴰ.not-nil m)
none-satisfies f (x ∷ xs) h (Memᴰ.head e) = rw e (ground arith)
none-satisfies f (x ∷ xs) h (Memᴰ.tail m) = none-satisfies f xs (ground arith) m

found-plan :
    (f : Plan → Bool) (xs : List Plan) {p : Plan} → find f xs ≡ some p → Memᴰ p xs × (f p ≡ true)
found-plan f [] h = cc
found-plan f (x ∷ xs) {p} h = elim (Bool-cases (f x)) [
  | inl e ↦
      let same : x ≡ p = some_injective _ _ (rw e at h) in (Memᴰ.head (sym same), rw (← same) e)
  | inr e ↦ let (m, t) = found-plan f xs (rw e at h) in (Memᴰ.tail m, t)
]

pub swapped-cases :
    (id : String) (new p : Plan) (xs : List Plan)
    → Memᴰ p (map (swapped_plan id new) xs)
    → (Memᴰ p xs × (has_plan_id id p ≡ false)) ⊎ (p ≡ new)
unfolding swapped_plan
swapped-cases id new p [] m = absurd (Memᴰ.not-nil m)
swapped-cases id new p (x ∷ xs) m = elim (Memᴰ.cases_cons m) [
  | inl same ↦ elim (Bool-cases (has_plan_id id x)) [
    | inl e ↦ inr (rw e at same)
    | inr e ↦ let same' : p ≡ x = rw e at same in inl (Memᴰ.head same', rw same' e)
  ]
  | inr n ↦ elim (swapped-cases id new p xs n) [ inl (k, h) ↦ inl (Memᴰ.tail k, h) | inr h ↦ inr h ]
]

-- No two plans govern one target, and no plan promises an inline notice of a change of model that it
-- rules out.
pub record IsGoverned (s : FallbackPolicy) : Type 0 where
  pub one_each : (p q : Plan) → Memᴰ p s.plans → Memᴰ q s.plans → p.target ≡ q.target → p ≡ q
  pub honest : (p : Plan) → Memᴰ p s.plans → promises_in_vain p ≡ false

module _ (s : FallbackPolicy) (g : IsGoverned s) where
  pub one_each-entered :
      (new : Plan) (p q : Plan)
      → any (λ x. same_target x.target new.target) s.plans ≡ false
      → Memᴰ p s.plans ⊎ (p ≡ new)
      → Memᴰ q s.plans ⊎ (q ≡ new)
      → p.target ≡ q.target
      → p ≡ q
  one_each-entered new p q free (inl m) (inl n) e = g.one_each p q m n e
  one_each-entered new p q free (inr m) (inr n) e = m ∙ sym n
  one_each-entered new p q free (inl m) (inr n) e =
      let clash : same_target p.target new.target ≡ true =
        rw (e, ap (λ (x : Plan). x.target) n) (same_target_refl new.target) in
      absurd (cc (clash, none-satisfies _ s.plans free m))
  one_each-entered new p q free (inr m) (inl n) e =
      let clash : same_target q.target new.target ≡ true =
        rw (sym e, ap (λ (x : Plan). x.target) m) (same_target_refl new.target) in
      absurd (cc (clash, none-satisfies _ s.plans free n))

  -- A changed plan keeps its target.
  pub one_each-swapped :
      (compare : String → String → Comparison) (id : String) (c : PlanChanges) (target p q : Plan)
      → find (has_plan_id id) s.plans ≡ some target
      → (Memᴰ p s.plans × (has_plan_id id p ≡ false)) ⊎ (p ≡ edited compare target c)
      → (Memᴰ q s.plans × (has_plan_id id q ≡ false)) ⊎ (q ≡ edited compare target c)
      → p.target ≡ q.target
      → p ≡ q
  unfolding edited
  one_each-swapped compare id c target p q found (inl (m, _)) (inl (n, _)) e = g.one_each p q m n e
  one_each-swapped compare id c target p q found (inr m) (inr n) e = m ∙ sym n
  one_each-swapped compare id c target p q found (inl (m, other)) (inr n) e =
      let (k, own) = found-plan (has_plan_id id) s.plans found in
      let same = g.one_each p target m k (e ∙ ap (λ (x : Plan). x.target) n) in
      absurd (cc (own, rw same at other))
  one_each-swapped compare id c target p q found (inr m) (inl (n, other)) e =
      let (k, own) = found-plan (has_plan_id id) s.plans found in
      let same = g.one_each q target n k (sym e ∙ ap (λ (x : Plan). x.target) m) in
      absurd (cc (own, rw same at other))
