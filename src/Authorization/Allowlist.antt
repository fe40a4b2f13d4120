-- ===== src/Authorization/Allowlist.antt =====
-- Which models a list of bindings leaves, and the rates that go with them.
use mathlib.Core.List.{Memᴰ}
use mathlib.Core.List.Memᴰ
use native.Mathlib.Decide.{dec_le}
use azure_llm_governance_api.Prelude.{
  ℕ, String, ◌≡◌, ◌≤◌, refl, ◌∙◌, inl, inr, Bool, true, not, ◌&&◌, ◌||◌, Option, some, List, [],
  ◌∷◌, any, every, keep, min, arith, Option-cases,
}
use azure_llm_governance_api.Prelude.Sets.{
  contains, contains-keep, contains-unique, contains-sorted_set, contains-flat_map,
}
use azure_llm_governance_api.Authorization.{Binding, Limits}
use azure_llm_governance_api.Authorization.Rules.{
  is_organization, is_grant, ceiling, allowlist_of, resolve_model_allowlist, minimum_limit,
}

abbrev pub grants_model : String → Binding → Bool
grants_model m b = contains m b.model_allowlist

-- A test that a list answers from its first element on.
every-keep :
    (p : Binding → Bool) (q : Binding → Bool) (bs : List Binding)
    → every q (keep p bs) ≡ every (λ b. not (p b) || q b) bs
every-keep p q [] = refl
every-keep p q (b ∷ bs) = ground (arith, every-keep p q bs)

any-keep :
    (p : Binding → Bool) (q : Binding → Bool) (bs : List Binding)
    → any q (keep p bs) ≡ any (λ b. p b && q b) bs
any-keep p q [] = refl
any-keep p q (b ∷ bs) = ground (arith, any-keep p q bs)

contains-ceiling :
    (m : String) (o : Binding) (os : List Binding)
    → contains m (ceiling (o ∷ os)) ≡ every (grants_model m) (o ∷ os)
unfolding ceiling
contains-ceiling m o os =
    contains-unique m _
    ∙ (contains-keep (λ k. every (grants_model k) (o ∷ os)) m o.model_allowlist ∙ ground arith)

any-keep_all : (p : Binding → Bool) (bs : List Binding) → any (λ _. true) (keep p bs) ≡ any p bs
any-keep_all p [] = refl
any-keep_all p (b ∷ bs) = ground (arith, any-keep_all p bs)

contains-allowlist_of :
    (m : String) (orgs grants : List Binding)
    → contains m (allowlist_of orgs grants) ≡ (
        any (λ _. true) orgs
        && (every (grants_model m) orgs
            && (not (any (λ _. true) grants) || any (grants_model m) grants)))
unfolding allowlist_of
contains-allowlist_of m [] grants = refl
contains-allowlist_of m (o ∷ os) [] =
    contains-sorted_set m (ceiling (o ∷ os)) ∙ (contains-ceiling m o os ∙ ground arith)
contains-allowlist_of m (o ∷ os) (g ∷ gs) =
    contains-sorted_set m _
    ∙ (contains-keep (λ k. contains k (ceiling (o ∷ os))) m _
        ∙ (rw contains-unique (rw contains-flat_map (rw contains-ceiling (ground arith)))))

-- A model is allowed exactly when there is an organization-wide binding, all of those allow it, and
-- either no narrower binding is there or one of the narrower bindings allows it.
pub contains-allowlist :
    (m : String) (bs : List Binding)
    → contains m (resolve_model_allowlist bs) ≡ (
        any is_organization bs
        && (every (λ b. not (is_organization b) || grants_model m b) bs
            && (not (any is_grant bs) || any (λ b. is_grant b && grants_model m b) bs)))
unfolding resolve_model_allowlist
contains-allowlist m bs =
    contains-allowlist_of m (keep is_organization bs) (keep is_grant bs)
    ∙ rw (any-keep_all, any-keep_all, every-keep, any-keep)

module _ (name : Limits → Option ℕ) where
  minimum_limit-le :
      (bs : List Binding) {b : Binding} {w : ℕ}
      → Memᴰ b bs
      → name b.limits ≡ some w
      → (v : ℕ) × (minimum_limit name bs ≡ some v) × (v ≤ w)
  unfolding minimum_limit
  minimum_limit-le [] m h = absurd (Memᴰ.not-nil m)
  minimum_limit-le (c ∷ bs) {b} {w} (Memᴰ.head e) h =
      let f : name c.limits ≡ some w = rw (← e) h in
      elim (Option-cases (minimum_limit name bs)) [
        | inl n ↦ (w, ground (arith, f, n), omega arith)
        | inr (v, n) ↦ (min w v, ground (arith, f, n), omega arith)
      ]
  minimum_limit-le (c ∷ bs) {b} {w} (Memᴰ.tail m) h =
      let (v, e, le) = minimum_limit-le bs m h in
      elim (Option-cases (name c.limits)) [
        | inl n ↦ (v, ground (arith, e, n), le)
        | inr (u, n) ↦ (min u v, ground (arith, e, n), omega arith)
      ]

  minimum_limit-from :
      (bs : List Binding) {v : ℕ}
      → minimum_limit name bs ≡ some v
      → (b : Binding) × Memᴰ b bs × (name b.limits ≡ some v)
  unfolding minimum_limit
  minimum_limit-from [] h = cc
  minimum_limit-from (c ∷ bs) {v} h = elim (Option-cases (name c.limits)) [
    | inl n ↦ let (b, m, e) = minimum_limit-from bs (ground arith) in (b, Memᴰ.tail m, e)
    | inr (u, n) ↦ elim (Option-cases (minimum_limit name bs)) [
      | inl k ↦ (c, Memᴰ.head refl, ground arith)
      | inr (w, k) ↦ elim (dec_le u w) [
        | yes le ↦ (c, Memᴰ.head refl, ground arith)
        | no gt ↦ let (b, m, e) = minimum_limit-from bs k in (b, Memᴰ.tail m, e ∙ ground arith)
      ]
    ]
  ]

-- The rate that applies is the smallest that any of the bindings sets: one of them sets it, and none
-- sets a smaller one; it is absent only where no binding sets a rate.
pub minimum_limit_lem :
    (name : Limits → Option ℕ) (bs : List Binding)
    → ((v : ℕ)
        → minimum_limit name bs ≡ some v
        → (b : Binding) × Memᴰ b bs × (name b.limits ≡ some v))
      × ((b : Binding) (w : ℕ)
          → Memᴰ b bs
          → name b.limits ≡ some w
          → (v : ℕ) × (minimum_limit name bs ≡ some v) × (v ≤ w))
minimum_limit_lem name bs =
    (λ v h. minimum_limit-from name bs h, λ b w m h. minimum_limit-le name bs m h)
