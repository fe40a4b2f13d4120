-- ===== src/Prelude/Pigeons.antt =====
-- A list of different numbers below a bound is no longer than the bound.
use Prim.Native.Nat.{ℕ, zero, suc, ◌+◌, ◌≤◌, ◌<◌}
use mathlib.Core.Path.{◌≡◌, refl}
use mathlib.Core.Logic.{inl, inr}
use mathlib.Core.Bool.{Bool, false, not, ◌||◌}
use mathlib.Core.List.{List, [], ◌∷◌}
use native.Mathlib.Omega.{arith}
use azure_llm_governance_api.Prelude.Tests.{◌==◌, ==_iff, Bool-cases}
use azure_llm_governance_api.Prelude.Lists.{length, keep, All}

abbrev pub has : ℕ → List ℕ → Bool
has n [] = false
has n (x ∷ xs) = x == n || has n xs

abbrev pub Different : List ℕ → Type 0
Different [] = Unit
Different (x ∷ xs) = (has x xs ≡ false) × Different xs

abbrev pub Below : ℕ → List ℕ → Type 0
Below n xs = All (λ x. x < n) xs

abbrev without : ℕ → List ℕ → List ℕ
without n xs = keep (λ x. not (x == n)) xs

without_absent : (n : ℕ) (xs : List ℕ) → has n xs ≡ false → without n xs ≡ xs
without_absent n [] h = refl
without_absent n (x ∷ xs) h =
    let e : (x == n) ≡ false = ground arith in rw (e, without_absent n xs (rw e at h)) refl

length-without : (n : ℕ) (xs : List ℕ) → Different xs → length xs ≤ length (without n xs) + 1
length-without n [] d = omega arith
length-without n (x ∷ xs) (fresh, d) = elim (Bool-cases (x == n)) [
  | inl e ↦
      let gone : has n xs ≡ false = rw ((==_iff x n).0 e) at fresh in
      rw (e, without_absent n xs gone) (omega arith)
  | inr e ↦ rw e (omega (arith, length-without n xs d))
]

has-without : (n k : ℕ) (xs : List ℕ) → has k xs ≡ false → has k (without n xs) ≡ false
has-without n k [] h = refl
has-without n k (x ∷ xs) h = ground (arith, has-without n k xs)

Different-without : (n : ℕ) (xs : List ℕ) → Different xs → Different (without n xs)
Different-without n [] d = tt
Different-without n (x ∷ xs) (fresh, d) = elim (Bool-cases (x == n)) [
  | inl e ↦ rw e (Different-without n xs d)
  | inr e ↦ rw e (has-without n x xs fresh, Different-without n xs d)
]

Below-without : (n : ℕ) (xs : List ℕ) → Below (suc n) xs → Below n (without n xs)
Below-without n [] b = tt
Below-without n (x ∷ xs) (low, b) = elim (Bool-cases (x == n)) [
  | inl e ↦ rw e (Below-without n xs b)
  | inr e ↦ rw e (ground arith, Below-without n xs b)
]

pub length-le : (n : ℕ) (xs : List ℕ) → Different xs → Below n xs → length xs ≤ n
length-le zero [] d b = omega arith
length-le zero (x ∷ xs) d (low, b) = absurd (omega arith)
length-le (suc n) xs d b = omega (
  arith,
  length-without n xs d,
  length-le n (without n xs) (Different-without n xs d) (Below-without n xs b),
)
