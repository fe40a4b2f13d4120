-- ===== src/Prelude/Every.antt =====
-- A test on every element of a list, under the operations on lists.
use mathlib.Core.Path.{◌≡◌, refl}
use mathlib.Core.Bool.{Bool, not, ◌&&◌, ◌||◌}
use mathlib.Core.List.{List, [], ◌∷◌, ◌++◌}
use native.Mathlib.Omega.{arith}
use azure_llm_governance_api.Prelude.Lists.{every, keep, sort_by, insert_sorted}

module _ {ℓ} {A : Type ℓ} (p : A → Bool) where
  pub every-append : (xs ys : List A) → every p (xs ++ ys) ≡ (every p xs && every p ys)
  every-append [] ys = refl
  every-append (x ∷ xs) ys = ground (arith, every-append xs ys)

  pub every-keep :
      (q : A → Bool) (xs : List A) → every p (keep q xs) ≡ every (λ x. not (q x) || p x) xs
  every-keep q [] = refl
  every-keep q (x ∷ xs) = ground (arith, every-keep q xs)

  every-insert_sorted :
      (before : A → A → Bool) (x : A) (xs : List A)
      → every p (insert_sorted before x xs) ≡ (p x && every p xs)
  unfolding insert_sorted
  every-insert_sorted before x [] = refl
  every-insert_sorted before x (y ∷ ys) = ground (arith, every-insert_sorted before x ys)

  pub every-sort_by :
      (before : A → A → Bool) (xs : List A) → every p (sort_by before xs) ≡ every p xs
  unfolding sort_by
  every-sort_by before [] = refl
  every-sort_by before (x ∷ xs) =
      ground (arith, every-insert_sorted before x (sort_by before xs), every-sort_by before xs)
