-- ===== src/Prelude/Sets.antt =====
-- `Set` of texts: membership, the distinct elements in the order of their first occurrence, sorted.
use Prim.Native.String.{String}
use mathlib.Core.Path.{◌≡◌, refl, ◌∙◌, ap}
use mathlib.Core.Logic.{inl, inr}
use mathlib.Core.Bool.{Bool, false, not, ◌&&◌, ◌||◌}
use mathlib.Core.List.{List, [], ◌∷◌, ◌++◌}
use native.Mathlib.Omega.{arith}
use text.Mathlib.Text.{◌==◌ as str_eq}
use text.Mathlib.TextEquality.{eq_iff}
use azure_llm_governance_api.Prelude.Tests.{Bool-cases}
use azure_llm_governance_api.Prelude.Lists.{any, keep, sort_by, insert_sorted}
use azure_llm_governance_api.Prelude.Text.{lt_text}

abbrev pub contains : String → List String → Bool
contains k [] = false
contains k (x ∷ xs) = str_eq x k || contains k xs

-- `[...new Set(values)]`
abbrev pub unique : List String → List String
unique [] = []
unique (x ∷ xs) = x ∷ keep (λ y. not (str_eq y x)) (unique xs)

-- `[...new Set(values)].sort()`
unfoldable pub sorted_set : List String → List String
sorted_set xs = sort_by lt_text (unique xs)

-- `values.flatMap(f)`
abbrev pub flat_map {ℓ} : {A : Type ℓ} → (A → List String) → List A → List String
flat_map f [] = []
flat_map f (x ∷ xs) = f x ++ flat_map f xs

pub contains-append :
    (k : String) (xs ys : List String) → contains k (xs ++ ys) ≡ (contains k xs || contains k ys)
contains-append k [] ys = refl
contains-append k (x ∷ xs) ys = ground (arith, contains-append k xs ys)

pub contains-keep :
    (p : String → Bool) (k : String) (xs : List String)
    → contains k (keep p xs) ≡ (contains k xs && p k)
contains-keep p k [] = refl
contains-keep p k (x ∷ xs) = elim (Bool-cases (str_eq x k)) [
  | inl e ↦ rw ((eq_iff x k).0 e) (ground (arith, contains-keep p k xs, eq_iff k k))
  | inr e ↦ ground (arith, contains-keep p k xs)
]

pub contains-unique : (k : String) (xs : List String) → contains k (unique xs) ≡ contains k xs
contains-unique k [] = refl
contains-unique k (x ∷ xs) = ground (
  arith,
  contains-unique k xs,
  contains-keep (λ y. not (str_eq y x)) k (unique xs),
  eq_iff x k,
  eq_iff k x,
)

contains-insert_sorted :
    (before : String → String → Bool) (k x : String) (xs : List String)
    → contains k (insert_sorted before x xs) ≡ (str_eq x k || contains k xs)
unfolding insert_sorted
contains-insert_sorted before k x [] = refl
contains-insert_sorted before k x (y ∷ ys) = ground (arith, contains-insert_sorted before k x ys)

contains-sort_by :
    (before : String → String → Bool) (k : String) (xs : List String)
    → contains k (sort_by before xs) ≡ contains k xs
unfolding sort_by
contains-sort_by before k [] = refl
contains-sort_by before k (x ∷ xs) =
    contains-insert_sorted before k x (sort_by before xs)
    ∙ ap (λ b. str_eq x k || b) (contains-sort_by before k xs)

-- Sorting and dropping duplicates keeps what a set holds.
pub contains-sorted_set :
    (k : String) (xs : List String) → contains k (sorted_set xs) ≡ contains k xs
unfolding sorted_set
contains-sorted_set k xs = contains-sort_by lt_text k (unique xs) ∙ contains-unique k xs

pub contains-flat_map {ℓ} :
    {A : Type ℓ} (f : A → List String) (k : String) (xs : List A)
    → contains k (flat_map f xs) ≡ any (λ x. contains k (f x)) xs
contains-flat_map f k [] = refl
contains-flat_map f k (x ∷ xs) =
    contains-append k (f x) (flat_map f xs)
    ∙ ap (λ b. contains k (f x) || b) (contains-flat_map f k xs)

-- No text twice.
abbrev pub Distinct : List String → Type 0
Distinct [] = Unit
Distinct (x ∷ xs) = (contains x xs ≡ false) × Distinct xs

pub Distinct-append_one :
    (k : String) (xs : List String) → contains k xs ≡ false → Distinct xs → Distinct (xs ++ k ∷ [])
Distinct-append_one k [] h d = (refl, tt)
Distinct-append_one k (x ∷ xs) h (fresh, d) = (
  contains-append x xs (k ∷ []) ∙ ground (arith, fresh, eq_iff x k, eq_iff k x),
  Distinct-append_one k xs (ground arith) d,
)
