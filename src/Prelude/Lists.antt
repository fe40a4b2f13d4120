-- ===== src/Prelude/Lists.antt =====
-- Lists measured by native numbers, Boolean searches and a stable insertion sort.
use Prim.Native.Nat.{ℕ, suc, ◌+◌, ◌≤◌, ◌<◌}
use mathlib.Core.Path.{◌≡◌, refl}
use mathlib.Core.Logic.{◌↔◌, inl, inr}
use mathlib.Core.Bool.{Bool, true, false, ◌&&◌, ◌||◌}
use mathlib.Core.List.{List, [], ◌∷◌, ◌++◌, map, Perm, Memᴰ}
use mathlib.Core.List.Perm
use mathlib.Core.List.Memᴰ
use mathlib.Core.Option.{Option, none, some}
use native.Mathlib.Omega.{arith}
use azure_llm_governance_api.Prelude.Tests.{if◌then◌else◌, Bool-cases}

module _ {ℓ} {A : Type ℓ} where
  abbrev pub length : List A → ℕ
  length [] = 0
  length (x ∷ xs) = suc (length xs)

  -- `Array.prototype.every`, `some` and `find`.
  abbrev pub every : (A → Bool) → List A → Bool
  every p [] = true
  every p (x ∷ xs) = p x && every p xs

  abbrev pub any : (A → Bool) → List A → Bool
  any p [] = false
  any p (x ∷ xs) = p x || any p xs

  abbrev pub find : (A → Bool) → List A → Option A
  find p [] = none
  find p (x ∷ xs) = if p x then some x else find p xs

  -- `Array.prototype.filter` with a Boolean test.
  abbrev pub keep : (A → Bool) → List A → List A
  keep p [] = []
  keep p (x ∷ xs) = let rest = keep p xs in if p x then x ∷ rest else rest

  abbrev pub count : (A → Bool) → List A → ℕ
  count p [] = 0
  count p (x ∷ xs) = let rest = count p xs in if p x then suc rest else rest

  abbrev pub All {κ} : (A → Type κ) → List A → Type κ
  All P [] = Unit
  All P (x ∷ xs) = P x × All P xs

  pub length-append : (xs ys : List A) → length (xs ++ ys) ≡ length xs + length ys
  length-append [] ys = omega arith
  length-append (x ∷ xs) ys = omega (arith, length-append xs ys)

module _ {ℓ} {A : Type ℓ} where
  -- `Array.prototype.sort` with a comparison that says when the left one comes first; stable.
  unfoldable pub insert_sorted : (A → A → Bool) → A → List A → List A
  insert_sorted before x [] = x ∷ []
  insert_sorted before x (y ∷ ys) = if before y x then y ∷ insert_sorted before x ys else x ∷ y ∷ ys

  unfoldable pub sort_by : (A → A → Bool) → List A → List A
  unfolding insert_sorted
  sort_by before [] = []
  sort_by before (x ∷ xs) = insert_sorted before x (sort_by before xs)

  insert_sorted-perm :
      (before : A → A → Bool) (x : A) (xs : List A) → Perm (insert_sorted before x xs) (x ∷ xs)
  unfolding insert_sorted
  insert_sorted-perm before x [] = Perm.refl _
  insert_sorted-perm before x (y ∷ ys) = elim (Bool-cases (before y x)) [
    | inl e ↦ rw e (Perm.trans (Perm.cons y (insert_sorted-perm before x ys)) (Perm.swap x y ys))
    | inr e ↦ rw e (Perm.refl _)
  ]

  pub sort_by-perm : (before : A → A → Bool) (xs : List A) → Perm (sort_by before xs) xs
  unfolding sort_by
  sort_by-perm before [] = Perm.refl []
  sort_by-perm before (x ∷ xs) =
      Perm.trans (insert_sorted-perm before x (sort_by before xs))
        (Perm.cons x (sort_by-perm before xs))

  length-insert_sorted :
      (before : A → A → Bool) (x : A) (xs : List A)
      → length (insert_sorted before x xs) ≡ length xs + 1
  unfolding insert_sorted
  length-insert_sorted before x [] = omega arith
  length-insert_sorted before x (y ∷ ys) = ground (arith, length-insert_sorted before x ys)

  pub length-sort_by :
      (before : A → A → Bool) (xs : List A) → length (sort_by before xs) ≡ length xs
  unfolding sort_by
  length-sort_by before [] = omega arith
  length-sort_by before (x ∷ xs) =
      omega (arith, length-insert_sorted before x (sort_by before xs), length-sort_by before xs)

module _ {ℓ κ} {A : Type ℓ} {B : Type κ} where
  pub length-map : (f : A → B) (xs : List A) → length (map f xs) ≡ length xs
  length-map f [] = omega arith
  length-map f (x ∷ xs) = omega (arith, length-map f xs)

  -- A test that holds of everything that `f` makes.
  pub any-map-false :
      (p : B → Bool) (f : A → B) (xs : List A)
      → ((a : A) → p (f a) ≡ false)
      → any p (map f xs) ≡ false
  any-map-false p f [] h = refl
  any-map-false p f (x ∷ xs) h = ground (arith, h x, any-map-false p f xs h)

module _ {ℓ} {A : Type ℓ} where
  pub Memᴰ-keep : (p : A → Bool) {a : A} (xs : List A) → Memᴰ a xs → p a ≡ true → Memᴰ a (keep p xs)
  Memᴰ-keep p [] m h = absurd (Memᴰ.not-nil m)
  Memᴰ-keep p (x ∷ xs) (Memᴰ.head e) h = let px : p x ≡ true = rw (← e) h in rw px (Memᴰ.head e)
  Memᴰ-keep p (x ∷ xs) (Memᴰ.tail m) h = elim (Bool-cases (p x)) [
    | inl e ↦ rw e (Memᴰ.tail (Memᴰ-keep p xs m h))
    | inr e ↦ rw e (Memᴰ-keep p xs m h)
  ]

  pub Memᴰ-of-keep :
      (p : A → Bool) {a : A} (xs : List A) → Memᴰ a (keep p xs) → Memᴰ a xs × (p a ≡ true)
  Memᴰ-of-keep p [] m = absurd (Memᴰ.not-nil m)
  Memᴰ-of-keep p {a} (x ∷ xs) m = elim (Bool-cases (p x)) [
    | inl e ↦ elim (Memᴰ.cases_cons (rw e at m)) [
      | inl same ↦ (Memᴰ.head same, rw same e)
      | inr n ↦ let (k, h) = Memᴰ-of-keep p xs n in (Memᴰ.tail k, h)
    ]
    | inr e ↦ let (k, h) = Memᴰ-of-keep p xs (rw e at m) in (Memᴰ.tail k, h)
  ]

module _ {ℓ} {A : Type ℓ} where
  pub count-le-length : (p : A → Bool) (xs : List A) → count p xs ≤ length xs
  count-le-length p [] = omega arith
  count-le-length p (x ∷ xs) = ground (arith, count-le-length p xs)

  pub any_iff_count : (p : A → Bool) (xs : List A) → (any p xs ≡ true) ↔ (0 < count p xs)
  any_iff_count p [] = ground arith
  any_iff_count p (x ∷ xs) = ground (arith, any_iff_count p xs)

-- Sorting keeps what a list holds.
module _ {ℓ} {A : Type ℓ} (before : A → A → Bool) where
  Memᴰ-insert_sorted :
      (x a : A) (xs : List A) → Memᴰ a (insert_sorted before x xs) ↔ Memᴰ a (x ∷ xs)
  unfolding insert_sorted
  Memᴰ-insert_sorted x a [] = (λ m. m, λ m. m)
  Memᴰ-insert_sorted x a (y ∷ ys) = elim (Bool-cases (before y x)) [
    | inl e ↦
        let ih = Memᴰ-insert_sorted x a ys in
        rw e (
          λ m. elim (Memᴰ.cases_cons m) [
            | inl h ↦ Memᴰ.tail (Memᴰ.head h)
            | inr n ↦ elim (Memᴰ.cases_cons (ih.0 n)) [
              | inl h ↦ Memᴰ.head h
              | inr k ↦ Memᴰ.tail (Memᴰ.tail k)
            ]
          ],
          λ m. elim (Memᴰ.cases_cons m) [
            | inl h ↦ Memᴰ.tail (ih.1 (Memᴰ.head h))
            | inr n ↦ elim (Memᴰ.cases_cons n) [
              | inl h ↦ Memᴰ.head h
              | inr k ↦ Memᴰ.tail (ih.1 (Memᴰ.tail k))
            ]
          ],
        )
    | inr e ↦ rw e (λ m. m, λ m. m)
  ]

  pub Memᴰ-sort_by : (a : A) (xs : List A) → Memᴰ a (sort_by before xs) ↔ Memᴰ a xs
  unfolding sort_by
  Memᴰ-sort_by a [] = (λ m. m, λ m. m)
  Memᴰ-sort_by a (x ∷ xs) =
      let top = Memᴰ-insert_sorted x a (sort_by before xs) in
      let ih = Memᴰ-sort_by a xs in
      (
        λ m. elim (Memᴰ.cases_cons (top.0 m)) [ inl h ↦ Memᴰ.head h | inr n ↦ Memᴰ.tail (ih.0 n) ],
        λ m. top.1 (elim (Memᴰ.cases_cons m) [ inl h ↦ Memᴰ.head h | inr n ↦ Memᴰ.tail (ih.1 n) ]),
      )

pub All-mem {ℓ κ} : {A : Type ℓ} (P : A → Type κ) (xs : List A) (a : A) → All P xs → Memᴰ a xs → P a
All-mem P [] a h m = absurd (Memᴰ.not-nil m)
All-mem P (x ∷ xs) a (h, hs) (Memᴰ.head e) = rw e h
All-mem P (x ∷ xs) a (h, hs) (Memᴰ.tail m) = All-mem P xs a hs m
