-- ===== src/Prelude/Answers.antt =====
-- A call that returns a value, answers with a refusal of its own, or throws.
use Prim.Native.String.{String}
use mathlib.Core.Path.{◌≡◌, refl}
use mathlib.Core.Bool.{Bool, true, false}
use mathlib.Core.List.{List, [], ◌∷◌}
use mathlib.Core.Option.{Option, none, some}

pub data Error : Type 0 where
  type_error : String → Error
  range_error : String → Error
  coded_error : String → String → Error  -- a `TypeError` with a message and a `code`

-- `{ ok: true, … }`, `{ ok: false, … }` and an exception. A function that never answers with a
-- refusal takes `⊥` for `R`.
pub data Reply {ℓ} (R : Type ℓ) (A : Type ℓ) : Type ℓ where
  done : A → Reply R A
  refused : R → Reply R A
  thrown : Error → Reply R A

infixl 5 ◌>>=◌ ◌>>◌
abbrev pub ◌>>=◌ {ℓ} : {R A B : Type ℓ} → Reply R A → (A → Reply R B) → Reply R B
done a >>= f = f a
refused r >>= f = refused r
thrown e >>= f = thrown e

abbrev pub ◌>>◌ {ℓ} : {R B : Type ℓ} → Reply R Unit → Reply R B → Reply R B
m >> k = m >>= λ _. k

module _ {ℓ} {R : Type ℓ} where
  -- `if (!test) throw new TypeError(message)`
  abbrev pub ensure : Bool → String → Reply R Unit
  ensure true message = done tt
  ensure false message = thrown (type_error message)

  -- `if (test) return refuse(…)`
  abbrev pub refuse_if : Bool → R → Reply R Unit
  refuse_if true r = refused r
  refuse_if false r = done tt

  -- An argument that the call must supply.
  abbrev pub supply : {A : Type ℓ} → Option A → String → Reply R A
  supply none message = thrown (type_error message)
  supply (some a) message = done a

  abbrev pub for_each : {A : Type ℓ} → (A → Reply R Unit) → List A → Reply R Unit
  for_each f [] = done tt
  for_each f (x ∷ xs) = f x >> for_each f xs

pub >>=-eq-done {ℓ} :
    {R A B : Type ℓ} (m : Reply R A) (f : A → Reply R B) {b : B}
    → (m >>= f) ≡ done b
    → (a : A) × (m ≡ done a) × (f a ≡ done b)
>>=-eq-done (done a) f h = (a, refl, h)
>>=-eq-done (refused r) f h = cc
>>=-eq-done (thrown e) f h = cc

pub >>-done {ℓ} :
    {R B : Type ℓ} (m : Reply R Unit) (k : Reply R B) {b : B}
    → (m >> k) ≡ done b
    → (m ≡ done tt) × (k ≡ done b)
>>-done (done tt) k h = (refl, h)
>>-done (refused r) k h = cc
>>-done (thrown e) k h = cc

pub done_injective {ℓ} : {R A : Type ℓ} (a b : A) → Path (Reply R A) (done a) (done b) → a ≡ b
done_injective a b h = cc

pub refuse_if-false {ℓ} : {R : Type ℓ} (b : Bool) (r : R) → refuse_if b r ≡ done tt → b ≡ false
refuse_if-false true r h = cc
refuse_if-false false r h = refl

pub ensure-true {ℓ} :
    {R : Type ℓ} (b : Bool) (message : String) → ensure {R = R} b message ≡ done tt → b ≡ true
ensure-true true message h = refl
ensure-true false message h = cc

-- An answer that cannot be a refusal, where refusals are possible.
abbrev pub lift_answer : {R A : Type 0} → Reply ⊥ A → Reply R A
lift_answer (done a) = done a
lift_answer (refused r) = absurd r
lift_answer (thrown e) = thrown e
