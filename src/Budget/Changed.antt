-- ===== src/Budget/Changed.antt =====
-- What an edit makes of one budget, said field by field.
use azure_llm_governance_api.Prelude.{
  Option, ◌+◌, or_default, none, Bool-cases, eq_iff, if◌then◌else◌, arith, suc, String, ◌≡◌, refl,
  sym, ◌∙◌, ◌≢◌, inl, inr, none, some, str_eq, arith,
}
use azure_llm_governance_api.Budget.{Budget}
use azure_llm_governance_api.Budget.Edited.{either, Changes, edited}

abbrev pub Becomes : {A : Type 0} → Option A → A → A → Type 0
Becomes none old new = new ≡ old
Becomes (some a) old new = new ≡ a

abbrev pub BecomesOptional : Option String → Option String → Option String → Type 0
BecomesOptional none old new = new ≡ old
BecomesOptional (some a) old new = new ≡ some a

-- What an edit makes of its budget: each field that the change names is the named one, the version is
-- the next, and the rest is as it was. Only a budget per model has a model.
pub record IsEdited (old : Budget) (c : Changes) (new : Budget) : Type 0 where
  pub same_id : new.budget_id ≡ old.budget_id
  pub next_version : new.budget_version ≡ old.budget_version + 1
  pub same_scope : new.scope ≡ old.scope
  pub action : Becomes c.action old.action new.action
  pub model_scope : Becomes c.model_scope old.model_scope new.model_scope
  pub model_key :
      (new.model_scope ≡ "per-model" → BecomesOptional c.model_key old.model_key new.model_key)
      × (new.model_scope ≢ "per-model" → new.model_key ≡ none)
  pub period : Becomes c.period old.period new.period
  pub accounting_basis :
      BecomesOptional c.accounting_basis old.accounting_basis new.accounting_basis
  pub same_unit : new.limit.unit ≡ old.limit.unit
  pub same_currency : new.limit.currency ≡ old.limit.currency
  pub amount : Becomes c.amount old.limit.amount new.limit.amount
  pub thresholds : Becomes c.thresholds old.thresholds new.thresholds

Becomes-default :
    {A : Type 0} (change : Option A) (old : A) → Becomes change old (or_default change old)
Becomes-default none old = refl
Becomes-default (some a) old = refl

Becomes-unique :
    {A : Type 0} (change : Option A) (old new : A)
    → Becomes change old new
    → new ≡ or_default change old
Becomes-unique none old new e = e
Becomes-unique (some a) old new e = e

BecomesOptional-either :
    (change old : Option String) → BecomesOptional change old (either change old)
unfolding either
BecomesOptional-either none old = refl
BecomesOptional-either (some a) old = refl

BecomesOptional-unique :
    (change old new : Option String) → BecomesOptional change old new → new ≡ either change old
unfolding either
BecomesOptional-unique none old new e = e
BecomesOptional-unique (some a) old new e = e

pub IsEdited-edited : (old : Budget) (c : Changes) → IsEdited old c (edited old c)
unfolding edited
IsEdited-edited old c = record {
  same_id = refl;
  next_version = omega arith;
  same_scope = refl;
  action = Becomes-default c.action old.action;
  model_scope = Becomes-default c.model_scope old.model_scope;
  model_key = (
    λ e. rw e (BecomesOptional-either c.model_key old.model_key),
    λ n. elim (Bool-cases (str_eq (or_default c.model_scope old.model_scope) "per-model")) [
      | inl e ↦ absurd (n ((eq_iff _ _).0 e))
      | inr e ↦ rw e refl
    ],
  );
  period = Becomes-default c.period old.period;
  accounting_basis = BecomesOptional-either c.accounting_basis old.accounting_basis;
  same_unit = refl;
  same_currency = refl;
  amount = Becomes-default c.amount old.limit.amount;
  thresholds = Becomes-default c.thresholds old.thresholds;
}

edited_key :
    (old : Budget) (c : Changes) (new : Budget)
    → IsEdited old c new
    → new.model_key ≡ (
        if str_eq (or_default c.model_scope old.model_scope) "per-model"
        then either c.model_key old.model_key
        else none)
edited_key old c new h =
    let scope = Becomes-unique c.model_scope old.model_scope new.model_scope h.model_scope in
    elim (Bool-cases (str_eq (or_default c.model_scope old.model_scope) "per-model")) [
      | inl e ↦ rw e (
          BecomesOptional-unique c.model_key old.model_key new.model_key
            (h.model_key.0 (scope ∙ (eq_iff _ _).0 e)))
      | inr e ↦ rw e (
          h.model_key.1 (λ p. absurd (
            cc (
              (eq_iff (or_default c.model_scope old.model_scope) "per-model").1 (sym scope ∙ p),
              e,
            ))))
    ]

-- There is one such budget.
pub edited_unique :
    (old : Budget) (c : Changes) (new : Budget) → IsEdited old c new → new ≡ edited old c
unfolding edited
edited_unique old c new h =
    let version : new.budget_version ≡ suc old.budget_version = omega (arith, h.next_version) in
    let action = Becomes-unique c.action old.action new.action h.action in
    let scope = Becomes-unique c.model_scope old.model_scope new.model_scope h.model_scope in
    let key = edited_key old c new h in
    let period = Becomes-unique c.period old.period new.period h.period in
    let basis =
      BecomesOptional-unique c.accounting_basis old.accounting_basis new.accounting_basis
        h.accounting_basis in
    let amount = Becomes-unique c.amount old.limit.amount new.limit.amount h.amount in
    let thresholds = Becomes-unique c.thresholds old.thresholds new.thresholds h.thresholds in
    λ i. record {
      budget_id = h.same_id i;
      budget_version = version i;
      scope = h.same_scope i;
      action = action i;
      model_scope = scope i;
      model_key = key i;
      period = period i;
      accounting_basis = basis i;
      limit = record { unit = h.same_unit i; currency = h.same_currency i; amount = amount i };
      thresholds = thresholds i;
    }
