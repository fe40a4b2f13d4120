-- ===== src/Budget/Contents.antt =====
-- Which budgets a snapshot holds after an accepted edit, addition or removal.
use azure_llm_governance_api.Prelude.{
  suc, String, ◌≡◌, refl, sym, ap, ◌∙◌, ◌≢◌, ◌↔◌, ◌⊎◌, inl, inr, true, false, Bool, not, ◌&&◌, none,
  some, List, [], ◌∷◌, ◌++◌, map, find, any, keep, Reply, done, str_eq, arith, some_injective,
}
use mathlib.Core.List.{Memᴰ}
use mathlib.Core.List.Memᴰ
use azure_llm_governance_api.Prelude.Text.{is_code}
use azure_llm_governance_api.Prelude.Lists.{Memᴰ-sort_by, Memᴰ-keep, Memᴰ-of-keep}
use azure_llm_governance_api.Fallback.Compile.{Comparison}
use azure_llm_governance_api.Budget.{Budget}
use azure_llm_governance_api.Budget.Snapshot.{Snapshot, precedes}
use azure_llm_governance_api.Budget.Edited.{
  Refusal, Changes, EditCall, coverage_of, has_id, edited, with_version,
}
use azure_llm_governance_api.Budget.Changed.{IsEdited, IsEdited-edited, edited_unique}
use azure_llm_governance_api.Budget.Swapped.{edited-differs, any-find, Swapped-map, Memᴰ-Swapped}
use azure_llm_governance_api.Budget.Edit.{
  successor, replaced, edit_budget, add_budget, remove_budget,
}
use azure_llm_governance_api.Budget.Committed.{
  Committed, Committed-edit, Committed-next_edited, Committed-next_snapshot, Committed-add,
  Committed-remove,
}

-- The three calls, with their own arguments.
pub data Operation : Type 0 where
  change : String → Changes → Operation
  enter : Budget → Operation
  withdraw : String → String → Operation

abbrev pub run :
    (String → String → Comparison) → Snapshot → Operation → EditCall → Reply Refusal Snapshot
run compare s (change id c) call = edit_budget compare s id c call
run compare s (enter b) call = add_budget compare s b call
run compare s (withdraw id reason) call = remove_budget compare s id reason call

-- The budgets after an operation, told as a set.
abbrev pub Effect : Snapshot → Operation → Budget → Type 0
Effect s (change id c) b =
    (Memᴰ b s.budgets × (has_id id b ≡ false))
    ⊎ ((target : Budget) × (find (has_id id) s.budgets ≡ some target) × IsEdited target c b)
Effect s (enter new) b = Memᴰ b s.budgets ⊎ (b ≡ record new { budget_version = 1 })
Effect s (withdraw id reason) b = Memᴰ b s.budgets × (has_id id b ≡ false)

-- What an operation needs.
abbrev pub Warranted : Snapshot → Operation → Type 0
Warranted s (change id c) =
    (target : Budget) × (find (has_id id) s.budgets ≡ some target)
    × ((new : Budget) × IsEdited target c new
        × (new ≢ record target { budget_version = suc target.budget_version })
        × (any (λ b. not (has_id id b) && str_eq (coverage_of b) (coverage_of new)) s.budgets
            ≡ false))
Warranted s (enter new) =
    (any (has_id new.budget_id) s.budgets ≡ false)
    × (any (λ b. str_eq (coverage_of b) (coverage_of new)) s.budgets ≡ false)
Warranted s (withdraw id reason) = (is_code reason ≡ true) × (any (has_id id) s.budgets ≡ true)

-- A commit holds the budgets that it was given.
held :
    (compare : String → String → Comparison) (s : Snapshot) (call : EditCall)
    (budgets : List Budget) {t : Snapshot}
    → Committed compare s call budgets t
    → t.budgets ≡ budgets
unfolding successor
held compare s call budgets c = ap (λ (x : Snapshot). x.budgets) (sym c.next)

from_one : {a b : Budget} → Memᴰ a (b ∷ []) → a ≡ b
from_one m = elim (Memᴰ.cases_cons m) [ inl e ↦ e | inr n ↦ absurd (Memᴰ.not-nil n) ]

module _ (compare : String → String → Comparison) (s : Snapshot) (call : EditCall) where
  Effect-change :
      (id : String) (c : Changes) {t : Snapshot}
      → edit_budget compare s id c call ≡ done t
      → Warranted s (change id c) × ((b : Budget) → Memᴰ b t.budgets ↔ Effect s (change id c) b)
  Effect-change id c {t} h =
      let (target, found, h1) = Committed-edit compare s id c call h in
      let new : Budget = edited target c in
      let (made, apart, differs) = Committed-next_edited compare s id target new call h1 in
      let same = held compare s call (map (replaced id new) s.budgets) made in
      (
        (
          target,
          found,
          (
            new,
            IsEdited-edited target c,
            unfold with_version in edited-differs target new differs,
            apart,
          ),
        ),
        λ b. rw same (
          λ m. elim (Swapped-map id new b s.budgets m) [
            | inl k ↦ inl k
            | inr (_, e) ↦ inr (target, found, rw e (IsEdited-edited target c))
          ],
          λ k. Memᴰ-Swapped id new b s.budgets (elim k [
            | inl k ↦ inl k
            | inr (other, f, e) ↦ inr (
              any-find (has_id id) s.budgets found,
              edited_unique other c b e ∙ ap (λ x. edited x c) (some_injective _ _ (sym f ∙ found)),
            )
          ]),
        ),
      )

  Effect-enter :
      (new : Budget) {t : Snapshot}
      → add_budget compare s new call ≡ done t
      → Warranted s (enter new) × ((b : Budget) → Memᴰ b t.budgets ↔ Effect s (enter new) b)
  unfolding with_version
  Effect-enter new {t} h =
      let (fresh, apart, h1) = Committed-add compare s new call h in
      let grown : List Budget = s.budgets ++ with_version new 1 ∷ [] in
      let same = held compare s call _ (Committed-next_snapshot compare s grown call h1) in
      (
        (fresh, apart),
        λ b.
            let (into, back) = Memᴰ-sort_by by_id b grown in
            rw same (
              λ m. elim (Memᴰ.append_cases s.budgets (into m)) [
                | inl k ↦ inl k
                | inr k ↦ inr (from_one k)
              ],
              λ k. back (elim k [
                | inl k ↦ Memᴰ.append_left _ k
                | inr e ↦ Memᴰ.append_right s.budgets (Memᴰ.head e)
              ]),
            ),
      )
    where
      by_id : Budget → Budget → Bool
      by_id a b = precedes compare a.budget_id b.budget_id

  Effect-withdraw :
      (id reason : String) {t : Snapshot}
      → remove_budget compare s id reason call ≡ done t
      → Warranted s (withdraw id reason)
        × ((b : Budget) → Memᴰ b t.budgets ↔ Effect s (withdraw id reason) b)
  Effect-withdraw id reason {t} h =
      let (coded, known, h1) = Committed-remove compare s id reason call h in
      let rest : List Budget = keep (λ b. not (has_id id b)) s.budgets in
      let untiered : EditCall = record {
        at = call.at;
        retention = call.retention;
        declared = none;
      } in
      let same = held compare s untiered _ (Committed-next_snapshot compare s rest untiered h1) in
      (
        (coded, known),
        λ b.
            let (into, back) =
              Memᴰ-sort_by (λ a b. precedes compare a.budget_id b.budget_id) b rest in
            rw same (
              λ m.
                  let (k, e) = Memᴰ-of-keep (λ b. not (has_id id b)) s.budgets (into m) in
                  (k, ground arith),
              λ k. back (Memᴰ-keep (λ b. not (has_id id b)) s.budgets k.0 (rw k.1 refl)),
            ),
      )

-- An accepted edit, addition or removal of a budget had what it needs, and left exactly the budgets
-- that its effect tells. An edit found its budget, changes more than its version, and shares its
-- coverage with no other budget; it leaves the others and puts in place of the old one the budget with
-- the fields that the change names, one version up, and all else as it was. An addition has a new
-- identifier and a new coverage, and adds the budget at version 1. A removal has a reason code and knows
-- its budget, and leaves the others.
pub run-Effect :
    (compare : String → String → Comparison) (s : Snapshot) (operation : Operation)
    (call : EditCall) {t : Snapshot}
    → run compare s operation call ≡ done t
    → Warranted s operation × ((b : Budget) → Memᴰ b t.budgets ↔ Effect s operation b)
run-Effect compare s (change id c) call h = Effect-change compare s call id c h
run-Effect compare s (enter new) call h = Effect-enter compare s call new h
run-Effect compare s (withdraw id reason) call h = Effect-withdraw compare s call id reason h
