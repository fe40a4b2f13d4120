-- ===== src/Budget/Versions.antt =====
-- Sequences of accepted edits, additions and removals.
use azure_llm_governance_api.Prelude.{
  ℕ, zero, suc, ◌+◌, String, ◌≡◌, refl, sym, ap, ◌∙◌, none, List, done, arith,
}
use azure_llm_governance_api.Fallback.Compile.{Comparison}
use azure_llm_governance_api.Budget.{Budget}
use azure_llm_governance_api.Budget.Snapshot.{Snapshot, assert_budget_snapshot_v1}
use azure_llm_governance_api.Budget.Edited.{EditCall, edited}
use azure_llm_governance_api.Budget.Edit.{successor}
use azure_llm_governance_api.Budget.Committed.{
  Committed, Committed-edit, Committed-next_edited, Committed-next_snapshot, Committed-add,
  Committed-remove,
}
use azure_llm_governance_api.Budget.Contents.{Operation, change, enter, withdraw, run}

-- What holds of a snapshot `n` commits after `s`.
pub record Governed (compare : String → String → Comparison) (n : ℕ) (s t : Snapshot) : Type 0 where
  pub version : t.version ≡ s.version + n
  pub tenant : t.tenant_id ≡ s.tenant_id
  pub snapshot_id : t.snapshot_id ≡ s.snapshot_id
  pub status : t.status ≡ s.status
  pub valid : assert_budget_snapshot_v1 compare t t.captured_at none ≡ done t

module _ (compare : String → String → Comparison) where
  pub data Commits : ℕ → Snapshot → Snapshot → Type 0 where
    stay : {s : Snapshot} → Commits zero s s
    commit :
        {n : ℕ} {s t u : Snapshot} (operation : Operation) (call : EditCall)
        → Commits n s t
        → run compare t operation call ≡ done u
        → Commits (suc n) s u

  Committed-run :
      (s : Snapshot) (operation : Operation) (call : EditCall) {t : Snapshot}
      → run compare s operation call ≡ done t
      → (made : EditCall) × (budgets : List Budget) × Committed compare s made budgets t
  Committed-run s (change id c) call h =
      let (target, _, h1) = Committed-edit compare s id c call h in
      (call, _, (Committed-next_edited compare s id target (edited target c) call h1).0)
  Committed-run s (enter new) call h =
      let (_, _, h1) = Committed-add compare s new call h in
      (call, _, Committed-next_snapshot compare s _ call h1)
  Committed-run s (withdraw id reason) call h =
      let (_, _, h1) = Committed-remove compare s id reason call h in
      (_, _, Committed-next_snapshot compare s _ _ h1)

  Governed-Committed :
      (n : ℕ) (s t : Snapshot) (call : EditCall) (budgets : List Budget) {u : Snapshot}
      → Governed compare n s t
      → Committed compare t call budgets u
      → Governed compare (suc n) s u
  unfolding successor
  Governed-Committed n s t call budgets {u} g c =
      let before : suc t.version ≡ s.version + suc n = omega (arith, g.version) in
      record {
        version = ap (λ (x : Snapshot). x.version) (sym c.next) ∙ before;
        tenant = ap (λ (x : Snapshot). x.tenant_id) (sym c.next) ∙ g.tenant;
        snapshot_id = ap (λ (x : Snapshot). x.snapshot_id) (sym c.next) ∙ g.snapshot_id;
        status = ap (λ (x : Snapshot). x.status) (sym c.next) ∙ g.status;
        valid =
            ap (λ at. assert_budget_snapshot_v1 compare u at none)
              (ap (λ (x : Snapshot). x.captured_at) (sym c.next))
            ∙ c.valid;
      }

  -- After any number of accepted edits, additions and removals of budgets, from a snapshot that its
  -- validator accepts at the time of its capture, the snapshot is again one that the validator accepts
  -- at the time of its capture. Its version has grown by one for each of them, and its identifier, its
  -- tenant and its status are the first one's.
  pub Commits-Governed :
      (n : ℕ) (s t : Snapshot)
      → assert_budget_snapshot_v1 compare s s.captured_at none ≡ done s
      → Commits n s t
      → Governed compare n s t
  Commits-Governed zero s _ ok stay = record {
    version = omega arith;
    tenant = refl;
    snapshot_id = refl;
    status = refl;
    valid = ok;
  }
  Commits-Governed (suc n) s t ok (commit {t = between} operation call before h) =
      let (made, budgets, c) = Committed-run between operation call h in
      Governed-Committed n s between made budgets (Commits-Governed n s between ok before) c
