-- ===== src/Lifecycle/Laws.antt =====
-- What an accepted command or report is: the conditions that held and the revision it leaves.
use azure_llm_governance_api.Prelude.{
  ◌≡◌, refl, true, false, some, List, [], ◌∷◌, ◌++◌, arith, inl, inr, Option-cases, every, length,
  ◌≤◌, done,
}
use azure_llm_governance_api.Lifecycle.{
  Creation, create_revision, initial, Command, Outcome, Target, Revision, allowed_from, is_verified,
  is_publishing,
}
use azure_llm_governance_api.Lifecycle.Reducer.{
  Request, Report, check, next, all_verified, apply_lifecycle_command, regresses, replace_first,
  find_target, reported, outcome_entry, record_target_outcome,
}

pub record Accepted (c : Command) (r : Revision) (q : Request) (r' : Revision) : Type 0 where
  pub named : q.command ≡ some c
  pub expected : q.expected_revision_number ≡ some r.revision_number
  pub permitted : allowed_from c r.state ≡ true
  pub checked : check c r q ≡ done tt
  pub result : r' ≡ next c r q

pub accepted :
    (r : Revision) (q : Request) {r' : Revision}
    → apply_lifecycle_command r q ≡ done r'
    → (c : Command) × Accepted c r q r'
unfolding apply_lifecycle_command
accepted r q h = elim (Option-cases q.command) [
  | inl e ↦ absurd (ground arith)
  | inr (c, e) ↦ (c, ground arith)
]

pub record Recorded (old : Target) (new : Outcome) (r : Revision) (p : Report) (r' : Revision)
    : Type 0 where
  pub named : p.outcome ≡ some new
  pub running : is_publishing r.state ≡ true
  pub found : find_target p.target_code r.targets ≡ some old
  pub forward : regresses old.outcome new ≡ false
  pub result : r' ≡ record r {
    targets = replace_first p.target_code (reported p new) r.targets;
    history = r.history ++ outcome_entry p old.outcome new ∷ [];
  }

pub recorded :
    (r : Revision) (p : Report) {r' : Revision}
    → record_target_outcome r p ≡ done r'
    → (old : Target) × (new : Outcome) × Recorded old new r p r'
unfolding record_target_outcome
recorded r p h = elim (Option-cases p.outcome) [
  | inl e ↦ absurd (ground arith)
  | inr (new, e) ↦ elim (Option-cases (find_target p.target_code r.targets)) [
    | inl none_found ↦ absurd (ground arith)
    | inr (old, found) ↦ (old, new, ground arith)
  ]
]

pub all_verified_iff :
    (ts : List Target) → all_verified ts ≡ done tt → every (λ t. is_verified t.outcome) ts ≡ true
unfolding all_verified
all_verified_iff [] h = refl
all_verified_iff (t ∷ ts) h = ground (arith, all_verified_iff ts)

pub created-eq :
    (c : Creation) {r : Revision}
    → create_revision c ≡ done r
    → (r ≡ initial c) × (1 ≤ length c.targets)
unfolding create_revision
created-eq c h = ground arith

pub verified-all :
    (ts : List Target) → every (λ t. is_verified t.outcome) ts ≡ true → all_verified ts ≡ done tt
unfolding all_verified
verified-all [] h = refl
verified-all (t ∷ ts) h = ground (arith, verified-all ts)
