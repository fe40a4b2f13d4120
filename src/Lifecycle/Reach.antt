-- ===== src/Lifecycle/Reach.antt =====
-- The revisions that a creation and any commands and reports lead to, and what holds of each.
use azure_llm_governance_api.Prelude.{
  String, ◌≡◌, refl, sym, Bool, true, false, not, List, [], ◌∷◌, map, arith, every, is_none, done,
  Option, none, some, Option-cases, inl, inr, length, ◌≤◌,
}
use azure_llm_governance_api.Prelude.Lists.{sort_by, length-sort_by, length-map, any-map-false}
use mathlib.Core.Path.{subst}
use azure_llm_governance_api.Prelude.Text.{lt_text}
use azure_llm_governance_api.Lifecycle.{
  State, Command, Outcome, Target, Revision, Creation, Failure, is_reason_code, draft, approved,
  active, withdrawn, edit, fail, abandon, complete, retry, allowed_from, is_verified, is_pending,
  has_publication_activity, create_revision, initial, next_state, pending_target,
}
use azure_llm_governance_api.Lifecycle.Reducer.{
  Request, Report, check, next, apply_lifecycle_command, replace_first, record_target_outcome,
  reset_target, reported,
}
use azure_llm_governance_api.Lifecycle.Laws.{
  accepted, Recorded, recorded, all_verified_iff, created-eq,
}

-- One accepted command among those that `Allowed` describes, or one accepted report.
pub data Step (Allowed : Request → Type 0) (r : Revision) : Revision → Type 0 where
  command :
      {s : Revision} (q : Request)
      → Allowed q
      → apply_lifecycle_command r q ≡ done s
      → Step Allowed r s
  report : {s : Revision} (p : Report) → record_target_outcome r p ≡ done s → Step Allowed r s

pub data Reach (Allowed : Request → Type 0) : Revision → Type 0 where
  created : {r : Revision} (c : Creation) → create_revision c ≡ done r → Reach Allowed r
  follow : {r s : Revision} → Reach Allowed r → Step Allowed r s → Reach Allowed s

abbrev pub is_unpublished : State → Bool
is_unpublished draft = true
is_unpublished approved = true
is_unpublished withdrawn = true
is_unpublished _ = false

abbrev pub is_reviewed : State → Bool
is_reviewed draft = false
is_reviewed withdrawn = false
is_reviewed _ = true

abbrev pub is_active : State → Bool
is_active active = true
is_active _ = false

abbrev pub is_failed_state : State → Bool
is_failed_state State.failed = true
is_failed_state _ = false

-- A failure with a reason code.
abbrev pub explains : Option Failure → Bool
explains none = false
explains (some f) = is_reason_code (some f.reason_code)

pub record IsSound (r : Revision) : Type 0 where
  pub verified_when_active :
      is_active r.state ≡ true → every (λ t. is_verified t.outcome) r.targets ≡ true
  pub has_targets : 1 ≤ length r.targets
  pub untouched : is_unpublished r.state ≡ true → has_publication_activity r ≡ false
  pub attempted : is_unpublished r.state ≡ false → is_none r.published_by ≡ false
  pub reviewed : is_reviewed r.state ≡ true → is_none r.approved_by ≡ false
  pub explained : is_failed_state r.state ≡ true → explains r.failure ≡ true

length-reset : (ts : List Target) → length (map reset_target ts) ≡ length ts
length-reset [] = refl
length-reset (t ∷ ts) = ground (arith, length-reset ts)

length-replace_first :
    (c : String) (t : Target) (ts : List Target) → length (replace_first c t ts) ≡ length ts
unfolding replace_first
length-replace_first c t [] = refl
length-replace_first c t (u ∷ us) = ground (arith, length-replace_first c t us)

next-IsSound :
    (c : Command) (r : Revision) (q : Request)
    → allowed_from c r.state ≡ true
    → check c r q ≡ done tt
    → IsSound r
    → IsSound (next c r q)
unfolding next next_state allowed_from has_publication_activity
next-IsSound edit r q a k h = ground arith
next-IsSound complete r q a k h = unfold check in ground (arith, all_verified_iff r.targets)
next-IsSound retry r q a k h = ground (arith, length-reset r.targets)
next-IsSound abandon r q a k h = unfold check in ground arith
next-IsSound fail r q a k h =
    unfold check in
    elim (Option-cases q.reason_code) [
      | inl e ↦ absurd (ground (arith, k, e))
      | inr (c, e) ↦ ground (arith, k, e)
    ]
next-IsSound _ r q a k h = ground arith

Recorded-IsSound :
    {old : Target} {new : Outcome} (r : Revision) (p : Report) {s : Revision}
    → Recorded old new r p s
    → IsSound r
    → IsSound s
unfolding has_publication_activity
Recorded-IsSound {new} r p k h =
    rw k.result (ground (arith, length-replace_first p.target_code (reported p new) r.targets))

Step-IsSound :
    {Allowed : Request → Type 0} {r s : Revision} → Step Allowed r s → IsSound r → IsSound s
Step-IsSound {r} (command q _ e) h =
    let (c, k) = accepted r q e in
    subst IsSound (sym k.result) (next-IsSound c r q k.permitted k.checked h)
Step-IsSound {r} (report p e) h = let (_, _, k) = recorded r p e in Recorded-IsSound r p k h

created-IsSound : (c : Creation) {r : Revision} → create_revision c ≡ done r → IsSound r
unfolding has_publication_activity initial
created-IsSound c h =
    let (e, n) = created-eq c h in
    rw e (
      ground (
        arith,
        n,
        length-map pending_target (sort_by lt_text c.targets),
        length-sort_by lt_text c.targets,
        any-map-false (λ (t : Target). not (is_pending t.outcome)) pending_target
            (sort_by lt_text c.targets) (λ a. refl),
      ))

-- Whatever commands and reports follow a creation, an active revision has every target verified, a
-- revision has a target, a draft, approved or withdrawn one has never begun a publication, any other has
-- a publisher, whatever was reviewed has an approver, and a failed one has a failure with a reason code of
-- the accepted form.
pub Reach-IsSound : {Allowed : Request → Type 0} {r : Revision} → Reach Allowed r → IsSound r
Reach-IsSound (created c e) = created-IsSound c e
Reach-IsSound (follow p st) = Step-IsSound st (Reach-IsSound p)
