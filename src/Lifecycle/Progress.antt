-- ===== src/Lifecycle/Progress.antt =====
-- What one step of a revision keeps and what it may not undo.
use azure_llm_governance_api.Prelude.{
  String, ◌≡◌, ◌≢◌, refl, sym, true, false, Option, some, List, [], ◌∷◌, ◌++◌, map, arith, ◌⊎◌, inl,
  inr, Option-cases, every, done, eq_iff, ◌∙◌,
}
use mathlib.Core.Path.{subst}
use mathlib.Core.Option
use azure_llm_governance_api.Lifecycle.{
  Command, Outcome, Target, Revision, Entry, draft, approved, publishing, active, withdrawn, edit,
  approve, withdraw, abandon, complete, retry, allowed_from, is_verified, initial, next_state,
  verified, has_publication_activity,
}
use azure_llm_governance_api.Prelude.Time.{is_instant}
use azure_llm_governance_api.Prelude.Text.{is_safe_id}
use azure_llm_governance_api.Lifecycle.Reducer.{
  Request, Report, given, check, next, apply_lifecycle_command, replace_first, reset_target,
  reported, find_target, regresses,
}
use azure_llm_governance_api.Lifecycle.Laws.{accepted, Recorded, recorded, created-eq, verified-all}
use azure_llm_governance_api.Lifecycle.Reach.{
  Step, command, report, Reach, created, follow, is_reviewed, Reach-IsSound,
}

-- The fields that name a revision, and a history that only grows.
pub record Extends (r s : Revision) : Type 0 where
  pub same_id : s.revision_id ≡ r.revision_id
  pub same_scope : s.scope_group_id ≡ r.scope_group_id
  pub same_number : s.revision_number ≡ r.revision_number
  pub same_author : s.authored_by ≡ r.authored_by
  pub same_instant : s.authored_at ≡ r.authored_at
  pub entry : Entry
  pub appended : s.history ≡ r.history ++ entry ∷ []

next-Extends : (c : Command) (r : Revision) (q : Request) → Extends r (next c r q)
unfolding next
next-Extends edit r q = record {
  same_id = refl;
  same_scope = refl;
  same_number = refl;
  same_author = refl;
  same_instant = refl;
  entry = _;
  appended = refl;
}
next-Extends _ r q = record {
  same_id = refl;
  same_scope = refl;
  same_number = refl;
  same_author = refl;
  same_instant = refl;
  entry = _;
  appended = refl;
}

-- Every accepted command or report keeps the fields that name a revision and adds one history entry.
pub Step-Extends : {Allowed : Request → Type 0} {r s : Revision} → Step Allowed r s → Extends r s
Step-Extends {r} (command q _ e) =
    let (c, k) = accepted r q e in subst (Extends r) (sym k.result) (next-Extends c r q)
Step-Extends {r} (report p e) =
    let (_, _, k) = recorded r p e in
    subst (Extends r) (sym k.result) (record {
      same_id = refl;
      same_scope = refl;
      same_number = refl;
      same_author = refl;
      same_instant = refl;
      entry = _;
      appended = refl;
    })

-- The outcome that the first target of a code has.
abbrev pub outcome_of : String → List Target → Option Outcome
outcome_of code ts = Option.map (λ t. t.outcome) (find_target code ts)

reset-verified :
    (code : String) (ts : List Target)
    → outcome_of code ts ≡ some verified
    → outcome_of code (map reset_target ts) ≡ some verified
unfolding find_target reset_target
reset-verified code [] h = h
reset-verified code (t ∷ ts) h = ground (arith, reset-verified code ts)

find-replace :
    (code other : String) (t : Target) (ts : List Target)
    → t.target_code ≡ other
    → (outcome_of code (replace_first other t ts) ≡ outcome_of code ts)
      ⊎ ((code ≡ other) × (outcome_of code (replace_first other t ts) ≡ some t.outcome))
unfolding find_target replace_first
find-replace code other t [] h = inl refl
find-replace code other t (u ∷ us) h = ground (
  arith,
  find-replace code other t us h,
  eq_iff u.target_code code,
  eq_iff u.target_code other,
  eq_iff t.target_code code,
)

next-verified :
    (c : Command) (r : Revision) (q : Request) (code : String)
    → outcome_of code r.targets ≡ some verified
    → outcome_of code (next c r q).targets ≡ some verified
unfolding next
next-verified retry r q code h = reset-verified code r.targets h
next-verified _ r q code h = h

regresses-verified : (new : Outcome) → regresses verified new ≡ false → new ≡ verified
unfolding regresses
regresses-verified new h = ground arith

Recorded-verified :
    {old : Target} {new : Outcome} (r : Revision) (p : Report) {s : Revision} (code : String)
    → Recorded old new r p s
    → outcome_of code r.targets ≡ some verified
    → outcome_of code s.targets ≡ some verified
unfolding reported
Recorded-verified {old} {new} r p code k h =
    rw k.result (elim (find-replace code p.target_code (reported p new) r.targets refl) [
      | inl same ↦ same ∙ h
      | inr (e, o) ↦ ground (arith, k.found, k.forward, regresses-verified new, e, o, h)
    ])

-- No command and no report takes a verification back, a retry included.
pub Step-verified :
    {Allowed : Request → Type 0} {r s : Revision} (code : String)
    → Step Allowed r s
    → outcome_of code r.targets ≡ some verified
    → outcome_of code s.targets ≡ some verified
Step-verified {r} code (command q _ e) h =
    let (c, k) = accepted r q e in rw k.result (next-verified c r q code h)
Step-verified {r} code (report p e) h =
    let (_, _, k) = recorded r p e in Recorded-verified r p code k h

-- The approver is somebody else than the author.
abbrev pub IsIndependent : Revision → Type 0
IsIndependent r = (b : String) → r.approved_by ≡ some b → b ≢ r.authored_by

abbrev pub NoSelfApproval : Request → Type 0
NoSelfApproval q = q.self_approval_granted ≢ given true

next-IsIndependent :
    (c : Command) (r : Revision) (q : Request)
    → check c r q ≡ done tt
    → NoSelfApproval q
    → IsIndependent r
    → IsIndependent (next c r q)
unfolding next
next-IsIndependent approve r q k n h b e =
    unfold check in ground (arith, eq_iff q.actor r.authored_by)
next-IsIndependent withdraw r q k n h b e = cc
next-IsIndependent _ r q k n h b e = h b e

Reach-IsIndependent : {r : Revision} → Reach NoSelfApproval r → IsIndependent r
unfolding initial
Reach-IsIndependent (created c e) = rw (created-eq c e).0 (λ b h. cc)
Reach-IsIndependent (follow {r} p (command q n e)) =
    let (c, k) = accepted r q e in
    subst IsIndependent (sym k.result)
      (next-IsIndependent c r q k.checked n (Reach-IsIndependent p))
Reach-IsIndependent (follow {r} p (report m e)) =
    let (_, _, k) = recorded r m e in subst IsIndependent (sym k.result) (Reach-IsIndependent p)

-- Unless the self-approval right was granted, whatever has left the draft was approved by somebody
-- else than its author.
pub separation_of_duties :
    {r : Revision}
    → Reach NoSelfApproval r
    → is_reviewed r.state ≡ true
    → (b : String) × (r.approved_by ≡ some b) × (b ≢ r.authored_by)
separation_of_duties {r} p h = elim (Option-cases r.approved_by) [
  | inl e ↦ absurd (ground (arith, (Reach-IsSound p).reviewed h))
  | inr (b, e) ↦ (b, e, Reach-IsIndependent p b e)
]

-- `abandon` succeeds only for a revision that no publication attempt has touched.
pub abandon_untouched :
    {Allowed : Request → Type 0} {r s : Revision} (q : Request)
    → Reach Allowed r
    → q.command ≡ some abandon
    → apply_lifecycle_command r q ≡ done s
    → ((r.state ≡ draft) ⊎ (r.state ≡ approved)) × (s.state ≡ withdrawn)
unfolding next next_state allowed_from check has_publication_activity
abandon_untouched {r} q p c e =
    let (d, k) = accepted r q e in
    ground (arith, (Reach-IsSound p).attempted, k.named, k.permitted, k.checked, k.result)

-- A publication whose targets are all verified is completed by the next well-formed command.
pub complete_enabled :
    (r : Revision) (q : Request)
    → r.state ≡ publishing
    → every (λ t. is_verified t.outcome) r.targets ≡ true
    → q.command ≡ some complete
    → is_safe_id q.actor ≡ true
    → is_instant q.at ≡ true
    → q.expected_revision_number ≡ some r.revision_number
    → (s : Revision) × (apply_lifecycle_command r q ≡ done s) × (s.state ≡ active)
unfolding apply_lifecycle_command allowed_from check next next_state
complete_enabled r q running v c a i n =
    (next complete r q, ground (arith, verified-all r.targets v), refl)
