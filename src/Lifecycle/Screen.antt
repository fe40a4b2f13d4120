-- ===== src/Lifecycle/Screen.antt =====
-- `availableCommands`, `isFullyVerified` and `summariseTargets` of configuration-lifecycle.mjs, and
-- that what they say is what the reducer does.
use azure_llm_governance_api.Prelude.{
  ℕ, String, ◌+◌, ◌≡◌, ◌↔◌, refl, Bool, true, false, not, ◌&&◌, Option, none, some, List, [], ◌∷◌,
  arith, every, any, count, length, done, ltb, str_eq, if◌then◌else◌,
}
use mathlib.Core.List.{Memᴰ}
use azure_llm_governance_api.Prelude.Lists.{
  keep, Memᴰ-keep, Memᴰ-of-keep, count-le-length, any_iff_count,
}
use azure_llm_governance_api.Prelude.Text.{is_safe_id}
use azure_llm_governance_api.Lifecycle.{
  Command, Outcome, Target, Revision, edit, approve, withdraw, abandon, publish, complete, fail,
  retry, supersede, allowed_from, is_verified, is_failed, is_pending, is_reason_code,
  has_publication_activity,
}
use azure_llm_governance_api.Prelude.Time.{is_instant}
use azure_llm_governance_api.Lifecycle.Reducer.{
  Request, given, null, check, next, apply_lifecycle_command,
}
use azure_llm_governance_api.Lifecycle.Laws.{accepted, all_verified_iff, verified-all}

unfoldable pub is_fully_verified : Revision → Bool
is_fully_verified r = every (λ t. is_verified t.outcome) r.targets

-- The test of one command; `none` is an actor that the caller leaves out.
offered : Revision → Option String → Bool → Command → Bool
unfolding is_fully_verified
offered r actor granted approve =
    allowed_from approve r.state
    && elim actor [ none ↦ true | some a ↦ if str_eq a r.authored_by then granted else true ]
offered r actor granted complete = allowed_from complete r.state && is_fully_verified r
offered r actor granted abandon = allowed_from abandon r.state && not (has_publication_activity r)
offered r actor granted c = allowed_from c r.state

abbrev lifecycle_commands : List Command
lifecycle_commands =
    edit ∷ approve ∷ withdraw ∷ abandon ∷ publish ∷ complete ∷ fail ∷ retry ∷ supersede ∷ []

unfoldable pub available_commands : Revision → Option String → Bool → List Command
unfolding offered
available_commands r actor granted = keep (offered r actor granted) lifecycle_commands

-- The call that the screen makes for `c`: every argument that the command needs is there.
pub record IsPrepared (c : Command) (granted : Bool) (r : Revision) (q : Request) : Type 0 where
  pub named : q.command ≡ some c
  pub actor_ok : is_safe_id q.actor ≡ true
  pub instant_ok : is_instant q.at ≡ true
  pub read : q.expected_revision_number ≡ some r.revision_number
  pub authority : q.self_approval_granted ≡ given granted
  pub idle : q.publishing_revision_id ≡ null
  pub explained : is_reason_code q.reason_code ≡ true
  pub other : String
  pub other_ok : is_safe_id other ≡ true
  pub other_ne : str_eq other r.revision_id ≡ false
  pub previous : q.previous_active_revision_id ≡ some other

offered-check :
    (c : Command) (granted : Bool) (r : Revision) (q : Request)
    → IsPrepared c granted r q
    → offered r (some q.actor) granted c ≡ true
    → (allowed_from c r.state ≡ true) × (check c r q ≡ done tt)
unfolding offered check
offered-check edit g r q p h = ground arith
offered-check complete g r q p h = ground (arith, verified-all r.targets)
offered-check _ g r q p h = ground arith

check-offered :
    (c : Command) (granted : Bool) (r : Revision) (q : Request)
    → IsPrepared c granted r q
    → allowed_from c r.state ≡ true
    → check c r q ≡ done tt
    → offered r (some q.actor) granted c ≡ true
unfolding offered check
check-offered edit g r q p a h = ground arith
check-offered complete g r q p a h = ground (arith, all_verified_iff r.targets)
check-offered _ g r q p a h = ground arith

every_command : (c : Command) → Memᴰ c lifecycle_commands
every_command edit = Memᴰ.head refl
every_command approve = Memᴰ.tail (Memᴰ.head refl)
every_command c = search (Memᴰ.head, Memᴰ.tail) depth 20

-- The screen offers a command exactly when the reducer accepts it, from a call that is prepared.
pub available_iff_accepted :
    (c : Command) (granted : Bool) (r : Revision) (q : Request)
    → IsPrepared c granted r q
    → Memᴰ c (available_commands r (some q.actor) granted)
      ↔ ((s : Revision) × (apply_lifecycle_command r q ≡ done s))
unfolding apply_lifecycle_command available_commands
available_iff_accepted c g r q p = (
  λ m.
      let (_, h) = Memᴰ-of-keep (offered r (some q.actor) g) lifecycle_commands m in
      (next c r q, ground (arith, offered-check c g r q p h)),
  λ (s, e).
      let (d, k) = accepted r q e in
      let same : d ≡ c = ground (arith, k.named, p.named) in
      Memᴰ-keep (offered r (some q.actor) g) lifecycle_commands (every_command c)
        (check-offered c g r q p (rw (← same) k.permitted) (rw (← same) k.checked)),
)

pub record Summary : Type 0 where
  pub pending : ℕ
  pub written : ℕ
  pub verified : ℕ
  pub failed : ℕ
  pub total : ℕ
  pub partial : Bool

-- `counts[target.outcome] += 1`
tally : Outcome → Summary → Summary
tally Outcome.pending s = record s { pending = s.pending + 1 }
tally Outcome.written s = record s { written = s.written + 1 }
tally Outcome.verified s = record s { verified = s.verified + 1 }
tally Outcome.failed s = record s { failed = s.failed + 1 }

tallies : List Target → Summary → Summary
unfolding tally
tallies [] s = s
tallies (t ∷ ts) s = tallies ts (tally t.outcome s)

abbrev no_tally : Summary
no_tally = record { pending = 0; written = 0; verified = 0; failed = 0; total = 0; partial = false }

unfoldable pub summarise_targets : Revision → Summary
unfolding tallies
summarise_targets r =
    let s = tallies r.targets no_tally in
    record s { total = length r.targets; partial = ltb 0 s.failed && ltb 0 s.verified }

tallies-eq :
    (ts : List Target) (s : Summary)
    → ((tallies ts s).pending ≡ s.pending + count (λ t. is_pending t.outcome) ts)
      × ((tallies ts s).verified ≡ s.verified + count (λ t. is_verified t.outcome) ts)
      × ((tallies ts s).failed ≡ s.failed + count (λ t. is_failed t.outcome) ts)
      × ((tallies ts s).pending
            + (tallies ts s).written
            + (tallies ts s).verified
            + (tallies ts s).failed
          ≡ s.pending + s.written + s.verified + s.failed + length ts)
unfolding tallies tally
tallies-eq [] s = omega arith
tallies-eq (t ∷ ts) s = ground (arith, tallies-eq ts (tally t.outcome s))

every-count :
    (ts : List Target)
    → (every (λ t. is_verified t.outcome) ts ≡ true)
      ↔ (count (λ t. is_verified t.outcome) ts ≡ length ts)
every-count [] = (λ h. refl, λ h. refl)
every-count (t ∷ ts) =
    ground (arith, every-count ts, count-le-length (λ (u : Target). is_verified u.outcome) ts)

-- The counts cover the targets, a publication can be completed exactly when the verified count is
-- the total, and `partial` says that some target failed while another was verified.
pub summarise_targets_lem :
    (r : Revision)
    → let s = summarise_targets r in
      (s.pending + s.written + s.verified + s.failed ≡ s.total)
      × ((is_fully_verified r ≡ true) ↔ (s.verified ≡ s.total))
      × ((s.partial ≡ true) ↔ (
          (any (λ t. is_failed t.outcome) r.targets ≡ true)
          × (any (λ t. is_verified t.outcome) r.targets ≡ true)))
unfolding summarise_targets is_fully_verified
summarise_targets_lem r = ground (
  arith,
  tallies-eq r.targets no_tally,
  every-count r.targets,
  any_iff_count (λ (u : Target). is_failed u.outcome) r.targets,
  any_iff_count (λ (u : Target). is_verified u.outcome) r.targets,
)
