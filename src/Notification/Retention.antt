-- ===== src/Notification/Retention.antt =====
-- `planNotificationRetention` of notification-retention.mjs. The quotient of the elapsed time by a day is
-- compared as a product; a closing time after `now` has elapsed by nothing.
use azure_llm_governance_api.Prelude.{
  ℕ, ◌+◌, ◌-◌, ◌*◌, String, Bool, not, ◌&&◌, Option, none, some, List, [], ◌∷◌, map, keep,
  or_default, leb, ltb, if◌then◌else◌, Reply, done, ensure, ◌>>◌, >>-done, done_injective, ◌≡◌,
  refl, arith, is_none,
}
use azure_llm_governance_api.Prelude.Time.{Instant, is_instant, ms}
use azure_llm_governance_api.Budget.{max_safe}

pub record Closed : Type 0 where
  pub key : String
  pub state : String
  pub acknowledged_by : Option String
  pub acknowledged_at : Instant

pub record Kept : Type 0 where
  pub key : String
  pub state : String
  pub reason_code : String

pub record Retention : Type 0 where
  pub expiring : List Kept
  pub retained : List Kept

abbrev pub day_ms : ℕ
day_ms = 86_400_000

abbrev pub retention_days : ℕ
retention_days = 90

unfoldable pub entry_of : Closed → String → Kept
entry_of r reason = record { key = r.key; state = r.state; reason_code = reason }

unfoldable pub has_elapsed : ℕ → ℕ → Instant → Bool
has_elapsed now days at = ltb (days * day_ms) (now - ms at)

-- The reason to keep a record, and `none` for one that expires.
unfoldable pub reason_to_keep : ℕ → ℕ → Option String → Instant → Option String
unfolding has_elapsed
reason_to_keep now days none at = some "not-acknowledged"
reason_to_keep now days (some by) at =
    if not (is_instant at)
    then some "acknowledgement-time-unknown"
    else if has_elapsed now days at
    then none
    else some "within-retention"

unfoldable pub file_record : Closed → Option String → Retention → Retention
unfolding entry_of
file_record r none rest = record rest { expiring = entry_of r "retention-elapsed" ∷ rest.expiring }
file_record r (some reason) rest = record rest { retained = entry_of r reason ∷ rest.retained }

unfoldable pub file_all : ℕ → ℕ → List Closed → Retention
unfolding reason_to_keep file_record
file_all now days [] = record { expiring = []; retained = [] }
file_all now days (r ∷ rs) =
    file_record r (reason_to_keep now days r.acknowledged_by r.acknowledged_at)
      (file_all now days rs)

unfoldable pub plan_notification_retention : List Closed → Instant → Option ℕ → Reply ⊥ Retention
unfolding file_all
plan_notification_retention records now days = do
  let kept_for = or_default days retention_days
  ensure (is_instant now) "now must be an ISO-8601 instant."
  ensure (leb 1 kept_for && leb kept_for max_safe) "retentionDays must be a positive integer."
  done (file_all (ms now) kept_for records)

-- A record that somebody closed, at a time that is known and longer ago than the retention.
abbrev pub is_over : ℕ → ℕ → Closed → Bool
is_over now days r =
    not (is_none r.acknowledged_by)
    && (is_instant r.acknowledged_at && ltb (ms r.acknowledged_at + days * day_ms) now)

is_over_lem :
    (now days : ℕ) (by : Option String) (at : Instant)
    → is_none (reason_to_keep now days by at)
      ≡ (not (is_none by) && (is_instant at && ltb (ms at + days * day_ms) now))
unfolding reason_to_keep has_elapsed
is_over_lem now days none at = refl
is_over_lem now days (some by) at = ground arith

abbrev pub keys : List Kept → List String
keys ks = map (λ k. k.key) ks

abbrev pub closed_keys : List Closed → List String
closed_keys rs = map (λ r. r.key) rs

abbrev Parted : ℕ → ℕ → List Closed → Retention → Type 0
Parted now days rs plan =
    (keys plan.expiring ≡ closed_keys (keep (is_over now days) rs))
    × (keys plan.retained ≡ closed_keys (keep (λ r. not (is_over now days r)) rs))

file_record-Parted :
    (now days : ℕ) (r : Closed) (rs : List Closed) (reason : Option String) (rest : Retention)
    → is_none reason ≡ is_over now days r
    → Parted now days rs rest
    → Parted now days (r ∷ rs) (file_record r reason rest)
unfolding file_record entry_of
file_record-Parted now days r rs none rest e (a, b) = rw (← e) (rw a refl, b)
file_record-Parted now days r rs (some reason) rest e (a, b) = rw (← e) (a, rw b refl)

file_all-Parted : (now days : ℕ) (rs : List Closed) → Parted now days rs (file_all now days rs)
unfolding file_all
file_all-Parted now days [] = (refl, refl)
file_all-Parted now days (r ∷ rs) =
    file_record-Parted now days r rs (reason_to_keep now days r.acknowledged_by r.acknowledged_at)
      (file_all now days rs) (is_over_lem now days r.acknowledged_by r.acknowledged_at)
      (file_all-Parted now days rs)

-- The records that expire are those that were acknowledged at a known time more than the retention
-- ago; every other record is retained; both in the order of the records.
pub retention_parts :
    (records : List Closed) (now : Instant) (days : ℕ) {plan : Retention}
    → plan_notification_retention records now (some days) ≡ done plan
    → (keys plan.expiring ≡ closed_keys (keep (is_over (ms now) days) records))
      × (keys plan.retained ≡ closed_keys (keep (λ r. not (is_over (ms now) days r)) records))
unfolding plan_notification_retention
retention_parts records now days h =
    let (_, h1) = >>-done (ensure (is_instant now) _) _ h in
    let (_, made) = >>-done (ensure (leb 1 days && leb days max_safe) _) _ h1 in
    rw (← done_injective _ _ made) (file_all-Parted (ms now) days records)
