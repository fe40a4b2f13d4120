-- ===== src/Ledger.antt =====
-- app/control-api/notification-ledger.mjs: notifications in the store. The plan's entries are the
-- arguments of `raiseNotification`. `apply` is two steps, a read and what follows from it, since others may
-- write in between.
pub mod Once
pub mod Current
mod Tests
use azure_llm_governance_api.Prelude.{
  ℕ, String, Option, none, some, List, [], ◌∷◌, Reply, done, refused, thrown, ◌>>=◌, ◌>>◌,
  lift_answer,
}
use azure_llm_governance_api.Prelude.Time.{Instant}
use azure_llm_governance_api.Notification.{Notification, Recorded, Refusal}
use azure_llm_governance_api.Notification.Delivery.{
  Raised, raise_notification, assert_notification_record, Report, record_delivery_attempt,
  acknowledge_notification,
}
use azure_llm_governance_api.Store.{
  Store, Held, Written, Conflict, Expected, null, tag, governance, put, read,
}

abbrev pub group_of : Notification → String
group_of n = n.scope_group_id

abbrev pub id_of : Notification → String
id_of n = n.id

-- The validator of `putNotification`, which hands its argument back.
unfoldable pub validate : Notification → Reply Conflict Notification
unfolding assert_notification_record
validate n = lift_answer (do assert_notification_record n; done n)

unfoldable pub put_notification :
    Store Notification → Notification → Expected → Reply Conflict (Written Notification)
unfolding put validate
put_notification s n expected = put group_of id_of validate s governance n expected

-- What the loop has done: the store that it leaves, and the keys it raised and found raised.
pub record Tally : Type 0 where
  pub store : Store Notification
  pub raised : List String
  pub already_raised : List String

abbrev pub counted : String → Tally → Tally
counted key t = record t { raised = key ∷ t.raised }

abbrev pub passed_over : String → Tally → Tally
passed_over key t = record t { already_raised = key ∷ t.already_raised }

-- What follows the `put` of one record; a conflict of the create is an answer, and not an error.
unfoldable pub after_put :
    (Store Notification → Reply ⊥ Tally)
    → String
    → Store Notification
    → Reply Conflict (Written Notification)
    → Reply ⊥ Tally
after_put go_on key s (done w) = go_on w.store >>= λ t. done (counted key t)
after_put go_on key s (refused c) = go_on s >>= λ t. done (passed_over key t)
after_put go_on key s (thrown e) = thrown e

unfoldable pub raise : List Raised → Store Notification → Reply ⊥ Tally
unfolding put_notification raise_notification after_put
raise [] s = done (record { store = s; raised = []; already_raised = [] })
raise (r ∷ rs) s = do
  n ← raise_notification r
  after_put (raise rs) r.key s (put_notification s n null)

pub data Failure : Type 0 where
  notification_absent changed_meanwhile : Failure
  refused_by : Refusal → Failure

pub record Applied : Type 0 where
  pub recorded : Recorded
  pub written : Written Notification

-- The `try` of `apply`: a lost race is an answer.
unfoldable pub stored_answer :
    Recorded → Reply Conflict (Written Notification) → Reply Failure Applied
stored_answer out (done w) = done (record { recorded = out; written = w })
stored_answer out (refused c) = refused changed_meanwhile
stored_answer out (thrown e) = thrown e

-- The second step: the change of what was read, and its `put` in the store as it then is.
unfoldable pub finish :
    Held Notification → Reply Refusal Recorded → Store Notification → Reply Failure Applied
unfolding put_notification stored_answer
finish h (done out) t = stored_answer out (put_notification t out.notification (tag h.etag))
finish h (refused r) t = refused (refused_by r)
finish h (thrown e) t = thrown e

-- `apply`: what `store.readNotification` gave, and the store that the `put` meets.
unfoldable pub apply :
    Option (Held Notification)
    → (Notification → Reply Refusal Recorded)
    → Store Notification
    → Reply Failure Applied
unfolding finish
apply none change t = refused notification_absent
apply (some h) change t = finish h (change h.document) t

unfoldable pub deliver :
    Option (Held Notification) → Report → Store Notification → Reply Failure Applied
unfolding apply
deliver held report t = apply held (λ n. record_delivery_attempt n report) t

unfoldable pub acknowledge :
    Option (Held Notification) → String → Instant → Store Notification → Reply Failure Applied
unfolding apply
acknowledge held actor at t = apply held (λ n. acknowledge_notification n actor at) t
