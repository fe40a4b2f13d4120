-- ===== src/Ledger/Current.antt =====
-- That an attempt is recorded on the current version of a notification, or not at all.
use mathlib.Core.Path.{subst}
use azure_llm_governance_api.Prelude.{
  some, List, Reply, done, refused, thrown, ◌>>=◌, >>=-eq-done, done_injective, lift_answer,
  if_cases, leb, length, str_eq, ◌++◌, ◌∷◌, [], ◌≡◌, refl, sym, ap, ◌∙◌, inl, inr, ◌+◌, ◌*◌,
}
use azure_llm_governance_api.Prelude.Time.{to_iso, ms}
use azure_llm_governance_api.Notification.{Notification, Recorded, Refusal, Attempt}
use azure_llm_governance_api.Notification.Delivery.{
  Report, attempt_of, record_delivery_attempt, settle_attempt, retry, closed, scheduled,
  max_attempts, backoff_seconds, assert_notification_record,
}
use azure_llm_governance_api.Notification.Settled.{attempt_inv}
use azure_llm_governance_api.Store.{Store, Held, Written, Conflict, governance, tag, read}
use azure_llm_governance_api.Store.Laws.{IsOrdered}
use azure_llm_governance_api.Store.Races.{Steps, no_lost_update, put-write}
use azure_llm_governance_api.Ledger.{
  group_of, id_of, validate, put_notification, Applied, stored_answer, finish, apply, deliver,
}

-- An attempt leaves a notification at its place.
SamePlace : Notification → Notification → Type 0
SamePlace n m = (m.scope_group_id ≡ n.scope_group_id) × (m.id ≡ n.id)

settle_attempt-SamePlace :
    (n : Notification) (made : List Attempt) (r : Report) (out : Recorded)
    → settle_attempt n made r ≡ done out
    → SamePlace n out.notification
unfolding settle_attempt retry closed scheduled SamePlace
settle_attempt-SamePlace n made r out h = elim (if_cases (str_eq r.outcome "delivered") _ _ h) [
  | inl (_, e) ↦
      subst (λ (x : Recorded). SamePlace n x.notification) (done_injective _ _ e) (refl, refl)
  | inr (_, rest) ↦ elim (if_cases (leb max_attempts (length made)) _ _ rest) [
    | inl (_, e) ↦
        subst (λ (x : Recorded). SamePlace n x.notification) (done_injective _ _ e) (refl, refl)
    | inr (_, e) ↦
        let (next, _, f) =
          >>=-eq-done (to_iso (ms r.at + backoff_seconds (length made) * 1000))
            (λ next. done (record {
              reason_code = "delivery-retry-scheduled";
              notification = scheduled n made r.reason_code next;
            }))
            e in
        subst (λ (x : Recorded). SamePlace n x.notification) (done_injective _ _ f) (refl, refl)
  ]
]

stored_inv :
    (out : Recorded) (answer : Reply Conflict (Written Notification)) (a : Applied)
    → stored_answer out answer ≡ done a
    → (a.recorded ≡ out) × (answer ≡ done a.written)
unfolding stored_answer
stored_inv out (done w) a h =
    let e = done_injective _ _ h in
    (sym (ap (λ (x : Applied). x.recorded) e), ap done (ap (λ (x : Applied). x.written) e))
stored_inv out (refused c) a h = cc
stored_inv out (thrown e) a h = cc

finish_inv :
    (h : Held Notification) (result : Reply Refusal Recorded) (t : Store Notification) (a : Applied)
    → finish h result t ≡ done a
    → (result ≡ done a.recorded)
      × (put_notification t a.recorded.notification (tag h.etag) ≡ done a.written)
unfolding finish
finish_inv h (done out) t a e =
    let (same, put_it) = stored_inv out _ a e in
    (
      ap done (sym same),
      subst (λ (x : Recorded). put_notification t x.notification (tag h.etag) ≡ done a.written)
          (sym same) put_it,
    )
finish_inv h (refused r) t a e = cc
finish_inv h (thrown x) t a e = cc

lifted_same :
    (n d : Notification) (o : Reply ⊥ Unit)
    → lift_answer {R = Conflict} (o >>= λ _. done n) ≡ done d
    → n ≡ d
lifted_same n d (done u) h = done_injective _ _ h
lifted_same n d (refused r) h = absurd r
lifted_same n d (thrown e) h = cc

validate_same : (n d : Notification) → validate n ≡ done d → n ≡ d
unfolding validate
validate_same n d h = lifted_same n d (assert_notification_record n) h

-- A delivery that is accepted was recorded on the version that the store held at that moment, however
-- many others wrote between the read and the put; so no recorded attempt is ever overwritten.
pub deliver-current :
    (report : Report) (s t : Store Notification) (h : Held Notification) (a : Applied)
    → IsOrdered s
    → read s governance h.document.scope_group_id h.document.id ≡ some h
    → Steps group_of id_of s t
    → deliver (some h) report t ≡ done a
    → (record_delivery_attempt h.document report ≡ done a.recorded)
      × (read t governance h.document.scope_group_id h.document.id ≡ some h)
unfolding deliver apply put_notification SamePlace
deliver-current report s t h a ordered before steps accepted =
    let (recorded, put_it) =
      finish_inv h (record_delivery_attempt h.document report) t a accepted in
    let (_, _, _, settled) = attempt_inv h.document report a.recorded recorded in
    let (group, id) =
      settle_attempt-SamePlace h.document (h.document.attempts ++ attempt_of report ∷ []) report
        a.recorded settled in
    let n : Notification = a.recorded.notification in
    let (d, valid, _) = put-write group_of id_of validate t governance n h.etag a.written put_it in
    let same : n ≡ d = validate_same n d valid in
    let valid_n : validate n ≡ done n = valid ∙ ap done (sym same) in
    let at : read s governance n.scope_group_id n.id ≡ some h =
      ap (λ g. read s governance g n.id) group
      ∙ (ap (λ i. read s governance h.document.scope_group_id i) id ∙ before) in
    let now =
      no_lost_update group_of id_of validate s t governance n n h a.written ordered at steps valid_n
        put_it in
    (
      recorded,
      sym (
            ap (λ g. read t governance g n.id) group
            ∙ ap (λ i. read t governance h.document.scope_group_id i) id)
          ∙ now,
    )
