-- ===== src/Ledger/Once.antt =====
-- That a notification is raised once, however often its crossing is seen.
use mathlib.Core.Path.{subst}
use azure_llm_governance_api.Prelude.{
  String, Bool, true, not, none, List, [], ◌∷◌, All, Reply, done, refused, thrown, ◌>>=◌,
  >>=-eq-done, done_injective, lift_answer, Error, is_none, ◌≡◌, refl, sym, ap, ◌∙◌, ◌⊎◌, inl, inr,
  arith, Bool-cases, eq_refl,
}
use azure_llm_governance_api.Notification.{Notification}
use azure_llm_governance_api.Notification.Delivery.{
  Raised, raise_notification, assert_notification_record,
}
use azure_llm_governance_api.Store.{
  Store, Written, Conflict, governance, Precondition, null, put, read, write,
  resolve_write_precondition, already_exists,
}
use azure_llm_governance_api.Store.Laws.{is_place, write-read}
use azure_llm_governance_api.Ledger.{
  group_of, id_of, validate, put_notification, Tally, counted, passed_over, after_put, raise,
}

-- Whether a document is held at the place of a notification.
abbrev is_held : Store Notification → Notification → Bool
is_held s n = not (is_none (read s governance n.scope_group_id n.id))

create : Precondition
create = record { expect_absent = true; if_match = none }

-- The store with one more document holds all that it held.
write-held :
    (s : Store Notification) (n : Notification) (p : Precondition) (w : Written Notification)
    → write group_of id_of s governance n p ≡ done w
    → (is_held w.store n ≡ true)
      × ((m : Notification) → is_held s m ≡ true → is_held w.store m ≡ true)
write-held s n p w h =
    let (_, _, at) = write-read group_of id_of s governance n p w h in
    let own : is_place group_of id_of governance n governance n.scope_group_id n.id ≡ true =
      ground (arith, eq_refl n.scope_group_id, eq_refl n.id) in
    (
      ap (λ o. not (is_none o)) (at governance n.scope_group_id n.id) ∙ rw own refl,
      λ m held.
          elim (Bool-cases
            (is_place group_of id_of governance n governance m.scope_group_id m.id)) [
              | inl e ↦ ap (λ o. not (is_none o)) (at governance m.scope_group_id m.id) ∙ rw e refl
              | inr e ↦
                  ap (λ o. not (is_none o)) (at governance m.scope_group_id m.id)
                  ∙ (rw e refl ∙ held)
            ],
    )

-- A notification that has passed its checks, and the record that it makes.
record Known (s : Store Notification) (r : Raised) : Type 0 where
  made : Notification
  raises : raise_notification r ≡ done made
  passes : validate made ≡ done made
  held : is_held s made ≡ true

lifted_cases :
    (n : Notification) (o : Reply ⊥ Unit) (k : Notification → Reply Conflict (Written Notification))
    (answer : Reply Conflict (Written Notification))
    → (lift_answer (o >>= λ _. done n) >>= k) ≡ answer
    → ((lift_answer {R = Conflict} (o >>= λ _. done n) ≡ done n) × (k n ≡ answer))
      ⊎ ((e : Error) × (answer ≡ thrown e))
lifted_cases n (done u) k answer h = inl (refl, h)
lifted_cases n (refused r) k answer h = absurd r
lifted_cases n (thrown e) k answer h = inr (e, sym h)

-- A create either fails the checks, or it is decided by what the store holds.
put_cases :
    (s : Store Notification) (n : Notification) (answer : Reply Conflict (Written Notification))
    → put_notification s n null ≡ answer
    → ((validate n ≡ done n) × (write group_of id_of s governance n create ≡ answer))
      ⊎ ((e : Error) × (answer ≡ thrown e))
unfolding put_notification put resolve_write_precondition validate create
put_cases s n answer h =
    lifted_cases n (assert_notification_record n)
      (λ d. write group_of id_of s governance d (record { expect_absent = true; if_match = none }))
      answer h

create_refused :
    (s : Store Notification) (n : Notification) (c : Conflict)
    → write group_of id_of s governance n create ≡ refused c
    → is_held s n ≡ true
unfolding write create
create_refused s n c h = ground (arith, h)

held_refuses :
    (s : Store Notification) (n : Notification)
    → validate n ≡ done n
    → is_held s n ≡ true
    → put_notification s n null ≡ refused already_exists
unfolding put_notification put resolve_write_precondition write
held_refuses s n valid held = rw valid (ground (arith, held))

-- One store holds all that another holds.
Grows : Store Notification → Store Notification → Type 0
Grows s t = (m : Notification) → is_held s m ≡ true → is_held t m ≡ true

-- What the raising of a list leads to.
record LeadsTo (s : Store Notification) (rs : List Raised) (t : Tally) : Type 0 where
  grows : Grows s t.store
  known : All (Known t.store) rs

-- One record more, in front of a list that is known to lead on.
module _ (r : Raised) (rs : List Raised) (n : Notification) (raises : raise_notification r ≡ done n)
    (go_on : (s : Store Notification) (u : Tally) → raise rs s ≡ done u → LeadsTo s rs u) where
  led :
      (s : Store Notification) (t u : Tally)
      → Grows s u.store
      → validate n ≡ done n
      → is_held u.store n ≡ true
      → All (Known u.store) rs
      → u.store ≡ t.store
      → LeadsTo s (r ∷ rs) t
  unfolding Grows
  led s t u g valid held ks same = record {
    grows = λ m before. subst (λ x. is_held x m ≡ true) same (g m before);
    known = (
      record {
        made = n;
        raises = raises;
        passes = valid;
        held = subst (λ x. is_held x n ≡ true) same held;
      },
      subst (λ x. All (Known x) rs) same ks,
    );
  }

  after_put-LeadsTo :
      (s : Store Notification) (t : Tally) (answer : Reply Conflict (Written Notification))
      → put_notification s n null ≡ answer
      → after_put (raise rs) r.key s answer ≡ done t
      → LeadsTo s (r ∷ rs) t
  unfolding after_put Grows
  after_put-LeadsTo s t answer put_it h = elim (put_cases s n answer put_it) [
    | inr (e, failed) ↦ absurd (
        failing (raise rs) r.key s t e
          (subst (λ a. after_put (raise rs) r.key s a ≡ done t) failed h))
    | inl (valid, decided) ↦ go answer decided valid h
  ]
    where
      failing :
          (k : Store Notification → Reply ⊥ Tally) (key : String) (s : Store Notification)
          (t : Tally) (e : Error)
          → ¬ (after_put k key s (thrown e) ≡ done t)
      failing k key s t e h = cc

      go :
          (answer : Reply Conflict (Written Notification))
          → write group_of id_of s governance n create ≡ answer
          → validate n ≡ done n
          → after_put (raise rs) r.key s answer ≡ done t
          → LeadsTo s (r ∷ rs) t
      go (done w) decided valid h =
          let (u, rest, e) = >>=-eq-done (raise rs w.store) (λ u. done (counted r.key u)) h in
          let l = go_on w.store u rest in
          let (own, kept) = write-held s n create w decided in
          led s t u (λ m before. l.grows m (kept m before)) valid (l.grows n own) l.known
            (ap (λ (x : Tally). x.store) (done_injective _ _ e))
      go (refused c) decided valid h =
          let (u, rest, e) = >>=-eq-done (raise rs s) (λ u. done (passed_over r.key u)) h in
          let l = go_on s u rest in
          led s t u l.grows valid (l.grows n (create_refused s n c decided)) l.known
            (ap (λ (x : Tally). x.store) (done_injective _ _ e))
      go (thrown e) decided valid h = absurd (failing (raise rs) r.key s t e h)

raise-LeadsTo :
    (rs : List Raised) (s : Store Notification) (t : Tally) → raise rs s ≡ done t → LeadsTo s rs t
unfolding raise Grows
raise-LeadsTo [] s t h =
    let same : s ≡ t.store = ap (λ (x : Tally). x.store) (done_injective _ _ h) in
    record { grows = λ m before. subst (λ x. is_held x m ≡ true) same before; known = tt }
raise-LeadsTo (r ∷ rs) s t h =
    let (n, raises, rest) =
      >>=-eq-done (raise_notification r)
        (λ n. after_put (raise rs) r.key s (put_notification s n null)) h in
    after_put-LeadsTo r rs n raises (λ x u. raise-LeadsTo rs x u) s t _ refl rest

abbrev keys_of : List Raised → List String
keys_of [] = []
keys_of (r ∷ rs) = r.key ∷ keys_of rs

raise-Known :
    (rs : List Raised) (s : Store Notification)
    → All (Known s) rs
    → raise rs s ≡ done (record { store = s; raised = []; already_raised = keys_of rs })
unfolding raise after_put
raise-Known [] s ks = refl
raise-Known (r ∷ rs) s (k, ks) =
    rw (k.raises, held_refuses s k.made k.passes k.held, raise-Known rs s ks) refl

-- Raising is done once: after a list has been raised, raising it again leaves the store as it is, raises
-- nothing, and answers that every key was raised already.
pub raise_again :
    (rs : List Raised) (s : Store Notification) (t : Tally)
    → raise rs s ≡ done t
    → raise rs t.store ≡ done (record { store = t.store; raised = []; already_raised = keys_of rs })
raise_again rs s t h = raise-Known rs t.store (raise-LeadsTo rs s t h).known
