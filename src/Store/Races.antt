-- ===== src/Store/Races.antt =====
-- Writers that race: what happens between a read and the write that follows from it.
use mathlib.Core.Path.{subst}
use azure_llm_governance_api.Prelude.{
  ℕ, ◌≤◌, ◌<◌, String, true, false, not, ◌&&◌, Option, none, some, str_eq, ◌==◌, ==_iff, Reply,
  done, refuse_if, >>-done, >>=-eq-done, done_injective, if_cases, ◌≡◌, refl, sym, ap, ◌∙◌, ◌⊎◌,
  inl, inr, arith, eq_refl,
}
use azure_llm_governance_api.Store.{
  Container, governance, same_container, Conflict, changed_since_read, Precondition, Expected, tag,
  Held, Store, Written, Deleted, Created, read, place, tag_matches, write, put, put_usage_record,
  delete_notification, remove_held, resolve_write_precondition, resolve_delete_precondition,
  keep_first,
}
use azure_llm_governance_api.Store.Laws.{
  IsOrdered, is_place, write-IsOrdered, write-read, held_cases, write-done, stored-sequence,
}

module _ {D : Type 0} where
  -- A deletion either leaves the store as it was, or takes the one notification out of it.
  delete_cases :
      (s : Store D) (g i : String) (e : Expected) (out : Deleted D)
      → delete_notification s g i e ≡ done out
      → (out.store ≡ s) ⊎ (out.store ≡ record s { held = place s governance g i none })
  unfolding delete_notification
  delete_cases s g i e out h =
      let (t, _, rest) =
        >>=-eq-done (resolve_delete_precondition e)
          (λ t. remove_held s g i t (read s governance g i)) h in
      go t (read s governance g i) rest
    where
      go :
          (t : ℕ) (o : Option (Held D))
          → remove_held s g i t o ≡ done out
          → (out.store ≡ s) ⊎ (out.store ≡ record s { held = place s governance g i none })
      go t none h = inl (ap (λ (x : Deleted D). x.store) (sym (done_injective _ _ h)))
      go t (some v) h =
          let (_, e) = >>-done (refuse_if (not (v.etag == t)) changed_since_read) _ h in
          inr (ap (λ (x : Deleted D). x.store) (sym (done_injective _ _ e)))

  taken_out :
      (s : Store D) (g i : String) (c' : Container) (g' i' : String) (h : Held D)
      → place s governance g i none c' g' i' ≡ some h
      → read s c' g' i' ≡ some h
  taken_out s g i c' g' i' h held =
      elim (if_cases (same_container governance c' && (str_eq g g' && str_eq i i')) none _ held) [
        | inl (_, e) ↦ absurd (let f : none ≡ some h = e in cc)
        | inr (_, e) ↦ e
      ]

  removed_held :
      (s : Store D) (g i : String) (e : Expected) (out : Deleted D)
      → delete_notification s g i e ≡ done out
      → (out.store.sequence ≡ s.sequence)
        × ((c' : Container) (g' i' : String) (h : Held D)
            → read out.store c' g' i' ≡ some h
            → read s c' g' i' ≡ some h)
  removed_held s g i e out h = elim (delete_cases s g i e out h) [
    | inl same ↦ (
      ap (λ (x : Store D). x.sequence) same,
      λ c' g' i' v held. subst (λ (x : Store D). read x c' g' i' ≡ some v) same held,
    )
    | inr gone ↦ (
      ap (λ (x : Store D). x.sequence) gone,
      λ c' g' i' v held.
          taken_out s g i c' g' i' v (subst (λ (x : Store D). read x c' g' i' ≡ some v) gone held),
    )
  ]

module _ {D : Type 0} (group id : D → String) where
  -- The stores that writes and deletions lead to, whoever makes them.
  pub data Steps (s : Store D) : Store D → Type 0 where
    start : Steps s s
    written :
        {t : Store D} (c : Container) (d : D) (p : Precondition) (w : Written D)
        → Steps s t
        → write group id t c d p ≡ done w
        → Steps s w.store
    removed :
        {t : Store D} (g i : String) (e : Expected) (out : Deleted D)
        → Steps s t
        → delete_notification t g i e ≡ done out
        → Steps s out.store

  -- If in a store all tags were issued and no two held documents have one in common, then so it is in
  -- every store that writes and deletions lead to.
  pub Steps-IsOrdered : (s t : Store D) → IsOrdered s → Steps s t → IsOrdered t
  Steps-IsOrdered s t o start = o
  Steps-IsOrdered s t o (written {t = m} c d p w before h) =
      write-IsOrdered group id m c d p w (Steps-IsOrdered s m o before) h
  Steps-IsOrdered s t o (removed {t = m} g i e out before h) =
      let b = Steps-IsOrdered s m o before in
      let (same, back) = removed_held m g i e out h in
      record {
        bounded =
            λ c' g' i' v held. omega (arith, b.bounded c' g' i' v (back c' g' i' v held), same);
        apart = λ c1 c2 g1 i1 g2 i2 v1 v2 held1 held2 tags.
            b.apart c1 c2 g1 i1 g2 i2 v1 v2 (back c1 g1 i1 v1 held1) (back c2 g2 i2 v2 held2) tags;
      }

  Steps-sequence : (s t : Store D) → Steps s t → s.sequence ≤ t.sequence
  Steps-sequence s t start = omega arith
  Steps-sequence s t (written {t = m} c d p w before h) =
      omega (arith, Steps-sequence s m before, stored-sequence group id m c d p w h)
  Steps-sequence s t (removed {t = m} g i e out before h) =
      omega (arith, Steps-sequence s m before, (removed_held m g i e out h).0)

  -- A version that is held later was held before, or is newer than all that were.
  Steps-newer :
      (s t : Store D)
      → Steps s t
      → (c : Container) (g i : String) (h : Held D) → read t c g i ≡ some h
      → (read s c g i ≡ some h) ⊎ (s.sequence < h.etag)
  Steps-newer s t start c g i h held = inl held
  Steps-newer s t (written {t = m} c d p w before h) c' g i v held =
      let (_, new, _) = write-read group id m c d p w h in
      elim (held_cases group id m c d p w h c' g i v held) [
        | inl (_, _, _, same) ↦
            let tags = ap (λ (x : Held D). x.etag) same in
            inr (omega (arith, tags, new, Steps-sequence s m before))
        | inr old ↦ Steps-newer s m before c' g i v old
      ]
  Steps-newer s t (removed {t = m} g i e out before h) c' g' i' v held =
      Steps-newer s m before c' g' i' v ((removed_held m g i e out h).1 c' g' i' v held)

  matched_tag :
      (t : ℕ) (o : Option (Held D))
      → tag_matches (some t) o ≡ true
      → (h : Held D) × (o ≡ some h) × (h.etag ≡ t)
  matched_tag t none h = cc
  matched_tag t (some v) h = (v, refl, (==_iff v.etag t).0 h)

  pub put-write :
      (validate : D → Reply Conflict D) (s : Store D) (c : Container) (candidate : D) (t : ℕ)
      (w : Written D)
      → put group id validate s c candidate (tag t) ≡ done w
      → (d : D) × (validate candidate ≡ done d)
        × (write group id s c d (record { expect_absent = false; if_match = some t }) ≡ done w)
  unfolding put resolve_write_precondition
  put-write validate s c candidate t w h =
      >>=-eq-done (validate candidate)
        (λ d. write group id s c d (record { expect_absent = false; if_match = some t })) h

  -- No update is lost: however many writes and deletions come between, a put under the tag that was read
  -- succeeds only if the version it replaces is the one that was read.
  pub no_lost_update :
      (validate : D → Reply Conflict D) (s t : Store D) (c : Container) (candidate d : D)
      (h : Held D) (w : Written D)
      → IsOrdered s
      → read s c (group d) (id d) ≡ some h
      → Steps s t
      → validate candidate ≡ done d
      → put group id validate t c candidate (tag h.etag) ≡ done w
      → read t c (group d) (id d) ≡ some h
  no_lost_update validate s t c candidate d h w o before steps valid put_done =
      let (e, valid_e, write_done) = put-write validate t c candidate h.etag w put_done in
      let same : d ≡ e = done_injective _ _ (sym valid ∙ valid_e) in
      let (_, matched, _) = write-done group id t c e _ w write_done in
      let (v, held, tags) = matched_tag h.etag (read t c (group e) (id e)) matched in
      let here : read t c (group d) (id d) ≡ some v =
        subst (λ x. read t c (group x) (id x) ≡ some v) (sym same) held in
      elim (Steps-newer s t steps c (group d) (id d) v here) [
        | inl old ↦ here ∙ (sym old ∙ before)
        | inr newer ↦ absurd (omega (arith, newer, tags, o.bounded c (group d) (id d) h before))
      ]

  kept_at :
      (s : Store D) (d : D) (o : Option (Held D)) (first : Created D)
      → read s governance (group d) (id d) ≡ o
      → keep_first group id s d o ≡ done first
      → read first.store governance (group d) (id d) ≡ some first.result
  unfolding keep_first
  kept_at s d (some v) first at h =
      subst (λ (x : Created D). read x.store governance (group d) (id d) ≡ some x.result)
        (done_injective _ _ h) at
  kept_at s d none first at h =
      let (w, written_it, e) =
        >>=-eq-done
          (write group id s governance d (record { expect_absent = true; if_match = none }))
          (λ w. done (record { store = w.store; result = w.result; created = true })) h in
      let (_, _, places) =
        write-read group id s governance d (record { expect_absent = true; if_match = none }) w
          written_it in
      let own : is_place group id governance d governance (group d) (id d) ≡ true =
        ground (arith, eq_refl (group d), eq_refl (id d)) in
      subst (λ (x : Created D). read x.store governance (group d) (id d) ≡ some x.result)
        (done_injective _ _ e) (places governance (group d) (id d) ∙ rw own refl)

  -- The first usage record of an id is the one that is kept: a second put with the same place answers with
  -- the first document, says that it created nothing, and leaves the store as it was.
  pub put_usage_record-first :
      (validate : D → Reply Conflict Unit) (s : Store D) (d e : D) (first : Created D)
      → put_usage_record group id validate s d ≡ done first
      → validate e ≡ done tt
      → group e ≡ group d
      → id e ≡ id d
      → put_usage_record group id validate first.store e
        ≡ done (record { store = first.store; result = first.result; created = false })
  unfolding put_usage_record keep_first
  put_usage_record-first validate s d e first h valid same_group same_id =
      let (_, kept) =
        >>-done (validate d) (keep_first group id s d (read s governance (group d) (id d))) h in
      let at : read first.store governance (group e) (id e) ≡ some first.result =
        rw (same_group, same_id)
          (kept_at s d (read s governance (group d) (id d)) first refl kept) in
      rw (valid, at) refl
