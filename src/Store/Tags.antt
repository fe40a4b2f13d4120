-- ===== src/Store/Tags.antt =====
-- What the tag of a write is good for.
use azure_llm_governance_api.Prelude.{
  ==_iff, ℕ, String, true, false, not, some, ◌==◌, done, refused, refuse_if, ◌>>◌, ◌≡◌, ◌≢◌, refl,
  ◌∙◌, arith, eq_iff, Bool-cases, inl, inr,
}
use azure_llm_governance_api.Store.{
  Container, same_container, changed_since_read, Precondition, Held, Store, Written, governance,
  rollups, read, stored, write,
}
use azure_llm_governance_api.Store.Laws.{IsOrdered, is_place, write-read}

abbrev pub under_tag : ℕ → Precondition
under_tag t = record { expect_absent = false; if_match = some t }

same_container_refl : (c : Container) → same_container c c ≡ true
same_container_refl governance = refl
same_container_refl rollups = refl

module _ {D : Type 0} (group id : D → String) where
  -- What a write has left.
  pub record Settled (s : Store D) (c : Container) (d : D) (w : Written D) : Type 0 where
    pub reads_back : read w.store c (group d) (id d) ≡ some w.result
    pub same_document : w.result.document ≡ d
    pub others :
        (c' : Container) (g i : String)
        → is_place group id c d c' g i ≡ false
        → read w.store c' g i ≡ read s c' g i
    pub fresh :
        (c' : Container) (g i : String) (h : Held D)
        → read s c' g i ≡ some h
        → h.etag ≢ w.result.etag
    pub accepts :
        (e : D)
        → group e ≡ group d
        → id e ≡ id d
        → write group id w.store c e (under_tag w.result.etag) ≡ done (stored group id w.store c e)
    pub refuses :
        (e : D) (t : ℕ)
        → group e ≡ group d
        → id e ≡ id d
        → t ≢ w.result.etag
        → write group id w.store c e (under_tag t) ≡ refused changed_since_read

  here : (c : Container) (d : D) → is_place group id c d c (group d) (id d) ≡ true
  here c d = ground (arith, same_container_refl c, eq_iff (group d) (group d), eq_iff (id d) (id d))

  write-under :
      (s : Store D) (c : Container) (e : D) (h : Held D) (t : ℕ)
      → read s c (group e) (id e) ≡ some h
      → write group id s c e (under_tag t)
        ≡ (refuse_if (not (h.etag == t)) changed_since_read >> done (stored group id s c e))
  unfolding write
  write-under s c e h t there = rw there refl

  -- In a store whose tags are in order, a write that is accepted is read back at its own place, every
  -- other place is as it was, and its tag is one that no document had. A write of a document of that
  -- place is then accepted under that tag, and refused as changed since it was read under any other one,
  -- those that were read before among them.
  pub write-Settled :
      (s : Store D) (c : Container) (d : D) (p : Precondition) (w : Written D)
      → IsOrdered s
      → write group id s c d p ≡ done w
      → Settled s c d w
  write-Settled s c d p w o h =
      let (same, new, at) = write-read group id s c d p w h in
      let back : read w.store c (group d) (id d) ≡ some w.result =
        at c (group d) (id d) ∙ rw (here c d) refl in
      record {
        reads_back = back;
        same_document = same;
        others = λ c' g i away. at c' g i ∙ rw away refl;
        fresh = λ c' g i v held e. absurd (omega (arith, o.bounded c' g i v held, new, e));
        accepts = λ e eg ei.
            let held : read w.store c (group e) (id e) ≡ some w.result = rw (eg, ei) back in
            let own : (w.result.etag == w.result.etag) ≡ true = ground arith in
            write-under w.store c e w.result w.result.etag held ∙ rw own refl;
        refuses = λ e t eg ei differs.
            let held : read w.store c (group e) (id e) ≡ some w.result = rw (eg, ei) back in
            let other : (w.result.etag == t) ≡ false = apart t w.result.etag differs in
            write-under w.store c e w.result t held ∙ rw other refl;
      }
    where
      apart : (t u : ℕ) → t ≢ u → (u == t) ≡ false
      apart t u n = elim (Bool-cases (u == t)) [
        | inl e ↦ absurd (n (omega (arith, (==_iff u t).0 e)))
        | inr e ↦ e
      ]
