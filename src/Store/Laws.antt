-- ===== src/Store/Laws.antt =====
-- What one operation of the store leaves: what it wrote, everything else as it was, tags that stay apart.
use mathlib.Core.Path.{subst}
use azure_llm_governance_api.Prelude.{
  ℕ, suc, ◌≤◌, String, Bool, true, false, not, ◌&&◌, some, str_eq, if◌then◌else◌, is_none, done,
  refuse_if, ◌>>◌, >>-done, done_injective, refuse_if-false, some_injective, ◌≡◌, ◌≢◌, refl, sym,
  ap, ◌∙◌, ◌⊎◌, inl, inr, arith, Bool-cases, eq_iff,
}
use azure_llm_governance_api.Store.{
  Container, governance, rollups, same_container, already_exists, changed_since_read, Precondition,
  Held, Store, Written, read, tag_matches, stored, write,
}

same_container-eq : (c c' : Container) → same_container c c' ≡ true → c ≡ c'
same_container-eq governance governance h = refl
same_container-eq rollups rollups h = refl
same_container-eq governance rollups h = cc
same_container-eq rollups governance h = cc

-- Tags that were issued, and no tag at two places.
pub record IsOrdered {D : Type 0} (s : Store D) : Type 0 where
  pub bounded :
      (c : Container) (g i : String) (h : Held D) → read s c g i ≡ some h → h.etag ≤ s.sequence
  pub apart :
      (c c' : Container) (g i g' i' : String) (h h' : Held D)
      → read s c g i ≡ some h
      → read s c' g' i' ≡ some h'
      → h.etag ≡ h'.etag
      → (c ≡ c') × (g ≡ g') × (i ≡ i')

module _ {D : Type 0} (group id : D → String) where
  -- Whether a place is the one that a document is stored at.
  abbrev pub is_place : Container → D → Container → String → String → Bool
  is_place c d c' g i = same_container c c' && (str_eq (group d) g && str_eq (id d) i)

  pub write-done :
      (s : Store D) (c : Container) (d : D) (p : Precondition) (w : Written D)
      → write group id s c d p ≡ done w
      → ((p.expect_absent && not (is_none (read s c (group d) (id d)))) ≡ false)
        × (tag_matches p.if_match (read s c (group d) (id d)) ≡ true)
        × (stored group id s c d ≡ w)
  unfolding write
  write-done s c d p w h =
      let (absent, h1) =
        >>-done
          (refuse_if (p.expect_absent && not (is_none (read s c (group d) (id d)))) already_exists)
          (do
            refuse_if (not (tag_matches p.if_match (read s c (group d) (id d)))) changed_since_read
            done (stored group id s c d))
          h in
      let (matched, e) =
        >>-done
          (refuse_if (not (tag_matches p.if_match (read s c (group d) (id d)))) changed_since_read)
          (done (stored group id s c d)) h1 in
      (
        refuse_if-false _ _ absent,
        ground (arith, refuse_if-false _ _ matched),
        done_injective _ _ e,
      )

  -- A write puts the document at its own place, under the next tag, and leaves every other place as
  -- it was.
  pub write-read :
      (s : Store D) (c : Container) (d : D) (p : Precondition) (w : Written D)
      → write group id s c d p ≡ done w
      → (w.result.document ≡ d)
        × (w.result.etag ≡ suc s.sequence)
        × ((c' : Container) (g i : String)
            → read w.store c' g i ≡ (if is_place c d c' g i then some w.result else read s c' g i))
  unfolding stored
  write-read s c d p w h =
      let (_, _, e) = write-done s c d p w h in
      (
        ap (λ (x : Written D). x.result.document) (sym e),
        ap (λ (x : Written D). x.result.etag) (sym e),
        λ c' g i.
            subst
              (λ (x : Written D).
                read x.store c' g i
                ≡ (if is_place c d c' g i then some x.result else read s c' g i))
              e refl,
      )

  pub stored-sequence :
      (s : Store D) (c : Container) (d : D) (p : Precondition) (w : Written D)
      → write group id s c d p ≡ done w
      → w.store.sequence ≡ suc s.sequence
  unfolding stored
  stored-sequence s c d p w h =
      let (_, _, e) = write-done s c d p w h in ap (λ (x : Written D). x.store.sequence) (sym e)

  -- What is held after a write: the new version at the place of the document, or what was there before.
  pub held_cases :
      (s : Store D) (c : Container) (d : D) (p : Precondition) (w : Written D)
      → write group id s c d p ≡ done w
      → (c' : Container) (g i : String) (h : Held D) → read w.store c' g i ≡ some h
      → ((c ≡ c') × (group d ≡ g) × (id d ≡ i) × (h ≡ w.result)) ⊎ (read s c' g i ≡ some h)
  held_cases s c d p w done_it c' g i h held =
      let (_, _, at) = write-read s c d p w done_it in
      elim (Bool-cases (is_place c d c' g i)) [
        | inl e ↦ inl (
          same_container-eq c c' (ground (arith, e)),
          (eq_iff (group d) g).0 (ground (arith, e)),
          (eq_iff (id d) i).0 (ground (arith, e)),
          some_injective _ _ (sym held ∙ (at c' g i ∙ rw e refl)),
        )
        | inr e ↦ inr (sym (at c' g i ∙ rw e refl) ∙ held)
      ]

  -- A write keeps the tags apart.
  pub write-IsOrdered :
      (s : Store D) (c : Container) (d : D) (p : Precondition) (w : Written D)
      → IsOrdered s
      → write group id s c d p ≡ done w
      → IsOrdered w.store
  write-IsOrdered s c d p w o h =
      let (_, new, at) = write-read s c d p w h in
      let next = stored-sequence s c d p w h in
      record {
        bounded = λ c' g i v held. elim (held_cases s c d p w h c' g i v held) [
          | inl (_, _, _, same) ↦ rw same (omega (arith, new, next))
          | inr old ↦ omega (arith, o.bounded c' g i v old, next)
        ];
        apart = λ c1 c2 g1 i1 g2 i2 v1 v2 held1 held2 tags.
            elim (held_cases s c d p w h c1 g1 i1 v1 held1) [
              | inl (ec, eg, ei, e1) ↦ elim (held_cases s c d p w h c2 g2 i2 v2 held2) [
                | inl (fc, fg, fi, _) ↦ (sym ec ∙ fc, sym eg ∙ fg, sym ei ∙ fi)
                | inr old ↦ absurd (newer v1 v2 e1 new (o.bounded c2 g2 i2 v2 old) tags)
              ]
              | inr old1 ↦ elim (held_cases s c d p w h c2 g2 i2 v2 held2) [
                | inl (_, _, _, e2) ↦
                    absurd (newer v2 v1 e2 new (o.bounded c1 g1 i1 v1 old1) (sym tags))
                | inr old2 ↦ o.apart c1 c2 g1 i1 g2 i2 v1 v2 old1 old2 tags
              ]
            ];
      }
    where
      newer :
          {r : Held D} {n : ℕ} (v u : Held D)
          → v ≡ r
          → r.etag ≡ suc n
          → u.etag ≤ n
          → v.etag ≢ u.etag
      newer v u e new old tags =
          let f = ap (λ (x : Held D). x.etag) e in omega (arith, f, new, old, tags)
