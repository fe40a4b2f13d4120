-- ===== src/Store.antt =====
-- app/persistence/in-memory-governance-store.mjs and the preconditions of
-- app/persistence/cosmos-governance-store.mjs: documents in partitions, with the entity tags that writers
-- race on. The tag `"n"` is the number n. A `ConcurrencyConflictError` is a refusal, since callers catch
-- it. The kind of the documents, and where a document belongs, are parameters.
pub mod Laws
pub mod Tags
pub mod Races
mod Tests
use azure_llm_governance_api.Prelude.{
  ℕ, suc, String, Bool, true, false, not, ◌&&◌, ◌||◌, Option, none, some, List, [], ◌∷◌, ◌==◌,
  str_eq, if◌then◌else◌, is_none, Reply, done, refused, thrown, type_error, refuse_if, ◌>>=◌, ◌>>◌,
}

pub data Container : Type 0 where
  governance rollups : Container

abbrev pub same_container : Container → Container → Bool
same_container governance governance = true
same_container rollups rollups = true
same_container _ _ = false

pub data Conflict : Type 0 where
  already_exists changed_since_read : Conflict

pub record Precondition : Type 0 where
  pub expect_absent : Bool
  pub if_match : Option ℕ

-- What a caller passes for `ifMatch`: nothing, `null` or a tag.
pub data Expected : Type 0 where
  undefined null : Expected
  tag : ℕ → Expected

unfoldable pub resolve_write_precondition : {R : Type 0} → Expected → Reply R Precondition
resolve_write_precondition undefined = thrown (
    type_error
      "ifMatch is required: pass the entity tag that was read, or null when the document was absent.")
resolve_write_precondition null = done (record { expect_absent = true; if_match = none })
resolve_write_precondition (tag t) = done (record { expect_absent = false; if_match = some t })

unfoldable pub resolve_delete_precondition : {R : Type 0} → Expected → Reply R ℕ
resolve_delete_precondition undefined =
    thrown (type_error "ifMatch is required: pass the entity tag that was read.")
resolve_delete_precondition null = thrown (type_error "ifMatch must be a non-empty entity tag.")
resolve_delete_precondition (tag t) = done t

module _ (D : Type 0) where
  pub record Held : Type 0 where
    pub document : D
    pub etag : ℕ

  -- `containers`, a partition for each scope group and a document for each id, and `etagSequence`.
  pub record Store : Type 0 where
    pub held : Container → String → String → Option Held
    pub sequence : ℕ

  pub record Written : Type 0 where
    pub store : Store
    pub result : Held

  pub record Created : Type 0 where
    pub store : Store
    pub result : Held
    pub created : Bool

  pub record Deleted : Type 0 where
    pub store : Store
    pub removed : Bool

-- The empty store.
abbrev pub empty : {D : Type 0} → Store D
empty = record { held = λ c g i. none; sequence = 0 }

module _ {D : Type 0} where
  -- `partitionOf(container, scopeGroupId).get(id)`
  abbrev pub read : Store D → Container → String → String → Option (Held D)
  read s c g i = s.held c g i

  abbrev pub place :
      Store D
      → Container
      → String
      → String
      → Option (Held D)
      → Container
      → String
      → String
      → Option (Held D)
  place s c g i h c' g' i' =
      if same_container c c' && (str_eq g g' && str_eq i i') then h else s.held c' g' i'

  abbrev pub tag_matches : Option ℕ → Option (Held D) → Bool
  tag_matches none held = true
  tag_matches (some t) none = false
  tag_matches (some t) (some h) = h.etag == t

-- The fields of a document that say where it belongs.
module _ {D : Type 0} (group id : D → String) where
  unfoldable pub stored : Store D → Container → D → Written D
  stored s c d =
      let h : Held D = record { document = d; etag = suc s.sequence } in
      record {
        store = record { held = place s c (group d) (id d) (some h); sequence = suc s.sequence };
        result = h;
      }

  unfoldable pub write : Store D → Container → D → Precondition → Reply Conflict (Written D)
  unfolding stored
  write s c d p = do
    refuse_if (p.expect_absent && not (is_none (read s c (group d) (id d)))) already_exists
    refuse_if (not (tag_matches p.if_match (read s c (group d) (id d)))) changed_since_read
    done (stored s c d)

  -- A `put` with a precondition, for a validator that hands back the document to store.
  unfoldable pub put :
      (D → Reply Conflict D) → Store D → Container → D → Expected → Reply Conflict (Written D)
  unfolding write
  put validate s c candidate expected = do
    p ← resolve_write_precondition expected
    d ← validate candidate
    write s c d p

  unfoldable pub keep_first : Store D → D → Option (Held D) → Reply Conflict (Created D)
  unfolding write
  keep_first s d (some h) = done (record { store = s; result = h; created = false })
  keep_first s d none = do
    w ← write s governance d (record { expect_absent = true; if_match = none })
    done (record { store = w.store; result = w.result; created = true })

  -- `putUsageRecord`: a replay does not overwrite.
  unfoldable pub put_usage_record :
      (D → Reply Conflict Unit) → Store D → D → Reply Conflict (Created D)
  unfolding keep_first
  put_usage_record validate s d = do validate d; keep_first s d (read s governance (group d) (id d))

module _ {D : Type 0} where
  unfoldable pub remove_held :
      Store D → String → String → ℕ → Option (Held D) → Reply Conflict (Deleted D)
  remove_held s g i t none = done (record { store = s; removed = false })
  remove_held s g i t (some h) = do
    refuse_if (not (h.etag == t)) changed_since_read
    done (record { store = record s { held = place s governance g i none }; removed = true })

  -- `deleteNotification`, on the id of the notification.
  unfoldable pub delete_notification :
      Store D → String → String → Expected → Reply Conflict (Deleted D)
  unfolding remove_held
  delete_notification s g i expected = do
    t ← resolve_delete_precondition expected
    remove_held s g i t (read s governance g i)
