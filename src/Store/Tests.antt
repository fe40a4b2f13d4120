-- ===== src/Store/Tests.antt =====
-- Two writers of one document, and a usage record that is replayed.
use azure_llm_governance_api.Prelude.{ℕ, String, true, false, none, some, done, ◌≡◌, refl}
use azure_llm_governance_api.Store.{
  governance, Precondition, Held, Store, empty, read, place, write, put, resolve_write_precondition,
  put_usage_record,
}
use azure_llm_governance_api.Store.Laws.{IsOrdered}
use azure_llm_governance_api.Store.Tags.{Settled, write-Settled}
use azure_llm_governance_api.Store.Races.{
  Steps, start, written, Steps-IsOrdered, no_lost_update, put_usage_record-first,
}

record Document : Type 0 where
  scope_group_id : String
  name : String
  revision : ℕ

abbrev group : Document → String
group d = d.scope_group_id

abbrev id : Document → String
id d = d.name

abbrev version : ℕ → Document
version n = record { scope_group_id = "org"; name = "policy"; revision = n }

abbrev other : Document
other = record { scope_group_id = "org"; name = "draft"; revision = 1 }

abbrev anything : Precondition
anything = record { expect_absent = false; if_match = none }

abbrev held_as : Document → ℕ → Held Document
held_as d n = record { document = d; etag = n }

abbrev first_store : Store Document
first_store = record {
  held = place empty governance "org" "policy" (some (held_as (version 1) 1));
  sequence = 1;
}

abbrev second_store : Store Document
second_store = record {
  held = place first_store governance "org" "draft" (some (held_as other 2));
  sequence = 2;
}

abbrev third_store : Store Document
third_store = record {
  held = place second_store governance "org" "policy" (some (held_as (version 2) 3));
  sequence = 3;
}

empty-IsOrdered : IsOrdered {D = Document} empty
empty-IsOrdered = record { bounded = λ c g i h e. cc; apart = λ c c' g i g' i' h h' e. cc }

to_first : Steps group id empty first_store
unfolding write
to_first =
    written governance (version 1) anything
      (record { store = first_store; result = held_as (version 1) 1 }) start refl

to_second : Steps group id first_store second_store
unfolding write
to_second =
    written governance other anything (record { store = second_store; result = held_as other 2 })
      start refl

first-IsOrdered : IsOrdered first_store
first-IsOrdered = Steps-IsOrdered group id empty first_store empty-IsOrdered to_first

no_lost_update_example : read second_store governance "org" "policy" ≡ some (held_as (version 1) 1)
unfolding put resolve_write_precondition
no_lost_update_example =
    no_lost_update group id (λ d. done d) first_store second_store governance (version 2)
      (version 2) (held_as (version 1) 1)
      (record { store = third_store; result = held_as (version 2) 3 }) first-IsOrdered refl
      to_second refl refl

write-Settled_example :
    Settled group id first_store governance other
      (record { store = second_store; result = held_as other 2 })
unfolding write
write-Settled_example =
    write-Settled group id first_store governance other anything
      (record { store = second_store; result = held_as other 2 }) first-IsOrdered refl

put_usage_record-first_example :
    put_usage_record group id (λ d. done tt) first_store (version 2)
    ≡ done (record { store = first_store; result = held_as (version 1) 1; created = false })
unfolding put_usage_record
put_usage_record-first_example =
    put_usage_record-first group id (λ d. done tt) empty (version 1) (version 2)
      (record { store = first_store; result = held_as (version 1) 1; created = true }) refl refl
      refl refl
