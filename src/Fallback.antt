-- ===== src/Fallback.antt =====
-- app/governance-domain/policy/fallback-plan-compiler.mjs: authored fallback plans, and the hops that
-- they leave to a caller.
pub mod Cycles
pub mod Colouring
pub mod Acyclic
pub mod Plans
pub mod Accepted
pub mod Select
pub mod Compile
pub mod Hops
pub mod Splits
pub mod Choice
pub mod Snapshot
pub mod Authored
pub mod Edit
pub mod Edits
pub mod Governed
pub mod Commits
mod Tests
mod EditTests
use azure_llm_governance_api.Prelude.{ℕ, String, Bool, Option, List}
use azure_llm_governance_api.Prelude.Time.{Instant}

pub record Edge : Type 0 where
  pub from : String
  pub to : String

-- A target or an issuer; the key of a global target is `null`.
pub record Party : Type 0 where
  pub kind : String
  pub key : Option String

-- An authored plan; an optional field is `none` where it is left out.
pub record Plan : Type 0 where
  pub plan_id : String
  pub plan_version : ℕ
  pub state : String
  pub target : Party
  pub enabled : Bool
  pub edges : List Edge
  pub valid_from : Instant
  pub valid_until : Option Instant
  pub issued_by : Party
  pub reason_code : String
  pub on_exhausted : Option String
  pub model_selection_intent : Option String
  pub substitution_notice : Option String
