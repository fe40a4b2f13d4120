-- ===== src/Lib.antt =====
-- The governance domain of an LLM gateway: who may use which model, which model a request is served
-- with, how a configuration comes into force, when scheduled work runs, and what becomes of a
-- notification. The modules stand for files of app/governance-domain, app/persistence and
-- app/control-api; the names are those of the source in lower case with underscores.
--
-- How the parts interact. A caller's principal and two snapshots go through the evaluator
-- (Authorization), which yields the models and rates that are allowed. An authored fallback plan is
-- validated, selected and compiled for that caller and that list (Fallback). Budgets are published
-- as quotas (Budget), and the composer folds the applied bindings, the published quotas and the
-- compiled chain into one effective policy (Policy). The selector (Selection) reads that document
-- and decides the model of one request, and the decision is written down for audit (Decision). A
-- configuration that changes any of this is a revision with a lifecycle (Lifecycle). Consumption is
-- read from roll-ups and planned into notifications (Usage). Scheduled runs keep a checkpoint
-- (Scheduling), notifications keep their attempts (Notification), and all documents lie in a store
-- whose writers race on entity tags (Store).
--
-- Prelude: Boolean tests, lists, texts, sets of texts, instants, and Reply, the type of a call that
-- returns, refuses or throws. `{ ok: false, … }` is `refused`, a TypeError or RangeError is
-- `thrown`.
--
-- Lifecycle, Lifecycle.Reducer, Lifecycle.Screen:
-- app/governance-domain/lifecycle/configuration-lifecycle.mjs. createRevision is create_revision,
-- applyLifecycleCommand is apply_lifecycle_command, whose conditions for each command are `check`
-- and whose writes are `effects`; recordTargetOutcome is record_target_outcome; availableCommands
-- and summariseTargets are in Screen. Laws, Reach and Progress hold the proofs: a revision is
-- reached by any sequence of accepted commands and reports.
--
-- Scheduling: app/governance-domain/scheduling/schedule-recovery.mjs. planScheduleRun is
-- plan_schedule_run, completeScheduleRun is complete_schedule_run. Plan and Holding hold the
-- proofs.
--
-- Authorization: app/governance-domain/authorization/governance-authorization-evaluator.mjs. Rules
-- has the tests on one record and the models and rates of a list of bindings; Evaluator has
-- evaluateGovernanceAuthorization, behind the assertions on its snapshots, which are not modelled;
-- Allowlist and Decisions hold the proofs.
--
-- Fallback: app/governance-domain/policy/fallback-plan-compiler.mjs. Cycles is assertAcyclic, Plans
-- is assertPlan and classifyAuthoredPlan, Select is selectFallbackPlan, Compile is
-- derivePermittedTargets and compileFallbackPlan; Colouring, Acyclic, Accepted, Hops, Splits and
-- Choice hold the proofs. The registry's look-up is that of
-- app/governance-domain/registry/model-registry-validator.mjs.
--
-- Fallback.Snapshot, Fallback.Authored, Fallback.Edit: assertFallbackPolicySnapshotV1, and
-- app/governance-domain/policy/fallback-plan-edit.mjs. Edits has the lemmas on its calls, Governed
-- and Commits what sequences of them keep.
--
-- Budget: app/governance-domain/policy/budget-token-quota.mjs, and budget-publication.mjs beside it
-- in Snapshot (the assertions on thresholds and snapshots), Legacy (the upgrade of old snapshots),
-- Publication (its records) and Publish (publishBudgets). budget-edit.mjs beside it is in Edited
-- (the checks on one budget) and Edit (editBudget, addBudget, removeBudget); Committed, Swapped and
-- Changed have the lemmas on it, Changed what an edit makes of one budget, Contents what a snapshot
-- holds after a call, Versions what sequences of calls keep. Capacity says what a budget allows
-- without the loop; Kept and Caps show that the published limits refine that, Bounds and Entries
-- what an entry holds, Total that publishing succeeds, Upgraded what the upgrade leaves.
--
-- Usage: app/governance-domain/usage/budget-notification-planner.mjs in Planner, and
-- period-consumption.mjs in Period. Earned, Once, Evidence and Exhausted hold the proofs on the
-- planner, Coverage and Accounts those on the period. The rounded quotient of two floating-point
-- numbers, consumedBasisPoints, is a parameter.
--
-- Policy: app/governance-domain/policy/effective-policy-composer.mjs; the parent has the limits and
-- Compose the document. Caps, Merged, Paired and Listed follow the caps of bindings and budgets
-- into the list of limits; Composed has the theorems on documents, and Accepting joins the composer
-- to the compiled plan of Fallback.
--
-- Selection: app/governance-domain/policy/effective-model-selector.mjs; Over says when a budget is
-- over its share, Moves and Compiled hold the proofs. Decision:
-- app/governance-domain/policy/model-selection-decision.mjs; Records holds the proofs.
--
-- Notification.Delivery: app/governance-domain/notification/notification-delivery.mjs; Settled,
-- Ladder and Failing hold the proofs.
--
-- Ledger: app/control-api/notification-ledger.mjs, on top of Notification and Store; Once and
-- Current hold the proofs.
--
-- Store: app/persistence/in-memory-governance-store.mjs, and the two preconditions of
-- app/persistence/cosmos-governance-store.mjs. The validators of documents are parameters. Laws,
-- Tags and Races hold the proofs; a race is any sequence of writes and deletions between a read and
-- a write.
--
-- Loops. The loops over lists are structural. The walk of assertAcyclic runs on fuel, one more than
-- there are keys, which is enough since each step paints a white key; the loop of the selector runs
-- on maxDepth. The windows of a scheduled run are counted down.
--
-- Numbers and times. Counts, quotas, remainders, versions and instants are natural numbers, so
-- times before 1970, negative counts and fractional quotas are left out, and a value that is no
-- number or no safe integer is `none`. An instant is what Date.parse makes of a text, so the text
-- itself is left out; times beyond the range of Date are kept out as the source keeps them out.
-- Quotients that the selector compares are exact. JavaScript's objects are records of the fields
-- that the source names: checks for missing, additional or wrongly typed fields are left out where
-- a field's type says the same. localeCompare is a parameter.
--
-- Not modelled: the handlers and the composition root (app/functions), the rest of the control API
-- with its projectors (app/control-api), the screens (app/admin-ui), the queries of the providers,
-- the telemetry and the gateway (app/providers, app/telemetry, app/gateway), the fixtures
-- (app/local-adapters), the API policies (apim), the infrastructure (infra) and the tools. They are
-- input and output around the domain, text for screens, or calls of services that the repository
-- does not hold. Of the domain itself, the validators of the other stored documents, the edits of
-- authorizations, the projection of usage, the directory, identity and routing are not modelled.

pub mod Prelude
pub mod Lifecycle
pub mod Scheduling
pub mod Authorization
pub mod Fallback
pub mod Selection
pub mod Notification
pub mod Store
pub mod Decision
pub mod Ledger
pub mod Budget
pub mod Usage
pub mod Policy
