-- ===== src/Fallback/Commits.antt =====
-- Sequences of accepted additions and edits of fallback plans.
use azure_llm_governance_api.Prelude.{
  ℕ, zero, suc, ◌+◌, String, ◌≡◌, sym, ap, ◌∙◌, ◌⊎◌, inl, inr, none, List, [], ◌∷◌, ◌++◌, done,
  arith,
}
use mathlib.Core.List.{Memᴰ}
use mathlib.Core.List.Memᴰ
use azure_llm_governance_api.Prelude.Time.{Instant}
use azure_llm_governance_api.Prelude.Lists.{Memᴰ-sort_by}
use azure_llm_governance_api.Fallback.{Plan}
use azure_llm_governance_api.Fallback.Compile.{Comparison}
use azure_llm_governance_api.Fallback.Snapshot.{FallbackPolicy, assert_fallback_policy_snapshot_v1}
use azure_llm_governance_api.Budget.Snapshot.{precedes}
use azure_llm_governance_api.Fallback.Authored.{PlanChanges, Draft, Authoring, created, edited}
use azure_llm_governance_api.Fallback.Edit.{next_policy, add_fallback_plan, edit_fallback_plan}
use azure_llm_governance_api.Fallback.Edits.{Committed, Committed-add, Committed-edit}
use azure_llm_governance_api.Fallback.Governed.{
  IsGoverned, one_each-entered, one_each-swapped, swapped-cases,
}

from_one : {a b : Plan} → Memᴰ a (b ∷ []) → a ≡ b
from_one m = elim (Memᴰ.cases_cons m) [ inl e ↦ e | inr n ↦ absurd (Memᴰ.not-nil n) ]

plans-Committed :
    (compare : String → String → Comparison) (s : FallbackPolicy) (at : Instant) (retention : ℕ)
    (plans : List Plan) {t : FallbackPolicy}
    → Committed compare s at retention plans t
    → t.plans ≡ plans
unfolding next_policy
plans-Committed compare s at retention plans c = ap (λ (x : FallbackPolicy). x.plans) (sym c.next)

module _ (compare : String → String → Comparison) where
  pub data PlanSteps : ℕ → FallbackPolicy → FallbackPolicy → Type 0 where
    stay : {s : FallbackPolicy} → PlanSteps zero s s
    add :
        {n : ℕ} {s t u : FallbackPolicy} (d : Draft) (a : Authoring) (at : Instant) (retention : ℕ)
        → PlanSteps n s t
        → add_fallback_plan compare t d a at retention ≡ done u
        → PlanSteps (suc n) s u
    change :
        {n : ℕ} {s t u : FallbackPolicy} (id : String) (c : PlanChanges) (at : Instant)
        (retention : ℕ)
        → PlanSteps n s t
        → edit_fallback_plan compare t id c at retention ≡ done u
        → PlanSteps (suc n) s u

  pub record IsReached (n : ℕ) (s t : FallbackPolicy) : Type 0 where
    pub governed : IsGoverned t
    pub version : t.version ≡ s.version + n
    pub valid : assert_fallback_policy_snapshot_v1 compare t t.captured_at none ≡ done t

  IsGoverned-add :
      (s : FallbackPolicy) (d : Draft) (a : Authoring) (at : Instant) (retention : ℕ)
      {t : FallbackPolicy}
      → IsGoverned s
      → add_fallback_plan compare s d a at retention ≡ done t
      → IsGoverned t
  unfolding created
  IsGoverned-add s d a at retention {t} g h =
      let (c, free, plain) = Committed-add compare s at retention d a h in
      let new : Plan = created compare d a at in
      let same = plans-Committed compare s at retention _ c in
      let cases : (p : Plan) → Memᴰ p t.plans → Memᴰ p s.plans ⊎ (p ≡ new) = λ p m.
        elim (Memᴰ.append_cases s.plans (
          (Memᴰ-sort_by (λ x y. precedes compare x.plan_id y.plan_id) p (s.plans ++ new ∷ [])).0
            (rw same at m))) [ inl k ↦ inl k | inr k ↦ inr (from_one k) ] in
      record {
        one_each = λ p q m n e. one_each-entered s g new p q free (cases p m) (cases q n) e;
        honest = λ p m. elim (cases p m) [ inl k ↦ g.honest p k | inr e ↦ rw e plain ];
      }

  IsGoverned-change :
      (s : FallbackPolicy) (id : String) (c : PlanChanges) (at : Instant) (retention : ℕ)
      {t : FallbackPolicy}
      → IsGoverned s
      → edit_fallback_plan compare s id c at retention ≡ done t
      → IsGoverned t
  IsGoverned-change s id c at retention {t} g h =
      let (target, found, made, plain) = Committed-edit compare s at retention id c h in
      let new : Plan = edited compare target c in
      let same = plans-Committed compare s at retention _ made in
      record {
        one_each = λ p q m n e.
            one_each-swapped s g compare id c target p q found
              (swapped-cases id new p s.plans (rw same at m))
              (swapped-cases id new q s.plans (rw same at n)) e;
        honest = λ p m. elim (swapped-cases id new p s.plans (rw same at m)) [
          | inl (k, _) ↦ g.honest p k
          | inr e ↦ rw e plain
        ];
      }

  IsReached-Committed :
      (n : ℕ) (s t : FallbackPolicy) (at : Instant) (retention : ℕ) (plans : List Plan)
      {u : FallbackPolicy}
      → t.version ≡ s.version + n
      → IsGoverned u
      → Committed compare t at retention plans u
      → IsReached (suc n) s u
  unfolding next_policy
  IsReached-Committed n s t at retention plans {u} before g c =
      let counted : suc t.version ≡ s.version + suc n = omega (arith, before) in
      record {
        governed = g;
        version = ap (λ (x : FallbackPolicy). x.version) (sym c.next) ∙ counted;
        valid =
            ap (λ time. assert_fallback_policy_snapshot_v1 compare u time none)
              (ap (λ (x : FallbackPolicy). x.captured_at) (sym c.next))
            ∙ c.valid;
      }

  -- Any number of accepted additions and edits keeps a set of fallback plans in order: the snapshot
  -- passes its validator at the time of its capture, its version has grown by one for each step, no two
  -- of its plans have one target, and no plan has an inline notice without a preferred model, provided
  -- that all this held of the first snapshot.
  pub PlanSteps-IsReached :
      (n : ℕ) (s t : FallbackPolicy)
      → IsGoverned s
      → assert_fallback_policy_snapshot_v1 compare s s.captured_at none ≡ done s
      → PlanSteps n s t
      → IsReached n s t
  PlanSteps-IsReached zero s _ g ok stay = record {
    governed = g;
    version = omega arith;
    valid = ok;
  }
  PlanSteps-IsReached (suc n) s t g ok (add {t = between} d a at retention before h) =
      let r = PlanSteps-IsReached n s between g ok before in
      IsReached-Committed n s between at retention _ r.version
        (IsGoverned-add between d a at retention r.governed h)
        (Committed-add compare between at retention d a h).0
  PlanSteps-IsReached (suc n) s t g ok (change {t = between} id c at retention before h) =
      let r = PlanSteps-IsReached n s between g ok before in
      let (_, _, made, _) = Committed-edit compare between at retention id c h in
      IsReached-Committed n s between at retention _ r.version
        (IsGoverned-change between id c at retention r.governed h) made
