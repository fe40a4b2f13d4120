-- ===== src/Selection/Moves.antt =====
-- When a request is moved to another model, and to which.
use mathlib.Core.Path.{subst}
use mathlib.Core.List.{Memᴰ}
use azure_llm_governance_api.Prelude.{
  ℕ, zero, suc, ◌+◌, ◌≤◌, ◌<◌, String, Bool, true, false, not, ◌&&◌, ◌||◌, Option, none, some, List,
  [], ◌∷◌, ltb, str_eq, find, or_default, done, if_cases, some_injective, ◌≡◌, ◌≢◌, refl, sym, ◌∙◌,
  ◌⊎◌, ◌↔◌, inl, inr, arith, Bool-cases, Option-cases, eq_iff,
}
use azure_llm_governance_api.Prelude.Sets.{contains}
use azure_llm_governance_api.Fallback.{Edge}
use azure_llm_governance_api.Selection.Over.{
  IsOver, breached_of, pressed_of, IsOver-iff, unarmed-IsOver,
}
use azure_llm_governance_api.Selection.{
  Remaining, Chain, Policy, selected, denied, Selection, served, Walked, walk_chain, after_walk,
  select_enabled, select_measured, select_effective_model, has_any,
}

-- Hops of a chain from one model to another, each to a model that is allowed.
pub data Walks (chain : List Edge) (allowed : List String) : String → ℕ → String → Type 0 where
  here : {m : String} → Walks chain allowed m 0 m
  hop :
      {m : String} {n : ℕ} {last : String} (e : Edge)
      → Memᴰ e chain
      → e.from ≡ m
      → contains e.to allowed ≡ true
      → Walks chain allowed e.to n last
      → Walks chain allowed m (suc n) last

find-Memᴰ :
    (p : Edge → Bool) (es : List Edge) {e : Edge} → find p es ≡ some e → Memᴰ e es × (p e ≡ true)
find-Memᴰ p [] h = cc
find-Memᴰ p (f ∷ es) h = elim (if_cases (p f) _ _ h) [
  | inl (t, e) ↦ let same : f ≡ _ = some_injective _ _ e in (Memᴰ.head (sym same), rw (← same) t)
  | inr (_, e) ↦ let (m, q) = find-Memᴰ p es e in (Memᴰ.tail m, q)
]

-- No hop may be taken: there is none to take, or the one of the model leads to one that is not allowed.
abbrev pub NoHop : List Edge → List String → String → ℕ → Type 0
NoHop chain allowed start depth =
    (depth ≡ 0)
    ⊎ ((e : Edge) → find (λ f. str_eq f.from start) chain ≡ some e → contains e.to allowed ≡ false)

module _ (chain : List Edge) (allowed : List String) where
  -- What a walk adds to the hops that it starts with.
  record Walks-on (start : String) (depth hops : ℕ) (w : Walked) : Type 0 where
    taken : ℕ
    counted : w.hops ≡ taken + hops
    bounded : taken ≤ depth
    path : Walks chain allowed start taken w.current
    stuck : taken ≡ 0 → NoHop chain allowed start depth

  stay :
      (start : String) (depth hops : ℕ)
      → NoHop chain allowed start depth
      → Walks-on start depth hops (record { current = start; hops = hops })
  stay start depth hops none_open = record {
    stuck = λ _. none_open;
    taken = 0;
    counted = omega arith;
    bounded = omega arith;
    path = here;
  }

  walk_chain_lem :
      (depth : ℕ) (start : String) (hops : ℕ)
      → Walks-on start depth hops (walk_chain depth chain allowed start hops)
  unfolding walk_chain
  walk_chain_lem zero start hops = stay start 0 hops (inl refl)
  walk_chain_lem (suc depth) start hops =
      elim (Option-cases (find (λ e. str_eq e.from start) chain)) [
        | inl none_there ↦
            rw (walk_chain, none_there)
              (stay start (suc depth) hops (inr (λ f h. absurd (cc (none_there, h)))))
        | inr (e, found) ↦ elim (Bool-cases (contains e.to allowed)) [
          | inr shut ↦
              rw (walk_chain, found, shut)
                (stay start (suc depth) hops (
                  inr (λ f h.
                    let same : e ≡ f = some_injective _ _ (sym found ∙ h) in rw (← same) shut)))
          | inl may ↦
              let rest = walk_chain_lem depth e.to (suc hops) in
              let (m, same) = find-Memᴰ (λ f. str_eq f.from start) chain found in
              rw (walk_chain, found, may)
                (record {
                  stuck = λ h. absurd (omega (arith, h));
                  taken = suc rest.taken;
                  counted = omega (arith, rest.counted);
                  bounded = omega (arith, rest.bounded);
                  path = hop e m ((eq_iff e.from start).0 same) may rest.path;
                })
        ]
      ]

-- The chain that a policy lets the selector use.
pub record Usable (p : Policy) (c : Chain) : Type 0 where
  pub attached : p.fallback ≡ some c
  pub is_enabled : c.enabled ≡ true
  pub opted_in : or_default p.model_selection_intent "pinned" ≡ "preferred"

-- The three ways in which a request is answered.
pub data Outcome (requested : String) (p : Policy) (remaining : List Remaining)
    (on_exhausted : String) (s : Selection) : Type 0 where
  kept :
      s.decision ≡ selected
      → s.effective_model ≡ some requested
      → s.hops ≡ 0
      → ((c : Chain)
          → Usable p c
          → IsOver p remaining requested
          → (on_exhausted ≢ "deny")
            × NoHop c.chain p.allowed_models requested (or_default c.max_depth 1))
      → Outcome requested p remaining on_exhausted s
  moved :
      (c : Chain) (last : String)
      → s.decision ≡ selected
      → s.effective_model ≡ some last
      → Usable p c
      → IsOver p remaining requested
      → 0 < s.hops
      → s.hops ≤ or_default c.max_depth 1
      → Walks c.chain p.allowed_models requested s.hops last
      → Outcome requested p remaining on_exhausted s
  turned_away :
      (c : Chain)
      → s.decision ≡ denied
      → s.effective_model ≡ none
      → Usable p c
      → IsOver p remaining requested
      → on_exhausted ≡ "deny"
      → NoHop c.chain p.allowed_models requested (or_default c.max_depth 1)
      → Outcome requested p remaining on_exhausted s

module _ (requested : String) (p : Policy) (remaining : List Remaining)
    (on_exhausted : String) where
  abbrev Answers : Selection → Type 0
  Answers = Outcome requested p remaining on_exhausted

  -- What excuses an answer that keeps the model.
  abbrev Excused : Type 0
  Excused =
      (c : Chain)
      → Usable p c
      → IsOver p remaining requested
      → (on_exhausted ≢ "deny")
        × NoHop c.chain p.allowed_models requested (or_default c.max_depth 1)

  served-Outcome :
      (reason : String) (breached : List String) (pressed : Bool)
      → Excused
      → Answers (served requested reason breached pressed)
  unfolding served
  served-Outcome reason breached pressed x = kept refl refl refl x

  after_walk-Outcome :
      (c : Chain) (breached : List String) (pressed : Bool) (last : String) (hops : ℕ)
      → Usable p c
      → IsOver p remaining requested
      → hops ≤ or_default c.max_depth 1
      → Walks c.chain p.allowed_models requested hops last
      → (hops ≡ 0 → NoHop c.chain p.allowed_models requested (or_default c.max_depth 1))
      → Answers (after_walk requested on_exhausted breached pressed last hops)
  unfolding after_walk
  after_walk-Outcome c breached pressed last zero u over few path stuck =
      elim (Bool-cases (str_eq on_exhausted "deny")) [
        | inl e ↦
            rw e (turned_away c refl refl u over ((eq_iff on_exhausted "deny").0 e) (stuck refl))
        | inr e ↦ rw e (
            served-Outcome "fallback-exhausted-served-as-requested" breached pressed (λ d v _. (
              λ same. cc ((eq_iff on_exhausted "deny").1 same, e),
              subst
                  (λ (x : Chain).
                    NoHop x.chain p.allowed_models requested (or_default x.max_depth 1))
                  (some_injective _ _ (sym u.attached ∙ v.attached)) (stuck refl),
            )))
      ]
  after_walk-Outcome c breached pressed last (suc n) u over few path stuck =
      moved c last refl refl u over (omega arith) few path

  walked-Outcome :
      (c : Chain) (breached : List String) (pressed : Bool) (w : Walked)
      → Usable p c
      → IsOver p remaining requested
      → Walks-on c.chain p.allowed_models requested (or_default c.max_depth 1) 0 w
      → Answers (after_walk requested on_exhausted breached pressed w.current w.hops)
  walked-Outcome c breached pressed w u over on =
      let same : on.taken ≡ w.hops = omega (arith, on.counted) in
      after_walk-Outcome c breached pressed w.current w.hops u over
        (omega (arith, on.bounded, same))
        (subst (λ k. Walks c.chain p.allowed_models requested k w.current) same on.path)
        (λ h. on.stuck (omega (arith, h, same)))

  module _ (threshold : ℕ) (breached : List String) (pressed : Bool)
      (armed : ltb 0 threshold ≡ true
        → ((has_any breached || pressed) ≡ true) ↔ IsOver p remaining requested)
      (unarmed : ltb 0 threshold ≡ false → ¬ IsOver p remaining requested) where
    select_enabled-Outcome :
        (c : Chain)
        → p.fallback ≡ some c
        → c.enabled ≡ true
        → Answers (select_enabled requested p on_exhausted threshold breached pressed c)
    unfolding select_enabled
    select_enabled-Outcome c at on =
        elim (Bool-cases (str_eq (or_default p.model_selection_intent "pinned") "preferred")) [
          | inr pinned ↦ rw pinned (
              served-Outcome "model-pinned" breached pressed (λ d u _. absurd (
                cc (
                  (eq_iff (or_default p.model_selection_intent "pinned") "preferred").1 u.opted_in,
                  pinned,
                ))))
          | inl preferred ↦ elim (Bool-cases (ltb 0 threshold)) [
            | inr blind ↦
                rw (preferred, blind)
                  (served-Outcome "fallback-no-threshold" [] false
                    (λ d u over. absurd (unarmed blind over)))
            | inl seen ↦ elim (Bool-cases (not (has_any breached) && not pressed)) [
              | inl within ↦
                  rw (preferred, seen, within)
                    (served-Outcome "within-budget" [] false (λ d u over.
                      let hit = (armed seen).1 over in absurd (ground (arith, hit, within))))
              | inr over ↦
                  rw (preferred, seen, over)
                    (walked-Outcome c breached pressed _
                      (record {
                        attached = at;
                        is_enabled = on;
                        opted_in =
                            (eq_iff (or_default p.model_selection_intent "pinned") "preferred").0
                              preferred;
                      })
                      ((armed seen).0 (ground (arith, over)))
                      (walk_chain_lem c.chain p.allowed_models (or_default c.max_depth 1) requested
                        0))
            ]
          ]
        ]

    select_measured-Outcome :
        (o : Option Chain)
        → p.fallback ≡ o
        → Answers (select_measured requested p on_exhausted threshold breached pressed o)
    unfolding select_measured
    select_measured-Outcome none at =
        served-Outcome "fallback-disabled" breached pressed (λ d u _. absurd (cc (at, u.attached)))
    select_measured-Outcome (some c) at = elim (Bool-cases c.enabled) [
      | inl on ↦ rw on (select_enabled-Outcome c at on)
      | inr off ↦ rw off (
          served-Outcome "fallback-disabled" breached pressed (λ d u _.
            let same : c ≡ d = some_injective _ _ (sym at ∙ u.attached) in
            let enabled : c.enabled ≡ true = rw same u.is_enabled in absurd (cc (enabled, off))))
    ]

  pub select-Outcome :
      requested ≢ ""
      → contains on_exhausted ("deny" ∷ "continue-with-requested" ∷ []) ≡ true
      → (s : Selection) × (select_effective_model requested p remaining on_exhausted ≡ done s)
        × Outcome requested p remaining on_exhausted s
  unfolding select_effective_model
  select-Outcome named known =
      let threshold = or_default p.warn_threshold_percent 0 in
      let breached = breached_of p remaining in
      let pressed = pressed_of p requested in
      (
        select_measured requested p on_exhausted threshold breached pressed p.fallback,
        ground (arith, named, known, eq_iff requested ""),
        select_measured-Outcome threshold breached pressed (IsOver-iff p remaining requested)
            (unarmed-IsOver p remaining requested) p.fallback refl,
      )
