-- ===== src/Fallback/Colouring.antt =====
-- What a walk of the colouring keeps, from the first model of a round to where it stops.
use azure_llm_governance_api.Prelude.{
  ℕ, zero, suc, ◌≤◌, ◌<◌, String, Bool, true, false, Option, none, some, List, [], ◌∷◌, ◌++◌,
  str_eq, count, ◌≡◌, refl, sym, ap, ◌∙◌, ◌≢◌, ◌⊎◌, inl, inr, arith, Bool-cases, Option-cases,
  eq_iff, eq_refl,
}
use azure_llm_governance_api.Prelude.Sets.{contains, contains-append}
use azure_llm_governance_api.Fallback.Cycles.{
  Successors, lookup, keys, Colour, white, grey, black, Colours, paint, is_white, Walked,
  next_white, walk,
}

module _ (s : Successors) where
  -- One or more steps from a model to another.
  pub data Leads : String → String → Type 0 where
    one : {a b : String} → lookup a s ≡ some b → Leads a b
    more : {a b c : String} → lookup a s ≡ some b → Leads b c → Leads a c

  -- The chain of successors from a model ends.
  pub data Ends : String → Type 0 where
    stop : {a : String} → lookup a s ≡ none → Ends a
    follow : {a b : String} → lookup a s ≡ some b → Ends b → Ends a

  pub Leads-snoc : {a b c : String} → Leads a b → lookup b s ≡ some c → Leads a c
  Leads-snoc (one e) h = more e (one h)
  Leads-snoc (more e r) h = more e (Leads-snoc r h)

  pub rotate : {a b : String} → Leads a a → lookup a s ≡ some b → Leads b b
  rotate {a} {b} (one e) h = let same : a ≡ b = cc in rw (← same) (one e)
  rotate {a} {b} (more {b = c} e r) h = let same : c ≡ b = cc in rw (← same) (Leads-snoc r e)

  pub Ends-acyclic : {a : String} → Ends a → ¬ Leads a a
  Ends-acyclic (stop e) (one h) = cc
  Ends-acyclic (stop e) (more h r) = cc
  Ends-acyclic (follow e d) r = Ends-acyclic d (rotate r e)

  abbrev pub after_step : String → Walked → Walked
  after_step k w = record {
    colours = paint k grey w.colours;
    stack = w.stack ++ k ∷ [];
    current = lookup k s;
  }

  abbrev pub Settled : Option String → Type 0
  Settled none = Unit
  Settled (some k) = Ends k

  abbrev pub Towards : String → Option String → Type 0
  Towards k none = Unit
  Towards k (some j) = Leads k j

  abbrev pub whites : Colours → ℕ
  whites colours = count (λ k. is_white (colours k)) (keys s)

  -- Between two rounds: what is black has a chain that ends, what has no colour is no key, what is
  -- white is a key that is still to come, and nothing is grey.
  pub record Round (pending : List String) (c : Colours) : Type 0 where
    pub black_ends : (k : String) → c k ≡ some black → Ends k
    pub none_stops : (k : String) → c k ≡ none → lookup k s ≡ none
    pub white_key : (k : String) → c k ≡ some white → contains k (keys s) ≡ true
    pub white_pending : (k : String) → c k ≡ some white → contains k pending ≡ true
    pub no_grey : (k : String) → c k ≢ some grey

  -- Inside a round: what is grey is on the stack, and all of the stack leads to the current model.
  pub record Sound (pending : List String) (w : Walked) : Type 0 where
    pub black_ends : (k : String) → w.colours k ≡ some black → Ends k
    pub none_stops : (k : String) → w.colours k ≡ none → lookup k s ≡ none
    pub white_key : (k : String) → w.colours k ≡ some white → contains k (keys s) ≡ true
    pub white_pending : (k : String) → w.colours k ≡ some white → contains k pending ≡ true
    pub grey_stacked : (k : String) → w.colours k ≡ some grey → contains k w.stack ≡ true
    pub stack_ends : (k : String) → contains k w.stack ≡ true → Settled w.current → Ends k
    pub stack_leads : (k : String) → contains k w.stack ≡ true → Towards k w.current

  pub paint_same : (k : String) (x : Colour) (c : Colours) → paint k x c k ≡ some x
  paint_same k x c = rw (eq_refl k) refl

  -- What a painted colour says: it is the new one at the key, and the old one elsewhere.
  pub paint_cases :
      (k : String) (x : Colour) (c : Colours) (j : String)
      → ((k ≡ j) × (paint k x c j ≡ some x)) ⊎ ((str_eq k j ≡ false) × (paint k x c j ≡ c j))
  paint_cases k x c j = elim (Bool-cases (str_eq k j)) [
    | inl e ↦ inl ((eq_iff k j).0 e, rw e refl)
    | inr e ↦ inr (e, rw e refl)
  ]

  -- A list of keys that a test with fewer answers counts shorter.
  pub count_mono :
      (p q : String → Bool)
      → ((k : String) → q k ≡ true → p k ≡ true)
      → (ks : List String) → count q ks ≤ count p ks
  count_mono p q h [] = omega arith
  count_mono p q h (k ∷ ks) = ground (arith, h k, count_mono p q h ks)

  pub count-drop :
      (p q : String → Bool)
      → ((k : String) → q k ≡ true → p k ≡ true)
      → (c : String) (ks : List String) → contains c ks ≡ true
      → p c ≡ true
      → q c ≡ false
      → count q ks < count p ks
  count-drop p q h c [] m pc qc = cc
  count-drop p q h c (k ∷ ks) m pc qc = elim (Bool-cases (str_eq k c)) [
    | inl e ↦ rw ((eq_iff k c).0 e) (rw pc (rw qc (omega (arith, count_mono p q h ks))))
    | inr e ↦ ground (arith, h k, count-drop p q h c ks (rw e at m) pc qc)
  ]

  -- A colour other than grey, after painting something grey, is the old one.
  pub unpainted :
      (k : String) (c : Colours) (j : String) (o : Option Colour)
      → o ≢ some grey
      → paint k grey c j ≡ o
      → c j ≡ o
  unpainted k c j o n h = elim (paint_cases k grey c j) [
    | inl (_, e) ↦ absurd (n (sym h ∙ e))
    | inr (_, e) ↦ sym e ∙ h
  ]

  pub whites-paint :
      (k : String) (c : Colours)
      → contains k (keys s) ≡ true
      → c k ≡ some white
      → whites (paint k grey c) < whites c
  whites-paint k c m w =
      count-drop (λ j. is_white (c j)) (λ j. is_white (paint k grey c j))
        (λ j h. elim (paint_cases k grey c j) [
          | inl (_, e) ↦ absurd (let f : false ≡ true = ap is_white (sym e) ∙ h in cc)
          | inr (_, e) ↦ ap is_white (sym e) ∙ h
        ])
        k (keys s) m (ap is_white w) (ap is_white (paint_same k grey c))

  pub stack_cases :
      (k j : String) (st : List String)
      → contains j (st ++ k ∷ []) ≡ true
      → (contains j st ≡ true) ⊎ (k ≡ j)
  stack_cases k j st m = elim (Bool-cases (contains j st)) [
    | inl e ↦ inl e
    | inr e ↦ inr ((eq_iff k j).0 (ground (arith, contains-append j st (k ∷ []))))
  ]

  pub Ends-next : (k : String) → Settled (lookup k s) → Ends k
  Ends-next k h = elim (Option-cases (lookup k s)) [
    | inl e ↦ stop e
    | inr (j, e) ↦ follow e (rw e at h)
  ]

  pub Towards-next : (j k : String) → Leads j k → Towards j (lookup k s)
  Towards-next j k r = elim (Option-cases (lookup k s)) [
    | inl e ↦ rw e tt
    | inr (i, e) ↦ rw e (Leads-snoc r e)
  ]

  pub Towards-self : (k : String) → Towards k (lookup k s)
  Towards-self k = elim (Option-cases (lookup k s)) [ inl e ↦ rw e tt | inr (i, e) ↦ rw e (one e) ]

  pub step-Sound :
      (pending later : List String) (w : Walked) (k : String)
      → Sound pending w
      → w.current ≡ some k
      → ((j : String) → paint k grey w.colours j ≡ some white → contains j later ≡ true)
      → Sound later (after_step k w)
  step-Sound pending later w k i cur hp = record {
    black_ends = λ j h. i.black_ends j (unpainted k w.colours j (some black) (cc) h);
    none_stops = λ j h. i.none_stops j (unpainted k w.colours j none (cc) h);
    white_key = λ j h. i.white_key j (unpainted k w.colours j (some white) (cc) h);
    white_pending = hp;
    grey_stacked = λ j h. elim (paint_cases k grey w.colours j) [
      | inl (e, _) ↦ ground (arith, contains-append j w.stack (k ∷ []), eq_iff k j)
      | inr (_, e) ↦
          ground (arith, contains-append j w.stack (k ∷ []), i.grey_stacked j (sym e ∙ h))
    ];
    stack_ends = λ j m n. elim (stack_cases k j w.stack m) [
      | inl before ↦ i.stack_ends j before (rw cur (Ends-next k n))
      | inr same ↦ rw (← same) (Ends-next k n)
    ];
    stack_leads = λ j m. elim (stack_cases k j w.stack m) [
      | inl before ↦ Towards-next j k (let t = i.stack_leads j before in rw cur at t)
      | inr same ↦ rw (← same) (Towards-self k)
    ];
  }

  -- A colour that the test `is_white` takes.
  pub white_of : (o : Option Colour) → is_white o ≡ true → o ≡ some white
  white_of none h = cc
  white_of (some white) h = refl
  white_of (some grey) h = cc
  white_of (some black) h = cc

  pub next-some :
      (w : Walked) (k : String)
      → next_white w ≡ some k
      → (w.current ≡ some k) × (w.colours k ≡ some white)
  unfolding next_white
  next-some w k h = elim (Option-cases w.current) [
    | inl e ↦ ground (arith, e, h)
    | inr (j, e) ↦ elim (Bool-cases (is_white (w.colours j))) [
      | inl f ↦
          let same : j ≡ k = ground (arith, e, f, h) in
          (e ∙ ap some same, rw (← same) (white_of (w.colours j) f))
      | inr f ↦ ground (arith, e, f, h)
    ]
  ]

  -- A walk with enough fuel stops at a model that is not white.
  unfoldable pub Stopped : Walked → Type 0
  Stopped w = (k : String) → w.current ≡ some k → w.colours k ≢ some white

  pub next-none : (w : Walked) → next_white w ≡ none → Stopped w
  unfolding next_white Stopped
  next-none w h k cur white_k = ground (arith, h, cur, white_k)

  pub walk-Sound :
      (fuel : ℕ) (pending : List String) (w : Walked)
      → Sound pending w
      → whites w.colours ≤ fuel
      → Sound pending (walk fuel s w) × Stopped (walk fuel s w)
  unfolding walk Stopped
  walk-Sound zero pending w i enough = (
    i,
    λ k cur white_k.
        let n = whites-paint k w.colours (i.white_key k white_k) white_k in
        omega (arith, n, enough),
  )
  walk-Sound (suc fuel) pending w i enough = elim (Option-cases (next_white w)) [
    | inl e ↦ rw (walk, e) (i, next-none w e)
    | inr (k, e) ↦
        let (cur, white_k) = next-some w k e in
        rw (walk, e)
          (walk-Sound fuel pending (after_step k w)
            (step-Sound pending pending w k i cur
              (λ j h. i.white_pending j (unpainted k w.colours j (some white) (cc) h)))
            (omega (arith, whites-paint k w.colours (i.white_key k white_k) white_k, enough)))
  ]
