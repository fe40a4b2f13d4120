-- ===== src/Fallback/Acyclic.antt =====
-- That the colouring accepts exactly the authored graphs without a cycle.
use azure_llm_governance_api.Prelude.{
  ℕ, suc, ◌≤◌, String, Bool, true, false, Option, none, some, List, [], ◌∷◌, str_eq, if◌then◌else◌,
  length, count, Reply, done, refused, thrown, ◌>>=◌, ◌≡◌, refl, ap, ◌∙◌, ◌≢◌, ◌↔◌, inl, inr, arith,
  Bool-cases, Option-cases, eq_iff,
}
use azure_llm_governance_api.Prelude.Sets.{contains}
use azure_llm_governance_api.Fallback.Cycles.{
  Successors, lookup, keys, Colour, white, grey, black, Colours, paint, paint_all, is_white, Walked,
  next_white, walk, is_grey, back_edge, close_walk, visit, visit_all, all_white, assert_acyclic,
}
use azure_llm_governance_api.Fallback.Colouring.{
  Sound, Settled, Round, Leads, Ends, Stopped, after_step, step-Sound, unpainted, whites, white_of,
  walk-Sound, Ends-acyclic, stop,
}

module _ (s : Successors) where
  paint_all_lem :
      (st : List String) (x : Colour) (c : Colours) (k : String)
      → paint_all st x c k ≡ (if contains k st then some x else c k)
  paint_all_lem [] x c k = refl
  paint_all_lem (j ∷ st) x c k = elim (Bool-cases (str_eq j k)) [
    | inl e ↦ ground (arith, paint_all_lem st x (paint j x c) k, e)
    | inr e ↦ ground (arith, paint_all_lem st x (paint j x c) k, e)
  ]

  settle :
      (pending : List String) (w : Walked)
      → Sound s pending w
      → Settled s w.current
      → Round s pending (paint_all w.stack black w.colours)
  settle pending w i ok = record {
    black_ends = λ k h. elim (Bool-cases (contains k w.stack)) [
      | inl e ↦ i.stack_ends k e ok
      | inr e ↦ i.black_ends k (ground (arith, paint_all_lem w.stack black w.colours k, e, h))
    ];
    none_stops = λ k h. i.none_stops k (ground (arith, paint_all_lem w.stack black w.colours k, h));
    white_key = λ k h. i.white_key k (ground (arith, paint_all_lem w.stack black w.colours k, h));
    white_pending =
        λ k h. i.white_pending k (ground (arith, paint_all_lem w.stack black w.colours k, h));
    no_grey = λ k h. elim (Bool-cases (contains k w.stack)) [
      | inl e ↦ ground (arith, paint_all_lem w.stack black w.colours k, e, h)
      | inr e ↦ ground (
        arith,
        paint_all_lem w.stack black w.colours k,
        e,
        h,
        i.grey_stacked k (ground (arith, paint_all_lem w.stack black w.colours k, e, h)),
      )
    ];
  }

  -- What a round, or all of them, ends with: colours between two rounds, or a cycle.
  Closed : List String → Reply ⊥ Colours → Type 0
  Closed pending (done c) = Round s pending c
  Closed pending (refused r) = ⊥
  Closed pending (thrown e) = (k : String) × Leads s k k

  grey_of : (o : Option Colour) → is_grey o ≡ true → o ≡ some grey
  grey_of none h = cc
  grey_of (some white) h = cc
  grey_of (some grey) h = refl
  grey_of (some black) h = cc

  back-some :
      (w : Walked) (k : String)
      → back_edge w ≡ some k
      → (w.current ≡ some k) × (w.colours k ≡ some grey)
  unfolding back_edge
  back-some w k h = elim (Option-cases w.current) [
    | inl e ↦ ground (arith, e, h)
    | inr (j, e) ↦ elim (Bool-cases (is_grey (w.colours j))) [
      | inl f ↦
          let same : j ≡ k = ground (arith, e, f, h) in
          (e ∙ ap some same, rw (← same) (grey_of (w.colours j) f))
      | inr f ↦ ground (arith, e, f, h)
    ]
  ]

  Ends-at :
      (pending : List String) (w : Walked)
      → Sound s pending w
      → (k : String) (o : Option Colour) → w.colours k ≡ o
      → o ≢ some white
      → o ≢ some grey
      → Ends s k
  Ends-at pending w i k none h n m = stop (i.none_stops k h)
  Ends-at pending w i k (some white) h n m = absurd (n refl)
  Ends-at pending w i k (some grey) h n m = absurd (m refl)
  Ends-at pending w i k (some black) h n m = i.black_ends k h

  back-none :
      (pending : List String) (w : Walked)
      → Sound s pending w
      → Stopped s w
      → back_edge w ≡ none
      → Settled s w.current
  unfolding back_edge Stopped
  back-none pending w i halted h = elim (Option-cases w.current) [
    | inl e ↦ rw e tt
    | inr (k, e) ↦
        rw e (Ends-at pending w i k (w.colours k) refl (halted k e) (λ g. ground (arith, e, g, h)))
  ]

  close_walk_lem :
      (path : String) (pending : List String) (w : Walked)
      → Sound s pending w
      → Stopped s w
      → Closed pending (close_walk path w)
  unfolding close_walk Closed
  close_walk_lem path pending w i halted = elim (Option-cases (back_edge w)) [
    | inl e ↦ rw (close_walk, e) (settle pending w i (back-none pending w i halted e))
    | inr (k, e) ↦
        let (cur, g) = back-some w k e in
        rw (close_walk, e) (k, let t = i.stack_leads k (i.grey_stacked k g) in rw cur at t)
  ]

  -- The first step of a walk takes its start off the keys that are still to come.
  start_walk :
      (c : Colours) (start : String) (pending : List String)
      → Round s (start ∷ pending) c
      → c start ≡ some white
      → Sound s pending
          (after_step s start (record { colours = c; stack = []; current = some start }))
  start_walk c start pending r h =
      step-Sound s (start ∷ pending) pending
        (record { colours = c; stack = []; current = some start }) start
        (record {
          black_ends = r.black_ends;
          none_stops = r.none_stops;
          white_key = r.white_key;
          white_pending = r.white_pending;
          grey_stacked = λ k g. absurd (r.no_grey k g);
          stack_ends = λ k m. cc;
          stack_leads = λ k m. cc;
        })
        refl
        (λ j w. ground (arith, r.white_pending j (unpainted s start c j (some white) (cc) w), w))

  count_keys : (p : String → Bool) (t : Successors) → count p (keys t) ≤ length t
  count_keys p [] = omega arith
  count_keys p ((from, to) ∷ t) = ground (arith, count_keys p t)

  whites_bound : (c : Colours) → whites s c ≤ length s
  whites_bound c = count_keys (λ k. is_white (c k)) s

  first_step :
      (c : Colours) (start : String) (fuel : ℕ)
      → c start ≡ some white
      → (let w : Walked = record { colours = c; stack = []; current = some start } in
          walk (suc fuel) s w ≡ walk fuel s (after_step s start w))
  unfolding walk next_white
  first_step c start fuel h = rw (walk, next_white, h) refl

  visit_lem :
      (path : String) (c : Colours) (start : String) (pending : List String)
      → Round s (start ∷ pending) c
      → Closed pending (visit path s c start)
  unfolding visit Closed
  visit_lem path c start pending r = elim (Bool-cases (is_white (c start))) [
    | inl e ↦
        let h = white_of s (c start) e in
        let first = start_walk c start pending r h in
        let (sound, halted) = walk-Sound s (length s) pending _ first (whites_bound _) in
        rw (e, first_step c start (length s) h) (close_walk_lem path pending _ sound halted)
    | inr e ↦ rw e (record {
      black_ends = r.black_ends;
      none_stops = r.none_stops;
      white_key = r.white_key;
      white_pending = λ k h. ground (arith, r.white_pending k h, h, e, eq_iff start k);
      no_grey = r.no_grey;
    })
  ]

  Closed-bind :
      (pending : List String) (m : Reply ⊥ Colours) (f : Colours → Reply ⊥ Colours)
      → Closed pending m
      → ((c : Colours) → Round s pending c → Closed [] (f c))
      → Closed [] (m >>= f)
  unfolding Closed
  Closed-bind pending (done c) f r next = next c r
  Closed-bind pending (refused e) f r next = absurd r
  Closed-bind pending (thrown e) f r next = r

  visit_all_lem :
      (path : String) (c : Colours) (pending : List String)
      → Round s pending c
      → Closed [] (visit_all path s c pending)
  unfolding visit_all Closed
  visit_all_lem path c [] r = r
  visit_all_lem path c (k ∷ ks) r =
      Closed-bind ks (visit path s c k) (λ after. visit_all path s after ks)
        (visit_lem path c k ks r) (λ after a. visit_all_lem path after ks a)

  lookup-none : (t : Successors) (k : String) → contains k (keys t) ≡ false → lookup k t ≡ none
  lookup-none [] k h = refl
  lookup-none ((from, to) ∷ t) k h = ground (arith, lookup-none t k, h)

  all_white-Round : Round s (keys s) (all_white s)
  all_white-Round = record {
    black_ends = λ k h. ground (arith, h);
    none_stops = λ k h. lookup-none s k (ground (arith, h));
    white_key = λ k h. ground (arith, h);
    white_pending = λ k h. ground (arith, h);
    no_grey = λ k h. ground (arith, h);
  }

  accepted-Ends :
      (m : Reply ⊥ Colours) → Closed [] m → (m >>= λ _. done tt) ≡ done tt → (k : String) → Ends s k
  unfolding Closed
  accepted-Ends (done c) r h k = elim (Option-cases (c k)) [
    | inl e ↦ stop (r.none_stops k e)
    | inr (white, e) ↦ absurd (let f = r.white_pending k e in cc)
    | inr (grey, e) ↦ absurd (r.no_grey k e)
    | inr (black, e) ↦ r.black_ends k e
  ]
  accepted-Ends (refused e) r h k = absurd r
  accepted-Ends (thrown e) r h k = cc

  acyclic_accepted :
      (m : Reply ⊥ Colours)
      → Closed [] m
      → ((k : String) → ¬ Leads s k k)
      → (m >>= λ _. done tt) ≡ done tt
  unfolding Closed
  acyclic_accepted (done c) r h = refl
  acyclic_accepted (refused e) r h = absurd r
  acyclic_accepted (thrown e) (k, cycle) h = absurd (h k cycle)

-- Authored hops are accepted exactly when no model leads back to itself by one hop or more.
pub assert_acyclic_lem :
    (path : String) (s : Successors)
    → (assert_acyclic path s ≡ done tt) ↔ ((k : String) → ¬ Leads s k k)
unfolding assert_acyclic
assert_acyclic_lem path s =
    let closed = visit_all_lem s path (all_white s) (keys s) (all_white-Round s) in
    (λ h k. Ends-acyclic s (accepted-Ends s _ closed h k), λ h. acyclic_accepted s _ closed h)
