-- ===== src/Usage/Coverage.antt =====
-- The documents that `observePeriodConsumption` keeps stand for different windows of the period.
use mathlib.Core.List.{Memᴰ}
use native.Mathlib.Nat.{mod-add-div', div-lt_iff_lt-mul}
use azure_llm_governance_api.Prelude.{
  ℕ, ◌+◌, ◌-◌, ◌*◌, ◌/◌, ◌%◌, ◌≤◌, ◌<◌, String, ◌≡◌, refl, sym, ◌∙◌, inl, inr, true, false, Option,
  none, some, List, [], ◌∷◌, ◌==◌, ==_iff, leb→le, ltb→lt, length, done, ensure, ensure-true,
  >>-done, >>=-eq-done, done_injective, some_injective, ◌≢◌, Bool-cases, arith, All, &&_iff,
}
use azure_llm_governance_api.Prelude.Pigeons.{has, Different, Below, length-le}
use azure_llm_governance_api.Prelude.Time.{Instant, ms}
use azure_llm_governance_api.Usage.Period.{
  Rollup, Span, Covered, lookup, insert, windows, size, is_selected, is_inside, is_aligned,
  cover_at, cover_all, expected_windows,
}

-- Division that leaves nothing.
no_rest : (n m : ℕ) → n % m ≡ 0 → n ≡ n / m * m
no_rest n m h = omega (arith, mod-add-div' n m)

quotient-lt : (a b z : ℕ) → 0 < z → a < b → b % z ≡ 0 → a / z < b / z
quotient-lt a b z pos lt h = (div-lt_iff_lt-mul pos).1 (omega (arith, no_rest b z h))

module _ (p : Span) (grain : String) (key : Option String) (rollups : List Rollup) where
  -- A document of the roll-ups that were read, of this key, at the start of a window of the period.
  pub record Covers (t : ℕ) (d : Rollup) : Type 0 where
    pub read : Memᴰ d rollups
    pub selected : is_selected grain key d ≡ true
    pub starts : d.window_start ≡ some t
    pub late : ms p.period_start ≤ t
    pub early : t < ms p.period_end
    pub aligned : (t - ms p.period_start) % size p ≡ 0

  abbrev pub WellCovered : Covered → Type 0
  WellCovered [] = Unit
  WellCovered ((t, d) ∷ m) = Covers t d × (lookup t m ≡ none) × WellCovered m

  lookup-insert_other :
      (t u : ℕ) (d : Rollup) (m : Covered) → (t == u) ≡ false → lookup u (insert t d m) ≡ lookup u m
  unfolding insert
  lookup-insert_other t u d [] h = rw h refl
  lookup-insert_other t u d ((v, e) ∷ m) h = ground (arith, lookup-insert_other t u d m h)

  WellCovered-insert :
      (t : ℕ) (d : Rollup) (m : Covered) → Covers t d → WellCovered m → WellCovered (insert t d m)
  unfolding insert
  WellCovered-insert t d [] c w = (c, refl, tt)
  WellCovered-insert t d ((u, e) ∷ m) c (x, gone, w) = elim (Bool-cases (u == t)) [
    | inl same ↦ rw same (rw ((==_iff u t).0 same) c, gone, w)
    | inr other ↦
        rw other
          (x, lookup-insert_other t u d m (ground arith) ∙ gone, WellCovered-insert t d m c w)
  ]

  covers :
      (t : ℕ) (d : Rollup)
      → Memᴰ d rollups
      → is_selected grain key d ≡ true
      → d.window_start ≡ some t
      → is_inside p t ≡ true
      → is_aligned p t d ≡ true
      → Covers t d
  unfolding is_inside is_aligned
  covers t d r s e inside ok = record {
    read = r;
    selected = s;
    starts = e;
    late = leb→le _ _ ((&&_iff _ _).0 inside).0;
    early = ltb→lt _ _ ((&&_iff _ _).0 inside).1;
    aligned = (==_iff _ _).0 ((&&_iff _ _).0 ok).0;
  }

  WellCovered-cover_at :
      (d : Rollup) (start : Instant) (m : Covered) {m' : Covered}
      → Memᴰ d rollups
      → is_selected grain key d ≡ true
      → d.window_start ≡ start
      → WellCovered m
      → cover_at p d start m ≡ done m'
      → WellCovered m'
  unfolding cover_at
  WellCovered-cover_at d none m r s e w h = cc
  WellCovered-cover_at d (some t) m r s e w h = elim (Bool-cases (is_inside p t)) [
    | inr out ↦ rw (← done_injective {R = ⊥} m _ (rw out at h)) w
    | inl inside ↦
        let (ok, put) = >>-done (ensure (is_aligned p t d) _) _ (rw inside at h) in
        rw (← done_injective _ _ put)
          (WellCovered-insert t d m (covers t d r s e inside (ensure-true _ _ ok)) w)
  ]

  pub WellCovered-cover_all :
      (ds : List Rollup) (m : Covered) {m' : Covered}
      → All (λ d. Memᴰ d rollups) ds
      → WellCovered m
      → cover_all p grain key ds m ≡ done m'
      → WellCovered m'
  unfolding cover_all
  WellCovered-cover_all [] m r w h = rw (← done_injective _ _ h) w
  WellCovered-cover_all (d ∷ ds) m (r, rs) w h = elim (Bool-cases (is_selected grain key d)) [
    | inl s ↦
        let (n, first, rest) = >>=-eq-done (cover_at p d d.window_start m) _ (rw s at h) in
        WellCovered-cover_all ds n rs (WellCovered-cover_at d d.window_start m r s refl w first)
          rest
    | inr s ↦ WellCovered-cover_all ds m rs w (rw s at h)
  ]

  index : ℕ → ℕ
  index t = (t - ms p.period_start) / size p

  indices : Covered → List ℕ
  indices [] = []
  indices ((t, d) ∷ m) = index t ∷ indices m

  length-indices : (m : Covered) → length (indices m) ≡ length m
  unfolding indices
  length-indices [] = refl
  length-indices ((t, d) ∷ m) = omega (arith, length-indices m)

  -- The start of a covered window is told by its index.
  start_of : (t : ℕ) (d : Rollup) → Covers t d → t ≡ ms p.period_start + index t * size p
  unfolding index
  start_of t d c = omega (arith, no_rest (t - ms p.period_start) (size p) c.aligned, c.late)

  has-indices :
      (i : ℕ) (m : Covered)
      → WellCovered m
      → lookup (ms p.period_start + i * size p) m ≡ none
      → has i (indices m) ≡ false
  unfolding indices
  has-indices i [] w h = refl
  has-indices i ((t, d) ∷ m) (c, gone, w) h = elim (Bool-cases (index t == i)) [
    | inl e ↦
        let same : t ≡ ms p.period_start + i * size p =
          rw (← (==_iff (index t) i).0 e) (start_of t d c) in
        absurd (ground (arith, ==_iff t (ms p.period_start + i * size p)))
    | inr e ↦ rw e (has-indices i m w (ground arith))
  ]

  Different-indices : (m : Covered) → WellCovered m → Different (indices m)
  unfolding indices
  Different-indices [] w = tt
  Different-indices ((t, d) ∷ m) (c, gone, w) =
      (has-indices (index t) m w (rw (← start_of t d c) gone), Different-indices m w)

  Below-indices :
      (m : Covered)
      → 0 < size p
      → (ms p.period_end - ms p.period_start) % size p ≡ 0
      → WellCovered m
      → Below (expected_windows p) (indices m)
  unfolding indices index
  Below-indices [] pos whole w = tt
  Below-indices ((t, d) ∷ m) pos whole (c, gone, w) = (
    quotient-lt (t - ms p.period_start) (ms p.period_end - ms p.period_start) (size p) pos
        (omega (arith, c.late, c.early)) whole,
    Below-indices m pos whole w,
  )

  pub length-covered :
      (m : Covered)
      → 0 < size p
      → (ms p.period_end - ms p.period_start) % size p ≡ 0
      → WellCovered m
      → length m ≤ expected_windows p
  length-covered m pos whole w = omega (
    arith,
    length-le (expected_windows p) (indices m) (Different-indices m w)
        (Below-indices m pos whole w),
    length-indices m,
  )

  -- Where as many documents are kept as there are windows, no window is left out.
  pub none_left_out :
      (m : Covered) (i : ℕ)
      → 0 < size p
      → (ms p.period_end - ms p.period_start) % size p ≡ 0
      → WellCovered m
      → i < expected_windows p
      → expected_windows p ≤ length m
      → lookup (ms p.period_start + i * size p) m ≢ none
  none_left_out m i pos whole w low enough h =
      let more =
        length-le (expected_windows p) (i ∷ indices m) (has-indices i m w h, Different-indices m w)
          (low, Below-indices m pos whole w) in
      absurd (omega (arith, more, length-indices m))

  pub found :
      (t : ℕ) (d : Rollup) (m : Covered)
      → WellCovered m
      → lookup t m ≡ some d
      → Covers t d × Memᴰ d (windows m)
  found t d [] w h = cc
  found t d ((u, e) ∷ m) (c, gone, w) h = elim (Bool-cases (u == t)) [
    | inl same ↦
        let value : e ≡ d = some_injective e d (rw same at h) in
        (rw (← value) (rw (← (==_iff u t).0 same) c), Memᴰ.head (sym value))
    | inr other ↦ let (x, there) = found t d m w (rw other at h) in (x, Memᴰ.tail there)
  ]
