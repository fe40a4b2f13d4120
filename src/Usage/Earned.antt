-- ===== src/Usage/Earned.antt =====
-- What a period has earned, said without the order in which the planner emits it.
use azure_llm_governance_api.Prelude.{
  ℕ, String, ◌≡◌, refl, ap, ◌∙◌, inl, inr, true, false, not, ◌&&◌, ◌||◌, List, [], ◌∷◌, ◌++◌, map,
  str_eq, leb, ltb, any, if◌then◌else◌, keep, Bool-cases, arith, eq_iff,
}
use azure_llm_governance_api.Prelude.Sets.{contains, contains-append, Distinct, Distinct-append_one}
use azure_llm_governance_api.Usage.{Watched, Planned, Threshold}
use azure_llm_governance_api.Usage.Planner.{
  Period, Planning, emit, suppress, base, crossing, emit_crossings,
}

abbrev pub keys : List Planned → List String
keys ns = map (λ n. n.key) ns

-- A list grown by what is new.
abbrev pub add : List String → Planned → List Planned → List Planned
add already n ns =
    if contains n.key already
    then ns
    else if any (λ c. str_eq c.key n.key) ns
    then ns
    else ns ++ n ∷ []

abbrev pub add_all : List String → List Planned → List Planned → List Planned
add_all already [] ns = ns
add_all already (n ∷ more) ns = add_all already more (add already n ns)

any_key : (k : String) (ns : List Planned) → any (λ c. str_eq c.key k) ns ≡ contains k (keys ns)
any_key k [] = refl
any_key k (n ∷ ns) = ap (λ b. str_eq n.key k || b) (any_key k ns)

pub map-append_keys : (ns ms : List Planned) → keys (ns ++ ms) ≡ keys ns ++ keys ms
map-append_keys [] ms = refl
map-append_keys (n ∷ ns) ms = ap (λ ks. n.key ∷ ks) (map-append_keys ns ms)

contains-add :
    (already : List String) (n : Planned) (ns : List Planned) (k : String)
    → contains k (keys (add already n ns))
      ≡ (contains k (keys ns) || (str_eq n.key k && not (contains k already)))
contains-add already n ns k = elim (Bool-cases (contains n.key already)) [
  | inl e ↦ rw e (ground (arith, eq_iff n.key k, e))
  | inr e ↦ elim (Bool-cases (contains n.key (keys ns))) [
    | inl f ↦ rw (e, any_key n.key ns, f) (ground (arith, eq_iff n.key k, e, f))
    | inr f ↦
        rw
          (
            e,
            any_key n.key ns,
            f,
            map-append_keys ns (n ∷ []),
            contains-append k (keys ns) (n.key ∷ []),
          )
          (ground (arith, eq_iff n.key k, e, f))
  ]
]

Distinct-add :
    (already : List String) (n : Planned) (ns : List Planned)
    → Distinct (keys ns)
    → Distinct (keys (add already n ns))
Distinct-add already n ns d = elim (Bool-cases (contains n.key already)) [
  | inl e ↦ rw e d
  | inr e ↦ elim (Bool-cases (contains n.key (keys ns))) [
    | inl f ↦ rw (e, any_key n.key ns, f) d
    | inr f ↦
        rw (e, any_key n.key ns, f, map-append_keys ns (n ∷ []))
          (Distinct-append_one n.key (keys ns) f d)
  ]
]

pub contains-add_all :
    (already : List String) (more ns : List Planned) (k : String)
    → contains k (keys (add_all already more ns))
      ≡ (contains k (keys ns) || (contains k (keys more) && not (contains k already)))
contains-add_all already [] ns k = ground arith
contains-add_all already (n ∷ more) ns k =
    contains-add_all already more (add already n ns) k
    ∙ rw (contains-add already n ns k) (ground arith)

pub Distinct-add_all :
    (already : List String) (more ns : List Planned)
    → Distinct (keys ns)
    → Distinct (keys (add_all already more ns))
Distinct-add_all already [] ns d = d
Distinct-add_all already (n ∷ more) ns d =
    Distinct-add_all already more (add already n ns) (Distinct-add already n ns d)

pub add_all-append :
    (already : List String) (xs ys ns : List Planned)
    → add_all already (xs ++ ys) ns ≡ add_all already ys (add_all already xs ns)
add_all-append already [] ys ns = refl
add_all-append already (x ∷ xs) ys ns = add_all-append already xs ys (add already x ns)

pub planned-emit :
    (already : List String) (n : Planned) (p : Planning)
    → (emit already n p).planned ≡ add already n p.planned
unfolding emit suppress
planned-emit already n p = ground arith

-- The thresholds that a consumption has reached.
abbrev pub crossings : Period → Watched → ℕ → List Threshold → List Planned
crossings c w consumed ts =
    map (λ t. base c t.kind w (crossing w consumed t))
      (keep (λ t. leb t.at_basis_points consumed) ts)

pub planned-emit_crossings :
    (c : Period) (w : Watched) (consumed : ℕ) (ts : List Threshold) (p : Planning)
    → (emit_crossings c w consumed ts p).planned
      ≡ add_all c.already_notified (crossings c w consumed ts) p.planned
unfolding emit_crossings
planned-emit_crossings c w consumed [] p = refl
planned-emit_crossings c w consumed (t ∷ ts) p =
    elim (Bool-cases (leb t.at_basis_points consumed)) [
      | inl e ↦
          let f : ltb consumed t.at_basis_points ≡ false = ground arith in
          rw (e, emit_crossings, f)
            (planned-emit_crossings c w consumed ts _
              ∙ rw (planned-emit c.already_notified (base c t.kind w (crossing w consumed t)) p)
                  refl)
      | inr e ↦
          let f : ltb consumed t.at_basis_points ≡ true = ground arith in
          rw (e, emit_crossings, f) (planned-emit_crossings c w consumed ts p)
    ]
