-- ===== src/Fallback/Accepted.antt =====
-- What an accepted plan promises, and that the screen's verdict is that of the assertion.
use azure_llm_governance_api.Prelude.{
  ℕ, suc, String, ◌<>◌, Bool, true, false, List, [], ◌∷◌, ◌++◌, Reply, Error, done, refused, thrown,
  type_error, range_error, coded_error, ◌>>=◌, ◌>>◌, >>=-eq-done, >>-done, ◌≡◌, ◌≢◌, refl, sym, ap,
  ◌∙◌, ◌↔◌, if◌then◌else◌, arith, eq_iff, Bool-cases, inl, inr,
}
use mathlib.Core.Path.{subst}
use mathlib.Core.List.{append_assoc, append-nil}
use azure_llm_governance_api.Prelude.Sets.{contains, contains-append}
use azure_llm_governance_api.Fallback.{Edge, Plan}
use azure_llm_governance_api.Fallback.Cycles.{Successors, keys, assert_acyclic}
use azure_llm_governance_api.Fallback.Colouring.{Leads}
use azure_llm_governance_api.Fallback.Acyclic.{assert_acyclic_lem}
use azure_llm_governance_api.Fallback.Plans.{
  add_edges, assert_edge, assert_plan, authoring_reason_codes, Classified, classify,
  classify_authored_plan, ensure_coded, edge_path, assert_head, assert_tail, rejection_code,
}

-- The hops of a plan, as the graph that is coloured.
abbrev pub graph : List Edge → Successors
graph [] = []
graph (e ∷ es) = (e.from, e.to) ∷ graph es

-- No key is there twice.
abbrev pub Distinct : List String → Type 0
Distinct [] = Unit
Distinct (k ∷ ks) = (contains k ks ≡ false) × Distinct ks

ensure_coded-done : (b : Bool) (m c : String) → ensure_coded b m c ≡ done tt → b ≡ true
ensure_coded-done true m c h = refl
ensure_coded-done false m c h = cc

keys-append : (s t : Successors) → keys (s ++ t) ≡ keys s ++ keys t
keys-append [] t = refl
keys-append (x ∷ s) t = ap (λ ks. x.0 ∷ ks) (keys-append s t)

-- The checks of a hop that the graph depends on.
assert_edge-new :
    (path : String) (e : Edge) (s : Successors)
    → assert_edge path e s ≡ done tt
    → contains e.from (keys s) ≡ false
unfolding assert_edge
assert_edge-new path e s h = ground (arith, h)

add_edges-graph :
    (path : String) (n : ℕ) (s : Successors) (es : List Edge) {t : Successors}
    → add_edges path n s es ≡ done t
    → t ≡ s ++ graph es
unfolding add_edges
add_edges-graph path n s [] {t} h = let e : t ≡ s = cc in e ∙ sym (append-nil s)
add_edges-graph path n s (e ∷ es) h =
    let longer : Successors = s ++ (e.from, e.to) ∷ [] in
    let (_, rest) =
      >>-done (assert_edge (edge_path path n) e s) (add_edges path (suc n) longer es) h in
    add_edges-graph path (suc n) longer es rest ∙ append_assoc s ((e.from, e.to) ∷ []) (graph es)

Distinct-snoc :
    (ks : List String) (k : String) → Distinct ks → contains k ks ≡ false → Distinct (ks ++ k ∷ [])
Distinct-snoc [] k d n = (refl, tt)
Distinct-snoc (j ∷ ks) k (new, d) n = (
  ground (arith, contains-append j ks (k ∷ []), eq_iff j k, eq_iff k j, new, n),
  Distinct-snoc ks k d (ground (arith, n)),
)

add_edges-Distinct :
    (path : String) (n : ℕ) (s : Successors) (es : List Edge) {t : Successors}
    → Distinct (keys s)
    → add_edges path n s es ≡ done t
    → Distinct (keys t)
unfolding add_edges
add_edges-Distinct path n s [] {t} d h = let e : s ≡ t = cc in subst (λ u. Distinct (keys u)) e d
add_edges-Distinct path n s (e ∷ es) d h =
    let longer : Successors = s ++ (e.from, e.to) ∷ [] in
    let (edge, rest) =
      >>-done (assert_edge (edge_path path n) e s) (add_edges path (suc n) longer es) h in
    add_edges-Distinct path (suc n) longer es
      (rw (keys-append s ((e.from, e.to) ∷ []))
        (Distinct-snoc (keys s) e.from d (assert_edge-new (edge_path path n) e s edge)))
      rest

-- An accepted plan gives each model one fallback target at most, and no model leads back to itself
-- by its hops, however many of them are taken.
pub assert_plan-acyclic :
    (p : Plan) (path : String)
    → assert_plan p path ≡ done tt
    → Distinct (keys (graph p.edges)) × ((k : String) → ¬ Leads (graph p.edges) k k)
unfolding assert_plan
assert_plan-acyclic p path h =
    let (_, after) =
      >>-done (assert_head p path)
        (add_edges path 0 [] p.edges >>= λ s.
          assert_acyclic (path <> ".edges") s >> assert_tail p path)
        h in
    let (s, filled, rest) =
      >>=-eq-done (add_edges path 0 [] p.edges)
        (λ s. assert_acyclic (path <> ".edges") s >> assert_tail p path) after in
    let (acyclic, _) = >>-done (assert_acyclic (path <> ".edges") s) (assert_tail p path) rest in
    let same : s ≡ graph p.edges = add_edges-graph path 0 [] p.edges filled in
    (
      subst (λ u. Distinct (keys u)) same (add_edges-Distinct path 0 [] p.edges tt filled),
      subst (λ u. (k : String) → ¬ Leads u k k) same
          ((assert_acyclic_lem (path <> ".edges") s).0 acyclic),
    )

known :
    (code default : String) (codes : List String)
    → contains default codes ≡ true
    → contains (if contains code codes then code else default) codes ≡ true
known code default codes h = elim (Bool-cases (contains code codes)) [
  | inl e ↦ rw e e
  | inr e ↦ rw e h
]

rejection-known : (e : Error) → contains (rejection_code e) authoring_reason_codes ≡ true
unfolding rejection_code
rejection-known (type_error m) = refl
rejection-known (range_error m) = refl
rejection-known (coded_error m c) = known c "authoring-malformed" authoring_reason_codes refl

-- A verdict that says what an answer says.
IsVerdict : Reply ⊥ Unit → Classified → Type 0
IsVerdict m c =
    ((c.valid ≡ true) ↔ (m ≡ done tt))
    × (c.valid ≡ false → contains c.reason_code authoring_reason_codes ≡ true)

classify-IsVerdict : (m : Reply ⊥ Unit) → IsVerdict m (classify m)
unfolding classify IsVerdict
classify-IsVerdict (done tt) = ((λ _. refl, λ _. refl), λ h. cc)
classify-IsVerdict (refused r) = absurd r
classify-IsVerdict (thrown e) = ((λ h. cc, λ h. cc), λ _. rejection-known e)

-- What the screen says of a plan: valid, where its hops make no cycle and give each model one target; or
-- refused, for one of the listed reasons.
pub data Judged (p : Plan) (c : Classified) : Type 0 where
  as_valid :
      c.valid ≡ true
      → assert_plan p "plan" ≡ done tt
      → Distinct (keys (graph p.edges))
      → ((k : String) → ¬ Leads (graph p.edges) k k)
      → Judged p c
  as_refused :
      c.valid ≡ false
      → assert_plan p "plan" ≢ done tt
      → contains c.reason_code authoring_reason_codes ≡ true
      → Judged p c

-- The screen calls a plan valid only if the assertion accepts it, it gives each model one fallback target
-- at most and no model leads back to itself by its hops. It calls any other plan invalid, which the
-- assertion does not accept, for one of the listed reasons.
pub classify_authored_plan_lem : (p : Plan) → Judged p (classify_authored_plan p)
unfolding classify_authored_plan IsVerdict
classify_authored_plan_lem p =
    let (verdict, listed) = classify-IsVerdict (assert_plan p "plan") in
    elim (Bool-cases (classify_authored_plan p).valid) [
      | inl e ↦
          let ok = verdict.0 e in
          let (distinct, acyclic) = assert_plan-acyclic p "plan" ok in
          as_valid e ok distinct acyclic
      | inr e ↦ as_refused e (λ ok. cc (verdict.1 ok, e)) (listed e)
    ]
