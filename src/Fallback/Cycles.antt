-- ===== src/Fallback/Cycles.antt =====
-- `assertAcyclic` of fallback-plan-compiler.mjs: the authored graph is coloured, chain by chain.
use azure_llm_governance_api.Prelude.{
  ℕ, zero, suc, String, ◌<>◌, Bool, true, false, Option, none, some, List, [], ◌∷◌, ◌++◌, str_eq,
  if◌then◌else◌, length, Reply, done, thrown, coded_error, Error, ◌>>=◌,
}
use azure_llm_governance_api.Prelude.Sets.{contains}

-- `successors`: one target for each source.
abbrev pub Successors : Type 0
Successors = List (String × String)

abbrev pub lookup : String → Successors → Option String
lookup k [] = none
lookup k ((from, to) ∷ s) = if str_eq from k then some to else lookup k s

abbrev pub keys : Successors → List String
keys [] = []
keys ((from, _) ∷ s) = from ∷ keys s

pub data Colour : Type 0 where
  white grey black : Colour

-- The map `colour`, which has no colour for what is no key.
abbrev pub Colours : Type 0
Colours = String → Option Colour

abbrev pub paint : String → Colour → Colours → Colours
paint k c colours j = if str_eq k j then some c else colours j

abbrev pub paint_all : List String → Colour → Colours → Colours
paint_all [] c colours = colours
paint_all (k ∷ ks) c colours = paint_all ks c (paint k c colours)

abbrev pub is_white : Option Colour → Bool
is_white (some white) = true
is_white _ = false

pub record Walked : Type 0 where
  pub colours : Colours
  pub stack : List String
  pub current : Option String

-- The condition `current !== undefined && colour.get(current) === WHITE`, and the model it holds of.
unfoldable pub next_white : Walked → Option String
next_white w = elim w.current [
  | none ↦ none
  | some k ↦ if is_white (w.colours k) then some k else none
]

-- The `while` loop.
unfoldable pub walk : ℕ → Successors → Walked → Walked
walk zero s w = w
walk (suc fuel) s w = elim (next_white w) [
  | none ↦ w
  | some k ↦
      walk fuel s (record {
        colours = paint k grey w.colours;
        stack = w.stack ++ k ∷ [];
        current = lookup k s;
      })
]

abbrev pub is_grey : Option Colour → Bool
is_grey (some grey) = true
is_grey _ = false

last_of : List String → String
last_of [] = ""
last_of (x ∷ []) = x
last_of (x ∷ y ∷ ys) = last_of (y ∷ ys)

cycle_error : String → List String → String → Error
unfolding last_of
cycle_error path stack k =
    coded_error (path <> " forms a cycle: " <> last_of stack <> " points back to " <> k <> ".")
      "authoring-cycle"

-- The condition `current !== undefined && colour.get(current) === GREY`, and the model it holds of.
unfoldable pub back_edge : Walked → Option String
back_edge w = elim w.current [
  | none ↦ none
  | some k ↦ if is_grey (w.colours k) then some k else none
]

unfoldable pub close_walk : String → Walked → Reply ⊥ Colours
unfolding cycle_error
close_walk path w = elim (back_edge w) [
  | none ↦ done (paint_all w.stack black w.colours)
  | some k ↦ thrown (cycle_error path w.stack k)
]

-- One round of the outer loop. A walk paints a white key in each step, so it ends within as many
-- steps as there are keys.
unfoldable pub visit : String → Successors → Colours → String → Reply ⊥ Colours
unfolding close_walk walk
visit path s colours start =
    if is_white (colours start)
    then close_walk path
        (walk (suc (length s)) s (record { colours = colours; stack = []; current = some start }))
    else done colours

unfoldable pub visit_all : String → Successors → Colours → List String → Reply ⊥ Colours
unfolding visit
visit_all path s colours [] = done colours
visit_all path s colours (k ∷ ks) = do after ← visit path s colours k; visit_all path s after ks

abbrev pub all_white : Successors → Colours
all_white s k = if contains k (keys s) then some white else none

unfoldable pub assert_acyclic : String → Successors → Reply ⊥ Unit
unfolding visit_all
assert_acyclic path s = do _ ← visit_all path s (all_white s) (keys s); done tt
