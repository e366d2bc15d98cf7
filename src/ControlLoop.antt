-- ===== src/ControlLoop.antt =====
-- controlLoop of src/workflows/control-loop.ts, which builds the edges of a loop from its routes. A
-- route's `terminal` that is no Boolean, and names that are no texts, are left out.
pub mod Edges
pub mod Tests
use pi_workflows.Graph.{WorkflowEdge, to, switch}
use pi_workflows.Prelude.{
  Char, none, ◌==◌, throw, some, eqb, elem, ◌||◌, ◌++◌, ◌&&◌, true, split, ok, not, if◌then◌else◌,
  false, ℕ, throw_if, matches_class, is_letter, is_digit_code, String, Outcome, Option, List, Bool,
  Assoc, ◌>>◌, ◌>>=◌, [], ◌∷◌,
}

pub record Route : Type 0 where
  pub target : String
  pub returns : Option (List String)
  pub terminal : Option Bool
  pub other_fields : List String

pub record ControlLoopDefinition : Type 0 where
  pub decide : String
  pub return_to : String
  pub routes : Assoc Route
  pub other_fields : List String

pub record ControlLoopGraph : Type 0 where
  pub choices : List String
  pub edges : List WorkflowEdge

pub data LoopError : Type 0 where
  field_not_supported bad_node_reference bad_return_reference bad_route_name : String → LoopError
  no_routes cancelled_route returns_to_decide : LoopError
  terminal_with_returns no_returns : String → LoopError

abbrev pub is_name_start : ℕ → Bool
is_name_start c = is_letter c || eqb c 95

abbrev pub is_name_char : ℕ → Bool
is_name_char c = is_letter c || is_digit_code c || eqb c 95 || eqb c 45

-- NODE_REFERENCE_PATTERN
unfoldable pub is_node_reference : String → Bool
unfolding matches_class
is_node_reference s = matches_class is_name_start is_name_char s

abbrev pub are_one_or_two : List String → Bool
are_one_or_two (a ∷ []) = matches_class is_name_start is_name_char a
are_one_or_two (a ∷ b ∷ []) =
    matches_class is_name_start is_name_char a && matches_class is_name_start is_name_char b
are_one_or_two _ = false

abbrev dot : Char
dot = "."

-- RETURN_REFERENCE_PATTERN
unfoldable pub is_return_reference : String → Bool
unfolding matches_class split
is_return_reference s = are_one_or_two (split dot s)

unfoldable pub require_node_reference : String → Outcome LoopError String
unfolding is_node_reference
require_node_reference s = throw_if (not (is_node_reference s)) (bad_node_reference s) >> ok s

-- assertExactKeys
abbrev pub assert_exact_keys : List String → Outcome LoopError (Unit {0})
assert_exact_keys [] = ok tt
assert_exact_keys (f ∷ fs) = throw (field_not_supported f)

-- The variables of the loop over the routes. The claimed returns are the sources of the return edges.
pub record LoopState : Type 0 where
  pub choices : List String
  pub cases : Assoc String
  pub claimed : List String

abbrev pub claim_return : String → LoopState → LoopState
claim_return source s =
    if elem source s.claimed then s else record s { claimed = s.claimed ++ source ∷ [] }

unfoldable pub add_returns :
    (decide : String) → List String → LoopState → Outcome LoopError LoopState
unfolding is_return_reference
add_returns decide [] s = ok s
add_returns decide (source ∷ sources) s = do
  throw_if (not (is_return_reference source)) (bad_return_reference source)
  throw_if (source == decide) returns_to_decide
  add_returns decide sources (claim_return source s)

abbrev pub is_terminal : Option Bool → Bool
is_terminal none = false
is_terminal (some b) = b

abbrev pub add_route_returns :
    (decide name : String)
    → (terminal : Bool) → Option (List String)
    → LoopState
    → Outcome LoopError LoopState
add_route_returns decide name true none s = ok s
add_route_returns decide name true (some rs) s = throw (terminal_with_returns name)
add_route_returns decide name false none s = throw (no_returns name)
add_route_returns decide name false (some []) s = throw (no_returns name)
add_route_returns decide name false (some (r ∷ rs)) s = add_returns decide (r ∷ rs) s

-- The case is set by an assignment, which for the name of the prototype sets none.
abbrev pub with_case : String → String → LoopState → LoopState
with_case name target s = record s {
  choices = s.choices ++ name ∷ [];
  cases = if name == "__proto__" then s.cases else s.cases ++ (name, target) ∷ [];
}

unfoldable pub add_routes :
    (decide : String) → Assoc Route → LoopState → Outcome LoopError LoopState
unfolding is_node_reference require_node_reference add_returns
add_routes decide [] s = ok s
add_routes decide ((name, route) ∷ routes) s = do
  throw_if (not (is_node_reference name)) (bad_route_name name)
  throw_if (name == "cancelled") cancelled_route
  assert_exact_keys route.other_fields
  target ← require_node_reference route.target
  next ←
      add_route_returns decide name (is_terminal route.terminal) route.returns
        (with_case name target s)
  add_routes decide routes next

abbrev pub has_no_routes : Assoc Route → Bool
has_no_routes [] = true
has_no_routes (r ∷ rs) = false

unfoldable pub return_edges : (return_to : String) → List String → List WorkflowEdge
return_edges return_to [] = []
return_edges return_to (source ∷ sources) = to source return_to ∷ return_edges return_to sources

unfoldable pub control_loop : ControlLoopDefinition → Outcome LoopError ControlLoopGraph
unfolding require_node_reference add_routes return_edges
control_loop d = do
  assert_exact_keys d.other_fields
  decide ← require_node_reference d.decide
  return_to ← require_node_reference d.return_to
  throw_if (has_no_routes d.routes) no_routes
  s ← add_routes decide d.routes (record { choices = []; cases = []; claimed = [] })
  ok (record {
    choices = s.choices;
    edges = switch decide "$.route" s.cases ∷ return_edges return_to s.claimed;
  })
