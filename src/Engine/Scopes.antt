-- ===== src/Engine/Scopes.antt =====
-- countExecutableSteps and assertInvocationStepLimit in src/workflows/engine.ts. The paths that are
-- sorted by length are made of ASCII names.
use pi_workflows.Prelude.{
  ◌>>=◌, ◌>>◌, ◌==◌, ◌&&◌, values, suc, not, leb, ◌||◌, some, if◌then◌else◌, [], ◌∷◌, ok, none, has,
  false, append, throw_if, text_length, strip_prefix, or_throw, or_else, is_some, String, Outcome,
  Option, List, Bool, ℕ,
}
use pi_workflows.Engine.{
  include_exceeded, include_entry_missing, ScopeMetadata, EngineError, CompositionMetadata,
}
use pi_workflows.Graph.{is_object_member}
use pi_workflows.Transitions.{Step}

-- `metadata.entries[id] !== undefined || metadata.exits[id] !== undefined`: the two are plain
-- objects, so the members of Object.prototype count.
unfoldable pub is_entry_or_exit : CompositionMetadata → String → Bool
is_entry_or_exit m id = has id m.entries || has id m.exits || is_object_member id

unfoldable pub is_transition : Option CompositionMetadata → String → Bool
unfolding is_entry_or_exit
is_transition none id = false
is_transition (some m) id = is_entry_or_exit m id

-- countExecutableSteps
unfoldable pub count_executable_steps : Option CompositionMetadata → List Step → ℕ
unfolding is_transition
count_executable_steps composition [] = 0
count_executable_steps composition (step ∷ steps) =
    let rest = count_executable_steps composition steps in
    if is_transition composition step.node_id then rest else suc rest

unfoldable pub is_inside : String → String → Bool
is_inside path id = is_some (strip_prefix (append path "/") id)

-- The filter of assertInvocationStepLimit.
unfoldable pub limited_scopes : List ScopeMetadata → String → List ScopeMetadata
unfolding is_inside
limited_scopes [] id = []
limited_scopes (scope ∷ scopes) id =
    let rest = limited_scopes scopes id in
    if not (scope.path == "") && is_some scope.max_steps && is_inside scope.path id
    then scope ∷ rest
    else rest

-- `sort((a, b) => a.path.length - b.path.length)`, which is stable.
unfoldable pub insert_scope : ScopeMetadata → List ScopeMetadata → List ScopeMetadata
insert_scope scope [] = scope ∷ []
insert_scope scope (other ∷ others) =
    let later = insert_scope scope others in
    if leb (text_length scope.path) (text_length other.path)
    then scope ∷ other ∷ others
    else other ∷ later

unfoldable pub sort_scopes : List ScopeMetadata → List ScopeMetadata
unfolding insert_scope
sort_scopes [] = []
sort_scopes (scope ∷ scopes) = insert_scope scope (sort_scopes scopes)

-- The steps behind the last one at `path`.
unfoldable pub steps_after_entry : String → List Step → Option (List Step)
steps_after_entry path [] = none
steps_after_entry path (step ∷ steps) = elim (steps_after_entry path steps) [
  | some later ↦ some later
  | none ↦ if step.node_id == path then some steps else none
]

unfoldable pub count_attempts : CompositionMetadata → String → List Step → ℕ
unfolding is_inside is_entry_or_exit
count_attempts m path [] = 0
count_attempts m path (step ∷ steps) =
    let rest = count_attempts m path steps in
    if is_inside path step.node_id && not (is_entry_or_exit m step.node_id) then suc rest else rest

unfoldable pub assert_scopes :
    CompositionMetadata → List ScopeMetadata → List Step → Outcome EngineError (Unit {0})
unfolding steps_after_entry count_attempts
assert_scopes m [] steps = ok tt
assert_scopes m (scope ∷ scopes) steps = do
  later ← or_throw (include_entry_missing scope.path) (steps_after_entry scope.path steps)
  throw_if (leb (or_else scope.max_steps 0) (count_attempts m scope.path later))
      (include_exceeded scope.path)
  assert_scopes m scopes steps

-- assertInvocationStepLimit
unfoldable pub assert_invocation_step_limit :
    Option CompositionMetadata → String → List Step → Outcome EngineError (Unit {0})
unfolding limited_scopes sort_scopes assert_scopes
assert_invocation_step_limit none id steps = ok tt
assert_invocation_step_limit (some m) id steps =
    assert_scopes m (sort_scopes (limited_scopes (values m.scopes) id)) steps
