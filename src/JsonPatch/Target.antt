-- ===== src/JsonPatch/Target.antt =====
-- The two ways in which src/workflows/json-patch.ts looks for the target of a pointer.
use pi_workflows.Prelude.{
  refl, ◌⊎◌, ◌≢◌, sym, ◌>>=◌, throw, ap, ℕ, or_throw, none, Outcome, Option, false, inr, inl, ◌∙◌,
  ◌↔◌, [], some, arith, ◌∷◌, ok, ◌≡◌, String, List, >>=-eq-ok, or_throw-ok, Option-cases,
}
use pi_workflows.Json.{Items, Fields, null, arr, obj, str, num, bool, get_field, Json}
use pi_workflows.JsonPatch.{PatchError, missing_path}
use pi_workflows.JsonPatch.Apply.{
  item, size, child, target_from, require_target, pointer_target_from, parse_array_index,
}

abbrev target_in : List String → Option Json → Outcome PatchError (Option Json)
target_in rest none = ok none
target_in rest (some v) = pointer_target_from rest v

-- The step into an item, and the step into a member.
step_item :
    (key : String) (rest : List String) (vs : Items) (index : ℕ) (o : Option Json)
    → parse_array_index key (size vs) false ≡ ok index
    → item vs index ≡ o
    → pointer_target_from (key ∷ rest) (arr vs) ≡ target_in rest o
unfolding pointer_target_from
step_item key rest vs index none parsed found = rw (parsed, ◌>>=◌, found)
step_item key rest vs index (some v) parsed found = rw (parsed, ◌>>=◌, found)

Outcome-cases :
    {E A : Type 0} (o : Outcome E A) → ((e : E) × (o ≡ throw e)) ⊎ ((a : A) × (o ≡ ok a))
Outcome-cases (ok a) = inr (a, refl)
Outcome-cases (throw e) = inl (e, refl)

refused_item :
    (key : String) (rest : List String) (vs : Items) (e : PatchError) (o : Option Json)
    → parse_array_index key (size vs) false ≡ throw e
    → pointer_target_from (key ∷ rest) (arr vs) ≢ ok o
unfolding pointer_target_from
refused_item key rest vs e o refused h = ground arith

step_field :
    (key : String) (rest : List String) (fs : Fields) (o : Option Json)
    → get_field key fs ≡ o
    → pointer_target_from (key ∷ rest) (obj fs) ≡ target_in rest o
unfolding pointer_target_from
step_field key rest fs none found = rw (found, pointer_target_from)
step_field key rest fs (some v) found = rw (found, pointer_target_from)

module _ (path : List String) where
  child-target :
      (key : String) (rest : List String) (v u : Json)
      → child path key v ≡ ok u
      → pointer_target_from (key ∷ rest) v ≡ pointer_target_from rest u
  unfolding child pointer_target_from
  child-target key rest null u h = absurd (ground arith)
  child-target key rest (bool b) u h = absurd (ground arith)
  child-target key rest (num n) u h = absurd (ground arith)
  child-target key rest (str s) u h = absurd (ground arith)
  child-target key rest (obj fs) u h =
      step_field key rest fs (some u) (or_throw-ok (missing_path path) (get_field key fs) h)
  child-target key rest (arr vs) u h =
      let (index, parsed, at) = >>=-eq-ok (parse_array_index key (size vs) false) _ h in
      step_item key rest vs index (some u) parsed
        (or_throw-ok (missing_path path) (item vs index) at)

  found-target :
      (segments : List String) (v u : Json)
      → target_from path segments v ≡ ok u
      → pointer_target_from segments v ≡ ok (some u)
  unfolding target_from pointer_target_from
  found-target [] v u h = ground arith
  found-target (key ∷ rest) v u h =
      let (inner, c, h1) = >>=-eq-ok (child path key v) _ h in
      child-target key rest v inner c ∙ found-target rest inner u h1

  target-child :
      (key : String) (rest : List String) (v u : Json)
      → pointer_target_from (key ∷ rest) v ≡ ok (some u)
      → (inner : Json) × (child path key v ≡ ok inner)
        × (pointer_target_from rest inner ≡ ok (some u))
  unfolding child pointer_target_from
  target-child key rest null u h = absurd (ground arith)
  target-child key rest (bool b) u h = absurd (ground arith)
  target-child key rest (num n) u h = absurd (ground arith)
  target-child key rest (str s) u h = absurd (ground arith)
  target-child key rest (obj fs) u h = elim (Option-cases (get_field key fs)) [
    | inl missing ↦ absurd (ground (arith, step_field key rest fs none missing))
    | inr (inner, found) ↦ (
      inner,
      ap (or_throw (missing_path path)) found,
      sym (step_field key rest fs (some inner) found) ∙ h,
    )
  ]
  target-child key rest (arr vs) u h =
      elim (Outcome-cases (parse_array_index key (size vs) false)) [
        | inl (e, refused) ↦ absurd (refused_item key rest vs e (some u) refused h)
        | inr (index, parsed) ↦ elim (Option-cases (item vs index)) [
          | inl missing ↦ absurd (ground (arith, step_item key rest vs index none parsed missing))
          | inr (inner, found) ↦ (
            inner,
            ap (λ p. p >>= λ i. or_throw (missing_path path) (item vs i)) parsed
                ∙ ap (or_throw (missing_path path)) found,
            sym (step_item key rest vs index (some inner) parsed found) ∙ h,
          )
        ]
      ]

  target-found :
      (segments : List String) (v u : Json)
      → pointer_target_from segments v ≡ ok (some u)
      → target_from path segments v ≡ ok u
  unfolding target_from pointer_target_from
  target-found [] v u h = ground arith
  target-found (key ∷ rest) v u h =
      let (inner, c, h1) = target-child key rest v u h in rw c (target-found rest inner u h1)

-- The lookup by a pointer finds a value exactly where the operations `replace`, `copy` and `test`
-- find their target, and it is the same value.
pub pointer_target_iff :
    (document u : Json) (segments : List String)
    → (pointer_target_from segments document ≡ ok (some u))
      ↔ (require_target document segments ≡ ok u)
pointer_target_iff document u segments =
    (target-found segments segments document u, found-target segments segments document u)
