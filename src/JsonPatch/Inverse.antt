-- ===== src/JsonPatch/Inverse.antt =====
-- Adding a value and removing it again, in src/workflows/json-patch.ts.
use pi_workflows.Prelude.{
  Outcome, leb, ◌&&◌, ◌>>◌, sym, refl, ◌∙◌, ltb, throw_if, suc, throw, ◌≤◌, inr, [], ◌∷◌, ◌^◌, inl,
  ◌<◌, none, arith, ◌==◌, true, some, ok, ◌≡◌, not, false, ℕ, String, List, Bool, >>=-eq-ok,
  Bool-cases, Option-cases,
}
use pi_workflows.Json.{null, str, num, bool, obj, arr, parse_index, get_field, Json, Items, Fields}
use pi_workflows.JsonPatch.Apply.{
  set_field, remove_value, put_child, index_within, add_value, size, remove_at, parse_array_index,
  is_field, insert_item, edit_parent, child, add_at,
}
use pi_workflows.JsonPatch.Undo.{
  put_child_twice, put_child-child, get_field-set_field, drop_field-set_field, child-put_child,
  size-insert_item, item-insert_item, insert_item-drop_item, index_within_lt,
}
use mathlib.Core.Path.{subst}
use pi_workflows.JsonPatch.{PatchError, missing_path}

-- The path ends at an index of an array or at a key that its object does not have.
unfoldable pub inserts : List String → String → List String → Json → Bool
unfolding child
inserts path key [] (arr vs) = not (key == "-")
inserts path key [] (obj fs) = not (is_field key fs)
inserts path key [] _ = false
inserts path key (next ∷ rest) v = elim (child path key v) [
  | ok inner ↦ inserts path next rest inner
  | throw e ↦ false
]

no_field_none : (k : String) (fs : Fields) → not (is_field k fs) ≡ true → get_field k fs ≡ none
no_field_none k fs h = elim (Option-cases (get_field k fs)) [
  | inl missing ↦ missing
  | inr (v, found) ↦ absurd (ground arith)
]

index_within_inside :
    (n most : ℕ)
    → index_within most true n ≤ most
    → (n < 2 ^ 53) × (n ≤ most) × (index_within most true n ≡ n)
index_within_inside n most le = elim (Bool-cases (ltb n (2 ^ 53) && leb n most)) [
  | inl inside ↦ (ground arith, ground arith, ground arith)
  | inr outside ↦ absurd (ground arith)
]

module _ (path : List String) (w : Json) where
  abbrev inserted : Items → ℕ → Outcome PatchError (Json × Json)
  inserted vs m = ok (arr (insert_item vs m w), w)

  insert_at :
      (vs : Items) (m : ℕ) (v' x : Json)
      → (throw_if (ltb (size vs) m) (missing_path path) >> inserted vs m) ≡ ok (v', x)
      → (m ≤ size vs) × (arr (insert_item vs m w) ≡ v')
  insert_at vs m v' x h = elim (Bool-cases (ltb (size vs) m)) [
    | inl beyond ↦ absurd (ground arith)
    | inr inside ↦ (ground arith, ground arith)
  ]

  add_items :
      (key : String) (vs : Items) (v' x : Json)
      → add_at path false w key (arr vs) ≡ ok (v', x)
      → (key == "-") ≡ false
      → (n : ℕ) × (parse_index key ≡ some n)
        × (n < 2 ^ 53)
        × (n ≤ size vs)
        × (arr (insert_item vs n w) ≡ v')
  unfolding add_at parse_array_index
  add_items key vs v' x h named = elim (Option-cases (parse_index key)) [
    | inl missing ↦ absurd (ground arith)
    | inr (n, found) ↦
        let h' : (throw_if (ltb (size vs) (index_within (size vs) true n)) (missing_path path)
              >> inserted vs (index_within (size vs) true n))
            ≡ ok (v', x) =
          rw (named, found) at h in
        let (within, is) = insert_at vs (index_within (size vs) true n) v' x h' in
        let (small, le, same) = index_within_inside n (size vs) within in
        (n, found, small, le, subst (λ m. arr (insert_item vs m w) ≡ v') same is)
  ]

  remove_at_items :
      (key : String) (vs : Items) (n : ℕ)
      → parse_index key ≡ some n
      → n < 2 ^ 53
      → n ≤ size vs
      → remove_at path key (arr (insert_item vs n w)) ≡ ok (arr vs, w)
  unfolding remove_at parse_array_index
  remove_at_items key vs n found small le = rw (
    found,
    size-insert_item vs n w le,
    index_within_lt n (suc (size vs)) false small (omega arith),
    item-insert_item vs n w le,
    insert_item-drop_item vs n w le,
  )

  add_field :
      (key : String) (fs : Fields)
      → add_at path false w key (obj fs) ≡ ok (obj (set_field key w fs), w)
  unfolding add_at
  add_field key fs = refl

  remove_field :
      (key : String) (fs : Fields)
      → get_field key fs ≡ none
      → remove_at path key (obj (set_field key w fs)) ≡ ok (obj fs, w)
  unfolding remove_at
  remove_field key fs missing =
      rw (get_field-set_field key w fs, drop_field-set_field key w fs missing)

  edit_inverse :
      (key : String) (rest : List String) (v v' x : Json)
      → edit_parent path (add_at path false w) key rest v ≡ ok (v', x)
      → inserts path key rest v ≡ true
      → edit_parent path (remove_at path) key rest v' ≡ ok (v, w)
  unfolding edit_parent inserts
  edit_inverse key [] (arr vs) v' x h i =
      let (n, found, small, le, is) = add_items key vs v' x h (ground arith) in
      subst (λ u. remove_at path key u ≡ ok (arr vs, w)) is
        (remove_at_items key vs n found small le)
  edit_inverse key [] (obj fs) v' x h i =
      let together = sym (add_field key fs) ∙ h in
      let is : obj (set_field key w fs) ≡ v' = ground (arith, together) in
      subst (λ u. remove_at path key u ≡ ok (obj fs, w)) is
        (remove_field key fs (no_field_none key fs i))
  edit_inverse key [] null v' x h i = absurd (ground arith)
  edit_inverse key [] (bool b) v' x h i = absurd (ground arith)
  edit_inverse key [] (num n) v' x h i = absurd (ground arith)
  edit_inverse key [] (str s) v' x h i = absurd (ground arith)
  edit_inverse key (next ∷ rest) v v' x h i =
      let (inner, c, h1) = >>=-eq-ok (child path key v) _ h in
      let (changed, e, h2) =
        >>=-eq-ok (edit_parent path (add_at path false w) next rest inner) _ h1 in
      let is : put_child key (changed.0) v ≡ v' = ground arith in
      let same : put_child key inner (put_child key (changed.0) v) ≡ v =
        put_child_twice key v (changed.0) inner ∙ put_child-child path key v inner c in
      subst (λ u. edit_parent path (remove_at path) key (next ∷ rest) u ≡ ok (v, w)) is
        (rw (
          child-put_child path key v (changed.0) inner c,
          edit_inverse next rest inner (changed.0) (changed.1) e (rw (c, inserts) at i),
          same,
        ))

-- A value that is added at an index of an array, or at a key that its object does not have, is
-- taken out by removing the same path, which leaves the document as it was.
pub remove_value-add_value :
    (key : String) (rest : List String) (document changed w : Json)
    → inserts (key ∷ rest) key rest document ≡ true
    → add_value document (key ∷ rest) w false ≡ ok changed
    → remove_value changed (key ∷ rest) ≡ ok (document, w)
unfolding add_value remove_value
remove_value-add_value key rest document changed w new added =
    let path = key ∷ rest in
    let ((v, x), edited, is) =
      >>=-eq-ok (edit_parent path (add_at path false w) key rest document) _ added in
    subst (λ u. edit_parent path (remove_at path) key rest u ≡ ok (document, w)) (ground arith)
      (edit_inverse path w key rest document v x edited new)
