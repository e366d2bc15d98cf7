-- ===== src/JsonPatch/Undo.antt =====
-- An operation of src/workflows/json-patch.ts against the one that takes it back.
use pi_workflows.Prelude.{
  eqb, not, leb, ◌&&◌, ltb, ◌^◌, ◌<◌, or_throw, Bool-cases, inr, inl, ok, false, or_throw-ok,
  Option-cases, List, Bool, refl, zero, ap, suc, some, none, arith, ◌≤◌, ◌≡◌, ℕ, eq_iff, String,
}
use pi_workflows.Json.{
  null, arr, obj, str, num, bool, parse_index, end, nil, field, cons, get_field, Json, Items,
  Fields,
}
use pi_workflows.JsonPatch.Apply.{
  index_within, child, put_child, parse_array_index, size, item, set_item, set_field, insert_item,
  drop_item, drop_field,
}
use pi_workflows.JsonPatch.{missing_path}

pub insert_item-drop_item :
    (vs : Items) (i : ℕ) (w : Json) → i ≤ size vs → drop_item (insert_item vs i w) i ≡ vs
insert_item-drop_item vs zero w le = refl
insert_item-drop_item nil (suc i) w le = absurd (omega arith)
insert_item-drop_item (cons v vs) (suc i) w le =
    ap (cons v) (insert_item-drop_item vs i w (omega arith))

pub item-insert_item :
    (vs : Items) (i : ℕ) (w : Json) → i ≤ size vs → item (insert_item vs i w) i ≡ some w
item-insert_item vs zero w le = refl
item-insert_item nil (suc i) w le = absurd (omega arith)
item-insert_item (cons v vs) (suc i) w le = item-insert_item vs i w (omega arith)

pub size-insert_item :
    (vs : Items) (i : ℕ) (w : Json) → i ≤ size vs → size (insert_item vs i w) ≡ suc (size vs)
size-insert_item vs zero w le = refl
size-insert_item nil (suc i) w le = absurd (omega arith)
size-insert_item (cons v vs) (suc i) w le = ap suc (size-insert_item vs i w (omega arith))

set_item-item : (vs : Items) (i : ℕ) (w : Json) → item vs i ≡ some w → set_item vs i w ≡ vs
set_item-item nil i w h = refl
set_item-item (cons v vs) zero w h = ground arith
set_item-item (cons v vs) (suc i) w h = ap (cons v) (set_item-item vs i w h)

set_item_twice :
    (vs : Items) (i : ℕ) (v w : Json) → set_item (set_item vs i v) i w ≡ set_item vs i w
set_item_twice nil i v w = refl
set_item_twice (cons x vs) zero v w = refl
set_item_twice (cons x vs) (suc i) v w = ap (cons x) (set_item_twice vs i v w)

item-set_item :
    (vs : Items) (i : ℕ) (v w : Json) → item vs i ≡ some v → item (set_item vs i w) i ≡ some w
item-set_item nil i v w h = absurd (ground arith)
item-set_item (cons x vs) zero v w h = refl
item-set_item (cons x vs) (suc i) v w h = item-set_item vs i v w h

size-set_item : (vs : Items) (i : ℕ) (w : Json) → size (set_item vs i w) ≡ size vs
size-set_item nil i w = refl
size-set_item (cons x vs) zero w = refl
size-set_item (cons x vs) (suc i) w = ap suc (size-set_item vs i w)

pub drop_field-set_field :
    (k : String) (w : Json) (fs : Fields)
    → get_field k fs ≡ none
    → drop_field k (set_field k w fs) ≡ fs
unfolding get_field set_field drop_field
drop_field-set_field k w end h = ground (arith, eq_iff k k)
drop_field-set_field k w (field j v fs) h = ground (arith, drop_field-set_field k w fs, eq_iff j k)

pub get_field-set_field :
    (k : String) (w : Json) (fs : Fields) → get_field k (set_field k w fs) ≡ some w
unfolding get_field set_field
get_field-set_field k w end = ground (arith, eq_iff k k)
get_field-set_field k w (field j v fs) = ground (arith, get_field-set_field k w fs, eq_iff j k)

set_field-get_field :
    (k : String) (w : Json) (fs : Fields) → get_field k fs ≡ some w → set_field k w fs ≡ fs
unfolding get_field set_field
set_field-get_field k w end h = absurd (ground arith)
set_field-get_field k w (field j v fs) h = ground (arith, set_field-get_field k w fs, eq_iff j k)

set_field_twice :
    (k : String) (v w : Json) (fs : Fields) → set_field k w (set_field k v fs) ≡ set_field k w fs
unfolding set_field
set_field_twice k v w end = ground (arith, eq_iff k k)
set_field_twice k v w (field j x fs) = ground (arith, set_field_twice k v w fs, eq_iff j k)

pub item-lt : (vs : Items) (i : ℕ) (u : Json) → item vs i ≡ some u → i < size vs
item-lt nil i u h = absurd (ground arith)
item-lt (cons v vs) zero u h = omega arith
item-lt (cons v vs) (suc i) u h = omega (arith, item-lt vs i u h)

item-index_within :
    (vs : Items) (n : ℕ) (u : Json)
    → item vs (index_within (size vs) false n) ≡ some u
    → (n < 2 ^ 53) × (item vs n ≡ some u)
item-index_within vs n u h =
    let lt = item-lt vs (index_within (size vs) false n) u h in
    elim (Bool-cases (ltb n (2 ^ 53) && leb n (size vs) && not (eqb n (size vs)))) [
      | inl inside ↦ (ground arith, ground arith)
      | inr outside ↦ absurd (ground arith)
    ]

pub index_within_lt : (n most : ℕ) (e : Bool) → n < 2 ^ 53 → n < most → index_within most e n ≡ n
index_within_lt n most e small lt = ground arith

module _ (path : List String) where
  child_field :
      (key : String) (fs : Fields) (w : Json) → child path key (obj (set_field key w fs)) ≡ ok w
  unfolding child
  child_field key fs w = ap (or_throw (missing_path path)) (get_field-set_field key w fs)

  child_items :
      (key : String) (vs : Items) (u : Json)
      → child path key (arr vs) ≡ ok u
      → (n : ℕ) × (parse_index key ≡ some n) × (n < 2 ^ 53) × (item vs n ≡ some u)
  unfolding child parse_array_index
  child_items key vs u h = elim (Option-cases (parse_index key)) [
    | inl missing ↦ absurd (ground arith)
    | inr (n, found) ↦
        let h' : or_throw (missing_path path) (item vs (index_within (size vs) false n)) ≡ ok u =
          rw found at h in
        let (small, at) = item-index_within vs n u (or_throw-ok (missing_path path) _ h') in
        (n, found, small, at)
  ]

  child_at :
      (key : String) (vs : Items) (n : ℕ) (u : Json)
      → parse_index key ≡ some n
      → n < 2 ^ 53
      → item vs n ≡ some u
      → child path key (arr vs) ≡ ok u
  unfolding child parse_array_index
  child_at key vs n u found small at =
      rw (found, index_within_lt n (size vs) false small (item-lt vs n u at), at)

  pub child-put_child :
      (key : String) (v w u : Json)
      → child path key v ≡ ok u
      → child path key (put_child key w v) ≡ ok w
  unfolding put_child child
  child-put_child key (arr vs) w u h =
      let (n, found, small, at) = child_items key vs u h in
      rw (found, put_child)
        (child_at key (set_item vs n w) n w found small (item-set_item vs n u w at))
  child-put_child key (obj fs) w u h = child_field key fs w
  child-put_child key null w u h = absurd (ground arith)
  child-put_child key (bool b) w u h = absurd (ground arith)
  child-put_child key (num n) w u h = absurd (ground arith)
  child-put_child key (str s) w u h = absurd (ground arith)

  pub put_child-child :
      (key : String) (v u : Json) → child path key v ≡ ok u → put_child key u v ≡ v
  unfolding put_child child
  put_child-child key (arr vs) u h =
      let (n, found, small, at) = child_items key vs u h in
      rw (found, put_child) (ap arr (set_item-item vs n u at))
  put_child-child key (obj fs) u h =
      ap obj (set_field-get_field key u fs (or_throw-ok (missing_path path) (get_field key fs) h))
  put_child-child key null u h = absurd (ground arith)
  put_child-child key (bool b) u h = absurd (ground arith)
  put_child-child key (num n) u h = absurd (ground arith)
  put_child-child key (str s) u h = absurd (ground arith)

pub put_child_twice :
    (key : String) (v u w : Json) → put_child key w (put_child key u v) ≡ put_child key w v
unfolding put_child
put_child_twice key (arr vs) u w = elim (Option-cases (parse_index key)) [
  | inl missing ↦ rw (missing, put_child, missing)
  | inr (i, found) ↦ rw (found, put_child, found) (ap arr (set_item_twice vs i u w))
]
put_child_twice key (obj fs) u w = ap obj (set_field_twice key u w fs)
put_child_twice key null u w = refl
put_child_twice key (bool b) u w = refl
put_child_twice key (num n) u w = refl
put_child_twice key (str s) u w = refl
