-- ===== src/Json/Equality.antt =====
-- `isDeepStrictEqual` of node:util on JSON values: the order of an object's keys does not matter,
-- and numbers are compared as `Object.is` does, bit by bit.
use pi_workflows.Prelude.{Option, none, some, Bool, true, false, ◌&&◌, ◌==◌, eqb, ℕ, suc}
use pi_workflows.Json.{
  Json, null, bool, num, str, arr, obj, Items, nil, cons, Fields, end, field, get_field,
}

abbrev same_bool : Bool → Bool → Bool
same_bool true b = b
same_bool false true = false
same_bool false false = true

abbrev field_count : Fields → ℕ
field_count end = 0
field_count (field k v fs) = suc (field_count fs)

unfoldable mutual
  pub deep_equal : Json → Json → Bool
  deep_equal null null = true
  deep_equal (bool a) (bool b) = same_bool a b
  deep_equal (num a) (num b) = eqb a b
  deep_equal (str a) (str b) = a == b
  deep_equal (arr vs) (arr ws) = deep_equal_items vs ws
  deep_equal (obj fs) (obj gs) = eqb (field_count fs) (field_count gs) && deep_equal_fields fs gs
  deep_equal _ _ = false

  pub deep_equal_items : Items → Items → Bool
  deep_equal_items nil nil = true
  deep_equal_items (cons v vs) (cons w ws) = deep_equal v w && deep_equal_items vs ws
  deep_equal_items nil (cons w ws) = false
  deep_equal_items (cons v vs) nil = false

  -- Each field on the left stands on the right too.
  pub deep_equal_fields : Fields → Fields → Bool
  deep_equal_fields end gs = true
  deep_equal_fields (field k v fs) gs =
      elim (get_field k gs) [ none ↦ false | some w ↦ deep_equal v w ] && deep_equal_fields fs gs

unfoldable pub deep_equal? : Option Json → Option Json → Bool
unfolding deep_equal
deep_equal? none none = true
deep_equal? (some v) (some w) = deep_equal v w
deep_equal? none (some w) = false
deep_equal? (some v) none = false
