-- ===== src/Json/Canonical.antt =====
-- normalizeJson of src/state/json.ts. The order of an object's keys is left as it is, since texts
-- are only compared here, and the comparison of Json/Equality does not read it.
use pi_workflows.Json.{
  is_finite, Json, null, bool, num, str, arr, obj, Items, nil, cons, Fields, end, field,
}
use pi_workflows.Prelude.{throw, eqb, ok, if◌then◌else◌, ℕ, Outcome, ◌>>=◌}

pub data JsonError : Type 0 where
  not_finite : JsonError

-- -0 becomes 0; a number is the bit pattern of its double.
abbrev pub plain_zero : ℕ → ℕ
plain_zero n = if eqb n 0x8000000000000000 then 0 else n

unfoldable mutual
  unfolding is_finite

  pub normalize_json : Json → Outcome JsonError Json
  normalize_json null = ok null
  normalize_json (bool b) = ok (bool b)
  normalize_json (num n) = if is_finite n then ok (num (plain_zero n)) else throw not_finite
  normalize_json (str s) = ok (str s)
  normalize_json (arr vs) = normalize_items vs >>= λ ws. ok (arr ws)
  normalize_json (obj fs) = normalize_fields fs >>= λ gs. ok (obj gs)

  pub normalize_items : Items → Outcome JsonError Items
  normalize_items nil = ok nil
  normalize_items (cons v vs) =
      normalize_json v >>= λ w. normalize_items vs >>= λ ws. ok (cons w ws)

  pub normalize_fields : Fields → Outcome JsonError Fields
  normalize_fields end = ok end
  normalize_fields (field k v fs) =
      normalize_json v >>= λ w. normalize_fields fs >>= λ gs. ok (field k w gs)
