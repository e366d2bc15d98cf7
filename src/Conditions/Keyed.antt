-- ===== src/Conditions/Keyed.antt =====
-- The map from types to conditions in the merge of src/resource-managers/conditions.ts: each
-- condition stands under its own type.
use pi_workflows.Prelude.{
  inr, inl, if◌then◌else◌, ◌==◌, some, refl, false, ◌≡◌, ◌∷◌, none, map, lookup, elem, [], values,
  lookup-insert, keys, insert, find_first, eq_iff, String, Option, List, Bool-cases, Assoc, AreNew,
  All, arith,
}
use pi_workflows.Conditions.{index_conditions, Condition}

-- The last condition of a type.
pub last_of : String → List Condition → Option Condition
last_of t [] = none
last_of t (c ∷ cs) = elim (last_of t cs) [
  | some later ↦ some later
  | none ↦ if c.type == t then some c else none
]

abbrev pub HasOwnKey : String × Condition → Type 0
HasOwnKey p = p.0 ≡ p.1.type

pub record IsKeyed (m : Assoc Condition) : Type 0 where
  pub own : All HasOwnKey m
  pub distinct : AreNew [] (keys m)

own-insert :
    (c : Condition) (m : Assoc Condition) → All HasOwnKey m → All HasOwnKey (insert c.type c m)
unfolding insert
own-insert c [] h = (refl, tt)
own-insert c ((j, w) ∷ m) h = elim (Bool-cases (j == c.type)) [
  | inl same ↦ rw same (((eq_iff j c.type).0 same), h.1)
  | inr other ↦ rw other (h.0, own-insert c m h.1)
]

keys-insert :
    (ids : List String) (k : String) (c : Condition) (m : Assoc Condition)
    → elem k ids ≡ false
    → AreNew ids (keys m)
    → AreNew ids (keys (insert k c m))
unfolding insert keys
keys-insert ids k c [] new h = (new, tt)
keys-insert ids k c ((j, w) ∷ m) new h = elim (Bool-cases (j == k)) [
  | inl same ↦ rw same h
  | inr other ↦ rw other (h.0, keys-insert (j ∷ ids) k c m (ground arith) h.1)
]

pub insert-IsKeyed : (c : Condition) (m : Assoc Condition) → IsKeyed m → IsKeyed (insert c.type c m)
insert-IsKeyed c m h = record {
  own = own-insert c m h.own;
  distinct = keys-insert [] c.type c m refl h.distinct;
}

pub index_conditions-IsKeyed :
    (cs : List Condition) (m : Assoc Condition) → IsKeyed m → IsKeyed (index_conditions cs m)
unfolding index_conditions
index_conditions-IsKeyed [] m h = h
index_conditions-IsKeyed (c ∷ cs) m h =
    index_conditions-IsKeyed cs (insert c.type c m) (insert-IsKeyed c m h)

pub empty-IsKeyed : IsKeyed []
unfolding keys
empty-IsKeyed = record { own = tt; distinct = tt }

types-values : (m : Assoc Condition) → All HasOwnKey m → map Condition.type (values m) ≡ keys m
unfolding values keys
types-values [] h = refl
types-values ((j, c) ∷ m) h = rw (h.0, types-values m h.1) refl

pub values-AreNew : (m : Assoc Condition) → IsKeyed m → AreNew [] (map Condition.type (values m))
values-AreNew m h = rw (types-values m h.own) h.distinct

pub find_first-values :
    (t : String) (m : Assoc Condition)
    → All HasOwnKey m
    → find_first (λ (c : Condition). c.type == t) (values m) ≡ lookup t m
unfolding values lookup
find_first-values t [] h = refl
find_first-values t ((j, c) ∷ m) h = ground (arith, h.0, find_first-values t m h.1)

pub lookup-index_conditions :
    (t : String) (cs : List Condition) (m : Assoc Condition)
    → lookup t (index_conditions cs m)
      ≡ (elim (last_of t cs) [ some c ↦ some c | none ↦ lookup t m ])
unfolding index_conditions last_of
lookup-index_conditions t [] m = refl
lookup-index_conditions t (c ∷ cs) m =
    ground (arith, lookup-index_conditions t cs (insert c.type c m), lookup-insert c.type t c m)
