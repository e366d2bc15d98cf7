-- ===== src/Prelude/Maps.antt =====
-- A `Map` or a record with text keys: an association list in the order of insertion.
use Prim.Native.String.{String}
use mathlib.Core.Path.{◌≡◌, refl}
use mathlib.Core.Bool.{Bool, true, false, ◌||◌}
use mathlib.Core.Option.{Option, none, some}
use mathlib.Core.List.{List, [], ◌∷◌}
use native.Mathlib.Omega.{arith}
use text.Mathlib.Text.{◌==◌}
use text.Mathlib.TextEquality.{eq_iff}
use pi_workflows.Prelude.Tests.{if◌then◌else◌}

abbrev pub Assoc {ℓ} : Type ℓ → Type ℓ
Assoc V = List (String × V)

module _ {ℓ} {V : Type ℓ} where
  unfoldable pub lookup : String → Assoc V → Option V
  lookup name [] = none
  lookup name ((j, v) ∷ others) =
      let later = lookup name others in if j == name then some v else later

  -- `Object.hasOwn(m, k)` and `map.has(k)`.
  unfoldable pub has : String → Assoc V → Bool
  has k [] = false
  has k ((j, v) ∷ m) = (j == k) || has k m

  -- `map.set(k, v)`: an old key keeps its place.
  unfoldable pub insert : String → V → Assoc V → Assoc V
  insert name value [] = (name, value) ∷ []
  insert name value ((j, w) ∷ others) =
      let later = insert name value others in
      if j == name then (j, value) ∷ others else (j, w) ∷ later

  -- `map.delete(k)`.
  unfoldable pub remove : String → Assoc V → Assoc V
  remove name [] = []
  remove name ((j, w) ∷ others) =
      let kept = remove name others in if j == name then kept else (j, w) ∷ kept

  unfoldable pub keys : Assoc V → List String
  keys [] = []
  keys ((j, v) ∷ m) = j ∷ keys m

  unfoldable pub values : Assoc V → List V
  values [] = []
  values ((j, v) ∷ m) = v ∷ values m

  pub has-lookup :
      (name : String) (m : Assoc V) (v : V) → lookup name m ≡ some v → has name m ≡ true
  unfolding lookup has
  has-lookup name [] v h = absurd (ground arith)
  has-lookup name ((j, w) ∷ m) v h = ground (arith, has-lookup name m v)

  pub lookup-insert :
      (key wanted : String) (value : V) (m : Assoc V)
      → lookup wanted (insert key value m) ≡ (if key == wanted then some value else lookup wanted m)
  unfolding insert lookup
  lookup-insert key wanted value [] = refl
  lookup-insert key wanted value ((i, w) ∷ m) =
      ground
        (arith, lookup-insert key wanted value m, eq_iff key wanted, eq_iff i key, eq_iff i wanted)

  pub lookup-remove :
      (key wanted : String) (m : Assoc V)
      → lookup wanted (remove key m) ≡ (if key == wanted then none else lookup wanted m)
  unfolding lookup remove
  lookup-remove key wanted [] = ground arith
  lookup-remove key wanted ((i, w) ∷ m) =
      ground (arith, eq_iff i key, lookup-remove key wanted m, eq_iff key wanted, eq_iff i wanted)

  pub has-insert :
      (k j : String) (v : V) (m : Assoc V)
      → has j (insert k v m) ≡ (if k == j then true else has j m)
  unfolding has insert
  has-insert k j v [] = ground arith
  has-insert k j v ((i, w) ∷ m) =
      ground (arith, eq_iff k j, eq_iff i k, eq_iff i j, has-insert k j v m)

pub ruleset map_laws = (lookup-insert, lookup-remove, has-insert)
