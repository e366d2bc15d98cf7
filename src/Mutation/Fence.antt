-- ===== src/Mutation/Fence.antt =====
-- Lost leases under the operations of src/state/mutation.ts.
use pi_workflows.Mutation.{
  WritePermit, MutationError, require_current_lease, ResourceType, owner_matches, Owner, is_current,
  Store, LeaseRow, LeaseClaim, Resource, changed_before_renewal, changed_before_release,
  changed_before_mutation, lease_of_other_resource,
}
use pi_workflows.Mutation.Later.{
  require_current_lease-ok, owner_at, SameOwner, generation_at, Later,
}
use pi_workflows.Prelude.{
  ◌==◌, eq_iff, eqb, not, throw_if, Outcome, >>=-eq-ok, >>-eq-ok, ok, ltb, Bool-cases, refl, arith,
  inr, none, inl, true, some, ◌≤◌, ◌≡◌, lookup, false, ℕ, String, Option, Bool,
}
use pi_workflows.Mutation.Calls.{
  check_permit_lease, mutate, renew_row, renew, release_row, release, check_permit, StoreReaches,
}
use pi_workflows.Mutation.Forward.{mutate-ok, at_resource-ok, StoreReaches-LaterAt, LaterAt}
use pi_workflows.Json.{Json}
use mathlib.Core.Path.{subst}

module _ (token_hash : String → String) where
  -- The lease of the claim's resource is the claim's, expired or not.
  abbrev pub lease_is_claims : LeaseClaim → Option LeaseRow → Bool
  lease_is_claims c none = false
  lease_is_claims c (some l) = is_current token_hash c 0 false l

  abbrev pub row_is_claims : LeaseClaim → Option Resource → Bool
  row_is_claims c none = false
  row_is_claims c (some r) = lease_is_claims c r.lease

  unfoldable pub holds_lease : {D : Type 0} → LeaseClaim → Store D → Bool
  holds_lease c s = row_is_claims c (lookup c.resource_id s.resources)

  current_is_claims :
      (c : LeaseClaim) (now : ℕ) (strict : Bool) (l : LeaseRow)
      → is_current token_hash c now strict l ≡ true
      → is_current token_hash c 0 false l ≡ true
  unfolding is_current
  current_is_claims c now strict l h = by_owner l.owner h
    where
      by_owner :
          (o : Option Owner)
          → owner_matches token_hash c now strict l.generation o ≡ true
          → owner_matches token_hash c 0 false l.generation o ≡ true
      by_owner none h = h
      by_owner (some o) h = ground arith

  owner_lost :
      (c : LeaseClaim) (g g' : ℕ) (o o' : Option Owner)
      → c.generation ≤ g
      → g ≤ g'
      → (g' ≡ g → SameOwner o o')
      → owner_matches token_hash c 0 false g o ≡ false
      → owner_matches token_hash c 0 false g' o' ≡ false
  owner_lost c g g' o none p q same lost = refl
  owner_lost c g g' none (some x) p q same lost = elim (Bool-cases (ltb g g')) [
    | inl more ↦ ground arith
    | inr equal ↦ absurd (same (ground (arith, q)))
  ]
  owner_lost c g g' (some y) (some x) p q same lost = elim (Bool-cases (ltb g g')) [
    | inl more ↦ ground arith
    | inr equal ↦ ground (arith, same (ground (arith, q)))
  ]

  lost-Later :
      (c : LeaseClaim) (r r' : Resource)
      → Later r r'
      → c.generation ≤ generation_at r.lease
      → lease_is_claims c r.lease ≡ false
      → lease_is_claims c r'.lease ≡ false
  unfolding is_current
  lost-Later c r r' later old lost = by_lease r.lease r'.lease old later.generation later.owner lost
    where
      by_lease :
          (l l' : Option LeaseRow)
          → c.generation ≤ generation_at l
          → generation_at l ≤ generation_at l'
          → (generation_at l' ≡ generation_at l → SameOwner (owner_at l) (owner_at l'))
          → lease_is_claims c l ≡ false
          → lease_is_claims c l' ≡ false
      by_lease l none p q same lost = refl
      by_lease none (some m) p q same lost = owner_lost c 0 m.generation none m.owner p q same refl
      by_lease (some l) (some m) p q same lost =
          owner_lost c l.generation m.generation l.owner m.owner p q same lost

  lost_refused :
      (c : LeaseClaim) (now : ℕ) (strict : Bool) (r : Resource) (l : LeaseRow)
      → lease_is_claims c r.lease ≡ false
      → ¬ (require_current_lease token_hash c now strict r ≡ ok l)
  lost_refused c now strict r l lost h =
      let (has_row, current) = require_current_lease-ok token_hash c now strict r l h in
      let held = current_is_claims c now strict l current in
      ground (arith, subst (λ m. lease_is_claims c m ≡ false) has_row lost, held)

  permit_refused :
      (c : LeaseClaim) (p : WritePermit) (now : ℕ) (r : Resource)
      → p.lease ≡ some c
      → lease_is_claims c r.lease ≡ false
      → ¬ (check_permit token_hash p now r ≡ ok tt)
  unfolding check_permit
  permit_refused c p now r with_c lost h =
      let (fresh, h1) =
        >>-eq-ok (throw_if (not (eqb r.revision p.expected_revision)) changed_before_mutation) _
          h in
      let h2 = subst (λ l. check_permit_lease token_hash p now r l ≡ ok tt) with_c h1 in
      let (mine, h3) =
        >>-eq-ok (throw_if (not (c.resource_id == p.resource_id)) lease_of_other_resource) _ h2 in
      let (l, current, h4) = >>=-eq-ok (require_current_lease token_hash c now true r) _ h3 in
      lost_refused c now true r l lost current

  -- A lease of another resource is no permit.
  permit_resource :
      (c : LeaseClaim) (p : WritePermit) (now : ℕ) (r : Resource)
      → p.lease ≡ some c
      → check_permit token_hash p now r ≡ ok tt
      → c.resource_id ≡ p.resource_id
  unfolding check_permit
  permit_resource c p now r with_c h =
      let (fresh, h1) =
        >>-eq-ok (throw_if (not (eqb r.revision p.expected_revision)) changed_before_mutation) _
          h in
      let h2 = subst (λ l. check_permit_lease token_hash p now r l ≡ ok tt) with_c h1 in
      let (mine, h3) =
        >>-eq-ok (throw_if (not (c.resource_id == p.resource_id)) lease_of_other_resource) _ h2 in
      ground (arith, mine, eq_iff c.resource_id p.resource_id)

  module _ {D : Type 0} (id_for : ResourceType → String → String) where
    -- A claim that the store has granted, whose lease is no longer its own.
    abbrev pub IsLost : LeaseClaim → Store D → Type 0
    IsLost c s =
        (r : Resource) × (lookup c.resource_id s.resources ≡ some r)
        × (c.generation ≤ generation_at r.lease)
        × (lease_is_claims c r.lease ≡ false)

    pub IsLost-StoreReaches :
        (c : LeaseClaim) (s u : Store D)
        → StoreReaches id_for token_hash s u
        → IsLost c s
        → IsLost c u
    unfolding LaterAt
    IsLost-StoreReaches c s u path (r, found, old, lost) =
        let at_c : LaterAt c.resource_id s u =
          StoreReaches-LaterAt id_for token_hash c.resource_id path in
        let (r', found', later) = at_c r found in
        (r', found', omega (arith, old, later.generation), lost-Later c r r' later old lost)

    -- No operation accepts the claim.
    pub record Refused (c : LeaseClaim) (s : Store D) : Type 1 where
      pub renewal :
          (expected lease_ms now : ℕ) (result : LeaseClaim × Store D)
          → ¬ (renew token_hash c expected lease_ms now s ≡ ok result)
      pub release :
          (expected now : ℕ) (result : ℕ × Store D)
          → ¬ (release token_hash c expected now s ≡ ok result)
      pub mutation :
          (A : Type 0) (p : WritePermit) (type : String)
          (write : (next_revision now : ℕ) → Store D → Outcome MutationError (A × Store D))
          (payload : Option Json) (now : ℕ) (result : (A × ℕ) × Store D)
          → p.lease ≡ some c
          → ¬ (mutate token_hash p type write payload now s ≡ ok result)

    renewal_refused :
        (c : LeaseClaim) (s : Store D) (expected lease_ms now : ℕ) (result : LeaseClaim × Store D)
        → IsLost c s
        → ¬ (renew token_hash c expected lease_ms now s ≡ ok result)
    unfolding renew renew_row
    renewal_refused c s expected lease_ms now result (r, found, old, lost) h =
        let (x, x', same, ran, put_back) =
          at_resource-ok c.resource_id (renew_row token_hash c expected lease_ms now) s result.1
            result.0 h in
        let (fresh, h1) =
          >>-eq-ok (throw_if (not (eqb x.revision expected)) changed_before_renewal) _ ran in
        let (l, current, h2) = >>=-eq-ok (require_current_lease token_hash c now true x) _ h1 in
        let eq : r ≡ x = ground (arith, found, same) in
        lost_refused c now true x l (subst (λ y. lease_is_claims c y.lease ≡ false) eq lost) current

    release_refused :
        (c : LeaseClaim) (s : Store D) (expected now : ℕ) (result : ℕ × Store D)
        → IsLost c s
        → ¬ (release token_hash c expected now s ≡ ok result)
    unfolding release release_row
    release_refused c s expected now result (r, found, old, lost) h =
        let (x, x', same, ran, put_back) =
          at_resource-ok c.resource_id (release_row token_hash c expected now) s result.1 result.0
            h in
        let (fresh, h1) =
          >>-eq-ok (throw_if (not (eqb x.revision expected)) changed_before_release) _ ran in
        let (l, current, h2) = >>=-eq-ok (require_current_lease token_hash c now false x) _ h1 in
        let eq : r ≡ x = ground (arith, found, same) in
        lost_refused c now false x l (subst (λ y. lease_is_claims c y.lease ≡ false) eq lost)
          current

    mutation_refused :
        {A : Type 0} (c : LeaseClaim) (s : Store D) (p : WritePermit) (type : String)
        (write : (next_revision now : ℕ) → Store D → Outcome MutationError (A × Store D))
        (payload : Option Json) (now : ℕ) (result : (A × ℕ) × Store D)
        → IsLost c s
        → p.lease ≡ some c
        → ¬ (mutate token_hash p type write payload now s ≡ ok result)
    mutation_refused c s p type write payload now result (r, found, old, lost) with_c h =
        let (
          x, current, row, value, written, n, same, checked, ran, still, recorded, returned, done,
        ) =
          mutate-ok token_hash p type write payload now s result.1 result.0 h in
        let ids = permit_resource c p now x with_c checked in
        let eq : r ≡ x = ground (arith, found, same, ids) in
        permit_refused c p now x with_c (subst (λ y. lease_is_claims c y.lease ≡ false) eq lost)
          checked

    -- A lost lease is refused everywhere.
    pub IsLost-Refused : (c : LeaseClaim) (s : Store D) → IsLost c s → Refused c s
    IsLost-Refused c s lost = record {
      renewal =
          (λ expected lease_ms now result. renewal_refused c s expected lease_ms now result lost);
      release = (λ expected now result. release_refused c s expected now result lost);
      mutation = (λ A p type write payload now result with_c.
          mutation_refused {A = A} c s p type write payload now result lost with_c);
    }
