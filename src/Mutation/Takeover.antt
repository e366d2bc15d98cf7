-- ===== src/Mutation/Takeover.antt =====
-- A claim of src/state/mutation.ts that another one follows, or that is released.
use pi_workflows.Mutation.{
  require_current_lease, owner_matches, is_current, ResourceType, Owner, LeaseRow, Store,
  LeaseClaim, Resource, no_lease_row, bad_duration, changed_before_claim, changed_before_release,
}
use pi_workflows.Mutation.Calls.{
  logged, release_row, release, actor_of, granted, StoreReaches, claim, is_held, claim_row,
  ClaimRequest,
}
use pi_workflows.Mutation.Forward.{ok-pair, StoreReaches-LaterAt, LaterAt, at_resource-ok}
use pi_workflows.Mutation.Later.{require_current_lease-ok, generation_at}
use pi_workflows.Prelude.{
  true, Bool, refl, none, sym, false, ap, ◌≤◌, ◌∙◌, ◌<◌, Option, inr, inl, arith, not, eqb, ◌+◌,
  lookup, some, ok, ◌≡◌, ℕ, throw_if, or_throw-ok, or_throw, lookup-insert, eq_iff, String,
  Bool-cases, >>=-eq-ok, >>-eq-ok,
}
use pi_workflows.Mutation.Fence.{
  lease_is_claims, Refused, IsLost-StoreReaches, IsLost-Refused, IsLost,
}
use mathlib.Core.Path.{subst}

module _ (token_hash : String → String) where
  granted-generation :
      (q : ClaimRequest) (token : String) (now : ℕ) (r r' : Resource) (c : LeaseClaim)
      → claim_row token_hash q token now r ≡ ok (some c, r')
      → (c.resource_id ≡ q.resource_id)
        × (generation_at r.lease + 1 ≡ c.generation)
        × (generation_at r'.lease ≡ c.generation)
  unfolding claim_row
  granted-generation q token now r r' c h =
      let (fresh, h1) =
        >>-eq-ok (throw_if (not (eqb r.revision q.expected_revision)) changed_before_claim) _ h in
      let (l, found, h2) = >>=-eq-ok (or_throw no_lease_row r.lease) _ h1 in
      let has_row = or_throw-ok no_lease_row r.lease found in
      elim (Bool-cases (is_held l.owner now)) [
        | inl held ↦ absurd (ground (arith, h2))
        | inr free ↦
            let (is_c, is_r) =
              ok-pair (some (granted token_hash q token now l r).0) (some c)
                (granted token_hash q token now l r).1 r' (rw free at h2) in
            (
              ground (arith, is_c),
              rw has_row (ground (arith, is_c)),
              ground (arith, is_c, ap (λ (x : Resource). generation_at x.lease) is_r),
            )
      ]

  newer_lost :
      (c : LeaseClaim) (r : Resource)
      → c.generation < generation_at r.lease
      → lease_is_claims token_hash c r.lease ≡ false
  unfolding is_current
  newer_lost c r newer = by_lease r.lease newer
    where
      by_owner :
          (g : ℕ) (o : Option Owner)
          → c.generation < g
          → owner_matches token_hash c 0 false g o ≡ false
      by_owner g none h = refl
      by_owner g (some o) h = ground arith

      by_lease :
          (l : Option LeaseRow)
          → c.generation < generation_at l
          → lease_is_claims token_hash c l ≡ false
      by_lease none h = refl
      by_lease (some l) h = by_owner l.generation l.owner h

  current-generation :
      (c : LeaseClaim) (now : ℕ) (strict : Bool) (g : ℕ) (o : Option Owner)
      → owner_matches token_hash c now strict g o ≡ true
      → g ≡ c.generation
  current-generation c now strict g none h = absurd (ground arith)
  current-generation c now strict g (some o) h = ground arith

  -- A released lease has no owner, under the same generation.
  released_row :
      (c : LeaseClaim) (expected now : ℕ) (r r' : Resource) (n : ℕ)
      → release_row token_hash c expected now r ≡ ok (n, r')
      → (c.generation ≤ generation_at r'.lease) × (lease_is_claims token_hash c r'.lease ≡ false)
  unfolding release_row is_current
  released_row c expected now r r' n h =
      let (fresh, h1) =
        >>-eq-ok (throw_if (not (eqb r.revision expected)) changed_before_release) _ h in
      let (l, found, h2) = >>=-eq-ok (require_current_lease token_hash c now false r) _ h1 in
      let current = (require_current_lease-ok token_hash c now false r l found).1 in
      let same : l.generation ≡ c.generation =
        current-generation c now false l.generation l.owner current in
      let after : Resource =
        logged "lease.released" (actor_of c) (some c.generation) none now
          (record r { lease = some (record l { owner = none }) }) in
      subst
        (λ (x : Resource).
          (c.generation ≤ generation_at x.lease) × (lease_is_claims token_hash c x.lease ≡ false))
        ((ok-pair (r.revision + 1) n after r' h2).1) (omega (arith, same), refl)

  module _ {D : Type 0} where
    claim-granted :
        (q : ClaimRequest) (token : String) (now : ℕ) (u v : Store D) (c : LeaseClaim)
        → claim token_hash q token now u ≡ ok (some c, v)
        → (c.resource_id ≡ q.resource_id)
          × (r r' : Resource) × (lookup q.resource_id u.resources ≡ some r)
          × (lookup q.resource_id v.resources ≡ some r')
          × (generation_at r.lease + 1 ≡ c.generation)
          × (generation_at r'.lease ≡ c.generation)
    unfolding claim
    claim-granted q token now u v c h =
        let (lasting, h1) = >>-eq-ok (throw_if (eqb q.lease_ms 0) bad_duration) _ h in
        let (r, r', found, ran, done) =
          at_resource-ok q.resource_id (claim_row token_hash q token now) u v (some c) h1 in
        let (id, before, after) = granted-generation q token now r r' c ran in
        (
          id,
          r,
          r',
          found,
          ground (
            arith,
            done,
            lookup-insert q.resource_id q.resource_id r' u.resources,
            eq_iff q.resource_id q.resource_id,
          ),
          before,
          after,
        )

  module _ {D : Type 0} (id_for : ResourceType → String → String) where
    granted-before :
        (q : ClaimRequest) (token : String) (now : ℕ) (u v w : Store D) (c : LeaseClaim)
        → claim token_hash q token now u ≡ ok (some c, v)
        → StoreReaches id_for token_hash v w
        → (r : Resource) × (lookup c.resource_id w.resources ≡ some r)
          × (c.generation ≤ generation_at r.lease)
    unfolding LaterAt
    granted-before q token now u v w c h path =
        let (id, r, r', found, found', before, after) = claim-granted q token now u v c h in
        let at_c : LaterAt c.resource_id v w =
          StoreReaches-LaterAt id_for token_hash c.resource_id path in
        let (r2, found2, later) = at_c r' (ground (arith, found', id)) in
        (r2, found2, omega (arith, after, later.generation))

    -- A later claim's generation is another one.
    claim-IsLost :
        (c : LeaseClaim) (q : ClaimRequest) (token : String) (now : ℕ) (u v : Store D)
        (d : LeaseClaim)
        → (r : Resource) × (lookup c.resource_id u.resources ≡ some r)
          × (c.generation ≤ generation_at r.lease)
        → q.resource_id ≡ c.resource_id
        → claim token_hash q token now u ≡ ok (some d, v)
        → IsLost token_hash id_for c v
    claim-IsLost c q token now u v d (x, at_x, old) same h =
        let (id, r, r', found, found', before, after) = claim-granted q token now u v d h in
        let eq : r ≡ x = ground (arith, found, at_x, same) in
        let grown : generation_at x.lease + 1 ≡ d.generation =
          subst (λ y. generation_at y.lease + 1 ≡ d.generation) eq before in
        (
          r',
          ground (arith, found', same),
          omega (arith, old, grown, after),
          newer_lost c r' (omega (arith, old, grown, after)),
        )

    -- Once the store has granted a lease on a resource again, the earlier grant is worth nothing:
    -- whatever operations ran between the two and whatever run later, no renewal, release or
    -- mutation with the earlier claim succeeds, at any time and with any expected revision.
    pub takeover_fences :
        (q1 q2 : ClaimRequest) (token1 token2 : String) (now1 now2 : ℕ) (u1 v1 u2 v2 w : Store D)
        (c1 c2 : LeaseClaim)
        → claim token_hash q1 token1 now1 u1 ≡ ok (some c1, v1)
        → StoreReaches id_for token_hash v1 u2
        → q2.resource_id ≡ q1.resource_id
        → claim token_hash q2 token2 now2 u2 ≡ ok (some c2, v2)
        → StoreReaches id_for token_hash v2 w
        → Refused token_hash id_for c1 w
    takeover_fences q1 q2 token1 token2 now1 now2 u1 v1 u2 v2 w c1 c2 first between same second
          later =
        let id = (claim-granted q1 token1 now1 u1 v1 c1 first).0 in
        let lost : IsLost token_hash id_for c1 v2 =
          claim-IsLost c1 q2 token2 now2 u2 v2 c2
            (granted-before q1 token1 now1 u1 v1 u2 c1 first between) (same ∙ sym id) second in
        IsLost-Refused token_hash id_for c1 w
          (IsLost-StoreReaches token_hash id_for c1 v2 w later lost)

    -- Once a lease has been released, the claim is worth nothing: whatever operations run later, no
    -- renewal, release or mutation with it succeeds, at any time and with any expected revision.
    pub release_fences :
        (c : LeaseClaim) (expected now : ℕ) (u v w : Store D) (n : ℕ)
        → release token_hash c expected now u ≡ ok (n, v)
        → StoreReaches id_for token_hash v w
        → Refused token_hash id_for c w
    unfolding release
    release_fences c expected now u v w n h later =
        let (r, r', found, ran, done) =
          at_resource-ok c.resource_id (release_row token_hash c expected now) u v n h in
        let (old, lost) = released_row c expected now r r' n ran in
        let at_v : lookup c.resource_id v.resources ≡ some r' = ground (
          arith,
          done,
          lookup-insert c.resource_id c.resource_id r' u.resources,
          eq_iff c.resource_id c.resource_id,
        ) in
        IsLost-Refused token_hash id_for c w
          (IsLost-StoreReaches token_hash id_for c v w later (r', at_v, old, lost))
