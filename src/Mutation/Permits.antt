-- ===== src/Mutation/Permits.antt =====
-- What a mutation of src/state/mutation.ts asks, and what it writes.
use pi_workflows.Mutation.{
  ResourceType, WritePermit, Store, MutationError, LeaseClaim, Resource, changed_before_claim,
  changed_before_renewal, changed_before_release, changed_before_mutation, changed_during_mutation,
}
use pi_workflows.Json.{Json}
use pi_workflows.Mutation.Calls.{
  logged, renew_row, release_row, record_write, generation_of_lease, claim_row, check_permit,
  StoreReaches, mutate, release, renew, claim, require_resource, at_resource, ClaimRequest,
}
use pi_workflows.Prelude.{
  ap, not, ◌+◌, ok, arith, ◌<◌, throw_if, lookup-insert, eq_iff, >>-eq-ok, refl, throw, false, some,
  eqb, ◌≡◌, lookup, ℕ, String, Outcome, Option,
}
use pi_workflows.Mutation.Forward.{ok-pair, mutate-ok, StoreReaches-LaterAt, LaterAt}

module _ (token_hash : String → String) where
  claim_passed :
      (q : ClaimRequest) (token : String) (now : ℕ) (r : Resource)
      → q.expected_revision < r.revision
      → claim_row token_hash q token now r ≡ throw changed_before_claim
  unfolding claim_row
  claim_passed q token now r passed =
      let differs : eqb r.revision q.expected_revision ≡ false = ground arith in rw differs refl

  renew_passed :
      (c : LeaseClaim) (revision lease_ms now : ℕ) (r : Resource)
      → revision < r.revision
      → renew_row token_hash c revision lease_ms now r ≡ throw changed_before_renewal
  unfolding renew_row
  renew_passed c revision lease_ms now r passed =
      let differs : eqb r.revision revision ≡ false = ground arith in rw differs refl

  release_passed :
      (c : LeaseClaim) (revision now : ℕ) (r : Resource)
      → revision < r.revision
      → release_row token_hash c revision now r ≡ throw changed_before_release
  unfolding release_row
  release_passed c revision now r passed =
      let differs : eqb r.revision revision ≡ false = ground arith in rw differs refl

-- Every operation that expects this revision of the resource throws that it is stale.
module _ (token_hash : String → String) {D : Type 0} where
  pub record Stale (id : String) (revision : ℕ) (s : Store D) : Type 1 where
    pub of_claim :
        (q : ClaimRequest) (token : String) (now : ℕ)
        → q.resource_id ≡ id
        → q.expected_revision ≡ revision
        → eqb q.lease_ms 0 ≡ false
        → claim token_hash q token now s ≡ throw changed_before_claim
    pub of_renewal :
        (c : LeaseClaim) (lease_ms now : ℕ)
        → c.resource_id ≡ id
        → renew token_hash c revision lease_ms now s ≡ throw changed_before_renewal
    pub of_release :
        (c : LeaseClaim) (now : ℕ)
        → c.resource_id ≡ id
        → release token_hash c revision now s ≡ throw changed_before_release
    pub of_mutation :
        (A : Type 0) (p : WritePermit) (type : String)
        (write : (next_revision now : ℕ) → Store D → Outcome MutationError (A × Store D))
        (payload : Option Json) (now : ℕ)
        → p.resource_id ≡ id
        → p.expected_revision ≡ revision
        → mutate token_hash p type write payload now s ≡ throw changed_before_mutation

  at_resource-found :
      {A : Type 0} (id : String) (f : Resource → Outcome MutationError (A × Resource)) (s : Store D)
      (r : Resource) (e : MutationError)
      → lookup id s.resources ≡ some r
      → f r ≡ throw e
      → at_resource id f s ≡ throw e
  unfolding at_resource require_resource
  at_resource-found id f s r e found failed = rw (found, failed) refl

  mutate_passed :
      {A : Type 0} (p : WritePermit) (type : String)
      (write : (next_revision now : ℕ) → Store D → Outcome MutationError (A × Store D))
      (payload : Option Json) (now : ℕ) (s : Store D) (r : Resource)
      → lookup p.resource_id s.resources ≡ some r
      → p.expected_revision < r.revision
      → mutate token_hash p type write payload now s ≡ throw changed_before_mutation
  unfolding mutate require_resource check_permit
  mutate_passed p type write payload now s r found passed =
      let differs : eqb r.revision p.expected_revision ≡ false = ground arith in
      rw (found, differs) refl

  passed-Stale :
      (id : String) (revision : ℕ) (s : Store D) (r : Resource)
      → lookup id s.resources ≡ some r
      → revision < r.revision
      → Stale id revision s
  unfolding claim renew release mutate require_resource
  passed-Stale id revision s r found passed = record {
    of_claim = (λ q token now same expected lasting. rw lasting (
        at_resource-found q.resource_id (claim_row token_hash q token now) s r changed_before_claim
          (ground (arith, found, same))
          (claim_passed token_hash q token now r (omega (arith, expected, passed)))));
    of_renewal = (λ c lease_ms now same.
        at_resource-found c.resource_id (renew_row token_hash c revision lease_ms now) s r
          changed_before_renewal (ground (arith, found, same))
          (renew_passed token_hash c revision lease_ms now r passed));
    of_release = (λ c now same.
        at_resource-found c.resource_id (release_row token_hash c revision now) s r
          changed_before_release (ground (arith, found, same))
          (release_passed token_hash c revision now r passed));
    of_mutation = (λ A p type write payload now same expected.
        mutate_passed p type write payload now s r (ground (arith, found, same))
          (omega (arith, expected, passed)));
  }

  mutated_row :
      {A : Type 0} (p : WritePermit) (type : String)
      (write : (next_revision now : ℕ) → Store D → Outcome MutationError (A × Store D))
      (payload : Option Json) (now : ℕ) (s v : Store D) (result : A × ℕ)
      → mutate token_hash p type write payload now s ≡ ok (result, v)
      → (row : Resource) × (lookup p.resource_id v.resources ≡ some row)
        × (row.revision ≡ p.expected_revision + 1)
  unfolding check_permit record_write
  mutated_row p type write payload now s v result h =
      let (
        r, current, row, value, written, n, found, checked, ran, still, recorded, returned, done,
      ) =
        mutate-ok token_hash p type write payload now s v result h in
      let (expected, h1) =
        >>-eq-ok (throw_if (not (eqb r.revision p.expected_revision)) changed_before_mutation) _
          checked in
      let (kept, h2) =
        >>-eq-ok (throw_if (not (eqb current.revision r.revision)) changed_during_mutation) _
          recorded in
      let same =
        (ok-pair (current.revision + 1) n
          (logged type p.actor (generation_of_lease p.lease) payload now current) row h2).1 in
      (
        row,
        ground (
          arith,
          done,
          lookup-insert p.resource_id p.resource_id row written.resources,
          eq_iff p.resource_id p.resource_id,
        ),
        ground (arith, expected, kept, ap (λ (x : Resource). x.revision) same),
      )

  -- A revision is good for one write. Once a mutation that expected a revision has succeeded, then
  -- after any further operations each claim, renewal, release and mutation of the resource that
  -- expects this revision throws that it is stale (a claim with no duration throws for that).
  pub one_write_per_revision :
      {A : Type 0} (id_for : ResourceType → String → String) (p : WritePermit) (type : String)
      (write : (next_revision now : ℕ) → Store D → Outcome MutationError (A × Store D))
      (payload : Option Json) (now : ℕ) (s v w : Store D) (result : A × ℕ)
      → mutate token_hash p type write payload now s ≡ ok (result, v)
      → StoreReaches id_for token_hash v w
      → Stale p.resource_id p.expected_revision w
  unfolding LaterAt
  one_write_per_revision id_for p type write payload now s v w result h later =
      let (row, found, grown) = mutated_row p type write payload now s v result h in
      let at_id : LaterAt p.resource_id v w =
        StoreReaches-LaterAt id_for token_hash p.resource_id later in
      let (r, found', after) = at_id row found in
      passed-Stale p.resource_id p.expected_revision w r found'
        (omega (arith, grown, after.revision))
