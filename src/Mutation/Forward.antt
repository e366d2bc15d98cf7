-- ===== src/Mutation/Forward.antt =====
-- The resources under the operations of src/state/mutation.ts: none is lost, and each row is
-- followed by a later one.
use pi_workflows.Mutation.{
  bad_duration, LeaseClaim, new_resource, changed_during_mutation, with_lease, is_stored_type,
  is_identity, insert_resource, identity_conflict, has_identity, constraint_failed, WritePermit,
  ResourceType, unknown_resource, Store, MutationError, Resource,
}
use pi_workflows.Mutation.Calls.{
  mutates, releases, renews, claims, ensures, release, renew, ensure_row, claim_row, claim,
  ClaimRequest, stays, writes_rest, renew_row, release_row, record_write, StoreReaches, mutate,
  ensure_resource, check_permit, put, require_resource, at_resource,
}
use pi_workflows.Mutation.Later.{
  claim_row-Later, renew_row-Later, release_row-Later, record_write-Later, with_lease-Later,
  Later-trans, Later-refl, Later,
}
use pi_workflows.Prelude.{
  has-lookup, eqb, false, insert, ap, ◌∙◌, ◌+◌, not, ℕ, throw_if, sym, or_throw-ok, Option,
  >>-eq-ok, inr, inl, ◌==◌, arith, some, ok, ◌≡◌, has, or_throw, lookup-insert, lookup, eq_iff,
  String, Outcome, Bool-cases, Assoc, >>=-eq-ok,
}
use mathlib.Core.Path.{subst}
use pi_workflows.Json.{Json}

pub ok-pair :
    {A B : Type 0} (x a : A) (y b : B)
    → ◌≡◌ {A = Outcome MutationError (A × B)} (ok (x, y)) (ok (a, b))
    → (x ≡ a) × (y ≡ b)
ok-pair x a y b h = (cc, cc)

ensured-Later :
    (id : String) (type : ResourceType) (key : String) (r r' : Resource) (a : String)
    → ensure_row id type key r ≡ ok (a, r')
    → Later r r'
ensured-Later id type key r r' a h =
    let (same, h1) = >>-eq-ok (throw_if (not (is_identity type key r)) identity_conflict) _ h in
    subst (Later r) ((ok-pair id a (with_lease r) r' h1).1) (with_lease-Later r)

module _ {D : Type 0} where
  unfoldable pub LaterAt : String → Store D → Store D → Type 0
  LaterAt id s u =
      (r : Resource)
      → lookup id s.resources ≡ some r
      → (r' : Resource) × (lookup id u.resources ≡ some r') × Later r r'

  pub LaterAt-refl : (id : String) (s : Store D) → LaterAt id s s
  unfolding LaterAt
  LaterAt-refl id s r found = (r, found, Later-refl r)

  pub LaterAt-trans :
      (id : String) (s u v : Store D) → LaterAt id s u → LaterAt id u v → LaterAt id s v
  unfolding LaterAt
  LaterAt-trans id s u v p q r found =
      let (r1, found1, later1) = p r found in
      let (r2, found2, later2) = q r1 found1 in (r2, found2, Later-trans later1 later2)

  -- A row that is replaced by a later one.
  pub put-LaterAt :
      (id k : String) (s : Store D) (r r' : Resource)
      → lookup id s.resources ≡ some r
      → Later r r'
      → LaterAt k s (put id r' s)
  unfolding LaterAt
  put-LaterAt id k s r r' found later x at_k = elim (Bool-cases (id == k)) [
    | inl same ↦
        let eq : id ≡ k = (eq_iff id k).0 same in
        let xr : r ≡ x = ground (arith, found, at_k, eq) in
        (r', ground (arith, lookup-insert id k r' s.resources), subst (λ y. Later y r') xr later)
    | inr other ↦ (x, ground (arith, lookup-insert id k r' s.resources), Later-refl x)
  ]

  pub at_resource-ok :
      {A : Type 0} (id : String) (f : Resource → Outcome MutationError (A × Resource))
      (s v : Store D) (a : A)
      → at_resource id f s ≡ ok (a, v)
      → (r r' : Resource) × (lookup id s.resources ≡ some r)
        × (f r ≡ ok (a, r'))
        × (v ≡ put id r' s)
  unfolding at_resource require_resource
  at_resource-ok id f s v a h =
      let (r, found, h1) = >>=-eq-ok (or_throw unknown_resource (lookup id s.resources)) _ h in
      let (p, ran, h2) = >>=-eq-ok (f r) _ h1 in
      let (same_value, same_store) = ok-pair p.0 a (put id p.1 s) v h2 in
      (
        r,
        p.1,
        or_throw-ok unknown_resource _ found,
        ran ∙ ap (λ x. ok (x, p.1)) same_value,
        sym same_store,
      )

  pub at_resource-LaterAt :
      {A : Type 0} (id k : String) (f : Resource → Outcome MutationError (A × Resource))
      (s v : Store D) (a : A)
      → ((r r' : Resource) (a : A) → f r ≡ ok (a, r') → Later r r')
      → at_resource id f s ≡ ok (a, v)
      → LaterAt k s v
  at_resource-LaterAt id k f s v a forward h =
      let (r, r', found, ran, same) = at_resource-ok id f s v a h in
      subst (LaterAt k s) (sym same) (put-LaterAt id k s r r' found (forward r r' a ran))

  -- A new row takes no old one away.
  insert_resource-LaterAt :
      (id k : String) (type : ResourceType) (key : String) (now : ℕ) (s : Store D)
      (rs : Assoc Resource)
      → insert_resource id type key now s.resources ≡ ok rs
      → LaterAt k s (record s { resources = rs })
  unfolding LaterAt
  insert_resource-LaterAt id k type key now s rs h x at_k =
      let (stored, h1) = >>-eq-ok (throw_if (not (is_stored_type type)) constraint_failed) _ h in
      elim (Bool-cases (has_identity type key s.resources)) [
        | inl old ↦ (x, ground (arith, h1, at_k), Later-refl x)
        | inr fresh ↦
            let after = rw fresh at h1 in
            let (free, h2) =
              >>-eq-ok (throw_if (has id s.resources) constraint_failed)
                (ok (insert id (new_resource type key now) s.resources)) after in
            let absent : has id s.resources ≡ false = ground (arith, free) in
            (
              x,
              ground (
                arith,
                lookup-insert id k (new_resource type key now) s.resources,
                h2,
                at_k,
                eq_iff id k,
                absent,
                has-lookup k s.resources x,
              ),
              Later-refl x,
            )
      ]

  pub ensure_resource-LaterAt :
      (id_for : ResourceType → String → String) (k : String) (type : ResourceType) (key id : String)
      (now : ℕ) (s v : Store D)
      → ensure_resource id_for type key now s ≡ ok (id, v)
      → LaterAt k s v
  unfolding ensure_resource
  ensure_resource-LaterAt id_for k type key id now s v h =
      let (rs, inserted, h1) =
        >>=-eq-ok (insert_resource (id_for type key) type key now s.resources) _ h in
      LaterAt-trans k s (record s { resources = rs }) v
        (insert_resource-LaterAt (id_for type key) k type key now s rs inserted)
        (at_resource-LaterAt (id_for type key) k _ (record s { resources = rs }) v id
          (ensured-Later (id_for type key) type key) h1)

  pub mutate-ok :
      {A : Type 0} (token_hash : String → String) (p : WritePermit) (type : String)
      (write : (next_revision now : ℕ) → Store D → Outcome MutationError (A × Store D))
      (payload : Option Json) (now : ℕ) (s v : Store D) (result : A × ℕ)
      → mutate token_hash p type write payload now s ≡ ok (result, v)
      → (r current row : Resource) × (value : A) × (written : Store D) × (n : ℕ) × (lookup
            p.resource_id s.resources
          ≡ some r)
        × (check_permit token_hash p now r ≡ ok tt)
        × (write (r.revision + 1) now s ≡ ok (value, written))
        × (lookup p.resource_id written.resources ≡ some current)
        × (record_write p type payload r.revision now current ≡ ok (n, row))
        × (result ≡ (value, n))
        × (v ≡ put p.resource_id row written)
  unfolding mutate require_resource
  mutate-ok token_hash p type write payload now s v result h =
      let (r, found, h1) = >>=-eq-ok (require_resource p.resource_id s) _ h in
      let (checked, h2) = >>-eq-ok (check_permit token_hash p now r) _ h1 in
      let (w, ran, h3) = >>=-eq-ok (write (r.revision + 1) now s) _ h2 in
      let (current, still, h4) =
        >>=-eq-ok (or_throw changed_during_mutation (lookup p.resource_id w.1.resources)) _ h3 in
      let (row, recorded, h5) =
        >>=-eq-ok (record_write p type payload r.revision now current) _ h4 in
      let (same_result, same_store) =
        ok-pair (w.0, row.0) result (put p.resource_id row.1 w.1) v h5 in
      (
        r,
        current,
        row.1,
        w.0,
        w.1,
        row.0,
        or_throw-ok unknown_resource _ found,
        checked,
        ran,
        or_throw-ok changed_during_mutation _ still,
        recorded,
        sym same_result,
        sym same_store,
      )

  pub mutate-LaterAt :
      {A : Type 0} (token_hash : String → String) (k : String) (p : WritePermit) (type : String)
      (write : (next_revision now : ℕ) → Store D → Outcome MutationError (A × Store D))
      (payload : Option Json) (now : ℕ) (s v : Store D) (result : A × ℕ)
      → ((next : ℕ) (value : A) (written : Store D)
          → write next now s ≡ ok (value, written)
          → LaterAt k s written)
      → mutate token_hash p type write payload now s ≡ ok (result, v)
      → LaterAt k s v
  mutate-LaterAt token_hash k p type write payload now s v result forward h =
      let (r, current, row, value, written, n, found, checked, ran, still, recorded, same, done) =
        mutate-ok token_hash p type write payload now s v result h in
      LaterAt-trans k s written v (forward (r.revision + 1) value written ran) (
        subst (LaterAt k written) (sym done) (
          put-LaterAt p.resource_id k written current row still
            (record_write-Later p type payload r.revision now current row n recorded)))

module _ {D : Type 0} where
  put_rest : (k : String) (u : Store D) (rest : D) → LaterAt k u (record u { rest = rest })
  unfolding LaterAt
  put_rest k u rest r found = (r, found, Later-refl r)

  claim-LaterAt :
      (token_hash : String → String) (k : String) (q : ClaimRequest) (token : String) (now : ℕ)
      (u v : Store D) (c : Option LeaseClaim)
      → claim token_hash q token now u ≡ ok (c, v)
      → LaterAt k u v
  unfolding claim
  claim-LaterAt token_hash k q token now u v c h =
      let (lasting, h1) = >>-eq-ok (throw_if (eqb q.lease_ms 0) bad_duration) _ h in
      at_resource-LaterAt q.resource_id k (claim_row token_hash q token now) u v c
        (λ x y a. claim_row-Later token_hash q token now x y a) h1

module _ (id_for : ResourceType → String → String) (token_hash : String → String) {D : Type 0} where
  pub StoreReaches-LaterAt :
      (k : String) {s u : Store D} → StoreReaches id_for token_hash s u → LaterAt k s u
  unfolding renew release
  StoreReaches-LaterAt k (stays {s}) = LaterAt-refl k s
  StoreReaches-LaterAt k (writes_rest {s} {u} rest before) =
      LaterAt-trans k s u _ (StoreReaches-LaterAt k before) (put_rest k u rest)
  StoreReaches-LaterAt k (ensures {s} {u} {v} type key id now before h) =
      LaterAt-trans k s u v (StoreReaches-LaterAt k before)
        (ensure_resource-LaterAt id_for k type key id now u v h)
  StoreReaches-LaterAt k (claims {s} {u} {v} {r} q token now before h) =
      LaterAt-trans k s u v (StoreReaches-LaterAt k before)
        (claim-LaterAt token_hash k q token now u v r h)
  StoreReaches-LaterAt k (renews {s} {u} {v} {r} c expected lease_ms now before h) =
      LaterAt-trans k s u v (StoreReaches-LaterAt k before) (
        at_resource-LaterAt c.resource_id k (renew_row token_hash c expected lease_ms now) u v r
          (λ x y a. renew_row-Later token_hash c expected lease_ms now x y a) h)
  StoreReaches-LaterAt k (releases {s} {u} {v} {r} c expected now before h) =
      LaterAt-trans k s u v (StoreReaches-LaterAt k before) (
        at_resource-LaterAt c.resource_id k (release_row token_hash c expected now) u v r
          (λ x y a. release_row-Later token_hash c expected now x y a) h)
  StoreReaches-LaterAt k
        (mutates {A} {s} {u} {v} {result} p type write payload now before inside h) =
      LaterAt-trans k s u v (StoreReaches-LaterAt k before) (
        mutate-LaterAt token_hash k p type write payload now u v result
          (λ next value written ran. StoreReaches-LaterAt k (inside next value written ran)) h)
