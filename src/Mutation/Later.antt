-- ===== src/Mutation/Later.antt =====
-- How the row of a resource changes under the operations of src/state/mutation.ts.
use pi_workflows.Mutation.{
  changed_before_claim, changed_before_renewal, changed_before_release, changed_during_mutation,
  with_lease, not_current, no_lease_row, is_current, changed_during_mutation, require_current_lease,
  WritePermit, Owner, LeaseRow, LeaseClaim, Resource,
}
use pi_workflows.Json.{end, num, field, obj, double_of, Json}
use pi_workflows.Mutation.Calls.{
  renewed_lease, logged, generation_of_lease, actor_of, renew_owner, is_held, granted, renew_row,
  release_row, record_write, claim_row, ClaimRequest,
}
use pi_workflows.Prelude.{
  ◌+◌, false, ap, ◌∙◌, inr, eqb, true, not, inl, throw_if, or_throw-ok, or_throw, Option-cases,
  Bool-cases, Bool, >>=-eq-ok, >>-eq-ok, refl, ok, none, ◌≡◌, some, ◌≤◌, ℕ, arith, String, Option,
}
use mathlib.Core.Path.{subst}

abbrev pub generation_at : Option LeaseRow → ℕ
generation_at none = 0
generation_at (some l) = l.generation

abbrev pub owner_at : Option LeaseRow → Option Owner
owner_at none = none
owner_at (some l) = l.owner

-- The owner is the same one, but for its times, or none any more.
abbrev pub SameOwner : Option Owner → Option Owner → Type 0
SameOwner o none = Unit
SameOwner none (some p) = ⊥
SameOwner (some o) (some p) =
    (p.owner_type ≡ o.owner_type) × (p.owner_id ≡ o.owner_id) × (p.token_hash ≡ o.token_hash)

-- A row is followed by another.
pub record Later (r r' : Resource) : Type 0 where
  pub revision : r.revision ≤ r'.revision
  pub generation : generation_at r.lease ≤ generation_at r'.lease
  pub owner :
      generation_at r'.lease ≡ generation_at r.lease
      → SameOwner (owner_at r.lease) (owner_at r'.lease)
  pub identity : (r'.resource_type ≡ r.resource_type) × (r'.aggregate_key ≡ r.aggregate_key)

SameOwner-refl : (o : Option Owner) → SameOwner o o
SameOwner-refl none = tt
SameOwner-refl (some o) = (refl, refl, refl)

SameOwner-trans : (a b c : Option Owner) → SameOwner a b → SameOwner b c → SameOwner a c
SameOwner-trans a b none p q = tt
SameOwner-trans (some a) (some b) (some c) p q = ground (arith, p, q)
SameOwner-trans a none (some c) p q = absurd q
SameOwner-trans none (some b) (some c) p q = absurd p

pub Later-refl : (r : Resource) → Later r r
Later-refl r = record {
  revision = omega arith;
  generation = omega arith;
  owner = (λ h. SameOwner-refl (owner_at r.lease));
  identity = (refl, refl);
}

pub Later-trans : {a b c : Resource} → Later a b → Later b c → Later a c
Later-trans {a} {b} {c} p q = record {
  revision = omega (arith, p.revision, q.revision);
  generation = omega (arith, p.generation, q.generation);
  owner = (λ h.
      SameOwner-trans (owner_at a.lease) (owner_at b.lease) (owner_at c.lease)
        (p.owner (omega (arith, p.generation, q.generation, h)))
        (q.owner (omega (arith, p.generation, q.generation, h))));
  identity = ground (arith, p.identity, q.identity);
}

-- A row that is as another one but for its lease, times and log, and of no smaller revision.
row-Later :
    (r r' : Resource)
    → r.revision ≤ r'.revision
    → generation_at r.lease ≤ generation_at r'.lease
    → (generation_at r'.lease ≡ generation_at r.lease
        → SameOwner (owner_at r.lease) (owner_at r'.lease))
    → r'.resource_type ≡ r.resource_type
    → r'.aggregate_key ≡ r.aggregate_key
    → Later r r'
row-Later r r' p q o t k = record { revision = p; generation = q; owner = o; identity = (t, k) }

renewed-SameOwner : (lease_ms now : ℕ) (o : Option Owner) → SameOwner o (renew_owner lease_ms now o)
renewed-SameOwner lease_ms now none = tt
renewed-SameOwner lease_ms now (some o) = (refl, refl, refl)

pub record_write-Later :
    (p : WritePermit) (type : String) (payload : Option Json) (revision now : ℕ) (r r' : Resource)
    (n : ℕ)
    → record_write p type payload revision now r ≡ ok (n, r')
    → Later r r'
unfolding record_write
record_write-Later p type payload revision now r r' n h =
    let (fresh, h1) =
      >>-eq-ok (throw_if (not (eqb r.revision revision)) changed_during_mutation) _ h in
    subst (Later r) (ground (arith, h1)) (
      row-Later r (logged type p.actor (generation_of_lease p.lease) payload now r) (omega arith)
        (omega arith) (λ e. SameOwner-refl (owner_at r.lease)) refl refl)

pub with_lease-Later : (r : Resource) → Later r (with_lease r)
with_lease-Later r = elim (Option-cases r.lease) [
  | inl missing ↦
      row-Later r _ (omega arith) (rw missing (omega arith)) (rw missing (λ e. tt)) refl refl
  | inr (l, found) ↦
      row-Later r _ (omega arith) (rw found (omega arith)) (rw found (λ e. SameOwner-refl l.owner))
        refl refl
]

module _ (token_hash : String → String) where
  granted-Later :
      (q : ClaimRequest) (token : String) (now : ℕ) (l : LeaseRow) (r : Resource)
      → r.lease ≡ some l
      → Later r (granted token_hash q token now l r).1
  granted-Later q token now l r has_row =
      row-Later r _ (omega arith) (rw has_row (omega arith))
        (rw has_row (λ h. absurd (omega (arith, h)))) refl refl

  pub claim_row-Later :
      (q : ClaimRequest) (token : String) (now : ℕ) (r r' : Resource) (c : Option LeaseClaim)
      → claim_row token_hash q token now r ≡ ok (c, r')
      → Later r r'
  unfolding claim_row
  claim_row-Later q token now r r' c h =
      let (fresh, h1) =
        >>-eq-ok (throw_if (not (eqb r.revision q.expected_revision)) changed_before_claim) _ h in
      let (l, found, h2) = >>=-eq-ok (or_throw no_lease_row r.lease) _ h1 in
      elim (Bool-cases (is_held l.owner now)) [
        | inl held ↦ subst (Later r) (ground (arith, h2)) (Later-refl r)
        | inr free ↦
            subst (Later r) (ground (arith, h2))
              (granted-Later q token now l r (or_throw-ok no_lease_row r.lease found))
      ]

  -- requireCurrentLease returns the row's lease.
  pub require_current_lease-ok :
      (c : LeaseClaim) (now : ℕ) (strict : Bool) (r : Resource) (l : LeaseRow)
      → require_current_lease token_hash c now strict r ≡ ok l
      → (r.lease ≡ some l) × (is_current token_hash c now strict l ≡ true)
  unfolding require_current_lease
  require_current_lease-ok c now strict r l h =
      let (m, found, h1) = >>=-eq-ok (or_throw no_lease_row r.lease) _ h in
      let (current, h2) =
        >>-eq-ok (throw_if (not (is_current token_hash c now strict m)) not_current) _ h1 in
      let same : m ≡ l = ground (arith, h2) in
      (
        or_throw-ok no_lease_row r.lease found ∙ ap (λ x. some x) same,
        subst (λ x. is_current token_hash c now strict x ≡ true) same (ground (arith, current)),
      )

  pub renew_row-Later :
      (c : LeaseClaim) (expected lease_ms now : ℕ) (r r' : Resource) (c' : LeaseClaim)
      → renew_row token_hash c expected lease_ms now r ≡ ok (c', r')
      → Later r r'
  unfolding renew_row
  renew_row-Later c expected lease_ms now r r' c' h =
      let (fresh, h1) =
        >>-eq-ok (throw_if (not (eqb r.revision expected)) changed_before_renewal) _ h in
      let (l, found, h2) = >>=-eq-ok (require_current_lease token_hash c now true r) _ h1 in
      let has_row = (require_current_lease-ok c now true r l found).0 in
      subst (Later r) (ground (arith, h2)) (
        row-Later r
          (logged "lease.renewed" (actor_of c) (some c.generation)
            (some (obj (field "expiresAt" (num (double_of (now + lease_ms))) end))) now
            (record r { lease = some (renewed_lease lease_ms now l) }))
          (omega arith) (rw has_row (omega arith))
          (rw has_row (λ e. renewed-SameOwner lease_ms now l.owner)) refl refl)

  pub release_row-Later :
      (c : LeaseClaim) (expected now : ℕ) (r r' : Resource) (n : ℕ)
      → release_row token_hash c expected now r ≡ ok (n, r')
      → Later r r'
  unfolding release_row
  release_row-Later c expected now r r' n h =
      let (fresh, h1) =
        >>-eq-ok (throw_if (not (eqb r.revision expected)) changed_before_release) _ h in
      let (l, found, h2) = >>=-eq-ok (require_current_lease token_hash c now false r) _ h1 in
      let has_row = (require_current_lease-ok c now false r l found).0 in
      subst (Later r) (ground (arith, h2)) (
        row-Later r
          (logged "lease.released" (actor_of c) (some c.generation) none now
            (record r { lease = some (record l { owner = none }) }))
          (omega arith) (rw has_row (omega arith)) (rw has_row (λ e. tt)) refl refl)
