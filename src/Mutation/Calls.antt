-- ===== src/Mutation/Calls.antt =====
-- The operations of StateMutationStore, src/state/mutation.ts. A throw undoes the transaction.
use pi_workflows.Mutation.{
  require_current_lease, no_lease_row, lease_of_other_resource, changed_during_mutation,
  bad_duration, WritePermit, with_lease, unknown_resource, is_identity, insert_resource,
  identity_conflict, has_identity, Store, ResourceType, Owner, MutationError, LeaseRow, LeaseClaim,
  ActorType, Actor, Resource, session, server, resource_manager, channel, system, human, policy,
  control, changed_before_claim, changed_before_renewal, changed_before_release,
  changed_before_mutation, changed_during_mutation,
}
use pi_workflows.Prelude.{◌≡◌, ◌==◌, true, if◌then◌else◌, eqb, ◌>>◌, ◌>>=◌}
use pi_workflows.Json.{end, str, num, field, obj, double_of, Json}
use pi_workflows.Prelude.{
  [], ◌∷◌, ◌++◌, ok, not, none, ltb, ◌>>=◌, ◌+◌, some, has, false, ℕ, throw_if, or_throw, lookup,
  insert, String, Outcome, Option, Bool,
}

abbrev pub owner_text : ActorType → String
owner_text session = "session"
owner_text server = "server"
owner_text resource_manager = "resource_manager"
owner_text channel = "channel"
owner_text system = "system"
owner_text human = "human"
owner_text policy = "policy"
owner_text control = "control"

abbrev pub generation_of_lease : Option LeaseClaim → Option ℕ
generation_of_lease none = none
generation_of_lease (some c) = some c.generation

-- updateResourceRevision and insertEvent
abbrev pub logged : String → Actor → Option ℕ → Option Json → ℕ → Resource → Resource
logged type actor generation payload now r = record r {
  revision = r.revision + 1;
  updated_at = now;
  events =
      r.events
      ++ record {
        revision = r.revision + 1;
        event_type = type;
        actor = actor;
        lease_generation = generation;
        payload = payload;
        recorded_at = now;
      }
        ∷ [];
}

module _ {D : Type 0} where
  abbrev pub put : String → Resource → Store D → Store D
  put id r s = record s { resources = insert id r s.resources }

  -- requireResource
  unfoldable pub require_resource : String → Store D → Outcome MutationError Resource
  unfolding lookup
  require_resource id s = or_throw unknown_resource (lookup id s.resources)

  -- A transaction that reads and writes the row of one resource only.
  unfoldable pub at_resource :
      {A : Type 0}
      → String
      → (Resource → Outcome MutationError (A × Resource))
      → Store D
      → Outcome MutationError (A × Store D)
  unfolding require_resource insert
  at_resource id f s = require_resource id s >>= λ r. f r >>= λ p. ok (p.0, put id p.1 s)

abbrev pub ensure_row :
    String → ResourceType → String → Resource → Outcome MutationError (String × Resource)
ensure_row id type key r =
    throw_if (not (is_identity type key r)) identity_conflict >> ok (id, with_lease r)

module _ (resource_id_for : ResourceType → String → String) {D : Type 0} where
  -- ensureResource; `resource_id_for` is resourceIdFor, which hashes.
  unfoldable pub ensure_resource :
      ResourceType → String → ℕ → Store D → Outcome MutationError (String × Store D)
  unfolding at_resource has_identity has insert
  ensure_resource type key now s =
      let id = resource_id_for type key in
      insert_resource id type key now s.resources >>= λ rs.
      at_resource id (ensure_row id type key) (record s { resources = rs })

pub record ClaimRequest : Type 0 where
  pub resource_id : String
  pub owner_type : ActorType
  pub owner_id : String
  pub expected_revision : ℕ
  pub lease_ms : ℕ

-- `ownerId !== null && expiresAt !== null && expiresAt > now`
abbrev pub is_held : Option Owner → ℕ → Bool
is_held none now = false
is_held (some o) now = ltb now o.expires_at

abbrev pub renewed : ℕ → ℕ → Owner → Owner
renewed lease_ms now o = record o { heartbeat_at = now; expires_at = now + lease_ms }

abbrev pub renew_owner : ℕ → ℕ → Option Owner → Option Owner
renew_owner lease_ms now none = none
renew_owner lease_ms now (some o) = some (renewed lease_ms now o)

abbrev pub renewed_lease : ℕ → ℕ → LeaseRow → LeaseRow
renewed_lease lease_ms now l = record l { owner = renew_owner lease_ms now l.owner }

abbrev pub actor_of : LeaseClaim → Actor
actor_of c = record { actor_type = c.owner_type; actor_id = some c.owner_id }

unfoldable pub record_write :
    WritePermit
    → String
    → Option Json
    → (revision now : ℕ) → Resource
    → Outcome MutationError (ℕ × Resource)
record_write p type payload revision now r =
    throw_if (not (eqb r.revision revision)) changed_during_mutation
    >> ok (r.revision + 1, logged type p.actor (generation_of_lease p.lease) payload now r)

-- `token` is random.
module _ (token_hash : String → String) where
  abbrev pub granted : ClaimRequest → String → ℕ → LeaseRow → Resource → LeaseClaim × Resource
  granted q token now l r = (
    record {
      resource_id = q.resource_id;
      owner_type = q.owner_type;
      owner_id = q.owner_id;
      token = token;
      generation = l.generation + 1;
      expires_at = now + q.lease_ms;
      resource_revision = r.revision + 1;
    },
    logged "lease.claimed" (record { actor_type = q.owner_type; actor_id = some q.owner_id })
        (some (l.generation + 1))
        (some (
          obj (
            field "expiresAt" (num (double_of (now + q.lease_ms)))
              (field "ownerType" (str (owner_text q.owner_type)) end))))
        now
        (record r {
          lease = some (record {
            generation = l.generation + 1;
            owner = some (record {
              owner_type = q.owner_type;
              owner_id = q.owner_id;
              token_hash = token_hash token;
              acquired_at = now;
              heartbeat_at = now;
              expires_at = now + q.lease_ms;
            });
          });
        }),
  )

  -- claim; `none` is `undefined`.
  unfoldable pub claim_row :
      ClaimRequest → String → ℕ → Resource → Outcome MutationError (Option LeaseClaim × Resource)
  unfolding double_of
  claim_row q token now r =
      throw_if (not (eqb r.revision q.expected_revision)) changed_before_claim
      >> (or_throw no_lease_row r.lease >>= λ l.
          let (c, taken) = granted q token now l r in
          ok (if is_held l.owner now then (none, r) else (some c, taken)))

  unfoldable pub renew_row :
      LeaseClaim
      → (expected lease_ms now : ℕ) → Resource
      → Outcome MutationError (LeaseClaim × Resource)
  unfolding require_current_lease double_of
  renew_row c expected lease_ms now r =
      throw_if (not (eqb r.revision expected)) changed_before_renewal
      >> (require_current_lease token_hash c now true r >>= λ l. ok (
        record c { expires_at = now + lease_ms; resource_revision = r.revision + 1 },
        logged "lease.renewed" (actor_of c) (some c.generation)
            (some (obj (field "expiresAt" (num (double_of (now + lease_ms))) end))) now
            (record r { lease = some (renewed_lease lease_ms now l) }),
      ))

  unfoldable pub release_row :
      LeaseClaim → (expected now : ℕ) → Resource → Outcome MutationError (ℕ × Resource)
  unfolding require_current_lease
  release_row c expected now r =
      throw_if (not (eqb r.revision expected)) changed_before_release
      >> (require_current_lease token_hash c now false r >>= λ l. ok (
        r.revision + 1,
        logged "lease.released" (actor_of c) (some c.generation) none now
            (record r { lease = some (record l { owner = none }) }),
      ))

  abbrev pub check_permit_lease :
      WritePermit → ℕ → Resource → Option LeaseClaim → Outcome MutationError (Unit {0})
  check_permit_lease p now r none = ok tt
  check_permit_lease p now r (some c) =
      throw_if (not (c.resource_id == p.resource_id)) lease_of_other_resource
      >> (require_current_lease token_hash c now true r >>= λ l. ok tt)

  -- What mutate asks of its permit.
  unfoldable pub check_permit : WritePermit → ℕ → Resource → Outcome MutationError (Unit {0})
  unfolding require_current_lease
  check_permit p now r =
      throw_if (not (eqb r.revision p.expected_revision)) changed_before_mutation
      >> check_permit_lease p now r p.lease

  module _ {D : Type 0} where
    unfoldable pub claim :
        ClaimRequest → String → ℕ → Store D → Outcome MutationError (Option LeaseClaim × Store D)
    unfolding at_resource claim_row
    claim q token now s =
        throw_if (eqb q.lease_ms 0) bad_duration
        >> at_resource q.resource_id (claim_row q token now) s

    unfoldable pub renew :
        LeaseClaim
        → (expected lease_ms now : ℕ) → Store D
        → Outcome MutationError (LeaseClaim × Store D)
    unfolding at_resource renew_row
    renew c expected lease_ms now s =
        at_resource c.resource_id (renew_row c expected lease_ms now) s

    unfoldable pub release :
        LeaseClaim → (expected now : ℕ) → Store D → Outcome MutationError (ℕ × Store D)
    unfolding at_resource release_row
    release c expected now s = at_resource c.resource_id (release_row c expected now) s

    -- `write` is the mutation's own code, which may run operations of the store too.
    unfoldable pub mutate :
        {A : Type 0}
        → WritePermit
        → String
        → (write : (next_revision now : ℕ) → Store D → Outcome MutationError (A × Store D))
        → Option Json
        → ℕ
        → Store D
        → Outcome MutationError ((A × ℕ) × Store D)
    unfolding require_resource check_permit lookup record_write insert
    mutate p type write payload now s = do
      r ← require_resource p.resource_id s
      check_permit p now r
      (value, written) ← write (r.revision + 1) now s
      current ← or_throw changed_during_mutation (lookup p.resource_id written.resources)
      (revision, row) ← record_write p type payload r.revision now current
      ok ((value, revision), put p.resource_id row written)

-- The stores that operations lead to. A mutation's own code writes the other tables and runs operations.
-- `id_for` is resourceIdFor.
module _ (id_for : ResourceType → String → String) (token_hash : String → String) {D : Type 0} where
  pub data StoreReaches : Store D → Store D → Type 1 where
    stays : {s : Store D} → StoreReaches s s
    writes_rest :
        {s u : Store D} (rest : D) → StoreReaches s u → StoreReaches s (record u { rest = rest })
    ensures :
        {s u v : Store D} (type : ResourceType) (key id : String) (now : ℕ)
        → StoreReaches s u
        → ensure_resource id_for type key now u ≡ ok (id, v)
        → StoreReaches s v
    claims :
        {s u v : Store D} {r : Option LeaseClaim} (q : ClaimRequest) (token : String) (now : ℕ)
        → StoreReaches s u
        → claim token_hash q token now u ≡ ok (r, v)
        → StoreReaches s v
    renews :
        {s u v : Store D} {r : LeaseClaim} (c : LeaseClaim) (expected lease_ms now : ℕ)
        → StoreReaches s u
        → renew token_hash c expected lease_ms now u ≡ ok (r, v)
        → StoreReaches s v
    releases :
        {s u v : Store D} {r : ℕ} (c : LeaseClaim) (expected now : ℕ)
        → StoreReaches s u
        → release token_hash c expected now u ≡ ok (r, v)
        → StoreReaches s v
    mutates :
        {A : Type 0} {s u v : Store D} {result : A × ℕ} (p : WritePermit) (type : String)
        (write : (next_revision now : ℕ) → Store D → Outcome MutationError (A × Store D))
        (payload : Option Json) (now : ℕ)
        → StoreReaches s u
        → ((next : ℕ) (value : A) (written : Store D)
            → write next now u ≡ ok (value, written)
            → StoreReaches u written)
        → mutate token_hash p type write payload now u ≡ ok (result, v)
        → StoreReaches s v
