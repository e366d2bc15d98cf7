-- ===== src/Mutation.antt =====
-- The guarded writes of src/state/mutation.ts: the resources of the database with their revisions,
-- leases and events. `D` stands for the other tables, which a mutation's own code writes. The
-- random id of an event is left out; a payload, which the database keeps by its hash, stands in the
-- event itself.
pub mod Calls
pub mod Later
pub mod Forward
pub mod Fence
pub mod Takeover
pub mod Permits
pub mod Tests
use pi_workflows.Json.{Json}
use pi_workflows.Prelude.{
  ◌||◌, [], ◌∷◌, insert, has, leb, if◌then◌else◌, ◌>>◌, ◌==◌, true, [], ◌>>=◌, ◌&&◌, some, not,
  none, false, eqb, ℕ, throw_if, or_throw, or_else, String, Outcome, Option, List, Bool, Assoc, ok,
}

pub data ResourceType : Type 0 where
  run_resource session_resource decision_resource managed_resource effect_resource channel_resource
        notification_resource turn_intent_resource settings_resource follow_up_queue_resource
        follow_up_resource :
      ResourceType

-- The owners of leases, then the other actors of events.
pub data ActorType : Type 0 where
  session server resource_manager channel system human policy control : ActorType

pub record Actor : Type 0 where
  pub actor_type : ActorType
  pub actor_id : Option String

-- The owner's columns of a lease are set together (src/state/schema.ts).
pub record Owner : Type 0 where
  pub owner_type : ActorType
  pub owner_id : String
  pub token_hash : String
  pub acquired_at : ℕ
  pub heartbeat_at : ℕ
  pub expires_at : ℕ

pub record LeaseRow : Type 0 where
  pub generation : ℕ
  pub owner : Option Owner

pub record Event : Type 0 where
  pub revision : ℕ
  pub event_type : String
  pub actor : Actor
  pub lease_generation : Option ℕ
  pub payload : Option Json
  pub recorded_at : ℕ

pub record Resource : Type 0 where
  pub resource_type : ResourceType
  pub aggregate_key : String
  pub revision : ℕ
  pub created_at : ℕ
  pub updated_at : ℕ
  pub lease : Option LeaseRow
  pub events : List Event

pub record Store (D : Type 0) : Type 0 where
  pub resources : Assoc Resource
  pub rest : D

pub record LeaseClaim : Type 0 where
  pub resource_id : String
  pub owner_type : ActorType
  pub owner_id : String
  pub token : String
  pub generation : ℕ
  pub expires_at : ℕ
  pub resource_revision : ℕ

pub record WritePermit : Type 0 where
  pub resource_id : String
  pub operation : String
  pub actor : Actor
  pub expected_revision : ℕ
  pub lease : Option LeaseClaim

-- The first group is StaleResourceError; the last constructor is an error of a mutation's own code.
pub data MutationError : Type 0 where
  changed_before_claim changed_before_renewal changed_before_release changed_before_mutation
        changed_during_mutation not_current lease_of_other_resource :
      MutationError
  unknown_resource no_lease_row bad_duration identity_conflict constraint_failed : MutationError
  of_caller : String → MutationError

-- The CHECK of the table resources knows no other type.
abbrev pub is_stored_type : ResourceType → Bool
is_stored_type notification_resource = false
is_stored_type turn_intent_resource = false
is_stored_type follow_up_queue_resource = false
is_stored_type _ = true

abbrev pub type_number : ResourceType → ℕ
type_number run_resource = 0
type_number session_resource = 1
type_number decision_resource = 2
type_number managed_resource = 3
type_number effect_resource = 4
type_number channel_resource = 5
type_number notification_resource = 6
type_number turn_intent_resource = 7
type_number settings_resource = 8
type_number follow_up_queue_resource = 9
type_number follow_up_resource = 10

abbrev pub same_type : ResourceType → ResourceType → Bool
same_type a b = eqb (type_number a) (type_number b)

abbrev pub actor_number : ActorType → ℕ
actor_number session = 0
actor_number server = 1
actor_number resource_manager = 2
actor_number channel = 3
actor_number system = 4
actor_number human = 5
actor_number policy = 6
actor_number control = 7

abbrev pub is_identity : ResourceType → String → Resource → Bool
is_identity type key r = same_type r.resource_type type && r.aggregate_key == key

unfoldable pub has_identity : ResourceType → String → Assoc Resource → Bool
has_identity type key [] = false
has_identity type key ((id, r) ∷ rs) = is_identity type key r || has_identity type key rs

-- INSERT INTO leases … ON CONFLICT DO NOTHING
abbrev pub with_lease : Resource → Resource
with_lease r = record r { lease = some (or_else r.lease (record { generation = 0; owner = none })) }

abbrev pub new_resource : ResourceType → String → ℕ → Resource
new_resource type key now = record {
  resource_type = type;
  aggregate_key = key;
  revision = 0;
  created_at = now;
  updated_at = now;
  lease = none;
  events = [];
}

abbrev pub insert_resource :
    String → ResourceType → String → ℕ → Assoc Resource → Outcome MutationError (Assoc Resource)
insert_resource id type key now rs =
    throw_if (not (is_stored_type type)) constraint_failed
    >> (if has_identity type key rs
        then ok rs
        else (throw_if (has id rs) constraint_failed
            >> ok (insert id (new_resource type key now) rs)))

-- requireCurrentLease at the row of a resource.
module _ (token_hash : String → String) where
  abbrev pub owner_matches : LeaseClaim → ℕ → (require_unexpired : Bool) → ℕ → Option Owner → Bool
  owner_matches c now require_unexpired generation none = false
  owner_matches c now require_unexpired generation (some o) =
      eqb (actor_number o.owner_type) (actor_number c.owner_type)
      && o.owner_id == c.owner_id
      && eqb generation c.generation
      && o.token_hash == token_hash c.token
      && not (require_unexpired && leb o.expires_at now)

  unfoldable pub is_current : LeaseClaim → ℕ → (require_unexpired : Bool) → LeaseRow → Bool
  is_current c now require_unexpired l = owner_matches c now require_unexpired l.generation l.owner

  unfoldable pub require_current_lease :
      LeaseClaim → ℕ → (require_unexpired : Bool) → Resource → Outcome MutationError LeaseRow
  unfolding is_current
  require_current_lease c now require_unexpired r = or_throw no_lease_row r.lease >>= λ l.
      throw_if (not (is_current c now require_unexpired l)) not_current >> ok l
