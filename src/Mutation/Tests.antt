-- ===== src/Mutation/Tests.antt =====
-- A resource, its owners and its writers, and the theorems on src/state/mutation.ts at them.
use pi_workflows.Mutation.{
  with_lease, require_current_lease, new_resource, is_current, has_identity, WritePermit,
  ResourceType, Resource, MutationError, LeaseRow, LeaseClaim, Store, server, run_resource,
  notification_resource, constraint_failed,
}
use pi_workflows.Mutation.Calls.{
  logged, stays, put, granted, require_resource, release_row, release, record_write, mutate,
  ensure_resource, claim_row, claim, check_permit, at_resource, actor_of, ClaimRequest,
}
use pi_workflows.Mutation.Fence.{Refused}
use pi_workflows.Mutation.Permits.{one_write_per_revision, Stale}
use pi_workflows.Mutation.Takeover.{takeover_fences, release_fences}
use pi_workflows.Prelude.{
  refl, ◌+◌, throw, lookup, ◌≡◌, ◌∷◌, some, ok, none, insert, has, append, [], ℕ, String, Outcome,
}

abbrev hash : String → String
hash token = append "sha256:" token

abbrev id_for : ResourceType → String → String
id_for type key = append "id-" key

abbrev empty : Store ℕ
empty = record { resources = []; rest = 0 }

abbrev row : Resource
row = with_lease (new_resource run_resource "r1" 5)

abbrev one_resource : Store ℕ
one_resource = record { resources = ("id-r1", row) ∷ []; rest = 0 }

ensures_row : ensure_resource id_for run_resource "r1" 5 empty ≡ ok ("id-r1", one_resource)
unfolding ensure_resource at_resource require_resource has_identity has insert lookup append
ensures_row = refl

refuses_type : ensure_resource id_for notification_resource "r1" 5 empty ≡ throw constraint_failed
unfolding ensure_resource
refuses_type = refl

abbrev request : String → ℕ → ClaimRequest
request owner revision = record {
  resource_id = "id-r1";
  owner_type = server;
  owner_id = owner;
  expected_revision = revision;
  lease_ms = 100;
}

abbrev base_lease : LeaseRow
base_lease = record { generation = 0; owner = none }

abbrev first_grant : LeaseClaim × Resource
first_grant = granted hash (request "server-1" 0) "t1" 10 base_lease row

abbrev first_store : Store ℕ
first_store = put "id-r1" first_grant.1 one_resource

claims_first :
    claim hash (request "server-1" 0) "t1" 10 one_resource ≡ ok (some first_grant.0, first_store)
unfolding claim claim_row at_resource require_resource insert lookup append
claims_first = refl

abbrev first_lease : LeaseRow
first_lease = record {
  generation = 1;
  owner = some (record {
    owner_type = server;
    owner_id = "server-1";
    token_hash = hash "t1";
    acquired_at = 10;
    heartbeat_at = 10;
    expires_at = 110;
  });
}

abbrev second_grant : LeaseClaim × Resource
second_grant = granted hash (request "server-2" 1) "t2" 200 first_lease first_grant.1

abbrev second_store : Store ℕ
second_store = put "id-r1" second_grant.1 first_store

claims_second :
    claim hash (request "server-2" 1) "t2" 200 first_store ≡ ok (some second_grant.0, second_store)
unfolding claim claim_row at_resource require_resource insert lookup append
claims_second = refl

is_not_taken_early : claim hash (request "server-2" 1) "t2" 50 first_store ≡ ok (none, first_store)
unfolding claim claim_row at_resource require_resource insert lookup append
is_not_taken_early = refl

takeover_fences_example : Refused hash id_for first_grant.0 second_store
takeover_fences_example =
    takeover_fences hash id_for (request "server-1" 0) (request "server-2" 1) "t1" "t2" 10 200
      one_resource first_store first_store second_store second_store first_grant.0 second_grant.0
      claims_first stays refl claims_second stays

abbrev released_store : Store ℕ
released_store =
    put "id-r1"
      (logged "lease.released" (actor_of first_grant.0) (some 1) none 60
        (record first_grant.1 { lease = some (record { generation = 1; owner = none }) }))
      first_store

releases_first : release hash first_grant.0 1 60 first_store ≡ ok (2, released_store)
unfolding release release_row require_current_lease is_current at_resource require_resource insert
    lookup append
releases_first = refl

release_fences_example : Refused hash id_for first_grant.0 released_store
release_fences_example =
    release_fences hash id_for first_grant.0 1 60 first_store released_store released_store 2
      releases_first stays

abbrev permit : WritePermit
permit = record {
  resource_id = "id-r1";
  operation = "count";
  actor = actor_of first_grant.0;
  expected_revision = 1;
  lease = some first_grant.0;
}

abbrev count : ℕ → ℕ → Store ℕ → Outcome MutationError (String × Store ℕ)
count next now s = ok ("counted", record s { rest = s.rest + 1 })

abbrev counted_store : Store ℕ
counted_store =
    put "id-r1" (logged "counted" (actor_of first_grant.0) (some 1) none 70 first_grant.1)
      (record first_store { rest = 1 })

mutates_first :
    mutate hash permit "counted" count none 70 first_store ≡ ok (("counted", 2), counted_store)
unfolding mutate check_permit require_current_lease is_current record_write require_resource insert
    lookup append
mutates_first = refl

one_write_per_revision_example : Stale hash "id-r1" 1 counted_store
one_write_per_revision_example =
    one_write_per_revision hash id_for permit "counted" count none 70 first_store counted_store
      counted_store ("counted", 2) mutates_first stays
