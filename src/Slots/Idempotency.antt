-- ===== src/Slots/Idempotency.antt =====
-- `claimIdempotency` of slot_store.go and `authorizeIdempotencyReplayTx` of idempotency_replay.go.
-- A key and a request hash are compared only, so they are natural numbers. The stored resource is
-- never NULL, so the test for an empty one has no case here.
use qweqwe.Base.{
  ℕ, ◌+◌, Bool, true, false, ◌&&◌, ◌||◌, not, Option, none, some, List, [], ◌∷◌, Result, ok, ◌>>◌,
  fail_if, forbidden, idempotency_conflict, ◌==◌, leb, if◌then◌else◌,
}
use qweqwe.Slots.Model.{
  Slot, Visibility, visible_public, visible_links, visible_selected, visible_city, is_open,
}
use qweqwe.Slots.Rows.{exists_row}
use qweqwe.Slots.Tables.{
  Operation, request, leave, join, create_draft, publish_draft, code, Claim, Db, find_slot,
  blocked_pair, contains, are_friends, same_city,
}

-- What every mutation of the Store interface is given.
pub record Call : Type 0 where
  pub actor : ℕ
  pub key : ℕ
  pub request_hash : ℕ
  pub now : ℕ

-- The visibility part of the "slot.leave" query. LASSO, TRAVEL_CORRIDOR and PRIVATE give nothing.
abbrev reachable : Db → ℕ → Slot → Visibility → Bool
reachable db actor s visible_public = true
reachable db actor s visible_links = are_friends s.host_id actor db.friendships
reachable db actor s visible_selected = contains actor s.selected_user_ids
reachable db actor s visible_city = same_city db.clock actor s.host_id db.city_locks db.city_locks
reachable db actor s _ = false

-- The queries of the three cases of the switch, at the Slot that the resource names.
unfoldable pub replay_as_host : ℕ → Option Slot → Bool
replay_as_host actor none = false
replay_as_host actor (some s) = s.host_id == actor

unfoldable pub replay_as_requester : Db → ℕ → Option Slot → Bool
replay_as_requester db actor none = false
replay_as_requester db actor (some s) =
    not (s.host_id == actor)
    && not (blocked_pair actor s.host_id db.blocks)
    && (exists_row actor s.requests || exists_row actor s.members)

unfoldable pub replay_as_leaver : Db → ℕ → Option Slot → Bool
replay_as_leaver db actor none = false
replay_as_leaver db actor (some s) =
    exists_row actor s.members
    || exists_row actor s.requests
    || (is_open s.state
        && reachable db actor s s.visibility
        && not (blocked_pair actor s.host_id db.blocks))

-- `default` gives ErrForbidden for every other operation.
unfoldable pub replay_allowed : Db → ℕ → Option Slot → Operation → Bool
unfolding replay_as_host replay_as_requester replay_as_leaver
replay_allowed db actor found request = replay_as_requester db actor found
replay_allowed db actor found leave = replay_as_leaver db actor found
replay_allowed db actor found join = false
replay_allowed db actor found create_draft = false
replay_allowed db actor found publish_draft = false
replay_allowed db actor found _ = replay_as_host actor found

unfoldable pub authorize_replay : Db → ℕ → ℕ → Operation → Result (Unit {0})
authorize_replay db actor resource op =
    fail_if (not (replay_allowed db actor (find_slot resource db.slots) op)) forbidden

-- DELETE FROM mutation_idempotency WHERE actor_id AND idempotency_key AND expires_at<=now
unfoldable pub drop_expired : ℕ → ℕ → ℕ → List Claim → List Claim
drop_expired actor key now [] = []
drop_expired actor key now (c ∷ cs) =
    if c.actor == actor && c.key == key && leb c.expires_at now
    then drop_expired actor key now cs
    else c ∷ drop_expired actor key now cs

unfoldable pub find_claim : ℕ → ℕ → List Claim → Option Claim
find_claim actor key [] = none
find_claim actor key (c ∷ cs) =
    if c.actor == actor && c.key == key then some c else find_claim actor key cs

-- An existing row is a replay if it has the operation and the hash, and the actor may still see it.
unfoldable pub check_replay : Db → Call → Operation → Claim → Result (Bool × ℕ × Db)
check_replay db call op c = do
  fail_if (not (code c.operation == code op) || not (c.request_hash == call.request_hash))
      idempotency_conflict
  authorize_replay db call.actor c.resource c.operation
  ok (true, c.resource, db)

-- The Boolean is the Go code's `replay`; the number is the resource to answer with.
unfoldable pub claim_idempotency : ℕ → Db → Call → Operation → ℕ → Result (Bool × ℕ × Db)
claim_idempotency ttl db call op resource =
    let live = drop_expired call.actor call.key call.now db.claims in
    elim (find_claim call.actor call.key live) [
      | none ↦ ok (false, resource, record db { claims = new_claim ∷ live })
      | some c ↦ check_replay (record db { claims = live }) call op c
    ]
  where
    new_claim : Claim
    new_claim = record {
      actor = call.actor;
      key = call.key;
      operation = op;
      request_hash = call.request_hash;
      resource = resource;
      expires_at = call.now + ttl;
    }
