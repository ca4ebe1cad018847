-- ===== src/Friend/Store.antt =====
-- backend/internal/postgres/friend_store.go. The tables app_users and user_blocks are read only, so arguments: a test
-- whether a user exists, and the rows of blocks. The drawn id of a request is an argument too.
use qweqwe.Base.{
  ℕ, Bool, true, false, ◌&&◌, ◌||◌, not, Option, none, some, List, ◌∷◌, Result, ok, err, fail_if,
  ◌>>=◌, ◌>>◌, ◌==◌, ltb, if◌then◌else◌, any, find, update, delete, invalid_input, forbidden,
  not_found, already_friends, database_error,
}
use qweqwe.Slots.Tables.{BlockRow, blocked_pair}

pub data RequestStatus : Type 0 where
  pending accepted rejected cancelled : RequestStatus

abbrev pub status_eq : RequestStatus → RequestStatus → Bool
status_eq pending pending = true
status_eq accepted accepted = true
status_eq rejected rejected = true
status_eq cancelled cancelled = true
status_eq _ _ = false

-- A row of friend_requests.
pub record FriendRequest : Type 0 where
  pub id : ℕ
  pub requester : ℕ
  pub target : ℕ
  pub status : RequestStatus
  pub created_at : ℕ
  pub responded_at : Option ℕ

-- A row of friendships.
pub record Friendship : Type 0 where
  pub user_lo : ℕ
  pub user_hi : ℕ
  pub created_at : ℕ

-- An event of the outbox, with the request and the user whom it is for.
pub data FriendEvent : Type 0 where
  friend_requested friend_accepted : (request subject : ℕ) → FriendEvent

pub record FriendDb : Type 0 where
  pub requests : List FriendRequest
  pub friendships : List Friendship
  pub outbox : List FriendEvent

-- `Outcome`
pub data FriendOutcome : Type 0 where
  outcome_requested outcome_accepted outcome_already_pending : FriendOutcome

-- `canonicalPair`, which compares the lowercase hexadecimal texts; a user id is the number that this text writes.
abbrev pub pair_lo : ℕ → ℕ → ℕ
pair_lo a b = if ltb b a then b else a

abbrev pub pair_hi : ℕ → ℕ → ℕ
pair_hi a b = if ltb b a then a else b

abbrev pub is_pair : (a b : ℕ) → Friendship → Bool
is_pair a b f = f.user_lo == pair_lo a b && f.user_hi == pair_hi a b

-- `areFriendsTx`
abbrev pub are_linked : (a b : ℕ) → List Friendship → Bool
are_linked a b = any (is_pair a b)

-- WHERE requester_id AND target_id AND status
abbrev pub is_request : RequestStatus → (requester target : ℕ) → FriendRequest → Bool
is_request s a b r = status_eq r.status s && (r.requester == a && r.target == b)

abbrev pub is_id : ℕ → FriendRequest → Bool
is_id id r = r.id == id

abbrev pub responded : RequestStatus → ℕ → FriendRequest → FriendRequest
responded s now r = record r { status = s; responded_at = some now }

-- INSERT INTO friendships … ON CONFLICT DO NOTHING
unfoldable pub link : (a b now : ℕ) → List Friendship → List Friendship
link a b now fs =
    if are_linked a b fs
    then fs
    else record { user_lo = pair_lo a b; user_hi = pair_hi a b; created_at = now } ∷ fs

-- `acceptRequestRowTx`
unfoldable pub accept_row : (id requester target now : ℕ) → FriendDb → FriendDb
accept_row id requester target now db = record {
  requests = update (is_id id) (responded accepted now) db.requests;
  friendships = link requester target now db.friendships;
  outbox = friend_accepted id requester ∷ db.outbox;
}

-- The INSERT and its event, with the primary key, the CHECK and the unique index of pending pairs.
unfoldable pub insert_request : (id requester target now : ℕ) → FriendDb → Result FriendDb
insert_request id a b now db = do
  fail_if (any (is_id id) db.requests || a == b || any (is_request pending a b) db.requests)
      database_error
  ok (record db {
    requests =
        record {
          id = id;
          requester = a;
          target = b;
          status = pending;
          created_at = now;
          responded_at = none;
        }
        ∷ db.requests;
    outbox = friend_requested id b ∷ db.outbox;
  })

-- Past the guards: the reverse request is accepted, the same one left, and else one made.
unfoldable pub ask : (id actor target now : ℕ) → FriendDb → Result (FriendOutcome × FriendDb)
ask id actor target now db = elim (find (is_request pending target actor) db.requests) [
  | some r ↦ ok (outcome_accepted, accept_row r.id target actor now db)
  | none ↦
      (if any (is_request pending actor target) db.requests
        then ok (outcome_already_pending, db)
        else insert_request id actor target now db >>= λ t. ok (outcome_requested, t))
]

-- `Request`
unfoldable pub send_request :
    (ℕ → Bool)
    → List BlockRow
    → (id actor target now : ℕ) → FriendDb
    → Result (FriendOutcome × FriendDb)
send_request is_user blocks id actor target now db = do
  fail_if (not (is_user target)) invalid_input
  fail_if (blocked_pair actor target blocks) forbidden
  fail_if (are_linked actor target db.friendships) already_friends
  ask id actor target now db

-- `Accept`; without a pending request it succeeds between friends.
unfoldable pub accept_request : (actor requester now : ℕ) → FriendDb → Result FriendDb
accept_request actor requester now db =
    elim (find (is_request pending requester actor) db.requests) [
      | some r ↦ ok (accept_row r.id requester actor now db)
      | none ↦ (if are_linked actor requester db.friendships then ok db else err not_found)
    ]

-- UPDATE … SET status WHERE … AND status='PENDING'; without such a row, one that has the status
-- already will do.
unfoldable pub close_request :
    RequestStatus → (requester target now : ℕ) → FriendDb → Result FriendDb
close_request s a b now db =
    if any (is_request pending a b) db.requests
    then ok (record db { requests = update (is_request pending a b) (responded s now) db.requests })
    else (if any (is_request s a b) db.requests then ok db else err not_found)

-- `Reject` and `Cancel`
abbrev pub reject_request : (actor requester now : ℕ) → FriendDb → Result FriendDb
reject_request actor requester = close_request rejected requester actor

abbrev pub cancel_request : (actor target now : ℕ) → FriendDb → Result FriendDb
cancel_request actor target = close_request cancelled actor target

-- `Remove`
abbrev pub remove_friend : (actor friend : ℕ) → FriendDb → FriendDb
remove_friend actor friend db = record db {
  friendships = delete (is_pair actor friend) db.friendships;
}
