-- ===== src/Friend/Service.antt =====
-- backend/internal/friend/model.go. An id is a number, and none when it is empty after TrimSpace.
use qweqwe.Base.{
  ℕ, Bool, ◌&&◌, not, Option, none, some, List, Result, ok, err, fail_if, ◌>>=◌, ◌>>◌, ◌==◌,
  invalid_input,
}
use qweqwe.Slots.Tables.{BlockRow}
use qweqwe.Friend.Store.{
  FriendDb, FriendOutcome, send_request, accept_request, reject_request, cancel_request,
  remove_friend, are_linked,
}

-- `actorID == "" || targetID == "" || actorID == targetID`
unfoldable pub two_users : Option ℕ → Option ℕ → Result (ℕ × ℕ)
two_users (some a) (some b) = fail_if (a == b) invalid_input >> ok (a, b)
two_users _ _ = err invalid_input

-- A call of the service, with the clock and the id that the database draws.
pub data FriendCall : Type 0 where
  requests : (actor target : Option ℕ) (id now : ℕ) → FriendCall
  accepts : (actor requester : Option ℕ) (now : ℕ) → FriendCall
  rejects : (actor requester : Option ℕ) (now : ℕ) → FriendCall
  cancels : (actor target : Option ℕ) (now : ℕ) → FriendCall
  removes : (actor friend : Option ℕ) → FriendCall

-- What a call answers: Request gives an outcome, the others nothing.
abbrev pub silent : Result FriendDb → Result (Option FriendOutcome × FriendDb)
silent (ok db) = ok (none, db)
silent (err e) = err e

abbrev pub with_outcome :
    Result (FriendOutcome × FriendDb) → Result (Option FriendOutcome × FriendDb)
with_outcome (ok r) = ok (some (r.0), r.1)
with_outcome (err e) = err e

-- `Request`, `Accept`, `Reject`, `Cancel` and `Remove` of the service, over the users and blocks of
-- that moment.
unfoldable pub serve_friend :
    (ℕ → Bool) → List BlockRow → FriendCall → FriendDb → Result (Option FriendOutcome × FriendDb)
serve_friend is_user blocks (requests actor target id now) db = do
  u ← two_users actor target
  with_outcome (send_request is_user blocks id (u.0) (u.1) now db)
serve_friend is_user blocks (accepts actor requester now) db = do
  u ← two_users actor requester
  silent (accept_request (u.0) (u.1) now db)
serve_friend is_user blocks (rejects actor requester now) db = do
  u ← two_users actor requester
  silent (reject_request (u.0) (u.1) now db)
serve_friend is_user blocks (cancels actor target now) db = do
  u ← two_users actor target
  silent (cancel_request (u.0) (u.1) now db)
serve_friend is_user blocks (removes actor friend) db = do
  u ← two_users actor friend
  ok (none, remove_friend (u.0) (u.1) db)

-- `AreFriends` of the service
unfoldable pub are_friends_query : Option ℕ → Option ℕ → FriendDb → Result Bool
are_friends_query (some a) (some b) db = ok (not_same a b && are_linked a b db.friendships)
  where
    not_same : ℕ → ℕ → Bool
    not_same x y = not (x == y)
are_friends_query _ _ db = err invalid_input
