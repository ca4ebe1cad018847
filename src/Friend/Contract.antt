-- ===== src/Friend/Contract.antt =====
-- The friend service without its tables: who waits for whom, who was rejected or cancelled before, and who is whose
-- friend, symmetrically. The interface friend.Store of backend/internal/friend/model.go describes it in two places: the
-- comment above it wants a repeated call to be answered by a no-op or the current state, and the comments on Accept,
-- Reject and Cancel want ErrNotFound when no request is PENDING. The two disagree about a call that is repeated. This
-- contract follows the first, and is more lenient than the second: Accept between friends, Reject of a request that was
-- rejected and Cancel of one that was cancelled succeed and change nothing; without these it is ErrNotFound.
use qweqwe.Base.{
  ℕ, ◌≡◌, Bool, true, false, ◌&&◌, ◌||◌, not, Option, none, some, List, Result, ok, err, fail_if,
  ◌>>=◌, ◌>>◌, ◌==◌, if◌then◌else◌, any, invalid_input, forbidden, not_found, already_friends,
}
use qweqwe.Slots.Tables.{BlockRow, blocked_pair}
use qweqwe.Friend.Store.{
  FriendDb, FriendOutcome, outcome_requested, outcome_accepted, outcome_already_pending, pending,
  rejected, cancelled, is_request, are_linked,
}
use qweqwe.Friend.Service.{FriendCall, requests, accepts, rejects, cancels, removes, two_users}

pub record Links : Type 0 where
  pub waits : ℕ → ℕ → Bool
  pub was_rejected : ℕ → ℕ → Bool
  pub was_cancelled : ℕ → ℕ → Bool
  pub friends : ℕ → ℕ → Bool

abbrev pub set_at : (a b : ℕ) → Bool → (ℕ → ℕ → Bool) → ℕ → ℕ → Bool
set_at a b v f x y = if x == a && y == b then v else f x y

abbrev pub set_both : (a b : ℕ) → Bool → (ℕ → ℕ → Bool) → ℕ → ℕ → Bool
set_both a b v f x y = if (x == a && y == b) || (x == b && y == a) then v else f x y

abbrev pub befriended : (requester target : ℕ) → Links → Links
befriended a b l = record l {
  waits = set_at a b false l.waits;
  friends = set_both a b true l.friends;
}

abbrev pub promised_request :
    (ℕ → Bool) → List BlockRow → (actor target : ℕ) → Links → Result (Option FriendOutcome × Links)
promised_request is_user blocks a b l = do
  fail_if (not (is_user b)) invalid_input
  fail_if (blocked_pair a b blocks) forbidden
  fail_if (l.friends a b) already_friends
  ok (
      if l.waits b a
      then (some outcome_accepted, befriended b a l)
      else (if l.waits a b
          then (some outcome_already_pending, l)
          else (some outcome_requested, record l { waits = set_at a b true l.waits })))

abbrev pub promised_accept : (actor requester : ℕ) → Links → Result (Option FriendOutcome × Links)
promised_accept a b l =
    if l.waits b a
    then ok (none, befriended b a l)
    else (if l.friends a b then ok (none, l) else err not_found)

abbrev pub promised_reject : (actor requester : ℕ) → Links → Result (Option FriendOutcome × Links)
promised_reject a b l =
    if l.waits b a
    then ok (
      none,
      record l { waits = set_at b a false l.waits; was_rejected = set_at b a true l.was_rejected },
    )
    else (if l.was_rejected b a then ok (none, l) else err not_found)

abbrev pub promised_cancel : (actor target : ℕ) → Links → Result (Option FriendOutcome × Links)
promised_cancel a b l =
    if l.waits a b
    then ok (
      none,
      record l {
        waits = set_at a b false l.waits;
        was_cancelled = set_at a b true l.was_cancelled;
      },
    )
    else (if l.was_cancelled a b then ok (none, l) else err not_found)

abbrev pub promised_remove : (actor friend : ℕ) → Links → Links
promised_remove a b l = record l { friends = set_both a b false l.friends }

unfoldable pub promised :
    (ℕ → Bool) → List BlockRow → FriendCall → Links → Result (Option FriendOutcome × Links)
promised is_user blocks (requests actor target id now) l = do
  u ← two_users actor target
  promised_request is_user blocks (u.0) (u.1) l
promised is_user blocks (accepts actor requester now) l = do
  u ← two_users actor requester
  promised_accept (u.0) (u.1) l
promised is_user blocks (rejects actor requester now) l = do
  u ← two_users actor requester
  promised_reject (u.0) (u.1) l
promised is_user blocks (cancels actor target now) l = do
  u ← two_users actor target
  promised_cancel (u.0) (u.1) l
promised is_user blocks (removes actor friend) l = do
  u ← two_users actor friend
  ok (none, promised_remove (u.0) (u.1) l)

-- The tables as the contract sees them.
abbrev pub links_of : FriendDb → Links
links_of db = record {
  waits = λ a b. any (is_request pending a b) db.requests;
  was_rejected = λ a b. any (is_request rejected a b) db.requests;
  was_cancelled = λ a b. any (is_request cancelled a b) db.requests;
  friends = λ a b. are_linked a b db.friendships;
}

pub record IsSameLinks (l k : Links) : Type 0 where
  pub waits : (a b : ℕ) → l.waits a b ≡ k.waits a b
  pub was_rejected : (a b : ℕ) → l.was_rejected a b ≡ k.was_rejected a b
  pub was_cancelled : (a b : ℕ) → l.was_cancelled a b ≡ k.was_cancelled a b
  pub friends : (a b : ℕ) → l.friends a b ≡ k.friends a b

-- The same answer, and the same links after it.
abbrev pub Agrees :
    Result (Option FriendOutcome × FriendDb) → Result (Option FriendOutcome × Links) → Type 0
Agrees (ok r) (ok s) = (r.0 ≡ s.0) × IsSameLinks (links_of (r.1)) (s.1)
Agrees (err e) (err d) = e ≡ d
Agrees (ok r) (err d) = true ≡ false
Agrees (err e) (ok s) = true ≡ false
