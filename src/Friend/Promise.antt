-- ===== src/Friend/Promise.antt =====
-- Every call of the friend service does what the contract says.
use qweqwe.Base.{
  ℕ, ◌≡◌, refl, Bool, false, Option, none, some, List, ◌==◌, any, Bool-cases, inl, inr, ok, Result,
  ◌>>=◌,
}
use qweqwe.Slots.Tables.{BlockRow, blocked_pair}
use qweqwe.Friend.Store.{
  FriendDb, FriendOutcome, is_id, are_linked, send_request, remove_friend, accept_request,
  reject_request, cancel_request,
}
use qweqwe.Friend.Service.{
  FriendCall, requests, accepts, rejects, cancels, removes, two_users, silent, with_outcome,
  serve_friend,
}
use qweqwe.Friend.Contract.{
  Links, links_of, IsSameLinks, Agrees, promised, promised_request, promised_remove,
  promised_accept, promised_reject, promised_cancel,
}
use qweqwe.Friend.Rows.{linked-delete}
use qweqwe.Friend.Tidy.{IsTidy}
use qweqwe.Friend.Refinement.{
  IsKeeping, ask-Agrees, accept_request-Agrees, reject-Agrees, cancel-Agrees,
}

-- The id that the database draws for a request is new.
abbrev pub IsFresh : FriendDb → FriendCall → Type 0
IsFresh db (requests actor target id now) = any (is_id id) db.requests ≡ false
IsFresh db _ = Unit {0}

send_request-Agrees :
    (is_user : ℕ → Bool) (blocks : List BlockRow) (id a b now : ℕ) (db : FriendDb)
    → IsTidy db
    → (a == b) ≡ false
    → any (is_id id) db.requests ≡ false
    → Agrees
        (with_outcome (send_request is_user blocks id a b now db))
        (promised_request is_user blocks a b (links_of db))
      × IsKeeping (with_outcome (send_request is_user blocks id a b now db))
unfolding send_request
send_request-Agrees is_user blocks id a b now db t apart fresh = elim (Bool-cases (is_user b)) [
  | inr nobody ↦ rw (nobody, send_request) (refl, tt)
  | inl user ↦ elim (Bool-cases (blocked_pair a b blocks)) [
    | inl blocked ↦ rw (user, blocked, send_request) (refl, tt)
    | inr free ↦ elim (Bool-cases (are_linked a b db.friendships)) [
      | inl linked ↦ rw (user, free, linked, send_request) (refl, tt)
      | inr strangers ↦
          rw (user, free, strangers, send_request) (ask-Agrees id a b now db t apart fresh)
    ]
  ]
]

-- Past the check that the ids are of two users.
two_users-Agrees :
    (actor other : Option ℕ) (m : ℕ → ℕ → Result (Option FriendOutcome × FriendDb))
    (n : ℕ → ℕ → Result (Option FriendOutcome × Links))
    → ((a b : ℕ) → (a == b) ≡ false → Agrees (m a b) (n a b) × IsKeeping (m a b))
    → Agrees
        (two_users actor other >>= λ u. m (u.0) (u.1))
        (two_users actor other >>= λ u. n (u.0) (u.1))
      × IsKeeping (two_users actor other >>= λ u. m (u.0) (u.1))
unfolding two_users
two_users-Agrees (some a) (some b) m n h = elim (Bool-cases (a == b)) [
  | inl same ↦ rw (same) (refl, tt)
  | inr apart ↦ rw (apart) (h a b apart)
]
two_users-Agrees (some a) none m n h = (refl, tt)
two_users-Agrees none (some b) m n h = (refl, tt)
two_users-Agrees none none m n h = (refl, tt)

removed-Agrees :
    (a b : ℕ) (db : FriendDb)
    → IsSameLinks (links_of (remove_friend a b db)) (promised_remove a b (links_of db))
removed-Agrees a b db = record {
  waits = λ x y. refl;
  was_rejected = λ x y. refl;
  was_cancelled = λ x y. refl;
  friends = λ x y. linked-delete a b x y db.friendships;
}

-- A call of the service, on tables that keep their keys and with a new id, answers as the contract says, leaves the
-- links that it says, and keeps the keys.
pub serve_friend-Agrees :
    (is_user : ℕ → Bool) (blocks : List BlockRow) (c : FriendCall) (db : FriendDb)
    → IsTidy db
    → IsFresh db c
    → Agrees (serve_friend is_user blocks c db) (promised is_user blocks c (links_of db))
      × IsKeeping (serve_friend is_user blocks c db)
unfolding serve_friend promised
serve_friend-Agrees is_user blocks (requests actor target id now) db t fresh =
    two_users-Agrees actor target (λ a b. with_outcome (send_request is_user blocks id a b now db))
      (λ a b. promised_request is_user blocks a b (links_of db))
      (λ a b apart. send_request-Agrees is_user blocks id a b now db t apart fresh)
serve_friend-Agrees is_user blocks (accepts actor requester now) db t fresh =
    two_users-Agrees actor requester (λ a b. silent (accept_request a b now db))
      (λ a b. promised_accept a b (links_of db)) (λ a b apart. accept_request-Agrees a b now db t)
serve_friend-Agrees is_user blocks (rejects actor requester now) db t fresh =
    two_users-Agrees actor requester (λ a b. silent (reject_request a b now db))
      (λ a b. promised_reject a b (links_of db)) (λ a b apart. reject-Agrees b a now db t)
serve_friend-Agrees is_user blocks (cancels actor target now) db t fresh =
    two_users-Agrees actor target (λ a b. silent (cancel_request a b now db))
      (λ a b. promised_cancel a b (links_of db)) (λ a b apart. cancel-Agrees a b now db t)
serve_friend-Agrees is_user blocks (removes actor friend) db t fresh =
    two_users-Agrees actor friend (λ a b. ok (none, remove_friend a b db))
      (λ a b. ok (none, promised_remove a b (links_of db)))
      (λ a b apart. ((refl, removed-Agrees a b db), record { ids = t.ids; pairs = t.pairs }))
