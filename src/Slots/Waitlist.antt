-- ===== src/Slots/Waitlist.antt =====
-- Admission in v1.1: backend/internal/postgres/v11_access_store.go (`Join`) and v11_waitlist_store.go.
use qweqwe.Base.{
  ℕ, suc, zero, ◌+◌, ◌-◌, Bool, not, ◌&&◌, ◌||◌, Option, none, some, List, [], ◌∷◌, Result, ok,
  ◌>>=◌, ◌>>◌, fail_if, forbidden, conflict, invalid_state, not_found, capacity_full, request_limit,
  duplicate_request, already_member, invariant_violated, ◌==◌, leb, ltb, if◌then◌else◌, length,
}
use qweqwe.Slots.Model.{
  Slot, full, UserRow, member_joined, member_left, is_terminal, is_full, is_active, is_filling,
  is_open, is_instant, is_waitlist, max_pending_requests,
}
use qweqwe.Slots.Rows.{exists_row, delete_row}
use qweqwe.Slots.Tables.{BlockRow, blocked_pair}
use qweqwe.Slots.Social.{emit, touch, fill_state, withdraw_request}

-- The member row, the notice, and the new count and state of an admission.
unfoldable pub admit : ℕ → ℕ → Slot → Slot
admit u now s = touch now (record s {
  members = record { user = u; at = now } ∷ s.members;
  notices = emit member_joined u s.notices;
  accepted_count = s.accepted_count + 1;
  state = fill_state (s.accepted_count + 1) s.capacity;
})

unfoldable pub join_slot : ℕ → ℕ → List BlockRow → Slot → Result Slot
join_slot actor now blocks s = do
  fail_if (s.host_id == actor) forbidden
  fail_if (not (is_instant s.access_mode)) invalid_state
  fail_if (is_full s.state || leb s.capacity s.accepted_count) capacity_full
  fail_if (not (is_filling s.state)) invalid_state
  fail_if (blocked_pair actor s.host_id blocks) forbidden
  fail_if (exists_row actor s.members) already_member
  fail_if (exists_row actor s.requests) invalid_state
  ok (admit actor now s)

-- ORDER BY created_at ASC,user_id ASC
unfoldable pub comes_first : UserRow → UserRow → Bool
comes_first a b = ltb a.at b.at || (a.at == b.at && leb a.user b.user)

unfoldable pub insert_row : UserRow → List UserRow → List UserRow
unfolding comes_first
insert_row r [] = r ∷ []
insert_row r (x ∷ xs) = if comes_first r x then r ∷ x ∷ xs else x ∷ insert_row r xs

unfoldable pub queue_order : List UserRow → List UserRow
unfolding insert_row
queue_order [] = []
queue_order (r ∷ rs) = insert_row r (queue_order rs)

-- A queue position that has outlived the TTL.
unfoldable pub is_expired : ℕ → ℕ → UserRow → Bool
is_expired ttl now c = ltb 0 ttl && leb (c.at + ttl) now

-- The candidates that the loop deletes without promoting them.
unfoldable pub is_skipped : ℕ → ℕ → List BlockRow → Slot → UserRow → Bool
unfolding is_expired
is_skipped ttl now blocks s c =
    is_expired ttl now c || blocked_pair c.user s.host_id blocks || exists_row c.user s.members

-- The loop over the candidates: the Slot with the rows changed, and the user promoted, if any. The count,
-- state and version are written by the caller.
unfoldable pub promote_loop : ℕ → ℕ → List BlockRow → List UserRow → Slot → Slot × Option ℕ
promote_loop ttl now blocks [] s = (s, none)
promote_loop ttl now blocks (c ∷ cs) s =
    let dropped = record s { requests = delete_row c.user s.requests } in
    let rest = promote_loop ttl now blocks cs dropped in
    if is_skipped ttl now blocks s c then rest else (
      record dropped {
        members = record { user = c.user; at = now } ∷ s.members;
        notices = emit member_joined c.user s.notices;
      },
      some c.user,
    )

abbrev pub promoted_count : ℕ → Option ℕ → ℕ
promoted_count n none = n
promoted_count n (some u) = n + 1

-- `promoteOldestWaitlistTx`: the Slot, the new count, and the user promoted.
unfoldable pub promote_oldest : ℕ → ℕ → List BlockRow → ℕ → ℕ → Slot → Slot × ℕ × Option ℕ
promote_oldest ttl now blocks count capacity s =
    if leb capacity count
    then (s, count, none)
    else (let (t, promoted) = promote_loop ttl now blocks (queue_order s.requests) s in
        (t, promoted_count count promoted, promoted))

-- The created_at of the user's request.
unfoldable pub requested_at : ℕ → List UserRow → Option ℕ
requested_at u [] = none
requested_at u (r ∷ rs) = if r.user == u then some r.at else requested_at u rs

-- An expired request of the actor is deleted before a new one; one that has not expired is an error.
unfoldable pub purge_expired : ℕ → ℕ → ℕ → Slot → Result Slot
purge_expired ttl actor now s = elim (requested_at actor s.requests) [
  | none ↦ ok s
  | some at ↦ (do
    fail_if (ltb now (at + ttl)) duplicate_request
    ok (record s { requests = delete_row actor s.requests }))
]

-- The request when every seat is taken.
unfoldable pub enqueue : ℕ → ℕ → Slot → Result Slot
enqueue actor now s = do
  fail_if (leb max_pending_requests (length s.requests)) request_limit
  ok (
      touch now
        (record s { requests = record { user = actor; at = now } ∷ s.requests; state = full }))

unfoldable pub seat_or_enqueue : ℕ → ℕ → Slot → Result Slot
seat_or_enqueue actor now s =
    if ltb s.accepted_count s.capacity then ok (admit actor now s) else enqueue actor now s

-- `waitlistRequest`
unfoldable pub waitlist_request : ℕ → ℕ → ℕ → List BlockRow → Slot → Result Slot
waitlist_request ttl actor now blocks s = do
  fail_if (s.host_id == actor) forbidden
  fail_if (not (is_waitlist s.access_mode) || not (is_open s.state)) invalid_state
  fail_if (blocked_pair actor s.host_id blocks) forbidden
  fail_if (exists_row actor s.members) already_member
  purged ← purge_expired ttl actor now s
  seat_or_enqueue actor now purged

-- The count and state after a promotion attempt for a Slot that has just lost a member.
unfoldable pub refill_seat : ℕ → ℕ → List BlockRow → ℕ → Slot → Slot
refill_seat ttl now blocks count s =
    let (t, n, promoted) = promote_oldest ttl now blocks count s.capacity s in
    record t { accepted_count = n; state = fill_state n s.capacity }

-- The tail that `waitlistLeave` and `waitlistRemoveMember` share, from the deletion of the member.
unfoldable pub release_seat : ℕ → ℕ → ℕ → List BlockRow → Slot → Result Slot
release_seat ttl u now blocks s = do
  fail_if (not (exists_row u s.members)) not_found
  fail_if (leb s.accepted_count 0) invariant_violated
  let left = record s { members = delete_row u s.members; notices = emit member_left u s.notices }
  ok (
      touch now (
        if is_active s.state
        then record left { accepted_count = s.accepted_count - 1 }
        else refill_seat ttl now blocks (s.accepted_count - 1) left))

-- `waitlistLeave`
unfoldable pub waitlist_leave : ℕ → ℕ → ℕ → List BlockRow → Slot → Result Slot
waitlist_leave ttl actor now blocks s = do
  fail_if (s.host_id == actor) forbidden
  fail_if (not (is_waitlist s.access_mode) || is_terminal s.state) invalid_state
  if exists_row actor s.requests
      then ok (withdraw_request actor now s)
      else release_seat ttl actor now blocks s

-- `waitlistRemoveMember`
unfoldable pub waitlist_remove_member : ℕ → ℕ → ℕ → ℕ → ℕ → List BlockRow → Slot → Result Slot
waitlist_remove_member ttl actor member expected now blocks s = do
  fail_if (not (s.host_id == actor) || member == s.host_id) forbidden
  fail_if (not (is_waitlist s.access_mode) || not (is_open s.state || is_active s.state))
      invalid_state
  fail_if (not (s.version == expected)) conflict
  fail_if (blocked_pair actor member blocks) forbidden
  release_seat ttl member now blocks s

-- The loop of `Edit` and of `blockPairTx` that promotes until the Slot is full or nobody is left: the number is
-- the rounds left, which start at the free seats.
unfoldable pub promote_all : ℕ → ℕ → ℕ → List BlockRow → ℕ → ℕ → Slot → Slot × ℕ
promote_all zero ttl now blocks count capacity s = (s, count)
promote_all (suc rounds) ttl now blocks count capacity s =
    let r = promote_oldest ttl now blocks count capacity s in
    elim r.2 [ none ↦ (r.0, r.1) | some u ↦ promote_all rounds ttl now blocks r.1 capacity r.0 ]
