-- ===== src/Slots/Social.antt =====
-- The v1.0 operations of backend/internal/postgres/slot_store.go and remove_member.go, as the checks and writes
-- on the locked Slot row and the rows that refer to it.
use qweqwe.Base.{
  ℕ, ◌+◌, ◌-◌, not, ◌||◌, some, List, [], ◌∷◌, Result, ok, ◌>>◌, fail_if, forbidden, conflict,
  invalid_state, not_found, capacity_full, request_limit, duplicate_request, already_member,
  request_not_found, invariant_violated, ◌==◌, leb, if◌then◌else◌, length,
}
use qweqwe.Slots.Model.{
  Slot, State, filling, full, active, completed, cancelled, Notice, member_joined, member_left,
  slot_started, SystemEvent, is_terminal, is_full, is_active, is_filling, is_seating, is_open,
  is_approval, max_pending_requests,
}
use qweqwe.Slots.Rows.{exists_row, delete_row}
use qweqwe.Slots.Tables.{BlockRow, blocked_pair}

-- `emitSystemChatMessageTx`
abbrev pub emit : SystemEvent → ℕ → List Notice → List Notice
emit e u ns = record { event = e; subject = u } ∷ ns

-- UPDATE slots SET version=version+1,updated_at=now
abbrev pub touch : ℕ → Slot → Slot
touch now s = record s { version = s.version + 1; updated_at = now }

-- newState of `Approve`, `Join`, `waitlistLeave` and others.
abbrev pub fill_state : ℕ → ℕ → State
fill_state count capacity = if leb capacity count then full else filling

abbrev pub reopen : State → State
reopen full = filling
reopen s = s

unfoldable pub cancel_slot : ℕ → ℕ → ℕ → Slot → Result Slot
cancel_slot actor expected now s = do
  fail_if (not (s.host_id == actor)) forbidden
  fail_if (is_terminal s.state) invalid_state
  fail_if (not (s.version == expected)) conflict
  ok (record s {
    requests = [];
    state = cancelled;
    cancelled_at = some now;
    updated_at = now;
    version = s.version + 1;
  })

unfoldable pub request_slot : ℕ → ℕ → List BlockRow → Slot → Result Slot
request_slot actor now blocks s = do
  fail_if (s.host_id == actor) forbidden
  fail_if (not (is_approval s.access_mode)) invalid_state
  fail_if (is_full s.state || leb s.capacity s.accepted_count) capacity_full
  fail_if (not (is_filling s.state)) invalid_state
  fail_if (blocked_pair actor s.host_id blocks) forbidden
  fail_if (exists_row actor s.members) already_member
  fail_if (exists_row actor s.requests) duplicate_request
  fail_if (leb max_pending_requests (length s.requests)) request_limit
  ok (touch now (record s { requests = record { user = actor; at = now } ∷ s.requests }))

-- The second half of `Leave`: the actor had no request.
unfoldable pub leave_membership : ℕ → ℕ → Slot → Result Slot
leave_membership actor now s = do
  fail_if (not (exists_row actor s.members)) not_found
  fail_if (leb s.accepted_count 0) invariant_violated
  ok (
      touch now (record s {
        members = delete_row actor s.members;
        notices = emit member_left actor s.notices;
        accepted_count = s.accepted_count - 1;
        state = reopen s.state;
      }))

-- The first half, in both stores.
unfoldable pub withdraw_request : ℕ → ℕ → Slot → Slot
withdraw_request actor now s = touch now (record s { requests = delete_row actor s.requests })

unfoldable pub leave_slot : ℕ → ℕ → Slot → Result Slot
leave_slot actor now s = do
  fail_if (s.host_id == actor) forbidden
  fail_if (is_terminal s.state) invalid_state
  if exists_row actor s.requests
      then ok (withdraw_request actor now s)
      else leave_membership actor now s

unfoldable pub approve_slot : ℕ → ℕ → ℕ → List BlockRow → Slot → Result Slot
approve_slot actor requester now blocks s = do
  fail_if (not (s.host_id == actor)) forbidden
  fail_if (not (is_approval s.access_mode) || not (is_seating s.state)) invalid_state
  fail_if (is_full s.state || leb s.capacity s.accepted_count) capacity_full
  fail_if (blocked_pair actor requester blocks) forbidden
  fail_if (exists_row requester s.members) already_member
  fail_if (not (exists_row requester s.requests)) request_not_found
  ok (
      touch now (record s {
        members = record { user = requester; at = now } ∷ s.members;
        requests = delete_row requester s.requests;
        notices = emit member_joined requester s.notices;
        accepted_count = s.accepted_count + 1;
        state = fill_state (s.accepted_count + 1) s.capacity;
      }))

unfoldable pub reject_slot : ℕ → ℕ → ℕ → Slot → Result Slot
reject_slot actor requester now s = do
  fail_if (not (s.host_id == actor)) forbidden
  fail_if (is_terminal s.state || is_active s.state) invalid_state
  fail_if (not (exists_row requester s.requests)) request_not_found
  ok (withdraw_request requester now s)

-- `hostLifecycle` with start true.
unfoldable pub start_slot : ℕ → ℕ → Slot → Result Slot
start_slot actor now s = do
  fail_if (not (s.host_id == actor)) forbidden
  fail_if (not (is_seating s.state) || not (leb 1 s.accepted_count)) invalid_state
  ok (
      touch now (record s {
        requests = [];
        state = active;
        started_at = some now;
        notices = emit slot_started s.host_id s.notices;
      }))

-- `hostLifecycle` with start false.
unfoldable pub complete_slot : ℕ → ℕ → Slot → Result Slot
complete_slot actor now s = do
  fail_if (not (s.host_id == actor)) forbidden
  fail_if (not (is_active s.state)) invalid_state
  ok (touch now (record s { state = completed; completed_at = some now }))

-- The checks of `removeMemberTx` that a replay repeats too.
unfoldable pub remove_authorized : ℕ → ℕ → List BlockRow → Slot → Result (Unit {0})
remove_authorized actor member blocks s = do
  fail_if (not (s.host_id == actor) || member == s.host_id) forbidden
  fail_if (blocked_pair actor member blocks) forbidden

unfoldable pub remove_slot_member : ℕ → ℕ → ℕ → ℕ → List BlockRow → Slot → Result Slot
remove_slot_member actor member expected now blocks s = do
  remove_authorized actor member blocks s
  fail_if (not (is_open s.state || is_active s.state)) invalid_state
  fail_if (not (s.version == expected)) conflict
  fail_if (not (exists_row member s.members)) not_found
  fail_if (leb s.accepted_count 0) invariant_violated
  ok (
      touch now (record s {
        members = delete_row member s.members;
        notices = emit member_left member s.notices;
        accepted_count = s.accepted_count - 1;
        state = reopen s.state;
      }))
