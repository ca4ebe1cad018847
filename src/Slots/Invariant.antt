-- ===== src/Slots/Invariant.antt =====
-- The invariant of one Slot, and that the v1.0 operations keep it.
pub mod Admission
pub mod Hosting
pub mod Blocking
use qweqwe.Base.{
  ℕ, ◌+◌, ◌-◌, ◌≤◌, ◌<◌, ◌≡◌, refl, ◌⊎◌, inl, inr, Bool, true, false, List, [], ◌∷◌, arith, ◌==◌,
  length, Ensures, Result, ok, guard-Ensures, Bool-cases,
}
use qweqwe.Slots.Model.{
  Slot, UserRow, State, draft, published, filling, full, active, completed, cancelled, expired,
  moderated, AccessMode, instant, approval, waitlist, is_waitlist,
}
use qweqwe.Slots.Rows.{exists_row, delete_row, length-delete, delete_absent}
use qweqwe.Slots.Tables.{BlockRow, blocked_pair}
use qweqwe.Slots.Roster.{
  IsRoster, blocked_pair_symm, delete_request-IsRoster, delete_member-IsRoster,
  clear_requests-IsRoster, add_request-IsRoster, add_member-IsRoster,
}
use qweqwe.Slots.Social.{
  cancel_slot, request_slot, leave_slot, leave_membership, withdraw_request, approve_slot,
  reject_slot, start_slot, complete_slot, remove_authorized, remove_slot_member,
}

-- The count and the queue in each state: a draft has neither members nor requests, FILLING has a
-- free seat, FULL has none, and from ACTIVE on no request is left.
abbrev pub Seated : State → ℕ → ℕ → List UserRow → Type 0
Seated draft count capacity rs = (count ≡ 0) × (count ≤ capacity) × (rs ≡ [])
Seated published count capacity rs = count ≤ capacity
Seated filling count capacity rs = count < capacity
Seated full count capacity rs = count ≡ capacity
Seated active count capacity rs = (count ≤ capacity) × (rs ≡ [])
Seated completed count capacity rs = (count ≤ capacity) × (rs ≡ [])
Seated cancelled count capacity rs = (count ≤ capacity) × (rs ≡ [])
Seated expired count capacity rs = (count ≤ capacity) × (rs ≡ [])
Seated moderated count capacity rs = (count ≤ capacity) × (rs ≡ [])

-- A WAITLIST Slot has no queue while it has a free seat.
abbrev pub Conserves : AccessMode → ℕ → ℕ → List UserRow → Type 0
Conserves waitlist count capacity rs = (rs ≡ []) ⊎ (capacity ≤ count)
Conserves instant count capacity rs = Unit
Conserves approval count capacity rs = Unit

pub record IsSound (blocks : List BlockRow) (s : Slot) : Type 0 where
  pub roster : IsRoster blocks s.host_id s.requests s.members
  pub counted : s.accepted_count ≡ length s.members
  pub seated : Seated s.state s.accepted_count s.capacity s.requests
  pub conserves : Conserves s.access_mode s.accepted_count s.capacity s.requests

module _ (blocks : List BlockRow) (s : Slot) (v : IsSound blocks s) where
  pub cancel_slot-IsSound :
      (actor expected now : ℕ) → Ensures (IsSound blocks) (cancel_slot actor expected now s)
  unfolding cancel_slot
  cancel_slot-IsSound actor expected now = ground (arith, clear_requests-IsRoster v.roster)

  pub request_slot-IsSound :
      (actor now : ℕ) → Ensures (IsSound blocks) (request_slot actor now blocks s)
  unfolding request_slot
  request_slot-IsSound actor now = ground (arith, add_request-IsRoster v.roster actor now)

  pub withdraw_request-IsSound : (u now : ℕ) → IsSound blocks (withdraw_request u now s)
  unfolding withdraw_request delete_row
  withdraw_request-IsSound u now = ground (arith, delete_request-IsRoster v.roster u)

  pub leave_membership-IsSound :
      (u now : ℕ)
      → is_waitlist s.access_mode ≡ false
      → Ensures (IsSound blocks) (leave_membership u now s)
  unfolding leave_membership
  leave_membership-IsSound u now =
      ground (
        arith,
        delete_member-IsRoster v.roster u,
        length-delete u s.members v.roster.members_unique,
      )

  pub leave_slot-IsSound :
      (actor now : ℕ)
      → is_waitlist s.access_mode ≡ false
      → Ensures (IsSound blocks) (leave_slot actor now s)
  unfolding leave_slot
  leave_slot-IsSound actor now mode =
      ground (arith, withdraw_request-IsSound actor now, leave_membership-IsSound actor now mode)

  pub approve_slot-IsSound :
      (actor requester now : ℕ)
      → (actor == requester) ≡ false
      → Ensures (IsSound blocks) (approve_slot actor requester now blocks s)
  unfolding approve_slot
  approve_slot-IsSound actor requester now other =
      ground (
        arith,
        add_member-IsRoster v.roster requester now,
        blocked_pair_symm actor requester blocks,
      )

  pub reject_slot-IsSound :
      (actor requester now : ℕ) → Ensures (IsSound blocks) (reject_slot actor requester now s)
  unfolding reject_slot
  reject_slot-IsSound actor requester now = ground (arith, withdraw_request-IsSound requester now)

  pub start_slot-IsSound : (actor now : ℕ) → Ensures (IsSound blocks) (start_slot actor now s)
  unfolding start_slot
  start_slot-IsSound actor now = ground (arith, clear_requests-IsRoster v.roster)

  pub complete_slot-IsSound : (actor now : ℕ) → Ensures (IsSound blocks) (complete_slot actor now s)
  unfolding complete_slot
  complete_slot-IsSound actor now = ground arith

  pub remove_slot_member-IsSound :
      (actor member expected now : ℕ)
      → is_waitlist s.access_mode ≡ false
      → Ensures (IsSound blocks) (remove_slot_member actor member expected now blocks s)
  unfolding remove_slot_member remove_authorized
  remove_slot_member-IsSound actor member expected now mode = ground (
    arith,
    delete_member-IsRoster v.roster member,
    length-delete member s.members v.roster.members_unique,
  )
