-- ===== src/Slots/Evolution/Bodies.antt =====
-- Each operation changes its Slot once.
use qweqwe.Base.{
  ◌||◌, Bool-cases, ℕ, ◌-◌, ◌≡◌, refl, ◌⊎◌, inl, inr, true, List, arith, Ensures, Option-cases,
  if◌then◌else◌,
}
use qweqwe.Slots.Model.{Slot, EditInput, is_draft, is_open, is_active, State, member_left}
use qweqwe.Slots.Rows.{exists_row, delete_row}
use qweqwe.Slots.Tables.{BlockRow}
use qweqwe.Slots.Social.{
  cancel_slot, request_slot, leave_slot, leave_membership, withdraw_request, approve_slot,
  reject_slot, start_slot, complete_slot, remove_authorized, remove_slot_member, emit,
}
use qweqwe.Slots.Waitlist.{
  admit, join_slot, purge_expired, enqueue, seat_or_enqueue, waitlist_request, refill_seat,
  release_seat, waitlist_leave, waitlist_remove_member,
}
use qweqwe.Slots.Hosting.{publish_slot, edit_slot, patch_row, promotes, promote_into_free}
use qweqwe.Slots.Blocking.{counterpart, refill, revoke_rows, revoke, block_slot}
use qweqwe.Slots.Promotion.{promote_all-Keeps, promote_oldest-Keeps}
use qweqwe.Slots.Invariant.{IsSound}
use qweqwe.Slots.Evolution.Defs.{IsNext, Evolves}

module _ (s : Slot) where
  pub cancel_slot-IsNext :
      (actor expected now : ℕ) → Ensures (IsNext s) (cancel_slot actor expected now s)
  unfolding cancel_slot
  cancel_slot-IsNext actor expected now = ground arith

  pub request_slot-IsNext :
      (actor now : ℕ) (blocks : List BlockRow)
      → Ensures (IsNext s) (request_slot actor now blocks s)
  unfolding request_slot
  request_slot-IsNext actor now blocks = ground arith

  pub leave_slot-IsNext : (actor now : ℕ) → Ensures (IsNext s) (leave_slot actor now s)
  unfolding leave_slot leave_membership withdraw_request
  leave_slot-IsNext actor now = ground arith

  pub approve_slot-IsNext :
      (actor requester now : ℕ) (blocks : List BlockRow)
      → Ensures (IsNext s) (approve_slot actor requester now blocks s)
  unfolding approve_slot
  approve_slot-IsNext actor requester now blocks = ground arith

  pub reject_slot-IsNext :
      (actor requester now : ℕ) → Ensures (IsNext s) (reject_slot actor requester now s)
  unfolding reject_slot withdraw_request
  reject_slot-IsNext actor requester now = ground arith

  pub start_slot-IsNext : (actor now : ℕ) → Ensures (IsNext s) (start_slot actor now s)
  unfolding start_slot
  start_slot-IsNext actor now = ground arith

  pub complete_slot-IsNext : (actor now : ℕ) → Ensures (IsNext s) (complete_slot actor now s)
  unfolding complete_slot
  complete_slot-IsNext actor now = ground arith

  pub remove_slot_member-IsNext :
      (actor member expected now : ℕ) (blocks : List BlockRow)
      → Ensures (IsNext s) (remove_slot_member actor member expected now blocks s)
  unfolding remove_slot_member remove_authorized
  remove_slot_member-IsNext actor member expected now blocks = ground arith

  pub join_slot-IsNext :
      (actor now : ℕ) (blocks : List BlockRow) → Ensures (IsNext s) (join_slot actor now blocks s)
  unfolding join_slot admit
  join_slot-IsNext actor now blocks = ground arith

  pub waitlist_request-IsNext :
      (ttl actor now : ℕ) (blocks : List BlockRow)
      → Ensures (IsNext s) (waitlist_request ttl actor now blocks s)
  unfolding waitlist_request purge_expired seat_or_enqueue admit enqueue
  waitlist_request-IsNext ttl actor now blocks = ground arith

  refill_seat-Keeps :
      (ttl now count : ℕ) (blocks : List BlockRow)
      → let t = refill_seat ttl now blocks count s in
        (t.version ≡ s.version)
        × (t.host_id ≡ s.host_id)
        × ((t.state ≡ State.filling) ⊎ (t.state ≡ State.full))
  unfolding refill_seat
  refill_seat-Keeps ttl now count blocks =
      ground (arith, promote_oldest-Keeps ttl now blocks count s.capacity s)

module _ (s : Slot) where
  release_seat-IsNext :
      (ttl u now : ℕ) (blocks : List BlockRow)
      → (is_open s.state || is_active s.state) ≡ true
      → Ensures (IsNext s) (release_seat ttl u now blocks s)
  unfolding release_seat
  release_seat-IsNext ttl u now blocks running = ground (
    arith,
    refill_seat-Keeps
        (record s { members = delete_row u s.members; notices = emit member_left u s.notices }) ttl
        now (s.accepted_count - 1) blocks,
  )

  -- A draft has no members.
  release_seat_of_empty :
      (ttl u now : ℕ) (blocks : List BlockRow)
      → s.accepted_count ≡ 0
      → Ensures (IsNext s) (release_seat ttl u now blocks s)
  unfolding release_seat
  release_seat_of_empty ttl u now blocks e = ground arith

  pub waitlist_leave-IsNext :
      (ttl actor now : ℕ) (blocks : List BlockRow)
      → IsSound blocks s
      → Ensures (IsNext s) (waitlist_leave ttl actor now blocks s)
  unfolding waitlist_leave withdraw_request
  waitlist_leave-IsNext ttl actor now blocks v = elim (Bool-cases (is_draft s.state)) [
    | inl drafted ↦ ground (arith, release_seat_of_empty ttl actor now blocks)
    | inr published ↦ ground (arith, release_seat-IsNext ttl actor now blocks)
  ]

  pub waitlist_remove_member-IsNext :
      (ttl actor member expected now : ℕ) (blocks : List BlockRow)
      → Ensures (IsNext s) (waitlist_remove_member ttl actor member expected now blocks s)
  unfolding waitlist_remove_member
  waitlist_remove_member-IsNext ttl actor member expected now blocks =
      ground (arith, release_seat-IsNext ttl member now blocks)

  pub publish_slot-IsNext :
      (actor expected now : ℕ) → Ensures (IsNext s) (publish_slot actor expected now s)
  unfolding publish_slot
  publish_slot-IsNext actor expected now = ground arith

  patch_row-IsNext :
      (p : EditInput) (now : ℕ)
      → (is_draft s.state || is_open s.state) ≡ true
      → IsNext s (patch_row p now s)
  unfolding patch_row
  patch_row-IsNext p now editable = ground arith

promote_into_free-Keeps :
    (ttl now : ℕ) (blocks : List BlockRow) (t : Slot)
    → let r = promote_into_free ttl now blocks t in
      (r.version ≡ t.version)
      × (r.host_id ≡ t.host_id)
      × ((r.state ≡ t.state) ⊎ (r.state ≡ State.filling) ⊎ (r.state ≡ State.full))
unfolding promote_into_free
promote_into_free-Keeps ttl now blocks t = ground (
  arith,
  promote_all-Keeps ttl now blocks (t.capacity - t.accepted_count) t.accepted_count t.capacity t,
)

module _ (s : Slot) where
  promoted_row-IsNext :
      (ttl : ℕ) (p : EditInput) (now : ℕ) (blocks : List BlockRow)
      → (is_draft s.state || is_open s.state) ≡ true
      → promotes s (patch_row p now s) ≡ true
      → IsNext s (promote_into_free ttl now blocks (patch_row p now s))
  unfolding promotes
  promoted_row-IsNext ttl p now blocks editable more = ground (
    arith,
    patch_row-IsNext s p now editable,
    promote_into_free-Keeps ttl now blocks (patch_row p now s),
  )

  edited_row-IsNext :
      (ttl : ℕ) (p : EditInput) (now : ℕ) (blocks : List BlockRow)
      → (is_draft s.state || is_open s.state) ≡ true
      → IsNext s (
          if promotes s (patch_row p now s)
          then promote_into_free ttl now blocks (patch_row p now s)
          else patch_row p now s)
  edited_row-IsNext ttl p now blocks editable = elim (Bool-cases (promotes s (patch_row p now s))) [
    | inl more ↦ rw more (promoted_row-IsNext ttl p now blocks editable more)
    | inr settled ↦ rw settled (patch_row-IsNext s p now editable)
  ]

  pub edit_slot-IsNext :
      (ttl actor : ℕ) (p : EditInput) (now : ℕ) (places : List ℕ) (blocks : List BlockRow)
      → Ensures (IsNext s) (edit_slot ttl actor p now places blocks s)
  unfolding edit_slot
  edit_slot-IsNext ttl actor p now places blocks =
      ground (arith, edited_row-IsNext ttl p now blocks)

  refill-Keeps :
      (ttl now : ℕ) (blocks : List BlockRow)
      → let t = refill ttl now blocks s in
        (t.version ≡ s.version)
        × (t.host_id ≡ s.host_id)
        × ((t.state ≡ State.filling) ⊎ (t.state ≡ State.full))
  unfolding refill
  refill-Keeps ttl now blocks = ground (
    arith,
    promote_all-Keeps ttl now blocks (s.capacity - s.accepted_count) s.accepted_count s.capacity s,
  )

module _ (s : Slot) where
  revoke_rows-Evolves : (u now : ℕ) → Evolves s (revoke_rows u now s)
  unfolding revoke_rows
  revoke_rows-Evolves u now = ground arith

  -- A Slot that a member has left goes on to its next version.
  revoke_rows-IsNext : (u now : ℕ) → exists_row u s.members ≡ true → IsNext s (revoke_rows u now s)
  unfolding revoke_rows
  revoke_rows-IsNext u now e = ground arith

  pub block_slot-Evolves :
      (ttl now : ℕ) (blocks : List BlockRow) (a b : ℕ) → Evolves s (block_slot ttl now blocks a b s)
  unfolding block_slot revoke
  block_slot-Evolves ttl now blocks a b = elim (Option-cases (counterpart a b s.host_id)) [
    | inl other ↦ rw (other, block_slot) (inl refl)
    | inr (u, concerned) ↦
        rw (concerned, block_slot)
          (ground (
            arith,
            revoke_rows-Evolves u now,
            revoke_rows-IsNext u now,
            refill-Keeps (revoke_rows u now s) ttl now blocks,
          ))
  ]
