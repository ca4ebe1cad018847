-- ===== src/Slots/Invariant/Admission.antt =====
-- The v1.1 admissions and departures keep the invariant of a Slot.
use qweqwe.Base.{
  ◌>>=◌, Option-cases, ℕ, ◌+◌, ◌-◌, ◌≤◌, ◌<◌, ◌≡◌, refl, inl, inr, true, false, none, List, [], ◌∷◌,
  arith, ◌==◌, length, Ensures, bind-Ensures,
}
use qweqwe.Slots.Model.{member_left, Slot, UserRow, is_open, is_terminal}
use qweqwe.Slots.Rows.{exists_row, delete_row, exists-delete, length-delete, delete_absent}
use qweqwe.Slots.Tables.{BlockRow, blocked_pair}
use qweqwe.Slots.Roster.{
  IsRoster, delete_request-IsRoster, delete_member-IsRoster, add_request-IsRoster,
  add_member-IsRoster,
}
use qweqwe.Slots.Social.{emit}
use qweqwe.Slots.Waitlist.{
  admit, join_slot, requested_at, purge_expired, enqueue, seat_or_enqueue, waitlist_request,
  promote_oldest, refill_seat, release_seat, waitlist_leave, waitlist_remove_member,
}
use qweqwe.Slots.Promotion.{
  promote_oldest-IsPromoted, promote_oldest_stops, promote_oldest_advances, promote_oldest_idle,
}
use qweqwe.Slots.Invariant.{IsSound, Conserves, withdraw_request-IsSound}

module _ (blocks : List BlockRow) (s : Slot) (v : IsSound blocks s) where
  pub admit-IsSound :
      (u now : ℕ)
      → (s.host_id == u) ≡ false
      → blocked_pair u s.host_id blocks ≡ false
      → exists_row u s.members ≡ false
      → exists_row u s.requests ≡ false
      → is_open s.state ≡ true
      → s.accepted_count < s.capacity
      → IsSound blocks (admit u now s)
  unfolding admit
  admit-IsSound u now other free seatless fresh open_state room = ground (
    arith,
    add_member-IsRoster v.roster u now other free seatless,
    delete_absent u s.requests fresh,
  )

  pub join_slot-IsSound : (actor now : ℕ) → Ensures (IsSound blocks) (join_slot actor now blocks s)
  unfolding join_slot
  join_slot-IsSound actor now = ground (arith, admit-IsSound actor now)

  enqueue-IsSound :
      (u now : ℕ)
      → (s.host_id == u) ≡ false
      → blocked_pair u s.host_id blocks ≡ false
      → exists_row u s.members ≡ false
      → exists_row u s.requests ≡ false
      → is_open s.state ≡ true
      → s.capacity ≤ s.accepted_count
      → Ensures (IsSound blocks) (enqueue u now s)
  unfolding enqueue
  enqueue-IsSound u now other free seatless fresh open_state taken =
      ground (arith, add_request-IsRoster v.roster u now other free seatless fresh)

  pub seat_or_enqueue-IsSound :
      (u now : ℕ)
      → (s.host_id == u) ≡ false
      → blocked_pair u s.host_id blocks ≡ false
      → exists_row u s.members ≡ false
      → exists_row u s.requests ≡ false
      → is_open s.state ≡ true
      → Ensures (IsSound blocks) (seat_or_enqueue u now s)
  unfolding seat_or_enqueue
  seat_or_enqueue-IsSound u now other free seatless fresh open_state =
      ground (arith, admit-IsSound u now, enqueue-IsSound u now)

requested_at-none : (u : ℕ) (rs : List UserRow) → requested_at u rs ≡ none → exists_row u rs ≡ false
unfolding requested_at exists_row
requested_at-none u [] h = refl
requested_at-none u (r ∷ rs) h = ground (arith, requested_at-none u rs)

-- What `purge_expired` leaves.
record IsPurged (blocks : List BlockRow) (u : ℕ) (s t : Slot) : Type 0 where
  sound : IsSound blocks t
  fresh : exists_row u t.requests ≡ false
  host_id : t.host_id ≡ s.host_id
  members : t.members ≡ s.members
  state : t.state ≡ s.state

module _ (blocks : List BlockRow) (s : Slot) (v : IsSound blocks s) where
  purge_expired-IsPurged :
      (ttl u now : ℕ) → Ensures (IsPurged blocks u s) (purge_expired ttl u now s)
  unfolding purge_expired delete_row
  purge_expired-IsPurged ttl u now = ground (
    arith,
    requested_at-none u s.requests,
    delete_request-IsRoster v.roster u,
    exists-delete u u s.requests,
  )

  purged_request-IsSound :
      (ttl u now : ℕ)
      → (s.host_id == u) ≡ false
      → blocked_pair u s.host_id blocks ≡ false
      → exists_row u s.members ≡ false
      → is_open s.state ≡ true
      → Ensures (IsSound blocks) (purge_expired ttl u now s >>= seat_or_enqueue u now)
  purged_request-IsSound ttl u now other free seatless open_state =
      bind-Ensures (IsPurged blocks u s) (IsSound blocks) (purge_expired ttl u now s)
        (seat_or_enqueue u now) (purge_expired-IsPurged ttl u now)
        λ t p.
          seat_or_enqueue-IsSound blocks t p.sound u now (rw p.host_id other) (rw p.host_id free)
            (rw p.members seatless) p.fresh (rw p.state open_state)

  pub waitlist_request-IsSound :
      (ttl actor now : ℕ) → Ensures (IsSound blocks) (waitlist_request ttl actor now blocks s)
  unfolding waitlist_request
  waitlist_request-IsSound ttl actor now = ground (arith, purged_request-IsSound ttl actor now)

-- A Slot whose members number `count`, before its own count and state are brought up to date.
module _ (blocks : List BlockRow) (s : Slot)
    (roster : IsRoster blocks s.host_id s.requests s.members) where
  pub refill_seat-IsSound :
      (ttl now count : ℕ)
      → count ≡ length s.members
      → count < s.capacity
      → Conserves s.access_mode (count + 1) s.capacity s.requests
      → IsSound blocks (refill_seat ttl now blocks count s)
  unfolding refill_seat
  refill_seat-IsSound ttl now count e room before =
      let r = promote_oldest ttl now blocks count s.capacity s in
      elim (Option-cases r.2) [
        | inl stop ↦ ground (
          arith,
          promote_oldest-IsPromoted ttl now blocks s roster count s.capacity e,
          promote_oldest_stops ttl now blocks count s.capacity s stop,
        )
        | inr (u, more) ↦ ground (
          arith,
          promote_oldest-IsPromoted ttl now blocks s roster count s.capacity e,
          promote_oldest_advances ttl now blocks count s.capacity s u more,
          promote_oldest_idle ttl now blocks count s.capacity s,
        )
      ]

module _ (blocks : List BlockRow) (s : Slot) (v : IsSound blocks s) where
  pub release_seat-IsSound :
      (ttl u now : ℕ)
      → is_terminal s.state ≡ false
      → Ensures (IsSound blocks) (release_seat ttl u now blocks s)
  unfolding release_seat
  release_seat-IsSound ttl u now running = ground (
    arith,
    length-delete u s.members v.roster.members_unique,
    delete_member-IsRoster v.roster u,
    refill_seat-IsSound blocks
        (record s { members = delete_row u s.members; notices = emit member_left u s.notices })
        (delete_member-IsRoster v.roster u) ttl now (s.accepted_count - 1),
  )

  pub waitlist_leave-IsSound :
      (ttl actor now : ℕ) → Ensures (IsSound blocks) (waitlist_leave ttl actor now blocks s)
  unfolding waitlist_leave
  waitlist_leave-IsSound ttl actor now =
      ground
        (arith, withdraw_request-IsSound blocks s v actor now, release_seat-IsSound ttl actor now)

  pub waitlist_remove_member-IsSound :
      (ttl actor member expected now : ℕ)
      → Ensures (IsSound blocks) (waitlist_remove_member ttl actor member expected now blocks s)
  unfolding waitlist_remove_member
  waitlist_remove_member-IsSound ttl actor member expected now =
      ground (arith, release_seat-IsSound ttl member now)
