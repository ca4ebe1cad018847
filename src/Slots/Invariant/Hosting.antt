-- ===== src/Slots/Invariant/Hosting.antt =====
-- Creation, publication and editing give and keep the invariant of a Slot.
use qweqwe.Base.{
  ℕ, ◌-◌, ◌≤◌, ◌<◌, ◌≡◌, refl, true, false, not, ◌||◌, ◌&&◌, if◌then◌else◌, List, [], arith, ltb,
  length, Ensures,
}
use qweqwe.Slots.Model.{Slot, filling, EditInput, is_open, is_draft}
use qweqwe.Slots.Rows.{exists_row}
use qweqwe.Slots.Tables.{BlockRow}
use qweqwe.Slots.Roster.{IsRoster}
use qweqwe.Slots.Hosting.{
  created_row, draft_row, publish_slot, patch_row, promote_into_free, promotes, edit_slot, get_or,
  is_some,
}
use qweqwe.Slots.Promotion.{promote_all-IsPromoted, promote_all_ends}
use qweqwe.Slots.Invariant.{IsSound, Seated}

pub empty-IsRoster : (blocks : List BlockRow) (host : ℕ) → IsRoster blocks host [] []
unfolding exists_row
empty-IsRoster blocks host = record {
  members_unique = tt;
  requests_unique = tt;
  host_apart = refl;
  apart = λ u. refl;
  unblocked = λ u. refl;
  queue_bounded = omega arith;
}

pub created_row-IsSound :
    (blocks : List BlockRow) (actor : ℕ) (c : Slot)
    → c.state ≡ filling
    → 0 < c.capacity
    → IsSound blocks (created_row actor c)
unfolding created_row
created_row-IsSound blocks actor c fills room = ground (arith, empty-IsRoster blocks actor)

pub draft_row-IsSound :
    (blocks : List BlockRow) (actor : ℕ) (c : Slot) → IsSound blocks (draft_row actor c)
unfolding draft_row
draft_row-IsSound blocks actor c = ground (arith, empty-IsRoster blocks actor)

module _ (blocks : List BlockRow) (s : Slot) (v : IsSound blocks s) where
  pub publish_slot-IsSound :
      (actor expected now : ℕ) → Ensures (IsSound blocks) (publish_slot actor expected now s)
  unfolding publish_slot
  publish_slot-IsSound actor expected now = ground (arith, v.roster)

-- A row whose queue may stand behind free seats, until the promotion loop has run.
module _ (blocks : List BlockRow) (t : Slot)
    (roster : IsRoster blocks t.host_id t.requests t.members)
    (counted : t.accepted_count ≡ length t.members) (fits : t.accepted_count ≤ t.capacity) where
  pub promote_into_free-IsSound :
      (ttl now : ℕ)
      → is_open t.state ≡ true
      → Seated t.state t.accepted_count t.capacity t.requests
      → t.accepted_count < t.capacity
      → IsSound blocks (promote_into_free ttl now blocks t)
  unfolding promote_into_free
  promote_into_free-IsSound ttl now open_state seated room = ground (
    arith,
    promote_all-IsPromoted ttl now blocks (t.capacity - t.accepted_count) t.accepted_count
        t.capacity t roster counted,
    promote_all_ends ttl now blocks (t.capacity - t.accepted_count) t.accepted_count t.capacity t,
  )

module _ (blocks : List BlockRow) (s : Slot) (v : IsSound blocks s) where
  -- The row after the UPDATE of `Edit`, by whether the promotion loop follows.
  edited_row-IsSound :
      (ttl : ℕ) (p : EditInput) (now : ℕ)
      → (is_draft s.state || is_open s.state) ≡ true
      → (is_some p.access_mode && not (is_draft s.state)) ≡ false
      → ltb (get_or p.capacity s.capacity) s.accepted_count ≡ false
      → let t = patch_row p now s in
        IsSound blocks (if promotes s t then promote_into_free ttl now blocks t else t)
  unfolding patch_row promotes
  edited_row-IsSound ttl p now editable mode fits = ground (
    arith,
    promote_into_free-IsSound blocks (patch_row p now s) v.roster v.counted (ground arith) ttl now,
  )

  pub edit_slot-IsSound :
      (ttl actor : ℕ) (p : EditInput) (now : ℕ) (places : List ℕ)
      → Ensures (IsSound blocks) (edit_slot ttl actor p now places blocks s)
  unfolding edit_slot
  edit_slot-IsSound ttl actor p now places = ground (arith, edited_row-IsSound ttl p now)
