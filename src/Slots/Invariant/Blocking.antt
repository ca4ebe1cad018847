-- ===== src/Slots/Invariant/Blocking.antt =====
-- A block keeps the invariant of every Slot, now for the larger block table; an unblock too.
use qweqwe.Base.{
  ℕ, ◌-◌, ◌≤◌, ◌≡◌, refl, inl, inr, true, false, ◌||◌, ◌&&◌, none, some, List, [], ◌∷◌, arith, ◌==◌,
  length, Bool-cases, Option-cases,
}
use qweqwe.Slots.Model.{Slot, UserRow, is_open, is_waitlist}
use qweqwe.Slots.Rows.{exists_row, delete_row, exists-delete, delete_absent, length-delete}
use qweqwe.Slots.Tables.{BlockRow, blocked_pair}
use qweqwe.Slots.Roster.{IsRoster, delete_request-IsRoster, delete_member-IsRoster}
use qweqwe.Slots.Blocking.{
  counterpart, refill, revoke_rows, revoke, block_slot, has_block, add_block, remove_block,
}
use qweqwe.Slots.Promotion.{promote_all-IsPromoted, promote_all_ends}
use qweqwe.Slots.Invariant.{IsSound, Seated, Conserves}

has_block-blocked_pair :
    (x y a b : ℕ) (bs : List BlockRow)
    → has_block a b bs ≡ true
    → ((a == x && b == y) || (a == y && b == x)) ≡ true
    → blocked_pair x y bs ≡ true
unfolding has_block blocked_pair
has_block-blocked_pair x y a b [] h same = ground arith
has_block-blocked_pair x y a b (r ∷ rs) h same = ground (arith, has_block-blocked_pair x y a b rs)

-- A block makes one pair blocked, and no other.
pub blocked_pair-add_block :
    (x y a b : ℕ) (bs : List BlockRow)
    → blocked_pair x y (add_block a b bs)
      ≡ ((a == x && b == y) || (a == y && b == x) || blocked_pair x y bs)
unfolding add_block blocked_pair
blocked_pair-add_block x y a b bs = ground (arith, has_block-blocked_pair x y a b bs)

-- An unblock makes no pair blocked.
pub blocked_pair-remove_block :
    (x y a b : ℕ) (bs : List BlockRow)
    → blocked_pair x y bs ≡ false
    → blocked_pair x y (remove_block a b bs) ≡ false
unfolding remove_block blocked_pair
blocked_pair-remove_block x y a b [] h = refl
blocked_pair-remove_block x y a b (r ∷ rs) h = ground (arith, blocked_pair-remove_block x y a b rs)

module _ (a b : ℕ) (blocks : List BlockRow) (apart : (a == b) ≡ false) where
  -- The rows of the user that the block concerns are gone.
  blocked-IsRoster :
      (host u : ℕ) (rs ms : List UserRow)
      → counterpart a b host ≡ some u
      → IsRoster blocks host rs ms
      → IsRoster (add_block a b blocks) host (delete_row u rs) (delete_row u ms)
  unfolding counterpart
  blocked-IsRoster host u rs ms e v =
      let w = delete_member-IsRoster (delete_request-IsRoster v u) u in
      record {
        members_unique = w.members_unique;
        requests_unique = w.requests_unique;
        host_apart = w.host_apart;
        apart = w.apart;
        unblocked = λ x. ground (
          arith,
          v.unblocked x,
          exists-delete x u rs,
          exists-delete x u ms,
          blocked_pair-add_block x host a b blocks,
        );
        queue_bounded = w.queue_bounded;
      }

  -- A Slot of another host is not concerned.
  unconcerned-IsRoster :
      (host : ℕ) (rs ms : List UserRow)
      → counterpart a b host ≡ none
      → IsRoster blocks host rs ms
      → IsRoster (add_block a b blocks) host rs ms
  unfolding counterpart
  unconcerned-IsRoster host rs ms e v = record {
    members_unique = v.members_unique;
    requests_unique = v.requests_unique;
    host_apart = v.host_apart;
    apart = v.apart;
    unblocked = λ x. ground (arith, v.unblocked x, blocked_pair-add_block x host a b blocks);
    queue_bounded = v.queue_bounded;
  }

module _ (blocks : List BlockRow) (t : Slot)
    (roster : IsRoster blocks t.host_id t.requests t.members) where
  refill-IsSound :
      (ttl now : ℕ)
      → t.accepted_count ≡ length t.members
      → t.accepted_count ≤ t.capacity
      → IsSound blocks (refill ttl now blocks t)
  unfolding refill
  refill-IsSound ttl now counted fits = ground (
    arith,
    promote_all-IsPromoted ttl now blocks (t.capacity - t.accepted_count) t.accepted_count
        t.capacity t roster counted,
    promote_all_ends ttl now blocks (t.capacity - t.accepted_count) t.accepted_count t.capacity t,
  )

module _ (a b : ℕ) (blocks : List BlockRow) (apart : (a == b) ≡ false) (s : Slot)
    (v : IsSound blocks s) where
  revoke_rows-IsRoster :
      (now u : ℕ)
      → counterpart a b s.host_id ≡ some u
      → let t = revoke_rows u now s in
        IsRoster (add_block a b blocks) t.host_id t.requests t.members
  unfolding revoke_rows
  revoke_rows-IsRoster now u e = ground (
    arith,
    blocked-IsRoster a b blocks apart s.host_id u s.requests s.members e v.roster,
    delete_absent u s.members,
    delete_absent u s.requests,
  )

  revoke_rows_count :
      (now u : ℕ)
      → let t = revoke_rows u now s in
        (t.accepted_count ≡ length t.members) × (t.accepted_count ≤ t.capacity)
  unfolding revoke_rows
  revoke_rows_count now u =
      ground (arith, length-delete u s.members v.roster.members_unique, delete_absent u s.members)

  -- Where no promotion follows: no WAITLIST Slot that is open has lost a member.
  revoke_rows_seats :
      (now u : ℕ)
      → (exists_row u s.members && is_waitlist s.access_mode && is_open s.state) ≡ false
      → let t = revoke_rows u now s in
        Seated t.state t.accepted_count t.capacity t.requests
        × Conserves t.access_mode t.accepted_count t.capacity t.requests
  unfolding revoke_rows delete_row
  revoke_rows_seats now u h = ground (arith, length-delete u s.members v.roster.members_unique)

  revoke-IsSound :
      (ttl now u : ℕ)
      → counterpart a b s.host_id ≡ some u
      → IsSound (add_block a b blocks) (revoke ttl now (add_block a b blocks) u s)
  unfolding revoke
  revoke-IsSound ttl now u e =
      let t = revoke_rows u now s in
      let roster = revoke_rows-IsRoster now u e in
      let (counted, fits) = revoke_rows_count now u in
      elim (Bool-cases (exists_row u s.members && is_waitlist s.access_mode && is_open s.state)) [
        | inl freed ↦
            rw (freed, revoke) (refill-IsSound (add_block a b blocks) t roster ttl now counted fits)
        | inr kept ↦
            let (seated, conserves) = revoke_rows_seats now u kept in
            rw (kept, revoke)
              (record {
                roster = roster;
                counted = counted;
                seated = seated;
                conserves = conserves;
              })
      ]

  -- After a block the Slot is sound for the new block table.
  pub block_slot-IsSound :
      (ttl now : ℕ)
      → IsSound (add_block a b blocks) (block_slot ttl now (add_block a b blocks) a b s)
  unfolding block_slot
  block_slot-IsSound ttl now = elim (Option-cases (counterpart a b s.host_id)) [
    | inl other ↦
        rw (other, block_slot)
          (record {
            roster =
                unconcerned-IsRoster a b blocks apart s.host_id s.requests s.members other v.roster;
            counted = v.counted;
            seated = v.seated;
            conserves = v.conserves;
          })
    | inr (u, concerned) ↦ rw (concerned, block_slot) (revoke-IsSound ttl now u concerned)
  ]

pub unblock-IsSound :
    (a b : ℕ) (blocks : List BlockRow) (s : Slot)
    → IsSound blocks s
    → IsSound (remove_block a b blocks) s
unblock-IsSound a b blocks s v = record {
  roster = record {
    members_unique = v.roster.members_unique;
    requests_unique = v.roster.requests_unique;
    host_apart = v.roster.host_apart;
    apart = v.roster.apart;
    unblocked =
        λ x. ground (arith, v.roster.unblocked x, blocked_pair-remove_block x s.host_id a b blocks);
    queue_bounded = v.roster.queue_bounded;
  };
  counted = v.counted;
  seated = v.seated;
  conserves = v.conserves;
}
