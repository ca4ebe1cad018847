-- ===== src/Slots/Blocking.antt =====
-- `Block` and `Unblock` of backend/internal/postgres/block_store.go, and the check of the blocklist service.
-- A block works on each Slot alone, so it is a function on the Slot, applied to all of them.
use qweqwe.Base.{
  ℕ, ◌-◌, Bool, false, not, ◌&&◌, ◌||◌, Option, none, some, List, [], ◌∷◌, Result, ok, ◌>>◌,
  fail_if, invalid_target, ◌==◌, if◌then◌else◌,
}
use qweqwe.Slots.Model.{Slot, member_left, is_open, is_waitlist}
use qweqwe.Slots.Rows.{exists_row, delete_row}
use qweqwe.Slots.Tables.{Db, BlockRow, contains}
use qweqwe.Slots.Social.{emit, touch, fill_state, reopen}
use qweqwe.Slots.Waitlist.{promote_all}

-- The user whose rows in a Slot of this host a block removes.
unfoldable pub counterpart : ℕ → ℕ → ℕ → Option ℕ
counterpart blocker blocked host =
    if host == blocker then some blocked else if host == blocked then some blocker else none

-- The promotion loop of `blockPairTx`, and the UPDATE after it.
unfoldable pub refill : ℕ → ℕ → List BlockRow → Slot → Slot
refill ttl now blocks s =
    let r =
      promote_all (s.capacity - s.accepted_count) ttl now blocks s.accepted_count s.capacity s in
    record (r.0) { accepted_count = r.1; state = fill_state (r.1) s.capacity }

-- The deletion of the user's rows, with the UPDATE of an affected Slot and the notice.
unfoldable pub revoke_rows : ℕ → ℕ → Slot → Slot
revoke_rows u now s =
    let removed = exists_row u s.members in
    if removed || exists_row u s.requests
    then touch now (record s {
      requests = delete_row u s.requests;
      members = delete_row u s.members;
      notices = if removed then emit member_left u s.notices else s.notices;
      accepted_count = if removed then s.accepted_count - 1 else s.accepted_count;
      state = if removed then reopen s.state else s.state;
    })
    else s

unfoldable pub revoke : ℕ → ℕ → List BlockRow → ℕ → Slot → Slot
revoke ttl now blocks u s =
    if exists_row u s.members && is_waitlist s.access_mode && is_open s.state
    then refill ttl now blocks (revoke_rows u now s)
    else revoke_rows u now s

unfoldable pub block_slot : ℕ → ℕ → List BlockRow → ℕ → ℕ → Slot → Slot
block_slot ttl now blocks blocker blocked s = elim (counterpart blocker blocked s.host_id) [
  | none ↦ s
  | some u ↦ revoke ttl now blocks u s
]

unfoldable pub map_slots : (Slot → Slot) → List (ℕ × Slot) → List (ℕ × Slot)
map_slots f [] = []
map_slots f ((i, s) ∷ rest) = (i, f s) ∷ map_slots f rest

unfoldable pub has_block : ℕ → ℕ → List BlockRow → Bool
has_block a b [] = false
has_block a b (r ∷ rs) = (r.blocker == a && r.blocked == b) || has_block a b rs

-- INSERT … ON CONFLICT DO NOTHING
unfoldable pub add_block : ℕ → ℕ → List BlockRow → List BlockRow
unfolding has_block
add_block a b rs = if has_block a b rs then rs else record { blocker = a; blocked = b } ∷ rs

unfoldable pub remove_block : ℕ → ℕ → List BlockRow → List BlockRow
remove_block a b [] = []
remove_block a b (r ∷ rs) =
    if r.blocker == a && r.blocked == b then remove_block a b rs else r ∷ remove_block a b rs

unfoldable pub block : ℕ → ℕ → ℕ → ℕ → Db → Result Db
block ttl blocker blocked now db = do
  fail_if (blocker == blocked) invalid_target
  fail_if (not (contains blocked db.users)) invalid_target
  let blocks = add_block blocker blocked db.blocks
  ok (record db {
    blocks = blocks;
    slots = map_slots (block_slot ttl now blocks blocker blocked) db.slots;
  })

unfoldable pub unblock : ℕ → ℕ → Db → Result Db
unblock blocker blocked db = do
  fail_if (blocker == blocked) invalid_target
  ok (record db { blocks = remove_block blocker blocked db.blocks })
