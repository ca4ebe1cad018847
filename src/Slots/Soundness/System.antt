-- ===== src/Slots/Soundness/System.antt =====
-- Every history of the component keeps every Slot sound.
use qweqwe.Base.{
  ℕ, ◌≡◌, false, List, [], ◌∷◌, arith, ◌==◌, Result, ok, err, Ensures, All, bind-Ensures,
}
use qweqwe.Slots.Model.{Slot}
use qweqwe.Slots.Tables.{Db}
use qweqwe.Slots.Blocking.{block_slot, map_slots, add_block, remove_block, block, unblock}
use qweqwe.Slots.Service.{serve}
use qweqwe.Slots.Store.{Config}
use qweqwe.Slots.System.{
  Event, serves, blocks_user, unblocks_user, world, commit, step, run, empty_db,
}
use qweqwe.Slots.Invariant.{IsSound}
use qweqwe.Slots.Invariant.Blocking.{block_slot-IsSound, unblock-IsSound}
use qweqwe.Slots.Soundness.Tables.{AllSound, LeavesSound}
use qweqwe.Slots.Soundness.Calls.{serve-LeavesSound}

module _ (P Q : Slot → Type 0) where
  map_slots-All :
      (f : Slot → Slot) (rows : List (ℕ × Slot))
      → ((s : Slot) → P s → Q (f s))
      → All (λ e. P e.1) rows
      → All (λ e. Q e.1) (map_slots f rows)
  unfolding map_slots
  map_slots-All f [] keeps all = tt
  map_slots-All f ((i, s) ∷ rows) keeps all = (keeps s all.0, map_slots-All f rows keeps all.1)

  All-weaken :
      (rows : List (ℕ × Slot))
      → ((s : Slot) → P s → Q s)
      → All (λ e. P e.1) rows
      → All (λ e. Q e.1) rows
  All-weaken [] keeps all = tt
  All-weaken ((i, s) ∷ rows) keeps all = (keeps s all.0, All-weaken rows keeps all.1)

block-AllSound :
    (ttl blocker blocked now : ℕ) (db : Db)
    → AllSound db
    → Ensures AllSound (block ttl blocker blocked now db)
unfolding block
block-AllSound ttl blocker blocked now db sound = ground (
  arith,
  λ (apart : (blocker == blocked) ≡ false).
      map_slots-All (IsSound db.blocks) (IsSound (add_block blocker blocked db.blocks))
        (block_slot ttl now (add_block blocker blocked db.blocks) blocker blocked) db.slots
        (λ s v. block_slot-IsSound blocker blocked db.blocks apart s v ttl now) sound,
)

unblock-AllSound :
    (blocker blocked : ℕ) (db : Db) → AllSound db → Ensures AllSound (unblock blocker blocked db)
unfolding unblock
unblock-AllSound blocker blocked db sound = ground (
  arith,
  All-weaken (IsSound db.blocks) (IsSound (remove_block blocker blocked db.blocks)) db.slots
      (λ s v. unblock-IsSound blocker blocked db.blocks s v) sound,
)

commit-AllSound :
    (db : Db) (r : Result Db) → AllSound db → Ensures AllSound r → AllSound (commit db r)
commit-AllSound db (ok d) sound h = h
commit-AllSound db (err e) sound h = sound

-- One event of the component keeps every Slot sound, whether it succeeds or is refused.
pub step-AllSound : (c : Config) (db : Db) (e : Event) → AllSound db → AllSound (step c db e)
unfolding step
step-AllSound c db (serves call command) sound = commit-AllSound db _ sound (
    bind-Ensures LeavesSound AllSound (serve c call command db) (λ r. ok (r.1))
      (serve-LeavesSound c call db sound command) λ r p. p)
step-AllSound c db (blocks_user blocker blocked now) sound =
    commit-AllSound db _ sound (block-AllSound c.waitlist_request_ttl blocker blocked now db sound)
step-AllSound c db (unblocks_user blocker blocked) sound =
    commit-AllSound db _ sound (unblock-AllSound blocker blocked db sound)
step-AllSound c db (world friendships city_locks places users clock) sound = sound

run-AllSound : (c : Config) (db : Db) (es : List Event) → AllSound db → AllSound (run c db es)
unfolding run
run-AllSound c db [] sound = sound
run-AllSound c db (e ∷ es) sound = run-AllSound c (step c db e) es (step-AllSound c db e sound)

-- In every database that the component can reach, every Slot is sound: accepted_count is the number
-- of members and at most the capacity; no user stands twice in its rows, nor both as member and as
-- requester; the host and users blocked with the host stand in none of them; at most 100 requests
-- wait; FILLING has a free seat and FULL has none; a draft and a Slot from ACTIVE on have no
-- requests; and a WAITLIST Slot has a request only if it has no free seat.
pub run_reachable-AllSound : (c : Config) (es : List Event) → AllSound (run c empty_db es)
run_reachable-AllSound c es = run-AllSound c empty_db es tt
