-- ===== src/Slots/Evolution/History.antt =====
-- Every history of the component moves each Slot forward.
use qweqwe.Base.{
  ℕ, ◌≡◌, ◌≤◌, refl, inl, inr, true, some, List, [], ◌∷◌, arith, ◌==◌, Result, ok, err, Ensures,
  bind-Ensures, Bool-cases, ◌∙◌,
}
use qweqwe.Slots.Model.{
  Slot, State, draft, published, filling, full, active, completed, cancelled, expired, moderated,
  is_terminal,
}
use qweqwe.Slots.Tables.{Db, find_slot}
use qweqwe.Slots.Blocking.{block_slot, add_block, block, unblock}
use qweqwe.Slots.Service.{serve}
use qweqwe.Slots.Store.{Config}
use qweqwe.Slots.System.{
  Event, serves, blocks_user, unblocks_user, world, commit, step, run, empty_db,
}
use qweqwe.Slots.Soundness.{AllSound}
use qweqwe.Slots.Soundness.System.{step-AllSound, run_reachable-AllSound}
use qweqwe.Slots.Evolution.Defs.{Evolves, Tracks, leads}
use qweqwe.Slots.Evolution.Bodies.{block_slot-Evolves}
use qweqwe.Slots.Evolution.Tables.{find-map_slots}
use qweqwe.Slots.Evolution.Answers.{LeavesTracked}
use qweqwe.Slots.Evolution.Calls.{serve-LeavesTracked}

block-Tracks :
    (ttl blocker blocked now : ℕ) (db : Db) → Ensures (Tracks db) (block ttl blocker blocked now db)
unfolding block
block-Tracks ttl blocker blocked now db = ground (
  arith,
  λ (i : ℕ) (s : Slot) (found : find_slot i db.slots ≡ some s).
      find-map_slots (block_slot ttl now (add_block blocker blocked db.blocks) blocker blocked) i
        db.slots s found,
  λ (s : Slot). block_slot-Evolves s ttl now (add_block blocker blocked db.blocks) blocker blocked,
)

unblock-Tracks : (blocker blocked : ℕ) (db : Db) → Ensures (Tracks db) (unblock blocker blocked db)
unfolding unblock
unblock-Tracks blocker blocked db = elim (Bool-cases (blocker == blocked)) [
  | inl own ↦ rw (own, unblock) tt
  | inr other ↦ rw (other, unblock) (λ i s found. (s, found, inl refl))
]

commit-Tracks : (db : Db) (r : Result Db) → Ensures (Tracks db) r → Tracks db (commit db r)
commit-Tracks db (ok d) h = h
commit-Tracks db (err e) h = λ i s found. (s, found, inl refl)

-- From a database in which every Slot is sound, one event leaves each Slot as it is, or takes it to
-- its next version with the same host and by a step of the lifecycle.
pub step-Tracks : (c : Config) (db : Db) (e : Event) → AllSound db → Tracks db (step c db e)
unfolding step
step-Tracks c db (serves call command) sound = commit-Tracks db _ (
    bind-Ensures (LeavesTracked db) (Tracks db) (serve c call command db) (λ r. ok (r.1))
      (serve-LeavesTracked c call db command sound) λ r p. p)
step-Tracks c db (blocks_user blocker blocked now) sound =
    commit-Tracks db _ (block-Tracks c.waitlist_request_ttl blocker blocked now db)
step-Tracks c db (unblocks_user blocker blocked) sound =
    commit-Tracks db _ (unblock-Tracks blocker blocked db)
step-Tracks c db (world friendships city_locks places users clock) sound =
    λ i s found. (s, found, inl refl)

-- How far a Slot has come.
abbrev pub stage : State → ℕ
stage draft = 0
stage published = 1
stage filling = 1
stage full = 1
stage active = 2
stage completed = 3
stage cancelled = 3
stage expired = 3
stage moderated = 3

-- A later form of a Slot.
pub record IsLater (s t : Slot) : Type 0 where
  pub host_id : t.host_id ≡ s.host_id
  pub version : s.version ≤ t.version
  pub stage_kept : stage s.state ≤ stage t.state
  pub final : is_terminal s.state ≡ true → t.state ≡ s.state
  pub same : t.version ≡ s.version → t ≡ s

IsLater-refl : (s : Slot) → IsLater s s
IsLater-refl s = record {
  host_id = refl;
  version = omega arith;
  stage_kept = omega arith;
  final = λ e. refl;
  same = λ e. refl;
}

leads-stage : (a b : State) → leads a b ≡ true → stage a ≤ stage b
leads-stage a b h = ground arith

leads-is_terminal : (a b : State) → leads a b ≡ true → is_terminal a ≡ true → b ≡ a
leads-is_terminal a b h e = ground arith

Evolves-IsLater : (s t u : Slot) → Evolves s t → IsLater t u → IsLater s u
Evolves-IsLater s t u (inl e) later = rw e at later
Evolves-IsLater s t u (inr next) later = record {
  host_id = later.host_id ∙ next.host_id;
  version = omega (arith, next.version, later.version);
  stage_kept = omega (arith, leads-stage s.state t.state next.state, later.stage_kept);
  final = λ e.
      let kept = leads-is_terminal s.state t.state next.state e in later.final (rw kept e) ∙ kept;
  same = λ e. absurd (omega (arith, e, next.version, later.version));
}

pub run-IsLater :
    (c : Config) (i : ℕ) (es : List Event) (db : Db) (s : Slot)
    → AllSound db
    → find_slot i db.slots ≡ some s
    → (t : Slot) × (find_slot i (run c db es).slots ≡ some t) × IsLater s t
unfolding run
run-IsLater c i [] db s sound found = (s, found, IsLater-refl s)
run-IsLater c i (e ∷ es) db s sound found =
    let next = step-Tracks c db e sound i s found in
    let last = run-IsLater c i es (step c db e) next.0 (step-AllSound c db e sound) next.1 in
    (last.0, last.1, Evolves-IsLater s next.0 last.0 next.2 last.2)

-- In every history, a Slot that exists after some events exists after all further ones, with the
-- same host, a version that has not sunk, in the same stage or a later one (draft, then PUBLISHED,
-- FILLING and FULL, then ACTIVE, then the final states); a final state stays; and if the version is
-- the same, nothing of the Slot has changed.
pub run_reachable-IsLater :
    (c : Config) (i : ℕ) (es more : List Event) (s : Slot)
    → find_slot i (run c empty_db es).slots ≡ some s
    → (t : Slot) × (find_slot i (run c (run c empty_db es) more).slots ≡ some t) × IsLater s t
run_reachable-IsLater c i es more s =
    run-IsLater c i more (run c empty_db es) s (run_reachable-AllSound c es)
