-- ===== src/Slots/System.antt =====
-- The component as a whole: a database that service calls, blocks and unblocks act on, one transaction at a time.
use qweqwe.Base.{ℕ, List, [], ◌∷◌, Result, ok, err, ◌>>=◌}
use qweqwe.Slots.Tables.{Db, CityLock}
use qweqwe.Slots.Idempotency.{Call}
use qweqwe.Slots.Blocking.{block, unblock}
use qweqwe.Slots.Store.{Config}
use qweqwe.Slots.Service.{Command, serve}

-- What can happen next. `world` is what other parts of the program write: friendships, city locks,
-- active places, users and the clock.
pub data Event : Type 0 where
  serves : Call → Command → Event
  blocks_user : (blocker blocked now : ℕ) → Event
  unblocks_user : (blocker blocked : ℕ) → Event
  world :
      (friendships : List (ℕ × ℕ)) (city_locks : List CityLock) (places users : List ℕ) (clock : ℕ)
      → Event

-- A failed transaction leaves the database as it was.
abbrev pub commit : Db → Result Db → Db
commit db (ok d) = d
commit db (err e) = db

unfoldable pub step : Config → Db → Event → Db
step c db (serves call command) = commit db (do r ← serve c call command db; ok (r.1))
step c db (blocks_user blocker blocked now) =
    commit db (block c.waitlist_request_ttl blocker blocked now db)
step c db (unblocks_user blocker blocked) = commit db (unblock blocker blocked db)
step c db (world friendships city_locks places users clock) = record db {
  friendships = friendships;
  city_locks = city_locks;
  active_places = places;
  users = users;
  clock = clock;
}

unfoldable pub run : Config → Db → List Event → Db
run c db [] = db
run c db (e ∷ es) = run c (step c db e) es

-- The database after the migrations.
abbrev pub empty_db : Db
empty_db = record {
  slots = [];
  claims = [];
  blocks = [];
  friendships = [];
  city_locks = [];
  active_places = [];
  users = [];
  clock = 0;
}
