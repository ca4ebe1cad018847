-- ===== src/Slots/Tables.antt =====
-- The database that the Slot stores share, and their reads of it. A table is the list of its rows; the
-- rows that belong to one Slot are kept with it (Slots.Model).
use Prim.Native.String.{String}
use qweqwe.Base.{
  ℕ, Bool, false, ◌&&◌, ◌||◌, Option, none, some, List, [], ◌∷◌, Result, or_fail, ◌>>=◌, ok,
  not_found, ◌==◌, ltb, if◌then◌else◌,
}
use qweqwe.Slots.Model.{
  Slot, State, AccessMode, Visibility, ViewerState, unrelated, pending, accepted, host,
}
use qweqwe.Slots.Rows.{exists_row}

-- The operation column of mutation_idempotency: "slot.create" and so on.
pub data Operation : Type 0 where
  create edit cancel request leave approve reject start complete remove_member : Operation
  join create_draft publish_draft : Operation

-- The text of an operation, compared as a number.
abbrev pub code : Operation → ℕ
code create = 0
code edit = 1
code cancel = 2
code request = 3
code leave = 4
code approve = 5
code reject = 6
code start = 7
code complete = 8
code remove_member = 9
code join = 10
code create_draft = 11
code publish_draft = 12

-- A row of mutation_idempotency.
pub record Claim : Type 0 where
  pub actor : ℕ
  pub key : ℕ
  pub operation : Operation
  pub request_hash : ℕ
  pub resource : ℕ
  pub expires_at : ℕ

-- A row of user_blocks.
pub record BlockRow : Type 0 where
  pub blocker : ℕ
  pub blocked : ℕ

-- A row of city_context_locks.
pub record CityLock : Type 0 where
  pub user : ℕ
  pub locality : ℕ
  pub expires_at : ℕ

-- `clock` is what now() gives in SQL; `friendships` holds (user_lo_id, user_hi_id);
-- `active_places` the ids of the active canonical_places; `users` those of app_users.
pub record Db : Type 0 where
  pub slots : List (ℕ × Slot)
  pub claims : List Claim
  pub blocks : List BlockRow
  pub friendships : List (ℕ × ℕ)
  pub city_locks : List CityLock
  pub active_places : List ℕ
  pub users : List ℕ
  pub clock : ℕ

-- SELECT … FROM slots WHERE id=i
unfoldable pub find_slot : ℕ → List (ℕ × Slot) → Option Slot
find_slot i [] = none
find_slot i ((j, s) ∷ rest) = if j == i then some s else find_slot i rest

-- UPDATE slots … WHERE id=i
unfoldable pub put_slot : ℕ → Slot → List (ℕ × Slot) → List (ℕ × Slot)
put_slot i t [] = []
put_slot i t ((j, s) ∷ rest) = if j == i then (j, t) ∷ rest else (j, s) ∷ put_slot i t rest

-- `blockedPairTx`
unfoldable pub blocked_pair : ℕ → ℕ → List BlockRow → Bool
blocked_pair a b [] = false
blocked_pair a b (r ∷ rs) =
    (r.blocker == a && r.blocked == b) || (r.blocker == b && r.blocked == a) || blocked_pair a b rs

unfoldable pub contains : ℕ → List ℕ → Bool
contains x [] = false
contains x (y ∷ ys) = y == x || contains x ys

-- A user id is the 128-bit number of its uuid: PostgreSQL orders uuids as these numbers.
-- EXISTS(SELECT 1 FROM friendships WHERE user_lo_id=LEAST(a,b) AND user_hi_id=GREATEST(a,b))
unfoldable pub are_friends : ℕ → ℕ → List (ℕ × ℕ) → Bool
are_friends a b [] = false
are_friends a b ((lo, hi) ∷ fs) =
    (if ltb a b then lo == a && hi == b else lo == b && hi == a) || are_friends a b fs

-- A live lock of the user on the locality.
unfoldable pub locked_to : ℕ → ℕ → ℕ → List CityLock → Bool
locked_to now u place [] = false
locked_to now u place (l ∷ ls) =
    (l.user == u && l.locality == place && ltb now l.expires_at) || locked_to now u place ls

-- The self-join of city_context_locks: some live lock of `v` names the locality of one of `h`.
unfoldable pub same_city : ℕ → ℕ → ℕ → List CityLock → List CityLock → Bool
same_city now v h all [] = false
same_city now v h all (l ∷ ls) =
    (l.user == v && ltb now l.expires_at && locked_to now h l.locality all)
    || same_city now v h all ls

-- The columns of `v11SlotColumns`, and the viewer's relation. The three host-only groups of
-- fields stay empty until `attach_…` fills them.
pub record View : Type 0 where
  pub id : ℕ
  pub organizer : ℕ
  pub title : String
  pub activity : String
  pub details : Option String
  pub place_text : String
  pub zone_text : Option String
  pub canonical_place_id : Option ℕ
  pub start_at : Option ℕ
  pub capacity : ℕ
  pub accepted_count : ℕ
  pub state : State
  pub access_mode : AccessMode
  pub visibility : Visibility
  pub selected_user_ids : List ℕ
  pub lasso_polygon_wkt : Option String
  pub corridor_line_wkt : Option String
  pub corridor_radius_m : Option ℕ
  pub viewer_state : ViewerState
  pub version : ℕ
  pub created_at : ℕ
  pub updated_at : ℕ

-- The CASE expression of `getV11SlotInternalSQL`.
unfoldable pub viewer_state_of : ℕ → Slot → ViewerState
viewer_state_of actor s =
    if s.host_id == actor
    then host
    else if exists_row actor s.members
    then accepted
    else if exists_row actor s.requests
    then pending
    else unrelated

unfoldable pub view_slot : ℕ → ℕ → Slot → View
unfolding viewer_state_of
view_slot actor i s = record {
  id = i;
  organizer = s.host_id;
  title = s.title;
  activity = s.activity;
  details = s.details;
  place_text = s.place_text;
  zone_text = s.zone_text;
  canonical_place_id = s.canonical_place_id;
  start_at = s.start_at;
  capacity = s.capacity;
  accepted_count = s.accepted_count;
  state = s.state;
  access_mode = s.access_mode;
  visibility = s.visibility;
  selected_user_ids = [];
  lasso_polygon_wkt = none;
  corridor_line_wkt = none;
  corridor_radius_m = none;
  viewer_state = viewer_state_of actor s;
  version = s.version;
  created_at = s.created_at;
  updated_at = s.updated_at;
}

-- `getV11SlotInternalTx`
unfoldable pub get_internal : Db → ℕ → ℕ → Result View
get_internal db actor i = do s ← or_fail (find_slot i db.slots) not_found; ok (view_slot actor i s)
