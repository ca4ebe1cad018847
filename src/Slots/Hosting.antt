-- ===== src/Slots/Hosting.antt =====
-- The host's side in v1.1: creation, publication and editing, in backend/internal/postgres/v11_slot_store.go and
-- v11_hosting_store.go. A candidate is the slot.Slot that the service builds.
use Prim.Native.String.{String}
use qweqwe.Base.{
  ℕ, ◌+◌, ◌-◌, Bool, true, false, not, ◌&&◌, ◌||◌, Option, none, some, List, [], Result, ok, ◌>>◌,
  fail_if, forbidden, conflict, invalid_input, invalid_state, ◌==◌, ltb, if◌then◌else◌,
}
use qweqwe.Slots.Model.{
  Slot, State, draft, filling, Visibility, visible_lasso, visible_travel_corridor, EditInput,
  is_draft, is_active, is_seating, is_open, is_waitlist, is_selected,
}
use qweqwe.Slots.Tables.{BlockRow, View, contains}
use qweqwe.Slots.Social.{fill_state}
use qweqwe.Slots.Waitlist.{promote_all}

-- `ensureCanonicalPlaceActiveTx`
unfoldable pub ensure_place_active : List ℕ → Option ℕ → Result (Unit {0})
ensure_place_active places none = ok tt
ensure_place_active places (some p) = fail_if (not (contains p places)) invalid_input

-- The INSERT of `V11SlotStore.Create`: no allow-list and no geometry.
unfoldable pub created_row : ℕ → Slot → Slot
created_row actor c = record c {
  host_id = actor;
  accepted_count = 0;
  selected_user_ids = [];
  lasso_polygon_wkt = none;
  corridor_line_wkt = none;
  corridor_radius_m = none;
  version = 1;
  updated_at = c.created_at;
  cancelled_at = none;
  started_at = none;
  completed_at = none;
  requests = [];
  members = [];
  notices = [];
}

-- The INSERT of `CreateDraft`, and the rows of slot_selected_viewers.
unfoldable pub draft_row : ℕ → Slot → Slot
draft_row actor c = record c {
  host_id = actor;
  accepted_count = 0;
  state = draft;
  version = 1;
  updated_at = c.created_at;
  cancelled_at = none;
  started_at = none;
  completed_at = none;
  requests = [];
  members = [];
  notices = [];
}

-- The 30 seconds by which a start may lie in the past.
abbrev pub publish_grace : ℕ
publish_grace = 30000000000

abbrev pub too_late : ℕ → Option ℕ → Bool
too_late now none = false
too_late now (some t) = ltb (t + publish_grace) now

-- `PublishDraft`. Every access mode is canonical, so the check of that never fails.
unfoldable pub publish_slot : ℕ → ℕ → ℕ → Slot → Result Slot
publish_slot actor expected now s = do
  fail_if (not (s.host_id == actor)) forbidden
  fail_if (not (is_draft s.state)) invalid_state
  fail_if (not (s.version == expected)) conflict
  fail_if (not (s.accepted_count == 0) || ltb s.capacity 2) invalid_state
  fail_if (too_late now s.start_at) invalid_input
  ok (record s { state = filling; version = s.version + 1; updated_at = now })

abbrev pub get_or : {A : Type 0} → Option A → A → A
get_or none d = d
get_or (some a) d = a

abbrev pub is_some : {A : Type 0} → Option A → Bool
is_some none = false
is_some (some a) = true

-- NULLIF(v,'')
abbrev pub null_if_empty : String → Option String
null_if_empty String.[] = none
null_if_empty (String.◌∷◌ c cs) = some (String.◌∷◌ c cs)

-- CASE WHEN set THEN NULLIF(new,'') ELSE old END
abbrev pub patch_text : Option String → Option String → Option String
patch_text none old = old
patch_text (some v) old = null_if_empty v

-- A column that can be set or cleared.
abbrev pub patch_optional : {A : Type 0} → Option A → Bool → Option A → Option A
patch_optional new clear old = if is_some new || clear then new else old

abbrev pub edited_state : State → ℕ → ℕ → State
edited_state s count capacity = if is_seating s then fill_state count capacity else s

abbrev pub sets_selected : Option Visibility → Bool
sets_selected none = false
sets_selected (some v) = is_selected v

-- The UPDATE of `Edit`, and the replaced allow-list.
unfoldable pub patch_row : EditInput → ℕ → Slot → Slot
patch_row p now s =
    let capacity = get_or p.capacity s.capacity in
    record s {
      title = get_or p.title s.title;
      details = patch_text p.details s.details;
      place_text = get_or p.place_text s.place_text;
      zone_text = patch_text p.zone_text s.zone_text;
      canonical_place_id =
          patch_optional p.canonical_place_id p.clear_canonical_place_id s.canonical_place_id;
      start_at = patch_optional p.start_at p.clear_start_at s.start_at;
      capacity = capacity;
      access_mode = get_or p.access_mode s.access_mode;
      visibility = get_or p.visibility s.visibility;
      selected_user_ids =
          if sets_selected p.visibility then p.selected_user_ids else s.selected_user_ids;
      state = edited_state s.state s.accepted_count capacity;
      version = s.version + 1;
      updated_at = now;
    }

-- Promotion into every free seat, and the count and state if someone was promoted.
unfoldable pub promote_into_free : ℕ → ℕ → List BlockRow → Slot → Slot
promote_into_free ttl now blocks s =
    let r =
      promote_all (s.capacity - s.accepted_count) ttl now blocks s.accepted_count s.capacity s in
    if r.1 == s.accepted_count
    then r.0
    else record (r.0) { accepted_count = r.1; state = fill_state (r.1) s.capacity }

-- Whether `Edit` goes on to the promotion loop, for the row `s` before it and `t` after.
unfoldable pub promotes : Slot → Slot → Bool
promotes s t =
    is_waitlist s.access_mode
    && not (is_draft s.state)
    && not (is_active s.state)
    && ltb t.accepted_count t.capacity

-- `Edit`
unfoldable pub edit_slot : ℕ → ℕ → EditInput → ℕ → List ℕ → List BlockRow → Slot → Result Slot
edit_slot ttl actor p now places blocks s = do
  fail_if (not (s.host_id == actor)) forbidden
  fail_if (not (is_draft s.state || is_open s.state)) invalid_state
  fail_if (not (s.version == p.expected_version)) conflict
  fail_if (is_some p.access_mode && not (is_draft s.state)) invalid_state
  fail_if (is_some p.visibility && not (is_draft s.state)) invalid_state
  ensure_place_active places p.canonical_place_id
  fail_if (ltb (get_or p.capacity s.capacity) s.accepted_count) invalid_input
  let t = patch_row p now s
  ok (if promotes s t then promote_into_free ttl now blocks t else t)

-- `attachSelectedUserIDsTx`
unfoldable pub attach_selected : Slot → View → View
attach_selected s v =
    if is_selected v.visibility then record v { selected_user_ids = s.selected_user_ids } else v

abbrev has_geometry : Visibility → Bool
has_geometry visible_lasso = true
has_geometry visible_travel_corridor = true
has_geometry _ = false

-- `attachLassoAndCorridorTx`
unfoldable pub attach_geometry : Slot → View → View
attach_geometry s v =
    if has_geometry v.visibility
    then record v {
      lasso_polygon_wkt = s.lasso_polygon_wkt;
      corridor_line_wkt = s.corridor_line_wkt;
      corridor_radius_m = s.corridor_radius_m;
    }
    else v
