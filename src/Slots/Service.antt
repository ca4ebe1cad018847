-- ===== src/Slots/Service.antt =====
-- The slot.Service methods (backend/internal/slot/service.go, v11_hosting.go, v11_access.go, remove_member.go) over the
-- v1.1 store: the checks on identities, versions and capacities, and the candidates. The inputs
-- are taken after normalisation: the trimming and the length limits of texts are not modelled,
-- they only refuse more calls.
use Prim.Native.String.{String}
use qweqwe.Base.{
  ℕ, Bool, true, false, not, ◌&&◌, ◌||◌, Option, none, some, List, [], Result, ◌>>◌, fail_if,
  invalid_input, invalid_state, ◌==◌, leb,
}
use qweqwe.Slots.Model.{
  Slot, draft, filling, AccessMode, approval, Visibility, visible_public, visible_lasso,
  visible_travel_corridor, EditInput, max_v1_capacity, is_approval,
}
use qweqwe.Slots.Tables.{Db, View}
use qweqwe.Slots.Idempotency.{Call}
use qweqwe.Slots.Hosting.{get_or, is_some}
use qweqwe.Slots.Store.{
  Config, create_slot, create_draft_slot, publish, edit_details, cancel_by_host, approve_request,
  reject_request, start_by_host, complete_by_host, join_instant, request_seat, leave_seat,
  remove_from_slot,
}

pub record CreateInput : Type 0 where
  pub title : String
  pub activity : String
  pub details : Option String
  pub place_text : String
  pub zone_text : Option String
  pub canonical_place_id : Option ℕ
  pub start_at : Option ℕ
  pub capacity : ℕ
  pub access_mode : Option AccessMode
  pub visibility : Option Visibility
  pub selected_user_ids : List ℕ
  pub lasso_polygon_wkt : Option String
  pub corridor_line_wkt : Option String
  pub corridor_radius_m : Option ℕ

-- `effectiveAccessMode` and `effectiveVisibility`
abbrev pub effective_access_mode : Option AccessMode → AccessMode
effective_access_mode m = get_or m approval

abbrev pub effective_visibility : Option Visibility → Visibility
effective_visibility v = get_or v visible_public

-- The range test of `normalizeCreate` and `normalizeEdit`.
abbrev pub valid_capacity : ℕ → Bool
valid_capacity n = leb 2 n && leb n max_v1_capacity

-- The candidate that `CreateDraft` builds; `Create` changes its state and visibility.
unfoldable pub draft_candidate : Call → CreateInput → Slot
draft_candidate call input = record {
  host_id = call.actor;
  title = input.title;
  activity = input.activity;
  details = input.details;
  place_text = input.place_text;
  zone_text = input.zone_text;
  canonical_place_id = input.canonical_place_id;
  start_at = input.start_at;
  capacity = input.capacity;
  accepted_count = 0;
  state = draft;
  access_mode = effective_access_mode input.access_mode;
  visibility = effective_visibility input.visibility;
  selected_user_ids = input.selected_user_ids;
  lasso_polygon_wkt = input.lasso_polygon_wkt;
  corridor_line_wkt = input.corridor_line_wkt;
  corridor_radius_m = input.corridor_radius_m;
  version = 1;
  created_at = call.now;
  updated_at = call.now;
  cancelled_at = none;
  started_at = none;
  completed_at = none;
  requests = [];
  members = [];
  notices = [];
}

unfoldable pub candidate : Call → CreateInput → Slot
unfolding draft_candidate
candidate call input = record (draft_candidate call input) {
  state = filling;
  visibility = visible_public;
  selected_user_ids = [];
  lasso_polygon_wkt = none;
  corridor_line_wkt = none;
  corridor_radius_m = none;
}

abbrev not_approval : Option AccessMode → Bool
not_approval none = false
not_approval (some m) = not (is_approval m)

abbrev not_public : Option Visibility → Bool
not_public none = false
not_public (some visible_public) = false
not_public (some _) = true

-- An edit cannot draw a polygon or a route.
abbrev needs_geometry : Option Visibility → Bool
needs_geometry (some visible_lasso) = true
needs_geometry (some visible_travel_corridor) = true
needs_geometry _ = false

-- The tests of `normalizeEdit` that do not look into a text.
unfoldable pub edit_refused : EditInput → Bool
edit_refused p =
    not (
      is_some p.title
      || is_some p.details
      || is_some p.place_text
      || is_some p.zone_text
      || is_some p.canonical_place_id
      || p.clear_canonical_place_id
      || is_some p.start_at
      || p.clear_start_at
      || is_some p.capacity
      || is_some p.access_mode
      || is_some p.visibility)
    || (is_some p.start_at && p.clear_start_at)
    || (is_some p.canonical_place_id && p.clear_canonical_place_id)
    || not (valid_capacity (get_or p.capacity 2))
    || needs_geometry p.visibility

-- One call of the service, with what it is given besides the actor, the key and the time. A create
-- names the fresh UUID that it draws.
pub data Command : Type 0 where
  creates : (id : ℕ) → CreateInput → Command
  creates_draft : (id : ℕ) → CreateInput → Command
  publishes : (slot expected_version : ℕ) → Command
  edits : (slot : ℕ) → EditInput → Command
  cancels : (slot expected_version : ℕ) → Command
  requests : (slot : ℕ) → Command
  joins : (slot : ℕ) → Command
  leaves : (slot : ℕ) → Command
  approves : (slot requester : ℕ) → Command
  rejects : (slot requester : ℕ) → Command
  starts : (slot : ℕ) → Command
  completes : (slot : ℕ) → Command
  removes : (slot member expected_version : ℕ) → Command

-- `Create`
abbrev pub create_checked : Config → Call → (id : ℕ) → CreateInput → Db → Result (View × Db)
create_checked c call id input db = do
  fail_if (not (valid_capacity input.capacity)) invalid_input
  fail_if (not_approval input.access_mode) invalid_state
  fail_if (not_public input.visibility) invalid_state
  create_slot c call id (candidate call input) db

-- `CreateDraft`
abbrev pub create_draft_checked : Config → Call → (id : ℕ) → CreateInput → Db → Result (View × Db)
create_draft_checked c call id input db = do
  fail_if (not (valid_capacity input.capacity)) invalid_input
  create_draft_slot c call id (draft_candidate call input) db

-- `PublishDraft`
abbrev pub publish_checked : Config → Call → (slot expected_version : ℕ) → Db → Result (View × Db)
publish_checked c call i expected db = do
  fail_if (expected == 0) invalid_input
  publish c call i expected db

-- `Edit`
abbrev pub edit_checked : Config → Call → (slot : ℕ) → EditInput → Db → Result (View × Db)
edit_checked c call i patch db = do
  fail_if (patch.expected_version == 0) invalid_input
  fail_if (edit_refused patch) invalid_input
  edit_details c call i patch db

-- `Cancel`
abbrev pub cancel_checked : Config → Call → (slot expected_version : ℕ) → Db → Result (View × Db)
cancel_checked c call i expected db = do
  fail_if (expected == 0) invalid_input
  cancel_by_host c call i expected db

-- `Approve` and `Reject`, by `hostRequestMutation`
abbrev pub approve_checked : Config → Call → (slot requester : ℕ) → Db → Result (View × Db)
approve_checked c call i requester db = do
  fail_if (call.actor == requester) invalid_input
  approve_request c call i requester db

abbrev pub reject_checked : Config → Call → (slot requester : ℕ) → Db → Result (View × Db)
reject_checked c call i requester db = do
  fail_if (call.actor == requester) invalid_input
  reject_request c call i requester db

-- `RemoveMember`
abbrev pub remove_checked :
    Config → Call → (slot member expected_version : ℕ) → Db → Result (View × Db)
remove_checked c call i member expected db = do
  fail_if (member == call.actor || expected == 0) invalid_input
  remove_from_slot c call i member expected db

-- One method for each command; `Request`, `Join`, `Leave`, `Start` and `Complete` pass the call on.
unfoldable pub serve : Config → Call → Command → Db → Result (View × Db)
serve c call (creates id input) db = create_checked c call id input db
serve c call (creates_draft id input) db = create_draft_checked c call id input db
serve c call (publishes i expected) db = publish_checked c call i expected db
serve c call (edits i patch) db = edit_checked c call i patch db
serve c call (cancels i expected) db = cancel_checked c call i expected db
serve c call (requests i) db = request_seat c call i db
serve c call (joins i) db = join_instant c call i db
serve c call (leaves i) db = leave_seat c call i db
serve c call (approves i requester) db = approve_checked c call i requester db
serve c call (rejects i requester) db = reject_checked c call i requester db
serve c call (starts i) db = start_by_host c call i db
serve c call (completes i) db = complete_by_host c call i db
serve c call (removes i member expected) db = remove_checked c call i member expected db
