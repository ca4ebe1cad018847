-- ===== src/Slots/Model.antt =====
-- The data of the Slot component: backend/internal/slot/model.go and the rows of the tables that the
-- Slot stores write. A UUID is a natural number: the code only compares and orders them. A time
-- is a natural number of nanoseconds since the epoch, and so is a duration.
use Prim.Native.String.{String}
use qweqwe.Base.{ℕ, Bool, true, false, Option, List}

pub data State : Type 0 where
  draft published filling full active completed cancelled expired moderated : State

pub data AccessMode : Type 0 where
  instant approval waitlist : AccessMode

pub data Visibility : Type 0 where
  visible_public visible_private visible_links visible_selected : Visibility
  visible_city visible_lasso visible_travel_corridor : Visibility

-- `unrelated` is NONE.
pub data ViewerState : Type 0 where
  unrelated pending accepted host : ViewerState

-- The kinds of SYSTEM chat message that the Slot stores emit.
pub data SystemEvent : Type 0 where
  member_joined member_left slot_started : SystemEvent

abbrev pub max_v1_capacity : ℕ
max_v1_capacity = 100

abbrev pub max_pending_requests : ℕ
max_pending_requests = 100

-- A row of slot_requests (user, created_at) or of slot_memberships (user, accepted_at), kept
-- with the Slot that its slot_id names.
pub record UserRow : Type 0 where
  pub user : ℕ
  pub at : ℕ

pub record Notice : Type 0 where
  pub event : SystemEvent
  pub subject : ℕ

-- A row of slots with the rows of the tables that refer to it. `notices` are the SYSTEM messages
-- that were inserted, newest first.
pub record Slot : Type 0 where
  pub host_id : ℕ
  pub title : String
  pub activity : String
  pub details : Option String
  pub place_text : String
  pub zone_text : Option String
  pub canonical_place_id : Option ℕ
  pub start_at : Option ℕ
  pub capacity : ℕ
  pub accepted_count : ℕ
  pub state : State
  pub access_mode : AccessMode
  pub visibility : Visibility
  pub selected_user_ids : List ℕ
  pub lasso_polygon_wkt : Option String
  pub corridor_line_wkt : Option String
  pub corridor_radius_m : Option ℕ
  pub version : ℕ
  pub created_at : ℕ
  pub updated_at : ℕ
  pub cancelled_at : Option ℕ
  pub started_at : Option ℕ
  pub completed_at : Option ℕ
  pub requests : List UserRow
  pub members : List UserRow
  pub notices : List Notice

pub record EditInput : Type 0 where
  pub expected_version : ℕ
  pub title : Option String
  pub details : Option String
  pub place_text : Option String
  pub zone_text : Option String
  pub canonical_place_id : Option ℕ
  pub clear_canonical_place_id : Bool
  pub start_at : Option ℕ
  pub clear_start_at : Bool
  pub capacity : Option ℕ
  pub access_mode : Option AccessMode
  pub visibility : Option Visibility
  pub selected_user_ids : List ℕ

-- `isTerminal` of slot_store.go.
abbrev pub is_terminal : State → Bool
is_terminal completed = true
is_terminal cancelled = true
is_terminal expired = true
is_terminal moderated = true
is_terminal _ = false

abbrev pub is_draft : State → Bool
is_draft draft = true
is_draft _ = false

abbrev pub is_full : State → Bool
is_full full = true
is_full _ = false

abbrev pub is_active : State → Bool
is_active active = true
is_active _ = false

-- PUBLISHED or FILLING
abbrev pub is_filling : State → Bool
is_filling published = true
is_filling filling = true
is_filling _ = false

-- FILLING or FULL
abbrev pub is_seating : State → Bool
is_seating filling = true
is_seating full = true
is_seating _ = false

-- PUBLISHED, FILLING or FULL
abbrev pub is_open : State → Bool
is_open published = true
is_open filling = true
is_open full = true
is_open _ = false

abbrev pub is_instant : AccessMode → Bool
is_instant instant = true
is_instant _ = false

abbrev pub is_approval : AccessMode → Bool
is_approval approval = true
is_approval _ = false

abbrev pub is_waitlist : AccessMode → Bool
is_waitlist waitlist = true
is_waitlist _ = false

abbrev pub is_selected : Visibility → Bool
is_selected visible_selected = true
is_selected _ = false
