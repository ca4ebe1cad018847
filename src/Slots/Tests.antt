-- ===== src/Slots/Tests.antt =====
-- Runs of the Slot component at concrete databases.
use qweqwe.Base.{ℕ, ◌≡◌, ◌≤◌, ◌⊎◌, refl, none, some, List, [], ◌∷◌, arith, ok, err, forbidden}
use qweqwe.Slots.Model.{
  Slot, UserRow, filling, full, cancelled, AccessMode, instant, waitlist, approval, visible_public,
  member_joined,
}
use qweqwe.Slots.Rows.{exists_row, delete_row}
use qweqwe.Slots.Tables.{
  View, get_internal, Db, cancel, join, find_slot, put_slot, blocked_pair, contains, view_slot,
}
use qweqwe.Slots.Idempotency.{Call, drop_expired, find_claim, claim_idempotency}
use qweqwe.Slots.Transaction.{update_slot, transact}
use qweqwe.Slots.Social.{cancel_slot}
use qweqwe.Slots.Waitlist.{
  admit, join_slot, queue_order, is_skipped, promote_loop, promote_oldest, promote_all,
  requested_at, purge_expired, enqueue, seat_or_enqueue, waitlist_request,
}
use qweqwe.Slots.Hosting.{
  ensure_place_active, draft_row, publish_slot, attach_selected, attach_geometry,
}
use qweqwe.Slots.Store.{
  Config, answer, answer_attached, insert_slot, insert_once, create_draft_slot, publish,
  cancel_by_host, join_instant, request_seat,
}
use qweqwe.Slots.Service.{
  CreateInput, creates_draft, publishes, requests, leaves, cancels, joins, draft_candidate, serve,
}
use qweqwe.Slots.System.{Event, serves, blocks_user, step, run, empty_db}
use qweqwe.Slots.Promotion.{promote_oldest-IsFirst, promote_all_ends, IsFirst}
use qweqwe.Slots.Invariant.Hosting.{empty-IsRoster}
use qweqwe.Slots.Invariant.{IsSound}
use qweqwe.Slots.Soundness.{AllSound}
use qweqwe.Slots.Soundness.System.{run_reachable-AllSound}
use qweqwe.Slots.Evolution.{Tracks}
use qweqwe.Slots.Evolution.History.{IsLater, step-Tracks, run_reachable-IsLater}
use qweqwe.Slots.Once.AtMostOnce.{at_most_once, reused_key}
use qweqwe.Slots.Once.Claims.{drop_for}
use qweqwe.Slots.Once.Retries.{again_at}
use qweqwe.Slots.Once.Later.{decision_retry, join_retry}

abbrev config : Config
config = record { idempotency_ttl = 100; waitlist_request_ttl = 1000 }

abbrev call_of : ℕ → ℕ → ℕ → Call
call_of actor key now = record { actor = actor; key = key; request_hash = 5; now = now }

abbrev input : CreateInput
input = record {
  title = "Evening run";
  activity = "run";
  details = none;
  place_text = "Park";
  zone_text = none;
  canonical_place_id = none;
  start_at = none;
  capacity = 2;
  access_mode = some waitlist;
  visibility = none;
  selected_user_ids = [];
  lasso_polygon_wkt = none;
  corridor_line_wkt = none;
  corridor_radius_m = none;
}

-- A Slot for two is drafted, published and filled.
abbrev opening : List Event
opening =
    serves (call_of 1 1 10) (creates_draft 7 input)
    ∷ serves (call_of 1 2 20) (publishes 7 1)
    ∷ serves (call_of 2 3 30) (requests 7)
    ∷ serves (call_of 3 4 40) (requests 7)
    ∷ []

-- Two more users wait; a member leaves, and the user promoted is blocked by the host.
abbrev closing : List Event
closing =
    serves (call_of 4 5 50) (requests 7)
    ∷ serves (call_of 5 6 60) (requests 7)
    ∷ serves (call_of 2 7 70) (leaves 7)
    ∷ blocks_user 1 4 80
    ∷ []

abbrev slot_of : AccessMode → Slot
slot_of mode = record {
  host_id = 1;
  title = "Evening run";
  activity = "run";
  details = none;
  place_text = "Park";
  zone_text = none;
  canonical_place_id = none;
  start_at = none;
  capacity = 2;
  accepted_count = 0;
  state = filling;
  access_mode = mode;
  visibility = visible_public;
  selected_user_ids = [];
  lasso_polygon_wkt = none;
  corridor_line_wkt = none;
  corridor_radius_m = none;
  version = 2;
  created_at = 10;
  updated_at = 20;
  cancelled_at = none;
  started_at = none;
  completed_at = none;
  requests = [];
  members = [];
  notices = [];
}

abbrev opened : Slot
opened = record (slot_of waitlist) {
  accepted_count = 2;
  state = full;
  version = 4;
  updated_at = 40;
  members = record { user = 3; at = 40 } ∷ record { user = 2; at = 30 } ∷ [];
  notices =
      record { event = member_joined; subject = 3 }
      ∷ record { event = member_joined; subject = 2 }
      ∷ [];
}

opening_fills : find_slot 7 (run config empty_db opening).slots ≡ some opened
unfolding run step serve create_draft_slot insert_once insert_slot claim_idempotency drop_expired
    find_claim find_slot put_slot ensure_place_active draft_row draft_candidate answer
    answer_attached get_internal view_slot attach_selected attach_geometry publish transact
    update_slot publish_slot request_seat waitlist_request purge_expired requested_at
    seat_or_enqueue admit enqueue exists_row delete_row blocked_pair contains
opening_fills = refl

run_reachable-AllSound_example : AllSound (run config empty_db opening)
run_reachable-AllSound_example = run_reachable-AllSound config opening

run_reachable-IsLater_example :
    (t : Slot) × (find_slot 7 (run config (run config empty_db opening) closing).slots ≡ some t)
    × IsLater opened t
run_reachable-IsLater_example = run_reachable-IsLater config 7 opening closing opened opening_fills

step-Tracks_example :
    Tracks
      (run config empty_db opening)
      (step config (run config empty_db opening) (blocks_user 1 2 50))
step-Tracks_example =
    step-Tracks config (run config empty_db opening) (blocks_user 1 2 50)
      (run_reachable-AllSound config opening)

-- A database with one Slot and no claims, and with the claim of a call.
abbrev hosting : Slot → Db
hosting s = record empty_db { slots = (7, s) ∷ [] }

abbrev cancelled_slot : Slot
cancelled_slot = record (slot_of approval) {
  state = cancelled;
  version = 3;
  updated_at = 30;
  cancelled_at = some 30;
}

abbrev cancelled_db : Db
cancelled_db = record (hosting cancelled_slot) {
  claims =
      record {
        actor = 1;
        key = 9;
        operation = cancel;
        request_hash = 5;
        resource = 7;
        expires_at = 130;
      }
      ∷ [];
}

cancel_serves :
    serve config (call_of 1 9 30) (cancels 7 2) (hosting (slot_of approval))
    ≡ ok (view_slot 1 7 cancelled_slot, cancelled_db)
unfolding serve cancel_by_host transact claim_idempotency drop_expired find_claim update_slot
    find_slot put_slot cancel_slot answer get_internal view_slot
cancel_serves = refl

slot_of-IsSound : IsSound [] (slot_of approval)
slot_of-IsSound = record {
  roster = empty-IsRoster [] 1;
  counted = refl;
  seated = omega arith;
  conserves = tt;
}

decision_retry_example :
    (w : View) × (serve config
        (again_at (call_of 1 9 30) 120)
        (cancels 7 2)
        (run config cancelled_db (blocks_user 1 2 60 ∷ []))
      ≡ ok (w, drop_for (call_of 1 9 120) (run config cancelled_db (blocks_user 1 2 60 ∷ []))))
    × (get_internal (run config cancelled_db (blocks_user 1 2 60 ∷ [])) 1 7 ≡ ok w)
unfolding drop_expired find_claim
decision_retry_example =
    decision_retry config (call_of 1 9 30) (cancels 7 2) (hosting (slot_of approval)) cancelled_db
      (view_slot 1 7 cancelled_slot) (blocks_user 1 2 60 ∷ []) 120 refl (slot_of-IsSound, tt) refl
      cancel_serves (tt, tt) (omega arith)

at_most_once_example :
    (step config
      (run config cancelled_db (blocks_user 1 2 60 ∷ []))
      (serves (call_of 1 9 120) (cancels 7 3))).slots
    ≡ (run config cancelled_db (blocks_user 1 2 60 ∷ [])).slots
unfolding drop_expired find_claim
at_most_once_example =
    at_most_once config (call_of 1 9 30) (call_of 1 9 120) (cancels 7 2) (cancels 7 3)
      (hosting (slot_of approval)) cancelled_db (view_slot 1 7 cancelled_slot)
      (blocks_user 1 2 60 ∷ []) refl cancel_serves (tt, tt) refl refl (omega arith)

abbrev joined_slot : Slot
joined_slot = record (slot_of instant) {
  accepted_count = 1;
  version = 3;
  updated_at = 30;
  members = record { user = 2; at = 30 } ∷ [];
  notices = record { event = member_joined; subject = 2 } ∷ [];
}

abbrev joined_db : Db
joined_db = record (hosting joined_slot) {
  claims =
      record {
        actor = 2;
        key = 9;
        operation = join;
        request_hash = 5;
        resource = 7;
        expires_at = 130;
      }
      ∷ [];
}

join_serves :
    serve config (call_of 2 9 30) (joins 7) (hosting (slot_of instant))
    ≡ ok (view_slot 2 7 joined_slot, joined_db)
unfolding serve join_instant transact claim_idempotency drop_expired find_claim update_slot
    find_slot put_slot join_slot admit exists_row delete_row blocked_pair answer get_internal
    view_slot
join_serves = refl

join_retry_example :
    serve config
      (again_at (call_of 2 9 30) 120)
      (joins 7)
      (run config joined_db (blocks_user 1 5 60 ∷ []))
    ≡ err forbidden
unfolding drop_expired find_claim
join_retry_example =
    join_retry config (call_of 2 9 30) 7 (hosting (slot_of instant)) joined_db
      (view_slot 2 7 joined_slot) (blocks_user 1 5 60 ∷ []) 120 refl join_serves (tt, tt)
      (omega arith)

-- A queue of two, the later request first in the table.
abbrev queued : Slot
queued = record (slot_of waitlist) {
  requests = record { user = 4; at = 60 } ∷ record { user = 5; at = 50 } ∷ [];
}

queue_promotes : (promote_oldest 1000 100 [] 0 2 queued).2 ≡ some 5
unfolding promote_oldest promote_loop queue_order is_skipped blocked_pair exists_row
queue_promotes = refl

promote_oldest-IsFirst_example :
    (w : UserRow) × (w.user ≡ 5) × IsFirst 1000 100 [] queued queued.requests w
promote_oldest-IsFirst_example = promote_oldest-IsFirst 1000 100 [] 0 2 queued 5 queue_promotes

promote_all_ends_example :
    let r = promote_all 2 1000 100 [] 0 2 queued in
    (0 ≤ r.1) × (r.1 ≤ 2) × ((r.1 ≡ 2) ⊎ ((r.0).requests ≡ []))
promote_all_ends_example = promote_all_ends 1000 100 [] 2 0 2 queued (omega arith) (omega arith)

-- The key of the join, used for a join of another body.
abbrev other_body : Call
other_body = record { actor = 2; key = 9; request_hash = 6; now = 40 }

reused_key_example :
    ¬ (serve config other_body (joins 7) joined_db ≡ ok (view_slot 2 7 joined_slot, joined_db))
unfolding drop_expired find_claim
reused_key_example =
    reused_key config other_body (joins 7) joined_db
      (record {
        actor = 2;
        key = 9;
        operation = join;
        request_hash = 5;
        resource = 7;
        expires_at = 130;
      })
      refl refl (view_slot 2 7 joined_slot, joined_db)
