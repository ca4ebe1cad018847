-- ===== src/Guardian/Tests.antt =====
-- Runs of the links of one meeting, and instances of the theorems.
use qweqwe.Base.{
  ℕ, ◌≡◌, refl, none, some, List, [], ◌∷◌, ok, err, Text, forbidden, mode_not_supported,
  link_unavailable,
}
use qweqwe.Slots.Model.{Slot, active, approval, visible_public}
use qweqwe.Slots.Rows.{exists_row}
use qweqwe.Slots.Tables.{Db, find_slot}
use qweqwe.Slots.System.{empty_db}
use qweqwe.Guardian.Store.{
  status_only, live_precise, slot_active, Link, insert_link, create_link, new_link, revoked,
  revoke_link, access_link, LinkCall, creates, revokes, serve_link, run_links,
}
use qweqwe.Guardian.Burned.{revoked_stays_burned}
use qweqwe.Guardian.Live.{access_link_lifetime}

abbrev walk : Slot
walk = record {
  host_id = 1;
  title = "Walk";
  activity = "walk";
  details = none;
  place_text = "Park";
  zone_text = none;
  canonical_place_id = none;
  start_at = none;
  capacity = 4;
  accepted_count = 1;
  state = active;
  access_mode = approval;
  visibility = visible_public;
  selected_user_ids = [];
  lasso_polygon_wkt = none;
  corridor_line_wkt = none;
  corridor_radius_m = none;
  version = 4;
  created_at = 10;
  updated_at = 40;
  cancelled_at = none;
  started_at = some 40;
  completed_at = none;
  requests = [];
  members = record { user = 2; at = 30 } ∷ [];
  notices = [];
}

abbrev walks : Db
walks = record empty_db { slots = (7, walk) ∷ [] }

abbrev display_name : ℕ → Text
display_name u = u ∷ []

abbrev own_link : Link
own_link = new_link 50 7 2 900 100 600

creates_link : create_link walks 50 7 2 status_only 900 100 600 [] ≡ ok (own_link ∷ [])
unfolding create_link insert_link find_slot exists_row
creates_link = refl

refuses_stranger : create_link walks 50 7 9 status_only 900 100 600 [] ≡ err forbidden
unfolding create_link insert_link find_slot exists_row
refuses_stranger = refl

refuses_precise : create_link walks 50 7 2 live_precise 900 100 600 [] ≡ err mode_not_supported
unfolding create_link
refuses_precise = refl

-- Another participant makes a link, and cannot revoke this one.
abbrev others_call : List LinkCall
others_call = creates walks 51 7 1 status_only 901 110 600 ∷ revokes 50 1 120 ∷ []

abbrev burned_links : List Link
burned_links = new_link 51 7 1 901 110 600 ∷ revoked 130 own_link ∷ []

revokes_own : revoke_link 50 2 130 (run_links others_call (own_link ∷ [])) ≡ ok burned_links
unfolding revoke_link run_links serve_link create_link insert_link find_slot exists_row
revokes_own = refl

walk_found : find_slot 7 walks.slots ≡ some walk
unfolding find_slot
walk_found = refl

revoked_stays_burned_example :
    access_link walks display_name 900 140 (run_links others_call burned_links)
    ≡ err link_unavailable
revoked_stays_burned_example =
    revoked_stays_burned walks walks display_name 50 7 2 status_only 900 100 600 130 140 []
      (own_link ∷ []) burned_links others_call others_call creates_link revokes_own

access_link_lifetime_example :
    access_link walks display_name 900 140 (run_links others_call (own_link ∷ []))
    ≡ ok (record { sharer_display_name = 2 ∷ []; slot_status = slot_active })
access_link_lifetime_example =
    access_link_lifetime walks walks display_name 50 7 2 status_only 900 100 600 140 walk []
      (own_link ∷ []) others_call creates_link (tt, (refl, tt)) walk_found
