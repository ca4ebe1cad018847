-- ===== src/Bump/Tests.antt =====
-- Two participants of a meeting confirm one another.
use qweqwe.Base.{◌≡◌, refl, true, false, none, some, List, [], ◌∷◌, ok}
use qweqwe.Slots.Model.{Slot, active, approval, visible_public}
use qweqwe.Slots.Rows.{exists_row}
use qweqwe.Slots.Tables.{Db, find_slot, blocked_pair}
use qweqwe.Slots.System.{empty_db}
use qweqwe.Bump.Store.{
  BumpDb, compute_band, building, is_eligible, find_challenge, consume, submitted, submit,
  confirmed, credit, record_claim, confirm, issue_challenge, verified_count, band_of, BumpEvent,
  issues, confirms, bump_step, bump_run, empty_bumps,
}
use qweqwe.Bump.Mutual.{IsEarned, bump_reachable-IsEarned}
use qweqwe.Bump.Nonce.{nonce_used_once}

abbrev meeting : Slot
meeting = record {
  host_id = 1;
  title = "Evening run";
  activity = "run";
  details = none;
  place_text = "Park";
  zone_text = none;
  canonical_place_id = none;
  start_at = none;
  capacity = 2;
  accepted_count = 1;
  state = active;
  access_mode = approval;
  visibility = visible_public;
  selected_user_ids = [];
  lasso_polygon_wkt = none;
  corridor_line_wkt = none;
  corridor_radius_m = none;
  version = 4;
  created_at = 10;
  updated_at = 40;
  cancelled_at = none;
  started_at = some 40;
  completed_at = none;
  requests = [];
  members = record { user = 2; at = 30 } ∷ [];
  notices = [];
}

abbrev slots_then : Db
slots_then = record empty_db { slots = (7, meeting) ∷ [] }

abbrev met : List BumpEvent
met =
    issues slots_then 60 50 1 7 101
    ∷ issues slots_then 60 51 2 7 102
    ∷ confirms slots_then 55 1 7 2 101
    ∷ confirms slots_then 56 2 7 1 102
    ∷ []

meeting_counts :
    (verified_count 1 (bump_run empty_bumps met).standings ≡ 1)
    × (band_of 2 (bump_run empty_bumps met).standings ≡ building)
unfolding bump_run bump_step issue_challenge confirm is_eligible find_slot exists_row find_challenge
    consume submitted submit confirmed credit record_claim blocked_pair verified_count band_of
    compute_band
meeting_counts = (refl, refl)

bump_reachable-IsEarned_example : IsEarned (bump_run empty_bumps met)
bump_reachable-IsEarned_example = bump_reachable-IsEarned met

abbrev issued : BumpDb
issued = record empty_bumps {
  challenges =
      record { nonce = 101; slot = 7; user = 1; expires_at = 110; consumed_at = none } ∷ [];
}

abbrev claimed : BumpDb
claimed = record empty_bumps {
  challenges =
      record { nonce = 101; slot = 7; user = 1; expires_at = 110; consumed_at = some 55 } ∷ [];
  submissions = record { slot = 7; submitter = 1; counterpart = 2 } ∷ [];
}

confirm_claims : confirm slots_then 55 1 7 2 101 issued ≡ ok (false, claimed)
unfolding confirm is_eligible find_slot exists_row find_challenge consume submitted submit
    record_claim blocked_pair
confirm_claims = refl

nonce_used_once_example :
    ¬ (confirm slots_then 57 1 7 2 101 (bump_run claimed met) ≡ ok (true, claimed))
nonce_used_once_example =
    nonce_used_once slots_then slots_then 55 1 7 2 101 57 1 7 2 issued claimed false met
      (true, claimed) confirm_claims
