-- ===== src/Chat/Tests.antt =====
-- Runs of the chat on concrete calls, and instances of the theorems.
use qweqwe.Base.{
  ◌≡◌, refl, false, none, some, List, [], ◌∷◌, ok, err, Ensures, text_eq, idempotency_conflict,
  invalid_input,
}
use qweqwe.Slots.Model.{Slot, active, approval, visible_public}
use qweqwe.Slots.Rows.{exists_row}
use qweqwe.Slots.Tables.{Db, find_slot, blocked_pair}
use qweqwe.Slots.System.{empty_db}
use qweqwe.Chat.Store.{
  ChatMessage, authorize_chat, insert_message, send_message, list_recent, new_message,
}
use qweqwe.Chat.Bill.{split_bill, bill_roster, collect, shares_from}
use qweqwe.Chat.Fair.{IsFair, split_bill-IsFair}
use qweqwe.Chat.Sending.{Sends, sends, send_run, send_message_once}
use qweqwe.Chat.Recent.{IsRecent, list_recent-IsRecent}

abbrev evening : Slot
evening = record {
  host_id = 1;
  title = "Board games";
  activity = "games";
  details = none;
  place_text = "Park";
  zone_text = none;
  canonical_place_id = none;
  start_at = none;
  capacity = 4;
  accepted_count = 2;
  state = active;
  access_mode = approval;
  visibility = visible_public;
  selected_user_ids = [];
  lasso_polygon_wkt = none;
  corridor_line_wkt = none;
  corridor_radius_m = none;
  version = 4;
  created_at = 10;
  updated_at = 40;
  cancelled_at = none;
  started_at = some 40;
  completed_at = none;
  requests = [];
  members = record { user = 2; at = 30 } ∷ record { user = 3; at = 31 } ∷ [];
  notices = [];
}

abbrev slots_now : Db
slots_now = record empty_db { slots = (7, evening) ∷ []; clock = 90 }

-- 100 among three: 34, 33 and 33.
splits_hundred :
    split_bill slots_now 2 7 100 []
    ≡ ok (
        record { user = 1; amount = 34 }
        ∷ record { user = 2; amount = 33 }
        ∷ record { user = 3; amount = 33 }
        ∷ [])
unfolding split_bill bill_roster authorize_chat find_slot exists_row blocked_pair collect
    shares_from
splits_hundred = refl

refuses_stranger : split_bill slots_now 2 7 100 (some 2 ∷ some 9 ∷ []) ≡ err invalid_input
unfolding split_bill bill_roster authorize_chat find_slot exists_row blocked_pair collect
    shares_from
refuses_stranger = refl

split_bill-IsFair_example : Ensures (IsFair slots_now 2 7 100) (split_bill slots_now 2 7 100 [])
split_bill-IsFair_example = split_bill-IsFair slots_now 2 7 100 []

abbrev first_message : ChatMessage
first_message = new_message 50 7 2 (4 ∷ []) (72 ∷ []) 90

may_write : authorize_chat slots_now 2 7 ≡ ok tt
unfolding authorize_chat find_slot exists_row blocked_pair
may_write = refl

sends_first :
    send_message slots_now 50 7 2 (4 ∷ []) (72 ∷ []) [] ≡ ok (first_message, first_message ∷ [])
unfolding send_message insert_message authorize_chat find_slot exists_row blocked_pair
sends_first = refl

abbrev others_write : List Sends
others_write = sends slots_now 51 7 3 (5 ∷ []) (73 ∷ []) ∷ []

send_message_once_example :
    (send_message slots_now 60 7 2 (4 ∷ []) (72 ∷ []) (send_run (first_message ∷ []) others_write)
      ≡ ok (first_message, send_run (first_message ∷ []) others_write))
    × (text_eq (72 ∷ []) (74 ∷ []) ≡ false
        → send_message slots_now 60 7 2
            (4 ∷ [])
            (74 ∷ [])
            (send_run (first_message ∷ []) others_write)
          ≡ err idempotency_conflict)
send_message_once_example =
    send_message_once slots_now slots_now 50 60 7 2 (4 ∷ []) (72 ∷ []) (74 ∷ []) []
      (first_message ∷ []) first_message others_write sends_first may_write

list_recent-IsRecent_example :
    Ensures
      (IsRecent slots_now 7 2 10 (first_message ∷ []))
      (list_recent slots_now 7 2 10 (first_message ∷ []))
list_recent-IsRecent_example = list_recent-IsRecent slots_now 7 2 10 (first_message ∷ [])
