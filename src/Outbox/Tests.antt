-- ===== src/Outbox/Tests.antt =====
-- Runs of the outbox of one connector, and instances of the theorems.
use qweqwe.Base.{
  ℕ, ◌≡◌, refl, true, false, none, some, [], ◌∷◌, ok, err, receipt_conflict, cursor_out_of_order,
  Text,
}
use qweqwe.Outbox.Store.{
  OutboxEvent, delivered, skipped, Outbox, outcome_eq, advance_cursor, insert_receipt,
  receipt_matches, checkpoint, valid_connector_name, list_after, read_cursor,
}
use qweqwe.Outbox.Complete.{IsComplete, start, write, deliver, Reached-IsComplete}
use qweqwe.Outbox.Retry.{checkpoint_again}
use qweqwe.Outbox.Next.{next-checkpoint}

-- The bytes of "v1".
abbrev connector : Text
connector = 118 ∷ 49 ∷ []

-- A change of a Slot with the payload "{}".
abbrev slot_event : (sequence id : ℕ) → OutboxEvent
slot_event n id = record {
  sequence = n;
  id = id;
  event_type = 115 ∷ [];
  aggregate_type = 115 ∷ [];
  aggregate_id = 55 ∷ [];
  subject_user_id = none;
  slot_id = some 7;
  payload = 123 ∷ 125 ∷ [];
  payload_is_json = true;
  occurred_at = 90;
}

abbrev third : OutboxEvent
third = slot_event 3 30

abbrev seventh : OutboxEvent
seventh = slot_event 7 70

abbrev two_written : Outbox
two_written = record { events = seventh ∷ third ∷ []; cursor = none; receipts = [] }

abbrev one_delivered : Outbox
one_delivered = record {
  events = seventh ∷ third ∷ [];
  cursor = some 3;
  receipts = record { event = 30; outcome = delivered } ∷ [];
}

starts_at_zero : read_cursor connector two_written ≡ ok (0, record two_written { cursor = some 0 })
unfolding read_cursor valid_connector_name
starts_at_zero = refl

lists_in_order : list_after 0 10 two_written ≡ ok (third ∷ seventh ∷ [])
unfolding list_after
lists_in_order = refl

-- The numbers 1, 2, 4, 5 and 6 have no event.
delivers_third : checkpoint connector third delivered two_written ≡ ok one_delivered
unfolding checkpoint advance_cursor insert_receipt receipt_matches valid_connector_name
delivers_third = refl

refuses_seventh : checkpoint connector seventh delivered two_written ≡ err cursor_out_of_order
unfolding checkpoint advance_cursor insert_receipt receipt_matches valid_connector_name
refuses_seventh = refl

-- The event of sequence 2 becomes visible after the third is delivered.
abbrev second : OutboxEvent
second = slot_event 2 20

Reached-IsComplete_example :
    IsComplete (2 ∷ []) (record one_delivered { events = second ∷ seventh ∷ third ∷ [] })
Reached-IsComplete_example =
    Reached-IsComplete (2 ∷ []) (record one_delivered { events = second ∷ seventh ∷ third ∷ [] })
      (write second [] one_delivered
        (deliver connector third delivered [] two_written one_delivered
          (write seventh [] (record { events = third ∷ []; cursor = none; receipts = [] })
            (write third [] (record { events = []; cursor = none; receipts = [] }) start refl) refl)
          delivers_third)
        refl)

checkpoint_again_example :
    (checkpoint connector third delivered one_delivered ≡ ok one_delivered)
    × (outcome_eq delivered skipped ≡ false
        → checkpoint connector third skipped one_delivered ≡ err receipt_conflict)
checkpoint_again_example =
    checkpoint_again connector third delivered skipped two_written one_delivered delivers_third

lists_the_rest : list_after 3 10 one_delivered ≡ ok (seventh ∷ [])
unfolding list_after
lists_the_rest = refl

named : valid_connector_name connector ≡ true
unfolding valid_connector_name
named = refl

next-checkpoint_example :
    checkpoint connector seventh skipped one_delivered
    ≡ ok (record {
      events = seventh ∷ third ∷ [];
      cursor = some 7;
      receipts =
          record { event = 70; outcome = skipped }
          ∷ record { event = 30; outcome = delivered }
          ∷ [];
    })
next-checkpoint_example =
    next-checkpoint connector 10 seventh [] skipped one_delivered named (refl, (refl, tt))
      lists_the_rest refl
