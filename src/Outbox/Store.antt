-- ===== src/Outbox/Store.antt =====
-- backend/internal/postgres/realtime_outbox_store.go, for one connector: the rows of connector_cursors and of
-- connector_delivery_receipts are those of its name. An id is a number, so it is never empty; `payload_is_json` is what
-- json.Valid says of the payload, and the zero time is 0. A text is the list of its bytes.
use qweqwe.Base.{
  ℕ, Bool, true, false, ◌&&◌, ◌||◌, not, Option, none, some, List, [], ◌∷◌, Result, ok, or_fail,
  fail_if, ◌>>=◌, ◌>>◌, ◌==◌, ltb, leb, if◌then◌else◌, any, find, select, order_by, limit, length,
  Text, is_empty, invalid_input, cursor_out_of_order, receipt_conflict, database_error,
}

-- A row of domain_outbox_events, as `realtime.Event`.
pub record OutboxEvent : Type 0 where
  pub sequence : ℕ
  pub id : ℕ
  pub event_type : Text
  pub aggregate_type : Text
  pub aggregate_id : Text
  pub subject_user_id : Option ℕ
  pub slot_id : Option ℕ
  pub payload : Text
  pub payload_is_json : Bool
  pub occurred_at : ℕ

-- `DeliveryOutcome`
pub data DeliveryOutcome : Type 0 where
  delivered skipped : DeliveryOutcome

abbrev pub outcome_eq : DeliveryOutcome → DeliveryOutcome → Bool
outcome_eq delivered delivered = true
outcome_eq skipped skipped = true
outcome_eq _ _ = false

-- A row of connector_delivery_receipts.
pub record Receipt : Type 0 where
  pub event : ℕ
  pub outcome : DeliveryOutcome

-- `cursor` is last_sequence, none where the connector has no row yet.
pub record Outbox : Type 0 where
  pub events : List OutboxEvent
  pub cursor : Option ℕ
  pub receipts : List Receipt

-- The other characters after the first may be a dot, an underscore or a dash.
abbrev pub is_name_char : ℕ → Bool
is_name_char c = (leb 97 c && leb c 122) || (leb 48 c && leb c 57)

abbrev pub are_name_chars : Text → Bool
are_name_chars [] = true
are_name_chars (c ∷ cs) = (is_name_char c || c == 46 || c == 95 || c == 45) && are_name_chars cs

-- `validConnectorName`
unfoldable pub valid_connector_name : Text → Bool
valid_connector_name [] = false
valid_connector_name (c ∷ cs) =
    not (ltb 64 (length (c ∷ cs))) && (is_name_char c && are_name_chars cs)

abbrev pub last_sequence : Option ℕ → ℕ
last_sequence none = 0
last_sequence (some n) = n

-- `Event.Valid`
abbrev pub is_valid : OutboxEvent → Bool
is_valid e =
    ltb 0 e.sequence
    && not (is_empty e.event_type)
    && not (is_empty e.aggregate_type)
    && not (is_empty e.aggregate_id)
    && ltb 0 e.occurred_at
    && e.payload_is_json

-- `Cursor`
unfoldable pub read_cursor : Text → Outbox → Result (ℕ × Outbox)
read_cursor connector s = do
  fail_if (not (valid_connector_name connector)) invalid_input
  ok (last_sequence s.cursor, record s { cursor = some (last_sequence s.cursor) })

abbrev pub is_after : ℕ → OutboxEvent → Bool
is_after n e = ltb n e.sequence

abbrev pub by_sequence : OutboxEvent → OutboxEvent → Bool
by_sequence d e = leb d.sequence e.sequence

abbrev pub max_batch : ℕ
max_batch = 500

-- `ListAfter`
unfoldable pub list_after : (after n : ℕ) → Outbox → Result (List OutboxEvent)
list_after after n s =
    let found = limit n (order_by by_sequence (select (is_after after) s.events)) in
    fail_if (ltb n 1 || ltb max_batch n) invalid_input
    >> (fail_if (any (λ e. not (is_valid e)) found) database_error >> ok found)

abbrev pub is_sequence : ℕ → OutboxEvent → Bool
is_sequence n e = e.sequence == n

abbrev pub is_receipt_of : ℕ → Receipt → Bool
is_receipt_of id r = r.event == id

-- sequence>$1 AND sequence<$2
abbrev pub is_between : (low high : ℕ) → OutboxEvent → Bool
is_between low high e = ltb low e.sequence && ltb e.sequence high

-- `receiptMatches`
unfoldable pub receipt_matches : (event : ℕ) → DeliveryOutcome → List Receipt → Result (Unit {0})
receipt_matches id o rs = do
  r ← or_fail (find (is_receipt_of id) rs) cursor_out_of_order
  fail_if (not (outcome_eq r.outcome o)) receipt_conflict

-- INSERT … ON CONFLICT DO NOTHING, then the comparison when there was a row.
unfoldable pub insert_receipt : (event : ℕ) → DeliveryOutcome → List Receipt → Result (List Receipt)
insert_receipt id o rs =
    if any (is_receipt_of id) rs
    then receipt_matches id o rs >>= (λ u. ok rs)
    else ok (record { event = id; outcome = o } ∷ rs)

-- Past the cursor: no event between, the row of that sequence is the event, its receipt, the cursor.
unfoldable pub advance_cursor : OutboxEvent → DeliveryOutcome → Outbox → Result Outbox
advance_cursor e o s = do
  fail_if (any (is_between (last_sequence s.cursor) e.sequence) s.events) cursor_out_of_order
  c ← or_fail (find (is_sequence e.sequence) s.events) invalid_input
  fail_if (not (c.id == e.id)) invalid_input
  rs ← insert_receipt e.id o s.receipts
  ok (record s { cursor = some e.sequence; receipts = rs })

-- At the cursor the receipt has to be the same.
abbrev pub repeat_receipt : OutboxEvent → DeliveryOutcome → Outbox → Result Outbox
repeat_receipt e o s =
    receipt_matches e.id o s.receipts
    >>= (λ u. ok (record s { cursor = some (last_sequence s.cursor) }))

-- `Checkpoint`, with the connector's name trimmed
unfoldable pub checkpoint : Text → OutboxEvent → DeliveryOutcome → Outbox → Result Outbox
checkpoint connector e o s = do
  fail_if (not (valid_connector_name connector) || not (is_valid e)) invalid_input
  fail_if (ltb e.sequence (last_sequence s.cursor)) cursor_out_of_order
  if e.sequence == last_sequence s.cursor then repeat_receipt e o s else advance_cursor e o s
