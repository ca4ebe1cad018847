-- ===== src/Chat/Store.antt =====
-- backend/internal/postgres/chat_store.go, over the Slots and blocks of Slots.Tables, and the checks of `Send` and
-- `ListRecent` in backend/internal/chat/service.go. A text is the list of its runes, so that it is valid UTF-8, and a key
-- the list of its bytes, both trimmed.
use qweqwe.Base.{
  ℕ, Bool, true, false, ◌&&◌, ◌||◌, not, none, some, List, ◌∷◌, Result, ok, or_fail, fail_if, ◌>>=◌,
  ◌>>◌, ◌==◌, ltb, leb, any, find, select, order_by, limit, length, Text, text_eq, is_empty,
  not_found, chat_closed, forbidden, database_error, idempotency_conflict, invalid_input,
}
use qweqwe.Slots.Model.{State, filling, full, active}
use qweqwe.Slots.Rows.{exists_row}
use qweqwe.Slots.Tables.{Db, find_slot, blocked_pair}

-- Who a message is from: a user, with the idempotency key, or the server.
pub data Sender : Type 0 where
  by_user : (author : ℕ) (key : Text) → Sender
  by_server : Sender

-- A row of slot_messages.
pub record ChatMessage : Type 0 where
  pub id : ℕ
  pub slot : ℕ
  pub sender : Sender
  pub body : Text
  pub created_at : ℕ

abbrev pub is_open : State → Bool
is_open filling = true
is_open full = true
is_open active = true
is_open _ = false

-- `authorizeChatTx`
unfoldable pub authorize_chat : Db → (actor slot : ℕ) → Result (Unit {0})
authorize_chat db actor slot = do
  s ← or_fail (find_slot slot db.slots) not_found
  fail_if (not (is_open s.state)) chat_closed
  fail_if
      (not (s.host_id == actor)
        && (not (exists_row actor s.members) || blocked_pair actor s.host_id db.blocks))
      forbidden

abbrev pub is_sent : (actor : ℕ) → Text → Sender → Bool
is_sent actor key (by_user a k) = a == actor && text_eq k key
is_sent actor key by_server = false

-- The unique key (slot_id, author_id, idempotency_key).
abbrev pub is_keyed : (slot actor : ℕ) → Text → ChatMessage → Bool
is_keyed slot actor key m = m.slot == slot && is_sent actor key m.sender

abbrev pub is_message : ℕ → ChatMessage → Bool
is_message id m = m.id == id

abbrev pub new_message : (id slot actor : ℕ) → (key body : Text) → (now : ℕ) → ChatMessage
new_message id slot actor key body now = record {
  id = id;
  slot = slot;
  sender = by_user actor key;
  body = body;
  created_at = now;
}

-- INSERT … ON CONFLICT DO NOTHING RETURNING, then the SELECT of the row that was there.
unfoldable pub insert_message :
    (id slot actor : ℕ)
    → (key body : Text) → (now : ℕ) → List ChatMessage
    → Result (ChatMessage × List ChatMessage)
insert_message id slot actor key body now ms = elim (find (is_keyed slot actor key) ms) [
  | some m ↦ ok (m, ms)
  | none ↦
      (fail_if (any (is_message id) ms) database_error
        >> ok (new_message id slot actor key body now, new_message id slot actor key body now ∷ ms))
]

-- `Send` of the store
unfoldable pub send_message :
    Db
    → (id slot actor : ℕ) → (key body : Text) → List ChatMessage
    → Result (ChatMessage × List ChatMessage)
send_message db id slot actor key body ms = do
  authorize_chat db actor slot
  r ← insert_message id slot actor key body db.clock ms
  fail_if (not (text_eq (r.0.body) body)) idempotency_conflict
  ok r

-- `Send` of the service: lengths of the text and of the key
unfoldable pub send_checked :
    Db
    → (id slot actor : ℕ) → (key body : Text) → List ChatMessage
    → Result (ChatMessage × List ChatMessage)
send_checked db id slot actor key body ms =
    fail_if (is_empty body || ltb 2000 (length body) || ltb (length key) 16 || ltb 128 (length key))
      invalid_input
    >> send_message db id slot actor key body ms

-- NOT EXISTS(SELECT 1 FROM user_blocks …), true for a message of the server
abbrev pub is_shown : Db → (actor : ℕ) → Sender → Bool
is_shown db actor (by_user a k) = not (blocked_pair actor a db.blocks)
is_shown db actor by_server = true

abbrev pub is_visible : Db → (slot actor : ℕ) → ChatMessage → Bool
is_visible db slot actor m = m.slot == slot && is_shown db actor m.sender

-- ORDER BY created_at, id, descending and ascending
abbrev pub oldest_first : ChatMessage → ChatMessage → Bool
oldest_first m n = ltb m.created_at n.created_at || (m.created_at == n.created_at && leb m.id n.id)

abbrev pub newest_first : ChatMessage → ChatMessage → Bool
newest_first m n = oldest_first n m

-- `ListRecent`, with the check of the service
unfoldable pub list_recent : Db → (slot actor n : ℕ) → List ChatMessage → Result (List ChatMessage)
list_recent db slot actor n ms = do
  fail_if (ltb n 1 || ltb 100 n) invalid_input
  authorize_chat db actor slot
  ok (
      order_by oldest_first
        (limit n (order_by newest_first (select (is_visible db slot actor) ms))))
