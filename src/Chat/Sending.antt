-- ===== src/Chat/Sending.antt =====
-- A message is sent once for each key.
use qweqwe.Base.{
  ℕ, ◌≡◌, refl, ap, ◌∙◌, true, false, ◌||◌, none, some, List, [], ◌∷◌, arith, ltb, any, find, ok,
  err, Result, fail_if, Option-cases, Bool-cases, Result-cases, inl, inr, Ensures, Ensures-from,
  Ensures-ok, Text, text_eq, text_eq_same, text_eq→≡, is_empty, length, idempotency_conflict,
  invalid_input, >>=-eq-ok,
}
use qweqwe.Slots.Tables.{Db}
use qweqwe.Chat.Store.{
  ChatMessage, is_keyed, is_message, new_message, authorize_chat, insert_message, send_message,
  send_checked,
}

-- No row is lost or changed, and none comes before those that there were for its key.
abbrev pub KeepsMessages : List ChatMessage → List ChatMessage → Type 0
KeepsMessages ms ns =
    (slot actor : ℕ) (key : Text) (m : ChatMessage)
    → find (is_keyed slot actor key) ms ≡ some m
    → find (is_keyed slot actor key) ns ≡ some m

-- What a message that is returned is: the row of its key, with the text that was sent.
abbrev IsSent :
    (slot actor : ℕ)
    → (key body : Text) → List ChatMessage
    → ChatMessage × List ChatMessage
    → Type 0
IsSent slot actor key body ms r =
    (find (is_keyed slot actor key) (r.1) ≡ some (r.0))
    × (text_eq (r.0.body) body ≡ true)
    × KeepsMessages ms (r.1)

keyed_apart :
    (slot actor id s a : ℕ) (key k body : Text) (now : ℕ) (m : ChatMessage) (ms : List ChatMessage)
    → find (is_keyed slot actor key) ms ≡ none
    → find (is_keyed s a k) ms ≡ some m
    → is_keyed s a k (new_message id slot actor key body now) ≡ false
keyed_apart slot actor id s a key k body now m ms absent there =
    elim (Bool-cases (is_keyed s a k (new_message id slot actor key body now))) [
      | inr other ↦ other
      | inl same ↦ ground (
        arith,
        absent,
        there,
        ap (λ x. find (is_keyed x actor key) ms) (same_slot same)
            ∙ (ap (λ x. find (is_keyed s x key) ms) (same_actor same)
                ∙ ap (λ x. find (is_keyed s a x) ms) (text_eq→≡ key k (ground (arith, same)))),
      )
    ]
  where
    same_slot : is_keyed s a k (new_message id slot actor key body now) ≡ true → slot ≡ s
    same_slot h = ground arith

    same_actor : is_keyed s a k (new_message id slot actor key body now) ≡ true → actor ≡ a
    same_actor h = ground arith

insert_message-IsSent :
    (id slot actor : ℕ) (key body : Text) (now : ℕ) (ms : List ChatMessage)
    → Ensures
        (λ (r : ChatMessage × List ChatMessage).
          (find (is_keyed slot actor key) (r.1) ≡ some (r.0)) × KeepsMessages ms (r.1))
        (insert_message id slot actor key body now ms)
unfolding insert_message
insert_message-IsSent id slot actor key body now ms =
    elim (Option-cases (find (is_keyed slot actor key) ms)) [
      | inr w ↦ rw (w.1, insert_message) (w.1, λ s a k m h. h)
      | inl absent ↦ elim (Bool-cases (any (is_message id) ms)) [
        | inl taken ↦ rw (absent, taken, insert_message) tt
        | inr fresh ↦
            rw (absent, fresh, insert_message)
              (
                ground (arith, text_eq_same key),
                λ s a k m h.
                    ground (arith, h, keyed_apart slot actor id s a key k body now m ms absent h),
              )
      ]
    ]

pub send_message-IsSent :
    (db : Db) (id slot actor : ℕ) (key body : Text) (ms : List ChatMessage)
    → Ensures (IsSent slot actor key body ms) (send_message db id slot actor key body ms)
unfolding send_message
send_message-IsSent db id slot actor key body ms =
    elim (Result-cases (authorize_chat db actor slot)) [
      | inl refused ↦ rw (refused.1, send_message) tt
      | inr allowed ↦ elim (Result-cases (insert_message id slot actor key body db.clock ms)) [
        | inl failed ↦ rw (allowed.1, failed.1, send_message) tt
        | inr w ↦ elim (Bool-cases (text_eq (w.0.0.body) body)) [
          | inr changed ↦ rw (allowed.1, w.1, changed, send_message) tt
          | inl same ↦
              rw (allowed.1, w.1, same, send_message)
                (let k =
                    Ensures-ok
                      (λ (r : ChatMessage × List ChatMessage).
                        (find (is_keyed slot actor key) (r.1) ≡ some (r.0))
                        × KeepsMessages ms (r.1))
                      (insert_message id slot actor key body db.clock ms) (w.0)
                      (insert_message-IsSent id slot actor key body db.clock ms) (w.1) in
                  (k.0, same, k.1))
        ]
      ]
    ]

-- A later call of `Send` of anybody, for any Slot, at any state of the Slots.
pub data Sends : Type 0 where
  sends : Db → (id slot actor : ℕ) → (key body : Text) → Sends

unfoldable pub send_step : List ChatMessage → Sends → List ChatMessage
send_step ms (sends db id slot actor key body) = elim (send_checked db id slot actor key body ms) [
  | ok r ↦ r.1
  | err e ↦ ms
]

abbrev pub send_run : List ChatMessage → List Sends → List ChatMessage
send_run ms [] = ms
send_run ms (c ∷ cs) = send_run (send_step ms c) cs

send_checked-Keeps :
    (db : Db) (id slot actor : ℕ) (key body : Text) (ms : List ChatMessage)
    → Ensures
        (λ (r : ChatMessage × List ChatMessage). KeepsMessages ms (r.1))
        (send_checked db id slot actor key body ms)
unfolding send_checked
send_checked-Keeps db id slot actor key body ms =
    Ensures-from (λ (r : ChatMessage × List ChatMessage). KeepsMessages ms (r.1))
      (send_checked db id slot actor key body ms)
      (λ x e.
        (Ensures-ok (IsSent slot actor key body ms) (send_message db id slot actor key body ms) x
          (send_message-IsSent db id slot actor key body ms) (passed x e)).2)
  where
    passed :
        (x : ChatMessage × List ChatMessage)
        → send_checked db id slot actor key body ms ≡ ok x
        → send_message db id slot actor key body ms ≡ ok x
    passed x e =
        (>>=-eq-ok
          (fail_if
            (is_empty body || ltb 2000 (length body) || ltb (length key) 16 || ltb 128 (length key))
            invalid_input)
          (λ u. send_message db id slot actor key body ms) e).2

send_step-KeepsMessages : (ms : List ChatMessage) (c : Sends) → KeepsMessages ms (send_step ms c)
unfolding send_step
send_step-KeepsMessages ms (sends db id slot actor key body) =
    settle (send_checked db id slot actor key body ms)
      (send_checked-Keeps db id slot actor key body ms)
  where
    settle :
        (r : Result (ChatMessage × List ChatMessage))
        → Ensures (λ (x : ChatMessage × List ChatMessage). KeepsMessages ms (x.1)) r
        → KeepsMessages ms (elim r [ ok x ↦ x.1 | err e ↦ ms ])
    settle (ok x) h = h
    settle (err e) h = λ s a k m there. there

send_run-KeepsMessages :
    (ms : List ChatMessage) (cs : List Sends) → KeepsMessages ms (send_run ms cs)
send_run-KeepsMessages ms [] s a k m h = h
send_run-KeepsMessages ms (c ∷ cs) s a k m h =
    send_run-KeepsMessages (send_step ms c) cs s a k m (send_step-KeepsMessages ms c s a k m h)

-- After a message was sent with a key, and any further sends, the same author who still may write in the Slot gets by
-- that key: with the same text the message that was sent, and nothing is added; with another text ErrIdempotencyConflict.
pub send_message_once :
    (db then_db : Db) (id again slot actor : ℕ) (key body other : Text) (ms ns : List ChatMessage)
    (m : ChatMessage) (cs : List Sends)
    → send_message db id slot actor key body ms ≡ ok (m, ns)
    → authorize_chat then_db actor slot ≡ ok tt
    → (send_message then_db again slot actor key body (send_run ns cs) ≡ ok (m, send_run ns cs))
      × (text_eq body other ≡ false
          → send_message then_db again slot actor key other (send_run ns cs)
            ≡ err idempotency_conflict)
unfolding send_message insert_message
send_message_once db then_db id again slot actor key body other ms ns m cs e allowed = (
  rw (allowed, there, sent.1, send_message, insert_message) refl,
  λ changed. rw (allowed, there, differs changed, send_message, insert_message) refl,
)
  where
    sent : IsSent slot actor key body ms (m, ns)
    sent =
        Ensures-ok (IsSent slot actor key body ms) (send_message db id slot actor key body ms)
          (m, ns) (send_message-IsSent db id slot actor key body ms) e

    there : find (is_keyed slot actor key) (send_run ns cs) ≡ some m
    there = send_run-KeepsMessages ns cs slot actor key m sent.0

    differs : text_eq body other ≡ false → text_eq m.body other ≡ false
    differs changed = ap (λ t. text_eq t other) (text_eq→≡ m.body body sent.1) ∙ changed
