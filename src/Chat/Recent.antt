-- ===== src/Chat/Recent.antt =====
-- What `ListRecent` shows.
use qweqwe.Base.{
  ℕ, ◌+◌, ◌≡◌, if◌then◌else◌, skip, count_limit_skip, length-limit_least, limit_before_skip, ap,
  ◌∙◌, Bool, true, false, ◌||◌, List, [], ◌∷◌, arith, ltb, select, count, order_by, limit, length,
  All, Ordered, Bool-cases, Result-cases, inl, inr, Ensures, count-order, length-order, All-order,
  All-limit, order-Ordered,
}
use qweqwe.Slots.Tables.{Db}
use qweqwe.Chat.Store.{
  ChatMessage, is_visible, oldest_first, newest_first, authorize_chat, list_recent,
}

All-select : (p : ChatMessage → Bool) (ms : List ChatMessage) → All (λ m. p m ≡ true) (select p ms)
All-select p [] = tt
All-select p (m ∷ ms) = ground (arith, All-select p ms)

oldest_total : (m n : ChatMessage) → oldest_first m n ≡ false → oldest_first n m ≡ true
oldest_total m n h = ground arith

newest_trans :
    (q m n : ChatMessage)
    → newest_first q m ≡ true
    → newest_first m n ≡ true
    → newest_first q n ≡ true
newest_trans q m n h k = ground (arith, h, k)

newest_total : (m n : ChatMessage) → newest_first m n ≡ false → newest_first n m ≡ true
newest_total m n h = ground arith

-- What the user may see.
abbrev seen_by : Db → (slot actor : ℕ) → List ChatMessage → List ChatMessage
seen_by db slot actor ms = select (is_visible db slot actor) ms

-- `shown` is the last n of what may be shown, in order: as many as there are, n at most, and each of them not older than
-- any of the rest.
abbrev pub IsRecent : Db → (slot actor n : ℕ) → List ChatMessage → List ChatMessage → Type 0
IsRecent db slot actor n ms shown =
    (length shown ≡ (
      if ltb n (length (seen_by db slot actor ms)) then n else length (seen_by db slot actor ms)))
    × All (λ m. is_visible db slot actor m ≡ true) shown
    × Ordered oldest_first shown
    × (rest : List ChatMessage) × ((p : ChatMessage → Bool)
        → count p shown + count p rest ≡ count p (seen_by db slot actor ms))
    × All (λ r. All (λ m. oldest_first r m ≡ true) shown) rest

-- The messages that are left out are older.
older :
    (kept rest : List ChatMessage)
    → All (λ r. All (λ m. newest_first m r ≡ true) kept) rest
    → All (λ r. All (λ m. oldest_first r m ≡ true) (order_by oldest_first kept)) rest
older kept [] all = tt
older kept (r ∷ rs) all =
    (All-order (λ m. oldest_first r m ≡ true) oldest_first kept all.0, older kept rs all.1)

shown-IsRecent :
    (db : Db) (slot actor n : ℕ) (ms : List ChatMessage)
    → IsRecent db slot actor n ms
        (order_by oldest_first (limit n (order_by newest_first (seen_by db slot actor ms))))
shown-IsRecent db slot actor n ms = (
  length-order oldest_first (limit n newest)
      ∙ (length-limit_least n newest
          ∙ ap (λ k. if ltb n k then n else k)
              (length-order newest_first (seen_by db slot actor ms))),
  All-order (λ m. is_visible db slot actor m ≡ true) oldest_first (limit n newest)
      (All-limit (λ m. is_visible db slot actor m ≡ true) n newest
        (All-order (λ m. is_visible db slot actor m ≡ true) newest_first (seen_by db slot actor ms)
          (All-select (is_visible db slot actor) ms))),
  order-Ordered oldest_first oldest_total (limit n newest),
  skip n newest,
  λ p.
      ap (λ k. k + count p (skip n newest)) (count-order p oldest_first (limit n newest))
      ∙ (count_limit_skip p n newest ∙ count-order p newest_first (seen_by db slot actor ms)),
  older (limit n newest) (skip n newest) (
      limit_before_skip newest_first newest_trans n newest
        (order-Ordered newest_first newest_total (seen_by db slot actor ms))),
)
  where
    newest : List ChatMessage
    newest = order_by newest_first (seen_by db slot actor ms)

-- The messages that a user is shown are all of that Slot, none of an author whom a block separates from the user, from
-- the oldest to the newest; of the messages that may be shown they are the newest ones, as many as were asked for or
-- all of them, and each that is left out is older.
pub list_recent-IsRecent :
    (db : Db) (slot actor n : ℕ) (ms : List ChatMessage)
    → Ensures (IsRecent db slot actor n ms) (list_recent db slot actor n ms)
unfolding list_recent
list_recent-IsRecent db slot actor n ms = elim (Bool-cases (ltb n 1 || ltb 100 n)) [
  | inl out ↦ rw (out, list_recent) tt
  | inr inside ↦ elim (Result-cases (authorize_chat db actor slot)) [
    | inl refused ↦ rw (inside, refused.1, list_recent) tt
    | inr allowed ↦ rw (inside, allowed.1, list_recent) (shown-IsRecent db slot actor n ms)
  ]
]
