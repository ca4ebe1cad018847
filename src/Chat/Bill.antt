-- ===== src/Chat/Bill.antt =====
-- `SplitBill` of backend/internal/chat/service.go and `SplitBillRoster` of backend/internal/postgres/chat_store.go. An
-- id is a number, none when it is empty after TrimSpace; numbers are ordered as the texts of the ids.
use qweqwe.Base.{
  ℕ, ◌+◌, ◌/◌, ◌%◌, Bool, ◌||◌, not, Option, none, some, List, [], ◌∷◌, Result, ok, err, or_fail,
  fail_if, ◌>>=◌, ◌>>◌, ◌==◌, ltb, leb, if◌then◌else◌, any, select, map, order_by, length,
  not_found, invalid_input,
}
use qweqwe.Slots.Model.{Slot}
use qweqwe.Slots.Tables.{Db, find_slot, blocked_pair}
use qweqwe.Chat.Store.{authorize_chat}

pub record Share : Type 0 where
  pub user : ℕ
  pub amount : ℕ

abbrev pub max_bill_total : ℕ
max_bill_total = 100000000

abbrev pub is_user : ℕ → ℕ → Bool
is_user u v = v == u

-- The host and the members, each once.
abbrev pub present : Slot → List ℕ
present s =
    let members = map (λ r. r.user) s.members in
    if any (is_user s.host_id) members then members else s.host_id ∷ members

-- `SplitBillRoster`
unfoldable pub bill_roster : Db → (actor slot : ℕ) → Result (List ℕ)
bill_roster db actor slot = do
  authorize_chat db actor slot
  s ← or_fail (find_slot slot db.slots) not_found
  ok (order_by leb (select (λ u. not (blocked_pair actor u db.blocks)) (present s)))

-- The loop over the ids: each on the roster, and taken once.
unfoldable pub collect : (roster : List ℕ) → List (Option ℕ) → (taken : List ℕ) → Result (List ℕ)
collect roster [] taken = ok taken
collect roster (none ∷ ids) taken = err invalid_input
collect roster (some u ∷ ids) taken =
    fail_if (not (any (is_user u) roster)) invalid_input
    >> collect roster ids (if any (is_user u) taken then taken else u ∷ taken)

-- The loop over the participants, from the index i on.
unfoldable pub shares_from : (base remainder i : ℕ) → List ℕ → List Share
shares_from base remainder i [] = []
shares_from base remainder i (u ∷ us) =
    record { user = u; amount = if ltb i remainder then base + 1 else base }
    ∷ shares_from base remainder (i + 1) us

abbrev pub or_all : List ℕ → List (Option ℕ) → List (Option ℕ)
or_all roster [] = map some roster
or_all roster (i ∷ ids) = i ∷ ids

-- `SplitBill`
unfoldable pub split_bill : Db → (actor slot total : ℕ) → List (Option ℕ) → Result (List Share)
split_bill db actor slot total ids = do
  fail_if (total == 0 || ltb max_bill_total total) invalid_input
  roster ← bill_roster db actor slot
  taken ← collect roster (or_all roster ids) []
  fail_if (ltb (length taken) 2) invalid_input
  ok (shares_from (total / length taken) (total % length taken) 0 (order_by leb taken))
