-- ===== src/Slots/Transaction.antt =====
-- What every mutation of the Slot stores has in common: the idempotency claim, the early answer to a
-- replay, the locked Slot row, and the commit. An error rolls the transaction back: the caller
-- keeps the database that it had. The row lock serialises the transactions on one Slot, so a
-- transaction is one step.
use qweqwe.Base.{ℕ, Result, ok, or_fail, ◌>>=◌, not_found, if◌then◌else◌}
use qweqwe.Slots.Model.{Slot}
use qweqwe.Slots.Tables.{Operation, Db, find_slot, put_slot}
use qweqwe.Slots.Idempotency.{Call, claim_idempotency}

-- SELECT … FOR UPDATE on the Slot, the checks and writes of one operation, COMMIT.
unfoldable pub update_slot : ℕ → (Db → Slot → Result Slot) → Db → Result Db
update_slot i body db = do
  s ← or_fail (find_slot i db.slots) not_found
  t ← body db s
  ok (record db { slots = put_slot i t db.slots })

-- The number is the resource that the answer is read from.
unfoldable pub transact :
    ℕ → Call → Operation → ℕ → (Db → Slot → Result Slot) → Db → Result (ℕ × Db)
transact ttl call op i body db = do
  (replay, resource, claimed) ← claim_idempotency ttl db call op i
  if replay
      then ok (resource, claimed)
      else (do committed ← update_slot i body claimed; ok (i, committed))
