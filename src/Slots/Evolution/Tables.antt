-- ===== src/Slots/Evolution/Tables.antt =====
-- What one transaction does to the other Slots of the table.
use qweqwe.Base.{
  ℕ, ◌≡◌, refl, inl, inr, Bool, true, false, some, List, [], ◌∷◌, arith, ◌==◌, Result, ok, Ensures,
  ◌>>=◌, Option-cases, Bool-cases, if◌then◌else◌, bind-Ensures,
}
use qweqwe.Slots.Model.{Slot}
use qweqwe.Slots.Tables.{Operation, Db, find_slot, put_slot}
use qweqwe.Slots.Idempotency.{Call, claim_idempotency}
use qweqwe.Slots.Transaction.{update_slot, transact}
use qweqwe.Slots.Blocking.{map_slots}
use qweqwe.Slots.Soundness.{SameTables, ClaimKeeps, claim_idempotency-SameTables}
use qweqwe.Slots.Evolution.Defs.{IsNext, Tracks}

pub find-put_same :
    (i : ℕ) (t : Slot) (rows : List (ℕ × Slot)) (s : Slot)
    → find_slot i rows ≡ some s
    → find_slot i (put_slot i t rows) ≡ some t
unfolding find_slot put_slot
find-put_same i t [] s found = absurd (cc)
find-put_same i t ((j, x) ∷ rows) s found = ground (arith, find-put_same i t rows s)

pub find-put_other :
    (i j : ℕ) (t : Slot) (rows : List (ℕ × Slot))
    → (i == j) ≡ false
    → find_slot j (put_slot i t rows) ≡ find_slot j rows
unfolding find_slot put_slot
find-put_other i j t [] other = refl
find-put_other i j t ((k, x) ∷ rows) other = ground (arith, find-put_other i j t rows other)

pub find-map_slots :
    (f : Slot → Slot) (i : ℕ) (rows : List (ℕ × Slot)) (s : Slot)
    → find_slot i rows ≡ some s
    → find_slot i (map_slots f rows) ≡ some (f s)
unfolding find_slot map_slots
find-map_slots f i [] s found = absurd (cc)
find-map_slots f i ((j, x) ∷ rows) s found = ground (arith, find-map_slots f i rows s)

module _ (db : Db) where
  pub same-Tracks : (d : Db) → SameTables db d → Tracks db d
  same-Tracks d same i s found = (s, rw same.slots found, inl refl)

  written-Tracks :
      (i : ℕ) (d : Db) (s t : Slot)
      → SameTables db d
      → find_slot i db.slots ≡ some s
      → IsNext s t
      → Tracks db (record d { slots = put_slot i t d.slots })
  written-Tracks i d s t same found next j u found' = elim (Bool-cases (i == j)) [
    | inl e ↦ (t, ground (arith, same.slots, find-put_same i t db.slots s found), ground arith)
    | inr e ↦ (u, rw (same.slots, find-put_other i j t db.slots e) found', inl refl)
  ]

  pub update_slot-Tracks :
      (i : ℕ) (body : Db → Slot → Result Slot) (d : Db)
      → SameTables db d
      → ((s : Slot) → find_slot i db.slots ≡ some s → Ensures (IsNext s) (body d s))
      → Ensures (Tracks db) (update_slot i body d)
  unfolding update_slot
  update_slot-Tracks i body d same next = elim (Option-cases (find_slot i d.slots)) [
    | inl missing ↦ rw (missing, update_slot) tt
    | inr (s, found) ↦
        let found' : find_slot i db.slots ≡ some s = rw same.slots at found in
        rw (found, update_slot)
          (bind-Ensures (IsNext s) (Tracks db) (body d s)
            (λ t. ok (record d { slots = put_slot i t d.slots })) (next s found')
            (λ t p. written-Tracks i d s t same found' p))
  ]

  pub transact-Tracks :
      (ttl : ℕ) (call : Call) (op : Operation) (i : ℕ) (body : Db → Slot → Result Slot)
      → ((d : Db) (s : Slot)
          → SameTables db d
          → find_slot i db.slots ≡ some s
          → Ensures (IsNext s) (body d s))
      → Ensures (λ (r : ℕ × Db). Tracks db r.1) (transact ttl call op i body db)
  unfolding transact
  transact-Tracks ttl call op i body next =
      bind-Ensures (ClaimKeeps db) (λ (r : ℕ × Db). Tracks db r.1)
        (claim_idempotency ttl db call op i) _ (claim_idempotency-SameTables ttl db call op i)
        λ r same. claimed r.0 r.1 r.2 same
    where
      claimed :
          (replay : Bool) (resource : ℕ) (d : Db)
          → SameTables db d
          → Ensures
              (λ (r : ℕ × Db). Tracks db r.1)
              (if replay
                then ok (resource, d)
                else (update_slot i body d >>= λ committed. ok (i, committed)))
      claimed true resource d same = same-Tracks d same
      claimed false resource d same =
          bind-Ensures (Tracks db) (λ (r : ℕ × Db). Tracks db r.1) (update_slot i body d)
            (λ committed. ok (i, committed)) (update_slot-Tracks i body d same (λ s. next d s same))
            (λ committed p. p)
