-- ===== src/Slots/Soundness/Tables.antt =====
-- Soundness of the whole table, through the statements that read and write it.
use qweqwe.Base.{
  ℕ, ◌≡◌, inl, inr, Bool, true, false, some, List, [], ◌∷◌, arith, Result, ok, Ensures, ◌>>=◌, All,
  Option-cases, if◌then◌else◌, bind-Ensures,
}
use qweqwe.Slots.Model.{Slot}
use qweqwe.Slots.Tables.{Operation, Db, find_slot, put_slot}
use qweqwe.Slots.Idempotency.{Call, claim_idempotency, check_replay, authorize_replay}
use qweqwe.Slots.Transaction.{update_slot, transact}
use qweqwe.Slots.Invariant.{IsSound}

-- Every Slot of the database is sound.
abbrev pub AllSound : Db → Type 0
AllSound db = All (λ e. IsSound db.blocks e.1) db.slots

-- The database that a call hands back beside its result is sound.
abbrev pub LeavesSound : {A : Type 0} → A × Db → Type 0
LeavesSound r = AllSound r.1

module _ (P : Slot → Type 0) where
  pub find_slot-All :
      (i : ℕ) (rows : List (ℕ × Slot)) (s : Slot)
      → All (λ e. P e.1) rows
      → find_slot i rows ≡ some s
      → P s
  unfolding find_slot
  find_slot-All i [] s all e = absurd (cc)
  find_slot-All i ((j, x) ∷ rows) s all e = ground (arith, find_slot-All i rows s all.1)

  pub put_slot-All :
      (i : ℕ) (t : Slot) (rows : List (ℕ × Slot))
      → All (λ e. P e.1) rows
      → P t
      → All (λ e. P e.1) (put_slot i t rows)
  unfolding put_slot
  put_slot-All i t [] all p = tt
  put_slot-All i t ((j, x) ∷ rows) all p = ground (arith, put_slot-All i t rows all.1 p)

-- A claim writes no other table.
pub record SameTables (db d : Db) : Type 0 where
  pub slots : d.slots ≡ db.slots
  pub blocks : d.blocks ≡ db.blocks

abbrev pub ClaimKeeps : Db → Bool × ℕ × Db → Type 0
ClaimKeeps db r = SameTables db r.2

pub claim_idempotency-SameTables :
    (ttl : ℕ) (db : Db) (call : Call) (op : Operation) (i : ℕ)
    → Ensures (ClaimKeeps db) (claim_idempotency ttl db call op i)
unfolding claim_idempotency check_replay authorize_replay
claim_idempotency-SameTables ttl db call op i = ground arith

module _ (db : Db) (sound : AllSound db) where
  written-AllSound :
      (i : ℕ) (d : Db) (t : Slot)
      → SameTables db d
      → IsSound db.blocks t
      → AllSound (record d { slots = put_slot i t d.slots })
  written-AllSound i d t same p =
      rw (same.blocks, same.slots) (put_slot-All (IsSound db.blocks) i t db.slots sound p)

  -- A body that keeps its Slot sound keeps the table sound.
  pub update_slot-AllSound :
      (i : ℕ) (body : Db → Slot → Result Slot) (d : Db)
      → SameTables db d
      → ((s : Slot)
          → find_slot i db.slots ≡ some s
          → IsSound db.blocks s
          → Ensures (IsSound db.blocks) (body d s))
      → Ensures AllSound (update_slot i body d)
  unfolding update_slot
  update_slot-AllSound i body d same keeps = elim (Option-cases (find_slot i d.slots)) [
    | inl missing ↦ rw (missing, update_slot) tt
    | inr (s, found) ↦
        let found' : find_slot i db.slots ≡ some s = rw same.slots at found in
        rw (found, update_slot)
          (bind-Ensures (IsSound db.blocks) AllSound (body d s)
            (λ t. ok (record d { slots = put_slot i t d.slots }))
            (keeps s found' (find_slot-All (IsSound db.blocks) i db.slots s sound found'))
            (λ t p. written-AllSound i d t same p))
  ]

  pub same-AllSound : (d : Db) → SameTables db d → AllSound d
  same-AllSound d same = rw (same.blocks, same.slots) sound

  pub transact-AllSound :
      (ttl : ℕ) (call : Call) (op : Operation) (i : ℕ) (body : Db → Slot → Result Slot)
      → ((d : Db) (s : Slot)
          → SameTables db d
          → find_slot i db.slots ≡ some s
          → IsSound db.blocks s
          → Ensures (IsSound db.blocks) (body d s))
      → Ensures LeavesSound (transact ttl call op i body db)
  unfolding transact
  transact-AllSound ttl call op i body keeps =
      bind-Ensures (ClaimKeeps db) LeavesSound (claim_idempotency ttl db call op i) _
        (claim_idempotency-SameTables ttl db call op i) λ r same. claimed r.0 r.1 r.2 same
    where
      claimed :
          (replay : Bool) (resource : ℕ) (d : Db)
          → SameTables db d
          → Ensures LeavesSound (
              if replay
              then ok (resource, d)
              else (update_slot i body d >>= λ committed. ok (i, committed)))
      claimed true resource d same = same-AllSound d same
      claimed false resource d same =
          bind-Ensures AllSound LeavesSound (update_slot i body d) (λ committed. ok (i, committed))
            (update_slot-AllSound i body d same (λ s. keeps d s same)) (λ committed p. p)
