-- ===== src/Slots/Evolution/Defs.antt =====
-- The lifecycle of a Slot, and what one transaction may do to it.
use qweqwe.Base.{ℕ, ◌+◌, ◌≡◌, ◌⊎◌, Bool, true, false, some}
use qweqwe.Slots.Model.{
  Slot, State, draft, published, filling, full, active, completed, cancelled, expired, moderated,
}
use qweqwe.Slots.Tables.{Db, find_slot}

-- DRAFT is published or cancelled; PUBLISHED, FILLING and FULL become one of FILLING and FULL, or
-- are cancelled; FILLING and FULL start; ACTIVE is completed or cancelled; the others are final.
abbrev pub leads : State → State → Bool
leads draft draft = true
leads draft filling = true
leads draft cancelled = true
leads published published = true
leads published filling = true
leads published full = true
leads published cancelled = true
leads filling filling = true
leads filling full = true
leads filling active = true
leads filling cancelled = true
leads full filling = true
leads full full = true
leads full active = true
leads full cancelled = true
leads active active = true
leads active completed = true
leads active cancelled = true
leads completed completed = true
leads cancelled cancelled = true
leads expired expired = true
leads moderated moderated = true
leads _ _ = false

-- One change of a Slot: the next version, the same host, and a step of the lifecycle.
pub record IsNext (s t : Slot) : Type 0 where
  pub version : t.version ≡ s.version + 1
  pub host_id : t.host_id ≡ s.host_id
  pub state : leads s.state t.state ≡ true

abbrev pub Evolves : Slot → Slot → Type 0
Evolves s t = (t ≡ s) ⊎ IsNext s t

-- Every Slot of the first database is in the second, unchanged or changed once.
abbrev pub Tracks : Db → Db → Type 0
Tracks db d =
    (i : ℕ) (s : Slot)
    → find_slot i db.slots ≡ some s
    → (t : Slot) × (find_slot i d.slots ≡ some t) × Evolves s t
