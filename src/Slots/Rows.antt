-- ===== src/Slots/Rows.antt =====
-- The SQL statements on slot_requests and slot_memberships, as functions on the rows of one Slot.
use qweqwe.Base.{
  ℕ, ◌+◌, ◌≤◌, ◌≡◌, refl, Bool, true, false, ◌||◌, List, [], ◌∷◌, arith, ◌==◌, if◌then◌else◌,
  length, All,
}
use qweqwe.Slots.Model.{UserRow}

-- EXISTS(SELECT 1 … WHERE user_id=u)
unfoldable pub exists_row : ℕ → List UserRow → Bool
exists_row u [] = false
exists_row u (r ∷ rs) = r.user == u || exists_row u rs

-- DELETE … WHERE user_id=u; `RowsAffected` is positive exactly when `exists_row` holds.
unfoldable pub delete_row : ℕ → List UserRow → List UserRow
delete_row u [] = []
delete_row u (r ∷ rs) = if r.user == u then delete_row u rs else r ∷ delete_row u rs

-- The primary key (slot_id, user_id).
abbrev pub Unique : List UserRow → Type 0
Unique [] = Unit {0}
Unique (r ∷ rs) = (exists_row r.user rs ≡ false) × Unique rs

pub exists-delete :
    (u v : ℕ) (rs : List UserRow)
    → exists_row u (delete_row v rs) ≡ (if u == v then false else exists_row u rs)
unfolding exists_row delete_row
exists-delete u v [] = ground arith
exists-delete u v (r ∷ rs) = ground (arith, exists-delete u v rs)

pub delete-Unique : (u : ℕ) (rs : List UserRow) → Unique rs → Unique (delete_row u rs)
unfolding delete_row
delete-Unique u [] h = tt
delete-Unique u (r ∷ rs) h = ground (arith, delete-Unique u rs h.1, exists-delete r.user u rs)

pub delete_absent : (u : ℕ) (rs : List UserRow) → exists_row u rs ≡ false → delete_row u rs ≡ rs
unfolding exists_row delete_row
delete_absent u [] h = refl
delete_absent u (r ∷ rs) h = ground (arith, delete_absent u rs)

pub length-delete-le : (u : ℕ) (rs : List UserRow) → length (delete_row u rs) ≤ length rs
unfolding delete_row
length-delete-le u [] = omega arith
length-delete-le u (r ∷ rs) = ground (arith, length-delete-le u rs)

-- With the primary key, a row that exists is the only one deleted.
pub length-delete :
    (u : ℕ) (rs : List UserRow)
    → Unique rs
    → exists_row u rs ≡ true
    → length (delete_row u rs) + 1 ≡ length rs
unfolding exists_row delete_row
length-delete u [] h e = ground arith
length-delete u (r ∷ rs) h e =
    ground (arith, length-delete u rs h.1, delete_absent r.user rs h.0, delete_absent u rs)

pub delete-All {κ} :
    (P : UserRow → Type κ) (u : ℕ) (rs : List UserRow) → All P rs → All P (delete_row u rs)
unfolding delete_row
delete-All P u [] h = tt
delete-All P u (r ∷ rs) h = ground (arith, delete-All P u rs h.1)
