-- ===== src/Slots/Promotion/Queue.antt =====
-- The order in which the waitlist is read.
use qweqwe.Base.{ℕ, ◌≡◌, refl, true, false, ◌||◌, List, [], ◌∷◌, arith, ◌==◌, All}
use qweqwe.Slots.Model.{UserRow}
use qweqwe.Slots.Rows.{exists_row}
use qweqwe.Slots.Waitlist.{comes_first, insert_row, queue_order}

exists-insert :
    (u : ℕ) (r : UserRow) (rs : List UserRow)
    → exists_row u (insert_row r rs) ≡ (r.user == u || exists_row u rs)
unfolding exists_row insert_row
exists-insert u r [] = ground arith
exists-insert u r (x ∷ xs) = ground (arith, exists-insert u r xs)

-- Sorting loses no row and makes none up.
pub exists-queue_order :
    (u : ℕ) (rs : List UserRow) → exists_row u (queue_order rs) ≡ exists_row u rs
unfolding exists_row queue_order
exists-queue_order u [] = refl
exists-queue_order u (r ∷ rs) =
    ground (arith, exists-insert u r (queue_order rs), exists-queue_order u rs)

pub comes_first_trans :
    (a b c : UserRow) → comes_first a b ≡ true → comes_first b c ≡ true → comes_first a c ≡ true
unfolding comes_first
comes_first_trans a b c p q = ground arith

comes_first_total : (a b : UserRow) → comes_first a b ≡ false → comes_first b a ≡ true
unfolding comes_first
comes_first_total a b h = ground arith

-- Each entry comes before all later ones.
abbrev pub IsOrdered : List UserRow → Type 0
IsOrdered [] = Unit {0}
IsOrdered (r ∷ rs) = All (λ x. comes_first r x ≡ true) rs × IsOrdered rs

All-comes_first :
    (r x : UserRow) (rs : List UserRow)
    → comes_first r x ≡ true
    → All (λ y. comes_first x y ≡ true) rs
    → All (λ y. comes_first r y ≡ true) rs
All-comes_first r x [] h all = tt
All-comes_first r x (y ∷ ys) h all =
    (comes_first_trans r x y h all.0, All-comes_first r x ys h all.1)

All-insert :
    (a r : UserRow) (rs : List UserRow)
    → comes_first a r ≡ true
    → All (λ y. comes_first a y ≡ true) rs
    → All (λ y. comes_first a y ≡ true) (insert_row r rs)
unfolding insert_row
All-insert a r [] h all = (h, tt)
All-insert a r (x ∷ xs) h all = ground (arith, All-insert a r xs h all.1)

insert-IsOrdered : (r : UserRow) (rs : List UserRow) → IsOrdered rs → IsOrdered (insert_row r rs)
unfolding insert_row
insert-IsOrdered r [] h = (tt, tt)
insert-IsOrdered r (x ∷ xs) h = ground (
  arith,
  All-comes_first r x xs,
  comes_first_total r x,
  All-insert x r xs,
  insert-IsOrdered r xs h.1,
)

-- The queue is read by created_at, ties by user.
pub queue_order-IsOrdered : (rs : List UserRow) → IsOrdered (queue_order rs)
unfolding queue_order
queue_order-IsOrdered [] = tt
queue_order-IsOrdered (r ∷ rs) = insert-IsOrdered r (queue_order rs) (queue_order-IsOrdered rs)
