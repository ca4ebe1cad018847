-- ===== src/Slots/Promotion/Fairness.antt =====
-- First come, first served.
use qweqwe.Base.{
  ℕ, ◌≡◌, refl, ◌⊎◌, inl, inr, true, false, some, List, [], ◌∷◌, arith, leb, All, Bool-cases,
}
use qweqwe.Slots.Model.{Slot, UserRow}
use qweqwe.Slots.Rows.{delete_row}
use qweqwe.Slots.Tables.{BlockRow}
use qweqwe.Slots.Waitlist.{
  is_skipped, comes_first, insert_row, promote_loop, promote_oldest, queue_order,
}
use qweqwe.Slots.Promotion.Queue.{IsOrdered, queue_order-IsOrdered}

-- The row is one of the list.
abbrev pub Member : UserRow → List UserRow → Type 0
Member w [] = ⊥
Member w (r ∷ rs) = (r ≡ w) ⊎ Member w rs

Member-insert :
    (w r : UserRow) (rs : List UserRow) → Member w (insert_row r rs) → (r ≡ w) ⊎ Member w rs
unfolding insert_row
Member-insert w r [] m = m
Member-insert w r (x ∷ xs) m = elim (Bool-cases (comes_first r x)) [
  | inl e ↦ rw (e, insert_row) at m
  | inr e ↦
      let m' : (x ≡ w) ⊎ Member w (insert_row r xs) = rw (e, insert_row) at m in
      elim m' [
        | inl here ↦ inr (inl here)
        | inr there ↦ elim (Member-insert w r xs there) [
          | inl first ↦ inl first
          | inr later ↦ inr (inr later)
        ]
      ]
]

Member-queue_order : (w : UserRow) (rs : List UserRow) → Member w (queue_order rs) → Member w rs
unfolding queue_order
Member-queue_order w [] m = m
Member-queue_order w (r ∷ rs) m = elim (Member-insert w r (queue_order rs) m) [
  | inl here ↦ inl here
  | inr there ↦ inr (Member-queue_order w rs there)
]

module _ (P : UserRow → Type 0) where
  All-insert_row : (r : UserRow) (rs : List UserRow) → All P (insert_row r rs) → P r × All P rs
  unfolding insert_row
  All-insert_row r [] all = all
  All-insert_row r (x ∷ xs) all = elim (Bool-cases (comes_first r x)) [
    | inl e ↦ rw (e, insert_row) at all
    | inr e ↦
        let all' : P x × All P (insert_row r xs) = rw (e, insert_row) at all in
        let rest = All-insert_row r xs (all'.1) in (rest.0, (all'.0, rest.1))
  ]

  All-queue_order : (rs : List UserRow) → All P (queue_order rs) → All P rs
  unfolding queue_order
  All-queue_order [] all = tt
  All-queue_order (r ∷ rs) all =
      let split = All-insert_row r (queue_order rs) all in (split.0, All-queue_order rs (split.1))

module _ (ttl now : ℕ) (blocks : List BlockRow) where
  -- `w` may be promoted, and every candidate comes after it or is passed over.
  pub record IsFirst (s : Slot) (cs : List UserRow) (w : UserRow) : Type 0 where
    pub waits : Member w cs
    pub eligible : is_skipped ttl now blocks s w ≡ false
    pub others : All (λ x. (comes_first w x ≡ true) ⊎ (is_skipped ttl now blocks s x ≡ true)) cs

  later_rows :
      (s : Slot) (c : UserRow) (cs : List UserRow)
      → All (λ x. comes_first c x ≡ true) cs
      → All (λ x. (comes_first c x ≡ true) ⊎ (is_skipped ttl now blocks s x ≡ true)) cs
  later_rows s c [] all = tt
  later_rows s c (x ∷ xs) all = (inl (all.0), later_rows s c xs (all.1))

  comes_first_refl : (c : UserRow) → comes_first c c ≡ true
  unfolding comes_first
  comes_first_refl c = ground arith

  promote_loop-IsFirst :
      (cs : List UserRow) (s : Slot) (u : ℕ)
      → IsOrdered cs
      → (promote_loop ttl now blocks cs s).1 ≡ some u
      → (w : UserRow) × (w.user ≡ u) × IsFirst s cs w
  unfolding promote_loop is_skipped
  promote_loop-IsFirst [] s u ordered h = absurd (cc)
  promote_loop-IsFirst (c ∷ cs) s u ordered h = elim (Bool-cases (is_skipped ttl now blocks s c)) [
    | inl skipped ↦
        let h' = rw (skipped, promote_loop) at h in
        let (w, named, first) =
          promote_loop-IsFirst cs (record s { requests = delete_row c.user s.requests }) u
            (ordered.1) h' in
        (
          w,
          named,
          record {
            waits = inr first.waits;
            eligible = first.eligible;
            others = (inr skipped, first.others);
          },
        )
    | inr eligible ↦
        let h' = rw (eligible, promote_loop) at h in
        (
          c,
          cc,
          record {
            waits = inl refl;
            eligible = eligible;
            others = (inl (comes_first_refl c), later_rows s c cs (ordered.0));
          },
        )
  ]

  -- Whom a promotion seats is the first in the queue, by request time and then by user, of those
  -- who may be seated: the request has not expired, the user and the host have not blocked one
  -- another, and the user is not a member. Every other request comes later or fails one of these.
  pub promote_oldest-IsFirst :
      (count capacity : ℕ) (s : Slot) (u : ℕ)
      → (promote_oldest ttl now blocks count capacity s).2 ≡ some u
      → (w : UserRow) × (w.user ≡ u) × IsFirst s s.requests w
  unfolding promote_oldest
  promote_oldest-IsFirst count capacity s u h = elim (Bool-cases (leb capacity count)) [
    | inl full ↦ absurd (ground arith)
    | inr room ↦
        let h' = rw (room, promote_oldest) at h in
        let (w, named, first) =
          promote_loop-IsFirst (queue_order s.requests) s u (queue_order-IsOrdered s.requests) h' in
        (
          w,
          named,
          record {
            waits = Member-queue_order w s.requests first.waits;
            eligible = first.eligible;
            others = All-queue_order _ s.requests first.others;
          },
        )
  ]
