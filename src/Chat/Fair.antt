-- ===== src/Chat/Fair.antt =====
-- A bill is split fairly.
use qweqwe.Base.{
  ℕ, ◌+◌, ◌-◌, ◌*◌, ◌/◌, ◌%◌, ◌≤◌, ◌≡◌, refl, ap, ◌∙◌, true, false, ◌||◌, Option, none, some, List,
  [], ◌∷◌, arith, ◌==◌, ltb, leb, any, order_by, length, All, ok, Ensures, inl, inr, ◌⊎◌,
  length-order, All-order, insert_by, Bool-cases, Result-cases, Ensures-ok,
}
use native.Mathlib.Nat.{div-add-mod', mod-lt}
use qweqwe.Slots.Tables.{Db}
use qweqwe.Chat.Bill.{
  Share, is_user, bill_roster, collect, shares_from, or_all, split_bill, max_bill_total,
}

abbrev pub sum : List Share → ℕ
sum [] = 0
sum (s ∷ ss) = s.amount + sum ss

abbrev pub users_of : List Share → List ℕ
users_of [] = []
users_of (s ∷ ss) = s.user ∷ users_of ss

abbrev pub Distinct : List ℕ → Type 0
Distinct [] = Unit {0}
Distinct (u ∷ us) = (any (is_user u) us ≡ false) × Distinct us

-- Each pays the base share or one unit more, in the order of the ids, the higher shares first.
abbrev pub IsShare : ℕ → Share → Type 0
IsShare base s = (s.amount ≡ base) ⊎ (s.amount ≡ base + 1)

abbrev pub OnRoster : List ℕ → ℕ → Type 0
OnRoster roster u = any (is_user u) roster ≡ true

sum-shares :
    (base remainder i : ℕ) (us : List ℕ)
    → remainder ≤ i + length us
    → sum (shares_from base remainder i us) ≡ base * length us + (remainder - i)
unfolding shares_from
sum-shares base remainder i [] h = ground arith
sum-shares base remainder i (u ∷ us) h = ground (arith, sum-shares base remainder (i + 1) us)

users-shares :
    (base remainder i : ℕ) (us : List ℕ) → users_of (shares_from base remainder i us) ≡ us
unfolding shares_from
users-shares base remainder i [] = refl
users-shares base remainder i (u ∷ us) = ground (arith, users-shares base remainder (i + 1) us)

All-IsShare :
    (base remainder i : ℕ) (us : List ℕ) → All (IsShare base) (shares_from base remainder i us)
unfolding shares_from
All-IsShare base remainder i [] = tt
All-IsShare base remainder i (u ∷ us) = (ground arith, All-IsShare base remainder (i + 1) us)

any-insert :
    (v u : ℕ) (us : List ℕ) → any (is_user v) (insert_by leb u us) ≡ (u == v || any (is_user v) us)
any-insert v u [] = ground arith
any-insert v u (w ∷ us) = ground (arith, any-insert v u us)

any-order : (v : ℕ) (us : List ℕ) → any (is_user v) (order_by leb us) ≡ any (is_user v) us
any-order v [] = refl
any-order v (u ∷ us) = ground (arith, any-insert v u (order_by leb us), any-order v us)

insert-Distinct :
    (u : ℕ) (us : List ℕ) → any (is_user u) us ≡ false → Distinct us → Distinct (insert_by leb u us)
insert-Distinct u [] h d = (refl, tt)
insert-Distinct u (w ∷ us) h d = ground (arith, any-insert w u us, insert-Distinct u us)

order-Distinct : (us : List ℕ) → Distinct us → Distinct (order_by leb us)
order-Distinct [] d = tt
order-Distinct (u ∷ us) d =
    insert-Distinct u (order_by leb us) (any-order u us ∙ d.0) (order-Distinct us d.1)

-- What the loop over the ids takes.
collect-Ensures :
    (roster : List ℕ) (ids : List (Option ℕ)) (taken : List ℕ)
    → Distinct taken
    → All (OnRoster roster) taken
    → Ensures (λ us. Distinct us × All (OnRoster roster) us) (collect roster ids taken)
unfolding collect
collect-Ensures roster [] taken d all = (d, all)
collect-Ensures roster (none ∷ ids) taken d all = tt
collect-Ensures roster (some u ∷ ids) taken d all = elim (Bool-cases (any (is_user u) roster)) [
  | inr stranger ↦ rw (stranger) tt
  | inl here ↦ elim (Bool-cases (any (is_user u) taken)) [
    | inl again ↦ rw (here, again) (collect-Ensures roster ids taken d all)
    | inr first ↦ rw (here, first) (collect-Ensures roster ids (u ∷ taken) (first, d) (here, all))
  ]
]

length-shares :
    (base remainder i : ℕ) (us : List ℕ) → length (shares_from base remainder i us) ≡ length us
unfolding shares_from
length-shares base remainder i [] = refl
length-shares base remainder i (u ∷ us) = ground (arith, length-shares base remainder (i + 1) us)

abbrev pub IsFair : Db → (actor slot total : ℕ) → List Share → Type 0
IsFair db actor slot total shares =
    (sum shares ≡ total)
    × All (IsShare (total / length shares)) shares
    × (2 ≤ length shares)
    × Distinct (users_of shares)
    × ((roster : List ℕ) × (bill_roster db actor slot ≡ ok roster)
        × All (OnRoster roster) (users_of shares))

shares-IsFair :
    (db : Db) (actor slot total : ℕ) (roster taken : List ℕ)
    → bill_roster db actor slot ≡ ok roster
    → Distinct taken
    → All (OnRoster roster) taken
    → ltb (length taken) 2 ≡ false
    → IsFair db actor slot total
        (shares_from (total / length taken) (total % length taken) 0 (order_by leb taken))
shares-IsFair db actor slot total roster taken e d all enough =
    let n = length taken in
    (
      sum-shares (total / n) (total % n) 0 (order_by leb taken)
            (omega (arith, length-order leb taken, mod-lt total {m = n} (ground (arith, enough))))
          ∙ (ap (λ k. total / n * k + (total % n - 0)) (length-order leb taken)
              ∙ omega (arith, div-add-mod' total n)),
      rw (length-shares (total / n) (total % n) 0 (order_by leb taken), length-order leb taken)
          (All-IsShare (total / n) (total % n) 0 (order_by leb taken)),
      ground (
        arith,
        length-shares (total / n) (total % n) 0 (order_by leb taken),
        length-order leb taken,
      ),
      rw (users-shares (total / n) (total % n) 0 (order_by leb taken)) (order-Distinct taken d),
      (
        roster,
        e,
        rw (users-shares (total / n) (total % n) 0 (order_by leb taken))
            (All-order (OnRoster roster) leb taken all),
      ),
    )

-- A bill that is split is split fairly: the shares sum to the total; each is the quotient of the total by their number,
-- or one unit more; at least two users share, none twice, and all on the roster of the Slot at that moment.
pub split_bill-IsFair :
    (db : Db) (actor slot total : ℕ) (ids : List (Option ℕ))
    → Ensures (IsFair db actor slot total) (split_bill db actor slot total ids)
unfolding split_bill
split_bill-IsFair db actor slot total ids =
    elim (Bool-cases (total == 0 || ltb max_bill_total total)) [
      | inl out ↦ rw (out, split_bill) tt
      | inr inside ↦ elim (Result-cases (bill_roster db actor slot)) [
        | inl refused ↦ rw (inside, refused.1, split_bill) tt
        | inr w ↦ elim (Result-cases (collect (w.0) (or_all (w.0) ids) [])) [
          | inl stranger ↦ rw (inside, w.1, stranger.1, split_bill) tt
          | inr t ↦ elim (Bool-cases (ltb (length (t.0)) 2)) [
            | inl few ↦ rw (inside, w.1, t.1, few, split_bill) tt
            | inr enough ↦
                rw (inside, w.1, t.1, enough, split_bill)
                  (let k =
                      Ensures-ok (λ us. Distinct us × All (OnRoster (w.0)) us)
                        (collect (w.0) (or_all (w.0) ids) []) (t.0)
                        (collect-Ensures (w.0) (or_all (w.0) ids) [] tt tt) (t.1) in
                    shares-IsFair db actor slot total (w.0) (t.0) (w.1) k.0 k.1 enough)
          ]
        ]
      ]
    ]
