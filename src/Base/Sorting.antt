-- ===== src/Base/Sorting.antt =====
-- ORDER BY and LIMIT.
use Prim.Native.Nat.{ℕ, suc, zero, ◌+◌, ◌≤◌}
use mathlib.Core.Path.{◌≡◌, refl}
use mathlib.Core.Bool.{Bool, true, false}
use mathlib.Core.List.{List, [], ◌∷◌}
use native.Mathlib.Omega.{arith}
use qweqwe.Base.Tests.{ltb, if◌then◌else◌, Bool-cases}
use qweqwe.Base.Lists.{length, All}
use qweqwe.Base.Tables.{count}
use mathlib.Core.Logic.{inl, inr}

module _ {ℓ} {A : Type ℓ} where
  -- `before r s`: r may stand before s.
  abbrev pub insert_by : (A → A → Bool) → A → List A → List A
  insert_by before r [] = r ∷ []
  insert_by before r (s ∷ ss) =
      let rest = insert_by before r ss in if before r s then r ∷ s ∷ ss else s ∷ rest

  abbrev pub order_by : (A → A → Bool) → List A → List A
  order_by before [] = []
  order_by before (r ∷ rs) = insert_by before r (order_by before rs)

  abbrev pub limit : ℕ → List A → List A
  limit n [] = []
  limit zero (r ∷ rs) = []
  limit (suc n) (r ∷ rs) = r ∷ limit n rs

  -- OFFSET
  abbrev pub skip : ℕ → List A → List A
  skip n [] = []
  skip zero (r ∷ rs) = r ∷ rs
  skip (suc n) (r ∷ rs) = skip n rs

  -- Each before the next.
  abbrev pub FirstBefore : (A → A → Bool) → A → List A → Type 0
  FirstBefore before r [] = Unit {0}
  FirstBefore before r (s ∷ ss) = before r s ≡ true

  abbrev pub Ordered : (A → A → Bool) → List A → Type 0
  Ordered before [] = Unit {0}
  Ordered before (r ∷ rs) = FirstBefore before r rs × Ordered before rs

  pub count-insert :
      (p : A → Bool) (before : A → A → Bool) (r : A) (rs : List A)
      → count p (insert_by before r rs) ≡ (if p r then count p rs + 1 else count p rs)
  count-insert p before r [] = ground arith
  count-insert p before r (s ∷ rs) = ground (arith, count-insert p before r rs)

  -- The rows are the same, as often.
  pub count-order :
      (p : A → Bool) (before : A → A → Bool) (rs : List A)
      → count p (order_by before rs) ≡ count p rs
  count-order p before [] = refl
  count-order p before (r ∷ rs) =
      ground (arith, count-insert p before r (order_by before rs), count-order p before rs)

  pub length-insert :
      (before : A → A → Bool) (r : A) (rs : List A) → length (insert_by before r rs) ≡ length rs + 1
  length-insert before r [] = ground arith
  length-insert before r (s ∷ rs) = ground (arith, length-insert before r rs)

  pub length-order : (before : A → A → Bool) (rs : List A) → length (order_by before rs) ≡ length rs
  length-order before [] = refl
  length-order before (r ∷ rs) =
      ground (arith, length-insert before r (order_by before rs), length-order before rs)

  pub count_limit_skip :
      (p : A → Bool) (n : ℕ) (rs : List A) → count p (limit n rs) + count p (skip n rs) ≡ count p rs
  count_limit_skip p n [] = omega arith
  count_limit_skip p zero (r ∷ rs) = omega arith
  count_limit_skip p (suc n) (r ∷ rs) = ground (arith, count_limit_skip p n rs)

  pub length-limit_least :
      (n : ℕ) (rs : List A) → length (limit n rs) ≡ (if ltb n (length rs) then n else length rs)
  length-limit_least n [] = ground arith
  length-limit_least zero (r ∷ rs) = ground arith
  length-limit_least (suc n) (r ∷ rs) = ground (arith, length-limit_least n rs)

  pub length-limit : (n : ℕ) (rs : List A) → length (limit n rs) ≤ n
  length-limit n [] = omega arith
  length-limit zero (r ∷ rs) = omega arith
  length-limit (suc n) (r ∷ rs) = ground (arith, length-limit n rs)

  pub All-insert {κ} :
      (P : A → Type κ) (before : A → A → Bool) (r : A) (rs : List A)
      → P r
      → All P rs
      → All P (insert_by before r rs)
  All-insert P before r [] h all = (h, tt)
  All-insert P before r (s ∷ rs) h all = ground (arith, h, all, All-insert P before r rs h all.1)

  pub All-order {κ} :
      (P : A → Type κ) (before : A → A → Bool) (rs : List A) → All P rs → All P (order_by before rs)
  All-order P before [] all = tt
  All-order P before (r ∷ rs) all =
      All-insert P before r (order_by before rs) all.0 (All-order P before rs all.1)

  pub All-limit {κ} : (P : A → Type κ) (n : ℕ) (rs : List A) → All P rs → All P (limit n rs)
  All-limit P n [] all = tt
  All-limit P zero (r ∷ rs) all = tt
  All-limit P (suc n) (r ∷ rs) all = (all.0, All-limit P n rs all.1)

  All-skip {κ} : (P : A → Type κ) (n : ℕ) (rs : List A) → All P rs → All P (skip n rs)
  All-skip P n [] all = tt
  All-skip P zero (r ∷ rs) all = all
  All-skip P (suc n) (r ∷ rs) all = All-skip P n rs all.1

  All-All {κ} : {P : A → Type κ} → ((r : A) → P r) → (rs : List A) → All P rs
  All-All h [] = tt
  All-All h (r ∷ rs) = (h r, All-All h rs)

  All-both {κ} : (P Q : A → Type κ) (rs : List A) → All P rs → All Q rs → All (λ r. P r × Q r) rs
  All-both P Q [] p q = tt
  All-both P Q (r ∷ rs) p q = ((p.0, q.0), All-both P Q rs p.1 q.1)

  module _ (before : A → A → Bool)
      (trans : (q r s : A) → before q r ≡ true → before r s ≡ true → before q s ≡ true) where
    Ordered-All :
        (q : A) (rs : List A)
        → FirstBefore before q rs
        → Ordered before rs
        → All (λ s. before q s ≡ true) rs
    Ordered-All q [] h k = tt
    Ordered-All q (r ∷ rs) h k = (h, Ordered-All q rs (first_before q r rs h k.0) k.1)
      where
        first_before :
            (a b : A) (cs : List A)
            → before a b ≡ true
            → FirstBefore before b cs
            → FirstBefore before a cs
        first_before a b [] g e = tt
        first_before a b (c ∷ cs) g e = trans a b c g e

    -- What the limit keeps stands before what it leaves out.
    pub limit_before_skip :
        (n : ℕ) (rs : List A)
        → Ordered before rs
        → All (λ s. All (λ r. before r s ≡ true) (limit n rs)) (skip n rs)
    limit_before_skip n [] h = tt
    limit_before_skip zero (r ∷ rs) h = All-All (λ s. tt) (r ∷ rs)
    limit_before_skip (suc n) (r ∷ rs) h =
        All-both (λ s. before r s ≡ true) (λ s. All (λ q. before q s ≡ true) (limit n rs))
          (skip n rs) (All-skip (λ s. before r s ≡ true) n rs (Ordered-All r rs h.0 h.1))
          (limit_before_skip n rs h.1)

  module _ (before : A → A → Bool)
      (total : (r s : A) → before r s ≡ false → before s r ≡ true) where
    FirstBefore-insert :
        (q r : A) (rs : List A)
        → before q r ≡ true
        → FirstBefore before q rs
        → FirstBefore before q (insert_by before r rs)
    FirstBefore-insert q r [] h k = h
    FirstBefore-insert q r (s ∷ rs) h k = ground arith

    pub insert-Ordered :
        (r : A) (rs : List A) → Ordered before rs → Ordered before (insert_by before r rs)
    insert-Ordered r [] h = (tt, tt)
    insert-Ordered r (s ∷ rs) h = elim (Bool-cases (before r s)) [
      | inl first ↦ rw (first) (first, h)
      | inr later ↦
          rw (later) (FirstBefore-insert s r rs (total r s later) h.0, insert-Ordered r rs h.1)
    ]

    pub order-Ordered : (rs : List A) → Ordered before (order_by before rs)
    order-Ordered [] = tt
    order-Ordered (r ∷ rs) = insert-Ordered r (order_by before rs) (order-Ordered rs)
