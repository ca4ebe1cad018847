-- ===== src/Base/Tables.antt =====
-- SQL statements as functions on the rows of a table, and what one statement leaves of another.
use Prim.Native.Nat.{ℕ, ◌+◌}
use mathlib.Core.Path.{◌≡◌, refl}
use mathlib.Core.Bool.{Bool, true, false, ◌||◌}
use mathlib.Core.Option.{Option, none, some}
use mathlib.Core.List.{List, [], ◌∷◌}
use native.Mathlib.Omega.{arith}
use mathlib.Core.Logic.{inl, inr}
use qweqwe.Base.Tests.{if◌then◌else◌, Bool-cases}
use qweqwe.Base.Lists.{All}

module _ {ℓ} {A : Type ℓ} where
  -- SELECT … WHERE p
  abbrev pub select : (A → Bool) → List A → List A
  select p [] = []
  select p (r ∷ rs) = if p r then r ∷ select p rs else select p rs

  -- SELECT … WHERE p, for at most one row
  abbrev pub find : (A → Bool) → List A → Option A
  find p [] = none
  find p (r ∷ rs) = if p r then some r else find p rs

  -- EXISTS(SELECT 1 … WHERE p)
  abbrev pub any : (A → Bool) → List A → Bool
  any p [] = false
  any p (r ∷ rs) = p r || any p rs

  -- SELECT count(*) … WHERE p
  abbrev pub count : (A → Bool) → List A → ℕ
  count p [] = 0
  count p (r ∷ rs) = if p r then count p rs + 1 else count p rs

  -- UPDATE … WHERE p
  abbrev pub update : (A → Bool) → (A → A) → List A → List A
  update p f [] = []
  update p f (r ∷ rs) = (if p r then f r else r) ∷ update p f rs

  -- DELETE … WHERE p
  abbrev pub delete : (A → Bool) → List A → List A
  delete p [] = []
  delete p (r ∷ rs) = if p r then delete p rs else r ∷ delete p rs

  -- An update of other rows is not seen.
  pub select-update :
      (p q : A → Bool) (f : A → A)
      → ((r : A) → p r ≡ true → q r ≡ false)
      → ((r : A) → p r ≡ true → q (f r) ≡ false)
      → (rs : List A) → select q (update p f rs) ≡ select q rs
  select-update p q f h k [] = refl
  select-update p q f h k (r ∷ rs) = ground (arith, h r, k r, select-update p q f h k rs)

  -- Nor is a deletion of other rows.
  pub select-delete :
      (p q : A → Bool)
      → ((r : A) → p r ≡ true → q r ≡ false)
      → (rs : List A) → select q (delete p rs) ≡ select q rs
  select-delete p q h [] = refl
  select-delete p q h (r ∷ rs) = ground (arith, h r, select-delete p q h rs)

  pub find-update :
      (p q : A → Bool) (f : A → A)
      → ((r : A) → p r ≡ true → q r ≡ false)
      → ((r : A) → p r ≡ true → q (f r) ≡ false)
      → (rs : List A) → find q (update p f rs) ≡ find q rs
  find-update p q f h k [] = refl
  find-update p q f h k (r ∷ rs) = ground (arith, h r, k r, find-update p q f h k rs)

  -- The row itself, updated.
  pub find_updated :
      (p : A → Bool) (f : A → A)
      → ((r : A) → p r ≡ true → p (f r) ≡ true)
      → (r : A) (rs : List A) → find p rs ≡ some r
      → find p (update p f rs) ≡ some (f r)
  find_updated p f h r [] e = ground arith
  find_updated p f h r (s ∷ rs) e = ground (arith, h s, find_updated p f h r rs)

  pub find-delete :
      (p q : A → Bool)
      → ((r : A) → p r ≡ true → q r ≡ false)
      → (rs : List A) → find q (delete p rs) ≡ find q rs
  find-delete p q h [] = refl
  find-delete p q h (r ∷ rs) = ground (arith, h r, find-delete p q h rs)

  pub find_deleted : (p : A → Bool) (rs : List A) → find p (delete p rs) ≡ none
  find_deleted p [] = refl
  find_deleted p (r ∷ rs) = ground (arith, find_deleted p rs)

  pub find-any : (p : A → Bool) (rs : List A) → any p rs ≡ false → find p rs ≡ none
  find-any p [] h = refl
  find-any p (r ∷ rs) h = ground (arith, find-any p rs)

  -- A row that is found satisfies the condition.
  pub find-holds : (p : A → Bool) (r : A) (rs : List A) → find p rs ≡ some r → p r ≡ true
  find-holds p r [] e = ground arith
  find-holds p r (s ∷ rs) e = ground (arith, find-holds p r rs)

  pub any_found : (p : A → Bool) (r : A) (rs : List A) → find p rs ≡ some r → any p rs ≡ true
  any_found p r [] e = ground arith
  any_found p r (s ∷ rs) e = ground (arith, any_found p r rs)

  pub All-find {κ} :
      (P : A → Type κ) (p : A → Bool) (r : A) (rs : List A) → All P rs → find p rs ≡ some r → P r
  All-find P p r [] all e = ground arith
  All-find P p r (s ∷ rs) all e = ground (arith, All-find P p r rs)

  pub All-update {κ} :
      (P : A → Type κ) (p : A → Bool) (f : A → A)
      → ((r : A) → P r → P (f r))
      → (rs : List A) → All P rs
      → All P (update p f rs)
  All-update P p f h [] all = tt
  All-update P p f h (r ∷ rs) all = ground (arith, h r all.0, All-update P p f h rs all.1)

  pub All-weaken {κ μ} :
      (P : A → Type κ) (Q : A → Type μ)
      → ((r : A) → P r → Q r)
      → (rs : List A) → All P rs
      → All Q rs
  All-weaken P Q h [] all = tt
  All-weaken P Q h (r ∷ rs) all = (h r all.0, All-weaken P Q h rs all.1)

  pub any-update :
      (p q : A → Bool) (f : A → A)
      → ((r : A) → q (f r) ≡ q r)
      → (rs : List A) → any q (update p f rs) ≡ any q rs
  any-update p q f h [] = refl
  any-update p q f h (r ∷ rs) = ground (arith, h r, any-update p q f h rs)

  pub any-delete :
      (p q : A → Bool)
      → ((r : A) → p r ≡ true → q r ≡ false)
      → (rs : List A) → any q (delete p rs) ≡ any q rs
  any-delete p q h [] = refl
  any-delete p q h (r ∷ rs) = ground (arith, h r, any-delete p q h rs)

  -- A condition that only rows of the selection meet.
  pub any-select :
      (p q : A → Bool)
      → ((r : A) → p r ≡ true → q r ≡ true)
      → (rs : List A) → any p (select q rs) ≡ any p rs
  any-select p q h [] = refl
  any-select p q h (r ∷ rs) = ground (arith, h r, any-select p q h rs)

  pub find-select :
      (p q : A → Bool)
      → ((r : A) → p r ≡ true → q r ≡ true)
      → (rs : List A) → find p (select q rs) ≡ find p rs
  find-select p q h [] = refl
  find-select p q h (r ∷ rs) = ground (arith, h r, find-select p q h rs)

  pub update_none : (p : A → Bool) (f : A → A) (rs : List A) → any p rs ≡ false → update p f rs ≡ rs
  update_none p f [] h = refl
  update_none p f (r ∷ rs) h = ground (arith, update_none p f rs)

  pub delete_none : (p : A → Bool) (rs : List A) → any p rs ≡ false → delete p rs ≡ rs
  delete_none p [] h = refl
  delete_none p (r ∷ rs) h = ground (arith, delete_none p rs)

  pub any_deleted : (p : A → Bool) (rs : List A) → any p (delete p rs) ≡ false
  any_deleted p [] = refl
  any_deleted p (r ∷ rs) = ground (arith, any_deleted p rs)

  -- A condition that is stronger than one that no row meets.
  pub any-stronger :
      (p q : A → Bool)
      → ((r : A) → q r ≡ true → p r ≡ true)
      → (rs : List A) → any p rs ≡ false
      → any q rs ≡ false
  any-stronger p q h [] none_meets = refl
  any-stronger p q h (r ∷ rs) none_meets = ground (arith, h r, any-stronger p q h rs)

  pub any-find : (p : A → Bool) (rs : List A) → find p rs ≡ none → any p rs ≡ false
  any-find p [] h = refl
  any-find p (r ∷ rs) h = ground (arith, any-find p rs)

  -- After an update that ends the condition, no row meets it.
  pub any_updated :
      (p : A → Bool) (f : A → A)
      → ((r : A) → p r ≡ true → p (f r) ≡ false)
      → (rs : List A) → any p (update p f rs) ≡ false
  any_updated p f h [] = refl
  any_updated p f h (r ∷ rs) = ground (arith, h r, any_updated p f h rs)

  -- A deletion of more rows than those that meet the condition.
  pub any-deleted :
      (p q : A → Bool)
      → ((r : A) → q r ≡ true → p r ≡ true)
      → (rs : List A) → any q (delete p rs) ≡ false
  any-deleted p q h [] = refl
  any-deleted p q h (r ∷ rs) = ground (arith, h r, any-deleted p q h rs)

  -- The row that is found meets the other condition.
  pub any_member :
      (p q : A → Bool) (r : A) (rs : List A) → find p rs ≡ some r → q r ≡ true → any q rs ≡ true
  any_member p q r [] e h = ground arith
  any_member p q r (s ∷ rs) e h = elim (Bool-cases (p s)) [
    | inl own ↦ rw (same own) (ground (arith, h))
    | inr other ↦ ground (arith, any_member p q r rs (ground (arith, other)) h)
  ]
    where
      same : p s ≡ true → s ≡ r
      same own = ground arith
