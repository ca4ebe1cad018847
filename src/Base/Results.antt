-- ===== src/Base/Results.antt =====
-- The errors of the slot component as values, and fallible steps.
use mathlib.Core.Path.{◌≡◌, refl, sym}
use mathlib.Core.Bool.{Bool, true, false}
use mathlib.Core.Logic.{◌⊎◌, inl, inr}
use mathlib.Core.Option.{Option, none, some}
use qweqwe.Base.Tests.{if◌then◌else◌}

-- The `Err…` values of the slot package; `invariant_violated` is the anonymous error for an
-- accepted_count that is not positive, `database_error` a violated table constraint,
-- `invalid_target` the ErrInvalidTarget of the blocklist package, `invalid_challenge` and `not_eligible` the bump
-- package's, `already_friends` the friend package's, and the others from `unavailable` on the monetization package's.
pub data Error : Type 0 where
  not_found forbidden conflict invalid_input invalid_state idempotency_conflict : Error
  capacity_full request_limit duplicate_request already_member request_not_found : Error
  invariant_violated database_error invalid_target : Error
  invalid_challenge not_eligible : Error
  unavailable invalid_referral_code referral_already_bound self_referral : Error
  referral_expired capability_disabled rewarded_view_rejected rewarded_too_soon : Error
  rewarded_cooldown_active purchase_rejected invalid_purchase already_friends : Error
  chat_closed cursor_out_of_order receipt_conflict mode_not_supported link_unavailable : Error

pub data Result {ℓ} (A : Type ℓ) : Type ℓ where
  ok : A → Result A
  err : Error → Result A

-- A column that must be there.
abbrev pub or_fail {ℓ} : {A : Type ℓ} → Option A → Error → Result A
or_fail none e = err e
or_fail (some a) e = ok a

-- `if condition { return Err }`
abbrev pub fail_if : Bool → Error → Result (Unit {0})
fail_if false e = ok tt
fail_if true e = err e

infixl 5 ◌>>=◌ ◌>>◌
abbrev pub ◌>>=◌ {ℓ κ} : {B : Type κ} {A : Type ℓ} → Result A → (A → Result B) → Result B
err e >>= k = err e
ok x >>= k = k x

-- What a step that succeeds was given by the one before.
pub >>=-eq-ok {ℓ κ} :
    {B : Type κ} {A : Type ℓ} (r : Result A) (k : A → Result B) {y : B}
    → (r >>= k) ≡ ok y
    → (x : A) × (r ≡ ok x) × (k x ≡ ok y)
>>=-eq-ok (err e) k h = cc
>>=-eq-ok (ok x) k h = (x, refl, h)

-- A step that is run for its errors only.
abbrev pub ◌>>◌ {ℓ} : {A : Type ℓ} → Result (Unit {0}) → Result A → Result A
r >> s = r >>= λ _. s

-- What holds of the value, if there is one.
abbrev pub Ensures {ℓ κ} : {A : Type ℓ} → (A → Type κ) → Result A → Type κ
Ensures P (ok a) = P a
Ensures P (err e) = Unit

-- Past a check, its condition is false.
pub guard-Ensures {ℓ κ} :
    {A : Type ℓ} (P : A → Type κ) (c : Bool) (e : Error) (k : Result A)
    → (c ≡ false → Ensures P k)
    → Ensures P (fail_if c e >> k)
guard-Ensures P true e k h = tt
guard-Ensures P false e k h = h refl

-- A step that ensures what the next one needs.
pub bind-Ensures {ℓ κ} :
    {A B : Type ℓ} (Q : A → Type κ) (P : B → Type κ) (m : Result A) (f : A → Result B)
    → Ensures Q m
    → ((a : A) → Q a → Ensures P (f a))
    → Ensures P (m >>= f)
bind-Ensures Q P (ok a) f q k = k a q
bind-Ensures Q P (err e) f q k = tt

-- Whatever the first step gives, the next one ensures it.
pub Ensures->>= {ℓ κ} :
    {A B : Type ℓ} (P : B → Type κ) (m : Result A) (f : A → Result B)
    → ((a : A) → Ensures P (f a))
    → Ensures P (m >>= f)
Ensures->>= P (ok a) f h = h a
Ensures->>= P (err e) f h = tt

-- Both branches ensure it.
pub Ensures-if {ℓ κ} :
    {A : Type ℓ} (P : A → Type κ) (b : Bool) (x y : Result A)
    → Ensures P x
    → Ensures P y
    → Ensures P (if b then x else y)
Ensures-if P true x y h k = h
Ensures-if P false x y h k = k

pub Ensures-weaken {ℓ κ} :
    {A : Type ℓ} (Q P : A → Type κ) (m : Result A)
    → Ensures Q m
    → ((a : A) → Q a → P a)
    → Ensures P m
Ensures-weaken Q P (ok a) q k = k a q
Ensures-weaken Q P (err e) q k = tt

pub ok-injective {ℓ} : {A : Type ℓ} (x y : A) → ok x ≡ ok y → x ≡ y
ok-injective x y h = cc h

-- What is ensured holds of a value that is given.
pub Ensures-ok {ℓ κ} :
    {A : Type ℓ} (P : A → Type κ) (r : Result A) (x : A) → Ensures P r → r ≡ ok x → P x
Ensures-ok P (ok a) x h e = rw (sym (ok-injective a x e)) h
Ensures-ok P (err a) x h e = cc e

-- It is enough to see what a call that succeeds gives.
pub Ensures-from {ℓ κ} :
    {A : Type ℓ} (P : A → Type κ) (r : Result A) → ((x : A) → r ≡ ok x → P x) → Ensures P r
Ensures-from P (ok a) h = h a refl
Ensures-from P (err e) h = tt

pub Result-cases {ℓ} :
    {A : Type ℓ} (r : Result A) → ((e : Error) × (r ≡ err e)) ⊎ ((a : A) × (r ≡ ok a))
Result-cases (err e) = inl (e, refl)
Result-cases (ok a) = inr (a, refl)
