-- ===== src/Monetization/Codes.antt =====
-- Referral codes: each belongs to one user, and the one that the service issues can be used.
use qweqwe.Base.{
  text_eq_same, text_eq→≡, ℕ, ◌≡◌, sym, ap, ◌∙◌, true, false, ◌||◌, some, List, ◌∷◌, arith, any,
  find, ok, Bool-cases, Option-cases, inl, inr, find-holds, any_found, ok-injective, or_fail, ◌>>=◌,
  database_error, >>=-eq-ok,
}
use qweqwe.Monetization.Model.{Text, text_eq, ReferralCode, Money}
use qweqwe.Monetization.Referral.{is_owner, is_code, ensure_referral_code}

-- The row of a user is the row of its code.
abbrev pub IsCoded : List ReferralCode → Type 0
IsCoded rs =
    (u : ℕ) (r : ReferralCode) → find (is_owner u) rs ≡ some r → find (is_code r.code) rs ≡ some r

inserted-IsCoded :
    (n : ReferralCode) (rs : List ReferralCode)
    → IsCoded rs
    → any (is_code n.code) rs ≡ false
    → IsCoded (n ∷ rs)
inserted-IsCoded n rs h fresh u r e = elim (Bool-cases (is_owner u n)) [
  | inl own ↦ rw (sym (first own)) (ground (arith, text_eq_same n.code))
  | inr other ↦ elim (Bool-cases (text_eq n.code r.code)) [
    | inl same ↦ ground (
      arith,
      any_found (is_code r.code) r rs (h u r (later other)),
      ap (λ x. any (is_code x) rs) (text_eq→≡ n.code r.code same),
      fresh,
    )
    | inr apart ↦ ground (arith, apart, h u r (later other))
  ]
]
  where
    first : is_owner u n ≡ true → n ≡ r
    first own = ground arith

    later : is_owner u n ≡ false → find (is_owner u) rs ≡ some r
    later other = ground arith

pub ensure_referral_code-IsCoded :
    (u : ℕ) (code : Text) (m : Money)
    → IsCoded m.codes
    → IsCoded ((ensure_referral_code u code m).1.codes)
unfolding ensure_referral_code
ensure_referral_code-IsCoded u code m h =
    elim (Bool-cases (any (is_owner u) m.codes || any (is_code code) m.codes)) [
      | inl taken ↦ rw (taken, ensure_referral_code) h
      | inr free ↦
          rw (free, ensure_referral_code)
            (inserted-IsCoded (record { user = u; code = code }) m.codes h (ground arith))
    ]

owner_row :
    (u : ℕ) (c : Text) (rs : List ReferralCode)
    → IsCoded rs
    → (or_fail (find (is_owner u) rs) database_error >>= (λ r. ok r.code)) ≡ ok c
    → (r : ReferralCode) × (find (is_code c) rs ≡ some r) × (r.user ≡ u)
owner_row u c rs h e =
    let got = >>=-eq-ok (or_fail (find (is_owner u) rs) database_error) (λ r. ok r.code) e in
    (
      got.0,
      ap (λ x. find (is_code x) rs) (sym (ok-injective got.0.code c got.2))
          ∙ h u (got.0) (there (got.0) (got.1)),
      ground (arith, find-holds (is_owner u) (got.0) rs (there (got.0) (got.1))),
    )
  where
    there :
        (r : ReferralCode)
        → or_fail (find (is_owner u) rs) database_error ≡ ok r
        → find (is_owner u) rs ≡ some r
    there r k = elim (Option-cases (find (is_owner u) rs)) [
      | inl absent ↦ ground arith
      | inr w ↦ ground (arith, w.1)
    ]

-- A code that the service returns for a user finds that user.
pub issued_code-owner :
    (u : ℕ) (code c : Text) (m : Money)
    → IsCoded m.codes
    → (ensure_referral_code u code m).0 ≡ ok c
    → (r : ReferralCode) × (find (is_code c) (ensure_referral_code u code m).1.codes ≡ some r)
      × (r.user ≡ u)
unfolding ensure_referral_code
issued_code-owner u code c m h e =
    owner_row u c ((ensure_referral_code u code m).1.codes)
      (ensure_referral_code-IsCoded u code m h) e
