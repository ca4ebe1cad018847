-- ===== src/Monetization/Bound.antt =====
-- `BindReferral`: what it keeps, and that an issued code can be bound.
use qweqwe.Base.{
  ℕ, ◌+◌, ◌<◌, ◌≡◌, refl, false, Option, none, some, ◌∷◌, arith, ◌==◌, find, ok, Ensures,
  Option-cases, inl, inr, any-find,
}
use qweqwe.Monetization.Model.{Text, Money, Referral, ReferralCode, days}
use qweqwe.Monetization.Referral.{
  is_invitee, is_code, bind_referral, accept_code, new_referral, ensure_referral_code,
}
use qweqwe.Monetization.Settled.{IsSettled}
use qweqwe.Monetization.Codes.{issued_code-owner, IsCoded}

-- Everything but the referrals is as it was, and these at most one more, of the user.
pub record IsBound (v : ℕ) (m t : Money) : Type 0 where
  pub settled : IsSettled t
  pub same_grants : t.grants ≡ m.grants
  pub same_progress : t.progress ≡ m.progress
  pub same_receipts : t.rewarded_receipts ≡ m.rewarded_receipts
  pub same_codes : t.codes ≡ m.codes
  pub others :
      (w : ℕ) → (w == v) ≡ false → find (is_invitee w) t.referrals ≡ find (is_invitee w) m.referrals
  pub kept :
      (r : Referral)
      → find (is_invitee v) m.referrals ≡ some r
      → find (is_invitee v) t.referrals ≡ some r

new_referral-IsBound :
    (deadline now v u : ℕ) (code : Text) (m : Money)
    → IsSettled m
    → find (is_invitee v) m.referrals ≡ none
    → (u == v) ≡ false
    → now < deadline
    → IsBound v m (record m { referrals = new_referral v u code now deadline ∷ m.referrals })
new_referral-IsBound deadline now v u code m h absent apart early = record {
  settled = record {
    balanced = record {
      keyed = h.balanced.keyed;
      unique = h.balanced.unique;
      paid_out = h.balanced.paid_out;
    };
    reached = λ w. ground (arith, h.reached w);
    single = (any-find (is_invitee v) m.referrals absent, h.single);
    proper = ((ground arith, early, tt), h.proper);
    earned = λ w n k. ground (arith, h.earned w n k);
  };
  same_grants = refl;
  same_progress = refl;
  same_receipts = refl;
  same_codes = refl;
  others = λ w other. ground arith;
  kept = λ r k. ground arith;
}

accept_code-IsBound :
    (deadline now v : ℕ) (code : Text) (m : Money)
    → IsSettled m
    → find (is_invitee v) m.referrals ≡ none
    → Ensures (IsBound v m) (accept_code deadline now v code m)
unfolding accept_code
accept_code-IsBound deadline now v code m h absent =
    elim (Option-cases (find (is_code code) m.codes)) [
      | inl unknown ↦ ground arith
      | inr w ↦ ground (arith, w.1, new_referral-IsBound deadline now v w.0.user code m h absent)
    ]

IsBound-refl : (v : ℕ) (m : Money) → IsSettled m → IsBound v m m
IsBound-refl v m h = record {
  settled = h;
  same_grants = refl;
  same_progress = refl;
  same_receipts = refl;
  same_codes = refl;
  others = λ w other. refl;
  kept = λ r k. k;
}

pub bind_referral-IsBound :
    (created_at : ℕ → Option ℕ) (deadline_days now v : ℕ) (code : Text) (m : Money)
    → IsSettled m
    → Ensures (IsBound v m) (bind_referral created_at deadline_days now v code m)
unfolding bind_referral
bind_referral-IsBound created_at d now v code m h = elim (Option-cases (created_at v)) [
  | inl nobody ↦ ground arith
  | inr c ↦ elim (Option-cases (find (is_invitee v) m.referrals)) [
    | inl absent ↦
        rw (c.1, absent, bind_referral) (accept_code-IsBound (c.0 + days d) now v code m h absent)
    | inr w ↦ ground (arith, c.1, w.1, IsBound-refl v m h)
  ]
]

known_code_binds :
    (created_at : ℕ → Option ℕ) (d now u v created : ℕ) (c : Text) (m : Money) (r : ReferralCode)
    → find (is_code c) m.codes ≡ some r
    → r.user ≡ u
    → (v == u) ≡ false
    → created_at v ≡ some created
    → find (is_invitee v) m.referrals ≡ none
    → now < created + days d
    → bind_referral created_at d now v c m
      ≡ ok (record m { referrals = new_referral v u c now (created + days d) ∷ m.referrals })
unfolding bind_referral accept_code
known_code_binds created_at d now u v created c m r owner own other known absent early =
    ground arith

-- The code that the service issues to a user u, in tables where each code is its user's, can be bound: by another
-- user v of the platform who has no referral yet, before the deadline. The referral is then of v and u.
pub issued_code_binds :
    (created_at : ℕ → Option ℕ) (deadline_days now u v created : ℕ) (code c : Text) (m : Money)
    → IsCoded m.codes
    → (ensure_referral_code u code m).0 ≡ ok c
    → (v == u) ≡ false
    → created_at v ≡ some created
    → find (is_invitee v) m.referrals ≡ none
    → now < created + days deadline_days
    → (t : Money) × (r : Referral) × (bind_referral created_at deadline_days now v c
          (ensure_referral_code u code m).1
        ≡ ok t)
      × (find (is_invitee v) t.referrals ≡ some r)
      × (r.inviter ≡ u)
      × (r.qualifying_deadline ≡ created + days deadline_days)
unfolding ensure_referral_code
issued_code_binds created_at d now u v created code c m coded issued other known absent early =
    let o = issued_code-owner u code c m coded issued in
    (
      record ((ensure_referral_code u code m).1) {
        referrals = new_referral v u c now (created + days d) ∷ m.referrals;
      },
      new_referral v u c now (created + days d),
      known_code_binds created_at d now u v created c ((ensure_referral_code u code m).1) (o.0)
          (o.1) (o.2) other known absent early,
      ground arith,
      refl,
      refl,
    )
