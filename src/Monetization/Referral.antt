-- ===== src/Monetization/Referral.antt =====
-- `EnsureReferralCode` and `BindReferral` of backend/internal/postgres/monetization_store.go, with the milestones of
-- backend/internal/monetization/service.go. The column app_users.created_at is an argument: none for no such user.
use qweqwe.Base.{
  ℕ, ◌+◌, Bool, true, false, ◌&&◌, ◌||◌, not, Option, none, some, List, [], ◌∷◌, Result, ok, err,
  or_fail, fail_if, ◌>>=◌, ◌>>◌, ◌==◌, ltb, leb, if◌then◌else◌, any, find, length, database_error,
  invalid_referral_code, referral_already_bound, self_referral, referral_expired,
}
use qweqwe.Monetization.Model.{
  Text, text_eq, ReferralCode, Referral, ReferralMilestone, Money, days,
}

-- `referralMilestones`
abbrev pub referral_milestones : List ReferralMilestone
referral_milestones =
    milestone 1 1 1 false
    ∷ milestone 3 7 3 false
    ∷ milestone 5 30 7 false
    ∷ milestone 10 90 7 true
    ∷ []
  where
    milestone : (count inviter invitee : ℕ) → Bool → ReferralMilestone
    milestone n a b badge = record {
      qualified_referrals = n;
      inviter_reward_days = a;
      invitee_reward_days = b;
      badge = badge;
    }

-- `nextMilestone`
unfoldable pub first_above : ℕ → List ReferralMilestone → Option ReferralMilestone
first_above n [] = none
first_above n (s ∷ ss) = if ltb n s.qualified_referrals then some s else first_above n ss

abbrev pub next_milestone : ℕ → Option ReferralMilestone
next_milestone n = first_above n referral_milestones

-- A character is A–Z or 0–9.
abbrev pub is_code_char : ℕ → Bool
is_code_char c = (leb 65 c && leb c 90) || (leb 48 c && leb c 57)

abbrev pub all_code_chars : Text → Bool
all_code_chars [] = true
all_code_chars (c ∷ cs) = is_code_char c && all_code_chars cs

-- `validReferralCode`. A text of these characters has as many bytes as characters; any other is refused either way.
unfoldable pub valid_referral_code : Text → Bool
valid_referral_code code = not (ltb (length code) 6 || ltb 20 (length code)) && all_code_chars code

abbrev pub is_owner : ℕ → ReferralCode → Bool
is_owner u r = r.user == u

abbrev pub is_code : Text → ReferralCode → Bool
is_code code r = text_eq r.code code

-- INSERT … ON CONFLICT DO NOTHING, which no unique column survives, and the SELECT.
unfoldable pub ensure_referral_code : ℕ → Text → Money → Result Text × Money
ensure_referral_code u code m =
    let rows =
      if any (is_owner u) m.codes || any (is_code code) m.codes
      then m.codes
      else record { user = u; code = code } ∷ m.codes in
    (
      or_fail (find (is_owner u) rows) database_error >>= (λ r. ok r.code),
      record m { codes = rows },
    )

abbrev pub is_invitee : ℕ → Referral → Bool
is_invitee u r = r.invitee == u

abbrev pub new_referral : (invitee inviter : ℕ) → Text → (now deadline : ℕ) → Referral
new_referral v u code now deadline = record {
  invitee = v;
  inviter = u;
  referral_code = code;
  accepted_at = now;
  qualifying_deadline = deadline;
  qualified_at = none;
  qualifying_receipt = none;
}

-- Past the lookup of the existing row.
unfoldable pub accept_code : (deadline now invitee : ℕ) → Text → Money → Result Money
accept_code deadline now v code m = do
  owner ← or_fail (find (is_code code) m.codes) invalid_referral_code
  fail_if (owner.user == v) self_referral
  fail_if (not (ltb now deadline)) referral_expired
  ok (record m { referrals = new_referral v owner.user code now deadline ∷ m.referrals })

-- `BindReferral`. The user's row is locked, so that no other call of the user comes between.
unfoldable pub bind_referral :
    (ℕ → Option ℕ) → (deadline_days now invitee : ℕ) → Text → Money → Result Money
bind_referral created_at deadline_days now v code m = do
  created ← or_fail (created_at v) database_error
  elim (find (is_invitee v) m.referrals) [
    | some r ↦ (if text_eq r.referral_code code then ok m else err referral_already_bound)
    | none ↦ accept_code (created + days deadline_days) now v code m
  ]
