-- ===== src/Monetization/Service.antt =====
-- backend/internal/monetization/service.go. What is not of the repository is the record `Outside`: the strings and
-- crypto packages, the two verifiers, and the users' created_at. The catalog, a constant, is left out of the snapshot.
use qweqwe.Base.{
  ℕ, ◌+◌, ◌/◌, ◌%◌, Bool, false, ◌||◌, not, Option, none, some, List, [], ◌∷◌, ◌++◌, Result, ok,
  err, or_fail, fail_if, ◌>>=◌, ◌>>◌, ltb, leb, ◌==◌, if◌then◌else◌, find, count, select,
  invalid_referral_code, capability_disabled, rewarded_view_rejected, purchase_rejected,
  invalid_purchase,
}
use qweqwe.Monetization.Model.{
  Text, is_empty, Grant, SubscriptionState, Money, ReferralMilestone, Progress,
  rewarded_min_interval, rewarded_quest_window, rewarded_grant_duration, rewarded_claim_cooldown,
  referral_deadline_days,
}
use qweqwe.Monetization.Rewarded.{QuestClocks, View, is_progress, record_rewarded_view}
use qweqwe.Monetization.Purchase.{Purchase, record_purchase, is_qualified_for}
use qweqwe.Monetization.Referral.{
  valid_referral_code, ensure_referral_code, bind_referral, is_invitee, next_milestone,
  referral_milestones,
}

-- `VerifiedPurchase`; none for a state outside the six, as `validSubscriptionState` tells.
pub record VerifiedPurchase : Type 0 where
  pub provider : Text
  pub product_id : Text
  pub purchase_id : Text
  pub period_start : ℕ
  pub period_end : ℕ
  pub state : Option SubscriptionState

-- `trim_space` and `to_upper` are of the strings package; `sha256` gives the hash of a text as a number, `id_digest`
-- the first eight bytes of the hash of a user's id. No verifier is none.
pub record Outside : Type 0 where
  pub trim_space : Text → Text
  pub to_upper : Text → Text
  pub sha256 : Text → ℕ
  pub id_digest : ℕ → List ℕ
  pub rewarded : Option (ℕ → Text → Result (Text × Text))
  pub purchases : Option (ℕ → Text → Result VerifiedPurchase)
  pub created_at : ℕ → Option ℕ

abbrev pub quest_clocks : QuestClocks
quest_clocks = record {
  min_interval = rewarded_min_interval;
  quest_window = rewarded_quest_window;
  grant_duration = rewarded_grant_duration;
  cooldown = rewarded_claim_cooldown;
}

-- An upper-case hexadecimal digit, and the two of a byte.
abbrev pub hex_digit : ℕ → ℕ
hex_digit d = if ltb d 10 then 48 + d else 55 + d

abbrev pub hex : List ℕ → Text
hex [] = []
hex (b ∷ bs) = hex_digit (b / 16) ∷ hex_digit (b % 16) ∷ hex bs

-- `referralCodeForUser`
abbrev pub referral_code_for_user : Outside → ℕ → Text
referral_code_for_user o u = hex (o.id_digest u)

abbrev pub is_blank : Outside → Text → Bool
is_blank o t = is_empty (o.trim_space t)

-- max(ends_at), NULL for no row
abbrev pub latest : List Grant → Option ℕ
latest [] = none
latest (g ∷ gs) = elim (latest gs) [
  | none ↦ some g.ends_at
  | some t ↦ (if ltb t g.ends_at then some g.ends_at else some t)
]

abbrev pub is_of : ℕ → Grant → Bool
is_of u g = g.user == u

-- `StoreStatus`
pub record StoreStatus : Type 0 where
  pub premium_until : Option ℕ
  pub videos_watched_count : ℕ
  pub last_video_watched_at : Option ℕ
  pub last_free_premium_claimed_at : Option ℕ
  pub qualified_referrals : ℕ
  pub bound_referral_code : Option Text
  pub referral_qualifying_deadline : Option ℕ

abbrev pub column {ℓ κ} : {A : Type ℓ} {B : Type κ} → (A → B) → Option A → Option B
column f none = none
column f (some a) = some (f a)

abbrev pub nullable {ℓ κ} : {A : Type ℓ} {B : Type κ} → (A → Option B) → Option A → Option B
nullable f none = none
nullable f (some a) = f a

abbrev pub videos : Option Progress → ℕ
videos none = 0
videos (some p) = p.videos_watched_count

-- `MonetizationStore.Status`
unfoldable pub store_status : ℕ → Money → StoreStatus
store_status u m = record {
  premium_until = latest (select (is_of u) m.grants);
  videos_watched_count = videos (find (is_progress u) m.progress);
  last_video_watched_at = nullable (λ p. p.last_video_watched_at) (find (is_progress u) m.progress);
  last_free_premium_claimed_at =
      nullable (λ p. p.last_free_premium_claimed_at) (find (is_progress u) m.progress);
  qualified_referrals = count (is_qualified_for u) m.referrals;
  bound_referral_code = column (λ r. r.referral_code) (find (is_invitee u) m.referrals);
  referral_qualifying_deadline =
      column (λ r. r.qualifying_deadline) (find (is_invitee u) m.referrals);
}

-- `Status`, the part of `Snapshot` that is the user's.
pub record Status : Type 0 where
  pub premium_active : Bool
  pub premium_until : Option ℕ
  pub videos_watched_count : ℕ
  pub next_video_at : Option ℕ
  pub last_free_premium_claimed_at : Option ℕ
  pub next_free_premium_claim_at : Option ℕ
  pub referral_code : Text
  pub bound_referral_code : Option Text
  pub qualifying_deadline : Option ℕ
  pub qualified_referrals : ℕ
  pub next_milestone_due : Option ReferralMilestone

abbrev pub is_after : Option ℕ → ℕ → Bool
is_after none now = false
is_after (some t) now = ltb now t

abbrev pub status_of : (now : ℕ) → Text → StoreStatus → Status
status_of now code raw = record {
  premium_active = is_after raw.premium_until now;
  premium_until = raw.premium_until;
  videos_watched_count = raw.videos_watched_count;
  next_video_at = column (λ t. t + rewarded_min_interval) raw.last_video_watched_at;
  last_free_premium_claimed_at = raw.last_free_premium_claimed_at;
  next_free_premium_claim_at =
      column (λ t. t + rewarded_claim_cooldown) raw.last_free_premium_claimed_at;
  referral_code = code;
  bound_referral_code = raw.bound_referral_code;
  qualifying_deadline = raw.referral_qualifying_deadline;
  qualified_referrals = raw.qualified_referrals;
  next_milestone_due = next_milestone raw.qualified_referrals;
}

-- `Snapshot`, which also writes the user's code
unfoldable pub snapshot : Outside → (now u : ℕ) → Money → Result Status × Money
snapshot o now u m =
    let coded = ensure_referral_code u (referral_code_for_user o u) m in
    (coded.0 >>= (λ code. ok (status_of now code (store_status u (coded.1)))), coded.1)

-- The store's answer, then the snapshot; an error of the store leaves the tables.
abbrev pub then_snapshot : Outside → (now u : ℕ) → Money → Result Money → Result Status × Money
then_snapshot o now u m (ok n) = snapshot o now u n
then_snapshot o now u m (err e) = (err e, m)

-- `BindReferral` of the service
unfoldable pub bind : Outside → (now u : ℕ) → Text → Money → Result Money
bind o now u raw m =
    let code = o.to_upper (o.trim_space raw) in
    fail_if (not (valid_referral_code code)) invalid_referral_code
    >> bind_referral o.created_at referral_deadline_days now u code m

-- What the ad network says of the receipt.
unfoldable pub verified_view : Outside → ℕ → Text → Result View
verified_view o u receipt = do
  verify ← or_fail o.rewarded capability_disabled
  seen ← elim (verify u receipt) [ ok r ↦ ok r | err e ↦ err rewarded_view_rejected ]
  fail_if (is_blank o (seen.0) || is_blank o (seen.1)) rewarded_view_rejected
  ok (record { user = u; provider = seen.0; receipt_hash = o.sha256 (seen.0 ++ 58 ∷ seen.1) })

-- `SubmitRewardedView`
unfoldable pub submit_rewarded_view :
    Outside → (grant_id now u : ℕ) → Text → Money → Result Status × Money
submit_rewarded_view o grant_id now u receipt m =
    then_snapshot o now u m
      (verified_view o u receipt >>= λ v. record_rewarded_view quest_clocks grant_id now v m)

-- What the store's verifier says of the token.
unfoldable pub verified_purchase : Outside → ℕ → Text → Result Purchase
verified_purchase o u token = do
  verify ← or_fail o.purchases capability_disabled
  v ← elim (verify u token) [ ok r ↦ ok r | err e ↦ err purchase_rejected ]
  state ← or_fail v.state invalid_purchase
  fail_if
      (is_blank o v.provider
        || is_blank o v.purchase_id
        || is_blank o v.product_id
        || leb v.period_end v.period_start)
      invalid_purchase
  ok (record {
    user = u;
    provider = v.provider;
    product_id = v.product_id;
    purchase_hash = o.sha256 (v.provider ++ 58 ∷ v.purchase_id);
    period_start = v.period_start;
    period_end = v.period_end;
    state = state;
  })

-- `VerifyPurchase`
unfoldable pub verify_purchase :
    Outside → (receipt_id now u : ℕ) → Text → Money → Result Status × Money
verify_purchase o receipt_id now u token m =
    then_snapshot o now u m
      (verified_purchase o u token >>= λ p. record_purchase receipt_id now referral_milestones p m)

-- A call of the service, with what the clock and the drawn UUID are then.
pub data Call : Type 0 where
  reads : (now u : ℕ) → Call
  binds : (now u : ℕ) → Text → Call
  watches : (grant_id now u : ℕ) → Text → Call
  buys : (receipt_id now u : ℕ) → Text → Call

abbrev pub or_stay : Money → Result Money → Money
or_stay m (ok n) = n
or_stay m (err e) = m

unfoldable pub money_step : Outside → Money → Call → Money
money_step o m (reads now u) = (snapshot o now u m).1
money_step o m (binds now u raw) = or_stay m (bind o now u raw m)
money_step o m (watches id now u receipt) = (submit_rewarded_view o id now u receipt m).1
money_step o m (buys id now u token) = (verify_purchase o id now u token m).1

abbrev pub money_run : Outside → Money → List Call → Money
money_run o m [] = m
money_run o m (c ∷ cs) = money_run o (money_step o m c) cs
