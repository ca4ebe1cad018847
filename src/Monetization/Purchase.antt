-- ===== src/Monetization/Purchase.antt =====
-- `RecordPurchase` and `qualifyReferralAndAwardMilestones` of backend/internal/postgres/monetization_store.go.
use qweqwe.Base.{
  ℕ, ◌+◌, Bool, true, false, ◌&&◌, ◌||◌, not, Option, none, some, List, [], ◌∷◌, Result, ok,
  fail_if, ◌>>=◌, ◌>>◌, ◌==◌, ltb, leb, if◌then◌else◌, any, find, update, delete, count,
  database_error, length,
}
use qweqwe.Monetization.Model.{
  Text, text_eq, Grant, SubscriptionReceipt, SubscriptionState, active_subscription, grace,
  Referral, ReferralMilestone, Award, Money, insert_grant, is_grant, paid, referral, purchase_key,
  inviter_key, invitee_key, is_set, days, violates_provider_check,
}

-- What the service passes: a verified purchase.
pub record Purchase : Type 0 where
  pub user : ℕ
  pub provider : Text
  pub product_id : Text
  pub purchase_hash : ℕ
  pub period_start : ℕ
  pub period_end : ℕ
  pub state : SubscriptionState

-- CHECK (char_length(product_id) BETWEEN 1 AND 200), CHECK (period_end > period_start) and that of the provider
unfoldable pub violates_receipt_check : Purchase → Bool
violates_receipt_check p =
    violates_provider_check p.provider
    || ltb (length p.product_id) 1
    || ltb 200 (length p.product_id)
    || leb p.period_end p.period_start

abbrev pub is_purchase : Purchase → SubscriptionReceipt → Bool
is_purchase p r = r.purchase_token_hash == p.purchase_hash && text_eq r.provider p.provider

abbrev pub receipt_of : (id now : ℕ) → Purchase → SubscriptionReceipt
receipt_of id now p = record {
  id = id;
  user = p.user;
  provider = p.provider;
  product_id = p.product_id;
  purchase_token_hash = p.purchase_hash;
  period_start = p.period_start;
  period_end = p.period_end;
  state = p.state;
  verified_at = now;
}

-- SET …: the id and the user of the first report stay.
abbrev pub renewed : ℕ → Purchase → SubscriptionReceipt → SubscriptionReceipt
renewed now p r = record r {
  product_id = p.product_id;
  period_start = p.period_start;
  period_end = p.period_end;
  state = p.state;
  verified_at = now;
}

abbrev pub stored_id : ℕ → Option SubscriptionReceipt → ℕ
stored_id id none = id
stored_id id (some r) = r.id

-- INSERT … ON CONFLICT (provider, purchase_token_hash) DO UPDATE … RETURNING id, of a row that the CHECKs accept:
-- `record_purchase` fails before it otherwise.
unfoldable pub upsert_receipt :
    (id now : ℕ) → Purchase → List SubscriptionReceipt → ℕ × List SubscriptionReceipt
upsert_receipt id now p rs = (
  stored_id id (find (is_purchase p) rs),
  if any (is_purchase p) rs
      then update (is_purchase p) (renewed now p) rs
      else receipt_of id now p ∷ rs,
)

abbrev pub is_entitling : SubscriptionState → Bool
is_entitling active_subscription = true
is_entitling grace = true
is_entitling _ = false

abbrev pub is_active : SubscriptionState → Bool
is_active active_subscription = true
is_active _ = false

abbrev pub least : ℕ → ℕ → ℕ
least a b = if ltb a b then a else b

abbrev pub paid_grant : Purchase → Grant
paid_grant p = record {
  user = p.user;
  source = paid;
  source_key = purchase_key p.purchase_hash;
  starts_at = p.period_start;
  ends_at = p.period_end;
}

abbrev pub is_paid_grant : Purchase → Grant → Bool
is_paid_grant p = is_grant paid (purchase_key p.purchase_hash)

abbrev pub extended : Purchase → Grant → Grant
extended p g = record g { starts_at = least g.starts_at p.period_start; ends_at = p.period_end }

-- The purchase's own grant, given, extended or retracted.
unfoldable pub settle_grant : Purchase → List Grant → List Grant
settle_grant p gs =
    if is_entitling p.state
    then (if any (is_paid_grant p) gs
        then update (λ g. is_paid_grant p g && not (g.ends_at == p.period_end)) (extended p) gs
        else paid_grant p ∷ gs)
    else delete (is_paid_grant p) gs

-- WHERE invitee_id AND qualified_at IS NULL AND qualifying_deadline > now
abbrev pub is_pending : (invitee now : ℕ) → Referral → Bool
is_pending u now r =
    r.invitee == u && (not (is_set r.qualified_at) && ltb now r.qualifying_deadline)

abbrev pub qualified : (receipt now : ℕ) → Referral → Referral
qualified receipt now r = record r { qualified_at = some now; qualifying_receipt = some receipt }

-- WHERE inviter_id AND qualified_at IS NOT NULL
abbrev pub is_qualified_for : ℕ → Referral → Bool
is_qualified_for u r = r.inviter == u && is_set r.qualified_at

abbrev pub is_award : (inviter milestone : ℕ) → Award → Bool
is_award u n a = a.inviter == u && a.milestone == n

-- CHECK (milestone IN (1, 3, 5, 10)) and that the rewards are positive
abbrev pub violates_check : ReferralMilestone → Bool
violates_check s =
    not (
      s.qualified_referrals == 1
      || s.qualified_referrals == 3
      || s.qualified_referrals == 5
      || s.qualified_referrals == 10)
    || s.inviter_reward_days == 0
    || s.invitee_reward_days == 0

abbrev pub award_row : (inviter invitee : ℕ) → ReferralMilestone → Award
award_row u v s = record {
  inviter = u;
  milestone = s.qualified_referrals;
  triggering_invitee = v;
  inviter_reward_days = s.inviter_reward_days;
  invitee_reward_days = s.invitee_reward_days;
}

abbrev pub inviter_grant : (inviter now : ℕ) → ReferralMilestone → Grant
inviter_grant u now s = record {
  user = u;
  source = referral;
  source_key = inviter_key u s.qualified_referrals;
  starts_at = now;
  ends_at = now + days s.inviter_reward_days;
}

abbrev pub invitee_grant : (invitee now : ℕ) → ReferralMilestone → Grant
invitee_grant v now s = record {
  user = v;
  source = referral;
  source_key = invitee_key v s.qualified_referrals;
  starts_at = now;
  ends_at = now + days s.invitee_reward_days;
}

-- One turn of the loop.
unfoldable pub award_milestone :
    (inviter invitee now qualified_count : ℕ) → ReferralMilestone → Money → Result Money
award_milestone u v now n s m =
    if ltb n s.qualified_referrals || any (is_award u s.qualified_referrals) m.awards
    then ok m
    else (do
      fail_if (violates_check s) database_error
      given ← insert_grant (inviter_grant u now s) m.grants
      both ← insert_grant (invitee_grant v now s) given
      ok (record m { grants = both; awards = award_row u v s ∷ m.awards }))

unfoldable pub award_milestones :
    (inviter invitee now qualified_count : ℕ) → List ReferralMilestone → Money → Result Money
award_milestones u v now n [] m = ok m
award_milestones u v now n (s ∷ ss) m =
    award_milestone u v now n s m >>= award_milestones u v now n ss

-- `qualifyReferralAndAwardMilestones`
unfoldable pub qualify_referral :
    (invitee receipt now : ℕ) → List ReferralMilestone → Money → Result Money
qualify_referral v receipt now ss m = elim (find (is_pending v now) m.referrals) [
  | none ↦ ok m
  | some r ↦
      (let rs = update (is_pending v now) (qualified receipt now) m.referrals in
        award_milestones r.inviter v now (count (is_qualified_for r.inviter) rs) ss
          (record m { referrals = rs }))
]

-- `RecordPurchase`
unfoldable pub record_purchase :
    (receipt_id now : ℕ) → List ReferralMilestone → Purchase → Money → Result Money
record_purchase id now ss p m = do
  fail_if (violates_receipt_check p) database_error
  let stored = upsert_receipt id now p m.subscription_receipts
  let settled = record m { subscription_receipts = stored.1; grants = settle_grant p m.grants }
  if is_active p.state then qualify_referral p.user (stored.0) now ss settled else ok settled
