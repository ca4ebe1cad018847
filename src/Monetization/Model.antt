-- ===== src/Monetization/Model.antt =====
-- backend/internal/monetization/model.go, and the tables of backend/internal/postgres/monetization_store.go. A text is
-- the list of its characters' codes, a user, a hash and a drawn UUID a number, and a time a number of seconds.
pub use qweqwe.Base.{Text, text_eq, is_empty}
use qweqwe.Base.{
  ℕ, ◌*◌, Bool, true, false, ◌&&◌, Option, none, some, List, [], ◌∷◌, Result, ok, ◌==◌, ltb, leb,
  any, length, ◌||◌, database_error, fail_if, ◌>>◌,
}

-- CHECK (char_length(provider) BETWEEN 2 AND 64), of both tables of receipts
abbrev pub violates_provider_check : Text → Bool
violates_provider_check provider = ltb (length provider) 2 || ltb 64 (length provider)

abbrev pub hours : ℕ → ℕ
hours n = n * 3600

abbrev pub days : ℕ → ℕ
days n = n * 86400

-- `RewardedVideosRequired`, `ReferralDeadlineDays` and the four clocks of the quest
abbrev pub rewarded_videos_required : ℕ
rewarded_videos_required = 5

abbrev pub referral_deadline_days : ℕ
referral_deadline_days = 14

abbrev pub rewarded_min_interval : ℕ
rewarded_min_interval = hours 4

abbrev pub rewarded_quest_window : ℕ
rewarded_quest_window = hours 24

abbrev pub rewarded_grant_duration : ℕ
rewarded_grant_duration = hours 24

abbrev pub rewarded_claim_cooldown : ℕ
rewarded_claim_cooldown = days 7

pub data SubscriptionState : Type 0 where
  active_subscription grace billing_retry expired revoked refunded : SubscriptionState

pub record ReferralMilestone : Type 0 where
  pub qualified_referrals : ℕ
  pub inviter_reward_days : ℕ
  pub invitee_reward_days : ℕ
  pub badge : Bool

pub data Source : Type 0 where
  paid rewarded referral : Source

-- source_key. The two texts of a referral hold a UUID and a number between colons, so that different constructors or
-- arguments are different texts; with the source they are what is unique.
pub data SourceKey : Type 0 where
  purchase_key grant_key : ℕ → SourceKey
  inviter_key invitee_key : (user milestone : ℕ) → SourceKey

abbrev pub key_eq : SourceKey → SourceKey → Bool
key_eq (purchase_key a) (purchase_key b) = a == b
key_eq (grant_key a) (grant_key b) = a == b
key_eq (inviter_key u m) (inviter_key v n) = u == v && m == n
key_eq (invitee_key u m) (invitee_key v n) = u == v && m == n
key_eq _ _ = false

abbrev pub source_eq : Source → Source → Bool
source_eq paid paid = true
source_eq rewarded rewarded = true
source_eq referral referral = true
source_eq _ _ = false

-- A row of premium_grants.
pub record Grant : Type 0 where
  pub user : ℕ
  pub source : Source
  pub source_key : SourceKey
  pub starts_at : ℕ
  pub ends_at : ℕ

-- A row of monetization_rewarded_receipts.
pub record RewardedReceipt : Type 0 where
  pub user : ℕ
  pub provider : Text
  pub receipt_hash : ℕ
  pub watched_at : ℕ

-- A row of monetization_rewarded_progress.
pub record Progress : Type 0 where
  pub user : ℕ
  pub videos_watched_count : ℕ
  pub quest_started_at : Option ℕ
  pub last_video_watched_at : Option ℕ
  pub last_free_premium_claimed_at : Option ℕ

-- A row of monetization_subscription_receipts.
pub record SubscriptionReceipt : Type 0 where
  pub id : ℕ
  pub user : ℕ
  pub provider : Text
  pub product_id : Text
  pub purchase_token_hash : ℕ
  pub period_start : ℕ
  pub period_end : ℕ
  pub state : SubscriptionState
  pub verified_at : ℕ

-- A row of monetization_referral_codes.
pub record ReferralCode : Type 0 where
  pub user : ℕ
  pub code : Text

-- A row of monetization_referrals.
pub record Referral : Type 0 where
  pub invitee : ℕ
  pub inviter : ℕ
  pub referral_code : Text
  pub accepted_at : ℕ
  pub qualifying_deadline : ℕ
  pub qualified_at : Option ℕ
  pub qualifying_receipt : Option ℕ

-- A row of monetization_referral_milestone_awards.
pub record Award : Type 0 where
  pub inviter : ℕ
  pub milestone : ℕ
  pub triggering_invitee : ℕ
  pub inviter_reward_days : ℕ
  pub invitee_reward_days : ℕ

pub record Money : Type 0 where
  pub grants : List Grant
  pub progress : List Progress
  pub rewarded_receipts : List RewardedReceipt
  pub subscription_receipts : List SubscriptionReceipt
  pub codes : List ReferralCode
  pub referrals : List Referral
  pub awards : List Award

abbrev pub empty_money : Money
empty_money = record {
  grants = [];
  progress = [];
  rewarded_receipts = [];
  subscription_receipts = [];
  codes = [];
  referrals = [];
  awards = [];
}

abbrev pub is_grant : Source → SourceKey → Grant → Bool
is_grant s k g = source_eq g.source s && key_eq g.source_key k

-- INSERT INTO premium_grants, with CHECK (ends_at > starts_at) and UNIQUE (source, source_key)
unfoldable pub insert_grant : Grant → List Grant → Result (List Grant)
insert_grant g gs = do
  fail_if (leb g.ends_at g.starts_at) database_error
  fail_if (any (is_grant g.source g.source_key) gs) database_error
  ok (g ∷ gs)

abbrev pub is_set {ℓ} : {A : Type ℓ} → Option A → Bool
is_set none = false
is_set (some a) = true
