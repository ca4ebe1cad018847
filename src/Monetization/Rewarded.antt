-- ===== src/Monetization/Rewarded.antt =====
-- `RecordRewardedView` of backend/internal/postgres/monetization_store.go.
use qweqwe.Base.{
  ℕ, ◌+◌, Bool, false, ◌&&◌, ◌||◌, not, Option, none, some, List, ◌∷◌, Result, ok, or_fail, fail_if,
  ◌>>=◌, ◌>>◌, ◌==◌, ltb, leb, if◌then◌else◌, any, find, update, database_error, rewarded_too_soon,
  rewarded_cooldown_active,
}
use qweqwe.Monetization.Model.{
  Text, text_eq, Grant, RewardedReceipt, Progress, Money, insert_grant, rewarded, grant_key, is_set,
  rewarded_videos_required, violates_provider_check,
}

-- The ad network's view, and the four clocks that the service passes.
pub record View : Type 0 where
  pub user : ℕ
  pub provider : Text
  pub receipt_hash : ℕ

pub record QuestClocks : Type 0 where
  pub min_interval : ℕ
  pub quest_window : ℕ
  pub grant_duration : ℕ
  pub cooldown : ℕ

abbrev pub is_receipt : View → RewardedReceipt → Bool
is_receipt v r = r.receipt_hash == v.receipt_hash && text_eq r.provider v.provider

abbrev pub is_progress : ℕ → Progress → Bool
is_progress u p = p.user == u

abbrev pub new_progress : ℕ → Progress
new_progress u = record {
  user = u;
  videos_watched_count = 0;
  quest_started_at = none;
  last_video_watched_at = none;
  last_free_premium_claimed_at = none;
}

-- INSERT INTO monetization_rewarded_progress … ON CONFLICT DO NOTHING
unfoldable pub ensure_progress : ℕ → List Progress → List Progress
ensure_progress u ps = if any (is_progress u) ps then ps else new_progress u ∷ ps

-- `now.Before(t.Add(d))`, false for a NULL t
abbrev pub is_within : Option ℕ → (d now : ℕ) → Bool
is_within none d now = false
is_within (some t) d now = ltb now (t + d)

abbrev pub or_now : Option ℕ → ℕ → ℕ
or_now none now = now
or_now (some t) now = t

-- `continuingQuest`
unfoldable pub continuing_quest : QuestClocks → ℕ → Progress → Bool
continuing_quest c now p =
    ltb 0 p.videos_watched_count && is_within p.quest_started_at c.quest_window now

-- The progress after the view, and whether the quest is done.
unfoldable pub new_count : QuestClocks → ℕ → Progress → ℕ
new_count c now p = if continuing_quest c now p then p.videos_watched_count + 1 else 1

unfoldable pub new_quest_started : QuestClocks → ℕ → Progress → ℕ
new_quest_started c now p = if continuing_quest c now p then or_now p.quest_started_at now else now

abbrev pub claimed : ℕ → Progress → Progress
claimed now p = record p {
  videos_watched_count = 0;
  quest_started_at = none;
  last_video_watched_at = some now;
  last_free_premium_claimed_at = some now;
}

abbrev pub advanced : (count started now : ℕ) → Progress → Progress
advanced n q now p = record p {
  videos_watched_count = n;
  quest_started_at = some q;
  last_video_watched_at = some now;
}

abbrev pub rewarded_grant : (u id now duration : ℕ) → Grant
rewarded_grant u id now d = record {
  user = u;
  source = rewarded;
  source_key = grant_key id;
  starts_at = now;
  ends_at = now + d;
}

abbrev pub seen_receipt : View → ℕ → RewardedReceipt
seen_receipt v now = record {
  user = v.user;
  provider = v.provider;
  receipt_hash = v.receipt_hash;
  watched_at = now;
}

-- The UPDATE, after the grant when the view is the last one required.
unfoldable pub advance_quest : QuestClocks → (grant_id now : ℕ) → Progress → Money → Result Money
advance_quest c grant_id now p m =
    if leb rewarded_videos_required (new_count c now p)
    then (do
      gs ← insert_grant (rewarded_grant p.user grant_id now c.grant_duration) m.grants
      ok (record m {
        grants = gs;
        progress = update (is_progress p.user) (claimed now) m.progress;
      }))
    else ok (record m {
      progress =
          update (is_progress p.user) (advanced (new_count c now p) (new_quest_started c now p) now)
            m.progress;
    })

-- The guards, on the user's row.
unfoldable pub watch : QuestClocks → (grant_id now : ℕ) → Progress → Money → Result Money
watch c grant_id now p m = do
  fail_if (is_within p.last_free_premium_claimed_at c.cooldown now) rewarded_cooldown_active
  fail_if
      (continuing_quest c now p
        && (not (is_set p.last_video_watched_at)
            || is_within p.last_video_watched_at c.min_interval now))
      rewarded_too_soon
  advance_quest c grant_id now p m

-- `RecordRewardedView`; an error rolls everything back, the receipt included. A receipt that is there has passed the
-- CHECK on its provider.
unfoldable pub record_rewarded_view : QuestClocks → (grant_id now : ℕ) → View → Money → Result Money
record_rewarded_view c grant_id now v m =
    if any (is_receipt v) m.rewarded_receipts then ok m else (do
      fail_if (violates_provider_check v.provider) database_error
      let ps = ensure_progress v.user m.progress
      p ← or_fail (find (is_progress v.user) ps) database_error
      watch c grant_id now p (record m {
        rewarded_receipts = seen_receipt v now ∷ m.rewarded_receipts;
        progress = ps;
      }))
