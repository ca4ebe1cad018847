-- ===== src/Notification/Decide.antt =====
-- backend/internal/notification/model.go and decide.go. Times are nanoseconds; the conversion of `now`
-- into the user's location is the time package's, so the local minute of the day is a part of the
-- input. A zero time and a nil time are `none`. A count that is not positive is 0.
use qweqwe.Base.{
  ℕ, ◌+◌, ◌*◌, Bool, true, false, not, ◌&&◌, ◌||◌, Option, none, some, ◌==◌, leb, ltb,
  if◌then◌else◌,
}

-- `Type`; `unknown` is any other text.
pub data Kind : Type 0 where
  message event event_recommendation event_reminder friend_request friend_accepted : Kind
  system security account promo advertisement unknown : Kind

pub data Category : Type 0 where
  social event_category recommendation promo_category critical : Category

-- `Type.Category`
unfoldable pub category : Kind → Category
category message = social
category friend_request = social
category friend_accepted = social
category event = event_category
category event_reminder = event_category
category event_recommendation = recommendation
category promo = promo_category
category advertisement = promo_category
category security = critical
category account = critical
category system = critical
category unknown = critical

-- `FrequencyCapped`
abbrev capped : Category → Bool
capped recommendation = true
capped promo_category = true
capped _ = false

unfoldable pub frequency_capped : Kind → Bool
frequency_capped k = capped (category k)

abbrev is_critical : Category → Bool
is_critical critical = true
is_critical _ = false

-- `QuietHoursExempt`
unfoldable pub quiet_hours_exempt : Kind → Bool
quiet_hours_exempt k = is_critical (category k)

-- `Groupable`
unfoldable pub groupable : Kind → Bool
groupable message = true
groupable event = true
groupable _ = false

pub record Preferences : Type 0 where
  pub social_enabled : Bool
  pub event_enabled : Bool
  pub recommendation_enabled : Bool
  pub promo_enabled : Bool
  pub quiet_hours_start_minute : ℕ
  pub quiet_hours_end_minute : ℕ

-- `DefaultPreferences`
abbrev pub default_preferences : Preferences
default_preferences = record {
  social_enabled = true;
  event_enabled = true;
  recommendation_enabled = true;
  promo_enabled = true;
  quiet_hours_start_minute = 23 * 60;
  quiet_hours_end_minute = 8 * 60;
}

-- `categoryEnabled`
unfoldable pub category_enabled : Preferences → Category → Bool
category_enabled p social = p.social_enabled
category_enabled p event_category = p.event_enabled
category_enabled p recommendation = p.recommendation_enabled
category_enabled p promo_category = p.promo_enabled
category_enabled p critical = true

-- The window of `InQuietHours`.
unfoldable pub in_window : (start end minute : ℕ) → Bool
in_window start end minute =
    if start == end
    then false
    else if ltb start end
    then leb start minute && ltb minute end
    else leb start minute || ltb minute end

-- `InQuietHours`
unfoldable pub in_quiet_hours : Preferences → ℕ → Bool
in_quiet_hours p minute = in_window p.quiet_hours_start_minute p.quiet_hours_end_minute minute

-- `PushOutcome`; `deliver` is the empty text.
pub data Outcome : Type 0 where
  deliver expired suppressed_preference suppressed_quiet_hours : Outcome
  suppressed_frequency_cap suppressed_grouped : Outcome

pub record DecisionInput : Type 0 where
  pub kind : Kind
  pub now : ℕ
  pub local_minute : ℕ
  pub expires_at : Option ℕ
  pub preferences : Preferences
  pub recent_frequency_capped_count : ℕ
  pub frequency_cap_max : ℕ
  pub last_group_anchor_at : Option ℕ
  pub group_window : ℕ

abbrev pub is_past : Option ℕ → ℕ → Bool
is_past none now = false
is_past (some t) now = leb t now

abbrev pub in_burst : Option ℕ → ℕ → ℕ → Bool
in_burst none window now = false
in_burst (some anchor) window now = ltb now (anchor + window)

-- `Decide`
unfoldable pub decide : DecisionInput → Outcome
decide i =
    if is_past i.expires_at i.now
    then expired
    else if not (category_enabled i.preferences (category i.kind))
    then suppressed_preference
    else if not (quiet_hours_exempt i.kind) && in_quiet_hours i.preferences i.local_minute
    then suppressed_quiet_hours
    else if frequency_capped i.kind
        && ltb 0 i.frequency_cap_max
        && leb i.frequency_cap_max i.recent_frequency_capped_count
    then suppressed_frequency_cap
    else if groupable i.kind
        && ltb 0 i.group_window
        && in_burst i.last_group_anchor_at i.group_window i.now
    then suppressed_grouped
    else deliver
