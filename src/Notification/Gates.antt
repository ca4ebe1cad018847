-- ===== src/Notification/Gates.antt =====
-- What the gates of `Decide` let through.
use qweqwe.Base.{ℕ, ◌+◌, ◌-◌, ◌%◌, ◌≡◌, ◌<◌, true, false, not, arith, ◌==◌, ltb}
use qweqwe.Notification.Decide.{
  critical, category, frequency_capped, quiet_hours_exempt, groupable, category_enabled, in_window,
  deliver, expired, DecisionInput, is_past, decide,
}

-- How many minutes after `start` the minute comes round, on a clock of 1440 minutes.
abbrev pub minutes_after : ℕ → ℕ → ℕ
minutes_after start minute = (minute + 1440 - start) % 1440

-- Quiet hours are one arc of the clock: a minute of the day is in them if and only if it comes round
-- after the start sooner than the end does.
pub in_window_iff :
    (start end minute : ℕ)
    → start < 1440
    → end < 1440
    → minute < 1440
    → in_window start end minute ≡ ltb (minutes_after start minute) (minutes_after start end)
unfolding in_window
in_window_iff start end minute hs he hm = ground arith

-- The hours from `end` to `start` are all the others, unless the two are the same minute.
pub in_window_swap :
    (start end minute : ℕ)
    → (start == end) ≡ false
    → in_window end start minute ≡ not (in_window start end minute)
unfolding in_window
in_window_swap start end minute apart = ground arith

-- A notification of the critical category is delivered or, past its TTL, dropped as expired, whatever
-- the preferences, the hour, the caps and the groups are.
pub decide_critical :
    (i : DecisionInput)
    → category i.kind ≡ critical
    → decide i ≡ elim (is_past i.expires_at i.now) [ true ↦ expired | false ↦ deliver ]
unfolding decide category_enabled quiet_hours_exempt frequency_capped groupable category
decide_critical i e = ground arith
