-- ===== src/Notification/Tests.antt =====
-- The default quiet hours, and a security notice at night.
use qweqwe.Base.{◌≡◌, refl, true, not, some, arith, ltb}
use qweqwe.Notification.Decide.{
  security, default_preferences, category, in_window, in_quiet_hours, DecisionInput, deliver,
  decide,
}
use qweqwe.Notification.Gates.{minutes_after, in_window_iff, in_window_swap, decide_critical}

midnight_is_quiet : in_quiet_hours default_preferences 0 ≡ true
unfolding in_quiet_hours in_window
midnight_is_quiet = refl

in_window_iff_example : in_window 1380 480 30 ≡ ltb (minutes_after 1380 30) (minutes_after 1380 480)
in_window_iff_example = in_window_iff 1380 480 30 (omega arith) (omega arith) (omega arith)

in_window_swap_example : in_window 480 1380 30 ≡ not (in_window 1380 480 30)
in_window_swap_example = in_window_swap 1380 480 30 refl

abbrev at_night : DecisionInput
at_night = record {
  kind = security;
  now = 1000;
  local_minute = 30;
  expires_at = some 2000;
  preferences = default_preferences;
  recent_frequency_capped_count = 5;
  frequency_cap_max = 3;
  last_group_anchor_at = some 999;
  group_window = 60;
}

decide_critical_example : decide at_night ≡ deliver
unfolding category
decide_critical_example = decide_critical at_night refl
