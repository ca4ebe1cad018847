-- ===== src/Monetization/Quest.antt =====
-- What a rewarded quest is: a record of the accepted views, independent of the counters that the code keeps.
use qweqwe.Base.{
  ℕ, ◌+◌, ◌≤◌, ◌<◌, ◌≡◌, Bool, true, ◌&&◌, some, List, [], ◌∷◌, arith, ◌==◌, any, find, All, ◌⊎◌,
}
use qweqwe.Monetization.Model.{Grant, RewardedReceipt, Progress, rewarded, source_eq}
use qweqwe.Monetization.Rewarded.{QuestClocks, is_progress}

abbrev pub is_view : (u t : ℕ) → RewardedReceipt → Bool
is_view u t r = r.user == u && r.watched_at == t

module _ (c : QuestClocks) where
  -- `Quest rs u n q l`: n accepted views of the user in one quest, the first at q and the last at l, each with its
  -- receipt, at least the interval apart, and each within the window that opens at q.
  pub data Quest (rs : List RewardedReceipt) (u : ℕ) : (n q l : ℕ) → Type 0 where
    opened : (t : ℕ) → any (is_view u t) rs ≡ true → Quest rs u 1 t t
    viewed :
        (n q l t : ℕ)
        → Quest rs u n q l
        → l + c.min_interval ≤ t
        → t < q + c.quest_window
        → any (is_view u t) rs ≡ true
        → Quest rs u (n + 1) q t

  -- More receipts do no harm.
  pub Quest-keep :
      (r : RewardedReceipt) (rs : List RewardedReceipt) (u n q l : ℕ)
      → Quest rs u n q l
      → Quest (r ∷ rs) u n q l
  Quest-keep r rs u _ _ _ (opened t h) = opened t (ground arith)
  Quest-keep r rs u _ _ _ (viewed n q l t s gap inside h) =
      viewed n q l t (Quest-keep r rs u n q l s) gap inside (ground arith)

  -- A grant that a quest of five views ends in.
  abbrev pub IsJustified : List RewardedReceipt → Grant → Type 0
  IsJustified rs g =
      (q : ℕ) × Quest rs g.user 5 q g.starts_at × (g.ends_at ≡ g.starts_at + c.grant_duration)

  -- The newest first: one user's grants start at least the cooldown apart.
  abbrev pub IsApart : Grant → Grant → Type 0
  IsApart g h = (h.user == g.user) ≡ true → h.starts_at + c.cooldown ≤ g.starts_at

  abbrev pub AllApart : List Grant → Type 0
  AllApart [] = Unit {0}
  AllApart (g ∷ gs) = All (IsApart g) gs × AllApart gs

  -- What a user's counters stand for.
  abbrev pub IsCounted : List RewardedReceipt → Progress → Type 0
  IsCounted rs p =
      (p.videos_watched_count < 5)
      × ((p.videos_watched_count ≡ 0)
          ⊎ ((q : ℕ) × (l : ℕ) × (p.quest_started_at ≡ some q)
              × (p.last_video_watched_at ≡ some l)
              × Quest rs p.user p.videos_watched_count q l))

abbrev pub is_rewarded : Grant → Bool
is_rewarded g = source_eq g.source rewarded

-- The user's last claim is no earlier than the grant.
abbrev pub IsClaimed : List Progress → Grant → Type 0
IsClaimed ps g =
    (p : Progress) × (t : ℕ) × (find (is_progress g.user) ps ≡ some p)
    × (p.last_free_premium_claimed_at ≡ some t)
    × (g.starts_at ≤ t)
