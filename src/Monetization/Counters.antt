-- ===== src/Monetization/Counters.antt =====
-- What a view does to the progress rows, under `RecordRewardedView`.
use qweqwe.Base.{
  ℕ, ◌≤◌, ◌≡◌, ap, ◌∙◌, true, false, some, List, ◌∷◌, arith, ◌==◌, any, find, update, inl, inr,
  Bool-cases, find-update, find_updated,
}
use qweqwe.Monetization.Model.{Grant, RewardedReceipt, Progress}
use qweqwe.Monetization.Rewarded.{
  QuestClocks, is_progress, is_within, continuing_quest, new_count, new_quest_started,
}
use qweqwe.Monetization.Quest.{Quest, opened, viewed, Quest-keep, IsCounted, IsClaimed, is_view}

-- The counters after the view are those of the quest it belongs to.
pub view-Quest :
    (c : QuestClocks) (rs : List RewardedReceipt) (now : ℕ) (p : Progress)
    → IsCounted c rs p
    → any (is_view p.user now) rs ≡ true
    → (continuing_quest c now p ≡ true
        → is_within p.last_video_watched_at c.min_interval now ≡ false)
    → Quest c rs p.user (new_count c now p) (new_quest_started c now p) now
unfolding continuing_quest new_count new_quest_started
view-Quest c rs now p counted seen gap = elim (Bool-cases (continuing_quest c now p)) [
  | inl h ↦ elim counted.1 [
    | inl zero ↦ ground arith
    | inr w ↦
        rw (h, new_count, new_quest_started, w.2)
          (viewed p.videos_watched_count w.0 w.1 now w.4 (ground (arith, gap h, w.3))
            (ground (arith, h, w.2)) seen)
  ]
  | inr h ↦ rw (h, new_count, new_quest_started) (opened now seen)
]

pub IsCounted-keep :
    (c : QuestClocks) (r : RewardedReceipt) (rs : List RewardedReceipt) (p : Progress)
    → IsCounted c rs p
    → IsCounted c (r ∷ rs) p
IsCounted-keep c r rs p h = elim h.1 [
  | inl zero ↦ (h.0, inl zero)
  | inr w ↦
      (h.0, inr (w.0, w.1, w.2, w.3, Quest-keep c r rs p.user p.videos_watched_count w.0 w.1 w.4))
]

-- One user's row is changed, the others' are not.
module _ (u : ℕ) (f : Progress → Progress) (same_user : (p : Progress) → (f p).user ≡ p.user)
    (p : Progress) (ps : List Progress) (found : find (is_progress u) ps ≡ some p) where
  find-own : find (is_progress u) (update (is_progress u) f ps) ≡ some (f p)
  find-own = find_updated (is_progress u) f (λ r h. ground (arith, same_user r)) p ps found

  pub find-same :
      (v : ℕ) → (v == u) ≡ true → find (is_progress v) (update (is_progress u) f ps) ≡ some (f p)
  find-same v same =
      ap (λ x. find (is_progress x) (update (is_progress u) f ps)) (ground arith) ∙ find-own

  pub found-same : (v : ℕ) → (v == u) ≡ true → find (is_progress v) ps ≡ some p
  found-same v same = ap (λ x. find (is_progress x) ps) (ground arith) ∙ found

  pub find-other :
      (v : ℕ)
      → (v == u) ≡ false
      → find (is_progress v) (update (is_progress u) f ps) ≡ find (is_progress v) ps
  find-other v other =
      find-update (is_progress u) (is_progress v) f (λ r h. ground arith)
        (λ r h. ground (arith, same_user r)) ps

  own_row :
      (v : ℕ) (r : Progress)
      → (v == u) ≡ true
      → find (is_progress v) (update (is_progress u) f ps) ≡ some r
      → r ≡ f p
  own_row v r same e = cc (e, find-same v same)

  pub update-counted :
      (P : Progress → Type 0)
      → ((v : ℕ) (r : Progress) → find (is_progress v) ps ≡ some r → P r)
      → P (f p)
      → (v : ℕ) (r : Progress) → find (is_progress v) (update (is_progress u) f ps) ≡ some r
      → P r
  update-counted P all own v r e = elim (Bool-cases (v == u)) [
    | inl same ↦ rw (own_row v r same e) own
    | inr other ↦ all v r (cc (e, find-other v other))
  ]

  pub update-IsClaimed :
      ((t : ℕ)
        → p.last_free_premium_claimed_at ≡ some t
        → (s : ℕ) × ((f p).last_free_premium_claimed_at ≡ some s) × (t ≤ s))
      → (g : Grant) → IsClaimed ps g
      → IsClaimed (update (is_progress u) f ps) g
  update-IsClaimed later g k = elim (Bool-cases (g.user == u)) [
    | inl same ↦
        (let s = later k.1 (cc (k.2, k.3, found-same g.user same)) in
          (f p, s.0, find-same g.user same, s.1, omega (arith, k.4, s.2)))
    | inr other ↦ (k.0, k.1, cc (find-other g.user other, k.2), k.3, k.4)
  ]
