-- ===== src/Monetization/Earned.antt =====
-- `RecordRewardedView` keeps every grant of the quest earned.
use qweqwe.Base.{
  guard-Ensures, ℕ, ◌+◌, ◌≤◌, ◌<◌, ◌≡◌, refl, sym, ap, ◌∙◌, true, false, some, List, [], ◌∷◌, arith,
  ◌==◌, leb, any, find, select, update, All, inl, inr, Ensures, Bool-cases, ◌⊎◌, Option-cases,
  find-holds, find-any, All-weaken, guard-Ensures,
}
use qweqwe.Monetization.Model.{
  violates_provider_check, Grant, RewardedReceipt, Progress, Money, insert_grant,
}
use qweqwe.Monetization.Rewarded.{
  QuestClocks, View, is_progress, new_progress, ensure_progress, is_within, continuing_quest,
  new_count, new_quest_started, claimed, advanced, rewarded_grant, seen_receipt, advance_quest,
  watch, record_rewarded_view, is_receipt,
}
use qweqwe.Monetization.Quest.{
  Quest, Quest-keep, IsJustified, AllApart, IsApart, IsCounted, IsClaimed, is_rewarded, is_view,
}
use qweqwe.Monetization.Counters.{
  view-Quest, IsCounted-keep, find-same, found-same, update-counted, update-IsClaimed,
}

pub record IsEarned (c : QuestClocks) (m : Money) : Type 0 where
  pub justified : All (IsJustified c m.rewarded_receipts) (select is_rewarded m.grants)
  pub apart : AllApart c (select is_rewarded m.grants)
  pub counted :
      (u : ℕ) (p : Progress)
      → find (is_progress u) m.progress ≡ some p
      → IsCounted c m.rewarded_receipts p
  pub claims : All (IsClaimed m.progress) (select is_rewarded m.grants)

-- The row is there, and the others are as they were.
find-ensure :
    (u v : ℕ) (p : Progress) (ps : List Progress)
    → find (is_progress v) (ensure_progress u ps) ≡ some p
    → (find (is_progress v) ps ≡ some p) ⊎ (p ≡ new_progress u)
unfolding ensure_progress
find-ensure u v p ps h = elim (Bool-cases (any (is_progress u) ps)) [
  | inl there ↦ ground arith
  | inr absent ↦ elim (Bool-cases (u == v)) [
    | inl same ↦ inr (ground arith)
    | inr other ↦ inl (ground arith)
  ]
]

find-ensure_kept :
    (u v : ℕ) (p : Progress) (ps : List Progress)
    → find (is_progress v) ps ≡ some p
    → find (is_progress v) (ensure_progress u ps) ≡ some p
unfolding ensure_progress
find-ensure_kept u v p ps h = elim (Bool-cases (any (is_progress u) ps)) [
  | inl there ↦ ground arith
  | inr absent ↦ elim (Bool-cases (u == v)) [
    | inl same ↦
        ground (arith, find-any (is_progress v) ps, absent, same, find-any (is_progress u) ps)
    | inr other ↦ ground arith
  ]
]

receipt-IsEarned :
    (c : QuestClocks) (r : RewardedReceipt) (u : ℕ) (m : Money)
    → IsEarned c m
    → IsEarned c (record m {
      rewarded_receipts = r ∷ m.rewarded_receipts;
      progress = ensure_progress u m.progress;
    })
receipt-IsEarned c r u m e = record {
  justified =
      All-weaken (IsJustified c m.rewarded_receipts) (IsJustified c (r ∷ m.rewarded_receipts))
        (λ g h. (h.0, Quest-keep c r m.rewarded_receipts g.user 5 h.0 g.starts_at h.1, h.2))
        (select is_rewarded m.grants) e.justified;
  apart = e.apart;
  counted = λ v p h. elim (find-ensure u v p m.progress h) [
    | inl old ↦ IsCounted-keep c r m.rewarded_receipts p (e.counted v p old)
    | inr new ↦ rw (new) (ground arith, inl refl)
  ];
  claims =
      All-weaken (IsClaimed m.progress) (IsClaimed (ensure_progress u m.progress))
        (λ g h. (h.0, h.1, find-ensure_kept u g.user h.0 m.progress h.2, h.3, h.4))
        (select is_rewarded m.grants) e.claims;
}

-- A grant at the end of a quest, after the cooldown.
module _ (c : QuestClocks) (now : ℕ) (p : Progress) (m : Money) (e : IsEarned c m)
    (found : find (is_progress p.user) m.progress ≡ some p)
    (seen : any (is_view p.user now) m.rewarded_receipts ≡ true)
    (cooled : is_within p.last_free_premium_claimed_at c.cooldown now ≡ false)
    (gap : continuing_quest c now p ≡ true
      → is_within p.last_video_watched_at c.min_interval now ≡ false) where
  quest_now : Quest c m.rewarded_receipts p.user (new_count c now p) (new_quest_started c now p) now
  quest_now = view-Quest c m.rewarded_receipts now p (e.counted p.user p found) seen gap

  new_count-lt : new_count c now p < 6
  unfolding new_count continuing_quest
  new_count-lt = ground (arith, (e.counted p.user p found).0)

  five : leb 5 (new_count c now p) ≡ true → new_count c now p ≡ 5
  five last = ground (arith, new_count-lt)

  own_progress :
      (v : ℕ) (q : Progress)
      → (v == p.user) ≡ true
      → find (is_progress v) m.progress ≡ some q
      → p ≡ q
  own_progress v q same h = cc (h, found-same p.user (λ r. r) (λ r. refl) p m.progress found v same)

  claimed_before :
      (start t : ℕ) → p.last_free_premium_claimed_at ≡ some t → start ≤ t → start + c.cooldown ≤ now
  claimed_before start t last le = ground (arith, cooled)

  -- Every grant before is of another user, or no later than the last claim.
  All-IsApart :
      (id : ℕ) (gs : List Grant)
      → All (IsClaimed m.progress) gs
      → All (IsApart c (rewarded_grant p.user id now c.grant_duration)) gs
  All-IsApart id [] all = tt
  All-IsApart id (g ∷ gs) all = (
    λ same.
        claimed_before g.starts_at all.0.1
          (ap (λ r. r.last_free_premium_claimed_at) (own_progress g.user all.0.0 same all.0.2)
            ∙ all.0.3)
          all.0.4,
    All-IsApart id gs all.1,
  )

  last_view-IsEarned :
      (id : ℕ)
      → leb 5 (new_count c now p) ≡ true
      → IsEarned c (record m {
        grants = rewarded_grant p.user id now c.grant_duration ∷ m.grants;
        progress = update (is_progress p.user) (claimed now) m.progress;
      })
  last_view-IsEarned id last = record {
    justified = ((new_quest_started c now p, rw (sym (five last)) quest_now, refl), e.justified);
    apart = (All-IsApart id (select is_rewarded m.grants) e.claims, e.apart);
    counted =
        update-counted p.user (claimed now) (λ r. refl) p m.progress found
          (IsCounted c m.rewarded_receipts) e.counted (ground arith, inl refl);
    claims = (
      (
        claimed now p,
        now,
        find-same p.user (claimed now) (λ r. refl) p m.progress found p.user (ground arith),
        refl,
        ground arith,
      ),
      All-weaken (IsClaimed m.progress)
          (IsClaimed (update (is_progress p.user) (claimed now) m.progress))
          (update-IsClaimed p.user (claimed now) (λ r. refl) p m.progress found
            (λ t last. (now, refl, omega (arith, claimed_before t t last (omega arith)))))
          (select is_rewarded m.grants) e.claims,
    );
  }

  next_view-IsEarned :
      leb 5 (new_count c now p) ≡ false
      → IsEarned c (record m {
        progress =
            update
              (is_progress p.user)
              (advanced (new_count c now p) (new_quest_started c now p) now)
              m.progress;
      })
  next_view-IsEarned more = record {
    justified = e.justified;
    apart = e.apart;
    counted =
        update-counted p.user step (λ r. refl) p m.progress found (IsCounted c m.rewarded_receipts)
          e.counted
          (ground (arith, more), inr (new_quest_started c now p, now, refl, refl, quest_now));
    claims =
        All-weaken (IsClaimed m.progress) (IsClaimed (update (is_progress p.user) step m.progress))
          (update-IsClaimed p.user step (λ r. refl) p m.progress found
            (λ t last. (t, last, ground arith)))
          (select is_rewarded m.grants) e.claims;
  }
    where
      step : Progress → Progress
      step = advanced (new_count c now p) (new_quest_started c now p) now

  advance_quest-IsEarned : (id : ℕ) → Ensures (IsEarned c) (advance_quest c id now p m)
  unfolding advance_quest insert_grant
  advance_quest-IsEarned id = elim (Bool-cases (leb 5 (new_count c now p))) [
    | inl last ↦ ground (arith, last_view-IsEarned id last)
    | inr more ↦ ground (arith, next_view-IsEarned more)
  ]

watch-IsEarned :
    (c : QuestClocks) (id now : ℕ) (p : Progress) (m : Money)
    → IsEarned c m
    → find (is_progress p.user) m.progress ≡ some p
    → any (is_view p.user now) m.rewarded_receipts ≡ true
    → Ensures (IsEarned c) (watch c id now p m)
unfolding watch
watch-IsEarned c id now p m e found seen = guard-Ensures (IsEarned c) _ _ _ (λ cooled.
    guard-Ensures (IsEarned c) _ _ _
      (λ spaced. advance_quest-IsEarned c now p m e found seen cooled (λ h. ground arith) id))

seen-IsEarned :
    (c : QuestClocks) (id now : ℕ) (v : View) (m : Money)
    → IsEarned c m
    → (p : Progress) → find (is_progress v.user) (ensure_progress v.user m.progress) ≡ some p
    → Ensures (IsEarned c) (
        watch c id now p (record m {
          rewarded_receipts = seen_receipt v now ∷ m.rewarded_receipts;
          progress = ensure_progress v.user m.progress;
        }))
seen-IsEarned c id now v m e p found =
    let own = find-holds (is_progress v.user) p (ensure_progress v.user m.progress) found in
    watch-IsEarned c id now p _ (receipt-IsEarned c (seen_receipt v now) v.user m e)
      (ap (λ x. find (is_progress x) (ensure_progress v.user m.progress)) (ground (arith, own))
        ∙ found)
      (ground (arith, own))

-- A verified view keeps all grants earned.
pub record_rewarded_view-IsEarned :
    (c : QuestClocks) (id now : ℕ) (v : View) (m : Money)
    → IsEarned c m
    → Ensures (IsEarned c) (record_rewarded_view c id now v m)
unfolding record_rewarded_view
record_rewarded_view-IsEarned c id now v m e =
    elim (Bool-cases (any (is_receipt v) m.rewarded_receipts)) [
      | inl replay ↦ ground arith
      | inr fresh ↦ rw fresh (
          guard-Ensures (IsEarned c) (violates_provider_check v.provider) _ _ λ checked.
            elim (Option-cases (find (is_progress v.user) (ensure_progress v.user m.progress))) [
              | inl none_found ↦ rw none_found tt
              | inr w ↦ rw (w.1) (seen-IsEarned c id now v m e w.0 w.1)
            ])
    ]
