-- ===== src/Monetization/Promises.antt =====
-- What the status of `Snapshot` promises the client.
use qweqwe.Base.{
  length, ℕ, ◌+◌, ◌≤◌, ◌<◌, ◌≡◌, refl, sym, ap, ◌∙◌, true, false, Option, none, some, List, ◌∷◌,
  arith, leb, any, find, update, ◌⊎◌, All, ok, Bool-cases, Option-cases, inl, inr, any-find,
  any_found, >>=-eq-ok, ok-injective,
}
use qweqwe.Monetization.Model.{
  violates_provider_check, Money, Progress, RewardedReceipt, ReferralMilestone, is_grant, rewarded,
  grant_key, insert_grant, rewarded_grant_duration, rewarded_min_interval, rewarded_claim_cooldown,
  is_set,
}
use qweqwe.Monetization.Rewarded.{
  View, is_receipt, is_progress, is_within, ensure_progress, new_progress, continuing_quest,
  new_count, record_rewarded_view, watch, advance_quest, seen_receipt, rewarded_grant, claimed,
  advanced, new_quest_started,
}
use qweqwe.Monetization.Referral.{
  first_above, next_milestone, referral_milestones, ensure_referral_code,
}
use qweqwe.Monetization.Service.{
  Outside, Status, quest_clocks, snapshot, is_after, nullable, store_status, column, status_of,
  referral_code_for_user,
}
use qweqwe.Monetization.Quest.{IsCounted}
use qweqwe.Monetization.Awards.{insert_fresh}
use qweqwe.Monetization.Earned.{IsEarned}

-- s is the lowest milestone above n.
abbrev pub IsLeastAbove : (n : ℕ) → List ReferralMilestone → Option ReferralMilestone → Type 0
IsLeastAbove n ss none = All (λ r. r.qualified_referrals ≤ n) ss
IsLeastAbove n ss (some s) =
    (n < s.qualified_referrals)
    × All (λ r. n < r.qualified_referrals → s.qualified_referrals ≤ r.qualified_referrals) ss

-- `nextMilestone` gives the lowest milestone above the number of qualified referrals, and none when
-- that number has reached all.
pub next_milestone-IsLeastAbove : (n : ℕ) → IsLeastAbove n referral_milestones (next_milestone n)
unfolding first_above
next_milestone-IsLeastAbove n = ground arith

counted_started :
    (p : Progress) {rs : List RewardedReceipt}
    → IsCounted quest_clocks rs p
    → (p.videos_watched_count ≡ 0) ⊎ (is_set p.last_video_watched_at ≡ true)
counted_started p h = elim h.1 [ inl zero ↦ inl zero | inr w ↦ inr (ground (arith, w.3)) ]

module _ (id now : ℕ) (v : View) (m : Money)
    (unused : any (is_grant rewarded (grant_key id)) m.grants ≡ false) where
  inserted :
      (u : ℕ)
      → insert_grant (rewarded_grant u id now rewarded_grant_duration) m.grants
        ≡ ok (rewarded_grant u id now rewarded_grant_duration ∷ m.grants)
  inserted u =
      insert_fresh (rewarded_grant u id now rewarded_grant_duration) m.grants (ground arith) unused

  advances :
      (p : Progress) (n : Money)
      → n.grants ≡ m.grants
      → (t : Money) × (advance_quest quest_clocks id now p n ≡ ok t)
  unfolding advance_quest
  advances p n same = elim (Bool-cases (leb 5 (new_count quest_clocks now p))) [
    | inl last ↦ (
      record n {
        grants = rewarded_grant p.user id now rewarded_grant_duration ∷ m.grants;
        progress = update (is_progress p.user) (claimed now) n.progress;
      },
      rw (last, same, inserted p.user, advance_quest) refl,
    )
    | inr more ↦ (
      record n {
        progress =
            update (is_progress p.user)
              (advanced (new_count quest_clocks now p) (new_quest_started quest_clocks now p) now)
              n.progress;
      },
      rw (more, advance_quest) refl,
    )
  ]

  watches_on :
      (p : Progress) (n : Money)
      → n.grants ≡ m.grants
      → is_within p.last_free_premium_claimed_at rewarded_claim_cooldown now ≡ false
      → is_within p.last_video_watched_at rewarded_min_interval now ≡ false
      → (p.videos_watched_count ≡ 0) ⊎ (is_set p.last_video_watched_at ≡ true)
      → (t : Money) × (watch quest_clocks id now p n ≡ ok t)
  unfolding watch continuing_quest
  watches_on p n same cooled spaced started =
      let a = advances p n same in (a.0, ground (arith, a.1, cooled, spaced, started))

  -- Past both clocks of the user's row, a view that is not recorded yet is.
  view_accepted :
      IsEarned quest_clocks m
      → violates_provider_check v.provider ≡ false
      → any (is_receipt v) m.rewarded_receipts ≡ false
      → is_within
          (nullable (λ p. p.last_free_premium_claimed_at) (find (is_progress v.user) m.progress))
          rewarded_claim_cooldown
          now
        ≡ false
      → is_within
          (nullable (λ p. p.last_video_watched_at) (find (is_progress v.user) m.progress))
          rewarded_min_interval
          now
        ≡ false
      → (t : Money) × (record_rewarded_view quest_clocks id now v m ≡ ok t)
  unfolding record_rewarded_view ensure_progress
  view_accepted e named fresh cooled spaced =
      elim (Option-cases (find (is_progress v.user) m.progress)) [
        | inl absent ↦
            (let a =
                watches_on (new_progress v.user)
                  (record m {
                    rewarded_receipts = seen_receipt v now ∷ m.rewarded_receipts;
                    progress = new_progress v.user ∷ m.progress;
                  })
                  refl refl refl (inl refl) in
              (
                a.0,
                ground (arith, a.1, named, fresh, any-find (is_progress v.user) m.progress absent),
              ))
        | inr w ↦
            (let a =
                watches_on (w.0)
                  (record m { rewarded_receipts = seen_receipt v now ∷ m.rewarded_receipts }) refl
                  (ground (arith, cooled, w.1)) (ground (arith, spaced, w.1))
                  (counted_started (w.0) (e.counted v.user (w.0) (w.1))) in
              (
                a.0,
                ground (
                  arith,
                  a.1,
                  named,
                  fresh,
                  w.1,
                  any_found (is_progress v.user) (w.0) m.progress (w.1),
                ),
              ))
      ]

is_after-column :
    (t : Option ℕ) (d now : ℕ) → is_after (column (λ x. x + d) t) now ≡ is_within t d now
is_after-column none d now = refl
is_after-column (some t) d now = refl

-- The status that the service gave a user holds good: with a verified view of that user that is not recorded yet, of a
-- provider whose name has 2 to 64 characters, and a fresh grant id, once neither the next video nor the next claim of the status lies in the future, the view is recorded.
pub snapshot_promise :
    (o : Outside) (read id now : ℕ) (v : View) (m : Money) (s : Status)
    → IsEarned quest_clocks m
    → (snapshot o read v.user m).0 ≡ ok s
    → any (is_grant rewarded (grant_key id)) m.grants ≡ false
    → 2 ≤ length v.provider
    → length v.provider ≤ 64
    → any (is_receipt v) m.rewarded_receipts ≡ false
    → is_after s.next_video_at now ≡ false
    → is_after s.next_free_premium_claim_at now ≡ false
    → (t : Money) × (record_rewarded_view quest_clocks id now v m ≡ ok t)
unfolding snapshot store_status ensure_referral_code
snapshot_promise o read id now v m s e given unused two sixty_four fresh video claim =
    let got =
      >>=-eq-ok ((ensure_referral_code v.user (referral_code_for_user o v.user) m).0)
        (λ code. ok (
          status_of read code (
            store_status v.user
              (ensure_referral_code v.user (referral_code_for_user o v.user) m).1)))
        given in
    let shown = ok-injective _ s (got.2) in
    view_accepted id now v m unused e (ground arith) fresh
      (sym (is_after-column _ rewarded_claim_cooldown now)
        ∙ (ap (λ x. is_after x.next_free_premium_claim_at now) shown ∙ claim))
      (sym (is_after-column _ rewarded_min_interval now)
        ∙ (ap (λ x. is_after x.next_video_at now) shown ∙ video))
