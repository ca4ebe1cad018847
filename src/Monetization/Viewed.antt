-- ===== src/Monetization/Viewed.antt =====
-- `RecordRewardedView` leaves the referrals, the awards and their grants alone.
use qweqwe.Base.{
  guard-Ensures, ℕ, ◌≡◌, refl, sym, ap, ◌∙◌, List, ◌∷◌, arith, leb, any, find, update, Ensures,
  Bool-cases, Option-cases, inl, inr, All-weaken, Ensures-weaken,
}
use qweqwe.Monetization.Model.{
  violates_provider_check, Money, SourceKey, is_grant, referral, insert_grant, Progress,
  RewardedReceipt,
}
use qweqwe.Monetization.Rewarded.{
  QuestClocks, View, record_rewarded_view, watch, advance_quest, is_progress, claimed, advanced,
  new_count, new_quest_started, rewarded_grant, seen_receipt, ensure_progress, is_receipt,
}
use qweqwe.Monetization.Purchase.{is_award}
use qweqwe.Monetization.Awards.{IsPaidOut}
use qweqwe.Monetization.Settled.{IsSettled}

-- What a view does not touch.
pub record IsViewed (m t : Money) : Type 0 where
  pub same_referrals : t.referrals ≡ m.referrals
  pub same_awards : t.awards ≡ m.awards
  pub same_codes : t.codes ≡ m.codes
  pub same_keys :
      (k : SourceKey) → any (is_grant referral k) t.grants ≡ any (is_grant referral k) m.grants

module _ (c : QuestClocks) (id now : ℕ) (m : Money) where
  grant-IsViewed :
      (u : ℕ) (ps : List Progress)
      → IsViewed m
          (record m { grants = rewarded_grant u id now c.grant_duration ∷ m.grants; progress = ps })
  grant-IsViewed u ps = record {
    same_referrals = refl;
    same_awards = refl;
    same_codes = refl;
    same_keys = λ k. refl;
  }

  progress-IsViewed : (ps : List Progress) → IsViewed m (record m { progress = ps })
  progress-IsViewed ps = record {
    same_referrals = refl;
    same_awards = refl;
    same_codes = refl;
    same_keys = λ k. refl;
  }

  advance_quest-IsViewed : (p : Progress) → Ensures (IsViewed m) (advance_quest c id now p m)
  unfolding advance_quest insert_grant
  advance_quest-IsViewed p = elim (Bool-cases (leb 5 (new_count c now p))) [
    | inl last ↦
        ground (arith, grant-IsViewed p.user (update (is_progress p.user) (claimed now) m.progress))
    | inr more ↦ ground (
      arith,
      progress-IsViewed (
          update (is_progress p.user) (advanced (new_count c now p) (new_quest_started c now p) now)
            m.progress),
    )
  ]

  watch-IsViewed : (p : Progress) → Ensures (IsViewed m) (watch c id now p m)
  unfolding watch
  watch-IsViewed p = ground (arith, advance_quest-IsViewed p)

IsViewed-from : (m s t : Money) → IsViewed m s → IsViewed s t → IsViewed m t
IsViewed-from m s t a b = record {
  same_referrals = b.same_referrals ∙ a.same_referrals;
  same_awards = b.same_awards ∙ a.same_awards;
  same_codes = b.same_codes ∙ a.same_codes;
  same_keys = λ k. b.same_keys k ∙ a.same_keys k;
}

IsViewed-receipt :
    (m : Money) (rs : List RewardedReceipt) (ps : List Progress)
    → IsViewed m (record m { rewarded_receipts = rs; progress = ps })
IsViewed-receipt m rs ps = record {
  same_referrals = refl;
  same_awards = refl;
  same_codes = refl;
  same_keys = λ k. refl;
}

pub record_rewarded_view-IsViewed :
    (c : QuestClocks) (id now : ℕ) (v : View) (m : Money)
    → Ensures (IsViewed m) (record_rewarded_view c id now v m)
unfolding record_rewarded_view
record_rewarded_view-IsViewed c id now v m =
    elim (Bool-cases (any (is_receipt v) m.rewarded_receipts)) [
      | inl replay ↦
          rw (replay, record_rewarded_view) (IsViewed-receipt m m.rewarded_receipts m.progress)
      | inr fresh ↦
          rw (fresh, record_rewarded_view)
            (guard-Ensures (IsViewed m) (violates_provider_check v.provider) _ _ λ checked.
              elim (Option-cases (find (is_progress v.user) (ensure_progress v.user m.progress))) [
                | inl missing ↦ rw missing tt
                | inr w ↦ rw (w.1) (
                    Ensures-weaken (IsViewed seen) (IsViewed m) (watch c id now (w.0) seen)
                      (watch-IsViewed c id now seen (w.0))
                      (λ t k.
                        IsViewed-from m seen t
                          (IsViewed-receipt m seen.rewarded_receipts seen.progress) k))
              ])
    ]
  where
    seen : Money
    seen = record m {
      rewarded_receipts = seen_receipt v now ∷ m.rewarded_receipts;
      progress = ensure_progress v.user m.progress;
    }

pub IsSettled-viewed : (m t : Money) → IsViewed m t → IsSettled m → IsSettled t
IsSettled-viewed m t a h = record {
  balanced = record {
    keyed =
        λ u n. a.same_keys _ ∙ (h.balanced.keyed u n ∙ ap (any (is_award u n)) (sym a.same_awards));
    unique = rw (a.same_awards) h.balanced.unique;
    paid_out = rw (a.same_awards) (
        All-weaken (IsPaidOut m) (IsPaidOut t) (λ r k. (a.same_keys _ ∙ k.0, a.same_keys _ ∙ k.1))
          m.awards h.balanced.paid_out);
  };
  reached = rw (a.same_awards, a.same_referrals) h.reached;
  single = rw (a.same_referrals) h.single;
  proper = rw (a.same_referrals) h.proper;
  earned = λ v n k. rw (a.same_referrals) (h.earned v n (sym (a.same_keys _) ∙ k));
}
