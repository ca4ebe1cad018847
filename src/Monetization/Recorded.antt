-- ===== src/Monetization/Recorded.antt =====
-- `RecordPurchase` as a whole: it succeeds, and what it leaves.
use qweqwe.Base.{
  ℕ, ◌≡◌, refl, sym, ◌∙◌, false, List, arith, find, select, ok, Bool-cases, Option-cases, inl, inr,
  All-weaken,
}
use qweqwe.Monetization.Model.{Money, SubscriptionReceipt}
use qweqwe.Monetization.Purchase.{
  Purchase, violates_receipt_check, settle_grant, is_active, is_pending, upsert_receipt,
  qualify_referral, record_purchase,
}
use qweqwe.Monetization.Referral.{referral_milestones}
use qweqwe.Monetization.Quest.{is_rewarded}
use qweqwe.Monetization.Awards.{IsPaidOut, is_paid}
use qweqwe.Monetization.Settled.{IsSettled, any-settle, awards_end, awarded-IsSettled}

-- What a purchase and its qualification leave alone, and what they keep.
pub record IsRecorded (m t : Money) : Type 0 where
  pub settled : IsSettled t
  pub same_rewarded : select is_rewarded t.grants ≡ select is_rewarded m.grants
  pub same_paid : select is_paid t.grants ≡ select is_paid m.grants
  pub same_progress : t.progress ≡ m.progress
  pub same_receipts : t.rewarded_receipts ≡ m.rewarded_receipts
  pub same_codes : t.codes ≡ m.codes

pub IsRecorded-refl : (m : Money) → IsSettled m → IsRecorded m m
IsRecorded-refl m h = record {
  settled = h;
  same_rewarded = refl;
  same_paid = refl;
  same_progress = refl;
  same_receipts = refl;
  same_codes = refl;
}

-- The receipt and the purchase's own grant.
abbrev pub granted : Purchase → List SubscriptionReceipt → Money → Money
granted p receipts m = record m {
  subscription_receipts = receipts;
  grants = settle_grant p m.grants;
}

module _ (p : Purchase) (receipts : List SubscriptionReceipt) (m : Money) (h : IsSettled m) where
  pub granted-IsSettled : IsSettled (granted p receipts m)
  granted-IsSettled = record {
    balanced = record {
      keyed = λ u n. any-settle p _ m.grants ∙ h.balanced.keyed u n;
      unique = h.balanced.unique;
      paid_out =
          All-weaken (IsPaidOut m) (IsPaidOut (granted p receipts m))
            (λ a k. (any-settle p _ m.grants ∙ k.0, any-settle p _ m.grants ∙ k.1)) m.awards
            h.balanced.paid_out;
    };
    reached = h.reached;
    single = h.single;
    proper = h.proper;
    earned = λ v n k. h.earned v n (sym (any-settle p _ m.grants) ∙ k);
  }

-- The qualification succeeds.
pub qualify_referral-IsRecorded :
    (v receipt now : ℕ) (m : Money)
    → IsSettled m
    → (t : Money) × (qualify_referral v receipt now referral_milestones m ≡ ok t) × IsRecorded m t
unfolding qualify_referral
qualify_referral-IsRecorded v receipt now m h =
    elim (Option-cases (find (is_pending v now) m.referrals)) [
      | inl absent ↦ (m, rw (absent, qualify_referral) refl, IsRecorded-refl m h)
      | inr w ↦
          (let e = awards_end v receipt now m h (w.0) (w.1) in
            (
              e.0,
              rw (w.1, qualify_referral) (e.1),
              record {
                settled = awarded-IsSettled v receipt now m h (w.0) (w.1) (e.0) (e.2);
                same_rewarded = e.2.same_rewarded;
                same_paid = e.2.same_paid;
                same_progress = e.2.same_progress;
                same_receipts = e.2.same_receipts;
                same_codes = e.2.same_codes;
              },
            ))
    ]

-- When the CHECKs on the receipt hold, the purchase is recorded.
pub record_purchase-IsRecorded :
    (id now : ℕ) (p : Purchase) (m : Money)
    → IsSettled m
    → violates_receipt_check p ≡ false
    → (t : Money) × (record_purchase id now referral_milestones p m ≡ ok t)
      × IsRecorded (granted p ((upsert_receipt id now p m.subscription_receipts).1) m) t
unfolding record_purchase
record_purchase-IsRecorded id now p m h checked = elim (Bool-cases (is_active p.state)) [
  | inl active ↦
      (let q = qualify_referral-IsRecorded p.user (stored.0) now base base_settled in
        (q.0, rw (active, checked, record_purchase) (q.1), q.2))
  | inr other ↦ (base, rw (other, checked, record_purchase) refl, IsRecorded-refl base base_settled)
]
  where
    stored : ℕ × List SubscriptionReceipt
    stored = upsert_receipt id now p m.subscription_receipts

    base : Money
    base = granted p (stored.1) m

    base_settled : IsSettled base
    base_settled = granted-IsSettled p (stored.1) m h

-- A purchase that is recorded has passed them.
pub recorded_checked :
    (id now : ℕ) (p : Purchase) (m t : Money)
    → record_purchase id now referral_milestones p m ≡ ok t
    → violates_receipt_check p ≡ false
unfolding record_purchase
recorded_checked id now p m t e = elim (Bool-cases (violates_receipt_check p)) [
  | inl violated ↦ ground (arith, e, violated)
  | inr checked ↦ checked
]
