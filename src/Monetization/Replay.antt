-- ===== src/Monetization/Replay.antt =====
-- A report of the ad network or of the store that arrives again.
use qweqwe.Base.{
  text_eq_same, ℕ, ◌≤◌, ◌≡◌, refl, sym, ap, ◌∙◌, true, false, none, List, arith, any, find, ok,
  Bool-cases, Option-cases, inl, inr, Ensures, Ensures-ok, ok-injective, find-any, any-find,
  any_updated, any-stronger, update_none, delete_none,
}
use qweqwe.Monetization.Model.{Grant, Money, Referral, SubscriptionReceipt, insert_grant}
use qweqwe.Monetization.Purchase.{
  violates_receipt_check, Purchase, settle_grant, is_paid_grant, extended, is_active, is_pending,
  qualified, qualify_referral, record_purchase, upsert_receipt,
}
use qweqwe.Monetization.Rewarded.{
  QuestClocks, View, is_receipt, watch, advance_quest, record_rewarded_view,
}
use qweqwe.Monetization.Referral.{referral_milestones}
use qweqwe.Monetization.Qualified.{qualify_rows}
use qweqwe.Monetization.Settled.{IsSettled, awards_end}
use qweqwe.Monetization.Recorded.{granted, recorded_checked, granted-IsSettled}
use qweqwe.Monetization.Entitlement.{IsEntitled, is_stale, record_purchase_entitles}

-- A grant that fits is left alone.
settle_grant_again : (p : Purchase) (gs : List Grant) → IsEntitled p gs → settle_grant p gs ≡ gs
unfolding settle_grant
settle_grant_again p gs h =
    ground
      (arith, h.0, update_none (is_stale p) (extended p) gs h.1, delete_none (is_paid_grant p) gs)

-- The referrals after a qualification that succeeds.
qualify_referral-referrals :
    (v receipt now : ℕ) (m t : Money)
    → IsSettled m
    → qualify_referral v receipt now referral_milestones m ≡ ok t
    → t.referrals ≡ qualify_rows v receipt now m.referrals
unfolding qualify_referral
qualify_referral-referrals v receipt now m t h e =
    elim (Option-cases (find (is_pending v now) m.referrals)) [
      | inl absent ↦
          ap (λ x. x.referrals) (ok-injective t m (sym e ∙ rw (absent, qualify_referral) refl))
          ∙ sym (
              update_none (is_pending v now) (qualified receipt now) m.referrals
                (any-find (is_pending v now) m.referrals absent))
      | inr w ↦
          (let a = awards_end v receipt now m h (w.0) (w.1) in
            ap (λ x. x.referrals) (ok-injective t (a.0) (sym e ∙ rw (w.1, qualify_referral) (a.1)))
            ∙ a.2.same_referrals)
    ]

not_pending :
    (v receipt now later : ℕ) (rs : List Referral)
    → now ≤ later
    → find (is_pending v later) (qualify_rows v receipt now rs) ≡ none
not_pending v receipt now later rs le =
    find-any (is_pending v later) (qualify_rows v receipt now rs) (
      any-stronger (is_pending v now) (is_pending v later) (λ r h. ground arith)
        (qualify_rows v receipt now rs)
        (any_updated (is_pending v now) (qualified receipt now) (λ r h. ground arith) rs))

pub purchased-referrals :
    (id now : ℕ) (p : Purchase) (m t : Money)
    → IsSettled m
    → is_active p.state ≡ true
    → record_purchase id now referral_milestones p m ≡ ok t
    → (receipt : ℕ) × (t.referrals ≡ qualify_rows p.user receipt now m.referrals)
unfolding record_purchase
purchased-referrals id now p m t h active e = (
  stored.0,
  qualify_referral-referrals p.user (stored.0) now (granted p (stored.1) m) t
      (granted-IsSettled p (stored.1) m h)
      (ground (arith, active, recorded_checked id now p m t e, e)),
)
  where
    stored : ℕ × List SubscriptionReceipt
    stored = upsert_receipt id now p m.subscription_receipts

-- A purchase that is reported again in the same state, no earlier, is accepted and leaves the premium grants, the
-- referrals, the awards and the quests as the first report left them.
pub record_purchase_replay :
    (id again now later : ℕ) (p : Purchase) (m t : Money)
    → IsSettled m
    → now ≤ later
    → record_purchase id now referral_milestones p m ≡ ok t
    → (z : Money) × (record_purchase again later referral_milestones p t ≡ ok z)
      × (z.grants ≡ t.grants)
      × (z.referrals ≡ t.referrals)
      × (z.awards ≡ t.awards)
      × (z.progress ≡ t.progress)
unfolding record_purchase qualify_referral
record_purchase_replay id again now later p m t h le e = (
  granted p ((upsert_receipt again later p t.subscription_receipts).1) t,
  elim (Bool-cases (is_active p.state)) [
    | inl active ↦ rw (active, checked, none_pending active, record_purchase, qualify_referral) refl
    | inr other ↦ rw (other, checked, record_purchase) refl
  ],
  settle_grant_again p t.grants entitled,
  refl,
  refl,
  refl,
)
  where
    entitled : IsEntitled p t.grants
    entitled = let r = record_purchase_entitles id now p m t h e in (r.0, r.1)

    checked : violates_receipt_check p ≡ false
    checked = recorded_checked id now p m t e

    none_pending : is_active p.state ≡ true → find (is_pending p.user later) t.referrals ≡ none
    none_pending active =
        let q = purchased-referrals id now p m t h active e in
        ap (find (is_pending p.user later)) (q.1)
        ∙ not_pending p.user (q.0) now later m.referrals le

-- The receipt of a view that is recorded is there.
recorded-receipt :
    (c : QuestClocks) (id now : ℕ) (v : View) (m : Money)
    → Ensures
        (λ t. any (is_receipt v) t.rewarded_receipts ≡ true)
        (record_rewarded_view c id now v m)
unfolding record_rewarded_view watch advance_quest insert_grant
recorded-receipt c id now v m = ground (arith, text_eq_same v.provider)

-- A verified view that was recorded is accepted again, at any time, and changes nothing.
pub record_rewarded_view_replay :
    (c : QuestClocks) (id again now later : ℕ) (v : View) (m t : Money)
    → record_rewarded_view c id now v m ≡ ok t
    → record_rewarded_view c again later v t ≡ ok t
unfolding record_rewarded_view
record_rewarded_view_replay c id again now later v m t e = rw (seen, record_rewarded_view) refl
  where
    seen : any (is_receipt v) t.rewarded_receipts ≡ true
    seen =
        Ensures-ok (λ x. any (is_receipt v) x.rewarded_receipts ≡ true)
          (record_rewarded_view c id now v m) t (recorded-receipt c id now v m) e
