-- ===== src/Monetization/Reachable.antt =====
-- What holds of the tables after any calls of the service.
use qweqwe.Base.{
  ℕ, length, ◌≤◌, ◌<◌, ◌≡◌, refl, ap, ◌∙◌, not, Option, List, [], ◌∷◌, arith, select, ok, err,
  Result, Ensures, Bool-cases, inl, inr, Ensures->>=, fail_if, invalid_referral_code,
  Ensures-weaken,
}
use qweqwe.Monetization.Model.{Text, Money, empty_money}
use qweqwe.Monetization.Rewarded.{QuestClocks, View, record_rewarded_view}
use qweqwe.Monetization.Purchase.{Purchase, violates_receipt_check, record_purchase, upsert_receipt}
use qweqwe.Monetization.Referral.{
  ensure_referral_code, bind_referral, referral_milestones, valid_referral_code,
}
use qweqwe.Monetization.Service.{
  Outside, Call, reads, binds, watches, buys, snapshot, then_snapshot, bind, or_stay,
  submit_rewarded_view, verify_purchase, verified_view, verified_purchase, quest_clocks, money_step,
  money_run, referral_code_for_user,
}
use qweqwe.Monetization.Viewed.{IsViewed, record_rewarded_view-IsViewed, IsSettled-viewed}
use qweqwe.Monetization.Quest.{is_rewarded}
use qweqwe.Monetization.Earned.{IsEarned, record_rewarded_view-IsEarned}
use qweqwe.Monetization.Settled.{IsSettled, select-settle}
use qweqwe.Monetization.Recorded.{IsRecorded, granted, record_purchase-IsRecorded}
use qweqwe.Monetization.Codes.{IsCoded, ensure_referral_code-IsCoded}
use qweqwe.Monetization.Bound.{IsBound, bind_referral-IsBound}

-- Grants earned, awards settled, and codes that are their users'.
pub record IsLedger (m : Money) : Type 0 where
  pub earned : IsEarned quest_clocks m
  pub settled : IsSettled m
  pub coded : IsCoded m.codes

IsEarned-same :
    (c : QuestClocks) (m t : Money)
    → t.progress ≡ m.progress
    → t.rewarded_receipts ≡ m.rewarded_receipts
    → select is_rewarded t.grants ≡ select is_rewarded m.grants
    → IsEarned c m
    → IsEarned c t
IsEarned-same c m t p r g e = record {
  justified = rw (r, g) e.justified;
  apart = rw (g) e.apart;
  counted = rw (p, r) e.counted;
  claims = rw (p, g) e.claims;
}

ensure_referral_code-IsLedger :
    (u : ℕ) (code : Text) (m : Money) → IsLedger m → IsLedger ((ensure_referral_code u code m).1)
unfolding ensure_referral_code
ensure_referral_code-IsLedger u code m h = record {
  earned = IsEarned-same quest_clocks m _ refl refl refl h.earned;
  settled = record {
    balanced = record {
      keyed = h.settled.balanced.keyed;
      unique = h.settled.balanced.unique;
      paid_out = h.settled.balanced.paid_out;
    };
    reached = h.settled.reached;
    single = h.settled.single;
    proper = h.settled.proper;
    earned = h.settled.earned;
  };
  coded = ensure_referral_code-IsCoded u code m h.coded;
}

record_rewarded_view-IsLedger :
    (id now : ℕ) (v : View) (m : Money)
    → IsLedger m
    → Ensures IsLedger (record_rewarded_view quest_clocks id now v m)
record_rewarded_view-IsLedger id now v m h =
    both (record_rewarded_view quest_clocks id now v m)
      (record_rewarded_view-IsEarned quest_clocks id now v m h.earned)
      (record_rewarded_view-IsViewed quest_clocks id now v m)
  where
    both :
        (r : Result Money)
        → Ensures (IsEarned quest_clocks) r
        → Ensures (IsViewed m) r
        → Ensures IsLedger r
    both (err e) a b = tt
    both (ok t) a b = record {
      earned = a;
      settled = IsSettled-viewed m t b h.settled;
      coded = rw (b.same_codes) h.coded;
    }

record_purchase-IsLedger :
    (id now : ℕ) (p : Purchase) (m : Money)
    → IsLedger m
    → Ensures IsLedger (record_purchase id now referral_milestones p m)
unfolding record_purchase
record_purchase-IsLedger id now p m h = elim (Bool-cases (violates_receipt_check p)) [
  | inl empty ↦ rw (empty, record_purchase) tt
  | inr checked ↦
      (let r = record_purchase-IsRecorded id now p m h.settled checked in
        rw (r.1) (recorded (r.0) (r.2)))
]
  where
    recorded :
        (t : Money)
        → IsRecorded (granted p ((upsert_receipt id now p m.subscription_receipts).1) m) t
        → IsLedger t
    recorded t b = record {
      earned =
          IsEarned-same quest_clocks m t b.same_progress b.same_receipts
            (b.same_rewarded ∙ select-settle p m.grants) h.earned;
      settled = b.settled;
      coded = rw (b.same_codes) h.coded;
    }

bind_referral-IsLedger :
    (created_at : ℕ → Option ℕ) (d now v : ℕ) (code : Text) (m : Money)
    → IsLedger m
    → Ensures IsLedger (bind_referral created_at d now v code m)
bind_referral-IsLedger created_at d now v code m h =
    Ensures-weaken (IsBound v m) IsLedger (bind_referral created_at d now v code m)
      (bind_referral-IsBound created_at d now v code m h.settled)
      (λ t b. record {
        earned =
            IsEarned-same quest_clocks m t b.same_progress b.same_receipts
              (ap (select is_rewarded) b.same_grants) h.earned;
        settled = b.settled;
        coded = rw (b.same_codes) h.coded;
      })

snapshot-IsLedger :
    (o : Outside) (now u : ℕ) (m : Money) → IsLedger m → IsLedger ((snapshot o now u m).1)
unfolding snapshot
snapshot-IsLedger o now u m h = ensure_referral_code-IsLedger u (referral_code_for_user o u) m h

then_snapshot-IsLedger :
    (o : Outside) (now u : ℕ) (m : Money) (r : Result Money)
    → IsLedger m
    → Ensures IsLedger r
    → IsLedger ((then_snapshot o now u m r).1)
then_snapshot-IsLedger o now u m (ok t) h k = snapshot-IsLedger o now u t k
then_snapshot-IsLedger o now u m (err e) h k = h

or_stay-IsLedger :
    (m : Money) (r : Result Money) → IsLedger m → Ensures IsLedger r → IsLedger (or_stay m r)
or_stay-IsLedger m (ok t) h k = k
or_stay-IsLedger m (err e) h k = h

bind-IsLedger :
    (o : Outside) (now u : ℕ) (raw : Text) (m : Money)
    → IsLedger m
    → Ensures IsLedger (bind o now u raw m)
unfolding bind
bind-IsLedger o now u raw m h =
    Ensures->>= IsLedger
      (fail_if (not (valid_referral_code (o.to_upper (o.trim_space raw)))) invalid_referral_code)
      (λ x. bind_referral o.created_at 14 now u (o.to_upper (o.trim_space raw)) m)
      (λ x. bind_referral-IsLedger o.created_at 14 now u (o.to_upper (o.trim_space raw)) m h)

pub money_step-IsLedger :
    (o : Outside) (m : Money) (c : Call) → IsLedger m → IsLedger (money_step o m c)
unfolding money_step submit_rewarded_view verify_purchase
money_step-IsLedger o m (reads now u) h = snapshot-IsLedger o now u m h
money_step-IsLedger o m (binds now u raw) h =
    or_stay-IsLedger m (bind o now u raw m) h (bind-IsLedger o now u raw m h)
money_step-IsLedger o m (watches id now u receipt) h = then_snapshot-IsLedger o now u m _ h (
    Ensures->>= IsLedger (verified_view o u receipt) _
      (λ v. record_rewarded_view-IsLedger id now v m h))
money_step-IsLedger o m (buys id now u token) h = then_snapshot-IsLedger o now u m _ h (
    Ensures->>= IsLedger (verified_purchase o u token) _
      (λ p. record_purchase-IsLedger id now p m h))

money_run-IsLedger :
    (o : Outside) (m : Money) (cs : List Call) → IsLedger m → IsLedger (money_run o m cs)
money_run-IsLedger o m [] h = h
money_run-IsLedger o m (c ∷ cs) h =
    money_run-IsLedger o (money_step o m c) cs (money_step-IsLedger o m c h)

empty_money-IsLedger : IsLedger empty_money
empty_money-IsLedger = record {
  earned = record { justified = tt; apart = tt; counted = λ u p h. ground arith; claims = tt };
  settled = record {
    balanced = record { keyed = λ u n. refl; unique = tt; paid_out = tt };
    reached = λ u. (refl, (refl, (refl, (refl, tt))));
    single = tt;
    proper = tt;
    earned = λ v n h. ground arith;
  };
  coded = λ u r h. ground arith;
}

-- After any calls of the service, one after another, whatever its packages and verifiers answer:
-- every REWARDED grant ends a quest of five recorded views of its user, each at least 4 hours after the one before and
-- within 24 hours of the first, and lasts 24 hours; a user's REWARDED grants start at least 7 days apart; each milestone
-- of an inviter is awarded once, exactly when that many referrals have qualified, with both grants; each user has at
-- most one referral, of another user, accepted and qualified before its deadline; and a referral code is one user's.
pub money_reachable-IsLedger :
    (o : Outside) (cs : List Call) → IsLedger (money_run o empty_money cs)
money_reachable-IsLedger o cs = money_run-IsLedger o empty_money cs empty_money-IsLedger

-- In every state that calls of the service can reach, a verified purchase with a period that is not empty, of a provider
-- whose name has 2 to 64 characters and a product whose id has 1 to 200, is recorded: no unique key and no check of
-- the tables refuses it, also when its referral reaches milestones.
pub purchase_succeeds :
    (o : Outside) (cs : List Call) (id now : ℕ) (p : Purchase)
    → p.period_start < p.period_end
    → 2 ≤ length p.provider
    → length p.provider ≤ 64
    → 1 ≤ length p.product_id
    → length p.product_id ≤ 200
    → (t : Money) × (record_purchase id now referral_milestones p (money_run o empty_money cs)
        ≡ ok t)
unfolding violates_receipt_check
purchase_succeeds o cs id now p lasting two sixty_four one two_hundred =
    let r =
      record_purchase-IsRecorded id now p (money_run o empty_money cs)
        (money_reachable-IsLedger o cs).settled (ground arith) in
    (r.0, r.1)
