-- ===== src/Monetization/Permanent.antt =====
-- A referral, once bound, stays.
use qweqwe.Base.{
  ℕ, ◌≡◌, refl, sym, ap, ◌∙◌, true, false, not, Option, some, List, [], ◌∷◌, arith, ◌==◌, find, ok,
  err, Result, Ensures, Bool-cases, inl, inr, Ensures->>=, Ensures-from, ◌>>=◌, fail_if,
  invalid_referral_code, Ensures-weaken,
}
use qweqwe.Monetization.Model.{Text, Money, Referral, is_set, empty_money}
use qweqwe.Monetization.Purchase.{is_pending, qualified}
use qweqwe.Monetization.Referral.{is_invitee}
use qweqwe.Monetization.Qualified.{qualify_rows}
use qweqwe.Monetization.Purchase.{Purchase, record_purchase, is_active}
use qweqwe.Monetization.Rewarded.{record_rewarded_view}
use qweqwe.Monetization.Referral.{
  bind_referral, referral_milestones, valid_referral_code, ensure_referral_code,
}
use qweqwe.Monetization.Service.{
  Outside, Call, reads, binds, watches, buys, snapshot, then_snapshot, bind, or_stay,
  submit_rewarded_view, verify_purchase, verified_view, verified_purchase, quest_clocks, money_step,
  money_run,
}
use qweqwe.Monetization.Settled.{IsSettled}
use qweqwe.Monetization.Bound.{IsBound, bind_referral-IsBound}
use qweqwe.Monetization.Viewed.{IsViewed, record_rewarded_view-IsViewed}
use qweqwe.Monetization.Replay.{purchased-referrals}
use qweqwe.Monetization.Reachable.{money_reachable-IsLedger}

-- The same referral, or one that has qualified since.
pub record IsSameReferral (r s : Referral) : Type 0 where
  pub inviter : s.inviter ≡ r.inviter
  pub code : s.referral_code ≡ r.referral_code
  pub accepted : s.accepted_at ≡ r.accepted_at
  pub deadline : s.qualifying_deadline ≡ r.qualifying_deadline
  pub qualified_stays :
      is_set r.qualified_at ≡ true
      → (s.qualified_at ≡ r.qualified_at) × (s.qualifying_receipt ≡ r.qualifying_receipt)

abbrev pub IsKept : List Referral → List Referral → Type 0
IsKept rs ts =
    (v : ℕ) (r : Referral)
    → find (is_invitee v) rs ≡ some r
    → (s : Referral) × (find (is_invitee v) ts ≡ some s) × IsSameReferral r s

pub same_referral : (r : Referral) → IsSameReferral r r
same_referral r = record {
  inviter = refl;
  code = refl;
  accepted = refl;
  deadline = refl;
  qualified_stays = λ h. (refl, refl);
}

pub qualified-IsSameReferral :
    (v receipt now : ℕ) (r : Referral)
    → is_pending v now r ≡ true
    → IsSameReferral r (qualified receipt now r)
qualified-IsSameReferral v receipt now r h = record {
  inviter = refl;
  code = refl;
  accepted = refl;
  deadline = refl;
  qualified_stays = λ k. ground arith;
}

pub qualify_rows-IsKept :
    (u receipt now : ℕ) (rs : List Referral) → IsKept rs (qualify_rows u receipt now rs)
qualify_rows-IsKept u receipt now [] v r h = ground arith
qualify_rows-IsKept u receipt now (q ∷ rs) v r h = elim (Bool-cases (is_invitee v q)) [
  | inl own ↦ elim (Bool-cases (is_pending u now q)) [
    | inl pending ↦
        rw (sym (mine own))
          (qualified receipt now q, ground arith, qualified-IsSameReferral u receipt now q pending)
    | inr done ↦ rw (sym (mine own)) (q, ground arith, same_referral q)
  ]
  | inr other ↦
      (let k = qualify_rows-IsKept u receipt now rs v r (ground arith) in
        (k.0, ground (arith, k.1, other), k.2))
]
  where
    mine : is_invitee v q ≡ true → q ≡ r
    mine own = ground arith

IsKept-same : (rs ts : List Referral) → ts ≡ rs → IsKept rs ts
IsKept-same rs ts e v r h = (r, ap (find (is_invitee v)) e ∙ h, same_referral r)

abbrev KeepsReferrals : Money → Money → Type 0
KeepsReferrals m t = IsKept m.referrals t.referrals

bind_referral-Keeps :
    (created_at : ℕ → Option ℕ) (d now u : ℕ) (code : Text) (m : Money)
    → IsSettled m
    → Ensures (KeepsReferrals m) (bind_referral created_at d now u code m)
bind_referral-Keeps created_at d now u code m h =
    Ensures-weaken (IsBound u m) (KeepsReferrals m) (bind_referral created_at d now u code m)
      (bind_referral-IsBound created_at d now u code m h)
      (λ t b v r found. (
        r,
        elim (Bool-cases (v == u)) [
          | inl same ↦
              ap (λ x. find (is_invitee x) t.referrals) (ground arith)
              ∙ (b.kept r (ap (λ x. find (is_invitee x) m.referrals) (ground arith) ∙ found))
          | inr other ↦ b.others v other ∙ found
        ],
        same_referral r,
      ))

record_purchase-Keeps :
    (id now : ℕ) (p : Purchase) (m : Money)
    → IsSettled m
    → Ensures (KeepsReferrals m) (record_purchase id now referral_milestones p m)
unfolding record_purchase
record_purchase-Keeps id now p m h =
    Ensures-from (KeepsReferrals m) (record_purchase id now referral_milestones p m) (λ t e.
      elim (Bool-cases (is_active p.state)) [
        | inl active ↦
            (let q = purchased-referrals id now p m t h active e in
              rw (q.1) (qualify_rows-IsKept p.user (q.0) now m.referrals))
        | inr other ↦ IsKept-same m.referrals t.referrals (unqualified t other e)
      ])
  where
    unqualified :
        (t : Money)
        → is_active p.state ≡ false
        → record_purchase id now referral_milestones p m ≡ ok t
        → t.referrals ≡ m.referrals
    unqualified t other e = ground (arith, e, other)

then_snapshot-Keeps :
    (o : Outside) (now u : ℕ) (m : Money) (r : Result Money)
    → Ensures (KeepsReferrals m) r
    → IsKept m.referrals ((then_snapshot o now u m r).1).referrals
unfolding snapshot ensure_referral_code
then_snapshot-Keeps o now u m (ok t) k = k
then_snapshot-Keeps o now u m (err e) k = IsKept-same m.referrals m.referrals refl

bind-Keeps :
    (o : Outside) (now u : ℕ) (raw : Text) (m : Money)
    → IsSettled m
    → Ensures (KeepsReferrals m) (bind o now u raw m)
unfolding bind
bind-Keeps o now u raw m h =
    Ensures->>= (KeepsReferrals m)
      (fail_if (not (valid_referral_code (o.to_upper (o.trim_space raw)))) invalid_referral_code)
      (λ x. bind_referral o.created_at 14 now u (o.to_upper (o.trim_space raw)) m)
      (λ x. bind_referral-Keeps o.created_at 14 now u (o.to_upper (o.trim_space raw)) m h)

pub money_step-KeepsReferrals :
    (o : Outside) (m : Money) (c : Call)
    → IsSettled m
    → IsKept m.referrals (money_step o m c).referrals
unfolding money_step submit_rewarded_view verify_purchase snapshot ensure_referral_code
money_step-KeepsReferrals o m (reads now u) h = IsKept-same m.referrals _ refl
money_step-KeepsReferrals o m (binds now u raw) h =
    stay (bind o now u raw m) (bind-Keeps o now u raw m h)
  where
    stay :
        (r : Result Money)
        → Ensures (KeepsReferrals m) r
        → IsKept m.referrals (or_stay m r).referrals
    stay (ok t) k = k
    stay (err e) k = IsKept-same m.referrals m.referrals refl
money_step-KeepsReferrals o m (watches id now u receipt) h =
    then_snapshot-Keeps o now u m
      (verified_view o u receipt >>= λ v. record_rewarded_view quest_clocks id now v m)
      (Ensures->>= (KeepsReferrals m) (verified_view o u receipt) _ (λ v.
        Ensures-weaken (IsViewed m) (KeepsReferrals m)
          (record_rewarded_view quest_clocks id now v m)
          (record_rewarded_view-IsViewed quest_clocks id now v m)
          (λ t k. IsKept-same m.referrals t.referrals k.same_referrals)))
money_step-KeepsReferrals o m (buys id now u token) h =
    then_snapshot-Keeps o now u m
      (verified_purchase o u token >>= λ p. record_purchase id now referral_milestones p m)
      (Ensures->>= (KeepsReferrals m) (verified_purchase o u token) _
        (λ p. record_purchase-Keeps id now p m h))

-- A referral stays: after any further call the user's referral is the same row, with the same inviter, code and dates,
-- and once qualified it stays so at that moment by that receipt.
pub referral_stays :
    (o : Outside) (before : List Call) (c : Call) (v : ℕ) (r : Referral)
    → find (is_invitee v) (money_run o empty_money before).referrals ≡ some r
    → (s : Referral) × (find
          (is_invitee v)
          (money_step o (money_run o empty_money before) c).referrals
        ≡ some s)
      × IsSameReferral r s
referral_stays o before c v r h =
    money_step-KeepsReferrals o (money_run o empty_money before) c
      (money_reachable-IsLedger o before).settled v r h
