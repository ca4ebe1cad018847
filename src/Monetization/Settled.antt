-- ===== src/Monetization/Settled.antt =====
-- What a purchase and a referral do to the premium grants, the referrals and the awards together.
use qweqwe.Base.{
  ℕ, ◌+◌, ◌≡◌, refl, sym, ap, ◌∙◌, true, false, ◌&&◌, ◌||◌, not, some, List, [], ◌∷◌, arith, ◌==◌,
  leb, any, find, select, count, All, ok, if◌then◌else◌, any-update, any-delete, select-update,
  select-delete, any_found,
}
use qweqwe.Monetization.Model.{
  Grant, Source, source_eq, rewarded, Money, Referral, ReferralMilestone, SourceKey, is_grant,
  referral, paid,
}
use qweqwe.Monetization.Purchase.{
  Purchase, settle_grant, is_paid_grant, extended, is_pending, is_qualified_for, award_milestones,
}
use qweqwe.Monetization.Qualified.{
  UniqueInvitees, is_done, IsProper, count-qualify, pending-undone, done-qualify, qualify_rows,
  qualify-UniqueInvitees, qualify-AllProper,
}
use qweqwe.Monetization.Referral.{referral_milestones}
use qweqwe.Monetization.Quest.{is_rewarded}
use qweqwe.Monetization.Awards.{IsBalanced, IsAwarding, has_award, has_invitee_grant, is_due}
use qweqwe.Monetization.AwardLoop.{IsFree, award_milestones-IsAwarding}

paid_only :
    (p : Purchase) (g : Grant)
    → is_paid_grant p g ≡ true
    → (source_eq g.source referral ≡ false) × (source_eq g.source rewarded ≡ false)
paid_only p g h = only g.source (ground arith)
  where
    only :
        (s : Source)
        → source_eq s paid ≡ true
        → (source_eq s referral ≡ false) × (source_eq s rewarded ≡ false)
    only paid h = (refl, refl)
    only rewarded h = ground arith
    only referral h = ground arith

-- A purchase touches no grant of a referral,
pub any-settle :
    (p : Purchase) (k : SourceKey) (gs : List Grant)
    → any (is_grant referral k) (settle_grant p gs) ≡ any (is_grant referral k) gs
unfolding settle_grant
any-settle p k gs = ground (
  arith,
  any-update (λ g. is_paid_grant p g && not (g.ends_at == p.period_end)) (is_grant referral k)
      (extended p) (λ g. refl) gs,
  any-delete (is_paid_grant p) (is_grant referral k) (λ g h. ground (arith, paid_only p g h)) gs,
)

-- nor of the quest.
pub select-settle :
    (p : Purchase) (gs : List Grant)
    → select is_rewarded (settle_grant p gs) ≡ select is_rewarded gs
unfolding settle_grant
select-settle p gs = ground (
  arith,
  select-update (λ g. is_paid_grant p g && not (g.ends_at == p.period_end)) is_rewarded (extended p)
      (λ g h. ground (arith, paid_only p g)) (λ g h. ground (arith, paid_only p g)) gs,
  select-delete (is_paid_grant p) is_rewarded (λ g h. ground (arith, paid_only p g h)) gs,
)

-- The milestone s of the inviter u is awarded exactly when that many referrals have qualified.
abbrev pub IsReached : (u : ℕ) → Money → ReferralMilestone → Type 0
IsReached u m s =
    has_award u s.qualified_referrals m
    ≡ leb s.qualified_referrals (count (is_qualified_for u) m.referrals)

pub record IsSettled (m : Money) : Type 0 where
  pub balanced : IsBalanced m
  pub reached : (u : ℕ) → All (IsReached u m) referral_milestones
  pub single : UniqueInvitees m.referrals
  pub proper : All IsProper m.referrals
  pub earned : (v n : ℕ) → has_invitee_grant v n m ≡ true → any (is_done v) m.referrals ≡ true

-- What a milestone's award says of the number of qualified referrals, before and after one more.
reached_due :
    (u w n old new : ℕ) (m t : Money)
    → ((k : ℕ) → has_award w k t ≡ (has_award w k m || (w == u && is_due n k referral_milestones)))
    → ((w == u) ≡ true → (new ≡ old + 1) × (n ≡ new))
    → ((w == u) ≡ false → new ≡ old)
    → All
        (λ s. has_award w s.qualified_referrals m ≡ leb s.qualified_referrals old)
        referral_milestones
    → All
        (λ s. has_award w s.qualified_referrals t ≡ leb s.qualified_referrals new)
        referral_milestones
reached_due u w n old new m t awarded same other all = (
  ground (arith, awarded 1, all.0),
  (
    ground (arith, awarded 3, all.1.0),
    (ground (arith, awarded 5, all.1.1.0), (ground (arith, awarded 10, all.1.1.1.0), tt)),
  ),
)

module _ (v receipt now : ℕ) (m : Money) (h : IsSettled m) (r : Referral)
    (found : find (is_pending v now) m.referrals ≡ some r) where
  abbrev marked : Money
  marked = record m { referrals = qualify_rows v receipt now m.referrals }

  abbrev reached_count : ℕ
  reached_count = count (is_qualified_for r.inviter) (qualify_rows v receipt now m.referrals)

  AllFree : (ss : List ReferralMilestone) → All (IsFree v marked) ss
  AllFree [] = tt
  AllFree (s ∷ ss) = (
    ground (
      arith,
      h.earned v s.qualified_referrals,
      pending-undone v receipt now r m.referrals h.single found,
    ),
    AllFree ss,
  )

  marked-IsBalanced : IsBalanced marked
  marked-IsBalanced = record {
    keyed = h.balanced.keyed;
    unique = h.balanced.unique;
    paid_out = h.balanced.paid_out;
  }

  pub awards_end :
      (t : Money) × (award_milestones r.inviter v now reached_count referral_milestones marked
        ≡ ok t)
      × IsAwarding r.inviter v reached_count referral_milestones marked t
  awards_end =
      award_milestones-IsAwarding r.inviter v now reached_count referral_milestones marked
        marked-IsBalanced ((refl, (refl, (refl, tt))), ((refl, (refl, tt)), ((refl, tt), (tt, tt))))
        (refl, (refl, (refl, (refl, tt)))) (AllFree referral_milestones)

  recount :
      (t : Money)
      → IsAwarding r.inviter v reached_count referral_milestones marked t
      → (w : ℕ)
      → count (is_qualified_for w) t.referrals ≡ (
          if w == r.inviter
          then count (is_qualified_for w) m.referrals + 1
          else count (is_qualified_for w) m.referrals)
  recount t a w =
      ap (count (is_qualified_for w)) a.same_referrals
      ∙ count-qualify v receipt now w r m.referrals h.single found

  same_count :
      (t : Money)
      → IsAwarding r.inviter v reached_count referral_milestones marked t
      → (w : ℕ) → (w == r.inviter) ≡ true
      → reached_count ≡ count (is_qualified_for w) t.referrals
  same_count t a w same =
      ap (λ x. count (is_qualified_for x) marked.referrals) (ground arith)
      ∙ ap (count (is_qualified_for w)) (sym a.same_referrals)

  pub awarded-IsSettled :
      (t : Money) → IsAwarding r.inviter v reached_count referral_milestones marked t → IsSettled t
  awarded-IsSettled t a = record {
    balanced = a.balanced;
    reached = λ w.
        reached_due r.inviter w reached_count (count (is_qualified_for w) m.referrals)
          (count (is_qualified_for w) t.referrals) marked t (a.awarded w)
          (λ same. (ground (arith, recount t a w), same_count t a w same))
          (λ other. ground (arith, recount t a w)) (h.reached w);
    single = rw (a.same_referrals) (qualify-UniqueInvitees v receipt now m.referrals h.single);
    proper = rw (a.same_referrals) (qualify-AllProper v receipt now m.referrals h.proper);
    earned = λ w n k. rw (a.same_referrals) (
        ground (
          arith,
          k,
          done-qualify v receipt now w m.referrals,
          any_found (is_pending v now) r m.referrals found,
          h.earned w n,
          a.others w n,
        ));
  }
