-- ===== src/Monetization/Awards.antt =====
-- The loop of `qualifyReferralAndAwardMilestones`: it gives exactly the milestones due, and meets no unique constraint.
use qweqwe.Base.{
  ℕ, ◌<◌, ◌≡◌, refl, ap, ◌∙◌, Bool, true, false, ◌&&◌, ◌||◌, List, [], ◌∷◌, arith, ◌==◌, leb, ltb,
  any, select, All, ok, Bool-cases, inl, inr, All-weaken,
}
use qweqwe.Monetization.Model.{
  Grant, Money, Award, ReferralMilestone, insert_grant, is_grant, referral, paid, inviter_key,
  invitee_key, source_eq,
}
use qweqwe.Monetization.Purchase.{
  award_milestone, is_award, award_row, inviter_grant, invitee_grant, violates_check,
}
use qweqwe.Monetization.Quest.{is_rewarded}

abbrev pub has_award : (u n : ℕ) → Money → Bool
has_award u n m = any (is_award u n) m.awards

abbrev pub has_inviter_grant : (u n : ℕ) → Money → Bool
has_inviter_grant u n m = any (is_grant referral (inviter_key u n)) m.grants

abbrev pub has_invitee_grant : (v n : ℕ) → Money → Bool
has_invitee_grant v n m = any (is_grant referral (invitee_key v n)) m.grants

abbrev pub is_paid : Grant → Bool
is_paid g = source_eq g.source paid

-- No two awards of one inviter for one milestone.
abbrev pub UniqueAwards : List Award → Type 0
UniqueAwards [] = Unit {0}
UniqueAwards (a ∷ rest) = (any (is_award a.inviter a.milestone) rest ≡ false) × UniqueAwards rest

-- The milestone k stands in the list and n referrals reach it.
abbrev pub is_due : (n k : ℕ) → List ReferralMilestone → Bool
is_due n k [] = false
is_due n k (s ∷ ss) = (s.qualified_referrals == k && leb s.qualified_referrals n) || is_due n k ss

-- Every award has both its grants.
abbrev pub IsPaidOut : Money → Award → Type 0
IsPaidOut m a =
    (has_inviter_grant a.inviter a.milestone m ≡ true)
    × (has_invitee_grant a.triggering_invitee a.milestone m ≡ true)

-- Grants and awards fit together.
pub record IsBalanced (m : Money) : Type 0 where
  pub keyed : (u n : ℕ) → has_inviter_grant u n m ≡ has_award u n m
  pub unique : UniqueAwards m.awards
  pub paid_out : All (IsPaidOut m) m.awards

-- What the loop does, for an inviter with n qualified referrals.
pub record IsAwarding (u v n : ℕ) (ss : List ReferralMilestone) (m t : Money) : Type 0 where
  pub awarded : (w k : ℕ) → has_award w k t ≡ (has_award w k m || (w == u && is_due n k ss))
  pub balanced : IsBalanced t
  pub others : (w k : ℕ) → (w == v) ≡ false → has_invitee_grant w k t ≡ has_invitee_grant w k m
  pub absent : (k : ℕ) → is_due n k ss ≡ false → has_invitee_grant v k t ≡ has_invitee_grant v k m
  pub same_rewarded : select is_rewarded t.grants ≡ select is_rewarded m.grants
  pub same_paid : select is_paid t.grants ≡ select is_paid m.grants
  pub same_referrals : t.referrals ≡ m.referrals
  pub same_progress : t.progress ≡ m.progress
  pub same_receipts : t.rewarded_receipts ≡ m.rewarded_receipts
  pub same_codes : t.codes ≡ m.codes

module _ (u v now n : ℕ) (s : ReferralMilestone) (m : Money) (b : IsBalanced m) where
  same_award :
      (w k : ℕ)
      → (w == u) ≡ true
      → (s.qualified_referrals == k) ≡ true
      → has_award w k m ≡ has_award u s.qualified_referrals m
  same_award w k h e =
      ap (λ x. has_award x k m) (ground arith) ∙ ap (λ x. has_award u x m) (ground arith)

  idle-IsAwarding :
      (ltb n s.qualified_referrals || has_award u s.qualified_referrals m) ≡ true
      → IsAwarding u v n (s ∷ []) m m
  idle-IsAwarding h = record {
    awarded = λ w k. ground (arith, same_award w k);
    balanced = b;
    others = λ w k h. refl;
    absent = λ k h. refl;
    same_rewarded = refl;
    same_paid = refl;
    same_referrals = refl;
    same_progress = refl;
    same_receipts = refl;
    same_codes = refl;
  }

  abbrev given : Money
  given = record m {
    grants = invitee_grant v now s ∷ inviter_grant u now s ∷ m.grants;
    awards = award_row u v s ∷ m.awards;
  }

  given-IsAwarding :
      (ltb n s.qualified_referrals || has_award u s.qualified_referrals m) ≡ false
      → IsAwarding u v n (s ∷ []) m given
  given-IsAwarding h = record {
    awarded = λ w k. ground arith;
    balanced = record {
      keyed = λ w k. ground (arith, b.keyed w k);
      unique = (ground arith, b.unique);
      paid_out = (
        (ground arith, ground arith),
        All-weaken (IsPaidOut m) (IsPaidOut given) (λ a p. (ground arith, ground arith)) m.awards
            b.paid_out,
      );
    };
    others = λ w k other. ground arith;
    absent = λ k not_due. ground arith;
    same_rewarded = refl;
    same_paid = refl;
    same_referrals = refl;
    same_progress = refl;
    same_receipts = refl;
    same_codes = refl;
  }

pub insert_fresh :
    (g : Grant) (gs : List Grant)
    → g.starts_at < g.ends_at
    → any (is_grant g.source g.source_key) gs ≡ false
    → insert_grant g gs ≡ ok (g ∷ gs)
unfolding insert_grant
insert_fresh g gs longer fresh = ground arith

module _ (u v now n : ℕ) (s : ReferralMilestone) (m : Money) (b : IsBalanced m)
    (allowed : violates_check s ≡ false)
    (fresh : has_invitee_grant v s.qualified_referrals m ≡ false) where
  inserted_first :
      has_award u s.qualified_referrals m ≡ false
      → insert_grant (inviter_grant u now s) m.grants ≡ ok (inviter_grant u now s ∷ m.grants)
  inserted_first due =
      insert_fresh (inviter_grant u now s) m.grants (ground (arith, allowed))
        (b.keyed u s.qualified_referrals ∙ due)

  inserted_second :
      insert_grant (invitee_grant v now s) (inviter_grant u now s ∷ m.grants)
      ≡ ok (invitee_grant v now s ∷ inviter_grant u now s ∷ m.grants)
  inserted_second =
      insert_fresh (invitee_grant v now s) (inviter_grant u now s ∷ m.grants)
        (ground (arith, allowed)) (ground (arith, fresh))

  pub award_milestone-IsAwarding :
      (t : Money) × (award_milestone u v now n s m ≡ ok t) × IsAwarding u v n (s ∷ []) m t
  unfolding award_milestone
  award_milestone-IsAwarding =
      elim (Bool-cases (ltb n s.qualified_referrals || has_award u s.qualified_referrals m)) [
        | inl idle ↦ (m, ground arith, idle-IsAwarding u v now n s m b idle)
        | inr due ↦ (
          given u v now n s m b,
          rw (due, allowed, award_milestone, inserted_first (ground (arith, due)), inserted_second)
              refl,
          given-IsAwarding u v now n s m b due,
        )
      ]
