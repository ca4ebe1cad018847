-- ===== src/Monetization/AwardLoop.antt =====
-- The turns of the loop of `qualifyReferralAndAwardMilestones`, one after the other.
use qweqwe.Base.{ℕ, ◌≡◌, refl, ◌∙◌, false, List, [], ◌∷◌, arith, ◌==◌, All, ok}
use qweqwe.Monetization.Model.{Money, ReferralMilestone}
use qweqwe.Monetization.Purchase.{award_milestones, violates_check}
use qweqwe.Monetization.Awards.{
  IsAwarding, IsBalanced, has_invitee_grant, award_milestone-IsAwarding,
}

abbrev pub IsFree : (v : ℕ) → Money → ReferralMilestone → Type 0
IsFree v m s = has_invitee_grant v s.qualified_referrals m ≡ false

abbrev pub IsAllowed : ReferralMilestone → Type 0
IsAllowed s = violates_check s ≡ false

abbrev pub IsOtherThan : ReferralMilestone → ReferralMilestone → Type 0
IsOtherThan s r = (s.qualified_referrals == r.qualified_referrals) ≡ false

abbrev pub AllDifferent : List ReferralMilestone → Type 0
AllDifferent [] = Unit {0}
AllDifferent (s ∷ ss) = All (IsOtherThan s) ss × AllDifferent ss

IsAwarding-trans :
    (u v n : ℕ) (s : ReferralMilestone) (ss : List ReferralMilestone) (m t z : Money)
    → IsAwarding u v n (s ∷ []) m t
    → IsAwarding u v n ss t z
    → IsAwarding u v n (s ∷ ss) m z
IsAwarding-trans u v n s ss m t z a b = record {
  awarded = λ w k. ground (arith, a.awarded w k, b.awarded w k);
  balanced = b.balanced;
  others = λ w k other. b.others w k other ∙ a.others w k other;
  absent = λ k not_due. ground (arith, a.absent k, b.absent k);
  same_rewarded = b.same_rewarded ∙ a.same_rewarded;
  same_paid = b.same_paid ∙ a.same_paid;
  same_referrals = b.same_referrals ∙ a.same_referrals;
  same_progress = b.same_progress ∙ a.same_progress;
  same_receipts = b.same_receipts ∙ a.same_receipts;
  same_codes = b.same_codes ∙ a.same_codes;
}

IsFree-later :
    (u v n : ℕ) (s : ReferralMilestone) (ss : List ReferralMilestone) (m t : Money)
    → IsAwarding u v n (s ∷ []) m t
    → All (IsOtherThan s) ss
    → All (IsFree v m) ss
    → All (IsFree v t) ss
IsFree-later u v n s [] m t a other free = tt
IsFree-later u v n s (r ∷ ss) m t a other free =
    (ground (arith, a.absent r.qualified_referrals), IsFree-later u v n s ss m t a other.1 free.1)

-- Where the user v holds no invitee grant for a milestone of the list, the loop ends without an
-- error.
pub award_milestones-IsAwarding :
    (u v now n : ℕ) (ss : List ReferralMilestone) (m : Money)
    → IsBalanced m
    → AllDifferent ss
    → All IsAllowed ss
    → All (IsFree v m) ss
    → (t : Money) × (award_milestones u v now n ss m ≡ ok t) × IsAwarding u v n ss m t
unfolding award_milestones
award_milestones-IsAwarding u v now n [] m b different allowed free = (
  m,
  refl,
  record {
    awarded = λ w k. ground arith;
    balanced = b;
    others = λ w k other. refl;
    absent = λ k not_due. refl;
    same_rewarded = refl;
    same_paid = refl;
    same_referrals = refl;
    same_progress = refl;
    same_receipts = refl;
    same_codes = refl;
  },
)
award_milestones-IsAwarding u v now n (s ∷ ss) m b different allowed free =
    let first = award_milestone-IsAwarding u v now n s m b allowed.0 free.0 in
    let rest =
      award_milestones-IsAwarding u v now n ss (first.0) (first.2.balanced) different.1 allowed.1
        (IsFree-later u v n s ss m (first.0) (first.2) different.0 free.1) in
    (
      rest.0,
      rw (first.1) (rest.1),
      IsAwarding-trans u v n s ss m (first.0) (rest.0) (first.2) (rest.2),
    )
