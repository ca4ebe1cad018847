-- ===== src/Bump/Mutual.antt =====
-- Every standing is earned by mutual confirmations.
use qweqwe.Base.{
  ℕ, ◌+◌, ◌≡◌, ◌<◌, refl, Bool, true, false, ◌||◌, List, [], ◌∷◌, arith, ◌==◌, ltb, Result, ok, err,
  Ensures, All, if◌then◌else◌, Bool-cases, inl, inr,
}
use qweqwe.Slots.Tables.{Db}
use qweqwe.Bump.Store.{
  Submission, Confirmation, BumpDb, submitted, submit, confirmed, credit, credited, compute_band,
  verified_count, band_of, record_claim, confirm, issue_challenge, consume, BumpEvent, issues,
  confirms, bump_step, bump_run, empty_bumps,
}
use qweqwe.Bump.Credit.{count-credit, band-credit, submitted-submit, submitted_own}

-- In how many confirmations the user stands.
abbrev pub tally : ℕ → List Confirmation → ℕ
tally u [] = 0
tally u (r ∷ rs) = if r.user_lo == u || r.user_hi == u then tally u rs + 1 else tally u rs

-- The two have claimed one another at the Slot.
abbrev pub IsMutual : List Submission → Confirmation → Type 0
IsMutual claims r =
    (r.user_lo < r.user_hi)
    × (submitted r.slot r.user_lo r.user_hi claims ≡ true)
    × (submitted r.slot r.user_hi r.user_lo claims ≡ true)

-- No pair is confirmed twice at a Slot.
abbrev pub IsOnce : List Confirmation → Type 0
IsOnce [] = Unit {0}
IsOnce (r ∷ rs) = (confirmed r.slot r.user_lo r.user_hi rs ≡ false) × IsOnce rs

pub record IsEarned (b : BumpDb) : Type 0 where
  pub counts : (u : ℕ) → verified_count u b.standings ≡ tally u b.confirmations
  pub bands : (u : ℕ) → band_of u b.standings ≡ compute_band (verified_count u b.standings)
  pub two_sided : All (IsMutual b.submissions) b.confirmations
  pub once : IsOnce b.confirmations

All-IsMutual :
    (slot a b : ℕ) (claims : List Submission) (rs : List Confirmation)
    → All (IsMutual claims) rs
    → All (IsMutual (submit slot a b claims)) rs
All-IsMutual slot a b claims [] all = tt
All-IsMutual slot a b claims (r ∷ rs) all = (
  (
    all.0.0,
    submitted-submit slot a b r.slot r.user_lo r.user_hi claims all.0.1,
    submitted-submit slot a b r.slot r.user_hi r.user_lo claims all.0.2,
  ),
  All-IsMutual slot a b claims rs all.1,
)

module _ (now slot actor counterpart : ℕ) (b : BumpDb) (earned : IsEarned b)
    (apart : (actor == counterpart) ≡ false) where
  confirmed-IsEarned :
      (lo hi : ℕ)
      → ((u : ℕ) → (lo == u || hi == u) ≡ (actor == u || counterpart == u))
      → lo < hi
      → (submitted slot lo hi (submit slot actor counterpart b.submissions) ≡ true)
        × (submitted slot hi lo (submit slot actor counterpart b.submissions) ≡ true)
      → confirmed slot lo hi b.confirmations ≡ false
      → IsEarned (record b {
        submissions = submit slot actor counterpart b.submissions;
        confirmations =
            record { slot = slot; user_lo = lo; user_hi = hi; confirmed_at = now }
            ∷ b.confirmations;
        standings = credit counterpart (credit actor b.standings);
        events = credited slot counterpart actor ∷ credited slot actor counterpart ∷ b.events;
      })
  confirmed-IsEarned lo hi pair less both fresh = record {
    counts = λ u. ground (
      arith,
      count-credit counterpart u (credit actor b.standings),
      count-credit actor u b.standings,
      earned.counts u,
      pair u,
    );
    bands = λ u.
        band-credit counterpart u (credit actor b.standings)
          (band-credit actor u b.standings (earned.bands u));
    two_sided = (
      (less, both.0, both.1),
      All-IsMutual slot actor counterpart b.submissions b.confirmations earned.two_sided,
    );
    once = (fresh, earned.once);
  }

  claimed-IsEarned :
      IsEarned (record b { submissions = submit slot actor counterpart b.submissions })
  claimed-IsEarned = record {
    counts = earned.counts;
    bands = earned.bands;
    two_sided = All-IsMutual slot actor counterpart b.submissions b.confirmations earned.two_sided;
    once = earned.once;
  }

  record_claim-IsEarned : IsEarned (record_claim now slot actor counterpart b).1
  unfolding record_claim
  record_claim-IsEarned = elim (Bool-cases (ltb counterpart actor)) [
    | inl swapped ↦
        rw (swapped, record_claim)
          (ground (
            arith,
            claimed-IsEarned,
            submitted_own slot actor counterpart b.submissions,
            confirmed-IsEarned counterpart actor (λ u. ground arith) (ground arith),
          ))
    | inr ordered ↦
        rw (ordered, record_claim)
          (ground (
            arith,
            claimed-IsEarned,
            submitted_own slot actor counterpart b.submissions,
            confirmed-IsEarned actor counterpart (λ u. refl) (ground arith),
          ))
  ]

-- A call keeps the standings earned.
confirm-IsEarned :
    (db : Db) (now actor slot counterpart nonce : ℕ) (b : BumpDb)
    → IsEarned b
    → Ensures
        (λ (r : Bool × BumpDb). IsEarned (r.1))
        (confirm db now actor slot counterpart nonce b)
unfolding confirm
confirm-IsEarned db now actor slot counterpart nonce b earned = ground (
  arith,
  λ (apart : (actor == counterpart) ≡ false).
      record_claim-IsEarned now slot actor counterpart
        (record b { challenges = consume nonce now b.challenges })
        (record {
          counts = earned.counts;
          bands = earned.bands;
          two_sided = earned.two_sided;
          once = earned.once;
        })
        apart,
)

issue_challenge-IsEarned :
    (db : Db) (ttl now actor slot nonce : ℕ) (b : BumpDb)
    → IsEarned b
    → Ensures IsEarned (issue_challenge db ttl now actor slot nonce b)
unfolding issue_challenge
issue_challenge-IsEarned db ttl now actor slot nonce b earned =
    ground (arith, earned.counts, earned.bands)

bump_step-IsEarned : (b : BumpDb) (e : BumpEvent) → IsEarned b → IsEarned (bump_step b e)
unfolding bump_step
bump_step-IsEarned b (issues db ttl now actor slot nonce) earned =
    settle (issue_challenge db ttl now actor slot nonce b)
      (issue_challenge-IsEarned db ttl now actor slot nonce b earned)
  where
    settle : (m : Result BumpDb) → Ensures IsEarned m → IsEarned (elim m [ ok t ↦ t | err e ↦ b ])
    settle (ok t) h = h
    settle (err e) h = earned
bump_step-IsEarned b (confirms db now actor slot counterpart nonce) earned =
    settle (confirm db now actor slot counterpart nonce b)
      (confirm-IsEarned db now actor slot counterpart nonce b earned)
  where
    settle :
        (m : Result (Bool × BumpDb))
        → Ensures (λ (r : Bool × BumpDb). IsEarned (r.1)) m
        → IsEarned (elim m [ ok r ↦ r.1 | err e ↦ b ])
    settle (ok r) h = h
    settle (err e) h = earned

bump_run-IsEarned : (b : BumpDb) (es : List BumpEvent) → IsEarned b → IsEarned (bump_run b es)
unfolding bump_run
bump_run-IsEarned b [] earned = earned
bump_run-IsEarned b (e ∷ es) earned =
    bump_run-IsEarned (bump_step b e) es (bump_step-IsEarned b e earned)

-- After any calls: a user's verified count is the number of confirmations with that user, and the
-- band is the one of the count; each confirmation is of two different users who have both claimed
-- one another at that Slot; and no pair is confirmed twice at a Slot.
pub bump_reachable-IsEarned : (es : List BumpEvent) → IsEarned (bump_run empty_bumps es)
unfolding verified_count band_of compute_band
bump_reachable-IsEarned es =
    bump_run-IsEarned empty_bumps es
      (record { counts = λ u. refl; bands = λ u. refl; two_sided = tt; once = tt })
