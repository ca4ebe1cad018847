-- ===== src/Bump/Nonce.antt =====
-- A nonce serves one confirmation.
use qweqwe.Base.{
  ℕ, ◌+◌, ◌≡◌, refl, Bool, true, false, none, some, List, [], ◌∷◌, arith, ◌==◌, Result, ok, err,
  Ensures, Ensures-weaken, Bool-cases, Option-cases, inl, inr,
}
use qweqwe.Slots.Tables.{Db}
use qweqwe.Bump.Store.{
  Challenge, BumpDb, find_challenge, is_used, record_claim, confirm, issue_challenge, consume,
  BumpEvent, issues, confirms, bump_step, bump_run,
}

-- The nonce has been consumed.
abbrev pub Spent : ℕ → BumpDb → Type 0
Spent nonce b =
    (c : Challenge) × (find_challenge nonce b.challenges ≡ some c) × (is_used c.consumed_at ≡ true)

find-consume_own :
    (nonce now : ℕ) (cs : List Challenge) (c : Challenge)
    → find_challenge nonce cs ≡ some c
    → find_challenge nonce (consume nonce now cs) ≡ some (record c { consumed_at = some now })
unfolding find_challenge consume
find-consume_own nonce now [] c h = absurd (cc)
find-consume_own nonce now (x ∷ xs) c h = ground (arith, find-consume_own nonce now xs c)

find-consume_other :
    (nonce other now : ℕ) (cs : List Challenge)
    → (other == nonce) ≡ false
    → find_challenge nonce (consume other now cs) ≡ find_challenge nonce cs
unfolding find_challenge consume
find-consume_other nonce other now [] h = refl
find-consume_other nonce other now (x ∷ xs) h =
    ground (arith, find-consume_other nonce other now xs h)

record_claim-challenges :
    (now slot actor counterpart : ℕ) (b : BumpDb)
    → (record_claim now slot actor counterpart b).1.challenges ≡ b.challenges
unfolding record_claim
record_claim-challenges now slot actor counterpart b = ground arith

module _ (nonce : ℕ) where
  -- A confirmation with the nonce spends it.
  confirm-Spent :
      (db : Db) (now actor slot counterpart : ℕ) (b : BumpDb)
      → Ensures
          (λ (r : Bool × BumpDb). Spent nonce (r.1))
          (confirm db now actor slot counterpart nonce b)
  unfolding confirm
  confirm-Spent db now actor slot counterpart b =
      elim (Option-cases (find_challenge nonce b.challenges)) [
        | inl missing ↦ rw (missing, confirm) (ground arith)
        | inr (c, found) ↦
            let spent : Spent nonce
                (record_claim now slot actor counterpart
                  (record b { challenges = consume nonce now b.challenges })).1 =
              (
                record c { consumed_at = some now },
                rw
                    (record_claim-challenges now slot actor counterpart
                      (record b { challenges = consume nonce now b.challenges }))
                    (find-consume_own nonce now b.challenges c found),
                refl,
              ) in
            ground (arith, spent)
      ]

  -- A spent nonce is refused.
  confirm_refused :
      (db : Db) (now actor slot counterpart : ℕ) (b : BumpDb)
      → Spent nonce b
      → Ensures (λ (r : Bool × BumpDb). ⊥) (confirm db now actor slot counterpart nonce b)
  unfolding confirm
  confirm_refused db now actor slot counterpart b (c, found, used) =
      rw (found, confirm) (ground arith)

  other-Spent :
      (other now : ℕ) (b d : BumpDb)
      → Spent nonce b
      → (other == nonce) ≡ false
      → d.challenges ≡ consume other now b.challenges
      → Spent nonce d
  other-Spent other now b d (c, found, used) apart same =
      (c, rw (same, find-consume_other nonce other now b.challenges apart) found, used)

  confirm_keeps-Spent :
      (db : Db) (now actor slot counterpart other : ℕ) (b : BumpDb)
      → Spent nonce b
      → (other == nonce) ≡ false
      → Ensures
          (λ (r : Bool × BumpDb). Spent nonce (r.1))
          (confirm db now actor slot counterpart other b)
  unfolding confirm
  confirm_keeps-Spent db now actor slot counterpart other b spent apart = ground (
    arith,
    other-Spent other now b
        (record_claim now slot actor counterpart
          (record b { challenges = consume other now b.challenges })).1
        spent apart
        (record_claim-challenges now slot actor counterpart
          (record b { challenges = consume other now b.challenges })),
  )

  issued-Spent :
      (x : Challenge) (b : BumpDb)
      → Spent nonce b
      → find_challenge x.nonce b.challenges ≡ none
      → Spent nonce (record b { challenges = x ∷ b.challenges })
  unfolding find_challenge
  issued-Spent x b (c, found, used) free = elim (Bool-cases (x.nonce == nonce)) [
    | inl same ↦ absurd (ground (arith, found, free))
    | inr apart ↦ (c, ground (arith, found), used)
  ]

  issue_keeps-Spent :
      (db : Db) (ttl now actor slot other : ℕ) (b : BumpDb)
      → Spent nonce b
      → Ensures (Spent nonce) (issue_challenge db ttl now actor slot other b)
  unfolding issue_challenge
  issue_keeps-Spent db ttl now actor slot other b spent =
      elim (Option-cases (find_challenge other b.challenges)) [
        | inr (c, found) ↦ rw (found, issue_challenge) (ground arith)
        | inl free ↦
            rw (free, issue_challenge)
              (ground (
                arith,
                issued-Spent
                    (record {
                      nonce = other;
                      slot = slot;
                      user = actor;
                      expires_at = now + ttl;
                      consumed_at = none;
                    })
                    b spent free,
              ))
      ]

  confirm_any-Spent :
      (db : Db) (now actor slot counterpart other : ℕ) (b : BumpDb)
      → Spent nonce b
      → Ensures
          (λ (r : Bool × BumpDb). Spent nonce (r.1))
          (confirm db now actor slot counterpart other b)
  confirm_any-Spent db now actor slot counterpart other b spent =
      elim (Bool-cases (other == nonce)) [
        | inl own ↦
            let same : other ≡ nonce = ground (arith, own) in
            rw same (
              Ensures-weaken (λ (r : Bool × BumpDb). ⊥) (λ (r : Bool × BumpDb). Spent nonce (r.1)) _
                (confirm_refused db now actor slot counterpart b spent) λ r never. absurd never)
        | inr apart ↦ confirm_keeps-Spent db now actor slot counterpart other b spent apart
      ]

  bump_step-Spent : (b : BumpDb) (e : BumpEvent) → Spent nonce b → Spent nonce (bump_step b e)
  unfolding bump_step
  bump_step-Spent b (issues db ttl now actor slot other) spent =
      settle (issue_challenge db ttl now actor slot other b)
        (issue_keeps-Spent db ttl now actor slot other b spent)
    where
      settle :
          (m : Result BumpDb)
          → Ensures (Spent nonce) m
          → Spent nonce (elim m [ ok t ↦ t | err e ↦ b ])
      settle (ok t) h = h
      settle (err e) h = spent
  bump_step-Spent b (confirms db now actor slot counterpart other) spent =
      settle (confirm db now actor slot counterpart other b)
        (confirm_any-Spent db now actor slot counterpart other b spent)
    where
      settle :
          (m : Result (Bool × BumpDb))
          → Ensures (λ (r : Bool × BumpDb). Spent nonce (r.1)) m
          → Spent nonce (elim m [ ok r ↦ r.1 | err e ↦ b ])
      settle (ok r) h = h
      settle (err e) h = spent

  bump_run-Spent : (b : BumpDb) (es : List BumpEvent) → Spent nonce b → Spent nonce (bump_run b es)
  unfolding bump_run
  bump_run-Spent b [] spent = spent
  bump_run-Spent b (e ∷ es) spent = bump_run-Spent (bump_step b e) es (bump_step-Spent b e spent)

-- After a confirmation that succeeded with a nonce, and whatever calls follow, no confirmation with
-- that nonce succeeds, whoever makes it and for whatever Slot and counterpart.
pub nonce_used_once :
    (db later : Db) (now actor slot counterpart nonce now' actor' slot' counterpart' : ℕ)
    (b d : BumpDb) (verified : Bool) (es : List BumpEvent) (r : Bool × BumpDb)
    → confirm db now actor slot counterpart nonce b ≡ ok (verified, d)
    → ¬ (confirm later now' actor' slot' counterpart' nonce (bump_run d es) ≡ ok r)
nonce_used_once db later now actor slot counterpart nonce now' actor' slot' counterpart' b d
      verified es r done again =
    let first = confirm-Spent nonce db now actor slot counterpart b in
    let spent : Spent nonce d = rw done at first in
    let never =
      confirm_refused nonce later now' actor' slot' counterpart' (bump_run d es)
        (bump_run-Spent nonce d es spent) in
    rw again at never
