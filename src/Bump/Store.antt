-- ===== src/Bump/Store.antt =====
-- backend/internal/bump/model.go and backend/internal/postgres/bump_store.go. The Slots and the blocks are read only,
-- from the database of Slots.Tables; a nonce is a natural number that the database draws.
use qweqwe.Base.{
  ℕ, ◌+◌, Bool, true, false, not, ◌&&◌, ◌||◌, Option, none, some, List, [], ◌∷◌, Result, ok, err,
  or_fail, fail_if, ◌>>=◌, ◌>>◌, ◌==◌, leb, ltb, if◌then◌else◌, forbidden, not_found, invalid_input,
  database_error, invalid_challenge, not_eligible,
}
use qweqwe.Slots.Model.{State, active, completed}
use qweqwe.Slots.Rows.{exists_row}
use qweqwe.Slots.Tables.{Db, find_slot, blocked_pair}

pub data Band : Type 0 where
  new building reliable trusted : Band

-- `ComputeBand`
unfoldable pub compute_band : ℕ → Band
compute_band n =
    if leb 10 n then trusted else if leb 3 n then reliable else if leb 1 n then building else new

-- A row of bump_challenges.
pub record Challenge : Type 0 where
  pub nonce : ℕ
  pub slot : ℕ
  pub user : ℕ
  pub expires_at : ℕ
  pub consumed_at : Option ℕ

-- A row of bump_submissions: one direction of a pair.
pub record Submission : Type 0 where
  pub slot : ℕ
  pub submitter : ℕ
  pub counterpart : ℕ

-- A row of bump_confirmations.
pub record Confirmation : Type 0 where
  pub slot : ℕ
  pub user_lo : ℕ
  pub user_hi : ℕ
  pub confirmed_at : ℕ

-- A row of user_reliability.
pub record Standing : Type 0 where
  pub user : ℕ
  pub verified_bump_count : ℕ
  pub band : Band

-- A row of reliability_events.
pub record Credited : Type 0 where
  pub user : ℕ
  pub slot : ℕ
  pub counterpart : ℕ

pub record BumpDb : Type 0 where
  pub challenges : List Challenge
  pub submissions : List Submission
  pub confirmations : List Confirmation
  pub standings : List Standing
  pub events : List Credited

abbrev has_met : State → Bool
has_met active = true
has_met completed = true
has_met _ = false

-- `isEligibleBumpParticipantTx`
unfoldable pub is_eligible : Db → ℕ → ℕ → Result Bool
is_eligible db slot user = do
  s ← or_fail (find_slot slot db.slots) not_found
  ok (has_met s.state && (s.host_id == user || exists_row user s.members))

unfoldable pub find_challenge : ℕ → List Challenge → Option Challenge
find_challenge nonce [] = none
find_challenge nonce (c ∷ cs) = if c.nonce == nonce then some c else find_challenge nonce cs

-- UPDATE bump_challenges SET consumed_at=now WHERE nonce
unfoldable pub consume : ℕ → ℕ → List Challenge → List Challenge
consume nonce now [] = []
consume nonce now (c ∷ cs) =
    if c.nonce == nonce then record c { consumed_at = some now } ∷ cs else c ∷ consume nonce now cs

unfoldable pub submitted : (slot submitter counterpart : ℕ) → List Submission → Bool
submitted slot a b [] = false
submitted slot a b (r ∷ rs) =
    (r.slot == slot && r.submitter == a && r.counterpart == b) || submitted slot a b rs

-- INSERT … ON CONFLICT DO NOTHING
unfoldable pub submit : (slot submitter counterpart : ℕ) → List Submission → List Submission
submit slot a b rs =
    if submitted slot a b rs
    then rs
    else record { slot = slot; submitter = a; counterpart = b } ∷ rs

unfoldable pub confirmed : (slot lo hi : ℕ) → List Confirmation → Bool
confirmed slot lo hi [] = false
confirmed slot lo hi (r ∷ rs) =
    (r.slot == slot && r.user_lo == lo && r.user_hi == hi) || confirmed slot lo hi rs

-- `creditUserReliabilityTx`
unfoldable pub credit : ℕ → List Standing → List Standing
credit u [] = record { user = u; verified_bump_count = 1; band = compute_band 1 } ∷ []
credit u (r ∷ rs) =
    if r.user == u
    then record r {
      verified_bump_count = r.verified_bump_count + 1;
      band = compute_band (r.verified_bump_count + 1);
    }
      ∷ rs
    else r ∷ credit u rs

abbrev pub is_used : Option ℕ → Bool
is_used none = false
is_used (some t) = true

abbrev pub credited : (slot user counterpart : ℕ) → Credited
credited slot u v = record { user = u; slot = slot; counterpart = v }

-- The claim and, if the other direction exists and the pair is not confirmed yet, the confirmation with the two
-- credits.
unfoldable pub record_claim : (now slot actor counterpart : ℕ) → BumpDb → Bool × BumpDb
record_claim now slot actor counterpart b =
    let claims = submit slot actor counterpart b.submissions in
    let lo = if ltb counterpart actor then counterpart else actor in
    let hi = if ltb counterpart actor then actor else counterpart in
    if submitted slot counterpart actor claims && not (confirmed slot lo hi b.confirmations)
    then (
      true,
      record b {
        submissions = claims;
        confirmations =
            record { slot = slot; user_lo = lo; user_hi = hi; confirmed_at = now }
            ∷ b.confirmations;
        standings = credit counterpart (credit actor b.standings);
        events = credited slot counterpart actor ∷ credited slot actor counterpart ∷ b.events;
      },
    )
    else (false, record b { submissions = claims })

-- `Confirm`; the Boolean is `Verified`.
unfoldable pub confirm :
    Db → (now actor slot counterpart nonce : ℕ) → BumpDb → Result (Bool × BumpDb)
confirm db now actor slot counterpart nonce b = do
  fail_if (actor == counterpart) invalid_input
  c ← or_fail (find_challenge nonce b.challenges) invalid_challenge
  fail_if
      (is_used c.consumed_at
        || ltb c.expires_at now
        || not (c.slot == slot)
        || not (c.user == actor))
      invalid_challenge
  mine ← is_eligible db slot actor
  fail_if (not mine) not_eligible
  theirs ← is_eligible db slot counterpart
  fail_if (not theirs) not_eligible
  fail_if (blocked_pair actor counterpart db.blocks) forbidden
  ok (
      record_claim now slot actor counterpart
        (record b { challenges = consume nonce now b.challenges }))

-- `IssueChallenge`
unfoldable pub issue_challenge : Db → (ttl now actor slot nonce : ℕ) → BumpDb → Result BumpDb
issue_challenge db ttl now actor slot nonce b = do
  mine ← is_eligible db slot actor
  fail_if (not mine) not_eligible
  fail_if (is_known (find_challenge nonce b.challenges)) database_error
  ok (record b {
    challenges =
        record {
          nonce = nonce;
          slot = slot;
          user = actor;
          expires_at = now + ttl;
          consumed_at = none;
        }
        ∷ b.challenges;
  })
  where
    is_known : Option Challenge → Bool
    is_known none = false
    is_known (some c) = true

-- `Reliability`: a user without a row has count 0 and band NEW.
unfoldable pub verified_count : ℕ → List Standing → ℕ
verified_count u [] = 0
verified_count u (r ∷ rs) = if r.user == u then r.verified_bump_count else verified_count u rs

unfoldable pub band_of : ℕ → List Standing → Band
band_of u [] = new
band_of u (r ∷ rs) = if r.user == u then r.band else band_of u rs

-- A call, in whatever state the Slots and blocks are then.
pub data BumpEvent : Type 0 where
  issues : Db → (ttl now actor slot nonce : ℕ) → BumpEvent
  confirms : Db → (now actor slot counterpart nonce : ℕ) → BumpEvent

unfoldable pub bump_step : BumpDb → BumpEvent → BumpDb
bump_step b (issues db ttl now actor slot nonce) =
    elim (issue_challenge db ttl now actor slot nonce b) [ ok t ↦ t | err e ↦ b ]
bump_step b (confirms db now actor slot counterpart nonce) =
    elim (confirm db now actor slot counterpart nonce b) [ ok r ↦ r.1 | err e ↦ b ]

unfoldable pub bump_run : BumpDb → List BumpEvent → BumpDb
bump_run b [] = b
bump_run b (e ∷ es) = bump_run (bump_step b e) es

abbrev pub empty_bumps : BumpDb
empty_bumps = record {
  challenges = [];
  submissions = [];
  confirmations = [];
  standings = [];
  events = [];
}
