-- ===== src/Slots/Once/Claims.antt =====
-- The claims that a transaction finds and leaves.
use qweqwe.Base.{
  ℕ, ◌+◌, ◌≡◌, ◌≤◌, ◌<◌, refl, Bool, true, false, ◌&&◌, Option, none, some, List, [], ◌∷◌, arith,
  ◌==◌, ok, Ensures,
}
use qweqwe.Slots.Tables.{Operation, Claim, Db}
use qweqwe.Slots.Idempotency.{
  Call, find_claim, drop_expired, check_replay, authorize_replay, claim_idempotency,
}

-- The claim of the key that has not expired at the call's time.
abbrev pub live_claim : Call → List Claim → Option Claim
live_claim call claims =
    find_claim call.actor call.key (drop_expired call.actor call.key call.now claims)

-- The key is claimed until the deadline at least.
abbrev pub ClaimedUntil : (actor key deadline : ℕ) → List Claim → Type 0
ClaimedUntil actor key deadline claims =
    (k : Claim) × (find_claim actor key claims ≡ some k) × (deadline ≤ k.expires_at)

pub find-drop_expired :
    (actor key now : ℕ) (claims : List Claim) (k : Claim)
    → find_claim actor key claims ≡ some k
    → now < k.expires_at
    → find_claim actor key (drop_expired actor key now claims) ≡ some k
unfolding find_claim drop_expired
find-drop_expired actor key now [] k found early = absurd (cc)
find-drop_expired actor key now (x ∷ xs) k found early =
    ground (arith, find-drop_expired actor key now xs k)

pub find-drop_other :
    (actor key other another now : ℕ) (claims : List Claim)
    → ((actor == other) && (key == another)) ≡ false
    → find_claim actor key (drop_expired other another now claims) ≡ find_claim actor key claims
unfolding find_claim drop_expired
find-drop_other actor key other another now [] apart = refl
find-drop_other actor key other another now (x ∷ xs) apart =
    ground (arith, find-drop_other actor key other another now xs apart)

-- The claim that a new key leaves.
abbrev pub claim_of : ℕ → Call → Operation → ℕ → Claim
claim_of ttl call op resource = record {
  actor = call.actor;
  key = call.key;
  operation = op;
  request_hash = call.request_hash;
  resource = resource;
  expires_at = call.now + ttl;
}

module _ (ttl : ℕ) (db : Db) (call : Call) (op : Operation) (i : ℕ) where
  pub claim_idempotency_new :
      live_claim call db.claims ≡ none
      → claim_idempotency ttl db call op i
        ≡ ok (
          false,
          i,
          record db {
            claims = claim_of ttl call op i ∷ drop_expired call.actor call.key call.now db.claims;
          },
        )
  unfolding claim_idempotency
  claim_idempotency_new free = rw (free, claim_idempotency) refl

  pub claim_idempotency_live :
      (k : Claim)
      → live_claim call db.claims ≡ some k
      → claim_idempotency ttl db call op i
        ≡ check_replay
            (record db { claims = drop_expired call.actor call.key call.now db.claims })
            call
            op
            k
  unfolding claim_idempotency
  claim_idempotency_live k live = rw (live, claim_idempotency) refl

-- A replay changes nothing, and answers with the resource of the claim.
abbrev pub Replayed : Db → Claim → Bool × ℕ × Db → Type 0
Replayed d k r = (r.0 ≡ true) × (r.1 ≡ k.resource) × (r.2 ≡ d)

pub check_replay-Replayed :
    (d : Db) (call : Call) (op : Operation) (k : Claim)
    → Ensures (Replayed d k) (check_replay d call op k)
unfolding check_replay authorize_replay
check_replay-Replayed d call op k = ground arith

abbrev pub drop_for : Call → Db → Db
drop_for call db = record db { claims = drop_expired call.actor call.key call.now db.claims }
