-- ===== src/Slots/Once/AtMostOnce.antt =====
-- The effect of a claimed key on the calls that follow.
use qweqwe.Base.{
  ℕ, ◌+◌, ◌≡◌, ◌<◌, refl, Bool, true, false, none, some, List, arith, ◌==◌, Result, ok, err,
  Ensures, All, bind-Ensures, Ensures-weaken, ap,
}
use qweqwe.Slots.Tables.{Operation, Claim, Db, View}
use qweqwe.Slots.Idempotency.{Call, find_claim, check_replay, claim_idempotency}
use qweqwe.Slots.Store.{Config}
use qweqwe.Slots.Service.{Command, serve}
use qweqwe.Slots.System.{Event, serves, commit, step, run}
use qweqwe.Slots.Once.Claims.{
  live_claim, ClaimedUntil, claim_of, claim_idempotency_new, claim_idempotency_live,
  check_replay-Replayed, Replayed, drop_for,
}
use qweqwe.Slots.Once.Lifting.{serve-Ensures}
use qweqwe.Slots.Once.Kept.{Punctual, claim_kept, run-HasClaim}

-- A call with a live claim writes no Slot, whatever it asks for.
pub serve_replay :
    (c : Config) (call : Call) (command : Command) (db : Db) (k : Claim)
    → live_claim call db.claims ≡ some k
    → Ensures (λ (r : View × Db). r.1.slots ≡ db.slots) (serve c call command db)
serve_replay c call command db k live =
    serve-Ensures c call db (λ replay d. (replay ≡ true) × (d.slots ≡ db.slots))
      (λ d. d.slots ≡ db.slots) replays (λ d q. q.1) (λ d slots q. absurd (cc)) command
  where
    replays :
        (op : Operation) (i : ℕ)
        → Ensures
            (λ (r : Bool × ℕ × Db). (r.0 ≡ true) × (r.2.slots ≡ db.slots))
            (claim_idempotency c.idempotency_ttl db call op i)
    replays op i = rw (claim_idempotency_live c.idempotency_ttl db call op i k live) (
        Ensures-weaken (Replayed (drop_for call db) k)
          (λ (r : Bool × ℕ × Db). (r.0 ≡ true) × (r.2.slots ≡ db.slots)) _
          (check_replay-Replayed _ call op k) λ r q. (q.0, ap (λ (d : Db). d.slots) (q.2)))

-- A call that succeeds with a new key leaves the claim.
serve_claims :
    (c : Config) (call : Call) (command : Command) (db : Db)
    → live_claim call db.claims ≡ none
    → Ensures
        (λ (r : View × Db).
          ClaimedUntil call.actor call.key (call.now + c.idempotency_ttl) r.1.claims)
        (serve c call command db)
unfolding find_claim
serve_claims c call command db free =
    serve-Ensures c call db
      (λ replay d. ClaimedUntil call.actor call.key (call.now + c.idempotency_ttl) d.claims)
      (λ d. ClaimedUntil call.actor call.key (call.now + c.idempotency_ttl) d.claims) claims
      (λ d q. q) (λ d slots q. q) command
  where
    claims :
        (op : Operation) (i : ℕ)
        → Ensures
            (λ (r : Bool × ℕ × Db).
              ClaimedUntil call.actor call.key (call.now + c.idempotency_ttl) r.2.claims)
            (claim_idempotency c.idempotency_ttl db call op i)
    claims op i =
        rw (claim_idempotency_new c.idempotency_ttl db call op i free)
          (claim_of c.idempotency_ttl call op i, ground arith, omega arith)

commit-slots :
    (db : Db) (r : Result Db)
    → Ensures (λ (d : Db). d.slots ≡ db.slots) r
    → (commit db r).slots ≡ db.slots
commit-slots db (ok d) h = h
commit-slots db (err e) h = refl

-- After a call that succeeded with a new key, and whatever events follow, a call with the same
-- actor and key before the claim expires (the first call's time plus the TTL) changes no Slot, if
-- no call with that key came later than that in between.
pub at_most_once :
    (c : Config) (call again : Call) (command other : Command) (db d : Db) (v : View)
    (es : List Event)
    → live_claim call db.claims ≡ none
    → serve c call command db ≡ ok (v, d)
    → All (Punctual call.actor call.key (call.now + c.idempotency_ttl)) es
    → again.actor ≡ call.actor
    → again.key ≡ call.key
    → again.now < call.now + c.idempotency_ttl
    → (step c (run c d es) (serves again other)).slots ≡ (run c d es).slots
unfolding step
at_most_once c call again command other db d v es free served punctual actor_kept key_kept early =
    commit-slots last _ (
      bind-Ensures (λ (r : View × Db). r.1.slots ≡ last.slots) (λ (e : Db). e.slots ≡ last.slots)
        (serve c again other last) (λ r. ok (r.1))
        (serve_replay c again other last (claimed.0) live) λ r p. p)
  where
    last : Db
    last = run c d es

    claimed : ClaimedUntil call.actor call.key (call.now + c.idempotency_ttl) d.claims
    claimed = let left = serve_claims c call command db free in rw served at left

    live : live_claim again last.claims ≡ some (claimed.0)
    live =
        let kept =
          claim_kept call.actor call.key (call.now + c.idempotency_ttl) claimed.0 claimed.2
            last.claims again
            (run-HasClaim call.actor call.key (call.now + c.idempotency_ttl) claimed.0 claimed.2 c d
              es claimed.1 punctual)
            λ _. early in
        rw (actor_kept, key_kept) (rw (actor_kept, key_kept) at kept)

-- A call with the key of a claim that has not expired, and with another request hash, does not
-- succeed, whatever it asks for.
pub reused_key :
    (c : Config) (call : Call) (command : Command) (db : Db) (k : Claim)
    → live_claim call db.claims ≡ some k
    → (k.request_hash == call.request_hash) ≡ false
    → (r : View × Db) → ¬ (serve c call command db ≡ ok r)
unfolding check_replay
reused_key c call command db k live differs r served =
    let never =
      serve-Ensures c call db (λ replay d. ⊥) (λ d. ⊥) refuses (λ d q. q) (λ d slots q. q)
        command in
    rw served at never
  where
    refused :
        (d : Db) (op : Operation) → Ensures (λ (x : Bool × ℕ × Db). ⊥) (check_replay d call op k)
    refused d op = ground arith

    refuses :
        (op : Operation) (i : ℕ)
        → Ensures (λ (x : Bool × ℕ × Db). ⊥) (claim_idempotency c.idempotency_ttl db call op i)
    refuses op i = rw (claim_idempotency_live c.idempotency_ttl db call op i k live) (refused _ op)
