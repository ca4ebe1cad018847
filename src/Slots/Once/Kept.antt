-- ===== src/Slots/Once/Kept.antt =====
-- A claim through the events that follow.
use qweqwe.Base.{
  ℕ, ◌≡◌, ◌≤◌, ◌<◌, inl, inr, Bool, true, ◌&&◌, some, List, [], ◌∷◌, arith, ◌==◌, Result, ok, err,
  Ensures, Option-cases, Bool-cases, All, bind-Ensures, Ensures-weaken,
}
use qweqwe.Slots.Tables.{Operation, Claim, Db, View}
use qweqwe.Slots.Idempotency.{Call, find_claim, drop_expired, claim_idempotency}
use qweqwe.Slots.Blocking.{block, unblock}
use qweqwe.Slots.Store.{Config}
use qweqwe.Slots.Service.{Command, serve}
use qweqwe.Slots.System.{Event, serves, blocks_user, unblocks_user, world, commit, step, run}
use qweqwe.Slots.Once.Claims.{
  live_claim, claim_idempotency_new, claim_idempotency_live, check_replay-Replayed, Replayed,
  drop_for, find-drop_expired, find-drop_other,
}
use qweqwe.Slots.Once.Lifting.{serve-Ensures}

-- Every event with this actor and key comes before the deadline.
abbrev pub Punctual : (actor key deadline : ℕ) → Event → Type 0
Punctual actor key deadline (serves call command) =
    ((actor == call.actor) && (key == call.key)) ≡ true → call.now < deadline
Punctual actor key deadline _ = Unit

-- A claim of the key that does not expire before the deadline.
module _ (actor key deadline : ℕ) (k : Claim) (lasting : deadline ≤ k.expires_at) where
  abbrev HasClaim : List Claim → Type 0
  HasClaim claims = find_claim actor key claims ≡ some k

  pub claim_kept :
      (claims : List Claim) (call : Call)
      → (claimed : HasClaim claims)
      → (((actor == call.actor) && (key == call.key)) ≡ true → call.now < deadline)
      → find_claim actor key (drop_expired call.actor call.key call.now claims) ≡ some k
  claim_kept claims call claimed punctual =
      elim (Bool-cases ((actor == call.actor) && (key == call.key))) [
        | inl same ↦ ground (
          arith,
          find-drop_expired actor key call.now claims k claimed
              (omega (arith, lasting, punctual same)),
        )
        | inr other ↦
            rw (find-drop_other actor key call.actor call.key call.now claims other) claimed
      ]

  claim_idempotency-HasClaim :
      (ttl : ℕ) (db : Db) (call : Call) (op : Operation) (i : ℕ)
      → HasClaim db.claims
      → (((actor == call.actor) && (key == call.key)) ≡ true → call.now < deadline)
      → Ensures (λ (r : Bool × ℕ × Db). HasClaim r.2.claims) (claim_idempotency ttl db call op i)
  unfolding find_claim
  claim_idempotency-HasClaim ttl db call op i claimed punctual =
      let kept = claim_kept db.claims call claimed punctual in
      elim (Option-cases (live_claim call db.claims)) [
        | inl free ↦ rw (claim_idempotency_new ttl db call op i free) (ground (arith, kept, free))
        | inr (l, live) ↦ rw (claim_idempotency_live ttl db call op i l live) (
            Ensures-weaken (Replayed (drop_for call db) l)
              (λ (r : Bool × ℕ × Db). HasClaim r.2.claims) _ (check_replay-Replayed _ call op l)
              λ r q. rw (q.2) kept)
      ]

  serve-HasClaim :
      (c : Config) (call : Call) (command : Command) (db : Db)
      → HasClaim db.claims
      → (((actor == call.actor) && (key == call.key)) ≡ true → call.now < deadline)
      → Ensures (λ (r : View × Db). HasClaim r.1.claims) (serve c call command db)
  serve-HasClaim c call command db claimed punctual =
      serve-Ensures c call db (λ replay d. HasClaim d.claims) (λ d. HasClaim d.claims)
        (λ op i. claim_idempotency-HasClaim c.idempotency_ttl db call op i claimed punctual)
        (λ d q. q) (λ d slots q. q) command

  commit-HasClaim :
      (db : Db) (r : Result Db)
      → HasClaim db.claims
      → Ensures (λ d. HasClaim d.claims) r
      → HasClaim (commit db r).claims
  commit-HasClaim db (ok d) claimed h = h
  commit-HasClaim db (err e) claimed h = claimed

  block-HasClaim :
      (ttl blocker blocked now : ℕ) (db : Db)
      → HasClaim db.claims
      → Ensures (λ (d : Db). HasClaim d.claims) (block ttl blocker blocked now db)
  unfolding block
  block-HasClaim ttl blocker blocked now db claimed = ground (arith, claimed)

  unblock-HasClaim :
      (blocker blocked : ℕ) (db : Db)
      → HasClaim db.claims
      → Ensures (λ (d : Db). HasClaim d.claims) (unblock blocker blocked db)
  unfolding unblock
  unblock-HasClaim blocker blocked db claimed = ground (arith, claimed)

  step-HasClaim :
      (c : Config) (db : Db) (e : Event)
      → HasClaim db.claims
      → Punctual actor key deadline e
      → HasClaim (step c db e).claims
  unfolding step
  step-HasClaim c db (serves call command) claimed punctual = commit-HasClaim db _ claimed (
      bind-Ensures (λ (r : View × Db). HasClaim r.1.claims) (λ (d : Db). HasClaim d.claims)
        (serve c call command db) (λ r. ok (r.1))
        (serve-HasClaim c call command db claimed punctual) λ r p. p)
  step-HasClaim c db (blocks_user blocker blocked now) claimed punctual =
      commit-HasClaim db _ claimed
        (block-HasClaim c.waitlist_request_ttl blocker blocked now db claimed)
  step-HasClaim c db (unblocks_user blocker blocked) claimed punctual =
      commit-HasClaim db _ claimed (unblock-HasClaim blocker blocked db claimed)
  step-HasClaim c db (world friendships city_locks places users clock) claimed punctual = claimed

  pub run-HasClaim :
      (c : Config) (db : Db) (es : List Event)
      → HasClaim db.claims
      → All (Punctual actor key deadline) es
      → HasClaim (run c db es).claims
  unfolding run
  run-HasClaim c db [] claimed punctual = claimed
  run-HasClaim c db (e ∷ es) claimed punctual =
      run-HasClaim c (step c db e) es (step-HasClaim c db e claimed (punctual.0)) (punctual.1)
