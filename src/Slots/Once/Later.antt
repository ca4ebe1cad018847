-- ===== src/Slots/Once/Later.antt =====
-- The retries of the service's calls, at any time before the claim expires.
use qweqwe.Base.{
  ℕ, ◌+◌, ◌≡◌, ◌<◌, refl, ap, ◌∙◌, Bool, true, false, Option, none, some, List, arith, ◌==◌, Result,
  ok, err, All, ◌>>=◌, ◌>>◌, forbidden, invalid_input, Error, fail_if, Option-cases, inl, inr,
}
use qweqwe.Slots.Model.{Slot}
use qweqwe.Slots.Tables.{
  Operation, cancel, approve, reject, start, complete, join, Db, View, find_slot, view_slot,
  get_internal,
}
use qweqwe.Slots.Idempotency.{Call, authorize_replay, replay_allowed, replay_as_host}
use qweqwe.Slots.Transaction.{transact}
use qweqwe.Slots.Store.{
  Config, answer, cancel_by_host, approve_request, reject_request, start_by_host, complete_by_host,
  join_instant,
}
use qweqwe.Slots.Service.{Command, cancels, joins, approves, rejects, starts, completes, serve}
use qweqwe.Slots.System.{Event, serves, step, run}
use qweqwe.Slots.Soundness.{AllSound}
use qweqwe.Slots.Soundness.System.{step-AllSound}
use qweqwe.Slots.Evolution.History.{run-IsLater}
use qweqwe.Slots.Once.Claims.{live_claim, claim_of, drop_for}
use qweqwe.Slots.Once.Kept.{Punctual, claim_kept, run-HasClaim}
use qweqwe.Slots.Once.Retries.{Hosts, again_at, transact_again}
use qweqwe.Slots.Once.Served.{
  IsClaimed, IsDecided, cancel-IsDecided, approve-IsDecided, reject-IsDecided, start-IsDecided,
  complete-IsDecided, joined,
}

-- The host's decisions about a published Slot.
abbrev pub decides : Command → Bool
decides (cancels i expected) = true
decides (approves i requester) = true
decides (rejects i requester) = true
decides (starts i) = true
decides (completes i) = true
decides _ = false

-- The Slot that such a decision is about.
abbrev pub decided_slot : Command → ℕ
decided_slot (cancels i expected) = i
decided_slot (approves i requester) = i
decided_slot (rejects i requester) = i
decided_slot (starts i) = i
decided_slot (completes i) = i
decided_slot _ = 0

served-AllSound :
    (c : Config) (call : Call) (command : Command) (db d : Db) (v : View)
    → AllSound db
    → serve c call command db ≡ ok (v, d)
    → AllSound d
unfolding step
served-AllSound c call command db d v sound served =
    let after = step-AllSound c db (serves call command) sound in rw served at after

-- A Slot of the host is the host's after any events.
run-Hosts :
    (c : Config) (actor i : ℕ) (d : Db) (es : List Event)
    → AllSound d
    → Hosts actor i d
    → (t : Slot) × (find_slot i (run c d es).slots ≡ some t) × ((t.host_id == actor) ≡ true)
unfolding replay_as_host
run-Hosts c actor i d es sound hosts = elim (Option-cases (find_slot i d.slots)) [
  | inl absent ↦ absurd (cc (rw absent at hosts))
  | inr s ↦
      (let l = run-IsLater c i es d s.0 sound s.1 in
        let own : (s.0.host_id == actor) ≡ true = rw s.1 at hosts in
        (l.0, l.1, ap (λ h. h == actor) l.2.host_id ∙ own))
]

module _ (c : Config) (call : Call) (i : ℕ) (d : Db) (es : List Event) (later : ℕ)
    (punctual : All (Punctual call.actor call.key (call.now + c.idempotency_ttl)) es)
    (early : later < call.now + c.idempotency_ttl) where
  -- The claim is alive.
  claim_lives :
      (op : Operation)
      → IsClaimed c.idempotency_ttl call op i d
      → live_claim (again_at call later) (run c d es).claims
        ≡ some (claim_of c.idempotency_ttl call op i)
  claim_lives op claimed =
      claim_kept call.actor call.key (call.now + c.idempotency_ttl)
        (claim_of c.idempotency_ttl call op i) (omega arith) (run c d es).claims
        (again_at call later)
        (run-HasClaim call.actor call.key (call.now + c.idempotency_ttl)
          (claim_of c.idempotency_ttl call op i) (omega arith) c d es claimed punctual)
        (λ same. early)

  -- The answer to a decision that is sent again.
  abbrev AnsweredAgain : Result (View × Db) → Type 0
  AnsweredAgain r =
      (w : View) × (r ≡ ok (w, drop_for (again_at call later) (run c d es)))
      × (get_internal (run c d es) call.actor i ≡ ok w)

  decision_again :
      (op : Operation) (body : Db → Slot → Result Slot)
      → ((e : Db) (actor : ℕ) (found : Option Slot)
          → replay_allowed e actor found op ≡ replay_as_host actor found)
      → AllSound d
      → IsDecided c.idempotency_ttl call op i d
      → AnsweredAgain (
          transact c.idempotency_ttl (again_at call later) op i body (run c d es) >>= λ r.
          answer call.actor (i, r.1))
  unfolding authorize_replay replay_as_host answer get_internal
  decision_again op body hosted sound h =
      let t = run-Hosts c call.actor i d es sound h.1 in
      (
        view_slot call.actor i t.0,
        rw
            (
              transact_again c.idempotency_ttl later call op i (run c d es) (claim_lives op h.0)
                  body,
              authorize_replay,
              hosted (drop_for (again_at call later) (run c d es)) call.actor
                  (find_slot i (run c d es).slots),
              t.1,
              replay_as_host,
              t.2,
            )
            (rw (answer, get_internal, t.1) refl),
        rw (t.1, get_internal) refl,
      )

  -- An instant join that is sent again.
  join_again :
      (body : Db → Slot → Result Slot)
      → IsClaimed c.idempotency_ttl call join i d
      → (transact c.idempotency_ttl (again_at call later) join i body (run c d es) >>= λ r.
          answer call.actor r)
        ≡ err forbidden
  unfolding authorize_replay replay_allowed
  join_again body claimed =
      rw
        (
          transact_again c.idempotency_ttl later call join i (run c d es) (claim_lives join claimed)
              body,
          authorize_replay,
          replay_allowed,
        )
        refl

-- Past a check of the arguments, which a retry passes again.
checked_again :
    {A : Type 0} (P : Result A → Type 0) (b : Bool) (e : Error) (m n : Result A) (a : A)
    → (m ≡ ok a → P n)
    → (fail_if b e >> m) ≡ ok a
    → P (fail_if b e >> n)
checked_again P true e m n a f h = absurd (cc h)
checked_again P false e m n a f h = f h

-- A cancel, approve, reject, start or complete that succeeded with a new key, in a database in which every Slot is sound:
-- whatever events follow, when it is sent again with the same key and hash before the claim expires (the first call's
-- time plus the TTL), it is answered with the Slot as it is then, and nothing is written but that expired claims of
-- that key go; if no other call with that key came later than that in between.
pub decision_retry :
    (c : Config) (call : Call) (command : Command) (db d : Db) (v : View) (es : List Event)
    (later : ℕ)
    → decides command ≡ true
    → AllSound db
    → live_claim call db.claims ≡ none
    → serve c call command db ≡ ok (v, d)
    → All (Punctual call.actor call.key (call.now + c.idempotency_ttl)) es
    → later < call.now + c.idempotency_ttl
    → (w : View) × (serve c (again_at call later) command (run c d es)
        ≡ ok (w, drop_for (again_at call later) (run c d es)))
      × (get_internal (run c d es) call.actor (decided_slot command) ≡ ok w)
unfolding serve cancel_by_host approve_request reject_request start_by_host complete_by_host
    replay_allowed
decision_retry c call (cancels i expected) db d v es later e sound free h punctual early =
    checked_again (AnsweredAgain c call i d es later punctual early) (expected == 0) invalid_input _
      _ (v, d)
      (λ k.
        decision_again c call i d es later punctual early cancel _ (λ e actor found. refl)
          (served-AllSound c call (cancels i expected) db d v sound h)
          (cancel-IsDecided c call db d v free i expected k))
      h
decision_retry c call (approves i requester) db d v es later e sound free h punctual early =
    checked_again (AnsweredAgain c call i d es later punctual early) (call.actor == requester)
      invalid_input _ _ (v, d)
      (λ k.
        decision_again c call i d es later punctual early approve _ (λ e actor found. refl)
          (served-AllSound c call (approves i requester) db d v sound h)
          (approve-IsDecided c call db d v free i requester k))
      h
decision_retry c call (rejects i requester) db d v es later e sound free h punctual early =
    checked_again (AnsweredAgain c call i d es later punctual early) (call.actor == requester)
      invalid_input _ _ (v, d)
      (λ k.
        decision_again c call i d es later punctual early reject _ (λ e actor found. refl)
          (served-AllSound c call (rejects i requester) db d v sound h)
          (reject-IsDecided c call db d v free i requester k))
      h
decision_retry c call (starts i) db d v es later e sound free h punctual early =
    decision_again c call i d es later punctual early start _ (λ e actor found. refl)
      (served-AllSound c call (starts i) db d v sound h) (start-IsDecided c call db d v free i h)
decision_retry c call (completes i) db d v es later e sound free h punctual early =
    decision_again c call i d es later punctual early complete _ (λ e actor found. refl)
      (served-AllSound c call (completes i) db d v sound h)
      (complete-IsDecided c call db d v free i h)
decision_retry c call _ db d v es later e sound free h punctual early = absurd (cc e)

-- An instant join that succeeded with a new key: whatever events follow, when it is sent again with the same key and hash
-- before the claim expires, it is refused with ErrForbidden, if no other call with that key came later than that in
-- between.
pub join_retry :
    (c : Config) (call : Call) (i : ℕ) (db d : Db) (v : View) (es : List Event) (later : ℕ)
    → live_claim call db.claims ≡ none
    → serve c call (joins i) db ≡ ok (v, d)
    → All (Punctual call.actor call.key (call.now + c.idempotency_ttl)) es
    → later < call.now + c.idempotency_ttl
    → serve c (again_at call later) (joins i) (run c d es) ≡ err forbidden
unfolding serve join_instant
join_retry c call i db d v es later free h punctual early =
    join_again c call i d es later punctual early _ (joined c call db d v free i h)
