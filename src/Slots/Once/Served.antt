-- ===== src/Slots/Once/Served.antt =====
-- What a call leaves for its retry: the claim of its key, and the host's Slot.
use qweqwe.Base.{ℕ, ◌≡◌, some, true, none, List, arith, ◌==◌, Result, ok, Ensures, ◌>>=◌, >>=-eq-ok}
use qweqwe.Slots.Model.{Slot}
use qweqwe.Slots.Tables.{
  BlockRow, Operation, cancel, approve, reject, start, complete, join, Db, View, get_internal,
}
use qweqwe.Slots.Idempotency.{Call, find_claim}
use qweqwe.Slots.Transaction.{transact}
use qweqwe.Slots.Social.{
  withdraw_request, cancel_slot, approve_slot, reject_slot, start_slot, complete_slot,
}
use qweqwe.Slots.Waitlist.{join_slot}
use qweqwe.Slots.Store.{
  Config, answer, cancel_by_host, approve_request, reject_request, start_by_host, complete_by_host,
  join_instant,
}
use qweqwe.Slots.Once.Claims.{live_claim, claim_of}
use qweqwe.Slots.Once.Retries.{FirstClaim, Hosts, transact-FirstClaim, transact-Hosts}

answer-eq-ok : (actor i : ℕ) (d e : Db) (v : View) → answer actor (i, d) ≡ ok (v, e) → d ≡ e
unfolding answer
answer-eq-ok actor i d e v h = ground (arith, >>=-eq-ok (get_internal d actor i) (λ w. ok (w, d)) h)

-- The host checks of the five operations.
module _ (actor : ℕ) (s : Slot) where
  abbrev HostedBy : Slot → Type 0
  HostedBy t = (t.host_id == actor) ≡ true

  cancel_slot-HostedBy : (expected now : ℕ) → Ensures HostedBy (cancel_slot actor expected now s)
  unfolding cancel_slot
  cancel_slot-HostedBy expected now = ground arith

  approve_slot-HostedBy :
      (requester now : ℕ) (blocks : List BlockRow)
      → Ensures HostedBy (approve_slot actor requester now blocks s)
  unfolding approve_slot
  approve_slot-HostedBy requester now blocks = ground arith

  reject_slot-HostedBy : (requester now : ℕ) → Ensures HostedBy (reject_slot actor requester now s)
  unfolding reject_slot withdraw_request
  reject_slot-HostedBy requester now = ground arith

  start_slot-HostedBy : (now : ℕ) → Ensures HostedBy (start_slot actor now s)
  unfolding start_slot
  start_slot-HostedBy now = ground arith

  complete_slot-HostedBy : (now : ℕ) → Ensures HostedBy (complete_slot actor now s)
  unfolding complete_slot
  complete_slot-HostedBy now = ground arith

-- What a host's call leaves: its claim, and the Slot, still the host's.
abbrev pub IsClaimed : ℕ → Call → Operation → ℕ → Db → Type 0
IsClaimed ttl call op i d = find_claim call.actor call.key d.claims ≡ some (claim_of ttl call op i)

abbrev pub IsDecided : ℕ → Call → Operation → ℕ → Db → Type 0
IsDecided ttl call op i d = IsClaimed ttl call op i d × Hosts call.actor i d

FirstClaim-IsClaimed :
    (ttl : ℕ) (call : Call) (op : Operation) (i : ℕ) (db d : Db)
    → FirstClaim ttl call op i db d
    → IsClaimed ttl call op i d
unfolding find_claim
FirstClaim-IsClaimed ttl call op i db d first = rw first (ground arith)

module _ (c : Config) (call : Call) (db d : Db) (v : View)
    (free : live_claim call db.claims ≡ none) where
  open c use {idempotency_ttl}

  -- A host's transaction that has succeeded.
  decided :
      (op : Operation) (i : ℕ) (body : Db → Slot → Result Slot)
      → ((e : Db) (s : Slot) → Ensures (HostedBy call.actor s) (body e s))
      → (transact idempotency_ttl call op i body db >>= λ r. answer call.actor (i, r.1)) ≡ ok (v, d)
      → IsDecided idempotency_ttl call op i d
  decided op i body hosts h =
      let (r, done, answered) =
        >>=-eq-ok (transact idempotency_ttl call op i body db) (λ r. answer call.actor (i, r.1))
          h in
      let same = answer-eq-ok call.actor i (r.1) d v answered in
      let first = transact-FirstClaim idempotency_ttl call op i db body free in
      let own = transact-Hosts idempotency_ttl call op i db body hosts free in
      let first' : (r.0 ≡ i) × FirstClaim idempotency_ttl call op i db (r.1) = rw done at first in
      let own' : Hosts call.actor i (r.1) = rw done at own in
      let left : IsDecided idempotency_ttl call op i (r.1) =
        (FirstClaim-IsClaimed idempotency_ttl call op i db (r.1) (first'.1), own') in
      rw same at left

  pub cancel-IsDecided :
      (i expected : ℕ)
      → cancel_by_host c call i expected db ≡ ok (v, d)
      → IsDecided idempotency_ttl call cancel i d
  unfolding cancel_by_host
  cancel-IsDecided i expected h =
      decided cancel i (λ e s. cancel_slot call.actor expected call.now s)
        (λ e s. cancel_slot-HostedBy call.actor s expected call.now) h

  pub approve-IsDecided :
      (i requester : ℕ)
      → approve_request c call i requester db ≡ ok (v, d)
      → IsDecided idempotency_ttl call approve i d
  unfolding approve_request
  approve-IsDecided i requester h =
      decided approve i (λ e s. approve_slot call.actor requester call.now e.blocks s)
        (λ e s. approve_slot-HostedBy call.actor s requester call.now e.blocks) h

  pub reject-IsDecided :
      (i requester : ℕ)
      → reject_request c call i requester db ≡ ok (v, d)
      → IsDecided idempotency_ttl call reject i d
  unfolding reject_request
  reject-IsDecided i requester h =
      decided reject i (λ e s. reject_slot call.actor requester call.now s)
        (λ e s. reject_slot-HostedBy call.actor s requester call.now) h

  pub start-IsDecided :
      (i : ℕ) → start_by_host c call i db ≡ ok (v, d) → IsDecided idempotency_ttl call start i d
  unfolding start_by_host
  start-IsDecided i h =
      decided start i (λ e s. start_slot call.actor call.now s)
        (λ e s. start_slot-HostedBy call.actor s call.now) h

  pub complete-IsDecided :
      (i : ℕ)
      → complete_by_host c call i db ≡ ok (v, d)
      → IsDecided idempotency_ttl call complete i d
  unfolding complete_by_host
  complete-IsDecided i h =
      decided complete i (λ e s. complete_slot call.actor call.now s)
        (λ e s. complete_slot-HostedBy call.actor s call.now) h

  pub joined :
      (i : ℕ) → join_instant c call i db ≡ ok (v, d) → IsClaimed idempotency_ttl call join i d
  unfolding join_instant
  joined i h =
      let body : Db → Slot → Result Slot = λ e s. join_slot call.actor call.now e.blocks s in
      let (r, done, answered) =
        >>=-eq-ok (transact idempotency_ttl call join i body db) (λ r. answer call.actor r) h in
      let first = transact-FirstClaim idempotency_ttl call join i db body free in
      let first' : (r.0 ≡ i) × FirstClaim idempotency_ttl call join i db (r.1) = rw done at first in
      rw (answer-eq-ok call.actor (r.0) (r.1) d v answered) at
        (FirstClaim-IsClaimed idempotency_ttl call join i db (r.1) (first'.1))
