-- ===== src/Slots/Once/Lifting.antt =====
-- What a claim makes of the database, carried through every call of the service.
use qweqwe.Base.{
  ℕ, Bool, true, false, List, arith, Result, ok, Ensures, ◌>>=◌, bind-Ensures, if◌then◌else◌,
  Ensures->>=, Ensures-if, ◌∷◌, not_found, or_fail,
}
use qweqwe.Slots.Model.{Slot, EditInput, is_waitlist}
use qweqwe.Slots.Tables.{
  Operation, create, edit, cancel, request, leave, approve, reject, start, complete, remove_member,
  join, create_draft, publish_draft, Db, View, find_slot, put_slot,
}
use qweqwe.Slots.Idempotency.{Call, claim_idempotency}
use qweqwe.Slots.Transaction.{update_slot, transact}
use qweqwe.Slots.Hosting.{draft_row}
use qweqwe.Slots.Social.{remove_slot_member}
use qweqwe.Slots.Store.{
  Config, answer, answer_attached, insert_slot, insert_once, create_slot, create_draft_slot,
  publish, edit_details, cancel_by_host, approve_request, reject_request, start_by_host,
  complete_by_host, join_instant, request_seat, leave_seat, remove_once, remove_from_slot,
}
use qweqwe.Slots.Service.{
  Command, creates, creates_draft, publishes, edits, cancels, requests, joins, leaves, approves,
  rejects, starts, completes, removes, candidate, draft_candidate, serve,
}

-- `Q` holds of the database that a claim hands on, and `P` of what the transaction commits.
module _ (c : Config) (call : Call) (db : Db) (Q : Bool → Db → Type 0) (P : Db → Type 0)
    (claims : (op : Operation) (i : ℕ)
      → Ensures
          (λ (r : Bool × ℕ × Db). Q (r.0) (r.2))
          (claim_idempotency c.idempotency_ttl db call op i))
    (replays : (d : Db) → Q true d → P d)
    (writes : (d : Db) (slots : List (ℕ × Slot)) → Q false d → P (record d { slots = slots })) where
  open call use {actor, now}

  Leaves : {A : Type 0} → A × Db → Type 0
  Leaves r = P (r.1)

  answered : (m : Result (ℕ × Db)) → Ensures Leaves m → Ensures Leaves (m >>= answer actor)
  unfolding Leaves answer
  answered m h = bind-Ensures Leaves Leaves m (answer actor) h λ r p. ground (arith, p)

  answered_attached :
      (m : Result (ℕ × Db)) → Ensures Leaves m → Ensures Leaves (m >>= answer_attached actor)
  unfolding Leaves answer_attached
  answered_attached m h =
      bind-Ensures Leaves Leaves m (answer_attached actor) h λ r p. ground (arith, p)

  answered_at :
      (m : Result (ℕ × Db)) (i : ℕ)
      → Ensures Leaves m
      → Ensures Leaves (m >>= λ r. answer actor (i, r.1))
  unfolding Leaves answer
  answered_at m i h =
      bind-Ensures Leaves Leaves m (λ r. answer actor (i, r.1)) h λ r p. ground (arith, p)

  updated :
      (i : ℕ) (body : Db → Slot → Result Slot) (d : Db)
      → Q false d
      → Ensures P (update_slot i body d)
  unfolding update_slot
  updated i body d q =
      Ensures->>= P (or_fail (find_slot i d.slots) not_found) _
        λ s. Ensures->>= P (body d s) _ λ t. writes d (put_slot i t d.slots) q

  transacted :
      (op : Operation) (i : ℕ) (body : Db → Slot → Result Slot)
      → Ensures Leaves (transact c.idempotency_ttl call op i body db)
  unfolding Leaves transact
  transacted op i body =
      bind-Ensures (λ (r : Bool × ℕ × Db). Q (r.0) (r.2)) Leaves
        (claim_idempotency c.idempotency_ttl db call op i) _ (claims op i)
        λ r q. ground (arith, replays r.2, updated i body r.2)

  removed : (i member expected : ℕ) → Ensures P (remove_once c call i member expected db)
  unfolding remove_once
  removed i member expected =
      bind-Ensures (λ (r : Bool × ℕ × Db). Q (r.0) (r.2)) P
        (claim_idempotency c.idempotency_ttl db call remove_member i) _ (claims remove_member i)
        λ r q. ground (
          arith,
          replays r.2,
          updated i (λ d s. remove_slot_member actor member expected now d.blocks s) r.2,
        )

  inserted :
      (op : Operation) (i : ℕ) (row : Slot)
      → Ensures Leaves (insert_once c.idempotency_ttl call op i row db)
  unfolding insert_once insert_slot Leaves
  inserted op i row =
      bind-Ensures (λ (r : Bool × ℕ × Db). Q (r.0) (r.2)) Leaves
        (claim_idempotency c.idempotency_ttl db call op i) _ (claims op i)
        λ r q. ground (arith, replays r.2, writes r.2 ((i, row) ∷ r.2.slots))

  -- A call named by its Slot, read before the transaction.
  by_mode :
      {A : Type 0} (i : ℕ) (queued plain : Result (A × Db))
      → Ensures Leaves queued
      → Ensures Leaves plain
      → Ensures Leaves (do
        s ← or_fail (find_slot i db.slots) not_found
        if is_waitlist s.access_mode then queued else plain)
  by_mode i queued plain h k =
      Ensures->>= Leaves (or_fail (find_slot i db.slots) not_found) _
        λ s. Ensures-if Leaves (is_waitlist s.access_mode) queued plain h k

  created : (i : ℕ) (row : Slot) → Ensures Leaves (create_slot c call i row db)
  unfolding create_slot
  created i row = answered _ (inserted create i _)

  drafted : (i : ℕ) (row : Slot) → Ensures Leaves (create_draft_slot c call i row db)
  unfolding create_draft_slot
  drafted i row = ground (
    arith,
    answered_attached (insert_once c.idempotency_ttl call create_draft i (draft_row actor row) db)
        (inserted create_draft i _),
  )

  was_published : (i expected : ℕ) → Ensures Leaves (publish c call i expected db)
  unfolding publish
  was_published i expected = answered _ (transacted publish_draft i _)

  edited : (i : ℕ) (p : EditInput) → Ensures Leaves (edit_details c call i p db)
  unfolding edit_details
  edited i p = answered_attached _ (transacted edit i _)

  was_cancelled : (i expected : ℕ) → Ensures Leaves (cancel_by_host c call i expected db)
  unfolding cancel_by_host
  was_cancelled i expected = answered_at _ i (transacted cancel i _)

  approved : (i requester : ℕ) → Ensures Leaves (approve_request c call i requester db)
  unfolding approve_request
  approved i requester = answered_at _ i (transacted approve i _)

  rejected : (i requester : ℕ) → Ensures Leaves (reject_request c call i requester db)
  unfolding reject_request
  rejected i requester = answered_at _ i (transacted reject i _)

  started : (i : ℕ) → Ensures Leaves (start_by_host c call i db)
  unfolding start_by_host
  started i = answered_at _ i (transacted start i _)

  was_completed : (i : ℕ) → Ensures Leaves (complete_by_host c call i db)
  unfolding complete_by_host
  was_completed i = answered_at _ i (transacted complete i _)

  joined : (i : ℕ) → Ensures Leaves (join_instant c call i db)
  unfolding join_instant
  joined i = answered _ (transacted join i _)

  seat_requested : (i : ℕ) → Ensures Leaves (request_seat c call i db)
  unfolding request_seat
  seat_requested i =
      by_mode i _ _ (answered _ (transacted request i _)) (answered_at _ i (transacted request i _))

  left : (i : ℕ) → Ensures Leaves (leave_seat c call i db)
  unfolding leave_seat
  left i =
      by_mode i _ _ (answered _ (transacted leave i _)) (answered_at _ i (transacted leave i _))

  member_removed :
      (i member expected : ℕ) → Ensures Leaves (remove_from_slot c call i member expected db)
  unfolding remove_from_slot Leaves
  member_removed i member expected = by_mode i _ _ (answered _ (transacted remove_member i _)) (
      bind-Ensures P Leaves (remove_once c call i member expected db) (λ d. answer actor (i, d))
        (removed i member expected) λ d p. answered_at (ok (i, d)) i p)

  pub serve-Ensures :
      (command : Command) → Ensures (λ (r : View × Db). P (r.1)) (serve c call command db)
  unfolding serve Leaves
  serve-Ensures (creates id input) = ground (arith, created id (candidate call input))
  serve-Ensures (creates_draft id input) = ground (arith, drafted id (draft_candidate call input))
  serve-Ensures (publishes i expected) = ground (arith, was_published i expected)
  serve-Ensures (edits i patch) = ground (arith, edited i patch)
  serve-Ensures (cancels i expected) = ground (arith, was_cancelled i expected)
  serve-Ensures (requests i) = seat_requested i
  serve-Ensures (joins i) = joined i
  serve-Ensures (leaves i) = left i
  serve-Ensures (approves i requester) = ground (arith, approved i requester)
  serve-Ensures (rejects i requester) = ground (arith, rejected i requester)
  serve-Ensures (starts i) = started i
  serve-Ensures (completes i) = was_completed i
  serve-Ensures (removes i member expected) = ground (arith, member_removed i member expected)
