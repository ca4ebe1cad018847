-- ===== src/Slots/Evolution/Calls.antt =====
-- Each call of the service changes each Slot at most once.
use qweqwe.Base.{ℕ, ◌≡◌, refl, inl, inr, none, ◌∷◌, arith, Ensures, Option-cases, bind-Ensures}
use qweqwe.Slots.Model.{Slot, EditInput}
use qweqwe.Slots.Tables.{
  Operation, create, edit, cancel, request, leave, approve, reject, start, complete, remove_member,
  join, create_draft, publish_draft, Db, find_slot,
}
use qweqwe.Slots.Idempotency.{Call, claim_idempotency}
use qweqwe.Slots.Social.{remove_slot_member, leave_slot, request_slot}
use qweqwe.Slots.Waitlist.{waitlist_request, waitlist_leave, waitlist_remove_member}
use qweqwe.Slots.Hosting.{draft_row}
use qweqwe.Slots.Store.{
  Config, answer, insert_slot, insert_once, create_slot, create_draft_slot, publish, edit_details,
  cancel_by_host, approve_request, reject_request, start_by_host, complete_by_host, join_instant,
  request_seat, leave_seat, remove_once, remove_from_slot,
}
use qweqwe.Slots.Service.{
  Command, creates, creates_draft, publishes, edits, cancels, requests, joins, leaves, approves,
  rejects, starts, completes, removes, candidate, draft_candidate, serve,
}
use qweqwe.Slots.Invariant.{IsSound}
use qweqwe.Slots.Soundness.{
  AllSound, SameTables, ClaimKeeps, claim_idempotency-SameTables, find_slot-All,
}
use qweqwe.Slots.Evolution.Defs.{Tracks}
use qweqwe.Slots.Evolution.Bodies.{
  cancel_slot-IsNext, request_slot-IsNext, leave_slot-IsNext, approve_slot-IsNext,
  reject_slot-IsNext, start_slot-IsNext, complete_slot-IsNext, remove_slot_member-IsNext,
  join_slot-IsNext, waitlist_request-IsNext, waitlist_leave-IsNext, waitlist_remove_member-IsNext,
  publish_slot-IsNext, edit_slot-IsNext,
}
use qweqwe.Slots.Evolution.Tables.{same-Tracks, update_slot-Tracks, transact-Tracks}
use qweqwe.Slots.Evolution.Answers.{
  answered, answered_attached, answered_at, answer-LeavesTracked, LeavesTracked,
}

module _ (c : Config) (call : Call) (db : Db) where
  open call use {actor, now}

  publish-LeavesTracked :
      (i expected : ℕ) → Ensures (LeavesTracked db) (publish c call i expected db)
  unfolding publish
  publish-LeavesTracked i expected = answered db actor _ (
      transact-Tracks db _ call publish_draft i _
        λ d s same found. publish_slot-IsNext s actor expected now)

  edit_details-LeavesTracked :
      (i : ℕ) (p : EditInput) → Ensures (LeavesTracked db) (edit_details c call i p db)
  unfolding edit_details
  edit_details-LeavesTracked i p = answered_attached db actor _ (
      transact-Tracks db _ call edit i _ λ d s same found.
        edit_slot-IsNext s c.waitlist_request_ttl actor p now d.active_places d.blocks)

  cancel-LeavesTracked :
      (i expected : ℕ) → Ensures (LeavesTracked db) (cancel_by_host c call i expected db)
  unfolding cancel_by_host
  cancel-LeavesTracked i expected =
      answered_at db actor _
        (transact-Tracks db _ call cancel i _
          λ d s same found. cancel_slot-IsNext s actor expected now)
        i

  approve-LeavesTracked :
      (i requester : ℕ) → Ensures (LeavesTracked db) (approve_request c call i requester db)
  unfolding approve_request
  approve-LeavesTracked i requester =
      answered_at db actor _
        (transact-Tracks db _ call approve i _
          λ d s same found. approve_slot-IsNext s actor requester now d.blocks)
        i

  reject-LeavesTracked :
      (i requester : ℕ) → Ensures (LeavesTracked db) (reject_request c call i requester db)
  unfolding reject_request
  reject-LeavesTracked i requester =
      answered_at db actor _
        (transact-Tracks db _ call reject i _
          λ d s same found. reject_slot-IsNext s actor requester now)
        i

  start-LeavesTracked : (i : ℕ) → Ensures (LeavesTracked db) (start_by_host c call i db)
  unfolding start_by_host
  start-LeavesTracked i =
      answered_at db actor _
        (transact-Tracks db _ call start i _ λ d s same found. start_slot-IsNext s actor now) i

  complete-LeavesTracked : (i : ℕ) → Ensures (LeavesTracked db) (complete_by_host c call i db)
  unfolding complete_by_host
  complete-LeavesTracked i =
      answered_at db actor _
        (transact-Tracks db _ call complete i _ λ d s same found. complete_slot-IsNext s actor now)
        i

  join-LeavesTracked : (i : ℕ) → Ensures (LeavesTracked db) (join_instant c call i db)
  unfolding join_instant
  join-LeavesTracked i =
      answered db actor _
        (transact-Tracks db _ call join i _ λ d s same found. join_slot-IsNext s actor now d.blocks)

  request-LeavesTracked : (i : ℕ) → Ensures (LeavesTracked db) (request_seat c call i db)
  unfolding request_seat
  request-LeavesTracked i = ground (
    arith,
    answered db actor _ (
        transact-Tracks db c.idempotency_ttl call request i
          (λ d t. waitlist_request c.waitlist_request_ttl actor now d.blocks t)
          λ d s same found. waitlist_request-IsNext s c.waitlist_request_ttl actor now d.blocks),
    answered_at db actor _
        (transact-Tracks db c.idempotency_ttl call request i
          (λ d t. request_slot actor now d.blocks t)
          λ d s same found. request_slot-IsNext s actor now d.blocks)
        i,
  )

  leave-LeavesTracked : (i : ℕ) → AllSound db → Ensures (LeavesTracked db) (leave_seat c call i db)
  unfolding leave_seat
  leave-LeavesTracked i sound = ground (
    arith,
    answered db actor _ (
        transact-Tracks db c.idempotency_ttl call leave i
          (λ d t. waitlist_leave c.waitlist_request_ttl actor now d.blocks t)
          λ d s same found.
            waitlist_leave-IsNext s c.waitlist_request_ttl actor now d.blocks
              (rw same.blocks (find_slot-All (IsSound db.blocks) i db.slots s sound found))),
    answered_at db actor _
        (transact-Tracks db c.idempotency_ttl call leave i (λ d t. leave_slot actor now t)
          λ d s same found. leave_slot-IsNext s actor now)
        i,
  )

  remove_once-Tracks :
      (i member expected : ℕ) → Ensures (Tracks db) (remove_once c call i member expected db)
  unfolding remove_once
  remove_once-Tracks i member expected =
      bind-Ensures (ClaimKeeps db) (Tracks db)
        (claim_idempotency c.idempotency_ttl db call remove_member i) _
        (claim_idempotency-SameTables c.idempotency_ttl db call remove_member i)
        λ r same. ground (
          arith,
          same-Tracks db r.2 same,
          update_slot-Tracks db i (λ d t. remove_slot_member actor member expected now d.blocks t)
              r.2 same λ s found. remove_slot_member-IsNext s actor member expected now r.2.blocks,
        )

  remove-LeavesTracked :
      (i member expected : ℕ)
      → Ensures (LeavesTracked db) (remove_from_slot c call i member expected db)
  unfolding remove_from_slot
  remove-LeavesTracked i member expected = ground (
    arith,
    answered db actor _ (
        transact-Tracks db c.idempotency_ttl call remove_member i
          (λ d t.
            waitlist_remove_member c.waitlist_request_ttl actor member expected now d.blocks t)
          λ d s same found.
            waitlist_remove_member-IsNext s c.waitlist_request_ttl actor member expected now
              d.blocks),
    bind-Ensures (Tracks db) (LeavesTracked db) (remove_once c call i member expected db)
        (λ d. answer actor (i, d)) (remove_once-Tracks i member expected)
        λ d p. answer-LeavesTracked db actor i d p,
  )

  inserted-Tracks :
      (i : ℕ) (row : Slot) (d : Db)
      → SameTables db d
      → find_slot i d.slots ≡ none
      → Tracks db (record d { slots = (i, row) ∷ d.slots })
  unfolding find_slot
  inserted-Tracks i row d same free j s found = (s, ground (arith, same.slots), inl refl)

  insert_slot-Tracks :
      (i : ℕ) (row : Slot) (d : Db) → SameTables db d → Ensures (Tracks db) (insert_slot i row d)
  unfolding insert_slot
  insert_slot-Tracks i row d same = elim (Option-cases (find_slot i d.slots)) [
    | inl free ↦ rw (free, insert_slot) (inserted-Tracks i row d same free)
    | inr (s, taken) ↦ rw (taken, insert_slot) tt
  ]

  insert_once-LeavesTracked :
      (op : Operation) (i : ℕ) (row : Slot)
      → Ensures (LeavesTracked db) (insert_once c.idempotency_ttl call op i row db)
  unfolding insert_once
  insert_once-LeavesTracked op i row =
      bind-Ensures (ClaimKeeps db) (LeavesTracked db)
        (claim_idempotency c.idempotency_ttl db call op i) _
        (claim_idempotency-SameTables c.idempotency_ttl db call op i)
        λ r same. ground (arith, same-Tracks db r.2 same, insert_slot-Tracks i row r.2 same)

  create-LeavesTracked :
      (i : ℕ) (row : Slot) → Ensures (LeavesTracked db) (create_slot c call i row db)
  unfolding create_slot
  create-LeavesTracked i row = answered db actor _ (insert_once-LeavesTracked create i _)

  draft-LeavesTracked :
      (i : ℕ) (row : Slot) → Ensures (LeavesTracked db) (create_draft_slot c call i row db)
  unfolding create_draft_slot
  draft-LeavesTracked i row = ground (
    arith,
    answered_attached db actor _ (insert_once-LeavesTracked create_draft i (draft_row actor row)),
  )

  -- Whatever the service is asked, it keeps every Slot or takes it to its next version.
  pub serve-LeavesTracked :
      (command : Command) → AllSound db → Ensures (LeavesTracked db) (serve c call command db)
  unfolding serve
  serve-LeavesTracked (creates id input) sound =
      ground (arith, create-LeavesTracked id (candidate call input))
  serve-LeavesTracked (creates_draft id input) sound =
      ground (arith, draft-LeavesTracked id (draft_candidate call input))
  serve-LeavesTracked (publishes i expected) sound =
      ground (arith, publish-LeavesTracked i expected)
  serve-LeavesTracked (edits i patch) sound = ground (arith, edit_details-LeavesTracked i patch)
  serve-LeavesTracked (cancels i expected) sound = ground (arith, cancel-LeavesTracked i expected)
  serve-LeavesTracked (requests i) sound = request-LeavesTracked i
  serve-LeavesTracked (joins i) sound = join-LeavesTracked i
  serve-LeavesTracked (leaves i) sound = leave-LeavesTracked i sound
  serve-LeavesTracked (approves i requester) sound =
      ground (arith, approve-LeavesTracked i requester)
  serve-LeavesTracked (rejects i requester) sound = ground (arith, reject-LeavesTracked i requester)
  serve-LeavesTracked (starts i) sound = start-LeavesTracked i
  serve-LeavesTracked (completes i) sound = complete-LeavesTracked i
  serve-LeavesTracked (removes i member expected) sound =
      ground (arith, remove-LeavesTracked i member expected)
