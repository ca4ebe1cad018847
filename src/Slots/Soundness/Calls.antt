-- ===== src/Slots/Soundness/Calls.antt =====
-- Each call of the service keeps every Slot sound.
use qweqwe.Base.{
  ℕ, ◌≡◌, refl, inl, inr, true, false, some, arith, ◌==◌, Ensures, Option-cases, Bool-cases,
  bind-Ensures,
}
use qweqwe.Slots.Model.{Slot, EditInput, is_waitlist}
use qweqwe.Slots.Tables.{
  Operation, create, edit, cancel, request, leave, approve, reject, start, complete, remove_member,
  join, create_draft, publish_draft, Db, find_slot,
}
use qweqwe.Slots.Idempotency.{Call, claim_idempotency}
use qweqwe.Slots.Social.{remove_slot_member, request_slot}
use qweqwe.Slots.Waitlist.{waitlist_request}
use qweqwe.Slots.Store.{
  Config, answer, insert_slot, insert_once, create_slot, create_draft_slot, publish, edit_details,
  cancel_by_host, approve_request, reject_request, start_by_host, complete_by_host, join_instant,
  request_seat, leave_seat, remove_once, remove_from_slot,
}
use qweqwe.Slots.Service.{
  CreateInput, Command, creates, creates_draft, publishes, edits, cancels, requests, joins, leaves,
  approves, rejects, starts, completes, removes, candidate, draft_candidate, valid_capacity, serve,
}
use qweqwe.Slots.Invariant.{
  IsSound, cancel_slot-IsSound, request_slot-IsSound, leave_slot-IsSound, approve_slot-IsSound,
  reject_slot-IsSound, start_slot-IsSound, complete_slot-IsSound, remove_slot_member-IsSound,
}
use qweqwe.Slots.Invariant.Admission.{
  join_slot-IsSound, waitlist_request-IsSound, waitlist_leave-IsSound,
  waitlist_remove_member-IsSound,
}
use qweqwe.Slots.Invariant.Hosting.{
  created_row-IsSound, draft_row-IsSound, publish_slot-IsSound, edit_slot-IsSound,
}
use qweqwe.Slots.Soundness.Tables.{
  AllSound, LeavesSound, SameTables, claim_idempotency-SameTables, update_slot-AllSound,
  transact-AllSound, ClaimKeeps, same-AllSound,
}
use qweqwe.Slots.Soundness.Answers.{answered, answered_attached, answered_at, answer-LeavesSound}

module _ (c : Config) (call : Call) (db : Db) (sound : AllSound db) where
  open call use {actor, now}

  publish-LeavesSound : (i expected : ℕ) → Ensures LeavesSound (publish c call i expected db)
  unfolding publish
  publish-LeavesSound i expected = answered actor _ (
      transact-AllSound db sound _ call publish_draft i _
        λ d s same found v. publish_slot-IsSound db.blocks s v actor expected now)

  edit_details-LeavesSound :
      (i : ℕ) (p : EditInput) → Ensures LeavesSound (edit_details c call i p db)
  unfolding edit_details
  edit_details-LeavesSound i p = answered_attached actor _ (
      transact-AllSound db sound _ call edit i _ λ d s same found v.
        rw same.blocks
          (edit_slot-IsSound db.blocks s v c.waitlist_request_ttl actor p now d.active_places))

  cancel-LeavesSound : (i expected : ℕ) → Ensures LeavesSound (cancel_by_host c call i expected db)
  unfolding cancel_by_host
  cancel-LeavesSound i expected =
      answered_at actor _
        (transact-AllSound db sound _ call cancel i _
          λ d s same found v. cancel_slot-IsSound db.blocks s v actor expected now)
        i

  approve-LeavesSound :
      (i requester : ℕ)
      → (actor == requester) ≡ false
      → Ensures LeavesSound (approve_request c call i requester db)
  unfolding approve_request
  approve-LeavesSound i requester other =
      answered_at actor _
        (transact-AllSound db sound _ call approve i _ λ d s same found v.
          rw same.blocks (approve_slot-IsSound db.blocks s v actor requester now other))
        i

  reject-LeavesSound :
      (i requester : ℕ) → Ensures LeavesSound (reject_request c call i requester db)
  unfolding reject_request
  reject-LeavesSound i requester =
      answered_at actor _
        (transact-AllSound db sound _ call reject i _
          λ d s same found v. reject_slot-IsSound db.blocks s v actor requester now)
        i

  start-LeavesSound : (i : ℕ) → Ensures LeavesSound (start_by_host c call i db)
  unfolding start_by_host
  start-LeavesSound i =
      answered_at actor _
        (transact-AllSound db sound _ call start i _
          λ d s same found v. start_slot-IsSound db.blocks s v actor now)
        i

  complete-LeavesSound : (i : ℕ) → Ensures LeavesSound (complete_by_host c call i db)
  unfolding complete_by_host
  complete-LeavesSound i =
      answered_at actor _
        (transact-AllSound db sound _ call complete i _
          λ d s same found v. complete_slot-IsSound db.blocks s v actor now)
        i

  join-LeavesSound : (i : ℕ) → Ensures LeavesSound (join_instant c call i db)
  unfolding join_instant
  join-LeavesSound i = answered actor _ (
      transact-AllSound db sound _ call join i _
        λ d s same found v. rw same.blocks (join_slot-IsSound db.blocks s v actor now))

  -- The paths of `Request`, `Leave` and `RemoveMember`, by the access mode read first.
  request-LeavesSound : (i : ℕ) → Ensures LeavesSound (request_seat c call i db)
  unfolding request_seat
  request-LeavesSound i = ground (
    arith,
    answered actor _ (
        transact-AllSound db sound c.idempotency_ttl call request i
          (λ d t. waitlist_request c.waitlist_request_ttl actor now d.blocks t)
          λ d s same found v.
            rw same.blocks
              (waitlist_request-IsSound db.blocks s v c.waitlist_request_ttl actor now)),
    answered_at actor _
        (transact-AllSound db sound c.idempotency_ttl call request i
          (λ d t. request_slot actor now d.blocks t)
          λ d s same found v. rw same.blocks (request_slot-IsSound db.blocks s v actor now))
        i,
  )

  leave-LeavesSound : (i : ℕ) → Ensures LeavesSound (leave_seat c call i db)
  unfolding leave_seat
  leave-LeavesSound i = elim (Option-cases (find_slot i db.slots)) [
    | inl missing ↦ rw (missing, leave_seat) tt
    | inr (s, found) ↦ elim (Bool-cases (is_waitlist s.access_mode)) [
      | inl queued ↦
          rw (found, queued, leave_seat)
            (answered actor _ (
              transact-AllSound db sound _ call leave i _ λ d t same _ v.
                rw same.blocks
                  (waitlist_leave-IsSound db.blocks t v c.waitlist_request_ttl actor now)))
      | inr plain ↦
          rw (found, plain, leave_seat)
            (answered_at actor _
              (transact-AllSound db sound _ call leave i _ λ d t same found' v.
                leave_slot-IsSound db.blocks t v actor now (ground (arith, found, found')))
              i)
    ]
  ]

  remove_once-AllSound :
      (i member expected : ℕ) (s : Slot)
      → find_slot i db.slots ≡ some s
      → is_waitlist s.access_mode ≡ false
      → Ensures AllSound (remove_once c call i member expected db)
  unfolding remove_once
  remove_once-AllSound i member expected s found plain =
      bind-Ensures (ClaimKeeps db) AllSound
        (claim_idempotency c.idempotency_ttl db call remove_member i) _
        (claim_idempotency-SameTables c.idempotency_ttl db call remove_member i)
        λ r same. ground (
          arith,
          same-AllSound db sound r.2 same,
          update_slot-AllSound db sound i
              (λ d t. remove_slot_member actor member expected now d.blocks t) r.2 same
              λ t found' v. rw same.blocks (
                remove_slot_member-IsSound db.blocks t v actor member expected now
                  (ground (arith, found, found'))),
        )

  remove-LeavesSound :
      (i member expected : ℕ) → Ensures LeavesSound (remove_from_slot c call i member expected db)
  unfolding remove_from_slot
  remove-LeavesSound i member expected = elim (Option-cases (find_slot i db.slots)) [
    | inl missing ↦ rw (missing, remove_from_slot) tt
    | inr (s, found) ↦ elim (Bool-cases (is_waitlist s.access_mode)) [
      | inl queued ↦
          rw (found, queued, remove_from_slot)
            (answered actor _ (
              transact-AllSound db sound _ call remove_member i _ λ d t same _ v. rw same.blocks (
                waitlist_remove_member-IsSound db.blocks t v c.waitlist_request_ttl actor member
                  expected now)))
      | inr plain ↦
          rw (found, plain, remove_from_slot)
            (bind-Ensures AllSound LeavesSound (remove_once c call i member expected db)
              (λ d. answer actor (i, d)) (remove_once-AllSound i member expected s found plain)
              λ d p. answer-LeavesSound actor i d p)
    ]
  ]

  insert_slot-AllSound :
      (i : ℕ) (row : Slot) (d : Db)
      → SameTables db d
      → IsSound db.blocks row
      → Ensures AllSound (insert_slot i row d)
  unfolding insert_slot
  insert_slot-AllSound i row d same v = elim (Option-cases (find_slot i d.slots)) [
    | inl free ↦ rw (free, insert_slot) (rw same.blocks v, same-AllSound db sound d same)
    | inr (s, taken) ↦ rw (taken, insert_slot) tt
  ]

  insert_once-LeavesSound :
      (op : Operation) (i : ℕ) (row : Slot)
      → IsSound db.blocks row
      → Ensures LeavesSound (insert_once c.idempotency_ttl call op i row db)
  unfolding insert_once
  insert_once-LeavesSound op i row v =
      bind-Ensures (ClaimKeeps db) LeavesSound (claim_idempotency c.idempotency_ttl db call op i) _
        (claim_idempotency-SameTables c.idempotency_ttl db call op i)
        λ r same.
          ground (arith, same-AllSound db sound r.2 same, insert_slot-AllSound i row r.2 same v)

  create-LeavesSound :
      (i : ℕ) (input : CreateInput)
      → valid_capacity input.capacity ≡ true
      → Ensures LeavesSound (create_slot c call i (candidate call input) db)
  unfolding create_slot candidate
  create-LeavesSound i input fits = answered actor _ (
      insert_once-LeavesSound create i _
        (created_row-IsSound db.blocks actor (candidate call input) refl (ground arith)))

  draft-LeavesSound : (i : ℕ) (row : Slot) → Ensures LeavesSound (create_draft_slot c call i row db)
  unfolding create_draft_slot
  draft-LeavesSound i row = ground (
    arith,
    answered_attached actor _
        (insert_once-LeavesSound create_draft i _ (draft_row-IsSound db.blocks actor row)),
  )

  -- Whatever the service is asked, the database that it commits is sound.
  pub serve-LeavesSound : (command : Command) → Ensures LeavesSound (serve c call command db)
  unfolding serve
  serve-LeavesSound (creates id input) = ground (arith, create-LeavesSound id input)
  serve-LeavesSound (creates_draft id input) =
      ground (arith, draft-LeavesSound id (draft_candidate call input))
  serve-LeavesSound (publishes i expected) = ground (arith, publish-LeavesSound i expected)
  serve-LeavesSound (edits i patch) = ground (arith, edit_details-LeavesSound i patch)
  serve-LeavesSound (cancels i expected) = ground (arith, cancel-LeavesSound i expected)
  serve-LeavesSound (requests i) = request-LeavesSound i
  serve-LeavesSound (joins i) = join-LeavesSound i
  serve-LeavesSound (leaves i) = leave-LeavesSound i
  serve-LeavesSound (approves i requester) = ground (arith, approve-LeavesSound i requester)
  serve-LeavesSound (rejects i requester) = ground (arith, reject-LeavesSound i requester)
  serve-LeavesSound (starts i) = start-LeavesSound i
  serve-LeavesSound (completes i) = complete-LeavesSound i
  serve-LeavesSound (removes i member expected) =
      ground (arith, remove-LeavesSound i member expected)
