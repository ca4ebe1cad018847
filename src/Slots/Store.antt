-- ===== src/Slots/Store.antt =====
-- The methods of V11SlotStore, the Slot store that the server is wired with (cmd/api/main.go), each with its
-- answer and the committed database.
use qweqwe.Base.{
  ℕ, not, ◌||◌, none, some, ◌∷◌, Result, ok, err, or_fail, ◌>>=◌, ◌>>◌, fail_if, invalid_input,
  not_found, database_error, ◌==◌, if◌then◌else◌,
}
use qweqwe.Slots.Model.{Slot, EditInput, is_waitlist, is_draft}
use qweqwe.Slots.Tables.{
  Operation, create, edit, cancel, request, leave, approve, reject, start, complete, remove_member,
  join, create_draft, publish_draft, Db, View, find_slot, get_internal,
}
use qweqwe.Slots.Idempotency.{Call, claim_idempotency}
use qweqwe.Slots.Transaction.{update_slot, transact}
use qweqwe.Slots.Social.{
  cancel_slot, request_slot, leave_slot, approve_slot, reject_slot, start_slot, complete_slot,
  remove_authorized, remove_slot_member,
}
use qweqwe.Slots.Waitlist.{join_slot, waitlist_request, waitlist_leave, waitlist_remove_member}
use qweqwe.Slots.Hosting.{
  ensure_place_active, created_row, draft_row, publish_slot, edit_slot, attach_selected,
  attach_geometry,
}

-- The configuration that the stores are built with.
pub record Config : Type 0 where
  pub idempotency_ttl : ℕ
  pub waitlist_request_ttl : ℕ

-- The answer read inside the transaction, or by `getInternal` after it.
unfoldable pub answer : ℕ → ℕ × Db → Result (View × Db)
answer actor (i, db) = do v ← get_internal db actor i; ok (v, db)

-- The answer of a host's write of the draft, with the host-only fields.
unfoldable pub answer_attached : ℕ → ℕ × Db → Result (View × Db)
answer_attached actor (i, db) = do
  s ← or_fail (find_slot i db.slots) not_found
  v ← get_internal db actor i
  ok (attach_geometry s (attach_selected s v), db)

-- INSERT INTO slots; the primary key refuses an id that is taken.
unfoldable pub insert_slot : ℕ → Slot → Db → Result Db
insert_slot i s db = elim (find_slot i db.slots) [
  | none ↦ ok (record db { slots = (i, s) ∷ db.slots })
  | some t ↦ err database_error
]

-- A transaction that claims the key, and inserts the row unless the call is a replay.
unfoldable pub insert_once : ℕ → Call → Operation → ℕ → Slot → Db → Result (ℕ × Db)
insert_once ttl call op i row db = do
  (replay, resource, claimed) ← claim_idempotency ttl db call op i
  if replay then ok (resource, claimed) else (do
    ensure_place_active claimed.active_places row.canonical_place_id
    committed ← insert_slot i row claimed
    ok (i, committed))

module _ (c : Config) (call : Call) where
  open c use {idempotency_ttl, waitlist_request_ttl}
  open call use {actor, now}

  -- `Create`; the claim is made at the candidate's CreatedAt, which is the call's time.
  unfoldable pub create_slot : ℕ → Slot → Db → Result (View × Db)
  create_slot i candidate db = do
    r ← insert_once idempotency_ttl call create i (created_row actor candidate) db
    answer actor r

  -- `CreateDraft`
  unfoldable pub create_draft_slot : ℕ → Slot → Db → Result (View × Db)
  create_draft_slot i candidate db = do
    fail_if (not (is_draft candidate.state) || not (candidate.accepted_count == 0)) invalid_input
    r ← insert_once idempotency_ttl call create_draft i (draft_row actor candidate) db
    answer_attached actor r

  -- `PublishDraft`
  unfoldable pub publish : ℕ → ℕ → Db → Result (View × Db)
  publish i expected db = do
    r ← transact idempotency_ttl call publish_draft i (λ d s. publish_slot actor expected now s) db
    answer actor r

  -- `Edit`
  unfoldable pub edit_details : ℕ → EditInput → Db → Result (View × Db)
  edit_details i patch db = do
    r ←
        transact idempotency_ttl call edit i
          (λ d s. edit_slot waitlist_request_ttl actor patch now d.active_places d.blocks s) db
    answer_attached actor r

  -- `Cancel`, and the four after it: the v1.0 method, then `getInternal` of the Slot that was named.
  unfoldable pub cancel_by_host : ℕ → ℕ → Db → Result (View × Db)
  cancel_by_host i expected db = do
    r ← transact idempotency_ttl call cancel i (λ d s. cancel_slot actor expected now s) db
    answer actor (i, r.1)

  unfoldable pub approve_request : ℕ → ℕ → Db → Result (View × Db)
  approve_request i requester db = do
    r ←
        transact idempotency_ttl call approve i (λ d s. approve_slot actor requester now d.blocks s)
          db
    answer actor (i, r.1)

  unfoldable pub reject_request : ℕ → ℕ → Db → Result (View × Db)
  reject_request i requester db = do
    r ← transact idempotency_ttl call reject i (λ d s. reject_slot actor requester now s) db
    answer actor (i, r.1)

  unfoldable pub start_by_host : ℕ → Db → Result (View × Db)
  start_by_host i db = do
    r ← transact idempotency_ttl call start i (λ d s. start_slot actor now s) db
    answer actor (i, r.1)

  unfoldable pub complete_by_host : ℕ → Db → Result (View × Db)
  complete_by_host i db = do
    r ← transact idempotency_ttl call complete i (λ d s. complete_slot actor now s) db
    answer actor (i, r.1)

  -- `Join`
  unfoldable pub join_instant : ℕ → Db → Result (View × Db)
  join_instant i db = do
    r ← transact idempotency_ttl call join i (λ d s. join_slot actor now d.blocks s) db
    answer actor r

  -- `Request`: the access mode, read before the transaction, chooses the v1.0 or the waitlist path.
  unfoldable pub request_seat : ℕ → Db → Result (View × Db)
  request_seat i db = do
    s ← or_fail (find_slot i db.slots) not_found
    if is_waitlist s.access_mode
        then (do
          r ←
              transact idempotency_ttl call request i
                (λ d t. waitlist_request waitlist_request_ttl actor now d.blocks t) db
          answer actor r)
        else (do
          r ← transact idempotency_ttl call request i (λ d t. request_slot actor now d.blocks t) db
          answer actor (i, r.1))

  -- `Leave`
  unfoldable pub leave_seat : ℕ → Db → Result (View × Db)
  leave_seat i db = do
    s ← or_fail (find_slot i db.slots) not_found
    if is_waitlist s.access_mode
        then (do
          r ←
              transact idempotency_ttl call leave i
                (λ d t. waitlist_leave waitlist_request_ttl actor now d.blocks t) db
          answer actor r)
        else (do
          r ← transact idempotency_ttl call leave i (λ d t. leave_slot actor now t) db
          answer actor (i, r.1))

  -- `RemoveMember` of the v1.0 store: a replay still checks the host and the blocks.
  unfoldable pub remove_once : ℕ → ℕ → ℕ → Db → Result Db
  remove_once i member expected db = do
    (replay, resource, claimed) ← claim_idempotency idempotency_ttl db call remove_member i
    if replay
        then (do
          s ← or_fail (find_slot i claimed.slots) not_found
          remove_authorized actor member claimed.blocks s
          ok claimed)
        else update_slot i (λ d s. remove_slot_member actor member expected now d.blocks s) claimed

  unfoldable pub remove_from_slot : ℕ → ℕ → ℕ → Db → Result (View × Db)
  remove_from_slot i member expected db = do
    s ← or_fail (find_slot i db.slots) not_found
    if is_waitlist s.access_mode
        then (do
          r ←
              transact idempotency_ttl call remove_member i
                (λ d t.
                  waitlist_remove_member waitlist_request_ttl actor member expected now d.blocks t)
                db
          answer actor r)
        else (do d ← remove_once i member expected db; answer actor (i, d))
