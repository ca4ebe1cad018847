-- ===== src/Lib.antt =====
-- A model of the Go server of LinkUp: its Slot component, where users open meetings with a limited
-- number of seats, ask for a seat, are admitted, wait, leave and are removed; BUMP, where two
-- participants of a Slot prove that they met, which reads the Slots and the blocks; friend requests, whose
-- friendships the Slots read; the chat of a Slot with its bill splitter; LinkUp+ with rewarded views, purchases and referrals; the rate limiter; and the
-- decision whether a notification is pushed.
--
-- Parts and files (paths from the repository's root):
--   * Slots/Model, Slots/Rows, Slots/Tables: the data. backend/internal/slot/model.go, and the
--     tables slots, slot_requests, slot_memberships, slot_selected_viewers, mutation_idempotency,
--     user_blocks, friendships, city_context_locks and app_users as lists of rows (`Db`). The rows
--     that name a Slot stand in its record.
--   * Slots/Idempotency: `claimIdempotency` (backend/internal/postgres/slot_store.go) and
--     `authorizeIdempotencyReplayTx` (idempotency_replay.go).
--   * Slots/Transaction: what all mutations share (claim, replay, locked row, commit).
--   * Slots/Social: the v1.0 bodies of slot_store.go and remove_member.go, and the SYSTEM messages of
--     chat_system_messages.go.
--   * Slots/Waitlist: instant joins and the waitlist (v11_access_store.go, v11_waitlist_store.go).
--   * Slots/Hosting: creation, publication and editing (v11_slot_store.go, v11_hosting_store.go).
--   * Slots/Blocking: block and unblock with the clean-up of the shared Slots (block_store.go,
--     backend/internal/blocklist/service.go).
--   * Slots/Store: the methods of V11SlotStore, with their answers; cmd/api/main.go wires this store.
--   * Slots/Service: slot.Service (backend/internal/slot/service.go, v11_hosting.go, v11_access.go,
--     remove_member.go) as `serve`, one `Command` for each method that writes.
--   * Slots/System: histories of service calls, blocks, unblocks and outside writes.
--   * Slots/Roster, Promotion, Invariant, Soundness, Evolution, Once: proofs. Slots/Tests: runs.
--   * Bump/Store: proof that two participants met, backend/internal/bump/model.go and
--     backend/internal/postgres/bump_store.go, over the Slots and blocks of Slots/Tables; Credit, Mutual and
--     Nonce are the proofs, Tests the runs.
--   * RateLimit/Limiter: backend/internal/ratelimit/limiter.go; Entries, Memory, Budget and Bounds are the
--     proofs, Tests the runs.
--   * Chat/Store, Chat/Bill: backend/internal/postgres/chat_store.go and backend/internal/chat/service.go over the
--     Slots; Fair, Sending and Recent are the proofs.
--   * Monetization: LinkUp+. Model, Rewarded, Purchase and Referral are backend/internal/monetization/model.go
--     and backend/internal/postgres/monetization_store.go, Service is backend/internal/monetization/service.go
--     with the verifiers and packages of others as the record `Outside`. Quest, Counters, Earned and Viewed are
--     the proofs of the rewarded quest; Awards, AwardLoop, Qualified, Settled, Recorded, Entitlement and Replay
--     those of the purchases; Codes, Bound and Permanent those of the referrals; Reachable and Promises join them.
--   * Friend/Store, Friend/Service: backend/internal/postgres/friend_store.go and
--     backend/internal/friend/model.go. Contract says what they promise without tables; Rows, Tidy, Refinement,
--     Promise and Orderly are the proofs.
--   * Guardian/Store: backend/internal/postgres/guardian_store.go with backend/internal/guardian, the links by which
--     somebody without an account may see that a meeting goes on; Burned and Live are the proofs.
--   * Outbox/Store: backend/internal/postgres/realtime_outbox_store.go with backend/internal/realtime/model.go, the
--     cursor of one connector over the outbox of domain events; Complete, Next and Retry are the proofs.
--   * Notification/Decide: the decision logic of backend/internal/notification (model.go, decide.go);
--     Gates are the proofs, Tests the runs.
--   * Base: shared names, Boolean tests, `Result` with `Ensures`, and lists.
--
-- State and steps: a transaction locks the Slot row that it changes (SELECT … FOR UPDATE), so it is one
-- step on `Db`; an error rolls it back, so the caller keeps the database that it had. `step` and
-- `run` put the steps in any order, at any times. The calls of BUMP, of the chat, of the friends, of the guardian
-- links, of the outbox and of LinkUp+ are steps in the same way, and an outbox event becomes visible in a step of its
-- own; two of these that run at once under READ COMMITTED are not modelled.
--
-- Bounds and fuel: all numbers are natural numbers; UUIDs, keys and hashes are only compared and ordered, times are
-- nanoseconds since the epoch, in LinkUp+ seconds. The promotion loops of Edit and of Block take one round for each free seat
-- as their fuel, which is enough.
--
-- Not modelled: the reads (Get, ListPulse, ListMine, ListPending), the trimming and length limits of
-- texts, the WKT geometry, HTTP, sockets and push, the inbox and the delivery of notifications, and the other
-- components (identity, places, push). In LinkUp+ the constant catalog, for the friends the lists, of the outbox the
-- viewer's queries. The states EXPIRED and MODERATED are never written by these stores.
pub mod Base
pub mod Bump
pub mod Chat
pub mod Friend
pub mod Guardian
pub mod Monetization
pub mod Notification
pub mod Outbox
pub mod RateLimit
pub mod Slots
