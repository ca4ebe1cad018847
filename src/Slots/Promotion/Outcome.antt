-- ===== src/Slots/Promotion/Outcome.antt =====
-- The rows after a promotion, and the columns that it leaves alone.
use qweqwe.Base.{
  ℕ, ◌+◌, ◌≤◌, ◌<◌, ◌≡◌, refl, ◌⊎◌, false, none, some, List, [], ◌∷◌, arith, length, if◌then◌else◌,
}
use qweqwe.Slots.Model.{Slot, UserRow}
use qweqwe.Slots.Rows.{exists_row, delete_row, exists-delete}
use qweqwe.Slots.Tables.{BlockRow}
use qweqwe.Slots.Roster.{IsRoster, delete_request-IsRoster, add_member-IsRoster}
use qweqwe.Slots.Waitlist.{is_skipped, promote_loop, promote_oldest, promoted_count, queue_order}
use qweqwe.Slots.Promotion.Queue.{exists-queue_order}

-- The columns that a promotion does not write.
pub record Keeps (s t : Slot) : Type 0 where
  pub host_id : t.host_id ≡ s.host_id
  pub capacity : t.capacity ≡ s.capacity
  pub accepted_count : t.accepted_count ≡ s.accepted_count
  pub state : t.state ≡ s.state
  pub access_mode : t.access_mode ≡ s.access_mode
  pub version : t.version ≡ s.version

pub promote_loop-Keeps :
    (ttl now : ℕ) (blocks : List BlockRow) (cs : List UserRow) (s : Slot)
    → Keeps s (promote_loop ttl now blocks cs s).0
unfolding promote_loop
promote_loop-Keeps ttl now blocks [] s = ground arith
promote_loop-Keeps ttl now blocks (c ∷ cs) s = ground (
  arith,
  promote_loop-Keeps ttl now blocks cs (record s { requests = delete_row c.user s.requests }),
)

-- The host never stands in its own queue, so no candidate is the host.
abbrev HostAbsent : ℕ → List UserRow → Type 0
HostAbsent host cs = exists_row host cs ≡ false

pub promote_loop-IsRoster :
    (ttl now : ℕ) (blocks : List BlockRow) (cs : List UserRow) (s : Slot)
    → HostAbsent s.host_id cs
    → IsRoster blocks s.host_id s.requests s.members
    → let t = (promote_loop ttl now blocks cs s).0 in IsRoster blocks s.host_id t.requests t.members
unfolding promote_loop exists_row is_skipped
promote_loop-IsRoster ttl now blocks [] s h v = v
promote_loop-IsRoster ttl now blocks (c ∷ cs) s h v = ground (
  arith,
  delete_request-IsRoster v c.user,
  add_member-IsRoster v c.user now,
  promote_loop-IsRoster ttl now blocks cs (record s { requests = delete_row c.user s.requests }),
)

pub promote_loop_count :
    (ttl now : ℕ) (blocks : List BlockRow) (cs : List UserRow) (s : Slot)
    → let r = promote_loop ttl now blocks cs s in
      length (r.0).members ≡ promoted_count (length s.members) r.1
unfolding promote_loop
promote_loop_count ttl now blocks [] s = refl
promote_loop_count ttl now blocks (c ∷ cs) s = ground (
  arith,
  promote_loop_count ttl now blocks cs (record s { requests = delete_row c.user s.requests }),
)

-- If nobody is promoted, every candidate has lost its request.
promote_loop_drained :
    (ttl now : ℕ) (blocks : List BlockRow) (cs : List UserRow) (s : Slot) (u : ℕ)
    → (promote_loop ttl now blocks cs s).1 ≡ none
    → exists_row u (promote_loop ttl now blocks cs s).0.requests
      ≡ (if exists_row u cs then false else exists_row u s.requests)
unfolding promote_loop exists_row
promote_loop_drained ttl now blocks [] s u h = refl
promote_loop_drained ttl now blocks (c ∷ cs) s u h = ground (
  arith,
  exists-delete u c.user s.requests,
  promote_loop_drained ttl now blocks cs (record s { requests = delete_row c.user s.requests }) u,
)

nil_of_no_rows : (rs : List UserRow) → ((u : ℕ) → exists_row u rs ≡ false) → rs ≡ []
unfolding exists_row
nil_of_no_rows [] h = refl
nil_of_no_rows (r ∷ rs) h = ground (arith, h r.user)

-- A promotion that promotes nobody empties the queue.
pub promote_loop_empties :
    (ttl now : ℕ) (blocks : List BlockRow) (s : Slot)
    → let r = promote_loop ttl now blocks (queue_order s.requests) s in
      r.1 ≡ none → (r.0).requests ≡ []
promote_loop_empties ttl now blocks s h = nil_of_no_rows _ λ u. ground (
  arith,
  exists-queue_order u s.requests,
  promote_loop_drained ttl now blocks (queue_order s.requests) s u h,
)

-- What a promotion, or a run of promotions, has done to the rows: `n` is the count after it.
pub record IsPromoted (blocks : List BlockRow) (s t : Slot) (n : ℕ) : Type 0 where
  pub keeps : Keeps s t
  pub roster : IsRoster blocks s.host_id t.requests t.members
  pub counted : n ≡ length t.members

module _ (ttl now : ℕ) (blocks : List BlockRow) (s : Slot)
    (v : IsRoster blocks s.host_id s.requests s.members) where
  host_not_queued : HostAbsent s.host_id (queue_order s.requests)
  host_not_queued = ground (arith, v.host_apart, exists-queue_order s.host_id s.requests)

  pub promote_oldest-IsPromoted :
      (count capacity : ℕ)
      → count ≡ length s.members
      → let r = promote_oldest ttl now blocks count capacity s in IsPromoted blocks s r.0 r.1
  unfolding promote_oldest
  promote_oldest-IsPromoted count capacity e = ground (
    arith,
    promote_loop-Keeps ttl now blocks (queue_order s.requests) s,
    promote_loop-IsRoster ttl now blocks (queue_order s.requests) s host_not_queued v,
    promote_loop_count ttl now blocks (queue_order s.requests) s,
  )

-- Unless someone was promoted, the Slot was full already or the queue is empty now.
pub promote_oldest_stops :
    (ttl now : ℕ) (blocks : List BlockRow) (count capacity : ℕ) (s : Slot)
    → let r = promote_oldest ttl now blocks count capacity s in
      r.2 ≡ none → (r.1 ≡ count) × ((capacity ≤ count) ⊎ ((r.0).requests ≡ []))
unfolding promote_oldest
promote_oldest_stops ttl now blocks count capacity s h =
    ground (arith, promote_loop_empties ttl now blocks s)

-- A promotion adds one member at most, and only below the capacity.
pub promote_oldest_bounds :
    (ttl now : ℕ) (blocks : List BlockRow) (count capacity : ℕ) (s : Slot)
    → let r = promote_oldest ttl now blocks count capacity s in
      (count ≤ r.1) × ((r.1 ≡ count) ⊎ ((r.1 ≡ count + 1) × (count < capacity)))
unfolding promote_oldest
promote_oldest_bounds ttl now blocks count capacity s = ground arith

pub promote_oldest_advances :
    (ttl now : ℕ) (blocks : List BlockRow) (count capacity : ℕ) (s : Slot) (u : ℕ)
    → let r = promote_oldest ttl now blocks count capacity s in
      r.2 ≡ some u → (r.1 ≡ count + 1) × (count < capacity)
unfolding promote_oldest
promote_oldest_advances ttl now blocks count capacity s u h = ground arith

-- An empty queue promotes nobody.
pub promote_oldest_idle :
    (ttl now : ℕ) (blocks : List BlockRow) (count capacity : ℕ) (s : Slot)
    → s.requests ≡ []
    → (promote_oldest ttl now blocks count capacity s).2 ≡ none
unfolding promote_oldest promote_loop queue_order
promote_oldest_idle ttl now blocks count capacity s h = ground arith

pub promote_oldest-Keeps :
    (ttl now : ℕ) (blocks : List BlockRow) (count capacity : ℕ) (s : Slot)
    → Keeps s (promote_oldest ttl now blocks count capacity s).0
unfolding promote_oldest
promote_oldest-Keeps ttl now blocks count capacity s =
    ground (arith, promote_loop-Keeps ttl now blocks (queue_order s.requests) s)
