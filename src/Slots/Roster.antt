-- ===== src/Slots/Roster.antt =====
-- The rows that belong to one Slot, seen together: who may stand in slot_requests and in
-- slot_memberships, and that the statements of the stores keep it so.
use qweqwe.Base.{
  ℕ, ◌≤◌, ◌≡◌, refl, false, ◌&&◌, ◌||◌, List, [], ◌∷◌, arith, ◌==◌, leb, length, inl, inr,
  Bool-cases,
}
use qweqwe.Slots.Model.{UserRow, max_pending_requests}
use qweqwe.Slots.Rows.{
  exists_row, delete_row, Unique, exists-delete, delete-Unique, length-delete-le,
}
use qweqwe.Slots.Tables.{BlockRow, blocked_pair}

-- No user has two requests or two seats, or both a request and a seat; the host has neither, nor
-- has a user that is blocked with the host; the queue is within its limit.
pub record IsRoster (blocks : List BlockRow) (host : ℕ) (requests members : List UserRow)
    : Type 0 where
  pub members_unique : Unique members
  pub requests_unique : Unique requests
  pub host_apart : (exists_row host members || exists_row host requests) ≡ false
  pub apart : (u : ℕ) → (exists_row u members && exists_row u requests) ≡ false
  pub unblocked :
      (u : ℕ)
      → ((exists_row u members || exists_row u requests) && blocked_pair u host blocks) ≡ false
  pub queue_bounded : length requests ≤ max_pending_requests

pub blocked_pair_symm : (a b : ℕ) (bs : List BlockRow) → blocked_pair a b bs ≡ blocked_pair b a bs
unfolding blocked_pair
blocked_pair_symm a b [] = refl
blocked_pair_symm a b (r ∷ rs) = ground (arith, blocked_pair_symm a b rs)

module _ {blocks : List BlockRow} {host : ℕ} {rs ms : List UserRow}
    (v : IsRoster blocks host rs ms) where
  pub delete_request-IsRoster : (u : ℕ) → IsRoster blocks host (delete_row u rs) ms
  delete_request-IsRoster u = record {
    members_unique = v.members_unique;
    requests_unique = delete-Unique u rs v.requests_unique;
    host_apart = ground (arith, v.host_apart, exists-delete host u rs);
    apart = λ x. ground (arith, v.apart x, exists-delete x u rs);
    unblocked = λ x. ground (arith, v.unblocked x, exists-delete x u rs);
    queue_bounded = omega (arith, v.queue_bounded, length-delete-le u rs);
  }

  pub delete_member-IsRoster : (u : ℕ) → IsRoster blocks host rs (delete_row u ms)
  delete_member-IsRoster u = record {
    members_unique = delete-Unique u ms v.members_unique;
    requests_unique = v.requests_unique;
    host_apart = ground (arith, v.host_apart, exists-delete host u ms);
    apart = λ x. ground (arith, v.apart x, exists-delete x u ms);
    unblocked = λ x. ground (arith, v.unblocked x, exists-delete x u ms);
    queue_bounded = v.queue_bounded;
  }

  pub clear_requests-IsRoster : IsRoster blocks host [] ms
  unfolding exists_row
  clear_requests-IsRoster = record {
    members_unique = v.members_unique;
    requests_unique = tt;
    host_apart = ground (arith, v.host_apart);
    apart = λ x. ground (arith, v.apart x);
    unblocked = λ x. ground (arith, v.unblocked x);
    queue_bounded = omega arith;
  }

  -- A new request of a user who is neither the host nor blocked, and has no row.
  pub add_request-IsRoster :
      (u now : ℕ)
      → (host == u) ≡ false
      → blocked_pair u host blocks ≡ false
      → exists_row u ms ≡ false
      → exists_row u rs ≡ false
      → leb max_pending_requests (length rs) ≡ false
      → IsRoster blocks host (record { user = u; at = now } ∷ rs) ms
  unfolding exists_row
  add_request-IsRoster u now other free seatless fresh room = record {
    members_unique = v.members_unique;
    requests_unique = (fresh, v.requests_unique);
    host_apart = ground (arith, v.host_apart);
    apart = λ x. elim (Bool-cases (u == x)) [
      | inl same ↦ ground (arith, v.apart x)
      | inr differs ↦ ground (arith, v.apart x)
    ];
    unblocked = λ x. elim (Bool-cases (u == x)) [
      | inl same ↦ ground (arith, v.unblocked x)
      | inr differs ↦ ground (arith, v.unblocked x)
    ];
    queue_bounded = ground arith;
  }

  -- A seat for a user who is neither the host nor blocked, and has no seat; the request goes.
  pub add_member-IsRoster :
      (u now : ℕ)
      → (host == u) ≡ false
      → blocked_pair u host blocks ≡ false
      → exists_row u ms ≡ false
      → IsRoster blocks host (delete_row u rs) (record { user = u; at = now } ∷ ms)
  unfolding exists_row
  add_member-IsRoster u now other free seatless = record {
    members_unique = (seatless, v.members_unique);
    requests_unique = delete-Unique u rs v.requests_unique;
    host_apart = ground (arith, v.host_apart, exists-delete host u rs);
    apart = λ x. elim (Bool-cases (u == x)) [
      | inl same ↦ ground (arith, v.apart x, exists-delete x u rs)
      | inr differs ↦ ground (arith, v.apart x, exists-delete x u rs)
    ];
    unblocked = λ x. elim (Bool-cases (u == x)) [
      | inl same ↦ ground (arith, v.unblocked x, exists-delete x u rs)
      | inr differs ↦ ground (arith, v.unblocked x, exists-delete x u rs)
    ];
    queue_bounded = omega (arith, v.queue_bounded, length-delete-le u rs);
  }
