-- ===== src/Friend/Rows.antt =====
-- The rows of friend_requests and friendships under the statements of the friend store.
use qweqwe.Base.{
  ℕ, ◌≡◌, refl, ap, ◌∙◌, true, false, ◌&&◌, ◌||◌, List, [], ◌∷◌, arith, ◌==◌, any, update, delete,
  Bool-cases, inl, inr, any-delete, any-deleted,
}
use qweqwe.Friend.Store.{
  FriendRequest, Friendship, RequestStatus, pending, accepted, rejected, cancelled, status_eq,
  is_request, is_id, responded, is_pair, pair_lo, pair_hi, are_linked, link,
}
use qweqwe.Friend.Contract.{set_at, set_both}

-- The primary key, and the unique index of the pending pairs.
abbrev pub UniqueIds : List FriendRequest → Type 0
UniqueIds [] = Unit {0}
UniqueIds (r ∷ rs) = (any (is_id r.id) rs ≡ false) × UniqueIds rs

abbrev pub UniquePending : List FriendRequest → Type 0
UniquePending [] = Unit {0}
UniquePending (r ∷ rs) =
    (r.status ≡ pending → any (is_request pending r.requester r.target) rs ≡ false)
    × UniquePending rs

pub status_eq→≡ : (s t : RequestStatus) → status_eq s t ≡ true → s ≡ t
status_eq→≡ pending pending h = refl
status_eq→≡ accepted accepted h = refl
status_eq→≡ rejected rejected h = refl
status_eq→≡ cancelled cancelled h = refl
status_eq→≡ _ _ h = ground arith

other_status :
    (s t : RequestStatus)
    → status_eq s pending ≡ true
    → status_eq t pending ≡ false
    → status_eq s t ≡ false
other_status s t h k = rw (status_eq→≡ s pending h) (pending_apart t k)
  where
    pending_apart : (u : RequestStatus) → status_eq u pending ≡ false → status_eq pending u ≡ false
    pending_apart pending e = ground arith
    pending_apart accepted e = refl
    pending_apart rejected e = refl
    pending_apart cancelled e = refl

-- The two orders of a pair are one.
is_pair-same :
    (a b x y : ℕ) (f : Friendship)
    → is_pair x y f ≡ true
    → is_pair a b f ≡ ((x == a && y == b) || (x == b && y == a))
is_pair-same a b x y f h = ground arith

linked-sym : (a b : ℕ) (fs : List Friendship) → are_linked a b fs ≡ are_linked b a fs
linked-sym a b [] = refl
linked-sym a b (f ∷ fs) = ground (arith, linked-sym a b fs)

is_pair_new :
    (a b now x y : ℕ)
    → is_pair x y (record { user_lo = pair_lo a b; user_hi = pair_hi a b; created_at = now })
      ≡ ((x == a && y == b) || (x == b && y == a))
is_pair_new a b now x y = ground arith

pub linked-link :
    (a b now x y : ℕ) (fs : List Friendship)
    → are_linked x y (link a b now fs) ≡ set_both a b true (λ u v. are_linked u v fs) x y
unfolding link
linked-link a b now x y fs = elim (Bool-cases (are_linked a b fs)) [
  | inl known ↦
      rw (known, link) (ground (arith, known, linked-sym a b fs, same_pair a b, same_pair b a))
  | inr new ↦ rw (new, link) (ground (arith, is_pair_new a b now x y))
]
  where
    same_pair : (c d : ℕ) → (x == c && y == d) ≡ true → are_linked x y fs ≡ are_linked c d fs
    same_pair c d h =
        ap (λ u. are_linked u y fs) (ground arith) ∙ ap (λ u. are_linked c u fs) (ground arith)

pub linked-delete :
    (a b x y : ℕ) (fs : List Friendship)
    → are_linked x y (delete (is_pair a b) fs) ≡ set_both a b false (λ u v. are_linked u v fs) x y
linked-delete a b x y fs = elim (Bool-cases ((x == a && y == b) || (x == b && y == a))) [
  | inl same ↦
      rw (same)
        (any-deleted (is_pair a b) (is_pair x y) (λ f h. is_pair-same a b x y f h ∙ same) fs)
  | inr other ↦
      rw (other)
        (any-delete (is_pair a b) (is_pair x y) (λ f h. ground (arith, is_pair-same a b x y f)) fs)
]

-- An UPDATE of the pending row, seen by each status.
pub pending-close :
    (a b now x y : ℕ) (s : RequestStatus) (rs : List FriendRequest)
    → status_eq s pending ≡ false
    → any (is_request pending x y) (update (is_request pending a b) (responded s now) rs)
      ≡ set_at a b false (λ u v. any (is_request pending u v) rs) x y
pending-close a b now x y s [] h = ground arith
pending-close a b now x y s (r ∷ rs) h = ground (arith, pending-close a b now x y s rs)

pub status-close :
    (a b now x y : ℕ) (s t : RequestStatus) (rs : List FriendRequest)
    → status_eq t pending ≡ false
    → any (is_request t x y) (update (is_request pending a b) (responded s now) rs) ≡ (
        any (is_request t x y) rs
        || (status_eq s t && (x == a && y == b && any (is_request pending a b) rs)))
status-close a b now x y s t [] h = ground arith
status-close a b now x y s t (r ∷ rs) h = elim (Bool-cases (is_request pending a b r)) [
  | inl mine ↦
      rw (mine) (ground (arith, mine, h, other_status r.status t, status-close a b now x y s t rs))
  | inr other ↦ rw (other) (ground (arith, status-close a b now x y s t rs h))
]
