-- ===== src/Friend/Tidy.antt =====
-- The keys of friend_requests, under the statements of the friend store.
use qweqwe.Base.{
  ℕ, ◌≡◌, refl, ap, ◌∙◌, sym, true, false, some, List, [], ◌∷◌, arith, ◌==◌, any, find, update,
  Bool-cases, inl, inr, any-update, update_none, any_member,
}
use qweqwe.Friend.Store.{
  FriendRequest, FriendDb, RequestStatus, pending, status_eq, is_request, is_id, responded,
}
use qweqwe.Friend.Rows.{UniqueIds, UniquePending, pending-close, status_eq→≡}

-- The keys hold.
pub record IsTidy (db : FriendDb) : Type 0 where
  pub ids : UniqueIds db.requests
  pub pairs : UniquePending db.requests

absent_pair :
    (a b : ℕ) (q : FriendRequest) (rs : List FriendRequest)
    → UniquePending (q ∷ rs)
    → is_request pending a b q ≡ true
    → any (is_request pending a b) rs ≡ false
absent_pair a b q rs h mine =
    ap (λ u. any (is_request pending u b) rs) (ground (arith, mine))
    ∙ (ap (λ u. any (is_request pending q.requester u) rs) (ground (arith, mine))
        ∙ h.0 (status_eq→≡ q.status pending (ground (arith, mine))))

-- The row of the id that was found is the pending row.
pub update-by_id :
    (a b now : ℕ) (s : RequestStatus) (r : FriendRequest) (rs : List FriendRequest)
    → UniqueIds rs
    → UniquePending rs
    → find (is_request pending a b) rs ≡ some r
    → update (is_id r.id) (responded s now) rs
      ≡ update (is_request pending a b) (responded s now) rs
update-by_id a b now s r [] ids pairs found = ground arith
update-by_id a b now s r (q ∷ rs) ids pairs found = elim (Bool-cases (is_request pending a b q)) [
  | inl mine ↦ ground (
    arith,
    mine,
    ap (λ u. u.id) (same mine),
    update_none (is_id r.id) (responded s now) rs (alone (same mine)),
    update_none (is_request pending a b) (responded s now) rs (absent_pair a b q rs pairs mine),
  )
  | inr other ↦ ground (
    arith,
    other,
    different (later other),
    update-by_id a b now s r rs ids.1 pairs.1 (later other),
  )
]
  where
    same : is_request pending a b q ≡ true → q ≡ r
    same mine = ground arith

    later : is_request pending a b q ≡ false → find (is_request pending a b) rs ≡ some r
    later other = ground arith

    alone : q ≡ r → any (is_id r.id) rs ≡ false
    alone e = ap (λ u. any (is_id u.id) rs) (sym e) ∙ ids.0

    different : find (is_request pending a b) rs ≡ some r → (q.id == r.id) ≡ false
    different e = ground (
      arith,
      any_member (is_request pending a b) (is_id r.id) r rs e (ground arith),
      ids.0,
      λ (k : q.id ≡ r.id). ap (λ u. any (is_id u) rs) k,
    )

pub close-UniqueIds :
    (a b now : ℕ) (s : RequestStatus) (rs : List FriendRequest)
    → UniqueIds rs
    → UniqueIds (update (is_request pending a b) (responded s now) rs)
close-UniqueIds a b now s [] h = tt
close-UniqueIds a b now s (q ∷ rs) h = ground (
  arith,
  any-update (is_request pending a b) (is_id q.id) (responded s now) (λ r. refl) rs,
  close-UniqueIds a b now s rs h.1,
)

pub close-UniquePending :
    (a b now : ℕ) (s : RequestStatus) (rs : List FriendRequest)
    → status_eq s pending ≡ false
    → UniquePending rs
    → UniquePending (update (is_request pending a b) (responded s now) rs)
close-UniquePending a b now s [] e h = tt
close-UniquePending a b now s (q ∷ rs) e h = (
  elim (Bool-cases (is_request pending a b q)) [
    | inl mine ↦ rw (mine) (λ k. ground (arith, ap (λ u. status_eq u pending) k, e))
    | inr other ↦
        rw (other) (λ k. ground (arith, h.0 k, pending-close a b now q.requester q.target s rs e))
  ],
  close-UniquePending a b now s rs e h.1,
)
