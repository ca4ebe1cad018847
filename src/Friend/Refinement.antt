-- ===== src/Friend/Refinement.antt =====
-- The friend store keeps the promise of the contract, and its tables keep their keys.
use qweqwe.Base.{
  ℕ, ◌≡◌, refl, ap, ◌∙◌, true, false, Option, none, some, ◌∷◌, arith, ◌==◌, if◌then◌else◌, any,
  find, update, Bool-cases, Option-cases, inl, inr, ok, Result, any-find, any_found, Ensures,
}
use qweqwe.Friend.Store.{
  FriendRequest, FriendDb, FriendOutcome, outcome_requested, outcome_accepted,
  outcome_already_pending, RequestStatus, pending, accepted, rejected, cancelled, is_request, is_id,
  are_linked, status_eq, responded, friend_requested, accept_row, insert_request, ask,
  accept_request, close_request,
}
use qweqwe.Friend.Service.{silent, with_outcome}
use qweqwe.Friend.Contract.{
  Links, links_of, IsSameLinks, Agrees, promised_accept, promised_reject, promised_cancel,
  befriended, set_at,
}
use qweqwe.Friend.Rows.{linked-link, pending-close, status-close}
use qweqwe.Friend.Tidy.{IsTidy, update-by_id, close-UniqueIds, close-UniquePending}

pub same_links : (l : Links) → IsSameLinks l l
same_links l = record {
  waits = λ a b. refl;
  was_rejected = λ a b. refl;
  was_cancelled = λ a b. refl;
  friends = λ a b. refl;
}

module _ (a b now : ℕ) (r : FriendRequest) (db : FriendDb) (t : IsTidy db)
    (found : find (is_request pending a b) db.requests ≡ some r) where
  by_pair :
      update (is_id r.id) (responded accepted now) db.requests
      ≡ update (is_request pending a b) (responded accepted now) db.requests
  by_pair = update-by_id a b now accepted r db.requests t.ids t.pairs found

  -- An acceptance makes friends of the two and ends the wait.
  pub accept_row-IsSameLinks :
      IsSameLinks (links_of (accept_row r.id a b now db)) (befriended a b (links_of db))
  unfolding accept_row
  accept_row-IsSameLinks = record {
    waits = λ x y.
        ap (any (is_request pending x y)) by_pair
        ∙ pending-close a b now x y accepted db.requests refl;
    was_rejected = λ x y.
        ap (any (is_request rejected x y)) by_pair
        ∙ ground (arith, status-close a b now x y accepted rejected db.requests refl);
    was_cancelled = λ x y.
        ap (any (is_request cancelled x y)) by_pair
        ∙ ground (arith, status-close a b now x y accepted cancelled db.requests refl);
    friends = λ x y. linked-link a b now x y db.friendships;
  }

  pub accept_row-IsTidy : IsTidy (accept_row r.id a b now db)
  unfolding accept_row
  accept_row-IsTidy = record {
    ids = rw (by_pair) (close-UniqueIds a b now accepted db.requests t.ids);
    pairs = rw (by_pair) (close-UniquePending a b now accepted db.requests refl t.pairs);
  }

-- An answer that keeps the keys as well.
abbrev pub IsKeeping : Result (Option FriendOutcome × FriendDb) → Type 0
IsKeeping = Ensures (λ (r : Option FriendOutcome × FriendDb). IsTidy (r.1))

abbrev inserted : (id a b now : ℕ) → FriendDb → FriendDb
inserted id a b now db = record db {
  requests =
      record {
        id = id;
        requester = a;
        target = b;
        status = pending;
        created_at = now;
        responded_at = none;
      }
      ∷ db.requests;
  outbox = friend_requested id b ∷ db.outbox;
}

inserted-IsSameLinks :
    (id a b now : ℕ) (db : FriendDb)
    → IsSameLinks
        (links_of (inserted id a b now db))
        (record (links_of db) { waits = set_at a b true (links_of db).waits })
inserted-IsSameLinks id a b now db = record {
  waits = λ x y. ground arith;
  was_rejected = λ x y. refl;
  was_cancelled = λ x y. refl;
  friends = λ x y. refl;
}

pub ask-Agrees :
    (id a b now : ℕ) (db : FriendDb)
    → IsTidy db
    → (a == b) ≡ false
    → any (is_id id) db.requests ≡ false
    → Agrees (with_outcome (ask id a b now db)) (
        ok (
          if (links_of db).waits b a
          then (some outcome_accepted, befriended b a (links_of db))
          else (if (links_of db).waits a b then (some outcome_already_pending, links_of db) else (
            some outcome_requested,
            record (links_of db) { waits = set_at a b true (links_of db).waits },
          ))))
      × IsKeeping (with_outcome (ask id a b now db))
unfolding ask insert_request
ask-Agrees id a b now db t apart fresh =
    elim (Option-cases (find (is_request pending b a) db.requests)) [
      | inr w ↦
          rw (w.1, any_found (is_request pending b a) (w.0) db.requests (w.1), ask)
            (
              (refl, accept_row-IsSameLinks b a now (w.0) db t (w.1)),
              accept_row-IsTidy b a now (w.0) db t (w.1),
            )
      | inl absent ↦ elim (Bool-cases (any (is_request pending a b) db.requests)) [
        | inl waiting ↦
            rw (absent, waiting, any-find (is_request pending b a) db.requests absent, ask)
              ((refl, same_links (links_of db)), t)
        | inr new ↦
            rw
              (
                absent,
                new,
                fresh,
                apart,
                any-find (is_request pending b a) db.requests absent,
                ask,
                insert_request,
              )
              (
                (refl, inserted-IsSameLinks id a b now db),
                record { ids = (fresh, t.ids); pairs = ((λ e. new), t.pairs) },
              )
      ]
    ]

pub accept_request-Agrees :
    (a b now : ℕ) (db : FriendDb)
    → IsTidy db
    → Agrees (silent (accept_request a b now db)) (promised_accept a b (links_of db))
      × IsKeeping (silent (accept_request a b now db))
unfolding accept_request
accept_request-Agrees a b now db t =
    elim (Option-cases (find (is_request pending b a) db.requests)) [
      | inr w ↦
          rw (w.1, any_found (is_request pending b a) (w.0) db.requests (w.1), accept_request)
            (
              (refl, accept_row-IsSameLinks b a now (w.0) db t (w.1)),
              accept_row-IsTidy b a now (w.0) db t (w.1),
            )
      | inl absent ↦ elim (Bool-cases (are_linked a b db.friendships)) [
        | inl linked ↦
            rw
              (absent, linked, any-find (is_request pending b a) db.requests absent, accept_request)
              ((refl, same_links (links_of db)), t)
        | inr apart ↦
            rw (absent, apart, any-find (is_request pending b a) db.requests absent, accept_request)
              (refl, tt)
      ]
    ]

module _ (a b now : ℕ) (db : FriendDb) (t : IsTidy db) where
  abbrev closed : RequestStatus → FriendDb
  closed s = record db { requests = update (is_request pending a b) (responded s now) db.requests }

  closed-IsTidy : (s : RequestStatus) → status_eq s pending ≡ false → IsTidy (closed s)
  closed-IsTidy s e = record {
    ids = close-UniqueIds a b now s db.requests t.ids;
    pairs = close-UniquePending a b now s db.requests e t.pairs;
  }

  pub reject-Agrees :
      Agrees (silent (close_request rejected a b now db)) (promised_reject b a (links_of db))
      × IsKeeping (silent (close_request rejected a b now db))
  unfolding close_request
  reject-Agrees = elim (Bool-cases (any (is_request pending a b) db.requests)) [
    | inl waiting ↦
        rw (waiting, close_request)
          (
            (
              refl,
              record {
                waits = λ x y. pending-close a b now x y rejected db.requests refl;
                was_rejected = λ x y.
                    ground
                      (arith, waiting, status-close a b now x y rejected rejected db.requests refl);
                was_cancelled = λ x y.
                    ground (arith, status-close a b now x y rejected cancelled db.requests refl);
                friends = λ x y. refl;
              },
            ),
            closed-IsTidy rejected refl,
          )
    | inr idle ↦ elim (Bool-cases (any (is_request rejected a b) db.requests)) [
      | inl before ↦ rw (idle, before, close_request) ((refl, same_links (links_of db)), t)
      | inr never ↦ rw (idle, never, close_request) (refl, tt)
    ]
  ]

  pub cancel-Agrees :
      Agrees (silent (close_request cancelled a b now db)) (promised_cancel a b (links_of db))
      × IsKeeping (silent (close_request cancelled a b now db))
  unfolding close_request
  cancel-Agrees = elim (Bool-cases (any (is_request pending a b) db.requests)) [
    | inl waiting ↦
        rw (waiting, close_request)
          (
            (
              refl,
              record {
                waits = λ x y. pending-close a b now x y cancelled db.requests refl;
                was_rejected = λ x y.
                    ground (arith, status-close a b now x y cancelled rejected db.requests refl);
                was_cancelled = λ x y.
                    ground (
                      arith,
                      waiting,
                      status-close a b now x y cancelled cancelled db.requests refl,
                    );
                friends = λ x y. refl;
              },
            ),
            closed-IsTidy cancelled refl,
          )
    | inr idle ↦ elim (Bool-cases (any (is_request cancelled a b) db.requests)) [
      | inl before ↦ rw (idle, before, close_request) ((refl, same_links (links_of db)), t)
      | inr never ↦ rw (idle, never, close_request) (refl, tt)
    ]
  ]
