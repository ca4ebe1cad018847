-- ===== src/Friend/Orderly.antt =====
-- What follows from the contract for all tables that the friend service can reach.
use qweqwe.Base.{
  ℕ, ◌≡◌, refl, ap, ◌∙◌, sym, Bool, true, false, ◌&&◌, Option, none, some, List, [], arith, ◌==◌,
  Bool-cases, inl, inr, ok, err, Result, ◌>>=◌, Ensures, Ensures-ok, ok-injective,
}
use qweqwe.Slots.Tables.{BlockRow}
use qweqwe.Friend.Store.{FriendDb, FriendOutcome}
use qweqwe.Friend.Service.{
  FriendCall, requests, accepts, rejects, cancels, removes, two_users, serve_friend,
}
use qweqwe.Friend.Contract.{
  Links, links_of, IsSameLinks, Agrees, promised, befriended, set_at, promised_request,
  promised_accept, promised_reject, promised_cancel, promised_remove,
}
use qweqwe.Friend.Tidy.{IsTidy}
use qweqwe.Friend.Promise.{IsFresh, serve_friend-Agrees}

-- Nobody waits for a friend, for one who waits in turn, or for oneself; friendship is mutual.
pub record IsOrderly (l : Links) : Type 0 where
  pub waiting :
      (a b : ℕ)
      → l.waits a b ≡ true
      → (l.friends a b ≡ false) × (l.waits b a ≡ false) × ((a == b) ≡ false)
  pub mutual_links : (a b : ℕ) → l.friends a b ≡ l.friends b a

same-IsOrderly : (l k : Links) → IsSameLinks l k → IsOrderly k → IsOrderly l
same-IsOrderly l k s o = record {
  waiting = λ a b h.
      (let w = o.waiting a b (sym (s.waits a b) ∙ h) in
        (s.friends a b ∙ w.0, s.waits b a ∙ w.1, w.2));
  mutual_links = λ a b. s.friends a b ∙ (o.mutual_links a b ∙ sym (s.friends b a));
}

-- A fact of two pairs that are the same.
at_pair : (f : ℕ → ℕ → Bool) (a b x y : ℕ) → (x == a && y == b) ≡ true → f x y ≡ f a b
at_pair f a b x y h = ap (λ u. f u y) (ground arith) ∙ ap (f a) (ground arith)

module _ (l : Links) (o : IsOrderly l) (a b : ℕ) where
  befriended-IsOrderly : l.waits a b ≡ true → IsOrderly (befriended a b l)
  befriended-IsOrderly w = record {
    waiting = λ x y h. ground (arith, o.waiting x y, at_pair l.waits a b y x, w);
    mutual_links = λ x y. ground (arith, o.mutual_links x y);
  }

  asked-IsOrderly :
      (a == b) ≡ false
      → l.friends a b ≡ false
      → l.waits b a ≡ false
      → IsOrderly (record l { waits = set_at a b true l.waits })
  asked-IsOrderly apart strangers quiet = record {
    waiting = λ x y h. ground (
      arith,
      o.waiting x y,
      at_pair l.friends a b x y,
      at_pair l.waits b a y x,
      at_pair l.waits b a x y,
    );
    mutual_links = o.mutual_links;
  }

  closed-IsOrderly :
      (f g : ℕ → ℕ → Bool)
      → IsOrderly
          (record l { waits = set_at a b false l.waits; was_rejected = f; was_cancelled = g })
  closed-IsOrderly f g = record {
    waiting = λ x y h. ground (arith, o.waiting x y);
    mutual_links = o.mutual_links;
  }

  removed-IsOrderly : IsOrderly (promised_remove a b l)
  removed-IsOrderly = record {
    waiting = λ x y h. ground (arith, o.waiting x y);
    mutual_links = λ x y. ground (arith, o.mutual_links x y);
  }

two_users-Ensures :
    (actor other : Option ℕ) (n : ℕ → ℕ → Result (Option FriendOutcome × Links))
    → ((a b : ℕ)
        → (a == b) ≡ false
        → Ensures (λ (r : Option FriendOutcome × Links). IsOrderly (r.1)) (n a b))
    → Ensures
        (λ (r : Option FriendOutcome × Links). IsOrderly (r.1))
        (two_users actor other >>= λ u. n (u.0) (u.1))
unfolding two_users
two_users-Ensures (some a) (some b) n h = elim (Bool-cases (a == b)) [
  | inl same ↦ rw (same) tt
  | inr apart ↦ rw (apart) (h a b apart)
]
two_users-Ensures (some a) none n h = tt
two_users-Ensures none (some b) n h = tt
two_users-Ensures none none n h = tt

promised-IsOrderly :
    (is_user : ℕ → Bool) (blocks : List BlockRow) (c : FriendCall) (l : Links)
    → IsOrderly l
    → Ensures (λ (r : Option FriendOutcome × Links). IsOrderly (r.1)) (promised is_user blocks c l)
unfolding promised
promised-IsOrderly is_user blocks (requests actor target id now) l o =
    two_users-Ensures actor target (λ a b. promised_request is_user blocks a b l)
      (λ a b apart. ground (arith, o, befriended-IsOrderly l o b a, asked-IsOrderly l o a b apart))
promised-IsOrderly is_user blocks (accepts actor requester now) l o =
    two_users-Ensures actor requester (λ a b. promised_accept a b l)
      (λ a b apart. ground (arith, o, befriended-IsOrderly l o b a))
promised-IsOrderly is_user blocks (rejects actor requester now) l o =
    two_users-Ensures actor requester (λ a b. promised_reject a b l)
      (λ a b apart.
        ground
          (arith, o, closed-IsOrderly l o b a (set_at b a true l.was_rejected) l.was_cancelled))
promised-IsOrderly is_user blocks (cancels actor target now) l o =
    two_users-Ensures actor target (λ a b. promised_cancel a b l)
      (λ a b apart.
        ground
          (arith, o, closed-IsOrderly l o a b l.was_rejected (set_at a b true l.was_cancelled)))
promised-IsOrderly is_user blocks (removes actor friend) l o =
    two_users-Ensures actor friend (λ a b. ok (none, promised_remove a b l))
      (λ a b apart. removed-IsOrderly l o a b)

abbrev pub no_friends : FriendDb
no_friends = record { requests = []; friendships = []; outbox = [] }

-- The tables that calls can reach, with any users and blocks at each.
pub data Reached : FriendDb → Type 0 where
  at_first : Reached no_friends
  after :
      (is_user : ℕ → Bool) (blocks : List BlockRow) (c : FriendCall) (answer : Option FriendOutcome)
      (db t : FriendDb)
      → Reached db
      → IsFresh db c
      → serve_friend is_user blocks c db ≡ ok (answer, t)
      → Reached t

-- What the contract's answer keeps, the store's answer has.
agreed-IsOrderly :
    (r : Result (Option FriendOutcome × FriendDb)) (s : Result (Option FriendOutcome × Links))
    (answer : Option FriendOutcome) (t : FriendDb)
    → Agrees r s
    → Ensures (λ (x : Option FriendOutcome × Links). IsOrderly (x.1)) s
    → r ≡ ok (answer, t)
    → IsOrderly (links_of t)
agreed-IsOrderly (ok x) (ok y) answer t a h e =
    rw (sym (ap (λ (z : Option FriendOutcome × FriendDb). z.1) (ok-injective x (answer, t) e)))
      (same-IsOrderly (links_of (x.1)) (y.1) a.1 h)
agreed-IsOrderly (ok x) (err d) answer t a h e = ground arith
agreed-IsOrderly (err d) s answer t a h e = cc e

-- In all tables that calls of the friend service can reach, one after another: the keys hold; whoever waits for a user is
-- not that user's friend, not waited for by that user, and another user; and friendship is mutual.
pub Reached-IsOrderly : (db : FriendDb) → Reached db → IsTidy db × IsOrderly (links_of db)
Reached-IsOrderly _ at_first = (
  record { ids = tt; pairs = tt },
  record { waiting = λ a b h. ground arith; mutual_links = λ a b. refl },
)
Reached-IsOrderly _ (after is_user blocks c answer db t before fresh e) =
    let h = Reached-IsOrderly db before in
    let a = serve_friend-Agrees is_user blocks c db h.0 fresh in
    (
      Ensures-ok (λ (x : Option FriendOutcome × FriendDb). IsTidy (x.1))
          (serve_friend is_user blocks c db) (answer, t) (a.1) e,
      agreed-IsOrderly (serve_friend is_user blocks c db) (promised is_user blocks c (links_of db))
          answer t (a.0) (promised-IsOrderly is_user blocks c (links_of db) h.1) e,
    )
