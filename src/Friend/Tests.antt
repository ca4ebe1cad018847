-- ===== src/Friend/Tests.antt =====
-- Runs of the friend service on concrete calls, and instances of the theorems.
use qweqwe.Base.{ℕ, ◌≡◌, refl, Bool, true, none, some, [], ◌∷◌, ok}
use qweqwe.Slots.Tables.{blocked_pair}
use qweqwe.Friend.Store.{
  FriendDb, pending, accepted, outcome_requested, outcome_accepted, friend_requested,
  friend_accepted, send_request, ask, insert_request, accept_row, link,
}
use qweqwe.Friend.Service.{requests, two_users, serve_friend}
use qweqwe.Friend.Contract.{links_of, Agrees, promised}
use qweqwe.Friend.Tidy.{IsTidy}
use qweqwe.Friend.Refinement.{IsKeeping}
use qweqwe.Friend.Promise.{serve_friend-Agrees}
use qweqwe.Friend.Orderly.{IsOrderly, Reached, at_first, after, no_friends, Reached-IsOrderly}

abbrev everyone : ℕ → Bool
everyone u = true

-- User 1 has asked user 2.
abbrev asked : FriendDb
asked = record {
  requests =
      record {
        id = 7;
        requester = 1;
        target = 2;
        status = pending;
        created_at = 10;
        responded_at = none;
      }
      ∷ [];
  friendships = [];
  outbox = friend_requested 7 2 ∷ [];
}

-- User 2 has asked user 1 as well.
abbrev matched : FriendDb
matched = record {
  requests =
      record {
        id = 7;
        requester = 1;
        target = 2;
        status = accepted;
        created_at = 10;
        responded_at = some 20;
      }
      ∷ [];
  friendships = record { user_lo = 1; user_hi = 2; created_at = 20 } ∷ [];
  outbox = friend_accepted 7 1 ∷ friend_requested 7 2 ∷ [];
}

asks :
    serve_friend everyone [] (requests (some 1) (some 2) 7 10) no_friends
    ≡ ok (some outcome_requested, asked)
unfolding serve_friend two_users send_request blocked_pair ask insert_request
asks = refl

asks_back :
    serve_friend everyone [] (requests (some 2) (some 1) 8 20) asked
    ≡ ok (some outcome_accepted, matched)
unfolding serve_friend two_users send_request blocked_pair ask accept_row link
asks_back = refl

asked-Reached : Reached asked
asked-Reached =
    after everyone [] (requests (some 1) (some 2) 7 10) (some outcome_requested) no_friends asked
      at_first refl asks

serve_friend-Agrees_example :
    Agrees
      (serve_friend everyone [] (requests (some 2) (some 1) 8 20) asked)
      (promised everyone [] (requests (some 2) (some 1) 8 20) (links_of asked))
    × IsKeeping (serve_friend everyone [] (requests (some 2) (some 1) 8 20) asked)
serve_friend-Agrees_example =
    serve_friend-Agrees everyone [] (requests (some 2) (some 1) 8 20) asked
      (Reached-IsOrderly asked asked-Reached).0 refl

Reached-IsOrderly_example : IsTidy matched × IsOrderly (links_of matched)
Reached-IsOrderly_example = Reached-IsOrderly matched (
    after everyone [] (requests (some 2) (some 1) 8 20) (some outcome_accepted) asked matched
      asked-Reached refl asks_back)
