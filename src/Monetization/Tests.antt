-- ===== src/Monetization/Tests.antt =====
-- Runs of the monetization service on concrete calls, and instances of the theorems.
use qweqwe.Base.{
  ℕ, ◌+◌, ◌≡◌, refl, true, false, none, some, List, [], ◌∷◌, arith, ok, find, any, length, Ensures,
  Ensures-ok, ◌==◌,
}
use qweqwe.Monetization.Model.{
  Text, Money, empty_money, active_subscription, refunded, hours, days, Referral, insert_grant,
  paid, purchase_key, is_grant,
}
use qweqwe.Monetization.Rewarded.{
  View, record_rewarded_view, watch, advance_quest, ensure_progress, continuing_quest, new_count,
  new_quest_started,
}
use qweqwe.Monetization.Purchase.{
  Purchase, violates_receipt_check, record_purchase, upsert_receipt, settle_grant, qualify_referral,
  award_milestones, award_milestone, is_paid_grant,
}
use qweqwe.Monetization.Referral.{
  is_invitee, bind_referral, accept_code, ensure_referral_code, valid_referral_code,
  referral_milestones, new_referral, next_milestone,
}
use qweqwe.Monetization.Service.{
  Outside, Call, reads, binds, watches, buys, money_step, money_run, snapshot, bind,
  submit_rewarded_view, verify_purchase, verified_view, verified_purchase, quest_clocks,
  store_status, Status, referral_code_for_user,
}
use qweqwe.Monetization.Earned.{IsEarned, record_rewarded_view-IsEarned}
use qweqwe.Monetization.Entitlement.{is_stale, record_purchase_entitles}
use qweqwe.Monetization.Replay.{record_purchase_replay, record_rewarded_view_replay}
use qweqwe.Monetization.Bound.{issued_code_binds}
use qweqwe.Monetization.Promises.{IsLeastAbove, next_milestone-IsLeastAbove, snapshot_promise}
use qweqwe.Monetization.Reachable.{IsLedger, money_reachable-IsLedger, purchase_succeeds}
use qweqwe.Monetization.Permanent.{IsSameReferral, referral_stays}

-- A platform on which texts are as they are given, hashes are lengths, and both verifiers accept.
abbrev outside : Outside
outside = record {
  trim_space = λ t. t;
  to_upper = λ t. t;
  sha256 = λ t. length t;
  id_digest = λ u. u ∷ 0 ∷ 0 ∷ 0 ∷ 0 ∷ 0 ∷ 0 ∷ 0 ∷ [];
  rewarded = some (λ u receipt. ok (65 ∷ 68 ∷ [], receipt));
  purchases = some (λ u token. ok (record {
    provider = 65 ∷ 68 ∷ [];
    product_id = 77 ∷ [];
    purchase_id = token;
    period_start = days 1;
    period_end = days 31;
    state = some active_subscription;
  }));
  created_at = λ u. some 0;
}

abbrev code_of_1 : Text
code_of_1 = referral_code_for_user outside 1

-- User 1 reads the code, user 2 binds it, watches an advertisement and buys.
abbrev calls : List Call
calls =
    reads 0 1
    ∷ binds (hours 1) 2 code_of_1
    ∷ watches 7 (hours 2) 2 (1 ∷ [])
    ∷ buys 8 (days 1) 2 (1 ∷ 2 ∷ [])
    ∷ []

abbrev later_money : Money
later_money = money_run outside empty_money calls

milestone_awarded : (length later_money.awards ≡ 1) × (length later_money.grants ≡ 3)
unfolding money_step snapshot bind submit_rewarded_view verify_purchase verified_view
    verified_purchase record_rewarded_view watch advance_quest ensure_progress continuing_quest
    new_count new_quest_started record_purchase violates_receipt_check upsert_receipt settle_grant
    qualify_referral award_milestones award_milestone bind_referral accept_code ensure_referral_code
    valid_referral_code insert_grant
milestone_awarded = (refl, refl)

money_reachable-IsLedger_example : IsLedger later_money
money_reachable-IsLedger_example = money_reachable-IsLedger outside calls

abbrev purchase : Purchase
purchase = record {
  user = 2;
  provider = 65 ∷ 68 ∷ [];
  product_id = 77 ∷ [];
  purchase_hash = 4;
  period_start = days 1;
  period_end = days 31;
  state = active_subscription;
}

purchase_succeeds_example :
    (t : Money) × (record_purchase 9 (days 2) referral_milestones purchase later_money ≡ ok t)
purchase_succeeds_example =
    purchase_succeeds outside calls 9 (days 2) purchase (omega arith) (omega arith) (omega arith)
      (omega arith) (omega arith)

-- The tables after a first purchase without a referral.
abbrev bought : Money
bought = record empty_money {
  subscription_receipts =
      record {
        id = 8;
        user = 2;
        provider = 65 ∷ 68 ∷ [];
        product_id = 77 ∷ [];
        purchase_token_hash = 4;
        period_start = days 1;
        period_end = days 31;
        state = active_subscription;
        verified_at = days 1;
      }
      ∷ [];
  grants =
      record {
        user = 2;
        source = paid;
        source_key = purchase_key 4;
        starts_at = days 1;
        ends_at = days 31;
      }
      ∷ [];
}

buys_first : record_purchase 8 (days 1) referral_milestones purchase empty_money ≡ ok bought
unfolding record_purchase violates_receipt_check upsert_receipt settle_grant qualify_referral
buys_first = refl

abbrev refund : Purchase
refund = record purchase { state = refunded }

refunds :
    record_purchase 9 (days 2) referral_milestones refund empty_money
    ≡ ok (record bought {
      subscription_receipts =
          record {
            id = 9;
            user = 2;
            provider = 65 ∷ 68 ∷ [];
            product_id = 77 ∷ [];
            purchase_token_hash = 4;
            period_start = days 1;
            period_end = days 31;
            state = refunded;
            verified_at = days 2;
          }
          ∷ [];
      grants = [];
    })
unfolding record_purchase violates_receipt_check upsert_receipt settle_grant qualify_referral
refunds = refl

record_purchase_entitles_example :
    (any (is_paid_grant purchase) bought.grants ≡ true)
    × (any (is_stale purchase) bought.grants ≡ false)
    × ((hash : ℕ)
        → (hash == 4) ≡ false
        → find (is_grant paid (purchase_key hash)) bought.grants
          ≡ find (is_grant paid (purchase_key hash)) empty_money.grants)
record_purchase_entitles_example =
    record_purchase_entitles 8 (days 1) purchase empty_money bought
      (money_reachable-IsLedger outside []).settled buys_first

record_purchase_replay_example :
    (z : Money) × (record_purchase 9 (days 2) referral_milestones purchase bought ≡ ok z)
    × (z.grants ≡ bought.grants)
    × (z.referrals ≡ bought.referrals)
    × (z.awards ≡ bought.awards)
    × (z.progress ≡ bought.progress)
record_purchase_replay_example =
    record_purchase_replay 8 9 (days 1) (days 2) purchase empty_money bought
      (money_reachable-IsLedger outside []).settled (ground arith) buys_first

abbrev view : View
view = record { user = 2; provider = 65 ∷ 68 ∷ []; receipt_hash = 3 }

abbrev watched : Money
watched = record empty_money {
  rewarded_receipts =
      record { user = 2; provider = 65 ∷ 68 ∷ []; receipt_hash = 3; watched_at = hours 2 } ∷ [];
  progress =
      record {
        user = 2;
        videos_watched_count = 1;
        quest_started_at = some (hours 2);
        last_video_watched_at = some (hours 2);
        last_free_premium_claimed_at = none;
      }
      ∷ [];
}

watches_first : record_rewarded_view quest_clocks 7 (hours 2) view empty_money ≡ ok watched
unfolding record_rewarded_view watch advance_quest ensure_progress continuing_quest new_count
    new_quest_started
watches_first = refl

record_rewarded_view_replay_example :
    record_rewarded_view quest_clocks 11 (hours 9) view watched ≡ ok watched
record_rewarded_view_replay_example =
    record_rewarded_view_replay quest_clocks 7 11 (hours 2) (hours 9) view empty_money watched
      watches_first

code_issued : (ensure_referral_code 1 code_of_1 empty_money).0 ≡ ok code_of_1
unfolding ensure_referral_code
code_issued = refl

issued_code_binds_example :
    (t : Money) × (r : Referral) × (bind_referral outside.created_at 14
        (hours 1)
        2
        code_of_1
        (ensure_referral_code 1 code_of_1 empty_money).1
      ≡ ok t)
    × (find (is_invitee 2) t.referrals ≡ some r)
    × (r.inviter ≡ 1)
    × (r.qualifying_deadline ≡ 0 + days 14)
issued_code_binds_example =
    issued_code_binds outside.created_at 14 (hours 1) 1 2 0 code_of_1 code_of_1 empty_money
      (money_reachable-IsLedger outside []).coded code_issued refl refl refl (ground arith)

abbrev shown : Status
shown = record {
  premium_active = false;
  premium_until = none;
  videos_watched_count = 1;
  next_video_at = some (hours 6);
  last_free_premium_claimed_at = none;
  next_free_premium_claim_at = none;
  referral_code = referral_code_for_user outside 2;
  bound_referral_code = none;
  qualifying_deadline = none;
  qualified_referrals = 0;
  next_milestone_due = next_milestone 0;
}

shows : (snapshot outside (hours 3) 2 watched).0 ≡ ok shown
unfolding snapshot ensure_referral_code store_status
shows = refl

abbrev second_view : View
second_view = record { user = 2; provider = 65 ∷ 68 ∷ []; receipt_hash = 4 }

watched-IsEarned :
    Ensures (IsEarned quest_clocks) (record_rewarded_view quest_clocks 7 (hours 2) view empty_money)
watched-IsEarned =
    record_rewarded_view-IsEarned quest_clocks 7 (hours 2) view empty_money
      (money_reachable-IsLedger outside []).earned

snapshot_promise_example :
    (t : Money) × (record_rewarded_view quest_clocks 12 (hours 6) second_view watched ≡ ok t)
snapshot_promise_example =
    snapshot_promise outside (hours 3) 12 (hours 6) second_view watched shown
      (Ensures-ok (IsEarned quest_clocks)
        (record_rewarded_view quest_clocks 7 (hours 2) view empty_money) watched watched-IsEarned
        watches_first)
      shows refl (omega arith) (omega arith) refl refl refl

next_milestone-IsLeastAbove_example : IsLeastAbove 4 referral_milestones (next_milestone 4)
next_milestone-IsLeastAbove_example = next_milestone-IsLeastAbove 4

abbrev referred : Referral
referred = new_referral 2 1 code_of_1 (hours 1) (days 14)

referral_there :
    find
      (is_invitee 2)
      (money_run outside empty_money (reads 0 1 ∷ binds (hours 1) 2 code_of_1 ∷ [])).referrals
    ≡ some referred
unfolding money_step snapshot bind bind_referral accept_code ensure_referral_code
    valid_referral_code
referral_there = refl

referral_stays_example :
    (s : Referral) × (find
        (is_invitee 2)
        (money_step outside
          (money_run outside empty_money (reads 0 1 ∷ binds (hours 1) 2 code_of_1 ∷ []))
          (buys 8 (days 1) 2 (1 ∷ 2 ∷ []))).referrals
      ≡ some s)
    × IsSameReferral referred s
referral_stays_example =
    referral_stays outside (reads 0 1 ∷ binds (hours 1) 2 code_of_1 ∷ [])
      (buys 8 (days 1) 2 (1 ∷ 2 ∷ [])) 2 referred referral_there
