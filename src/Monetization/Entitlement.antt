-- ===== src/Monetization/Entitlement.antt =====
-- The premium grant that a purchase leads to.
use qweqwe.Base.{
  ℕ, ◌≡◌, refl, sym, ap, ◌∙◌, Bool, true, false, ◌&&◌, not, List, [], ◌∷◌, arith, ◌==◌, any, find,
  select, update, delete, ok, Bool-cases, inl, inr, find-select, find-update, find-delete,
  any-update, any-stronger, any-select, any_deleted,
}
use qweqwe.Monetization.Model.{
  Grant, Money, SourceKey, key_eq, is_grant, paid, purchase_key, grant_key, inviter_key,
  invitee_key,
}
use qweqwe.Monetization.Purchase.{
  Purchase, settle_grant, is_paid_grant, extended, is_entitling, record_purchase, upsert_receipt,
}
use qweqwe.Monetization.Referral.{referral_milestones}
use qweqwe.Monetization.Awards.{is_paid}
use qweqwe.Monetization.Settled.{IsSettled}
use qweqwe.Monetization.Recorded.{IsRecorded, granted, recorded_checked, record_purchase-IsRecorded}

abbrev pub is_stale : Purchase → Grant → Bool
is_stale p g = is_paid_grant p g && not (g.ends_at == p.period_end)

-- The purchase's own grant: there until the paid period ends when the state entitles, else gone.
abbrev pub IsEntitled : Purchase → List Grant → Type 0
IsEntitled p gs = (any (is_paid_grant p) gs ≡ is_entitling p.state) × (any (is_stale p) gs ≡ false)

is_paid_key : (k : SourceKey) (g : Grant) → is_grant paid k g ≡ true → is_paid g ≡ true
is_paid_key k g h = ground arith

updated-IsEntitled :
    (p : Purchase) (gs : List Grant)
    → any (is_stale p) (update (is_stale p) (extended p) gs) ≡ false
updated-IsEntitled p [] = refl
updated-IsEntitled p (g ∷ gs) = ground (arith, updated-IsEntitled p gs)

pub settle_grant-IsEntitled : (p : Purchase) (gs : List Grant) → IsEntitled p (settle_grant p gs)
unfolding settle_grant
settle_grant-IsEntitled p gs = elim (Bool-cases (is_entitling p.state)) [
  | inl entitled ↦ elim (Bool-cases (any (is_paid_grant p) gs)) [
    | inl known ↦
        rw (entitled, known, settle_grant)
          (
            any-update (is_stale p) (is_paid_grant p) (extended p) (λ g. refl) gs ∙ known,
            updated-IsEntitled p gs,
          )
    | inr absent ↦
        rw (entitled, absent, settle_grant)
          (
            ground arith,
            ground (
              arith,
              any-stronger (is_paid_grant p) (is_stale p) (λ g h. ground arith) gs absent,
            ),
          )
  ]
  | inr retracted ↦
      rw (retracted, settle_grant)
        (
          any_deleted (is_paid_grant p) gs,
          any-stronger (is_paid_grant p) (is_stale p) (λ g h. ground arith)
              (delete (is_paid_grant p) gs) (any_deleted (is_paid_grant p) gs),
        )
]

keys_apart :
    (k : SourceKey) (a b : ℕ)
    → key_eq k (purchase_key a) ≡ true
    → (b == a) ≡ false
    → key_eq k (purchase_key b) ≡ false
keys_apart (purchase_key c) a b h other = ground arith
keys_apart (grant_key c) a b h other = refl
keys_apart (inviter_key u n) a b h other = refl
keys_apart (invitee_key u n) a b h other = refl

-- Another purchase's grant is as it was.
pub settle_grant-other :
    (p : Purchase) (hash : ℕ) (gs : List Grant)
    → (hash == p.purchase_hash) ≡ false
    → find (is_grant paid (purchase_key hash)) (settle_grant p gs)
      ≡ find (is_grant paid (purchase_key hash)) gs
unfolding settle_grant
settle_grant-other p hash gs other = ground (
  arith,
  find-update (is_stale p) (is_grant paid (purchase_key hash)) (extended p)
      (λ g h. not_its (g) (ground arith)) (λ g h. not_its (extended p g) (ground arith)) gs,
  find-delete (is_paid_grant p) (is_grant paid (purchase_key hash)) (λ g h. not_its g h) gs,
)
  where
    not_its : (g : Grant) → is_paid_grant p g ≡ true → is_grant paid (purchase_key hash) g ≡ false
    not_its g h = ground (arith, keys_apart g.source_key p.purchase_hash hash)

-- The result of a call that succeeds, with all that it keeps.
pub record_purchase-ok :
    (id now : ℕ) (p : Purchase) (m t : Money)
    → IsSettled m
    → record_purchase id now referral_milestones p m ≡ ok t
    → IsRecorded (granted p ((upsert_receipt id now p m.subscription_receipts).1) m) t
record_purchase-ok id now p m t h e =
    let r = record_purchase-IsRecorded id now p m h (recorded_checked id now p m t e) in
    rw (same (r.0) (cc (e, r.1))) (r.2)
  where
    same : (s : Money) → ok t ≡ ok s → t ≡ s
    same s k = cc k

find-paid :
    (k : SourceKey) (gs hs : List Grant)
    → select is_paid gs ≡ select is_paid hs
    → find (is_grant paid k) gs ≡ find (is_grant paid k) hs
find-paid k gs hs e =
    sym (find-select (is_grant paid k) is_paid (is_paid_key k) gs)
    ∙ (ap (find (is_grant paid k)) e ∙ find-select (is_grant paid k) is_paid (is_paid_key k) hs)

any-paid :
    (q : Grant → Bool)
    → ((g : Grant) → q g ≡ true → is_paid g ≡ true)
    → (gs hs : List Grant) → select is_paid gs ≡ select is_paid hs
    → any q gs ≡ any q hs
any-paid q h gs hs e = sym (any-select q is_paid h gs) ∙ (ap (any q) e ∙ any-select q is_paid h hs)

-- A recorded purchase, of which the tables before are settled: its grant stands in the tables, with
-- the reported end, exactly when the state is ACTIVE or GRACE, and the grant of every other purchase
-- is as it was.
pub record_purchase_entitles :
    (id now : ℕ) (p : Purchase) (m t : Money)
    → IsSettled m
    → record_purchase id now referral_milestones p m ≡ ok t
    → (any (is_paid_grant p) t.grants ≡ is_entitling p.state)
      × (any (is_stale p) t.grants ≡ false)
      × ((hash : ℕ)
          → (hash == p.purchase_hash) ≡ false
          → find (is_grant paid (purchase_key hash)) t.grants
            ≡ find (is_grant paid (purchase_key hash)) m.grants)
record_purchase_entitles id now p m t h e =
    let r = record_purchase-ok id now p m t h e in
    let own = settle_grant-IsEntitled p m.grants in
    (
      any-paid (is_paid_grant p) (is_paid_key _) t.grants (settle_grant p m.grants) r.same_paid
          ∙ own.0,
      any-paid (is_stale p) (λ g k. ground arith) t.grants (settle_grant p m.grants) r.same_paid
          ∙ own.1,
      λ hash other.
          find-paid (purchase_key hash) t.grants (settle_grant p m.grants) r.same_paid
          ∙ settle_grant-other p hash m.grants other,
    )
