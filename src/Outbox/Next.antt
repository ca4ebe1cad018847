-- ===== src/Outbox/Next.antt =====
-- The first event of the batch after the cursor.
use mathlib.Core.Path.{subst}
use qweqwe.Base.{
  ℕ, zero, suc, ◌≡◌, ◌<◌, refl, sym, ap, ◌∙◌, Bool, true, false, ◌&&◌, ◌||◌, not, some, List, [],
  ◌∷◌, arith, ◌==◌, ltb, leb, any, find, select, count, limit, order_by, All, Ordered,
  order-Ordered, count-order, All-order, ok, Bool-cases, Ensures, Ensures-ok, guard-Ensures, inl,
  inr, Text, database_error,
}
use qweqwe.Outbox.Store.{
  OutboxEvent, DeliveryOutcome, Outbox, last_sequence, is_sequence, is_receipt_of, is_between,
  is_after, by_sequence, max_batch, list_after, insert_receipt, advance_cursor, checkpoint,
  valid_connector_name, is_valid,
}
use qweqwe.Outbox.Complete.{UniqueSequences}

limit_first :
    (n : ℕ) (l es : List OutboxEvent) (e : OutboxEvent)
    → limit n l ≡ e ∷ es
    → (rest : List OutboxEvent) × (l ≡ e ∷ rest)
limit_first n [] es e h = cc h
limit_first zero (d ∷ l) es e h = cc h
limit_first (suc n) (d ∷ l) es e h = (l, cc h)

All-select : (p : OutboxEvent → Bool) (es : List OutboxEvent) → All (λ e. p e ≡ true) (select p es)
All-select p [] = tt
All-select p (e ∷ es) = ground (arith, All-select p es)

-- No event of an ordered list comes before its first.
none_before :
    (low n : ℕ) (e : OutboxEvent) (es : List OutboxEvent)
    → leb n e.sequence ≡ true
    → Ordered by_sequence (e ∷ es)
    → count (is_between low n) (e ∷ es) ≡ 0
none_before low n e [] h ordered = ground arith
none_before low n e (d ∷ es) h ordered =
    ground (arith, none_before low n d es (ground (arith, h, ordered.0)) ordered.1)

none_between :
    (low n : ℕ) (es : List OutboxEvent)
    → count (is_between low n) (select (is_after low) es) ≡ 0
    → any (is_between low n) es ≡ false
none_between low n [] h = refl
none_between low n (e ∷ es) h = ground (arith, none_between low n es)

-- The row of a sequence and an id.
abbrev is_row : (sequence id : ℕ) → OutboxEvent → Bool
is_row n id e = is_sequence n e && e.id == id

no_row :
    (low n id : ℕ) (es : List OutboxEvent)
    → any (is_sequence n) es ≡ false
    → count (is_row n id) (select (is_after low) es) ≡ 0
no_row low n id [] h = refl
no_row low n id (e ∷ es) h = ground (arith, no_row low n id es)

at_sequence : (n : ℕ) (e : OutboxEvent) → is_sequence n e ≡ true → e.sequence ≡ n
at_sequence n e h = ground arith

the_row :
    (low n id : ℕ) (e : OutboxEvent) (es : List OutboxEvent)
    → is_sequence n e ≡ true
    → 0 < count (is_row n id) (select (is_after low) (e ∷ es))
    → count (is_row n id) (select (is_after low) es) ≡ 0
    → (e.id == id) ≡ true
the_row low n id e es here some_row no_other = ground (arith, here, some_row, no_other)

-- The row of a sequence, and its id.
abbrev FindsRow : (sequence id : ℕ) → List OutboxEvent → Type 0
FindsRow n id es = (c : OutboxEvent) × (find (is_sequence n) es ≡ some c) × ((c.id == id) ≡ true)

found_later :
    (n id : ℕ) (e : OutboxEvent) (es : List OutboxEvent)
    → is_sequence n e ≡ false
    → FindsRow n id es
    → FindsRow n id (e ∷ es)
found_later n id e es other found = (found.0, ground (arith, other, found.1), found.2)

find_row :
    (low n id : ℕ) (es : List OutboxEvent)
    → UniqueSequences es
    → 0 < count (is_row n id) (select (is_after low) es)
    → FindsRow n id es
find_row low n id [] unique h = ground (arith, h)
find_row low n id (e ∷ es) unique h = elim (Bool-cases (is_sequence n e)) [
  | inl here ↦ (
    e,
    ground (arith, here),
    the_row low n id e es here h (
        no_row low n id es
          (ap (λ k. any (is_sequence k) es) (sym (at_sequence n e here)) ∙ unique.0)),
  )
  | inr other ↦
      found_later n id e es other (find_row low n id es unique.1 (ground (arith, h, other)))
]

-- What is known of the first event after the cursor.
abbrev IsFirst : (low : ℕ) → List OutboxEvent → OutboxEvent → Type 0
IsFirst low es e =
    (is_valid e ≡ true)
    × (is_after low e ≡ true)
    × (any (is_between low e.sequence) es ≡ false)
    × FindsRow e.sequence e.id es

sequence_total : (d e : OutboxEvent) → by_sequence d e ≡ false → by_sequence e d ≡ true
sequence_total d e h = ground arith

own_row : (e : OutboxEvent) (es : List OutboxEvent) → 0 < count (is_row e.sequence e.id) (e ∷ es)
own_row e es = ground arith

ordered-IsFirst :
    (low : ℕ) (e : OutboxEvent) (es rest : List OutboxEvent)
    → UniqueSequences es
    → is_valid e ≡ true
    → order_by by_sequence (select (is_after low) es) ≡ e ∷ rest
    → IsFirst low es e
ordered-IsFirst low e es rest unique valid h = (
  valid,
  all_after.0,
  none_between low e.sequence es (
      sym (count-order (is_between low e.sequence) by_sequence after)
      ∙ (ap (count (is_between low e.sequence)) h
          ∙ none_before low e.sequence e rest (ground arith)
              (subst (Ordered by_sequence) h (order-Ordered by_sequence sequence_total after)))),
  find_row low e.sequence e.id es unique (
      subst (λ k. 0 < k)
        (sym (ap (count (is_row e.sequence e.id)) h)
          ∙ count-order (is_row e.sequence e.id) by_sequence after)
        (own_row e rest)),
)
  where
    after : List OutboxEvent
    after = select (is_after low) es

    all_after : All (λ d. is_after low d ≡ true) (e ∷ rest)
    all_after =
        subst (All (λ d. is_after low d ≡ true)) h
          (All-order (λ d. is_after low d ≡ true) by_sequence after (All-select (is_after low) es))

-- The batch, and that its events are valid.
abbrev IsBatch : (low n : ℕ) → List OutboxEvent → List OutboxEvent → Type 0
IsBatch low n es found =
    (any (λ e. not (is_valid e)) found ≡ false)
    × (limit n (order_by by_sequence (select (is_after low) es)) ≡ found)

list_after-IsBatch :
    (low n : ℕ) (s : Outbox) → Ensures (IsBatch low n s.events) (list_after low n s)
unfolding list_after
list_after-IsBatch low n s =
    guard-Ensures (IsBatch low n s.events) (ltb n 1 || ltb max_batch n) _ _ λ inside.
      guard-Ensures (IsBatch low n s.events) (any (λ e. not (is_valid e)) batch) database_error
        (ok batch) λ valid. (valid, refl)
  where
    batch : List OutboxEvent
    batch = limit n (order_by by_sequence (select (is_after low) s.events))

first_valid :
    (e : OutboxEvent) (es : List OutboxEvent)
    → any (λ d. not (is_valid d)) (e ∷ es) ≡ false
    → is_valid e ≡ true
first_valid e es h = ground (arith, h)

batch-IsFirst :
    (low n : ℕ) (e : OutboxEvent) (es : List OutboxEvent) (s : Outbox)
    → UniqueSequences s.events
    → list_after low n s ≡ ok (e ∷ es)
    → IsFirst low s.events e
batch-IsFirst low n e es s unique listed =
    ordered-IsFirst low e s.events rest.0 unique (first_valid e es batch.0) rest.1
  where
    batch : IsBatch low n s.events (e ∷ es)
    batch =
        Ensures-ok (IsBatch low n s.events) (list_after low n s) (e ∷ es)
          (list_after-IsBatch low n s) listed

    rest :
        (tail : List OutboxEvent) × (order_by by_sequence (select (is_after low) s.events)
          ≡ e ∷ tail)
    rest = limit_first n (order_by by_sequence (select (is_after low) s.events)) es e batch.1

not_before : (low : ℕ) (e : OutboxEvent) → is_after low e ≡ true → ltb e.sequence low ≡ false
not_before low e h = ground arith

not_at : (low : ℕ) (e : OutboxEvent) → is_after low e ≡ true → (e.sequence == low) ≡ false
not_at low e h = ground arith

-- The first event of the batch after the cursor that has no receipt yet can be checkpointed, whatever gaps there are
-- before it: the cursor moves to it and its receipt is added.
pub next-checkpoint :
    (connector : Text) (n : ℕ) (e : OutboxEvent) (es : List OutboxEvent) (o : DeliveryOutcome)
    (s : Outbox)
    → valid_connector_name connector ≡ true
    → UniqueSequences s.events
    → list_after (last_sequence s.cursor) n s ≡ ok (e ∷ es)
    → any (is_receipt_of e.id) s.receipts ≡ false
    → checkpoint connector e o s
      ≡ ok (record s {
        cursor = some e.sequence;
        receipts = record { event = e.id; outcome = o } ∷ s.receipts;
      })
unfolding checkpoint advance_cursor insert_receipt
next-checkpoint connector n e es o s named unique listed new =
    rw
      (
        named,
        first.0,
        not_before (last_sequence s.cursor) e first.1,
        not_at (last_sequence s.cursor) e first.1,
        first.2,
        first.3.1,
        first.3.2,
        new,
        checkpoint,
        advance_cursor,
        insert_receipt,
      )
      refl
  where
    first : IsFirst (last_sequence s.cursor) s.events e
    first = batch-IsFirst (last_sequence s.cursor) n e es s unique listed
