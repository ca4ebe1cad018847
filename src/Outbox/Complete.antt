-- ===== src/Outbox/Complete.antt =====
-- No event is passed over.
use qweqwe.Base.{
  ℕ, ◌≡◌, refl, sym, ap, ◌∙◌, Bool, if◌then◌else◌, true, false, ◌||◌, not, none, some, List, [],
  ◌∷◌, arith, ◌==◌, ltb, leb, any, find, All, ok, Ensures, Ensures-ok, Ensures-if, Ensures->>=,
  guard-Ensures, bind-Ensures, Bool-cases, Option-cases, Result-cases, inl, inr, Text,
}
use qweqwe.Outbox.Store.{
  OutboxEvent, DeliveryOutcome, Receipt, Outbox, last_sequence, is_sequence, is_receipt_of,
  is_between, receipt_matches, read_cursor, insert_receipt, advance_cursor, checkpoint,
  valid_connector_name, is_valid,
}

-- The primary key.
abbrev pub UniqueSequences : List OutboxEvent → Type 0
UniqueSequences [] = Unit {0}
UniqueSequences (e ∷ es) = (any (is_sequence e.sequence) es ≡ false) × UniqueSequences es

abbrev pub is_late : List ℕ → OutboxEvent → Bool
is_late late e = any (λ n. n == e.sequence) late

-- An event up to the cursor has a receipt, unless its sequence is a late one.
abbrev pub IsCovered : (late : List ℕ) (cursor : ℕ) → List Receipt → OutboxEvent → Type 0
IsCovered late n rs e =
    leb e.sequence n ≡ true → (is_late late e || any (is_receipt_of e.id) rs) ≡ true

pub record IsComplete (late : List ℕ) (s : Outbox) : Type 0 where
  pub covered : All (IsCovered late (last_sequence s.cursor) s.receipts) s.events
  pub keyed : UniqueSequences s.events

insert_receipt-Ensures :
    (id : ℕ) (o : DeliveryOutcome) (rs : List Receipt)
    → Ensures
        (λ ts.
          (any (is_receipt_of id) ts ≡ true)
          × ((k : ℕ) → any (is_receipt_of k) rs ≡ true → any (is_receipt_of k) ts ≡ true))
        (insert_receipt id o rs)
unfolding insert_receipt
insert_receipt-Ensures id o rs = elim (Bool-cases (any (is_receipt_of id) rs)) [
  | inr new ↦ rw (new, insert_receipt) (ground arith, λ k h. ground arith)
  | inl there ↦ elim (Result-cases (receipt_matches id o rs)) [
    | inl other ↦ rw (there, other.1, insert_receipt) tt
    | inr same ↦ rw (there, same.1, insert_receipt) (there, λ k h. h)
  ]
]

sequence_here : {high : ℕ} (e : OutboxEvent) → is_sequence high e ≡ true → e.sequence ≡ high
sequence_here e h = ground arith

here_id :
    (high id : ℕ) (c e : OutboxEvent) (es : List OutboxEvent)
    → is_sequence high e ≡ true
    → find (is_sequence high) (e ∷ es) ≡ some c
    → c.id ≡ id
    → e.id ≡ id
here_id high id c e es here found same = grind (arith, here, found, same)

or_kept : (b x y : Bool) → (x ≡ true → y ≡ true) → (b || x) ≡ true → (b || y) ≡ true
or_kept true x y k h = refl
or_kept false x y k h = k h

or_right : (b y : Bool) → y ≡ true → (b || y) ≡ true
or_right true y h = refl
or_right false y h = h

module _ (late : List ℕ) (low high id : ℕ) (rs ts : List Receipt)
    (own : any (is_receipt_of id) ts ≡ true)
    (kept : (k : ℕ) → any (is_receipt_of k) rs ≡ true → any (is_receipt_of k) ts ≡ true) where
  others-IsCovered :
      (es : List OutboxEvent)
      → any (is_between low high) es ≡ false
      → any (is_sequence high) es ≡ false
      → All (IsCovered late low rs) es
      → All (IsCovered late high ts) es
  others-IsCovered [] gap absent all = tt
  others-IsCovered (e ∷ es) gap absent all = (
    λ h.
        or_kept (is_late late e) (any (is_receipt_of e.id) rs) (any (is_receipt_of e.id) ts)
          (kept e.id) (all.0 (ground arith)),
    others-IsCovered es (ground arith) (ground arith) all.1,
  )

  advanced-IsCovered :
      (c : OutboxEvent) (es : List OutboxEvent)
      → UniqueSequences es
      → any (is_between low high) es ≡ false
      → find (is_sequence high) es ≡ some c
      → c.id ≡ id
      → All (IsCovered late low rs) es
      → All (IsCovered late high ts) es
  advanced-IsCovered c [] unique gap found same all = tt
  advanced-IsCovered c (e ∷ es) unique gap found same all = elim (Bool-cases (is_sequence high e)) [
    | inl here ↦ (
      λ h.
          or_right (is_late late e) (any (is_receipt_of e.id) ts)
            (ap (λ x. any (is_receipt_of x) ts) (here_id high id c e es here found same) ∙ own),
      others-IsCovered es (ground arith)
          (ap (λ n. any (is_sequence n) es) (sym (sequence_here e here)) ∙ unique.0) all.1,
    )
    | inr other ↦ (
      λ h.
          or_kept (is_late late e) (any (is_receipt_of e.id) rs) (any (is_receipt_of e.id) ts)
            (kept e.id) (all.0 (ground arith)),
      advanced-IsCovered c es unique.1 (ground arith) (ground (arith, other)) same all.1,
    )
  ]

pub advance_cursor-IsComplete :
    (late : List ℕ) (e : OutboxEvent) (o : DeliveryOutcome) (s : Outbox)
    → IsComplete late s
    → Ensures (IsComplete late) (advance_cursor e o s)
unfolding advance_cursor
advance_cursor-IsComplete late e o s h =
    elim (Bool-cases (any (is_between (last_sequence s.cursor) e.sequence) s.events)) [
      | inl gap ↦ rw (gap, advance_cursor) tt
      | inr clear ↦ elim (Option-cases (find (is_sequence e.sequence) s.events)) [
        | inl none_there ↦ rw (clear, none_there, advance_cursor) tt
        | inr found ↦
            rw (clear, found.1, advance_cursor)
              (guard-Ensures (IsComplete late) (not (found.0.id == e.id)) _ _ λ same.
                bind-Ensures _ (IsComplete late) (insert_receipt e.id o s.receipts) _
                  (insert_receipt-Ensures e.id o s.receipts)
                  (λ ts kept. record {
                    covered =
                        advanced-IsCovered late (last_sequence s.cursor) e.sequence e.id s.receipts
                          ts kept.0 kept.1 found.0 s.events h.keyed clear found.1
                          (ground (arith, same)) h.covered;
                    keyed = h.keyed;
                  }))
      ]
    ]

pub checkpoint-IsComplete :
    (late : List ℕ) (connector : Text) (e : OutboxEvent) (o : DeliveryOutcome) (s : Outbox)
    → IsComplete late s
    → Ensures (IsComplete late) (checkpoint connector e o s)
unfolding checkpoint
checkpoint-IsComplete late connector e o s h =
    guard-Ensures (IsComplete late) (not (valid_connector_name connector) || not (is_valid e)) _ _
      λ valid.
        guard-Ensures (IsComplete late) (ltb e.sequence (last_sequence s.cursor)) _ _ λ later.
          Ensures-if (IsComplete late) (e.sequence == last_sequence s.cursor) _ _
            (Ensures->>= (IsComplete late) (receipt_matches e.id o s.receipts) _
              (λ u. record { covered = h.covered; keyed = h.keyed }))
            (advance_cursor-IsComplete late e o s h)

-- The late sequences, with that of an event that is written when the cursor has reached it already.
abbrev pub noted : OutboxEvent → (late : List ℕ) → Outbox → List ℕ
noted e late s = if ltb (last_sequence s.cursor) e.sequence then late else e.sequence ∷ late

-- What happens to the outbox of a connector: an event becomes visible, with a sequence of its own, which may be below the
-- cursor, since sequences are drawn before transactions commit; the cursor is read; a checkpoint succeeds.
pub data Reached : (late : List ℕ) → Outbox → Type 0 where
  start : Reached [] (record { events = []; cursor = none; receipts = [] })
  write :
      (e : OutboxEvent) (late : List ℕ) (s : Outbox)
      → Reached late s
      → any (is_sequence e.sequence) s.events ≡ false
      → Reached (noted e late s) (record s { events = e ∷ s.events })
  look :
      (connector : Text) (late : List ℕ) (s t : Outbox) (n : ℕ)
      → Reached late s
      → read_cursor connector s ≡ ok (n, t)
      → Reached late t
  deliver :
      (connector : Text) (e : OutboxEvent) (o : DeliveryOutcome) (late : List ℕ) (s t : Outbox)
      → Reached late s
      → checkpoint connector e o s ≡ ok t
      → Reached late t

All-noted :
    (e : OutboxEvent) (late : List ℕ) (s : Outbox) (es : List OutboxEvent)
    → All (IsCovered late (last_sequence s.cursor) s.receipts) es
    → All (IsCovered (noted e late s) (last_sequence s.cursor) s.receipts) es
All-noted e late s [] all = tt
All-noted e late s (d ∷ es) all = (λ up. ground (arith, all.0 up), All-noted e late s es all.1)

written-IsComplete :
    (e : OutboxEvent) (late : List ℕ) (s : Outbox)
    → any (is_sequence e.sequence) s.events ≡ false
    → IsComplete late s
    → IsComplete (noted e late s) (record s { events = e ∷ s.events })
written-IsComplete e late s new h = record {
  covered = (λ up. ground (arith, up), All-noted e late s s.events h.covered);
  keyed = (new, h.keyed);
}

read_cursor-IsComplete :
    (connector : Text) (late : List ℕ) (s : Outbox)
    → IsComplete late s
    → Ensures (λ (r : ℕ × Outbox). IsComplete late (r.1)) (read_cursor connector s)
unfolding read_cursor
read_cursor-IsComplete connector late s h =
    guard-Ensures (λ (r : ℕ × Outbox). IsComplete late (r.1)) (not (valid_connector_name connector))
      _ _ λ valid. record { covered = h.covered; keyed = h.keyed }

-- In every reachable outbox, each event up to the cursor has a receipt of the connector, but for the late ones, whose
-- sequence the cursor had reached when they became visible; and a sequence names one event. So a connector never passes
-- over an event that it could see.
pub Reached-IsComplete : (late : List ℕ) (s : Outbox) → Reached late s → IsComplete late s
Reached-IsComplete _ _ start = record { covered = tt; keyed = tt }
Reached-IsComplete _ _ (write e late s r new) =
    written-IsComplete e late s new (Reached-IsComplete late s r)
Reached-IsComplete _ _ (look connector late s t n r done) =
    Ensures-ok (λ (r : ℕ × Outbox). IsComplete late (r.1)) (read_cursor connector s) (n, t)
      (read_cursor-IsComplete connector late s (Reached-IsComplete late s r)) done
Reached-IsComplete _ _ (deliver connector e o late s t r done) =
    Ensures-ok (IsComplete late) (checkpoint connector e o s) t
      (checkpoint-IsComplete late connector e o s (Reached-IsComplete late s r)) done
