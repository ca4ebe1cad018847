-- ===== src/Outbox/Retry.antt =====
-- A checkpoint that is repeated.
use qweqwe.Base.{
  ℕ, ◌≡◌, refl, sym, ap, ◌∙◌, true, false, ◌||◌, not, some, List, arith, ◌==◌, ltb, any, find, ok,
  err, Result, Bool-cases, Option-cases, inl, inr, invalid_input, or_fail, Ensures-weaken, fail_if,
  ◌>>◌, Text, receipt_conflict, Ensures, Ensures-ok, guard-Ensures, bind-Ensures,
}
use qweqwe.Outbox.Store.{
  OutboxEvent, DeliveryOutcome, delivered, skipped, Receipt, Outbox, last_sequence, is_sequence,
  is_receipt_of, is_between, receipt_matches, insert_receipt, advance_cursor, checkpoint,
  valid_connector_name, is_valid, outcome_eq,
}

outcome_eq_same : (o : DeliveryOutcome) → outcome_eq o o ≡ true
outcome_eq_same delivered = refl
outcome_eq_same skipped = refl

-- The receipt of the event is there and has the outcome.
abbrev HasReceipt : (event : ℕ) → DeliveryOutcome → List Receipt → Type 0
HasReceipt id o rs =
    (r : Receipt) × (find (is_receipt_of id) rs ≡ some r) × (outcome_eq r.outcome o ≡ true)

-- What a checkpoint that succeeds leaves.
abbrev IsCheckpointed : OutboxEvent → DeliveryOutcome → Outbox → Type 0
IsCheckpointed e o t = (t.cursor ≡ some e.sequence) × HasReceipt e.id o t.receipts

receipt_matches-HasReceipt :
    (id : ℕ) (o : DeliveryOutcome) (rs : List Receipt)
    → Ensures (λ u. HasReceipt id o rs) (receipt_matches id o rs)
unfolding receipt_matches
receipt_matches-HasReceipt id o rs = elim (Option-cases (find (is_receipt_of id) rs)) [
  | inl absent ↦ rw (absent, receipt_matches) tt
  | inr found ↦ elim (Bool-cases (outcome_eq found.0.outcome o)) [
    | inl same ↦ rw (found.1, same, receipt_matches) (found.0, refl, same)
    | inr other ↦ rw (found.1, other, receipt_matches) tt
  ]
]

insert_receipt-HasReceipt :
    (id : ℕ) (o : DeliveryOutcome) (rs : List Receipt)
    → Ensures (HasReceipt id o) (insert_receipt id o rs)
unfolding insert_receipt
insert_receipt-HasReceipt id o rs = elim (Bool-cases (any (is_receipt_of id) rs)) [
  | inr new ↦
      rw (new, insert_receipt) (record { event = id; outcome = o }, ground arith, outcome_eq_same o)
  | inl there ↦
      rw (there, insert_receipt)
        (bind-Ensures _ (HasReceipt id o) (receipt_matches id o rs) _
          (receipt_matches-HasReceipt id o rs) (λ u h. h))
]

nothing_asked : {A : Type 0} (r : Result A) → Ensures (λ a. Unit {0}) r
nothing_asked (ok a) = tt
nothing_asked (err e) = tt

ltb_same : (n : ℕ) → ltb n n ≡ false
ltb_same n = ground arith

eqb_same : (n : ℕ) → (n == n) ≡ true
eqb_same n = ground arith

advance_cursor-IsCheckpointed :
    (e : OutboxEvent) (o : DeliveryOutcome) (s : Outbox)
    → Ensures (IsCheckpointed e o) (advance_cursor e o s)
unfolding advance_cursor
advance_cursor-IsCheckpointed e o s =
    guard-Ensures (IsCheckpointed e o)
      (any (is_between (last_sequence s.cursor) e.sequence) s.events) _ _
      λ clear.
        bind-Ensures (λ c. Unit {0}) (IsCheckpointed e o)
          (or_fail (find (is_sequence e.sequence) s.events) invalid_input) _
          (nothing_asked (or_fail (find (is_sequence e.sequence) s.events) invalid_input))
          (λ c u. guard-Ensures (IsCheckpointed e o) (not (c.id == e.id)) _ _ λ same.
            bind-Ensures (HasReceipt e.id o) (IsCheckpointed e o) (insert_receipt e.id o s.receipts)
              _ (insert_receipt-HasReceipt e.id o s.receipts) (λ rs h. (refl, h)))

-- What a checkpoint that succeeds was given and leaves.
abbrev IsAccepted : Text → OutboxEvent → DeliveryOutcome → Outbox → Type 0
IsAccepted connector e o t =
    ((not (valid_connector_name connector) || not (is_valid e)) ≡ false) × IsCheckpointed e o t

checkpoint-IsAccepted :
    (connector : Text) (e : OutboxEvent) (o : DeliveryOutcome) (s : Outbox)
    → Ensures (IsAccepted connector e o) (checkpoint connector e o s)
unfolding checkpoint
checkpoint-IsAccepted connector e o s =
    guard-Ensures (IsAccepted connector e o)
      (not (valid_connector_name connector) || not (is_valid e)) _ _
      λ valid.
        guard-Ensures (IsAccepted connector e o) (ltb e.sequence (last_sequence s.cursor)) _ _
          λ later. elim (Bool-cases (e.sequence == last_sequence s.cursor)) [
            | inl at ↦ rw at (
                bind-Ensures (λ u. HasReceipt e.id o s.receipts) (IsAccepted connector e o)
                  (receipt_matches e.id o s.receipts) _
                  (receipt_matches-HasReceipt e.id o s.receipts)
                  (λ u h. (valid, (ap some (ground (arith, at)), h))))
            | inr past ↦ rw past (
                Ensures-weaken (IsCheckpointed e o) (IsAccepted connector e o)
                  (advance_cursor e o s) (advance_cursor-IsCheckpointed e o s) (λ t h. (valid, h)))
          ]

outcome_eq_trans :
    (r o p : DeliveryOutcome) → outcome_eq r o ≡ true → outcome_eq o p ≡ outcome_eq r p
outcome_eq_trans delivered delivered p h = refl
outcome_eq_trans skipped skipped p h = refl
outcome_eq_trans delivered skipped p h = cc h
outcome_eq_trans skipped delivered p h = cc h

-- A checkpoint on what an accepted one left.
again :
    (connector : Text) (e : OutboxEvent) (o p : DeliveryOutcome) (t : Outbox)
    → IsAccepted connector e o t
    → checkpoint connector e p t ≡ (fail_if (not (outcome_eq o p)) receipt_conflict >> ok t)
unfolding checkpoint receipt_matches
again connector e o p t h =
    rw
      (
        h.0,
        ap last_sequence h.1.0,
        ltb_same e.sequence,
        eqb_same e.sequence,
        h.1.1.1,
        sym (outcome_eq_trans h.1.1.0.outcome o p h.1.1.2),
        checkpoint,
        receipt_matches,
      )
      (ap (λ c. fail_if (not (outcome_eq o p)) receipt_conflict >> ok (record t { cursor = c }))
        (sym h.1.0))

-- A checkpoint that succeeded can be repeated: the same outcome is accepted and changes nothing, and another one is a
-- conflict.
pub checkpoint_again :
    (connector : Text) (e : OutboxEvent) (o p : DeliveryOutcome) (s t : Outbox)
    → checkpoint connector e o s ≡ ok t
    → (checkpoint connector e o t ≡ ok t)
      × (outcome_eq o p ≡ false → checkpoint connector e p t ≡ err receipt_conflict)
checkpoint_again connector e o p s t h = (
  again connector e o o t accepted
      ∙ ap (λ b. fail_if (not b) receipt_conflict >> ok t) (outcome_eq_same o),
  λ other.
      again connector e o p t accepted ∙ ap (λ b. fail_if (not b) receipt_conflict >> ok t) other,
)
  where
    accepted : IsAccepted connector e o t
    accepted =
        Ensures-ok (IsAccepted connector e o) (checkpoint connector e o s) t
          (checkpoint-IsAccepted connector e o s) h
