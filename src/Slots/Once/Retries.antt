-- ===== src/Slots/Once/Retries.antt =====
-- The same call made again, with the same key and hash, after it succeeded.
use qweqwe.Base.{
  ℕ, ◌≡◌, refl, inl, inr, true, none, some, ◌∷◌, arith, ◌==◌, Result, ok, Ensures, ◌>>◌, ◌∙◌,
  Option-cases, bind-Ensures, Ensures->>=,
}
use qweqwe.Slots.Model.{Slot}
use qweqwe.Slots.Tables.{Operation, Db, find_slot, put_slot}
use qweqwe.Slots.Idempotency.{
  Call, drop_expired, check_replay, authorize_replay, replay_as_host, claim_idempotency,
}
use qweqwe.Slots.Transaction.{update_slot, transact}
use qweqwe.Slots.Evolution.{find-put_same}
use qweqwe.Slots.Once.Claims.{
  live_claim, claim_of, drop_for, claim_idempotency_new, claim_idempotency_live,
}

-- What a first call leaves in the table of claims.
abbrev pub FirstClaim : ℕ → Call → Operation → ℕ → Db → Db → Type 0
FirstClaim ttl call op i db d =
    d.claims ≡ claim_of ttl call op i ∷ drop_expired call.actor call.key call.now db.claims

module _ (ttl : ℕ) (call : Call) (op : Operation) (i : ℕ) (db : Db) where
  update_slot-claims :
      (body : Db → Slot → Result Slot) (d : Db)
      → Ensures (λ (e : Db). e.claims ≡ d.claims) (update_slot i body d)
  unfolding update_slot
  update_slot-claims body d =
      Ensures->>= (λ (e : Db). e.claims ≡ d.claims) _ _
        λ s. Ensures->>= (λ (e : Db). e.claims ≡ d.claims) (body d s) _ λ t. refl

  pub transact-FirstClaim :
      (body : Db → Slot → Result Slot)
      → live_claim call db.claims ≡ none
      → Ensures
          (λ (r : ℕ × Db). (r.0 ≡ i) × FirstClaim ttl call op i db (r.1))
          (transact ttl call op i body db)
  unfolding transact
  transact-FirstClaim body free =
      rw (claim_idempotency_new ttl db call op i free, transact)
        (bind-Ensures (λ (d : Db). FirstClaim ttl call op i db d)
          (λ (r : ℕ × Db). (r.0 ≡ i) × FirstClaim ttl call op i db (r.1)) _ (λ d. ok (i, d))
          (update_slot-claims body _) λ d e. (refl, e))

-- The resource is the actor's own Slot.
abbrev pub Hosts : ℕ → ℕ → Db → Type 0
Hosts actor i d = replay_as_host actor (find_slot i d.slots) ≡ true

module _ (ttl : ℕ) (call : Call) (op : Operation) (i : ℕ) (db : Db) (body : Db → Slot → Result Slot)
    (hosts : (d : Db) (s : Slot)
      → Ensures (λ (t : Slot). (t.host_id == call.actor) ≡ true) (body d s)) where
  update_slot-Hosts : (d : Db) → Ensures (Hosts call.actor i) (update_slot i body d)
  unfolding update_slot replay_as_host
  update_slot-Hosts d = elim (Option-cases (find_slot i d.slots)) [
    | inl missing ↦ rw (missing, update_slot) tt
    | inr (s, found) ↦
        rw (found, update_slot)
          (bind-Ensures (λ (t : Slot). (t.host_id == call.actor) ≡ true) (Hosts call.actor i)
            (body d s) (λ t. ok (record d { slots = put_slot i t d.slots })) (hosts d s)
            λ t e. rw (find-put_same i t d.slots s found) e)
  ]

  pub transact-Hosts :
      live_claim call db.claims ≡ none
      → Ensures (λ (r : ℕ × Db). Hosts call.actor i (r.1)) (transact ttl call op i body db)
  unfolding transact
  transact-Hosts free =
      rw (claim_idempotency_new ttl db call op i free, transact)
        (bind-Ensures (Hosts call.actor i) (λ (r : ℕ × Db). Hosts call.actor i (r.1)) _
          (λ d. ok (i, d)) (update_slot-Hosts _) λ d e. e)

-- The call, sent again at another time.
abbrev pub again_at : Call → ℕ → Call
again_at call later = record call { now = later }

-- The claim of the first call is alive.
module _ (ttl later : ℕ) (call : Call) (op : Operation) (i : ℕ) (d : Db)
    (claimed : live_claim (again_at call later) d.claims ≡ some (claim_of ttl call op i)) where
  check_own :
      check_replay
        (drop_for (again_at call later) d)
        (again_at call later)
        op
        (claim_of ttl call op i)
      ≡ (authorize_replay (drop_for (again_at call later) d) call.actor i op
          >> ok (true, i, drop_for (again_at call later) d))
  unfolding check_replay
  check_own = ground arith

  claimed_again : claim_idempotency ttl d (again_at call later) op i ≡ (
      authorize_replay (drop_for (again_at call later) d) call.actor i op
      >> ok (true, i, drop_for (again_at call later) d))
  claimed_again =
      claim_idempotency_live ttl d (again_at call later) op i (claim_of ttl call op i) claimed
      ∙ check_own

  -- Whatever the operation would do now.
  pub transact_again :
      (body : Db → Slot → Result Slot)
      → transact ttl (again_at call later) op i body d ≡ (
          authorize_replay (drop_for (again_at call later) d) call.actor i op
          >> ok (i, drop_for (again_at call later) d))
  unfolding transact
  transact_again body = rw (claimed_again, transact) (ground arith)
