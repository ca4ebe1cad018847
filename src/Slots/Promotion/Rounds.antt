-- ===== src/Slots/Promotion/Rounds.antt =====
-- The loops that promote until the Slot is full or nobody is left.
use mathlib.Core.Path.{subst}
use qweqwe.Base.{
  ℕ, zero, suc, ◌+◌, ◌≤◌, ◌≡◌, sym, ◌⊎◌, inl, inr, List, [], arith, length, Option-cases,
}
use qweqwe.Slots.Model.{Slot}
use qweqwe.Slots.Tables.{BlockRow}
use qweqwe.Slots.Roster.{IsRoster}
use qweqwe.Slots.Waitlist.{promote_oldest, promote_all}
use qweqwe.Slots.Promotion.Outcome.{
  Keeps, IsPromoted, promote_oldest-IsPromoted, promote_oldest_stops, promote_oldest_advances,
  promote_oldest-Keeps,
}

Keeps-trans : {s t u : Slot} → Keeps s t → Keeps t u → Keeps s u
Keeps-trans k l = ground arith

IsRoster-after :
    {blocks : List BlockRow} {s t : Slot} {n : ℕ}
    → IsPromoted blocks s t n
    → IsRoster blocks t.host_id t.requests t.members
IsRoster-after {blocks} {s} {t} p =
    subst (λ h. IsRoster blocks h t.requests t.members) (sym p.keeps.host_id) p.roster

IsPromoted-trans :
    {blocks : List BlockRow} {s t u : Slot} {m n : ℕ}
    → IsPromoted blocks s t m
    → IsPromoted blocks t u n
    → IsPromoted blocks s u n
IsPromoted-trans {blocks} {s} {t} {u} p q = record {
  keeps = Keeps-trans p.keeps q.keeps;
  roster = subst (λ h. IsRoster blocks h u.requests u.members) p.keeps.host_id q.roster;
  counted = q.counted;
}

module _ (ttl now : ℕ) (blocks : List BlockRow) where
  pub promote_all-IsPromoted :
      (rounds count capacity : ℕ) (s : Slot)
      → IsRoster blocks s.host_id s.requests s.members
      → count ≡ length s.members
      → let r = promote_all rounds ttl now blocks count capacity s in IsPromoted blocks s r.0 r.1
  unfolding promote_all
  promote_all-IsPromoted zero count capacity s v e = record {
    keeps = ground arith;
    roster = v;
    counted = e;
  }
  promote_all-IsPromoted (suc rounds) count capacity s v e =
      let r = promote_oldest ttl now blocks count capacity s in
      let one = promote_oldest-IsPromoted ttl now blocks s v count capacity e in
      elim (Option-cases r.2) [
        | inl stop ↦ rw (stop, promote_all) one
        | inr (u, more) ↦
            rw (more, promote_all)
              (IsPromoted-trans one
                (promote_all-IsPromoted rounds r.1 capacity r.0 (IsRoster-after one) one.counted))
      ]

  -- From a count within the capacity, and with at least one round for each free seat, the loop ends
  -- by its own tests: the Slot is full, or the queue is empty. The count does not sink.
  pub promote_all_ends :
      (rounds count capacity : ℕ) (s : Slot)
      → count ≤ capacity
      → capacity ≤ count + rounds
      → let r = promote_all rounds ttl now blocks count capacity s in
        (count ≤ r.1) × (r.1 ≤ capacity) × ((r.1 ≡ capacity) ⊎ ((r.0).requests ≡ []))
  unfolding promote_all
  promote_all_ends zero count capacity s h k = ground arith
  promote_all_ends (suc rounds) count capacity s h k =
      let r = promote_oldest ttl now blocks count capacity s in
      elim (Option-cases r.2) [
        | inl stop ↦ ground (arith, promote_oldest_stops ttl now blocks count capacity s stop)
        | inr (u, more) ↦ ground (
          arith,
          promote_oldest_advances ttl now blocks count capacity s u more,
          promote_all_ends rounds r.1 capacity r.0,
        )
      ]

  pub promote_all-Keeps :
      (rounds count capacity : ℕ) (s : Slot)
      → Keeps s (promote_all rounds ttl now blocks count capacity s).0
  unfolding promote_all
  promote_all-Keeps zero count capacity s = ground arith
  promote_all-Keeps (suc rounds) count capacity s =
      let r = promote_oldest ttl now blocks count capacity s in
      ground (
        arith,
        promote_oldest-Keeps ttl now blocks count capacity s,
        promote_all-Keeps rounds r.1 capacity r.0,
      )
