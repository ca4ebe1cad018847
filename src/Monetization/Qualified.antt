-- ===== src/Monetization/Qualified.antt =====
-- The referral rows: the key invitee_id, and what `SET qualified_at` changes.
use qweqwe.Base.{
  ℕ, ◌+◌, ◌<◌, ◌≡◌, refl, ap, ◌∙◌, Bool, true, false, ◌&&◌, ◌||◌, Option, none, some, List, [], ◌∷◌,
  arith, ◌==◌, any, find, update, count, All, Bool-cases, inl, inr, if◌then◌else◌,
}
use qweqwe.Monetization.Model.{Referral, is_set}
use qweqwe.Monetization.Purchase.{is_pending, qualified, is_qualified_for}
use qweqwe.Monetization.Referral.{is_invitee}

-- The primary key.
abbrev pub UniqueInvitees : List Referral → Type 0
UniqueInvitees [] = Unit {0}
UniqueInvitees (r ∷ rs) = (any (is_invitee r.invitee) rs ≡ false) × UniqueInvitees rs

abbrev pub is_done : ℕ → Referral → Bool
is_done v r = r.invitee == v && is_set r.qualified_at

abbrev pub InTime : Option ℕ → ℕ → Type 0
InTime none deadline = Unit {0}
InTime (some t) deadline = t < deadline

-- Of two users, accepted in time, and qualified in time if at all.
abbrev pub IsProper : Referral → Type 0
IsProper r =
    ((r.invitee == r.inviter) ≡ false)
    × (r.accepted_at < r.qualifying_deadline)
    × InTime r.qualified_at r.qualifying_deadline

module _ (v receipt now : ℕ) where
  abbrev pub qualify_rows : List Referral → List Referral
  qualify_rows = update (is_pending v now) (qualified receipt now)

  qualify-absent : (rs : List Referral) → any (is_invitee v) rs ≡ false → qualify_rows rs ≡ rs
  qualify-absent [] h = refl
  qualify-absent (r ∷ rs) h = ground (arith, qualify-absent rs)

  find-absent :
      (rs : List Referral) → any (is_invitee v) rs ≡ false → find (is_pending v now) rs ≡ none
  find-absent [] h = refl
  find-absent (r ∷ rs) h = ground (arith, find-absent rs)

  undone-absent : (rs : List Referral) → any (is_invitee v) rs ≡ false → any (is_done v) rs ≡ false
  undone-absent [] h = refl
  undone-absent (r ∷ rs) h = ground (arith, undone-absent rs)

  alone :
      (s : Referral) (rs : List Referral)
      → any (is_invitee s.invitee) rs ≡ false
      → (s.invitee == v) ≡ true
      → any (is_invitee v) rs ≡ false
  alone s rs h e = ap (λ x. any (is_invitee x) rs) (ground arith) ∙ h

  -- One more referral of that inviter has qualified.
  pub count-qualify :
      (w : ℕ) (r : Referral) (rs : List Referral)
      → UniqueInvitees rs
      → find (is_pending v now) rs ≡ some r
      → count (is_qualified_for w) (qualify_rows rs) ≡ (
          if w == r.inviter
          then count (is_qualified_for w) rs + 1
          else count (is_qualified_for w) rs)
  count-qualify w r [] unique h = ground arith
  count-qualify w r (s ∷ rs) unique h = elim (Bool-cases (is_pending v now s)) [
    | inl mine ↦ ground (
      arith,
      mine,
      qualify-absent rs (alone s rs unique.0 (ground (arith, mine))),
      found_inviter mine,
    )
    | inr other ↦ ground (arith, count-qualify w r rs unique.1)
  ]
    where
      found_inviter : is_pending v now s ≡ true → r.inviter ≡ s.inviter
      found_inviter mine = ground arith

  pub pending-undone :
      (r : Referral) (rs : List Referral)
      → UniqueInvitees rs
      → find (is_pending v now) rs ≡ some r
      → any (is_done v) rs ≡ false
  pending-undone r [] unique h = refl
  pending-undone r (s ∷ rs) unique h = elim (Bool-cases (is_pending v now s)) [
    | inl mine ↦ ground (arith, mine, undone-absent rs (alone s rs unique.0 (ground (arith, mine))))
    | inr other ↦ elim (Bool-cases (s.invitee == v)) [
      | inl same ↦ ground (arith, find-absent rs (alone s rs unique.0 same))
      | inr apart ↦ ground (arith, pending-undone r rs unique.1)
    ]
  ]

  pub done-qualify :
      (w : ℕ) (rs : List Referral)
      → any (is_done w) (qualify_rows rs)
        ≡ (any (is_done w) rs || (w == v && any (is_pending v now) rs))
  done-qualify w [] = ground arith
  done-qualify w (s ∷ rs) = ground (arith, done-qualify w rs)

  invitee-qualify :
      (w : ℕ) (rs : List Referral) → any (is_invitee w) (qualify_rows rs) ≡ any (is_invitee w) rs
  invitee-qualify w [] = refl
  invitee-qualify w (s ∷ rs) = ground (arith, invitee-qualify w rs)

  pub qualify-UniqueInvitees :
      (rs : List Referral) → UniqueInvitees rs → UniqueInvitees (qualify_rows rs)
  qualify-UniqueInvitees [] h = tt
  qualify-UniqueInvitees (s ∷ rs) h =
      ground (arith, invitee-qualify s.invitee rs, qualify-UniqueInvitees rs h.1)

  pub qualify-IsProper :
      (r : Referral) → IsProper r → is_pending v now r ≡ true → IsProper (qualified receipt now r)
  qualify-IsProper r h mine = (h.0, h.1, ground arith)

  pub qualify-AllProper : (rs : List Referral) → All IsProper rs → All IsProper (qualify_rows rs)
  qualify-AllProper [] h = tt
  qualify-AllProper (r ∷ rs) h = ground (arith, qualify-IsProper r h.0, qualify-AllProper rs h.1)
