-- ===== src/Guardian/Live.antt =====
-- How long a link is live.
use qweqwe.Base.{
  ℕ, ◌+◌, ◌≡◌, refl, ap, ◌∙◌, Bool, true, false, ◌&&◌, ◌||◌, not, none, some, List, [], ◌∷◌, arith,
  ◌==◌, ltb, any, find, update, All, ok, err, Ensures, Ensures-ok, guard-Ensures, Bool-cases, inl,
  inr, Text, if◌then◌else◌, link_unavailable,
}
use qweqwe.Slots.Model.{Slot}
use qweqwe.Slots.Tables.{Db, find_slot}
use qweqwe.Guardian.Store.{
  Mode, Link, has_hash, is_revocable, is_live, insert_link, new_link, create_link, revoked,
  revoke_link, slot_status_of, access_link, LinkCall, creates, revokes, serve_link, run_links,
}
use qweqwe.Guardian.Burned.{
  is_foreign, Holds, insert_other, kept_or_Ensures, creating, created, update-Holds, none_foreign,
}

-- Not a revocation of the link by its creator.
abbrev pub Spares : (id actor : ℕ) → LinkCall → Type 0
Spares id actor (creates db i slot a mode digest now ttl) = Unit {0}
Spares id actor (revokes link user now) = (link == id && user == actor) ≡ false

-- A row of the digest with another expiry.
abbrev is_odd : (digest expires : ℕ) → Link → Bool
is_odd digest expires l = has_hash digest l && not (l.expires_at == expires)

-- The row of a link as it was created, and no other of its digest.
abbrev Stands : (digest id actor : ℕ) → Link → List Link → Type 0
Stands digest id actor l ls =
    Holds digest id actor ls
    × (find (has_hash digest) ls ≡ some l)
    × (any (is_odd digest l.expires_at) ls ≡ false)

none_odd :
    (digest id expires : ℕ) (ls : List Link)
    → any (λ m. m.id == id || has_hash digest m) ls ≡ false
    → any (is_odd digest expires) ls ≡ false
none_odd digest id expires [] h = refl
none_odd digest id expires (l ∷ ls) h = ground (arith, none_odd digest id expires ls)

module _ (digest id actor : ℕ) (l : Link) where
  insert_link-Stands :
      (m : Link) (ls : List Link)
      → Stands digest id actor l ls
      → Ensures (Stands digest id actor l) (insert_link m ls)
  insert_link-Stands m ls h = insert_other (Stands digest id actor l) digest m ls h.0.0 λ other. (
    (ground (arith, h.0), ground (arith, other, h.0)),
    ground (arith, other, h.1),
    ground (arith, other, h.2),
  )

  update-Stands :
      (link user now : ℕ) (ls : List Link)
      → (link == id && user == actor) ≡ false
      → any (is_foreign digest id actor) ls ≡ false
      → (find (has_hash digest) (update (is_revocable link user) (revoked now) ls)
          ≡ find (has_hash digest) ls)
        × (any (is_odd digest l.expires_at) (update (is_revocable link user) (revoked now) ls)
            ≡ any (is_odd digest l.expires_at) ls)
  update-Stands link user now [] spared own = (refl, refl)
  update-Stands link user now (m ∷ ls) spared own = ground (arith, update-Stands link user now ls)

  revoke_link-Stands :
      (link user now : ℕ) (ls : List Link)
      → (link == id && user == actor) ≡ false
      → Stands digest id actor l ls
      → Ensures (Stands digest id actor l) (revoke_link link user now ls)
  unfolding revoke_link
  revoke_link-Stands link user now ls spared h =
      guard-Ensures (Stands digest id actor l) (not (any (is_revocable link user) ls)) _ _ λ a. (
        (
          (update-Holds digest id actor link user now ls).0 ∙ h.0.0,
          (update-Holds digest id actor link user now ls).1 ∙ h.0.1,
        ),
        (update-Stands link user now ls spared h.0.1).0 ∙ h.1,
        (update-Stands link user now ls spared h.0.1).1 ∙ h.2,
      )

  run_links-Stands :
      (cs : List LinkCall) (ls : List Link)
      → All (Spares id actor) cs
      → Stands digest id actor l ls
      → Stands digest id actor l (run_links cs ls)
  unfolding run_links serve_link
  run_links-Stands [] ls spared h = h
  run_links-Stands (creates db i slot a mode d now ttl ∷ cs) ls spared h =
      run_links-Stands cs _ spared.1 (
        kept_or_Ensures (Stands digest id actor l) ls (create_link db i slot a mode d now ttl ls) h
          (creating (Stands digest id actor l) insert_link-Stands db i slot a mode d now ttl ls h))
  run_links-Stands (revokes link user now ∷ cs) ls spared h = run_links-Stands cs _ spared.1 (
      kept_or_Ensures (Stands digest id actor l) ls (revoke_link link user now ls) h
        (revoke_link-Stands link user now ls spared.0 h))

found_here :
    (digest : ℕ) (m l : Link) (ls : List Link)
    → has_hash digest m ≡ true
    → find (has_hash digest) (m ∷ ls) ≡ some l
    → m ≡ l
found_here digest m l ls here found = grind (arith, here, found)

find_live :
    (digest now : ℕ) (l : Link) (ls : List Link)
    → find (has_hash digest) ls ≡ some l
    → is_live digest now l ≡ true
    → find (is_live digest now) ls ≡ some l
find_live digest now l [] found live = cc found
find_live digest now l (m ∷ ls) found live = elim (Bool-cases (has_hash digest m)) [
  | inl here ↦
      rw (ap (is_live digest now) (found_here digest m l ls here found) ∙ live)
        (ap some (found_here digest m l ls here found))
  | inr other ↦ ground (arith, other, find_live digest now l ls (ground (arith, found, other)) live)
]

find_expired :
    (digest now expires : ℕ) (ls : List Link)
    → any (is_odd digest expires) ls ≡ false
    → ltb now expires ≡ false
    → find (is_live digest now) ls ≡ none
find_expired digest now expires [] h late = refl
find_expired digest now expires (m ∷ ls) h late = ground (arith, find_expired digest now expires ls)

-- A link that is created.
create_link-Stands :
    (db : Db) (id slot actor : ℕ) (mode : Mode) (digest now ttl : ℕ) (ls : List Link)
    → Ensures
        (Stands digest id actor (new_link id slot actor digest now ttl))
        (create_link db id slot actor mode digest now ttl ls)
create_link-Stands db id slot actor mode digest now ttl ls =
    created (Stands digest id actor (new_link id slot actor digest now ttl)) db id slot actor mode
      digest now ttl ls
      λ fresh. (
        (ground arith, ground (arith, none_foreign digest id actor ls fresh)),
        ground arith,
        ground (arith, none_odd digest id (now + ttl) ls fresh),
      )

-- While its creator does not revoke it, a link shows the display name of its creator and the status of its Slot at
-- every time before its expiry and nothing from then on, whatever other links are created and revoked.
pub access_link_lifetime :
    (db later : Db) (names : ℕ → Text) (id slot actor : ℕ) (mode : Mode)
    (digest now ttl seen_at : ℕ)
    → (s : Slot) (ls ms : List Link) (cs : List LinkCall)
    → create_link db id slot actor mode digest now ttl ls ≡ ok ms
    → All (Spares id actor) cs
    → find_slot slot later.slots ≡ some s
    → access_link later names digest seen_at (run_links cs ms) ≡ (
        if ltb seen_at (now + ttl)
        then ok (record { sharer_display_name = names actor; slot_status = slot_status_of s.state })
        else err link_unavailable)
unfolding access_link
access_link_lifetime db later names id slot actor mode digest now ttl seen_at s ls ms cs made spared
      there =
    elim (Bool-cases (ltb seen_at (now + ttl))) [
      | inl early ↦
          rw
            (
              early,
              find_live digest seen_at (new_link id slot actor digest now ttl) (run_links cs ms)
                  standing.1 (ground (arith, early)),
              there,
              access_link,
            )
            refl
      | inr late ↦
          rw
            (
              late,
              find_expired digest seen_at (now + ttl) (run_links cs ms) standing.2 late,
              access_link,
            )
            refl
    ]
  where
    standing : Stands digest id actor (new_link id slot actor digest now ttl) (run_links cs ms)
    standing =
        run_links-Stands digest id actor (new_link id slot actor digest now ttl) cs ms spared (
          Ensures-ok (Stands digest id actor (new_link id slot actor digest now ttl))
            (create_link db id slot actor mode digest now ttl ls) ms
            (create_link-Stands db id slot actor mode digest now ttl ls) made)
