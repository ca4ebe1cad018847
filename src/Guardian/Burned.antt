-- ===== src/Guardian/Burned.antt =====
-- What becomes of a link.
use qweqwe.Base.{
  ℕ, ◌+◌, ◌≡◌, refl, ◌∙◌, Bool, true, false, ◌&&◌, ◌||◌, not, none, List, [], ◌∷◌, arith, ◌==◌, ltb,
  any, find, update, ok, err, Result, Ensures, Ensures-ok, Ensures->>=, guard-Ensures, Bool-cases,
  inl, inr, or_fail, Text, forbidden, link_unavailable, database_error,
}
use qweqwe.Slots.Tables.{Db, find_slot}
use qweqwe.Slots.Rows.{exists_row}
use qweqwe.Guardian.Store.{
  Mode, Link, has_hash, is_unset, is_revocable, is_live, is_status_only, min_ttl, max_ttl,
  insert_link, new_link, create_link, revoked, revoke_link, access_link, LinkCall, creates, revokes,
  kept_or, serve_link, run_links,
}

-- A row of the digest that is not the link `id` of `actor`.
abbrev pub is_foreign : (digest id actor : ℕ) → Link → Bool
is_foreign digest id actor l = has_hash digest l && not (l.id == id && l.created_by == actor)

-- The digest is that of the link only.
abbrev pub Holds : (digest id actor : ℕ) → List Link → Type 0
Holds digest id actor ls =
    (any (has_hash digest) ls ≡ true) × (any (is_foreign digest id actor) ls ≡ false)

-- A row of the digest that is not revoked.
abbrev is_unrevoked : ℕ → Link → Bool
is_unrevoked digest l = has_hash digest l && is_unset l.revoked_at

abbrev Burned : ℕ → List Link → Type 0
Burned digest ls = (any (has_hash digest) ls ≡ true) × (any (is_unrevoked digest) ls ≡ false)

-- A digest that is there is not inserted again.
other_hash :
    (digest : ℕ) (l : Link) (ls : List Link)
    → any (λ m. m.id == l.id || has_hash l.token_hash m) ls ≡ false
    → any (has_hash digest) ls ≡ true
    → has_hash digest l ≡ false
other_hash digest l [] fresh there = cc there
other_hash digest l (m ∷ ls) fresh there = elim (Bool-cases (has_hash digest m)) [
  | inl here ↦ ground (arith, here, fresh)
  | inr other ↦ other_hash digest l ls (ground (arith, fresh)) (ground (arith, there, other))
]

-- So an insertion adds a row of another digest.
pub insert_other :
    (P : List Link → Type 0) (digest : ℕ) (l : Link) (ls : List Link)
    → any (has_hash digest) ls ≡ true
    → (has_hash digest l ≡ false → P (l ∷ ls))
    → Ensures P (insert_link l ls)
unfolding insert_link
insert_other P digest l ls there k =
    guard-Ensures P
      (any (λ m. m.id == l.id || has_hash l.token_hash m) ls || not (ltb l.created_at l.expires_at))
      database_error (ok (l ∷ ls)) λ fresh. k (other_hash digest l ls (ground (arith, fresh)) there)

-- A call that fails leaves the rows.
pub kept_or_Ensures :
    (P : List Link → Type 0) (ls : List Link) (r : Result (List Link))
    → P ls
    → Ensures P r
    → P (kept_or ls r)
kept_or_Ensures P ls (ok ms) h k = k
kept_or_Ensures P ls (err e) h k = h

-- What insertions keep, creations keep.
pub creating :
    (P : List Link → Type 0)
    → ((l : Link) (ls : List Link) → P ls → Ensures P (insert_link l ls))
    → (db : Db) (id slot actor : ℕ) (mode : Mode) (digest now ttl : ℕ) (ls : List Link) → P ls
    → Ensures P (create_link db id slot actor mode digest now ttl ls)
unfolding create_link
creating P inserting db id slot actor mode digest now ttl ls h =
    guard-Ensures P (not (is_status_only mode)) _ _ λ a.
      guard-Ensures P (ltb ttl min_ttl || ltb max_ttl ttl) _ _ λ b.
        Ensures->>= P (or_fail (find_slot slot db.slots) forbidden) _ λ s.
          guard-Ensures P (not (s.host_id == actor) && not (exists_row actor s.members)) _ _
            λ c. inserting _ ls h

-- What insertions and revocations keep, histories keep.
module _ (P : List Link → Type 0)
    (inserting : (l : Link) (ls : List Link) → P ls → Ensures P (insert_link l ls))
    (revoking : (link user now : ℕ) (ls : List Link)
      → P ls
      → P (update (is_revocable link user) (revoked now) ls)) where
  pub run_keeps : (cs : List LinkCall) (ls : List Link) → P ls → P (run_links cs ls)
  unfolding run_links serve_link revoke_link
  run_keeps [] ls h = h
  run_keeps (creates db id slot actor mode digest now ttl ∷ cs) ls h = run_keeps cs _ (
      kept_or_Ensures P ls (create_link db id slot actor mode digest now ttl ls) h
        (creating P inserting db id slot actor mode digest now ttl ls h))
  run_keeps (revokes link user now ∷ cs) ls h = run_keeps cs _ (
      kept_or_Ensures P ls (revoke_link link user now ls) h (
        guard-Ensures P (not (any (is_revocable link user) ls)) _ _
          λ a. revoking link user now ls h))

module _ (digest id actor : ℕ) where
  pub insert_link-Holds :
      (l : Link) (ls : List Link)
      → Holds digest id actor ls
      → Ensures (Holds digest id actor) (insert_link l ls)
  insert_link-Holds l ls h =
      insert_other (Holds digest id actor) digest l ls h.0
        λ other. (ground (arith, h.0), ground (arith, other, h.1))

  insert_link-Burned :
      (l : Link) (ls : List Link) → Burned digest ls → Ensures (Burned digest) (insert_link l ls)
  insert_link-Burned l ls h =
      insert_other (Burned digest) digest l ls h.0
        λ other. (ground (arith, h.0), ground (arith, other, h.1))

  pub update-Holds :
      (link user now : ℕ) (ls : List Link)
      → (any (has_hash digest) (update (is_revocable link user) (revoked now) ls)
          ≡ any (has_hash digest) ls)
        × (any (is_foreign digest id actor) (update (is_revocable link user) (revoked now) ls)
            ≡ any (is_foreign digest id actor) ls)
  update-Holds link user now [] = (refl, refl)
  update-Holds link user now (l ∷ ls) = ground (arith, update-Holds link user now ls)

  update-Burned :
      (link user now : ℕ) (ls : List Link)
      → any (is_unrevoked digest) ls ≡ false
      → any (is_unrevoked digest) (update (is_revocable link user) (revoked now) ls) ≡ false
  update-Burned link user now [] h = refl
  update-Burned link user now (l ∷ ls) h = ground (arith, update-Burned link user now ls)

  -- Its own revocation.
  update_own :
      (now : ℕ) (ls : List Link)
      → any (is_foreign digest id actor) ls ≡ false
      → any (is_unrevoked digest) (update (is_revocable id actor) (revoked now) ls) ≡ false
  update_own now [] h = refl
  update_own now (l ∷ ls) h = ground (arith, update_own now ls)

not_live :
    (digest now : ℕ) (ls : List Link)
    → any (is_unrevoked digest) ls ≡ false
    → find (is_live digest now) ls ≡ none
not_live digest now [] h = refl
not_live digest now (l ∷ ls) h = ground (arith, not_live digest now ls)

pub none_foreign :
    (digest id actor : ℕ) (ls : List Link)
    → any (λ m. m.id == id || has_hash digest m) ls ≡ false
    → any (is_foreign digest id actor) ls ≡ false
none_foreign digest id actor [] h = refl
none_foreign digest id actor (l ∷ ls) h = ground (arith, none_foreign digest id actor ls)

-- A creation that succeeds adds its row, of an id and a digest that are new.
pub created :
    (P : List Link → Type 0) (db : Db) (id slot actor : ℕ) (mode : Mode) (digest now ttl : ℕ)
    (ls : List Link)
    → (any (λ m. m.id == id || has_hash digest m) ls ≡ false
        → P (new_link id slot actor digest now ttl ∷ ls))
    → Ensures P (create_link db id slot actor mode digest now ttl ls)
unfolding create_link insert_link
created P db id slot actor mode digest now ttl ls k =
    guard-Ensures P (not (is_status_only mode)) _ _ λ a.
      guard-Ensures P (ltb ttl min_ttl || ltb max_ttl ttl) _ _ λ b.
        Ensures->>= P (or_fail (find_slot slot db.slots) forbidden) _ λ s.
          guard-Ensures P (not (s.host_id == actor) && not (exists_row actor s.members)) _ _ λ c.
            guard-Ensures P
              (any (λ m. m.id == id || has_hash digest m) ls || not (ltb now (now + ttl)))
              database_error (ok (new_link id slot actor digest now ttl ∷ ls))
              λ fresh. k (ground (arith, fresh))

-- A link that is created is the only row of its digest.
pub create_link-Holds :
    (db : Db) (id slot actor : ℕ) (mode : Mode) (digest now ttl : ℕ) (ls : List Link)
    → Ensures (Holds digest id actor) (create_link db id slot actor mode digest now ttl ls)
create_link-Holds db id slot actor mode digest now ttl ls =
    created (Holds digest id actor) db id slot actor mode digest now ttl ls
      λ fresh. (ground arith, ground (arith, none_foreign digest id actor ls fresh))

-- The link of a successful revocation is burned.
revoke_link-Burned :
    (digest id actor now : ℕ) (ls : List Link)
    → Holds digest id actor ls
    → Ensures (Burned digest) (revoke_link id actor now ls)
unfolding revoke_link
revoke_link-Burned digest id actor now ls h =
    guard-Ensures (Burned digest) (not (any (is_revocable id actor) ls)) _ _ λ a. (
      (update-Holds digest id actor id actor now ls).0 ∙ h.0,
      update_own digest id actor now ls h.1,
    )

access-Burned :
    (db : Db) (names : ℕ → Text) (digest now : ℕ) (ls : List Link)
    → Burned digest ls
    → access_link db names digest now ls ≡ err link_unavailable
unfolding access_link
access-Burned db names digest now ls h = rw (not_live digest now ls h.1, access_link) refl

-- A link that its creator has revoked shows nothing any more: whatever links are created and revoked before and after
-- that, and at any time, its token is answered like one that never existed.
pub revoked_stays_burned :
    (db later : Db) (names : ℕ → Text) (id slot actor : ℕ) (mode : Mode)
    (digest now ttl revoked_at seen_at : ℕ)
    → (ls ms ns : List Link) (before after : List LinkCall)
    → create_link db id slot actor mode digest now ttl ls ≡ ok ms
    → revoke_link id actor revoked_at (run_links before ms) ≡ ok ns
    → access_link later names digest seen_at (run_links after ns) ≡ err link_unavailable
revoked_stays_burned db later names id slot actor mode digest now ttl revoked_at seen_at ls ms ns
      before after made gone =
    access-Burned later names digest seen_at (run_links after ns) (
      run_keeps (Burned digest) (insert_link-Burned digest id actor)
        (λ link user t ks h. (
          (update-Holds digest id actor link user t ks).0 ∙ h.0,
          update-Burned digest id actor link user t ks h.1,
        ))
        after ns
        (Ensures-ok (Burned digest) (revoke_link id actor revoked_at (run_links before ms)) ns
          (revoke_link-Burned digest id actor revoked_at (run_links before ms) held) gone))
  where
    held : Holds digest id actor (run_links before ms)
    held =
        run_keeps (Holds digest id actor) (insert_link-Holds digest id actor)
          (λ link user t ks h. (
            (update-Holds digest id actor link user t ks).0 ∙ h.0,
            (update-Holds digest id actor link user t ks).1 ∙ h.1,
          ))
          before ms
          (Ensures-ok (Holds digest id actor) (create_link db id slot actor mode digest now ttl ls)
            ms (create_link-Holds db id slot actor mode digest now ttl ls) made)
