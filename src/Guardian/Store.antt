-- ===== src/Guardian/Store.antt =====
-- backend/internal/postgres/guardian_store.go over the Slots, with the checks of
-- backend/internal/guardian/service.go and model.go. A token is known by its digest; `names` are the display names of
-- app_users.
use qweqwe.Base.{
  ℕ, Bool, true, false, ◌&&◌, ◌||◌, not, Option, none, some, ◌+◌, List, [], ◌∷◌, Result, ok, err,
  or_fail, fail_if, ◌>>=◌, ◌>>◌, ◌==◌, ltb, any, find, update, Text, invalid_input, forbidden,
  database_error, mode_not_supported, link_unavailable,
}
use qweqwe.Slots.Model.{State, published, filling, full, active}
use qweqwe.Slots.Rows.{exists_row}
use qweqwe.Slots.Tables.{Db, find_slot}

pub data Mode : Type 0 where
  status_only eta_approximate safety_radar live_precise : Mode

pub data SlotStatus : Type 0 where
  slot_active slot_ended : SlotStatus

-- A row of guardian_links; its mode is always STATUS_ONLY.
pub record Link : Type 0 where
  pub id : ℕ
  pub slot : ℕ
  pub created_by : ℕ
  pub token_hash : ℕ
  pub created_at : ℕ
  pub expires_at : ℕ
  pub revoked_at : Option ℕ

-- What a link shows.
pub record LinkStatus : Type 0 where
  pub sharer_display_name : Text
  pub slot_status : SlotStatus

abbrev pub is_status_only : Mode → Bool
is_status_only status_only = true
is_status_only _ = false

-- In seconds.
abbrev pub min_ttl : ℕ
min_ttl = 300

abbrev pub max_ttl : ℕ
max_ttl = 86400

abbrev pub has_hash : ℕ → Link → Bool
has_hash digest l = l.token_hash == digest

abbrev pub is_unset : Option ℕ → Bool
is_unset none = true
is_unset (some n) = false

-- id=$1 AND created_by=$2 AND revoked_at IS NULL
abbrev pub is_revocable : (link actor : ℕ) → Link → Bool
is_revocable link actor l = l.id == link && l.created_by == actor && is_unset l.revoked_at

abbrev pub is_live : (digest now : ℕ) → Link → Bool
is_live digest now l = has_hash digest l && is_unset l.revoked_at && ltb now l.expires_at

-- The INSERT, with the primary key, the unique digest and the CHECK of the times.
unfoldable pub insert_link : Link → List Link → Result (List Link)
insert_link l ls = do
  fail_if
      (any (λ m. m.id == l.id || has_hash l.token_hash m) ls || not (ltb l.created_at l.expires_at))
      database_error
  ok (l ∷ ls)

abbrev pub new_link : (id slot actor digest now ttl : ℕ) → Link
new_link id slot actor digest now ttl = record {
  id = id;
  slot = slot;
  created_by = actor;
  token_hash = digest;
  created_at = now;
  expires_at = now + ttl;
  revoked_at = none;
}

-- `CreateLink`: the service's checks, the host or a member of the Slot, the row.
unfoldable pub create_link :
    Db → (id slot actor : ℕ) → Mode → (digest now ttl : ℕ) → List Link → Result (List Link)
create_link db id slot actor mode digest now ttl ls = do
  fail_if (not (is_status_only mode)) mode_not_supported
  fail_if (ltb ttl min_ttl || ltb max_ttl ttl) invalid_input
  s ← or_fail (find_slot slot db.slots) forbidden
  fail_if (not (s.host_id == actor) && not (exists_row actor s.members)) forbidden
  insert_link (new_link id slot actor digest now ttl) ls

abbrev pub revoked : ℕ → Link → Link
revoked now l = record l { revoked_at = some now }

-- `Revoke`
unfoldable pub revoke_link : (link actor now : ℕ) → List Link → Result (List Link)
revoke_link link actor now ls =
    fail_if (not (any (is_revocable link actor) ls)) forbidden
    >> ok (update (is_revocable link actor) (revoked now) ls)

abbrev pub slot_status_of : State → SlotStatus
slot_status_of published = slot_active
slot_status_of filling = slot_active
slot_status_of full = slot_active
slot_status_of active = slot_active
slot_status_of _ = slot_ended

-- `Access`, of the digest of a token
unfoldable pub access_link :
    Db → (names : ℕ → Text) → (digest now : ℕ) → List Link → Result LinkStatus
access_link db names digest now ls = do
  l ← or_fail (find (is_live digest now) ls) link_unavailable
  s ← or_fail (find_slot l.slot db.slots) link_unavailable
  ok (record { sharer_display_name = names l.created_by; slot_status = slot_status_of s.state })

-- A call that writes, with the tables as they are then; one that fails changes nothing.
pub data LinkCall : Type 0 where
  creates : Db → (id slot actor : ℕ) → Mode → (digest now ttl : ℕ) → LinkCall
  revokes : (link actor now : ℕ) → LinkCall

abbrev pub kept_or : List Link → Result (List Link) → List Link
kept_or ls (ok ms) = ms
kept_or ls (err e) = ls

unfoldable pub serve_link : LinkCall → List Link → List Link
serve_link (creates db id slot actor mode digest now ttl) ls =
    kept_or ls (create_link db id slot actor mode digest now ttl ls)
serve_link (revokes link actor now) ls = kept_or ls (revoke_link link actor now ls)

unfoldable pub run_links : List LinkCall → List Link → List Link
run_links [] ls = ls
run_links (c ∷ cs) ls = run_links cs (serve_link c ls)
