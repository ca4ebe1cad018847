-- ===== src/RateLimit/Limiter.antt =====
-- backend/internal/ratelimit/limiter.go. A key is a natural number, 0 the empty one; times and durations are
-- nanoseconds, and `now` is an argument. The map is a list with one entry for each key. The mutex makes each call
-- one step.
use qweqwe.Base.{
  ℕ, ◌+◌, ◌-◌, Bool, true, false, ◌||◌, ◌&&◌, Option, none, some, List, [], ◌∷◌, ◌==◌, leb, ltb,
  length, if◌then◌else◌,
}

pub record Config : Type 0 where
  pub limit : ℕ
  pub window : ℕ
  pub idle_ttl : ℕ
  pub max_entries : ℕ

pub record Entry : Type 0 where
  pub count : ℕ
  pub window_start : ℕ
  pub last_seen : ℕ

-- What `New` refuses.
unfoldable pub invalid_config : Config → Bool
invalid_config c = c.limit == 0 || c.window == 0 || ltb c.idle_ttl c.window || c.max_entries == 0

unfoldable pub get_entry : ℕ → List (ℕ × Entry) → Option Entry
get_entry key [] = none
get_entry key ((k, e) ∷ rest) = if k == key then some e else get_entry key rest

-- l.entries[key] = e
unfoldable pub set_entry : ℕ → Entry → List (ℕ × Entry) → List (ℕ × Entry)
set_entry key e [] = (key, e) ∷ []
set_entry key e ((k, x) ∷ rest) = if k == key then (k, e) ∷ rest else (k, x) ∷ set_entry key e rest

unfoldable pub is_idle : Config → ℕ → Entry → Bool
is_idle c now e = leb (e.last_seen + c.idle_ttl) now

-- `pruneLocked`
unfoldable pub prune : Config → ℕ → List (ℕ × Entry) → List (ℕ × Entry)
prune c now [] = []
prune c now ((k, e) ∷ rest) =
    if is_idle c now e then prune c now rest else (k, e) ∷ prune c now rest

-- time.Second
abbrev pub second : ℕ
second = 1000000000

abbrev pub fresh : ℕ → Entry
fresh now = record { count = 1; window_start = now; last_seen = now }

-- The answer: whether the call is allowed, and after how long to come back.
pub record Answer : Type 0 where
  pub allowed : Bool
  pub retry_after : ℕ

abbrev admitted : Answer
admitted = record { allowed = true; retry_after = 0 }

abbrev refused : ℕ → Answer
refused d = record { allowed = false; retry_after = d }

-- The branch of a key that has an entry.
unfoldable pub allow_known : Config → ℕ → ℕ → Entry → List (ℕ × Entry) → Answer × List (ℕ × Entry)
allow_known c now key e entries =
    if leb (e.window_start + c.window) now
    then (admitted, set_entry key (fresh now) entries)
    else if leb c.limit e.count
    then (
      refused (
          if ltb ((e.window_start + c.window) - now) second
          then second
          else (e.window_start + c.window) - now),
      set_entry key (record e { last_seen = now }) entries,
    )
    else (admitted, set_entry key (record e { count = e.count + 1; last_seen = now }) entries)

-- The branch of a new key.
unfoldable pub allow_new : Config → ℕ → ℕ → List (ℕ × Entry) → Answer × List (ℕ × Entry)
allow_new c now key entries =
    let kept = if leb c.max_entries (length entries) then prune c now entries else entries in
    if leb c.max_entries (length kept)
    then (refused c.window, kept)
    else (admitted, set_entry key (fresh now) kept)

-- `Allow`
unfoldable pub allow : Config → ℕ → ℕ → List (ℕ × Entry) → Answer × List (ℕ × Entry)
allow c now key entries =
    if key == 0 then (refused c.window, entries) else elim (get_entry key entries) [
      | none ↦ allow_new c now key entries
      | some e ↦ allow_known c now key e entries
    ]

-- One call: its time and its key.
pub record Request : Type 0 where
  pub at : ℕ
  pub key : ℕ

-- The entries after a sequence of calls.
unfoldable pub entries_after : Config → List Request → List (ℕ × Entry) → List (ℕ × Entry)
entries_after c [] entries = entries
entries_after c (r ∷ rs) entries = entries_after c rs (allow c r.at r.key entries).1

-- How many of the calls with this key are allowed.
unfoldable pub admissions : Config → ℕ → List Request → List (ℕ × Entry) → ℕ
admissions c key [] entries = 0
admissions c key (r ∷ rs) entries =
    let (answer, next) = allow c r.at r.key entries in
    let rest = admissions c key rs next in
    if (r.key == key) && answer.allowed then rest + 1 else rest
