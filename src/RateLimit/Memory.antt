-- ===== src/RateLimit/Memory.antt =====
-- The limiter's memory is bounded.
use qweqwe.Base.{ℕ, ◌+◌, ◌≡◌, ◌≤◌, inl, inr, some, List, [], ◌∷◌, arith, length, Option-cases}
use qweqwe.RateLimit.Limiter.{
  Config, Entry, Request, get_entry, prune, fresh, allow_known, allow_new, allow, entries_after,
}
use qweqwe.RateLimit.Entries.{length-prune, length-set_known, length-set_entry}

module _ (c : Config) where
  allow_new-length :
      (now key : ℕ) (es : List (ℕ × Entry))
      → length es ≤ c.max_entries
      → length (allow_new c now key es).1 ≤ c.max_entries
  unfolding allow_new
  allow_new-length now key es h = ground (
    arith,
    length-prune c now es,
    length-set_entry key (fresh now) es,
    length-set_entry key (fresh now) (prune c now es),
  )

  allow_known-length :
      (now key : ℕ) (e : Entry) (es : List (ℕ × Entry))
      → get_entry key es ≡ some e
      → length (allow_known c now key e es).1 ≡ length es
  unfolding allow_known
  allow_known-length now key e es h = ground (
    arith,
    length-set_known key (fresh now) e es h,
    length-set_known key (record e { last_seen = now }) e es h,
    length-set_known key (record e { count = e.count + 1; last_seen = now }) e es h,
  )

  allow-length :
      (now key : ℕ) (es : List (ℕ × Entry))
      → length es ≤ c.max_entries
      → length (allow c now key es).1 ≤ c.max_entries
  unfolding allow
  allow-length now key es h = elim (Option-cases (get_entry key es)) [
    | inl missing ↦ rw (missing, allow) (ground (arith, allow_new-length now key es h))
    | inr (e, found) ↦ rw (found, allow) (ground (arith, allow_known-length now key e es found))
  ]

  -- Whatever is asked and in whatever order of times, the limiter holds at most MaxEntries entries.
  pub entries_after-length :
      (rs : List Request) (es : List (ℕ × Entry))
      → length es ≤ c.max_entries
      → length (entries_after c rs es) ≤ c.max_entries
  unfolding entries_after
  entries_after-length [] es h = h
  entries_after-length (r ∷ rs) es h =
      entries_after-length rs (allow c r.at r.key es).1 (allow-length r.at r.key es h)
