-- ===== src/RateLimit/Bounds.antt =====
-- What the limiter admits in any interval of one window.
use qweqwe.Base.{
  ℕ, ◌+◌, ◌≡◌, ◌≤◌, ◌<◌, inl, inr, false, Option, none, some, List, [], ◌∷◌, arith, ◌==◌, All,
  Option-cases, Bool-cases,
}
use qweqwe.RateLimit.Limiter.{
  Config, Entry, Request, invalid_config, get_entry, prune, fresh, allow_known, allow_new, allow,
  entries_after, admissions,
}
use qweqwe.RateLimit.Entries.{Distinct, get-prune_absent, get-set_entry, get-prune}
use qweqwe.RateLimit.Budget.{budget, Tame, allow_other, allow-Distinct, admissions-budget}

-- An entry that was written before `t`.
abbrev Past : Config → ℕ → Option Entry → Type 0
Past c t none = Unit {0}
Past c t (some e) = (e.count ≤ c.limit) × (e.window_start < t)

module _ (c : Config) (valid : invalid_config c ≡ false) (t key : ℕ) where
  known-Past :
      (now : ℕ) (e : Entry) (es : List (ℕ × Entry))
      → now < t
      → Past c t (some e)
      → Past c t (get_entry key (allow_known c now key e es).1)
  unfolding allow_known invalid_config
  known-Past now e es before past = ground (
    arith,
    get-set_entry key key (fresh now) es,
    get-set_entry key key (record e { last_seen = now }) es,
    get-set_entry key key (record e { count = e.count + 1; last_seen = now }) es,
  )

  new-Past :
      (now : ℕ) (es : List (ℕ × Entry))
      → now < t
      → get_entry key es ≡ none
      → Past c t (get_entry key (allow_new c now key es).1)
  unfolding allow_new invalid_config
  new-Past now es before missing = ground (
    arith,
    get-prune_absent c now key es missing,
    get-set_entry key key (fresh now) es,
    get-set_entry key key (fresh now) (prune c now es),
  )

  own-Past :
      (now : ℕ) (es : List (ℕ × Entry))
      → now < t
      → Past c t (get_entry key es)
      → Past c t (get_entry key (allow c now key es).1)
  unfolding allow
  own-Past now es before past = elim (Option-cases (get_entry key es)) [
    | inl missing ↦ rw (missing, allow) (ground (arith, new-Past now es before missing))
    | inr (e, found) ↦
        let past' : Past c t (some e) = rw found at past in
        rw (found, allow) (ground (arith, known-Past now e es before past'))
  ]

  pruned-Past :
      (now : ℕ) (es : List (ℕ × Entry))
      → Distinct es
      → Past c t (get_entry key es)
      → Past c t (get_entry key (prune c now es))
  pruned-Past now es distinct past = elim (Option-cases (get_entry key es)) [
    | inl missing ↦ rw (get-prune_absent c now key es missing) tt
    | inr (e, found) ↦
        let past' : Past c t (some e) = rw found at past in
        rw (get-prune c now key es e distinct found) (ground arith)
  ]

  step-Past :
      (now k : ℕ) (es : List (ℕ × Entry))
      → now < t
      → Distinct es
      → Past c t (get_entry key es)
      → Past c t (get_entry key (allow c now k es).1)
  step-Past now k es before distinct past = elim (Bool-cases (k == key)) [
    | inl own ↦ let same : k ≡ key = ground (arith, own) in rw same (own-Past now es before past)
    | inr other ↦ elim (allow_other c now key k es other) [
      | inl same ↦ rw same past
      | inr pruned ↦ rw pruned (pruned-Past now es distinct past)
    ]
  ]

  history-Past :
      (rs : List Request) (es : List (ℕ × Entry))
      → All (λ r. r.at < t) rs
      → Distinct es
      → Past c t (get_entry key es)
      → Distinct (entries_after c rs es) × Past c t (get_entry key (entries_after c rs es))
  unfolding entries_after
  history-Past [] es before distinct past = (distinct, past)
  history-Past (r ∷ rs) es before distinct past =
      history-Past rs (allow c r.at r.key es).1 before.1 (allow-Distinct c r.at r.key es distinct)
        (step-Past r.at r.key es before.0 distinct past)

Past-budget :
    (c : Config) (t : ℕ) (o : Option Entry)
    → Past c t o
    → Tame c t o × (budget c t o ≤ c.limit + c.limit)
Past-budget c t none past = (tt, omega arith)
Past-budget c t (some e) past = ground (arith, past)

-- A limiter with a configuration that New accepts, after any calls before `t`, allows a key at most
-- 2 * Limit times from `t` on and before `t` plus one window.
pub admissions_bound :
    (c : Config) (t key : ℕ) (earlier during : List Request)
    → invalid_config c ≡ false
    → All (λ r. r.at < t) earlier
    → All (λ r. (t ≤ r.at) × (r.at < t + c.window)) during
    → admissions c key during (entries_after c earlier []) ≤ c.limit + c.limit
unfolding get_entry
admissions_bound c t key earlier during valid before inside =
    let (distinct, past) = history-Past c valid t key earlier [] before tt tt in
    let bounded = Past-budget c t (get_entry key (entries_after c earlier [])) past in
    let spent =
      admissions-budget c valid t key during (entries_after c earlier []) inside distinct
        bounded.0 in
    omega (arith, spent, bounded.1)

-- A new limiter with a configuration that New accepts allows a key at most Limit times from `t` on
-- and before `t` plus one window.
pub admissions_first_window :
    (c : Config) (t key : ℕ) (during : List Request)
    → invalid_config c ≡ false
    → All (λ r. (t ≤ r.at) × (r.at < t + c.window)) during
    → admissions c key during [] ≤ c.limit
unfolding get_entry
admissions_first_window c t key during valid inside =
    admissions-budget c valid t key during [] inside tt tt
