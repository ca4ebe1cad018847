-- ===== src/RateLimit/Budget.antt =====
-- What a key can still spend in an interval of one window.
use qweqwe.Base.{
  ℕ, ◌+◌, ◌-◌, ◌≡◌, ◌≤◌, ◌<◌, ◌⊎◌, inl, inr, true, false, Option, none, some, List, [], ◌∷◌, arith,
  ◌==◌, leb, All, Option-cases, Bool-cases, if◌then◌else◌,
}
use qweqwe.RateLimit.Limiter.{
  Config, Entry, Request, invalid_config, get_entry, is_idle, prune, fresh, allow_known, allow_new,
  allow, admissions,
}
use qweqwe.RateLimit.Entries.{
  Distinct, get-prune_absent, get-set_entry, set_entry-Distinct, get-prune, prune-Distinct,
}

-- What an entry still allows before `t` plus one window: an entry whose window began earlier can begin
-- another one.
abbrev pub budget : Config → ℕ → Option Entry → ℕ
budget c t none = c.limit
budget c t (some e) =
    if leb t e.window_start then c.limit - e.count else (c.limit - e.count) + c.limit

-- A window that began at `t` or later was seen at `t` or later, and its count is within the limit.
abbrev pub Tame : Config → ℕ → Option Entry → Type 0
Tame c t none = Unit {0}
Tame c t (some e) = (e.count ≤ c.limit) × (leb t e.window_start ≡ true → t ≤ e.last_seen)

module _ (c : Config) (valid : invalid_config c ≡ false) (t now : ℕ) (late : t ≤ now)
    (early : now < t + c.window) where
  allow_known-budget :
      (key : ℕ) (e : Entry) (es : List (ℕ × Entry))
      → Tame c t (some e)
      → let r = allow_known c now key e es in
        let after = get_entry key r.1 in
        Tame c t after × ((if (r.0).allowed then 1 else 0) + budget c t after ≤ budget c t (some e))
  unfolding allow_known invalid_config
  allow_known-budget key e es tame = ground (
    arith,
    get-set_entry key key (fresh now) es,
    get-set_entry key key (record e { last_seen = now }) es,
    get-set_entry key key (record e { count = e.count + 1; last_seen = now }) es,
  )

  allow_new-budget :
      (key : ℕ) (es : List (ℕ × Entry))
      → get_entry key es ≡ none
      → let r = allow_new c now key es in
        let after = get_entry key r.1 in
        Tame c t after × ((if (r.0).allowed then 1 else 0) + budget c t after ≤ c.limit)
  unfolding allow_new invalid_config
  allow_new-budget key es missing = ground (
    arith,
    get-prune_absent c now key es missing,
    get-set_entry key key (fresh now) es,
    get-set_entry key key (fresh now) (prune c now es),
  )

  -- A prune spares what was seen since `t`.
  pruned-budget :
      (key : ℕ) (es : List (ℕ × Entry))
      → Distinct es
      → Tame c t (get_entry key es)
      → let after = get_entry key (prune c now es) in
        Tame c t after × (budget c t after ≤ budget c t (get_entry key es))
  unfolding invalid_config is_idle
  pruned-budget key es distinct tame = elim (Option-cases (get_entry key es)) [
    | inl missing ↦ rw (get-prune_absent c now key es missing, missing) (tt, omega arith)
    | inr (e, found) ↦
        let tame' : Tame c t (some e) = rw found at tame in
        rw (get-prune c now key es e distinct found, found) (ground arith)
  ]

-- A call with another key reads as no call, or as a prune.
module _ (c : Config) (now key other : ℕ) (es : List (ℕ × Entry))
    (apart : (other == key) ≡ false) where
  known_other : (e : Entry) → get_entry key (allow_known c now other e es).1 ≡ get_entry key es
  unfolding allow_known
  known_other e = ground (
    arith,
    get-set_entry other key (fresh now) es,
    get-set_entry other key (record e { last_seen = now }) es,
    get-set_entry other key (record e { count = e.count + 1; last_seen = now }) es,
  )

  new_other :
      let after = get_entry key (allow_new c now other es).1 in
      (after ≡ get_entry key es) ⊎ (after ≡ get_entry key (prune c now es))
  unfolding allow_new
  new_other = ground (
    arith,
    get-set_entry other key (fresh now) es,
    get-set_entry other key (fresh now) (prune c now es),
  )

  pub allow_other :
      let after = get_entry key (allow c now other es).1 in
      (after ≡ get_entry key es) ⊎ (after ≡ get_entry key (prune c now es))
  unfolding allow
  allow_other = elim (Option-cases (get_entry other es)) [
    | inl missing ↦ rw (missing, allow) (ground (arith, new_other))
    | inr (e, found) ↦ rw (found, allow) (ground (arith, known_other e))
  ]

module _ (c : Config) (now key : ℕ) (es : List (ℕ × Entry)) (distinct : Distinct es) where
  allow_known-Distinct : (e : Entry) → Distinct (allow_known c now key e es).1
  unfolding allow_known
  allow_known-Distinct e = ground (
    arith,
    set_entry-Distinct key (fresh now) es distinct,
    set_entry-Distinct key (record e { last_seen = now }) es distinct,
    set_entry-Distinct key (record e { count = e.count + 1; last_seen = now }) es distinct,
  )

  allow_new-Distinct : Distinct (allow_new c now key es).1
  unfolding allow_new
  allow_new-Distinct = ground (
    arith,
    prune-Distinct c now es distinct,
    set_entry-Distinct key (fresh now) es distinct,
    set_entry-Distinct key (fresh now) (prune c now es),
  )

  pub allow-Distinct : Distinct (allow c now key es).1
  unfolding allow
  allow-Distinct = elim (Option-cases (get_entry key es)) [
    | inl missing ↦ rw (missing, allow) (ground (arith, allow_new-Distinct))
    | inr (e, found) ↦ rw (found, allow) (ground (arith, allow_known-Distinct e))
  ]

module _ (c : Config) (valid : invalid_config c ≡ false) (t key : ℕ) where
  own-budget :
      (now : ℕ) (es : List (ℕ × Entry))
      → t ≤ now
      → now < t + c.window
      → Tame c t (get_entry key es)
      → let r = allow c now key es in
        let after = get_entry key r.1 in
        Tame c t after
        × ((if (r.0).allowed then 1 else 0) + budget c t after ≤ budget c t (get_entry key es))
  unfolding allow
  own-budget now es late early tame = elim (Option-cases (get_entry key es)) [
    | inl missing ↦
        rw (missing, allow)
          (ground (arith, allow_new-budget c valid t now late early key es missing))
    | inr (e, found) ↦
        let tame' : Tame c t (some e) = rw found at tame in
        rw (found, allow)
          (ground (arith, allow_known-budget c valid t now late early key e es tame'))
  ]

  same-budget :
      (now k : ℕ) (es : List (ℕ × Entry))
      → (k == key) ≡ true
      → t ≤ now
      → now < t + c.window
      → Tame c t (get_entry key es)
      → let r = allow c now k es in
        let after = get_entry key r.1 in
        Tame c t after
        × ((if (r.0).allowed then 1 else 0) + budget c t after ≤ budget c t (get_entry key es))
  same-budget now k es own late early tame =
      let same : k ≡ key = ground (arith, own) in rw same (own-budget now es late early tame)

  other-budget :
      (now other : ℕ) (es : List (ℕ × Entry))
      → (other == key) ≡ false
      → t ≤ now
      → now < t + c.window
      → Distinct es
      → Tame c t (get_entry key es)
      → let after = get_entry key (allow c now other es).1 in
        Tame c t after × (budget c t after ≤ budget c t (get_entry key es))
  other-budget now other es apart late early distinct tame =
      elim (allow_other c now key other es apart) [
        | inl same ↦ rw same (tame, omega arith)
        | inr pruned ↦ rw pruned (pruned-budget c valid t now late early key es distinct tame)
      ]

  -- Calls between `t` and one window later spend at most the budget of the key.
  pub admissions-budget :
      (rs : List Request) (es : List (ℕ × Entry))
      → All (λ r. (t ≤ r.at) × (r.at < t + c.window)) rs
      → Distinct es
      → Tame c t (get_entry key es)
      → admissions c key rs es ≤ budget c t (get_entry key es)
  unfolding admissions
  admissions-budget [] es during distinct tame = omega arith
  admissions-budget (r ∷ rs) es during distinct tame =
      let next = (allow c r.at r.key es).1 in
      let distinct' = allow-Distinct c r.at r.key es distinct in
      elim (Bool-cases (r.key == key)) [
        | inl own ↦
            let step = same-budget r.at r.key es own during.0.0 during.0.1 tame in
            let rest = admissions-budget rs next during.1 distinct' step.0 in
            rw own (ground (arith, step.1, rest))
        | inr other ↦
            let step = other-budget r.at r.key es other during.0.0 during.0.1 distinct tame in
            let rest = admissions-budget rs next during.1 distinct' step.0 in
            rw other (omega (arith, step.1, rest))
      ]
