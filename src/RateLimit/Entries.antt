-- ===== src/RateLimit/Entries.antt =====
-- The entries of the map after a write and after a prune.
use qweqwe.Base.{
  ℕ, ◌+◌, ◌≡◌, ◌≤◌, refl, true, false, none, some, List, [], ◌∷◌, arith, ◌==◌, length,
}
use qweqwe.RateLimit.Limiter.{Config, Entry, get_entry, set_entry, is_idle, prune}

-- One entry for each key.
abbrev pub Distinct : List (ℕ × Entry) → Type 0
Distinct [] = Unit {0}
Distinct ((k, e) ∷ rest) = (get_entry k rest ≡ none) × Distinct rest

pub get-set_entry :
    (key j : ℕ) (e : Entry) (es : List (ℕ × Entry))
    → get_entry j (set_entry key e es) ≡ elim (key == j) [ true ↦ some e | false ↦ get_entry j es ]
unfolding get_entry set_entry
get-set_entry key j e [] = ground arith
get-set_entry key j e ((k, x) ∷ rest) = ground (arith, get-set_entry key j e rest)

pub set_entry-Distinct :
    (key : ℕ) (e : Entry) (es : List (ℕ × Entry)) → Distinct es → Distinct (set_entry key e es)
unfolding set_entry get_entry
set_entry-Distinct key e [] h = (refl, tt)
set_entry-Distinct key e ((k, x) ∷ rest) h =
    ground (arith, get-set_entry key k e rest, set_entry-Distinct key e rest h.1)

pub get-prune_absent :
    (c : Config) (now key : ℕ) (es : List (ℕ × Entry))
    → get_entry key es ≡ none
    → get_entry key (prune c now es) ≡ none
unfolding get_entry prune
get-prune_absent c now key [] h = refl
get-prune_absent c now key ((k, x) ∷ rest) h = ground (arith, get-prune_absent c now key rest)

-- A prune deletes the entry of a key or leaves it.
pub get-prune :
    (c : Config) (now key : ℕ) (es : List (ℕ × Entry)) (e : Entry)
    → Distinct es
    → get_entry key es ≡ some e
    → get_entry key (prune c now es) ≡ elim (is_idle c now e) [ true ↦ none | false ↦ some e ]
unfolding get_entry prune
get-prune c now key [] e d h = absurd (cc)
get-prune c now key ((k, x) ∷ rest) e d h =
    ground (arith, get-prune c now key rest e d.1, get-prune_absent c now key rest)

pub prune-Distinct :
    (c : Config) (now : ℕ) (es : List (ℕ × Entry)) → Distinct es → Distinct (prune c now es)
unfolding prune
prune-Distinct c now [] h = tt
prune-Distinct c now ((k, x) ∷ rest) h =
    ground (arith, get-prune_absent c now k rest, prune-Distinct c now rest h.1)

pub length-prune :
    (c : Config) (now : ℕ) (es : List (ℕ × Entry)) → length (prune c now es) ≤ length es
unfolding prune
length-prune c now [] = omega arith
length-prune c now ((k, x) ∷ rest) = ground (arith, length-prune c now rest)

pub length-set_known :
    (key : ℕ) (e x : Entry) (es : List (ℕ × Entry))
    → get_entry key es ≡ some x
    → length (set_entry key e es) ≡ length es
unfolding get_entry set_entry
length-set_known key e x [] h = absurd (cc)
length-set_known key e x ((k, y) ∷ rest) h = ground (arith, length-set_known key e x rest)

pub length-set_entry :
    (key : ℕ) (e : Entry) (es : List (ℕ × Entry)) → length (set_entry key e es) ≤ length es + 1
unfolding set_entry
length-set_entry key e [] = omega arith
length-set_entry key e ((k, y) ∷ rest) = ground (arith, length-set_entry key e rest)
