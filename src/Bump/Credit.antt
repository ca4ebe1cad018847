-- ===== src/Bump/Credit.antt =====
-- What a credit does to the standings.
use qweqwe.Base.{ℕ, ◌+◌, ◌≡◌, true, List, [], ◌∷◌, arith, ◌==◌, if◌then◌else◌}
use qweqwe.Bump.Store.{
  Standing, credit, compute_band, verified_count, band_of, submitted, submit, Submission,
}

pub count-credit :
    (u v : ℕ) (rs : List Standing)
    → verified_count v (credit u rs)
      ≡ (if u == v then verified_count v rs + 1 else verified_count v rs)
unfolding credit verified_count
count-credit u v [] = ground arith
count-credit u v (r ∷ rs) = ground (arith, count-credit u v rs)

pub band-credit :
    (u v : ℕ) (rs : List Standing)
    → band_of v rs ≡ compute_band (verified_count v rs)
    → band_of v (credit u rs) ≡ compute_band (verified_count v (credit u rs))
unfolding credit verified_count band_of
band-credit u v [] h = ground (arith, h)
band-credit u v (r ∷ rs) h = ground (arith, band-credit u v rs)

-- A claim stays, and the new one is there.
pub submitted-submit :
    (slot a b slot' c d : ℕ) (rs : List Submission)
    → submitted slot' c d rs ≡ true
    → submitted slot' c d (submit slot a b rs) ≡ true
unfolding submit submitted
submitted-submit slot a b slot' c d rs h = ground arith

pub submitted_own :
    (slot a b : ℕ) (rs : List Submission) → submitted slot a b (submit slot a b rs) ≡ true
unfolding submit submitted
submitted_own slot a b rs = ground arith
