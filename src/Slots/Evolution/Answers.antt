-- ===== src/Slots/Evolution/Answers.antt =====
-- The answer of a call, read after its transaction, writes nothing.
use qweqwe.Base.{ℕ, arith, Result, ok, err, Ensures, ◌>>=◌, bind-Ensures}
use qweqwe.Slots.Tables.{Db, get_internal}
use qweqwe.Slots.Store.{answer, answer_attached}
use qweqwe.Slots.Evolution.Defs.{Tracks}

abbrev pub LeavesTracked : {A : Type 0} → Db → A × Db → Type 0
LeavesTracked db r = Tracks db (r.1)

module _ (db : Db) where
  pub answer-LeavesTracked :
      (actor i : ℕ) (d : Db) → Tracks db d → Ensures (LeavesTracked db) (answer actor (i, d))
  unfolding answer
  answer-LeavesTracked actor i d tracks =
      bind-Ensures (λ _. Unit) (LeavesTracked db) (get_internal d actor i) _ (any _) λ v p. tracks
    where
      any : {A : Type 0} (r : Result A) → Ensures (λ _. Unit {0}) r
      any (ok a) = tt
      any (err e) = tt

  answer_attached-LeavesTracked :
      (actor i : ℕ) (d : Db)
      → Tracks db d
      → Ensures (LeavesTracked db) (answer_attached actor (i, d))
  unfolding answer_attached
  answer_attached-LeavesTracked actor i d tracks = ground (arith, tracks)

  module _ (actor : ℕ) (m : Result (ℕ × Db)) (h : Ensures (LeavesTracked db) m) where
    pub answered : Ensures (LeavesTracked db) (m >>= answer actor)
    answered =
        bind-Ensures (LeavesTracked db) (LeavesTracked db) m (answer actor) h
          λ r p. answer-LeavesTracked actor r.0 r.1 p

    pub answered_attached : Ensures (LeavesTracked db) (m >>= answer_attached actor)
    answered_attached =
        bind-Ensures (LeavesTracked db) (LeavesTracked db) m (answer_attached actor) h
          λ r p. answer_attached-LeavesTracked actor r.0 r.1 p

    pub answered_at : (i : ℕ) → Ensures (LeavesTracked db) (m >>= λ r. answer actor (i, r.1))
    answered_at i =
        bind-Ensures (LeavesTracked db) (LeavesTracked db) m (λ r. answer actor (i, r.1)) h
          λ r p. answer-LeavesTracked actor i r.1 p
