-- ===== src/Slots/Soundness/Answers.antt =====
-- The answer of a call, read after its transaction, writes nothing.
use qweqwe.Base.{ℕ, arith, Result, Ensures, ◌>>=◌, bind-Ensures}
use qweqwe.Slots.Tables.{Db}
use qweqwe.Slots.Store.{answer, answer_attached}
use qweqwe.Slots.Soundness.Tables.{AllSound, LeavesSound}

-- Reading the answer writes nothing.
pub answer-LeavesSound :
    (actor i : ℕ) (d : Db) → AllSound d → Ensures LeavesSound (answer actor (i, d))
unfolding answer
answer-LeavesSound actor i d sound = ground arith

answer_attached-LeavesSound :
    (actor i : ℕ) (d : Db) → AllSound d → Ensures LeavesSound (answer_attached actor (i, d))
unfolding answer_attached
answer_attached-LeavesSound actor i d sound = ground arith

module _ (actor : ℕ) (m : Result (ℕ × Db)) (h : Ensures LeavesSound m) where
  pub answered : Ensures LeavesSound (m >>= answer actor)
  answered =
      bind-Ensures LeavesSound LeavesSound m (answer actor) h
        λ r p. answer-LeavesSound actor r.0 r.1 p

  pub answered_attached : Ensures LeavesSound (m >>= answer_attached actor)
  answered_attached =
      bind-Ensures LeavesSound LeavesSound m (answer_attached actor) h
        λ r p. answer_attached-LeavesSound actor r.0 r.1 p

  pub answered_at : (i : ℕ) → Ensures LeavesSound (m >>= λ r. answer actor (i, r.1))
  answered_at i =
      bind-Ensures LeavesSound LeavesSound m (λ r. answer actor (i, r.1)) h
        λ r p. answer-LeavesSound actor i r.1 p
