-- ===== src/Core/Enqueue.antt =====
-- crates/paavo-core/src/enqueue.rs, selector.rs and error.rs: admission of a new job.
pub mod Admission
use paavo.Prelude.{
  ℕ, ltb, Bool, true, false, ◌&&◌, ◌||◌, String, List, [], ◌∷◌, Option, none, some, if◌then◌else◌,
}
use paavo.Proto.Job.{JobId, JobState, JobSource, Priority}
use paavo.Proto.Board.{BoardSelector, BoardSpec, matches}
use paavo.Db.Store.{Database, DbError, Result}
use paavo.Db.Job.Moves.{NewJob, insert}

-- Errors of builds and of the file system come from their crates, and nothing here meets them.
pub data CoreError : Type 0 where
  db : DbError → CoreError
  selector_never_matches : BoardSelector → CoreError
  over_ceiling : ℕ → ℕ → CoreError
  not_cancellable : JobState → CoreError

pub data Outcome {ℓ} (A : Type ℓ) : Type ℓ where
  ok : A → Outcome A
  err : CoreError → Outcome A
  panicked : String → Outcome A

-- `?` on a result of the store.
abbrev pub from_db {ℓ κ} :
    {A : Type ℓ} {B : Type κ} → (A → Outcome B) → Database × Result A → Database × Outcome B
from_db f (store, Result.ok a) = (store, f a)
from_db f (store, Result.err e) = (store, Outcome.err (db e))
from_db f (store, Result.panicked why) = (store, Outcome.panicked why)

-- The request carries the fields of the new row and the ceiling.
pub record EnqueueRequest : Type 0 where
  pub new : NewJob
  pub open new use *
  pub daemon_ceiling_ms : ℕ

unfoldable pub selector_matches_any : BoardSelector → List BoardSpec → Bool
selector_matches_any sel [] = false
selector_matches_any sel (b ∷ bs) = matches sel b || selector_matches_any sel bs

unfoldable pub validate_enqueue : EnqueueRequest → List BoardSpec → Outcome (Unit {0})
unfolding selector_matches_any
validate_enqueue req inventory =
    if ltb req.daemon_ceiling_ms req.hard_max_ms
    then Outcome.err (over_ceiling req.hard_max_ms req.daemon_ceiling_ms)
    else if selector_matches_any req.board_selector inventory
    then Outcome.ok tt
    else Outcome.err (selector_never_matches req.board_selector)

unfoldable pub enqueue_job :
    List BoardSpec → EnqueueRequest → ℕ → Database → Database × Outcome JobId
unfolding validate_enqueue insert
enqueue_job inventory req now_ms store = elim (validate_enqueue req inventory) [
  | Outcome.ok _ ↦ from_db (λ _. Outcome.ok req.id) (insert req.new now_ms store)
  | Outcome.err e ↦ (store, Outcome.err e)
  | Outcome.panicked why ↦ (store, Outcome.panicked why)
]
