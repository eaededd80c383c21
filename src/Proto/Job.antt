-- ===== src/Proto/Job.antt =====
-- crates/paavo-proto/src/job.rs and ids.rs: priorities, states and outcomes of a job.
use paavo.Prelude.{arith, ℕ, ◌≡◌, refl, Bool, true, false, String}

-- A ULID is a `u128`; its text form sorts as the number does.
abbrev pub JobId : Type 0
JobId = ℕ

pub data Priority : Type 0 where
  interactive scheduled : Priority

pub data JobSource : Type 0 where
  cli scheduler : JobSource

pub data JobState : Type 0 where
  submitted building running awaiting_board passed failed timed_out aborted : JobState

pub data TerminalOutcome : Type 0 where
  build_err : String → TerminalOutcome
  test_err : String → TerminalOutcome
  infra_err : String → String → TerminalOutcome

pub data TimeoutReason : Type 0 where
  inactivity hard_max : TimeoutReason

pub data AbortReason : Type 0 where
  user daemon_shutdown interrupted : AbortReason

pub data JobOutcome : Type 0 where
  passed : JobOutcome
  failed : TerminalOutcome → JobOutcome
  timed_out : TimeoutReason → ℕ → JobOutcome
  aborted : AbortReason → JobOutcome

unfoldable pub weight : Priority → ℕ
weight interactive = 0
weight scheduled = 1

unfoldable pub is_terminal : JobState → Bool
is_terminal JobState.passed = true
is_terminal JobState.failed = true
is_terminal JobState.timed_out = true
is_terminal JobState.aborted = true
is_terminal _ = false

unfoldable pub counts_toward_infra_failure : JobOutcome → Bool
counts_toward_infra_failure (JobOutcome.failed (infra_err stage message)) = true
counts_toward_infra_failure _ = false

-- `==` of the derived `PartialEq`s.
abbrev pub state_eq : JobState → JobState → Bool
state_eq submitted submitted = true
state_eq building building = true
state_eq running running = true
state_eq awaiting_board awaiting_board = true
state_eq JobState.passed JobState.passed = true
state_eq JobState.failed JobState.failed = true
state_eq JobState.timed_out JobState.timed_out = true
state_eq JobState.aborted JobState.aborted = true
state_eq _ _ = false

abbrev pub is_scheduled : Priority → Bool
is_scheduled interactive = false
is_scheduled scheduled = true

pub state_eq→eq : (s t : JobState) → state_eq s t ≡ true → s ≡ t
state_eq→eq s t h = ground arith

pub state_eq_self : (s : JobState) → state_eq s s ≡ true
state_eq_self submitted = refl
state_eq_self _ = refl
