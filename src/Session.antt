-- ===== src/Session.antt =====
-- session.go: a session over one worker. Its mutex makes each critical section one step; what the
-- worker answers is given as a list of replies.
pub mod Exchange
pub mod Advance
pub mod Operations
pub mod Load
pub mod Machine
pub mod Kept
pub mod Invariant
pub mod Sections
pub mod Others
pub mod Safety
pub mod Turns
pub mod Verdicts
pub mod Spends
pub mod Carried
pub mod Charged
pub mod Budget
pub mod Sleeps
pub mod Answers
pub mod Watchdog
pub mod Restored
pub mod Resume
use monty_go.Common.{ℕ, zero, suc, List, [], ◌∷◌, Bytes, Bool, Option, none, some}
use monty_go.Common.Int.{ℤ}
use monty_go.Errors.{Error}
use monty_go.Value.{Value}
use monty_go.Events.{SourceRange, CallEvent}
use monty_go.Events.OsCall.{OsCall}
use monty_go.Exceptions.{RaisedException}
use monty_go.Requests.{Request}

-- The errors that a session returns: its own, and those of the worker as errors.go classifies them.
pub data SessionError : Type 0 where
  closed_session suspended_feed active_turn : SessionError
  foreign_snapshot already_resumed inactive_snapshot : SessionError
  session_has_state not_fresh completed_load idle_dump suspended_dump : SessionError
  not_os_call no_eager_await : SessionError
  duration_exhausted : SessionError
  crashed : SessionError
  codec : Error → SessionError
  protocol : Error → SessionError
  runtime_error : RaisedException → SessionError
  syntax_error : RaisedException → SessionError
  typing_error : Bytes → SessionError
  fatal_error : Bytes → SessionError
  unexpected_kind : ℕ → SessionError

-- What a call comes to: a result, an error, or waiting for a reply that the worker has not sent.
-- `panics` is Go's panic of a type assertion or an index.
pub data Answer {ℓ} (A : Type ℓ) : Type ℓ where
  gives : A → Answer A
  refuses : SessionError → Answer A
  waits : Answer A
  panics : Answer A

-- `runState`, without the options of the feed and the futures. Its step, a uint64, is not wrapped
-- here: that would take 2 ^ 64 answers.
pub record RunState : Type 0 where
  pub step : ℕ
  pub suspensions : ℕ
  pub restoring : Bool
  pub restore_sleep_charged : Bool
  pub cancelled : Bool

-- A run is named by its place in `runs`, which stands for the run states in memory. `sent` are the
-- requests to the worker, the last one first. The sleeps are durations that are not negative: the
-- options, the decoder of calls and the decoder of dumps refuse the others. `system_sleep_max` is
-- `none` for UnlimitedSleep.
pub record Session : Type 0 where
  pub script_name : Bytes
  pub closed : Bool
  pub used : Bool
  pub in_turn : Bool
  pub pending : Option ℕ
  pub max_duration : ℤ
  pub max_suspensions : ℕ
  pub max_total_sleep : ℕ
  pub has_sleep_limit : Bool
  pub sleep_used : ℕ
  pub system_sleep_max : Option ℕ
  pub execution : ℤ
  pub duration_grace : ℤ
  pub duration_backstop : Bool
  pub runs : List RunState
  pub sent : List Request

-- A suspended feed, or its end. A snapshot has its run and the step at which it was made.
pub data Progress : Type 0 where
  complete : Value → Progress
  function_snapshot : ℕ → ℕ → CallEvent → Progress
  os_snapshot : ℕ → ℕ → OsCall → Progress
  name_snapshot : ℕ → ℕ → SourceRange → Bytes → Option Bytes → Progress
  future_snapshot : ℕ → ℕ → SourceRange → List ℕ → Progress

-- `newRunState`.
abbrev pub new_run : RunState
new_run = record {
  step = 0;
  suspensions = 0;
  restoring = Bool.false;
  restore_sleep_charged = Bool.false;
  cancelled = Bool.false;
}

-- The run with a name; a name that stands for no run is not used.
abbrev pub run_at : List RunState → ℕ → RunState
run_at [] n = new_run
run_at (r ∷ rs) zero = r
run_at (r ∷ rs) (suc n) = run_at rs n

-- The runs with one of them changed.
abbrev pub put_run : List RunState → ℕ → RunState → List RunState
put_run [] n x = []
put_run (r ∷ rs) zero x = x ∷ rs
put_run (r ∷ rs) (suc n) x = r ∷ put_run rs n x

abbrev pub set_run : Session → ℕ → RunState → Session
set_run s n r = record s { runs = put_run (s.runs) n r }

-- `state.cancel()`.
abbrev pub cancel_run : Session → ℕ → Session
cancel_run s n = set_run s n (record (run_at s.runs n) { cancelled = Bool.true })
