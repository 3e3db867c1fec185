-- ===== src/Session/Restored.antt =====
-- A snapshot's dump, loaded into a fresh session.
use monty_go.Common.{ℕ, ◌^◌, ◌<◌, ◌≡◌, false, some}
use monty_go.Common.Int.{pos}
use monty_go.Session.{Session, run_at}

-- A session whose run `n` is suspended at `step`, with budgets that the dump can hold.
pub record IsSuspended (s : Session) (n step d : ℕ) : Type 0 where
  pub is_open : s.closed ≡ false
  pub pending : s.pending ≡ some n
  pub at_step : (run_at s.runs n).step ≡ step
  pub duration : s.max_duration ≡ pos d
  pub duration_small : d < 2 ^ 63
  pub suspensions_small : (run_at s.runs n).suspensions < 2 ^ 64
  pub sleep_small : s.sleep_used < 2 ^ 63
