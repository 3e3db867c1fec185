-- ===== src/Examples/Pools.antt =====
-- Pools at concrete inputs.
use monty_go.Common.{ℕ, ◌+◌, ◌≤◌, ◌≡◌, refl, length, [], ◌∷◌, true, arith}
use monty_go.Pool.{Pool, checking, waiting, choosing, holding, in_session, section, new_pool}
use monty_go.Pool.Machine.{Crowd, crowd, Reach, starts, later, runs, checks_out}
use monty_go.Pool.Counts.{one, count, held, open_session, total}
use monty_go.Pool.Exclusive.{worker_exclusive, sessions-bounded, workers_kept}
use monty_go.Pool.Race.{closed_pool-runs}

-- A pool of two workers at most, and a session of its first.
abbrev small : Pool
small = new_pool 1 2 0

abbrev open_pool : Crowd
open_pool =
    crowd
      (section
        (section (section (section small checking true).pool waiting true).pool choosing true).pool
        (holding 0) true).pool
      (in_session 0 ∷ [])

open_pool-Reach : Reach small open_pool
unfolding new_pool section
open_pool-Reach =
    later
      (later
        (later (later (later starts checks_out) (runs checking [] [] true refl refl))
          (runs waiting [] [] true refl refl))
        (runs choosing [] [] true refl refl))
      (runs (holding 0) [] [] true refl refl)

worker_exclusive_example : count 0 open_pool.pool.idle + total (held 0) open_pool.activities ≤ 1
worker_exclusive_example = worker_exclusive 1 2 0 0 open_pool (omega arith) open_pool-Reach

sessions-bounded_example :
    (total open_session open_pool.activities ≤ 2) × (length open_pool.pool.idle ≤ 2)
sessions-bounded_example = sessions-bounded 1 2 0 open_pool (omega arith) open_pool-Reach

workers_kept_example : (small.slots ≡ 0) × ((w : ℕ) → one (small.running w) ≡ count w small.idle)
workers_kept_example = workers_kept 1 2 0 (crowd small []) (omega arith) starts refl

closed_pool-runs_example :
    (x : Crowd) × Reach (new_pool 1 2 0) x
    × (x.activities ≡ [])
    × (x.pool.closed ≡ true)
    × (x.pool.running 0 ≡ true)
closed_pool-runs_example = closed_pool-runs 1
