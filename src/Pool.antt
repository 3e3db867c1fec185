-- ===== src/Pool.antt =====
-- pool.go: the pool of workers, as the sections between which the goroutines of `Checkout`, of
-- `release` and of `Close` interleave.
pub mod Machine
pub mod Counts
pub mod Invariant
pub mod Exclusive
pub mod Race
use monty_go.Common.{
  ℕ, zero, suc, ◌+◌, ◌-◌, List, [], ◌∷◌, ◌++◌, length, Bool, true, false, ◌==◌, ◌&&◌, ◌||◌, not,
  ltb, leb, if◌then◌else◌, Option, none, some,
}

-- `Monty`, and the workers with their processes. A worker is named by a number; `next` names the
-- next one that is started. `running` are the workers that were started and not killed or shut down.
pub record Pool : Type 0 where
  pub max_processes : ℕ
  pub max_checkouts : ℕ
  pub closed : Bool
  pub slots : ℕ
  pub idle : List ℕ
  pub workers : ℕ → Bool
  pub checkouts : ℕ → ℕ
  pub running : ℕ → Bool
  pub next : ℕ

-- Where a goroutine stands in `Checkout`, in a session, in `release` or in `Close`. Those that name
-- a worker have it to themselves.
pub data Activity : Type 0 where
  checking waiting choosing giving_up : Activity
  starting holding in_session : ℕ → Activity
  releasing unslotted : ℕ → Bool → Activity
  returning dropping killing : ℕ → Activity
  closing draining : Activity
  unlisting shutting : ℕ → Activity

abbrev pub update {ℓ} : {A : Type ℓ} → (ℕ → A) → ℕ → A → ℕ → A
update f n a m = if n == m then a else f m

-- The section that an activity runs, and where it stands then.
pub record Ran : Type 0 where
  pub pool : Pool
  pub then_ : Option Activity

abbrev pub ran : Pool → Option Activity → Ran
ran p a = record { pool = p; then_ = a }

abbrev pub start_worker : Pool → Pool
start_worker p = record p { running = update p.running p.next true; next = suc p.next }

abbrev pub stop_worker : Pool → ℕ → Pool
stop_worker p w = record p { running = update p.running w false }

abbrev pub list_worker : Pool → ℕ → Bool → Pool
list_worker p w b = record p { workers = update p.workers w b }

-- `select { case w = <-p.idle: default: startWorker }`; `started` is whether the process starts.
abbrev pub choose : Pool → Bool → List ℕ → Ran
choose p started (w ∷ ws) = ran (record p { idle = ws }) (some (holding w))
choose p started [] =
    if started then ran (start_worker p) (some (starting p.next)) else ran p (some giving_up)

-- The condition of `release` under which a worker is not used again.
unfoldable pub is_used_up : Pool → ℕ → Bool → Bool
is_used_up p w reusable =
    not reusable || (p.closed || (ltb 0 p.max_checkouts && leb p.max_checkouts (p.checkouts w)))

-- The section of `release` under the mutex.
abbrev pub settle : Pool → ℕ → Bool → Ran
settle p w used_up =
    if used_up
    then ran (list_worker p w false) (some (killing w))
    else if not (p.workers w)
    then ran p (some (killing w))
    else ran p (some (returning w))

abbrev pub drain : Pool → List ℕ → Ran
drain p (w ∷ ws) = ran (record p { idle = ws }) (some (unlisting w))
drain p [] = ran p none

-- The next section of an activity. `b` is what is not the pool's to say: which case of a `select`
-- is chosen, whether a process starts, and whether the worker answers well.
unfoldable pub section : Pool → Activity → Bool → Ran
unfolding is_used_up
section p checking b = if p.closed then ran p none else ran p (some waiting)
section p waiting b =
    if b && ltb p.slots p.max_processes
    then ran (record p { slots = suc p.slots }) (some choosing)
    else ran p none
section p choosing b = choose p b p.idle
section p (starting w) b =
    if p.closed
    then ran (stop_worker p w) (some giving_up)
    else ran (list_worker p w true) (some (holding w))
section p giving_up b = ran (record p { slots = p.slots - 1 }) none
section p (holding w) b =
    if p.closed || not b
    then ran p (some (releasing w false))
    else ran (record p { checkouts = update p.checkouts w (suc (p.checkouts w)) })
        (some (in_session w))
section p (in_session w) b = ran p (some (releasing w b))
section p (releasing w reusable) b =
    ran (record p { slots = p.slots - 1 }) (some (unslotted w reusable))
section p (unslotted w reusable) b = settle p w (is_used_up p w reusable)
section p (returning w) b =
    if ltb (length p.idle) p.max_processes
    then ran (record p { idle = p.idle ++ (w ∷ []) }) none
    else ran p (some (dropping w))
section p (dropping w) b = ran (list_worker p w false) (some (killing w))
section p (killing w) b = ran (stop_worker p w) none
section p closing b =
    if p.closed then ran p none else ran (record p { closed = true }) (some draining)
section p draining b = drain p p.idle
section p (unlisting w) b = ran (list_worker p w false) (some (shutting w))
section p (shutting w) b = ran (stop_worker p w) (some draining)

abbrev pub empty_pool : ℕ → ℕ → Pool
empty_pool max_processes max_checkouts = record {
  max_processes = max_processes;
  max_checkouts = max_checkouts;
  closed = false;
  slots = 0;
  idle = [];
  workers = λ w. false;
  checkouts = λ w. 0;
  running = λ w. false;
  next = 0;
}

-- A worker that `New` prewarms: `startWorker`, and `p.idle <- w`.
abbrev pub prewarm : Pool → Pool
prewarm p = record (list_worker (start_worker p) p.next true) { idle = p.idle ++ (p.next ∷ []) }

-- `New` with its options valid, and every process started.
unfoldable pub new_pool : ℕ → ℕ → ℕ → Pool
new_pool zero max_processes max_checkouts = empty_pool max_processes max_checkouts
new_pool (suc n) max_processes max_checkouts = prewarm (new_pool n max_processes max_checkouts)
