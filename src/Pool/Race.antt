-- ===== src/Pool/Race.antt =====
-- A session that ends while the pool closes.
use monty_go.Common.{
  ℕ, suc, ◌≡◌, refl, List, [], ◌∷◌, ◌++◌, Bool, true, ltb, length, none, some, arith,
}
use monty_go.Pool.{
  Pool, Activity, checking, waiting, choosing, holding, in_session, releasing, unslotted, returning,
  closing, draining, ran, update, section, new_pool,
}
use monty_go.Pool.Machine.{Crowd, crowd, to_list, runs, checks_out, closes, Reach, starts, later}

-- The first activity runs its next section.
abbrev front : Crowd → Activity → Bool → List Activity → Crowd
front x a b after = let r = section x.pool a b in crowd r.pool (to_list r.then_ ++ after)

Reach-front :
    (p : Pool) (x : Crowd) (a : Activity) (b : Bool) (after : List Activity)
    → Reach p x
    → x.activities ≡ a ∷ after
    → Reach p (front x a b after)
Reach-front p x a b after h e = later h (runs a [] after b e refl)

took :
    (p : Pool)
    → ltb p.slots p.max_processes ≡ true
    → section p waiting true ≡ ran (record p { slots = suc p.slots }) (some choosing)
unfolding section
took p h = rw (h) refl

handed_over :
    (p : Pool) (w : ℕ)
    → ltb (length p.idle) p.max_processes ≡ true
    → section p (returning w) true ≡ ran (record p { idle = p.idle ++ (w ∷ []) }) none
unfolding section
handed_over p w h = rw (h) refl

-- The pool that `Close` has drained, before `release` hands worker 0 over.
abbrev racing : ℕ → Pool
racing k = record (new_pool 1 (suc k) 0) {
  closed = true;
  idle = [];
  checkouts = update (new_pool 1 (suc k) 0).checkouts 0 1;
}

-- A pool may close with no goroutine left, and still have a worker that runs: `release` reads
-- `closed` before it hands the worker to `idle`, and `Close` may drain `idle` in between.
pub closed_pool-runs :
    (k : ℕ)
    → (x : Crowd) × Reach (new_pool 1 (suc k) 0) x
      × (x.activities ≡ [])
      × (x.pool.closed ≡ true)
      × (x.pool.running 0 ≡ true)
unfolding new_pool section
closed_pool-runs k =
    let p = new_pool 1 (suc k) 0 in
    let room : ltb 0 (suc k) ≡ true = ground arith in
    let r : Reach p (crowd p (checking ∷ [])) = later starts checks_out in
    let r = Reach-front p _ checking true [] r refl in
    let r = later r (runs waiting [] [] true refl (took _ room)) in
    let r = Reach-front p _ choosing true [] r refl in
    let r = Reach-front p _ (holding 0) true [] r refl in
    let r = Reach-front p _ (in_session 0) true [] r refl in
    let r = Reach-front p _ (releasing 0 true) true [] r refl in
    let r = Reach-front p _ (unslotted 0 true) true [] r refl in
    let r = later r closes in
    let r = Reach-front p _ closing true (returning 0 ∷ []) r refl in
    let r : Reach p (crowd (racing k) (returning 0 ∷ [])) =
      Reach-front p _ draining true (returning 0 ∷ []) r refl in
    (
      _,
      later r (runs (returning 0) [] [] true refl (handed_over (racing k) 0 room)),
      refl,
      refl,
      refl,
    )
