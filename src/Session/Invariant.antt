-- ===== src/Session/Invariant.antt =====
-- The invariant of a session that several goroutines use.
use monty_go.Common.{
  ℕ, zero, suc, ◌≤◌, ◌<◌, ◌≡◌, ◌≢◌, refl, ap, List, [], ◌∷◌, ◌++◌, length, length-append, true,
  false, Option, none, some, arith, All,
}
use monty_go.Session.{Session, RunState, run_at, put_run}
use monty_go.Session.Kept.{Kept, length-put_run}
use monty_go.Session.Machine.{Turn, feed_turn, resume_turn}

-- At most one goroutine is in a turn, and the flag and the pending run tell which turn it is.
abbrev pub TurnInv : List Turn → Session → Type 0
TurnInv [] s = s.in_turn ≡ false
TurnInv (feed_turn n ∷ []) s =
    (s.in_turn ≡ true) × (s.closed ≡ false) × (s.pending ≡ none) × (n < length s.runs)
TurnInv (resume_turn n ∷ []) s = (s.in_turn ≡ true) × (s.closed ≡ false) × (s.pending ≡ some n)
TurnInv (t ∷ u ∷ ts) s = ⊥

abbrev pub IsRun : Option ℕ → List RunState → Type 0
IsRun none rs = Unit {0}
IsRun (some n) rs = n < length rs

-- A suspension that was answered lies behind its run.
abbrev pub IsBegun : List RunState → ℕ × ℕ → Type 0
IsBegun rs (n, step) = (n < length rs) × (step < (run_at rs n).step)

abbrev pub IsDistinct : List (ℕ × ℕ) → Type 0
IsDistinct [] = Unit {0}
IsDistinct (p ∷ ps) = All (λ q. p ≢ q) ps × IsDistinct ps

-- Runs are only added, and their steps only grow.
pub record Grown (rs ts : List RunState) : Type 0 where
  pub count : length rs ≤ length ts
  pub steps : (n : ℕ) → n < length rs → (run_at rs n).step ≤ (run_at ts n).step

pub Grown-refl : (rs : List RunState) → Grown rs rs
Grown-refl rs = record { count = omega arith; steps = λ n h. omega arith }

pub Grown-trans : (rs ts us : List RunState) → Grown rs ts → Grown ts us → Grown rs us
Grown-trans rs ts us h k = record {
  count = omega (arith, h.count, k.count);
  steps = λ n l. omega (arith, h.count, h.steps n l, k.steps n (omega (arith, h.count)));
}

pub Kept-Grown : (s t : Session) → Kept s t → Grown s.runs t.runs
Kept-Grown s t h = record {
  count = omega (arith, h.count);
  steps = λ n l. omega (arith, h.steps n);
}

run_at-append :
    (rs : List RunState) (r : RunState) (n : ℕ)
    → n < length rs
    → run_at (rs ++ (r ∷ [])) n ≡ run_at rs n
run_at-append [] r n h = absurd (omega arith)
run_at-append (x ∷ rs) r zero h = refl
run_at-append (x ∷ rs) r (suc n) h = run_at-append rs r n (omega arith)

pub Grown-append : (rs : List RunState) (r : RunState) → Grown rs (rs ++ (r ∷ []))
Grown-append rs r = record {
  count = omega (arith, length-append rs (r ∷ []));
  steps = λ n l. omega (arith, ap (λ x. x.step) (run_at-append rs r n l));
}

steps-advanced :
    (rs : List RunState) (n : ℕ) (r : RunState)
    → (run_at rs n).step ≤ r.step
    → (m : ℕ) → (run_at rs m).step ≤ (run_at (put_run rs n r) m).step
steps-advanced [] n r h m = omega arith
steps-advanced (x ∷ rs) zero r h zero = h
steps-advanced (x ∷ rs) zero r h (suc m) = omega arith
steps-advanced (x ∷ rs) (suc n) r h zero = omega arith
steps-advanced (x ∷ rs) (suc n) r h (suc m) = steps-advanced rs n r h m

pub Grown-put_run :
    (rs : List RunState) (n : ℕ) (r : RunState)
    → (run_at rs n).step ≤ r.step
    → Grown rs (put_run rs n r)
Grown-put_run rs n r h = record {
  count = omega (arith, length-put_run rs n r);
  steps = λ m l. steps-advanced rs n r h m;
}

pub run_at-put_run :
    (rs : List RunState) (n : ℕ) (r : RunState) → n < length rs → run_at (put_run rs n r) n ≡ r
run_at-put_run [] n r h = absurd (omega arith)
run_at-put_run (x ∷ rs) zero r h = refl
run_at-put_run (x ∷ rs) (suc n) r h = run_at-put_run rs n r (omega arith)

pub IsBegun-Grown :
    (rs ts : List RunState) (ps : List (ℕ × ℕ))
    → Grown rs ts
    → All (IsBegun rs) ps
    → All (IsBegun ts) ps
IsBegun-Grown rs ts [] g h = tt
IsBegun-Grown rs ts ((n, k) ∷ ps) g ((l, m), h) =
    ((omega (arith, g.count), omega (arith, g.steps n l)), IsBegun-Grown rs ts ps g h)

pub IsRun-Grown : (o : Option ℕ) (rs ts : List RunState) → Grown rs ts → IsRun o rs → IsRun o ts
IsRun-Grown none rs ts g h = tt
IsRun-Grown (some n) rs ts g h = omega (arith, g.count)

-- A step that is not below the run's own has not been answered.
pub begun_fresh :
    (rs : List RunState) (n : ℕ) (ps : List (ℕ × ℕ))
    → All (IsBegun rs) ps
    → All (λ q. (n, (run_at rs n).step) ≢ q) ps
begun_fresh rs n [] h = tt
begun_fresh rs n ((m, k) ∷ ps) ((l, less), h) =
    (λ e. clash (ap (λ (p : ℕ × ℕ). p.0) e) (ap (λ (p : ℕ × ℕ). p.1) e), begun_fresh rs n ps h)
  where
    clash : n ≡ m → (run_at rs n).step ≡ k → ⊥
    clash a b = absurd (omega (arith, less, b, ap (λ x. (run_at rs x).step) a))
