-- ===== src/Pool/Counts.antt =====
-- How often a worker is idle or held, and how many slots are held.
use monty_go.Common.{ℕ, ◌+◌, ◌≡◌, List, [], ◌∷◌, ◌++◌, Bool, true, false, ◌==◌, arith}
use monty_go.Pool.{
  Activity, choosing, giving_up, starting, holding, in_session, releasing, unslotted, returning,
  dropping, killing, unlisting, shutting,
}

abbrev pub one : Bool → ℕ
one true = 1
one false = 0

abbrev pub count : ℕ → List ℕ → ℕ
count w [] = 0
count w (v ∷ vs) = one (v == w) + count w vs

-- 1 for an activity that has worker `w`.
abbrev pub held : ℕ → Activity → ℕ
held w (starting v) = one (v == w)
held w (holding v) = one (v == w)
held w (in_session v) = one (v == w)
held w (releasing v b) = one (v == w)
held w (unslotted v b) = one (v == w)
held w (returning v) = one (v == w)
held w (dropping v) = one (v == w)
held w (killing v) = one (v == w)
held w (unlisting v) = one (v == w)
held w (shutting v) = one (v == w)
held w other = 0

-- 1 for an activity that has a slot.
abbrev pub slot : Activity → ℕ
slot choosing = 1
slot giving_up = 1
slot (starting w) = 1
slot (holding w) = 1
slot (in_session w) = 1
slot (releasing w b) = 1
slot other = 0

-- 1 for a session that `Checkout` has returned and `Close` has not taken back.
abbrev pub open_session : Activity → ℕ
open_session (in_session w) = 1
open_session other = 0

abbrev pub total : (Activity → ℕ) → List Activity → ℕ
total f [] = 0
total f (x ∷ xs) = f x + total f xs

pub total-append :
    (f : Activity → ℕ) (xs ys : List Activity) → total f (xs ++ ys) ≡ total f xs + total f ys
total-append f [] ys = omega arith
total-append f (x ∷ xs) ys = omega (arith, total-append f xs ys)

pub count-append : (w : ℕ) (xs ys : List ℕ) → count w (xs ++ ys) ≡ count w xs + count w ys
count-append w [] ys = omega arith
count-append w (x ∷ xs) ys = omega (arith, count-append w xs ys)
