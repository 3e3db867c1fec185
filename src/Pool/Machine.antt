-- ===== src/Pool/Machine.antt =====
-- pool.go: the goroutines of a pool, interleaved.
use monty_go.Common.{◌≡◌, List, [], ◌∷◌, ◌++◌, Bool, Option, none, some}
use monty_go.Pool.{Pool, Activity, checking, closing, section, Ran}

pub record Crowd : Type 0 where
  pub pool : Pool
  pub activities : List Activity

abbrev pub crowd : Pool → List Activity → Crowd
crowd p xs = record { pool = p; activities = xs }

abbrev pub to_list : Option Activity → List Activity
to_list none = []
to_list (some a) = a ∷ []

-- One goroutine runs its next section, or a call of `Checkout` or of `Close` comes in.
pub data Step (x : Crowd) : Crowd → Type 0 where
  runs :
      (a : Activity) (before after : List Activity) (b : Bool) {r : Ran}
      → x.activities ≡ before ++ (a ∷ after)
      → section x.pool a b ≡ r
      → Step x (crowd r.pool (before ++ (to_list r.then_ ++ after)))
  checks_out : Step x (crowd x.pool (checking ∷ x.activities))
  closes : Step x (crowd x.pool (closing ∷ x.activities))

pub data Reach (p : Pool) : Crowd → Type 0 where
  starts : Reach p (crowd p [])
  later : {x y : Crowd} → Reach p x → Step x y → Reach p y
