-- ===== src/Pool/Invariant.antt =====
-- Every worker process is in one place, and every slot is held.
use monty_go.Common.{
  ℕ, suc, ◌+◌, ◌-◌, ◌≤◌, ◌≡◌, refl, ap, ◌∙◌, List, [], ◌∷◌, length, length-append, Bool, true,
  false, ◌==◌, ==_iff, ◌&&◌, ◌||◌, not, ltb, if◌then◌else◌, Option, none, some, arith,
}
use monty_go.Pool.{
  Pool, Activity, checking, waiting, choosing, giving_up, starting, holding, in_session, releasing,
  unslotted, returning, dropping, killing, closing, draining, unlisting, shutting, Ran, ran,
  start_worker, stop_worker, choose, drain, section, is_used_up,
}
use monty_go.Pool.Machine.{Crowd, to_list}
use monty_go.Pool.Counts.{one, count, held, slot, total, count-append}

pub record Inv (x : Crowd) : Type 0 where
  pub places : (w : ℕ) → count w x.pool.idle + total (held w) x.activities ≡ one (x.pool.running w)
  pub slots : x.pool.slots ≡ total slot x.activities
  pub slots_max : x.pool.slots ≤ x.pool.max_processes
  pub idle_max : length x.pool.idle ≤ x.pool.max_processes
  pub fresh : (w : ℕ) → x.pool.next ≤ w → x.pool.running w ≡ false

-- What a section needs of the pool, and of its activity.
pub record Ready (p : Pool) (a : Activity) : Type 0 where
  pub places : (w : ℕ) → count w p.idle + held w a ≤ one (p.running w)
  pub slots : slot a ≤ p.slots
  pub fresh : (w : ℕ) → p.next ≤ w → p.running w ≡ false

-- What it changes: workers start and stop where they are held, and slots go with the activity.
pub record Moves (p : Pool) (a : Activity) (r : Ran) : Type 0 where
  pub places :
      (w : ℕ)
      → count w r.pool.idle + total (held w) (to_list r.then_) + one (p.running w)
        ≡ one (r.pool.running w) + (count w p.idle + held w a)
  pub slots : r.pool.slots + slot a ≡ p.slots + total slot (to_list r.then_)
  pub capacity : r.pool.max_processes ≡ p.max_processes
  pub slots_max : p.slots ≤ p.max_processes → r.pool.slots ≤ r.pool.max_processes
  pub idle_max : length p.idle ≤ p.max_processes → length r.pool.idle ≤ r.pool.max_processes
  pub fresh : (w : ℕ) → r.pool.next ≤ w → r.pool.running w ≡ false

stopped_at : (b c : Bool) → one b ≤ one c → one (if b then false else c) + one b ≡ one c
stopped_at true true h = refl
stopped_at true false h = absurd (omega arith)
stopped_at false c h = omega arith

pub started_at : (b c : Bool) → (b ≡ true → c ≡ false) → one (if b then true else c) ≡ one c + one b
started_at true true h = absurd (clash (h refl))
  where
    clash : true ≡ false → ⊥
    clash e = cc
started_at true false h = refl
started_at false c h = omega arith

-- A section that leaves the processes, the idle workers and the slots alone.
Moves-same :
    (p q : Pool) (a : Activity) (o : Option Activity)
    → Ready p a
    → q.running ≡ p.running
    → q.idle ≡ p.idle
    → q.slots ≡ p.slots
    → q.max_processes ≡ p.max_processes
    → q.next ≡ p.next
    → ((w : ℕ) → total (held w) (to_list o) ≡ held w a)
    → total slot (to_list o) ≡ slot a
    → Moves p a (ran q o)
Moves-same p q a o h r i s m n k l = record {
  places = λ w. omega (arith, k w, ap (count w) i, ap (λ f. one (f w)) r);
  slots = omega (arith, l, s);
  capacity = m;
  slots_max = λ e. omega (arith, s, m);
  idle_max = λ e. omega (arith, ap length i, m);
  fresh = λ w e. ap (λ f. f w) r ∙ h.fresh w (omega (arith, n));
}

-- The process of a worker that the activity has is ended.
Moves-stop :
    (p : Pool) (a : Activity) (v : ℕ) (o : Option Activity)
    → Ready p a
    → ((w : ℕ) → held w a ≡ one (v == w))
    → ((w : ℕ) → total (held w) (to_list o) ≡ 0)
    → total slot (to_list o) ≡ slot a
    → Moves p a (ran (stop_worker p v) o)
Moves-stop p a v o h g k l = record {
  places = λ w.
      omega (arith, k w, g w, stopped_at (v == w) (p.running w) (omega (arith, g w, h.places w)));
  slots = omega (arith, l);
  capacity = refl;
  slots_max = λ e. e;
  idle_max = λ e. e;
  fresh = λ w e. stays (v == w) (p.running w) (h.fresh w e);
}
  where
    stays : (b c : Bool) → c ≡ false → (if b then false else c) ≡ false
    stays true c e = refl
    stays false c e = e

Moves-start :
    (p : Pool) → Ready p choosing → Moves p choosing (ran (start_worker p) (some (starting p.next)))
Moves-start p h = record {
  places = λ w. omega (arith, started_at (p.next == w) (p.running w) (new w));
  slots = omega arith;
  capacity = refl;
  slots_max = λ e. e;
  idle_max = λ e. e;
  fresh = λ w e. other (p.next == w) (p.running w) (later_one w e) (h.fresh w (omega arith));
}
  where
    new : (w : ℕ) → (p.next == w) ≡ true → p.running w ≡ false
    new w e = h.fresh w (ground (arith, ==_iff p.next w))

    later_one : (w : ℕ) → suc p.next ≤ w → (p.next == w) ≡ false
    later_one w e = ground (arith, ==_iff p.next w)

    other : (b c : Bool) → b ≡ false → c ≡ false → (if b then true else c) ≡ false
    other true c e f = cc
    other false c e f = f

-- The first idle worker is taken.
Moves-take :
    (p : Pool) (a b : Activity) (v : ℕ) (vs : List ℕ)
    → Ready p a
    → p.idle ≡ v ∷ vs
    → ((w : ℕ) → held w a ≡ 0)
    → ((w : ℕ) → held w b ≡ one (v == w))
    → slot b ≡ slot a
    → Moves p a (ran (record p { idle = vs }) (some b))
Moves-take p a b v vs h e g k l = record {
  places = λ w. omega (arith, ap (count w) e, g w, k w);
  slots = omega (arith, l);
  capacity = refl;
  slots_max = λ f. f;
  idle_max = λ f. omega (arith, ap length e, f);
  fresh = h.fresh;
}

Moves-choose :
    (p : Pool) (b : Bool) (xs : List ℕ)
    → Ready p choosing
    → p.idle ≡ xs
    → Moves p choosing (choose p b xs)
Moves-choose p b (v ∷ vs) h e =
    Moves-take p choosing (holding v) v vs h e (λ w. refl) (λ w. refl) refl
Moves-choose p true [] h e = Moves-start p h
Moves-choose p false [] h e =
    Moves-same p p choosing (some giving_up) h refl refl refl refl refl (λ w. refl) refl

Moves-drain :
    (p : Pool) (xs : List ℕ) → Ready p draining → p.idle ≡ xs → Moves p draining (drain p xs)
Moves-drain p (v ∷ vs) h e =
    Moves-take p draining (unlisting v) v vs h e (λ w. refl) (λ w. omega arith) refl
Moves-drain p [] h e = Moves-same p p draining none h refl refl refl refl refl (λ w. refl) refl

-- A slot that the activity has is given back.
Moves-slot :
    (p : Pool) (a : Activity) (o : Option Activity)
    → Ready p a
    → slot a ≡ 1
    → total slot (to_list o) ≡ 0
    → ((w : ℕ) → total (held w) (to_list o) ≡ held w a)
    → Moves p a (ran (record p { slots = p.slots - 1 }) o)
Moves-slot p a o h k l m = record {
  places = λ w. omega (arith, m w);
  slots = omega (arith, k, l, h.slots);
  capacity = refl;
  slots_max = λ e. omega (arith, e);
  idle_max = λ e. e;
  fresh = h.fresh;
}

-- The branches of a test.
branch :
    (p : Pool) (a : Activity) (b : Bool) (x y : Ran)
    → (b ≡ true → Moves p a x)
    → (b ≡ false → Moves p a y)
    → Moves p a (if b then x else y)
branch p a true x y h k = h refl
branch p a false x y h k = k refl

pub Moves-section : (p : Pool) (a : Activity) (b : Bool) → Ready p a → Moves p a (section p a b)
unfolding section
Moves-section p checking b h =
    branch p _ p.closed _ _ (λ e. Moves-same p p _ _ h refl refl refl refl refl (λ w. refl) refl)
      (λ e. Moves-same p p _ _ h refl refl refl refl refl (λ w. refl) refl)
Moves-section p waiting b h =
    branch p _ (b && ltb p.slots p.max_processes) _ _
      (λ e. record {
        places = λ w. omega arith;
        slots = omega arith;
        capacity = refl;
        slots_max = λ f. ground arith;
        idle_max = λ f. f;
        fresh = h.fresh;
      })
      (λ e. Moves-same p p _ _ h refl refl refl refl refl (λ w. refl) refl)
Moves-section p choosing b h = Moves-choose p b p.idle h refl
Moves-section p (starting v) b h =
    branch p _ p.closed _ _ (λ e. Moves-stop p _ v _ h (λ w. refl) (λ w. refl) refl)
      (λ e. Moves-same p _ _ _ h refl refl refl refl refl (λ w. omega arith) refl)
Moves-section p giving_up b h = Moves-slot p _ _ h refl refl (λ w. refl)
Moves-section p (holding v) b h =
    branch p _ (p.closed || not b) _ _
      (λ e. Moves-same p p _ _ h refl refl refl refl refl (λ w. omega arith) refl)
      (λ e. Moves-same p _ _ _ h refl refl refl refl refl (λ w. omega arith) refl)
Moves-section p (in_session v) b h =
    Moves-same p p _ _ h refl refl refl refl refl (λ w. omega arith) refl
Moves-section p (releasing v r) b h = Moves-slot p _ _ h refl refl (λ w. omega arith)
Moves-section p (unslotted v r) b h =
    branch p _ (is_used_up p v r) _ _
      (λ e. Moves-same p _ _ _ h refl refl refl refl refl (λ w. omega arith) refl)
      (λ e.
        branch p _ (not (p.workers v)) _ _
          (λ f. Moves-same p p _ _ h refl refl refl refl refl (λ w. omega arith) refl)
          (λ f. Moves-same p p _ _ h refl refl refl refl refl (λ w. omega arith) refl))
Moves-section p (returning v) b h =
    branch p _ (ltb (length p.idle) p.max_processes) _ _
      (λ e. record {
        places = λ w. omega (arith, count-append w p.idle (v ∷ []));
        slots = omega arith;
        capacity = refl;
        slots_max = λ f. f;
        idle_max = λ f. ground (arith, length-append p.idle (v ∷ []));
        fresh = h.fresh;
      })
      (λ e. Moves-same p p _ _ h refl refl refl refl refl (λ w. omega arith) refl)
Moves-section p (dropping v) b h =
    Moves-same p _ _ _ h refl refl refl refl refl (λ w. omega arith) refl
Moves-section p (killing v) b h = Moves-stop p _ v _ h (λ w. refl) (λ w. refl) refl
Moves-section p closing b h =
    branch p _ p.closed _ _ (λ e. Moves-same p p _ _ h refl refl refl refl refl (λ w. refl) refl)
      (λ e. Moves-same p _ _ _ h refl refl refl refl refl (λ w. refl) refl)
Moves-section p draining b h = Moves-drain p p.idle h refl
Moves-section p (unlisting v) b h =
    Moves-same p _ _ _ h refl refl refl refl refl (λ w. omega arith) refl
Moves-section p (shutting v) b h = Moves-stop p _ v _ h (λ w. refl) (λ w. refl) refl
