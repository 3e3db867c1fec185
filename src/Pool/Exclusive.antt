-- ===== src/Pool/Exclusive.antt =====
-- What a pool promises its sessions, whatever the order of its goroutines.
use monty_go.Common.{
  ℕ, zero, suc, ◌+◌, ◌≤◌, ◌≡◌, refl, ap, ◌∙◌, List, [], ◌∷◌, ◌++◌, length, length-append, Bool,
  true, false, ◌==◌, ==_iff, arith,
}
use mathlib.Core.Path.{subst}
use monty_go.Pool.{Activity, checking, closing, in_session, Ran, section, new_pool}
use monty_go.Pool.Machine.{
  Crowd, crowd, to_list, Step, runs, checks_out, closes, Reach, starts, later,
}
use monty_go.Pool.Counts.{one, count, held, slot, open_session, total, total-append, count-append}
use monty_go.Pool.Invariant.{Inv, Moves-section, started_at}

total-at :
    (f : Activity → ℕ) (x : Activity) (xs ys : List Activity)
    → total f (xs ++ (x ∷ ys)) ≡ f x + (total f xs + total f ys)
total-at f x xs ys = omega (arith, total-append f xs (x ∷ ys))

total-between :
    (f : Activity → ℕ) (xs ys zs : List Activity)
    → total f (xs ++ (ys ++ zs)) ≡ total f ys + (total f xs + total f zs)
total-between f xs ys zs = omega (arith, total-append f xs (ys ++ zs), total-append f ys zs)

one-le : (b : Bool) → one b ≤ 1
one-le true = omega arith
one-le false = omega arith

Inv-runs :
    (x : Crowd) (a : Activity) (before after : List Activity) (b : Bool)
    → x.activities ≡ before ++ (a ∷ after)
    → Inv x
    → let r = section x.pool a b in Inv (crowd r.pool (before ++ (to_list r.then_ ++ after)))
Inv-runs x a before after b e h =
    let p = x.pool in
    let r = section p a b in
    let at : (f : Activity → ℕ) → total f x.activities ≡ f a + (total f before + total f after) =
      λ f. ap (total f) e ∙ total-at f a before after in
    let m = Moves-section p a b (record {
      places = λ w. omega (arith, h.places w, at (held w));
      slots = omega (arith, h.slots, at slot);
      fresh = h.fresh;
    }) in
    record {
      places = λ w. omega (
        arith,
        total-between (held w) before (to_list r.then_) after,
        h.places w,
        at (held w),
        m.places w,
      );
      slots =
          omega
            (arith, total-between slot before (to_list r.then_) after, h.slots, at slot, m.slots);
      slots_max = m.slots_max h.slots_max;
      idle_max = m.idle_max h.idle_max;
      fresh = m.fresh;
    }

Inv-calls :
    (x : Crowd) (a : Activity)
    → ((w : ℕ) → held w a ≡ 0)
    → slot a ≡ 0
    → Inv x
    → Inv (crowd x.pool (a ∷ x.activities))
Inv-calls x a k l h = record {
  places = λ w. omega (arith, h.places w, k w);
  slots = omega (arith, h.slots, l);
  slots_max = h.slots_max;
  idle_max = h.idle_max;
  fresh = h.fresh;
}

Step-Inv : (x y : Crowd) → Inv x → Step x y → Inv y
Step-Inv x y h (runs a before after b {r} e k) =
    subst (λ (r : Ran). Inv (crowd r.pool (before ++ (to_list r.then_ ++ after)))) k
      (Inv-runs x a before after b e h)
Step-Inv x y h checks_out = Inv-calls x checking (λ w. refl) refl h
Step-Inv x y h closes = Inv-calls x closing (λ w. refl) refl h

new_idle : (n m c : ℕ) → length (new_pool n m c).idle ≡ n
unfolding new_pool
new_idle zero m c = refl
new_idle (suc n) m c =
    omega (arith, new_idle n m c, length-append (new_pool n m c).idle ((new_pool n m c).next ∷ []))

new_slots : (n m c : ℕ) → ((new_pool n m c).slots ≡ 0) × ((new_pool n m c).max_processes ≡ m)
unfolding new_pool
new_slots zero m c = (refl, refl)
new_slots (suc n) m c = new_slots n m c

new_fresh : (n m c w : ℕ) → (new_pool n m c).next ≤ w → (new_pool n m c).running w ≡ false
unfolding new_pool
new_fresh zero m c w h = refl
new_fresh (suc n) m c w h =
    let p = new_pool n m c in
    let apart : (p.next == w) ≡ false = ground (arith, ==_iff p.next w) in
    rw (apart) (new_fresh n m c w (omega arith))

new_places : (n m c w : ℕ) → count w (new_pool n m c).idle ≡ one ((new_pool n m c).running w)
unfolding new_pool
new_places zero m c w = refl
new_places (suc n) m c w =
    let p = new_pool n m c in
    omega (
      arith,
      count-append w p.idle (p.next ∷ []),
      new_places n m c w,
      started_at (p.next == w) (p.running w)
          (λ e. new_fresh n m c w (ground (arith, ==_iff p.next w))),
    )

Inv-new_pool : (n m c : ℕ) → n ≤ m → Inv (crowd (new_pool n m c) [])
Inv-new_pool n m c h =
    let (s, k) = new_slots n m c in
    record {
      places = λ w. omega (arith, new_places n m c w);
      slots = s;
      slots_max = omega (arith, s);
      idle_max = omega (arith, k, new_idle n m c);
      fresh = new_fresh n m c;
    }

pub Reach-Inv : (n m c : ℕ) (x : Crowd) → n ≤ m → Reach (new_pool n m c) x → Inv x
Reach-Inv n m c x h starts = Inv-new_pool n m c h
Reach-Inv n m c x h (later {x = y} r s) = Step-Inv y x (Reach-Inv n m c y h r) s

-- `MaxProcesses` stays as it is.
pub Reach-capacity :
    (n m c : ℕ) (x : Crowd) → n ≤ m → Reach (new_pool n m c) x → x.pool.max_processes ≡ m
Reach-capacity n m c x h starts = (new_slots n m c).1
Reach-capacity n m c x h (later {x = y} r (runs a before after b {r = q} e k)) =
    let i = Reach-Inv n m c y h r in
    let at : (f : Activity → ℕ) → total f y.activities ≡ f a + (total f before + total f after) =
      λ f. ap (total f) e ∙ total-at f a before after in
    subst (λ (q : Ran). q.pool.max_processes ≡ m) k
      ((Moves-section y.pool a b (record {
        places = λ w. omega (arith, i.places w, at (held w));
        slots = omega (arith, i.slots, at slot);
        fresh = i.fresh;
      })).capacity
        ∙ Reach-capacity n m c y h r)
Reach-capacity n m c x h (later {x = y} r checks_out) = Reach-capacity n m c y h r
Reach-capacity n m c x h (later {x = y} r closes) = Reach-capacity n m c y h r

session-slot : (xs : List Activity) → total open_session xs ≤ total slot xs
session-slot [] = omega arith
session-slot (x ∷ xs) = omega (arith, one_slot x, session-slot xs)
  where
    one_slot : (a : Activity) → open_session a ≤ slot a
    one_slot (in_session w) = omega arith
    one_slot Activity.checking = omega arith
    one_slot Activity.waiting = omega arith
    one_slot Activity.choosing = omega arith
    one_slot Activity.giving_up = omega arith
    one_slot (Activity.starting w) = omega arith
    one_slot (Activity.holding w) = omega arith
    one_slot (Activity.releasing w b) = omega arith
    one_slot (Activity.unslotted w b) = omega arith
    one_slot (Activity.returning w) = omega arith
    one_slot (Activity.dropping w) = omega arith
    one_slot (Activity.killing w) = omega arith
    one_slot Activity.closing = omega arith
    one_slot Activity.draining = omega arith
    one_slot (Activity.unlisting w) = omega arith
    one_slot (Activity.shutting w) = omega arith

-- A worker is idle, or with one goroutine, at most once in all: no two sessions share a worker, and
-- none has one that is idle, being started, returned or stopped.
pub worker_exclusive :
    (n m c w : ℕ) (x : Crowd)
    → n ≤ m
    → Reach (new_pool n m c) x
    → count w x.pool.idle + total (held w) x.activities ≤ 1
worker_exclusive n m c w x h r =
    omega (arith, (Reach-Inv n m c x h r).places w, one-le (x.pool.running w))

-- At most `MaxProcesses` sessions are open at once, and at most as many workers are idle.
pub sessions-bounded :
    (n m c : ℕ) (x : Crowd)
    → n ≤ m
    → Reach (new_pool n m c) x
    → (total open_session x.activities ≤ m) × (length x.pool.idle ≤ m)
sessions-bounded n m c x h r =
    let i = Reach-Inv n m c x h r in
    let k = Reach-capacity n m c x h r in
    (
      omega (arith, session-slot x.activities, i.slots, i.slots_max, k),
      omega (arith, i.idle_max, k),
    )

-- When no goroutine is under way, all slots are free, and the workers that run are those that are
-- idle, each of them once.
pub workers_kept :
    (n m c : ℕ) (x : Crowd)
    → n ≤ m
    → Reach (new_pool n m c) x
    → x.activities ≡ []
    → (x.pool.slots ≡ 0) × ((w : ℕ) → one (x.pool.running w) ≡ count w x.pool.idle)
workers_kept n m c x h r e =
    let i = Reach-Inv n m c x h r in
    (i.slots ∙ ap (total slot) e, λ w. omega (arith, i.places w, ap (total (held w)) e))
