-- ===== src/Session/Charged.antt =====
-- The sleep that a session has used over a call of `progress`.
use monty_go.Common.{
  ℕ, ◌≤◌, ◌<◌, ◌+◌, ◌≡◌, ◌≢◌, ◌⊎◌, refl, sym, ap, ◌∙◌, List, ◌∷◌, length, Bool, true, false, ◌==◌,
  ◌&&◌, min, if◌then◌else◌, arith, ==_iff,
}
use mathlib.Core.Path.{subst}
use monty_go.Events.{ChildEvent}
use monty_go.Events.OsCall.{OsCall, OsArg, float_arg}
use monty_go.Requests.{Request}
use monty_go.Session.{Session, RunState, Progress, os_snapshot, run_at}
use monty_go.Session.Exchange.{max_int64}
use monty_go.Session.Advance.{Clock, exceeds_sleep, charge, capped_delay, is_system_sleep, aborted}
use monty_go.Session.Kept.{length-put_run}
use monty_go.Session.Carried.{counted_in-IsRecounted, aborted-Carries, charge-Carries}
use monty_go.Session.Spends.{counted_in, choose_second, Grant}

-- The suspension is the restored one, its sleep was charged, and no abort came before it.
abbrev pub is_paid : ℕ → Session → Session → Bool
is_paid n s t =
    ((run_at s.runs n).restoring && (run_at s.runs n).restore_sleep_charged)
    && (length t.sent == length s.sent)

-- What a system sleep is, and what it adds to the sleep that is used, between `s` and `t`.
abbrev pub Slept : Clock → ℕ → Session → OsCall → Session → Type 0
Slept clock n s c t =
    (length s.sent ≤ length t.sent)
    × ((bits : ℕ) × (delay : ℕ) × (rest : List OsArg) × (delay
          ≡ capped_delay s.system_sleep_max (clock.nanoseconds bits))
        × (c.args ≡ float_arg (clock.seconds delay) ∷ rest)
        × (t.sleep_used
            ≡ (if is_paid n s t then s.sleep_used else min (s.sleep_used + delay) max_int64)))
    × ((t.has_sleep_limit ≡ false) ⊎ (t.sleep_used ≤ t.max_total_sleep))

abbrev pub Sleeps : Clock → ℕ → Session → Progress → Session → Type 0
Sleeps clock n s p t =
    (m step : ℕ) (c : OsCall)
    → p ≡ os_snapshot m step c
    → is_system_sleep c.name ≡ true
    → n < length s.runs
    → s.sleep_used ≤ max_int64
    → Slept clock n s c t

-- A sleep that is granted leaves a usage within the limit.
charge-IsSlept :
    (s : Session) (b : Bool) (delay : ℕ)
    → exceeds_sleep s b delay ≡ false
    → s.sleep_used ≤ max_int64
    → let t = charge s b delay in
      (t.sleep_used ≡ (if b then s.sleep_used else min (s.sleep_used + delay) max_int64))
      × ((t.has_sleep_limit ≡ false) ⊎ (t.sleep_used ≤ t.max_total_sleep))
unfolding exceeds_sleep charge
charge-IsSlept s true delay h k = ground arith
charge-IsSlept s false delay h k = ground arith

same_count : (x y : ℕ) → x ≡ y → (x == y) ≡ true
same_count x y h = ground (arith, ==_iff x y)

other_count : (x y : ℕ) → x ≢ y → (x == y) ≡ false
other_count x y h = ground (arith, ==_iff x y)

all_of : (r g k e : Bool) → k ≡ g → e ≡ true → ((r && g) && e) ≡ (r && k)
all_of true g k true h i = g_true ∙ sym h
  where
    g_true : (g && true) ≡ g
    g_true = ground arith
all_of false g k true h i = refl
all_of r g k false h i = absurd (cc)

none_of : (a e : Bool) → e ≡ false → (a && e) ≡ false
none_of true e h = h
none_of false e h = refl

pub granted-Slept :
    (clock : Clock) (n : ℕ) (s : Session) (c : OsCall) (b : Bool) (delay : ℕ)
    → n < length s.runs
    → s.sleep_used ≤ max_int64
    → Grant clock n (run_at s.runs n).restoring (counted_in n s) c b delay
    → Slept clock n s c (charge (counted_in n s) b delay)
granted-Slept clock n s c b delay h k (e, x, (bits, rest, d, a)) =
    let cs = counted_in n s in
    let sent = ap length (charge-Carries cs b delay).sent in
    let (used, limit) = charge-IsSlept cs b delay x k in
    let r = (run_at s.runs n).restoring in
    let paid =
      all_of r _ _ _ (counted_in-IsRecounted n s h).charged (same_count _ _ sent) ∙ sym e in
    (
      omega arith,
      (
        bits,
        delay,
        rest,
        d,
        a,
        subst
            (λ q.
              (charge cs b delay).sleep_used
              ≡ (if q then s.sleep_used else min (s.sleep_used + delay) max_int64))
            (sym paid) used,
      ),
      limit,
    )

-- An abort on the way charges nothing.
pub aborted-Slept :
    (clock : Clock) (n : ℕ) (s : Session) (req : Request) (f : ChildEvent) (p : Progress)
    (t : Session)
    → Sleeps clock n (aborted (counted_in n s) req f) p t
    → Sleeps clock n s p t
aborted-Slept clock n s req f p t again m step c e q h k =
    let cs = counted_in n s in
    let w = aborted cs req f in
    let (kept, used) = aborted-Carries cs req f in
    let same = ap (λ rs. run_at rs n) kept.runs in
    let asked = ap length kept.sent in
    let many = ap length kept.runs ∙ length-put_run s.runs n _ in
    let (more, (bits, delay, rest, d, a, spent), limit) =
      again m step c e q (omega arith) (omega arith) in
    let later : (length t.sent == length s.sent) ≡ false =
      other_count _ _ (λ z. absurd (omega arith)) in
    let unpaid : is_paid n s t ≡ false = none_of _ _ later in
    let restored : (run_at w.runs n).restoring ≡ false =
      ap (λ (r : RunState). r.restoring) same ∙ (counted_in-IsRecounted n s h).again in
    let unpaid_then : is_paid n w t ≡ false = rw (restored) refl in
    let sum = λ (u : ℕ). min (u + delay) max_int64 in
    (
      omega arith,
      (
        bits,
        delay,
        rest,
        d ∙ ap (λ o. capped_delay o (clock.nanoseconds bits)) kept.cap,
        a,
        spent
            ∙ choose_second _ w.sleep_used (sum w.sleep_used) unpaid_then
            ∙ ap sum used
            ∙ sym (choose_second _ s.sleep_used (sum s.sleep_used) unpaid),
      ),
      limit,
    )
