-- ===== src/Session/Carried.antt =====
-- What counting a suspension, charging a sleep and observing an event do to the budgets.
use monty_go.Common.{
  ℕ, zero, suc, ◌<◌, ◌+◌, ◌%◌, ◌^◌, ◌≡◌, refl, sym, List, [], ◌∷◌, length, Bool, true, false,
  if◌then◌else◌, Option, none, some, arith,
}
use monty_go.Common.Int.{ℤ}
use mathlib.Core.Path.{subst}
use monty_go.Events.{ChildEvent}
use monty_go.Requests.{Request}
use monty_go.Session.{Session, RunState, run_at, put_run}
use monty_go.Session.Exchange.{observe_event, observe_sleep, observe_suspensions}
use monty_go.Session.Advance.{suspension_limit, count_suspension, charge, aborted}
use monty_go.Session.Spends.{counted_in, if_cases}

run_at-put_run :
    (rs : List RunState) (n : ℕ) (r : RunState) → n < length rs → run_at (put_run rs n r) n ≡ r
run_at-put_run [] n r h = absurd (omega arith)
run_at-put_run (x ∷ rs) zero r h = refl
run_at-put_run (x ∷ rs) (suc n) r h = run_at-put_run rs n r (omega arith)

-- What counting a suspension does to a run.
pub record IsRecounted (r q : RunState) : Type 0 where
  pub bounded : r.suspensions < 2 ^ 64 → q.suspensions < 2 ^ 64
  pub total :
      r.suspensions < 2 ^ 64
      → q.suspensions ≡ (r.suspensions + (if r.restoring then 0 else 1)) % 2 ^ 64
  pub again : q.restoring ≡ false
  pub charged : q.restore_sleep_charged ≡ r.restore_sleep_charged

count_suspension-IsRecounted : (r : RunState) → IsRecounted r (count_suspension r)
count_suspension-IsRecounted r =
    if_cases (IsRecounted r) r.restoring _ _
      (λ k. record {
        bounded = λ h. h;
        total = λ h. rw (k) (omega arith);
        again = refl;
        charged = refl;
      })
      (λ k. record {
        bounded = λ h. omega arith;
        total = λ h. rw (k) refl;
        again = k;
        charged = refl;
      })

pub counted_in-IsRecounted :
    (n : ℕ) (s : Session)
    → n < length s.runs
    → IsRecounted (run_at s.runs n) (run_at (counted_in n s).runs n)
counted_in-IsRecounted n s h =
    subst (IsRecounted (run_at s.runs n)) (sym (run_at-put_run s.runs n _ h))
      (count_suspension-IsRecounted (run_at s.runs n))

-- The fields of the budgets that an event and a charge leave.
pub record Carries (s t : Session) : Type 0 where
  pub runs : t.runs ≡ s.runs
  pub sent : t.sent ≡ s.sent
  pub cap : t.system_sleep_max ≡ s.system_sleep_max

observe-Carries :
    (o q : Option ℕ) (x : ℤ) (s : Session)
    → let t = observe_sleep q (record (observe_suspensions o s) { execution = x }) in
      Carries s t × (t.sleep_used ≡ s.sleep_used)
observe-Carries none none x s = (record { runs = refl; sent = refl; cap = refl }, refl)
observe-Carries none (some m) x s = (record { runs = refl; sent = refl; cap = refl }, refl)
observe-Carries (some k) none x s = (record { runs = refl; sent = refl; cap = refl }, refl)
observe-Carries (some k) (some m) x s = (record { runs = refl; sent = refl; cap = refl }, refl)

pub aborted-Carries :
    (s : Session) (req : Request) (f : ChildEvent)
    → Carries (record s { sent = req ∷ s.sent }) (aborted s req f)
      × ((aborted s req f).sleep_used ≡ s.sleep_used)
unfolding observe_event
aborted-Carries s req f = observe-Carries f.max_suspensions f.max_total_sleep_micros _ _

pub charge-Carries : (s : Session) (b : Bool) (delay : ℕ) → Carries s (charge s b delay)
unfolding charge
charge-Carries s true delay = record { runs = refl; sent = refl; cap = refl }
charge-Carries s false delay = record { runs = refl; sent = refl; cap = refl }

pub charge-limit :
    (s : Session) (b : Bool) (delay : ℕ) → suspension_limit (charge s b delay) ≡ suspension_limit s
unfolding charge
charge-limit s true delay = refl
charge-limit s false delay = refl
