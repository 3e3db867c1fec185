-- ===== src/Session/Watchdog.antt =====
-- The watchdog on the execution that the worker reports.
use monty_go.Common.{
  ℕ, ◌+◌, ◌-◌, ◌*◌, ◌^◌, ◌≤◌, ◌<◌, ◌≡◌, refl, ap, ◌∙◌, List, [], ◌∷◌, true, false, not, ltb, Option,
  none, some, arith,
}
use monty_go.Common.Int.{pos, int64_of}
use monty_go.Events.{ChildEvent}
use monty_go.Requests.{Request, is_positive}
use monty_go.Session.{Session, Answer, gives, refuses, duration_exhausted}
use monty_go.Session.Exchange.{
  Reply, event, lost, Exchanged, observe_event, observe_suspensions, observe_sleep, is_exhausted,
  remaining_duration, add64, sub64, worker_exchange, execution_exchange, observed,
}

-- The rest of the budget, by the time `t` that the worker reports.
is_positive-left :
    (d g t : ℕ)
    → t < 2 ^ 63
    → d + g < 2 ^ 63
    → is_positive (add64 (sub64 (pos d) (int64_of t)) (pos g)) ≡ ltb t (d + g)
is_positive-left d g t h k = ground arith

is_positive-wrapped :
    (d g t : ℕ)
    → 2 ^ 63 ≤ t
    → t < 2 ^ 64
    → d + g + (2 ^ 64 - t) < 2 ^ 63
    → is_positive (add64 (sub64 (pos d) (int64_of t)) (pos g)) ≡ true
is_positive-wrapped d g t h k l = ground arith

is_positive-over :
    (d g t : ℕ)
    → d < 2 ^ 63
    → g < 2 ^ 63
    → t < d
    → 2 ^ 63 + t ≤ d + g
    → is_positive (add64 (sub64 (pos d) (int64_of t)) (pos g)) ≡ false
is_positive-over d g t h k l m = ground arith

-- The event sets the time, and keeps the budget.
record Timed (s t : Session) (e : ChildEvent) : Type 0 where
  backstop : t.duration_backstop ≡ s.duration_backstop
  duration : t.max_duration ≡ s.max_duration
  grace : t.duration_grace ≡ s.duration_grace
  execution : t.execution ≡ int64_of (e.total_execution_micros * 1000)
  sent : t.sent ≡ s.sent

Timed-observe_event : (s : Session) (e : ChildEvent) → Timed s (observe_event s e) e
unfolding observe_event
Timed-observe_event s e = timed e.max_suspensions e.max_total_sleep_micros
  where
    timed :
        (o p : Option ℕ)
        → Timed s
            (observe_sleep p (record (observe_suspensions o s) {
              execution = int64_of (e.total_execution_micros * 1000);
            }))
            e
    timed none none = record {
      backstop = refl;
      duration = refl;
      grace = refl;
      execution = refl;
      sent = refl;
    }
    timed none (some p) = record {
      backstop = refl;
      duration = refl;
      grace = refl;
      execution = refl;
      sent = refl;
    }
    timed (some o) none = record {
      backstop = refl;
      duration = refl;
      grace = refl;
      execution = refl;
      sent = refl;
    }
    timed (some o) (some p) = record {
      backstop = refl;
      duration = refl;
      grace = refl;
      execution = refl;
      sent = refl;
    }

exhausted_after :
    (s : Session) (e : ChildEvent) (d g : ℕ)
    → s.duration_backstop ≡ true
    → s.max_duration ≡ pos d
    → s.duration_grace ≡ pos g
    → 0 < d
    → is_exhausted (observe_event s e)
      ≡ not
          (is_positive (add64 (sub64 (pos d) (int64_of (e.total_execution_micros * 1000))) (pos g)))
unfolding is_exhausted remaining_duration
exhausted_after s e d g a b c h =
    let t = Timed-observe_event s e in
    rw (t.backstop ∙ a, t.duration ∙ b, t.grace ∙ c, t.execution) (ground arith)

observed_sent :
    (x : Exchanged) (a : Answer ChildEvent) → (observed x a).session.sent ≡ x.session.sent
observed_sent x (gives e) = (Timed-observe_event x.session e).sent
observed_sent x (refuses e) = refl
observed_sent x Answer.waits = refl
observed_sent x Answer.panics = refl

worker_exchange_sent :
    (s : Session) (req : Request) (replies : List Reply)
    → (worker_exchange s req replies).session.sent ≡ req ∷ s.sent
unfolding worker_exchange
worker_exchange_sent s req [] = refl
worker_exchange_sent s req (lost ∷ rest) = refl
worker_exchange_sent s req (event e ∷ rest) = refl

-- A watchdog with time left lets the request through.
asked :
    (s t : Session) (e : ChildEvent) (req : Request) (replies : List Reply)
    → Timed s t e
    → is_exhausted t ≡ false
    → (execution_exchange t req replies).session.sent ≡ req ∷ s.sent
unfolding execution_exchange
asked s t e req replies h k =
    let x = worker_exchange t req replies in
    rw (k) (observed_sent x x.answer ∙ worker_exchange_sent t req replies ∙ ap (◌∷◌ req) h.sent)

-- After an event that reports `micros` of execution, within int64 nanoseconds, of a session with
-- the watchdog and a positive duration which with the grace is below 2 ^ 63 ns: when both are used
-- up, the next exchange fails at once and neither asks the worker nor takes a reply; until then it
-- asks the worker.
pub watchdog-observe_event :
    (s : Session) (e : ChildEvent) (req : Request) (replies : List Reply) (d g : ℕ)
    → s.duration_backstop ≡ true
    → s.max_duration ≡ pos d
    → s.duration_grace ≡ pos g
    → 0 < d
    → d + g < 2 ^ 63
    → e.total_execution_micros * 1000 < 2 ^ 63
    → let t = observe_event s e in
      let x = execution_exchange t req replies in
      (d + g ≤ e.total_execution_micros * 1000
        → x ≡ record { answer = refuses duration_exhausted; session = t; rest = replies })
      × (e.total_execution_micros * 1000 < d + g → x.session.sent ≡ req ∷ s.sent)
unfolding execution_exchange
watchdog-observe_event s e req replies d g a b c h k l =
    let t = observe_event s e in
    let left =
      exhausted_after s e d g a b c h
      ∙ ap not (is_positive-left d g (e.total_execution_micros * 1000) l k) in
    (
      λ used. let over : is_exhausted t ≡ true = left ∙ ground arith in rw (over) refl,
      λ free. asked s t e req replies (Timed-observe_event s e) (left ∙ ground arith),
    )

-- A worker that reports from 2 ^ 63 to 2 ^ 64 - 1 ns of execution makes the count negative: where
-- the positive duration of a session with the watchdog, the grace and what the report lacks to
-- 2 ^ 64 ns are together below 2 ^ 63 ns, the exchange after that asks the worker, although the
-- report is more than the whole budget.
pub watchdog-observe_event_wrapped :
    (s : Session) (e : ChildEvent) (req : Request) (replies : List Reply) (d g : ℕ)
    → s.duration_backstop ≡ true
    → s.max_duration ≡ pos d
    → s.duration_grace ≡ pos g
    → 0 < d
    → 2 ^ 63 ≤ e.total_execution_micros * 1000
    → e.total_execution_micros * 1000 < 2 ^ 64
    → d + g + (2 ^ 64 - e.total_execution_micros * 1000) < 2 ^ 63
    → (execution_exchange (observe_event s e) req replies).session.sent ≡ req ∷ s.sent
watchdog-observe_event_wrapped s e req replies d g a b c h k l m =
    asked s (observe_event s e) e req replies (Timed-observe_event s e) (
      exhausted_after s e d g a b c h
      ∙ ap not (is_positive-wrapped d g (e.total_execution_micros * 1000) k l m))

-- In a session with the watchdog, whose duration and grace are int64: when an event reports less
-- than the duration, but what is left of it and the grace are together 2 ^ 63 ns or more, the sum is
-- negative, and the next exchange fails at once as if the duration were exhausted.
pub watchdog-observe_event_overflow :
    (s : Session) (e : ChildEvent) (req : Request) (replies : List Reply) (d g : ℕ)
    → s.duration_backstop ≡ true
    → s.max_duration ≡ pos d
    → s.duration_grace ≡ pos g
    → d < 2 ^ 63
    → g < 2 ^ 63
    → e.total_execution_micros * 1000 < d
    → 2 ^ 63 + e.total_execution_micros * 1000 ≤ d + g
    → let t = observe_event s e in
      execution_exchange t req replies
      ≡ record { answer = refuses duration_exhausted; session = t; rest = replies }
unfolding execution_exchange
watchdog-observe_event_overflow s e req replies d g a b c h k l m =
    let t = observe_event s e in
    let over : is_exhausted t ≡ true =
      exhausted_after s e d g a b c (omega arith)
      ∙ ap not (is_positive-over d g (e.total_execution_micros * 1000) h k l m) in
    rw (over) refl
