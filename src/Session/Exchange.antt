-- ===== src/Session/Exchange.antt =====
-- session.go: `executionExchange` with its watchdog, and `observeEvent`.
use monty_go.Common.{
  ℕ, ◌+◌, ◌-◌, ◌*◌, ◌/◌, ◌^◌, List, [], ◌∷◌, Bool, true, ◌&&◌, ◌||◌, not, ltb, min, if◌then◌else◌,
  Option, none, some,
}
use monty_go.Common.Int.{ℤ, to_u64, int64_of}
use monty_go.Events.{ChildEvent}
use monty_go.Requests.{Request, is_positive}
use monty_go.Session.{Session, Answer, gives, refuses, waits, duration_exhausted, crashed}

-- What `worker.exchange` returns: an event, or an error with which the worker is lost or a print
-- callback has failed.
pub data Reply : Type 0 where
  event : ChildEvent → Reply
  lost : Reply

-- int64 arithmetic, which wraps around.
abbrev pub add64 : ℤ → ℤ → ℤ
add64 a b = int64_of (to_u64 a + to_u64 b)

abbrev pub sub64 : ℤ → ℤ → ℤ
sub64 a b = int64_of (to_u64 a + (2 ^ 64 - to_u64 b))

-- `s.maxDuration - s.execution + s.durationGrace`.
unfoldable pub remaining_duration : Session → ℤ
remaining_duration s = add64 (sub64 s.max_duration s.execution) s.duration_grace

-- The watchdog has no time left.
unfoldable pub is_exhausted : Session → Bool
unfolding remaining_duration
is_exhausted s =
    (s.duration_backstop && is_positive s.max_duration) && not (is_positive (remaining_duration s))

abbrev pub max_int64 : ℕ
max_int64 = 2 ^ 63 - 1

-- The sleep limit of an event, in whole microseconds that an int64 of nanoseconds holds.
abbrev pub sleep_limit : ℕ → ℕ
sleep_limit micros = min micros (max_int64 / 1000) * 1000

abbrev pub observe_suspensions : Option ℕ → Session → Session
observe_suspensions none s = s
observe_suspensions (some n) s = record s { max_suspensions = n }

abbrev pub observe_sleep : Option ℕ → Session → Session
observe_sleep none s = s
observe_sleep (some micros) s = record s {
  max_total_sleep =
      if not s.has_sleep_limit || ltb (sleep_limit micros) s.max_total_sleep
      then sleep_limit micros
      else s.max_total_sleep;
  has_sleep_limit = true;
}

unfoldable pub observe_event : Session → ChildEvent → Session
observe_event s e =
    observe_sleep e.max_total_sleep_micros (record (observe_suspensions e.max_suspensions s) {
      execution = int64_of (e.total_execution_micros * 1000);
    })

-- What an exchange comes to, the session then, and the replies that are left.
pub record Exchanged : Type 0 where
  pub answer : Answer ChildEvent
  pub session : Session
  pub rest : List Reply

-- `worker.exchange`.
unfoldable pub worker_exchange : Session → Request → List Reply → Exchanged
worker_exchange s req [] = record {
  answer = waits;
  session = record s { sent = req ∷ s.sent };
  rest = [];
}
worker_exchange s req (lost ∷ rest) = record {
  answer = refuses crashed;
  session = record s { sent = req ∷ s.sent };
  rest = rest;
}
worker_exchange s req (event e ∷ rest) = record {
  answer = gives e;
  session = record s { sent = req ∷ s.sent };
  rest = rest;
}

-- `if err == nil { s.observeEvent(e) }`.
abbrev pub observed : Exchanged → Answer ChildEvent → Exchanged
observed x (gives e) = record x { session = observe_event (x.session) e }
observed x (refuses e) = x
observed x waits = x
observed x Answer.panics = x

unfoldable pub execution_exchange : Session → Request → List Reply → Exchanged
unfolding is_exhausted worker_exchange observe_event
execution_exchange s req replies =
    if is_exhausted s
    then record { answer = refuses duration_exhausted; session = s; rest = replies }
    else (let x = worker_exchange s req replies in observed x x.answer)
