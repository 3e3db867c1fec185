-- ===== src/Examples/Sessions.antt =====
-- Sessions at concrete inputs.
use monty_go.Common.{
  ◌^◌, ◌-◌, ℕ, ◌≤◌, ◌<◌, ◌≡◌, ◌≢◌, [], ◌∷◌, refl, bytes_eq, true, false, none, some, arith, text,
}
use monty_go.Common.Int.{pos}
use monty_go.Wire.Fields.{field_bytes}
use monty_go.Wire.Parse.{
  decode_bytes_field, decode_string_field, parse_fields, parse_loop, next_field, string_field,
}
use monty_go.Wire.Plain.{plain, plain-Laws}
use monty_go.Events.{ChildEvent, decode_source_range, blank_event}
use monty_go.Events.OsCall.{
  OsCall, float_arg, decode_os_call, os_call_field, os_call, sleep_call, seconds_field,
}
use monty_go.Requests.{Request, request, req_feed}
use monty_go.Session.{
  Session, Progress, os_snapshot, Answer, gives, refuses, waits, active_turn, duration_exhausted,
}
use monty_go.Session.Exchange.{event, lost, observe_event, execution_exchange}
use monty_go.Session.Advance.{Clock, Progressed, progress, is_system_sleep}
use monty_go.Session.Operations.{
  called, begin_feed, begin_resume, begin_close, finish_feed, snapshot_dump, dump,
  install_dependencies,
}
use monty_go.Session.Load.{load}
use monty_go.Session.Machine.{
  feed_turn, resume_turn, System, system, IsFresh, Reach, starts, later, feed_begins, feed_ends,
  resume_begins,
}
use monty_go.Session.Invariant.{IsDistinct}
use monty_go.Session.Turns.{
  IsRefused, IsTurn, at_most_one-IsTurn, answered_once, answered_IsRefused, turn_IsRefused,
}
use monty_go.Session.Charged.{Slept}
use monty_go.Session.Budget.{Counted, progress-IsCounted, progress-IsSlept}
use monty_go.Session.Answers.{IsSettled, progress-IsSettled}
use monty_go.Session.Watchdog.{
  watchdog-observe_event, watchdog-observe_event_wrapped, watchdog-observe_event_overflow,
}

abbrev clock : Clock
clock = record { nanoseconds = λ n. n; seconds = λ n. n }

abbrev fresh : Session
fresh = record {
  script_name = text "main.py";
  closed = false;
  used = false;
  in_turn = false;
  pending = none;
  max_duration = pos 5_000_000;
  max_suspensions = 2;
  max_total_sleep = 100;
  has_sleep_limit = true;
  sleep_used = 40;
  system_sleep_max = some 50;
  execution = pos 0;
  duration_grace = pos 1_000_000;
  duration_backstop = true;
  runs = [];
  sent = [];
}

fresh-IsFresh : IsFresh fresh
fresh-IsFresh = record {
  is_open = refl;
  unused = refl;
  no_turn = refl;
  no_pending = refl;
  no_runs = refl;
}

-- An event with a kind, an empty body, and a time of execution.
abbrev event_of : ℕ → ℕ → ChildEvent
event_of kind micros = record blank_event { kind = kind; total_execution_micros = micros }

abbrev feed : Request
feed = request req_feed []

abbrev fed : Session
fed = (begin_feed fresh).session

abbrev suspended : Session
suspended = (finish_feed clock fed 0 feed (event (event_of 5 10) ∷ [])).session

abbrev resumed : Session
resumed = (begin_resume suspended 0 0).session

fed-Reach : Reach clock fresh (system fed (feed_turn 0 ∷ []) [])
unfolding begin_feed
fed-Reach = later starts (feed_begins 0 refl refl)

gives_something : {p : Progress} {a : Answer Progress} → a ≡ gives p → a ≢ waits
gives_something h k = cc

suspended-Reach : Reach clock fresh (system suspended [] [])
unfolding begin_feed finish_feed
suspended-Reach =
    later fed-Reach
      (feed_ends 0 [] [] feed (event (event_of 5 10) ∷ []) refl refl (gives_something refl))

abbrev answered : System
answered = system resumed (resume_turn 0 ∷ []) ((0, 0) ∷ [])

answered-Reach : Reach clock fresh answered
unfolding begin_feed finish_feed begin_resume
answered-Reach = later suspended-Reach (resume_begins 0 0 refl refl)

at_most_one-IsTurn_example : IsTurn answered
at_most_one-IsTurn_example = at_most_one-IsTurn clock fresh answered fresh-IsFresh answered-Reach

answered_once_example : IsDistinct (answered.begun)
answered_once_example = answered_once clock fresh answered fresh-IsFresh answered-Reach

answered_IsRefused_example :
    IsRefused resumed (begin_resume resumed 0 0) × IsRefused resumed (snapshot_dump resumed 0 0 [])
answered_IsRefused_example =
    answered_IsRefused clock fresh answered 0 0 [] [] [] fresh-IsFresh answered-Reach refl

turn_IsRefused_example :
    IsRefused fed (begin_feed fed)
    × IsRefused fed (begin_resume fed 0 0)
    × (begin_close fed ≡ called (refuses active_turn) fed)
    × IsRefused fed (dump fed [])
    × IsRefused fed (install_dependencies fed [] [])
    × IsRefused fed (load clock fed [] [])
turn_IsRefused_example =
    turn_IsRefused clock plain-Laws fresh (system fed (feed_turn 0 ∷ []) []) (feed_turn 0) [] 0 0 []
      [] [] fresh-IsFresh fed-Reach refl

progress-IsCounted_example : Counted 0 fed (progress clock 0 fed (event_of 5 10) []).session
unfolding progress begin_feed
progress-IsCounted_example =
    progress-IsCounted clock 0 fed (event_of 5 10) [] _ refl refl (omega arith) (omega arith)

-- A call of `system.sleep` whose seconds have the bits of 30.
abbrev sleep : ChildEvent
sleep = record (event_of 3 10) { body = 234 ∷ 1 ∷ 9 ∷ 9 ∷ 30 ∷ 0 ∷ 0 ∷ 0 ∷ 0 ∷ 0 ∷ 0 ∷ 0 ∷ [] }

abbrev slept : Progressed
slept = progress clock 0 fed sleep []

abbrev sleep_call_of : OsCall
sleep_call_of = record {
  position = record { filename = []; start = 0; end_ = 0 };
  name = text "system.sleep";
  args = float_arg 30 ∷ [];
  call_id = 0;
  allow_eager_await = false;
}

slept_answer : slept.answer ≡ gives (os_snapshot 0 0 sleep_call_of)
unfolding progress begin_feed decode_os_call parse_fields parse_loop next_field plain os_call_field
    os_call sleep_call seconds_field bytes_eq decode_source_range decode_bytes_field string_field
    decode_string_field
slept_answer = refl

progress-IsSlept_example : Slept clock 0 fed sleep_call_of slept.session
unfolding is_system_sleep bytes_eq progress begin_feed decode_os_call parse_fields parse_loop
    next_field plain os_call_field os_call sleep_call seconds_field
progress-IsSlept_example =
    progress-IsSlept clock 0 fed sleep [] 0 0 sleep_call_of slept_answer refl (omega arith)
      (omega arith)

progress-IsSettled_example :
    IsSettled (progress clock 0 fed (event_of 3 10) (event (event_of 3 10) ∷ lost ∷ [])).answer
progress-IsSettled_example =
    progress-IsSettled plain-Laws clock 0 fed (event_of 3 10) (event (event_of 3 10) ∷ []) [] lost
      tt

watchdog-observe_event_example :
    let t = observe_event fresh (event_of 6 6_000) in
    let x = execution_exchange t feed [] in
    (6_000_000 ≤ 6_000_000
      → x ≡ record { answer = refuses duration_exhausted; session = t; rest = [] })
    × (6_000_000 < 6_000_000 → x.session.sent ≡ feed ∷ [])
watchdog-observe_event_example =
    watchdog-observe_event fresh (event_of 6 6_000) feed [] 5_000_000 1_000_000 refl refl refl
      (omega arith) (omega arith) (omega arith)

watchdog-observe_event_wrapped_example :
    (execution_exchange
      (observe_event fresh (event_of 6 18_000_000_000_000_000))
      feed
      []).session.sent
    ≡ feed ∷ []
watchdog-observe_event_wrapped_example =
    watchdog-observe_event_wrapped fresh (event_of 6 18_000_000_000_000_000) feed [] 5_000_000
      1_000_000 refl refl refl (omega arith) (omega arith) (omega arith) (omega arith)

-- A session whose duration is the largest int64.
abbrev unbounded : Session
unbounded = record fresh { max_duration = pos (2 ^ 63 - 1) }

watchdog-observe_event_overflow_example :
    let t = observe_event unbounded (event_of 6 10) in
    execution_exchange t feed []
    ≡ record { answer = refuses duration_exhausted; session = t; rest = [] }
watchdog-observe_event_overflow_example =
    watchdog-observe_event_overflow unbounded (event_of 6 10) feed [] (2 ^ 63 - 1) 1_000_000 refl
      refl refl (omega arith) (omega arith) (omega arith) (omega arith)

abbrev dumped : ChildEvent
dumped = record (event_of 9 10) { body = field_bytes 1 (7 ∷ []) }
