-- ===== src/Session/Advance.antt =====
-- session.go: `runState.progress`, and `classifyRuntime` of errors.go.
use monty_go.Common.{
  ℕ, ◌+◌, ◌-◌, ◌%◌, ◌^◌, List, [], ◌∷◌, Bytes, bytes_eq, Bool, false, ◌==◌, ◌&&◌, ◌||◌, not, ltb,
  leb, min, if◌then◌else◌, Option, none, some, text,
}
use monty_go.Errors.{Result, ok, err, stuck, Run, done, check_in, result_of}
use monty_go.Wire.Proto.{Protowire}
use monty_go.Wire.Fields.{WireField, field_message}
use monty_go.Wire.Parse.{parse_fields, decode_string_field, decode_bytes_field, decode_uint32_list}
use monty_go.Value.Decode.{decode_uuid}
use monty_go.Exceptions.{RaisedException}
use monty_go.Exceptions.Raised.{encode_raised, decode_error_event}
use monty_go.Events.{ChildEvent, decode_complete, decode_function_call, decode_source_range}
use monty_go.Events.OsCall.{OsCall, OsArg, float_arg, decode_os_call}
use monty_go.Requests.{Request, request, req_abort_feed}
use monty_go.Session.{
  Session, RunState, Progress, complete, function_snapshot, os_snapshot, name_snapshot,
  future_snapshot, Answer, gives, refuses, waits, panics, SessionError, protocol, runtime_error,
  syntax_error, typing_error, fatal_error, unexpected_kind, run_at, set_run, cancel_run,
}
use monty_go.Session.Exchange.{
  Reply, event, lost, Exchanged, is_exhausted, observe_event, execution_exchange, max_int64,
}

-- The conversions between float64 seconds, as bits, and nanoseconds: `time.Duration(x *
-- float64(time.Second))` and `Duration.Seconds`.
pub record Clock : Type 0 where
  pub nanoseconds : ℕ → ℕ
  pub seconds : ℕ → ℕ

-- `classifyRuntime`.
unfoldable pub classify_runtime : RaisedException → SessionError
classify_runtime x =
    if bytes_eq x.exception_type (text "SyntaxError")
      || (bytes_eq x.exception_type (text "IndentationError")
          || bytes_eq x.exception_type (text "TabError"))
    then syntax_error x
    else runtime_error x

abbrev pub exception_of : Bytes → Bytes → RaisedException
exception_of kind message = record {
  exception_type = kind;
  message = message;
  frames = [];
  payload = none;
}

abbrev pub too_many_suspensions : RaisedException
too_many_suspensions =
    exception_of (text "RuntimeError") (text "Monty maximum suspension count exceeded")

abbrev pub too_much_sleep : RaisedException
too_much_sleep =
    exception_of (text "TimeoutError") (text "Monty maximum total system sleep exceeded")

-- What one call of `progress` does before it calls itself: it comes to an end, or aborts the feed.
pub data Verdict : Type 0 where
  ends : Answer Progress → Session → Verdict
  aborts : RaisedException → Session → Verdict

abbrev pub is_suspension : ℕ → Bool
is_suspension kind = leb 2 kind && leb kind 5

-- `limit`.
abbrev pub suspension_limit : Session → ℕ
suspension_limit s = if s.max_suspensions == 0 then 1000 else s.max_suspensions

-- A suspension is counted, unless it is the one that was restored. The count is a uint64.
abbrev pub count_suspension : RunState → RunState
count_suspension r =
    if r.restoring
    then record r { restoring = false }
    else record r { suspensions = (r.suspensions + 1) % 2 ^ 64 }

abbrev pub capped_delay : Option ℕ → ℕ → ℕ
capped_delay none delay = delay
capped_delay (some cap) delay = min delay cap

-- The condition under which a system sleep is not granted.
unfoldable pub exceeds_sleep : Session → Bool → ℕ → Bool
exceeds_sleep s charged delay =
    s.has_sleep_limit
    && (ltb s.max_total_sleep s.sleep_used
        || (not charged && ltb (s.max_total_sleep - s.sleep_used) delay))

-- `s.sleepUsed` after a granted sleep.
unfoldable pub charge : Session → Bool → ℕ → Session
charge s charged delay = if charged then s else record s {
  sleep_used = if ltb (max_int64 - s.sleep_used) delay then max_int64 else s.sleep_used + delay;
}

unfoldable pub is_system_sleep : Bytes → Bool
is_system_sleep name =
    bytes_eq name (text "system.sleep") || bytes_eq name (text "system.async_sleep")

-- A system sleep of run `n` whose argument is `bits`; `restoring` is the run's flag at the start.
unfoldable pub sleep_verdict : Clock → ℕ → Bool → Session → OsCall → ℕ → List OsArg → Verdict
unfolding exceeds_sleep charge
sleep_verdict clock n restoring s c bits rest =
    let delay = capped_delay s.system_sleep_max (clock.nanoseconds bits) in
    let r = run_at s.runs n in
    let charged = restoring && r.restore_sleep_charged in
    if exceeds_sleep s charged delay
    then aborts too_much_sleep s
    else ends
        (gives (os_snapshot n r.step (record c { args = float_arg (clock.seconds delay) ∷ rest })))
        (charge s charged delay)

-- `c.Args[0].(float64)`.
unfoldable pub sleep_call_verdict : Clock → ℕ → Bool → Session → OsCall → List OsArg → Verdict
unfolding sleep_verdict
sleep_call_verdict clock n restoring s c (float_arg bits ∷ rest) =
    sleep_verdict clock n restoring s c bits rest
sleep_call_verdict clock n restoring s c other = ends panics s

-- A decoder's error is a protocol error; the decoders return on every input.
abbrev pub decoded {ℓ} : {A : Type ℓ} → Result A → Session → (A → Verdict) → Verdict
decoded (ok a) s f = f a
decoded (err e) s f = ends (refuses (protocol e)) s
decoded stuck s f = ends waits s

abbrev pub no_pending : Session → Session
no_pending s = record s { pending = none }

-- What a call comes to, the session then, and the replies that are left.
pub record Progressed : Type 0 where
  pub answer : Answer Progress
  pub session : Session
  pub rest : List Reply

abbrev pub progressed : Answer Progress → Session → List Reply → Progressed
progressed a s replies = record { answer = a; session = s; rest = replies }

-- The exchange of an abort that gave no event: an error cancels the run.
abbrev pub failed_exchange : ℕ → Exchanged → Answer ChildEvent → Progressed
failed_exchange n x (refuses e) = progressed (refuses e) (cancel_run (x.session) n) x.rest
failed_exchange n x (gives e) = progressed panics x.session x.rest
failed_exchange n x waits = progressed waits x.session x.rest
failed_exchange n x panics = progressed panics x.session x.rest

abbrev pub stopped_by : ℕ → Exchanged → Progressed
stopped_by n x = failed_exchange n x x.answer

-- `executionExchange` with an event as reply.
abbrev pub aborted : Session → Request → ChildEvent → Session
aborted s req e = observe_event (record s { sent = req ∷ s.sent }) e

module _ ⦃w : Protowire⦄ where
  abbrev pub abort_request : RaisedException → Request
  abort_request x = request req_abort_feed (field_message 1 (encode_raised x))

  unfoldable pub object_field : Option Bytes → WireField → Run (Option Bytes)
  object_field id f =
      if f.tag == 2 then check_in id (decode_uuid f.bytes) (λ x. done (some x)) else done id

  module _ (clock : Clock) where
    unfoldable pub os_verdict : ℕ → Bool → Session → OsCall → Verdict
    unfolding sleep_call_verdict is_system_sleep
    os_verdict n restoring s c =
        if is_system_sleep c.name
        then sleep_call_verdict clock n restoring s c c.args
        else ends (gives (os_snapshot n (run_at s.runs n).step c)) s

    -- The switch on the kind of the event.
    unfoldable pub kind_verdict : ℕ → Bool → Session → ChildEvent → Verdict
    unfolding os_verdict object_field classify_runtime
    kind_verdict n restoring s e =
        let step = (run_at s.runs n).step in
        if e.kind == 6
        then decoded (decode_complete e.body) s (λ v. ends (gives (complete v)) (no_pending s))
        else if e.kind == 2
        then decoded (decode_function_call e.body) s
            (λ c. ends (gives (function_snapshot n step c)) s)
        else if e.kind == 3
        then decoded (decode_os_call e.body) s (os_verdict n restoring s)
        else if e.kind == 4
        then decoded (result_of (parse_fields e.body object_field none)) s (λ id.
          ends
            (gives (
              name_snapshot n step (decode_source_range (decode_bytes_field e.body 3))
                (decode_string_field e.body 1) id))
            s)
        else if e.kind == 5
        then ends
            (gives (
              future_snapshot n step (decode_source_range (decode_bytes_field e.body 2))
                (decode_uint32_list e.body 1)))
            s
        else if e.kind == 7
        then decoded (decode_error_event e.body) (no_pending s)
            (λ x. ends (refuses (classify_runtime x)) (no_pending s))
        else if e.kind == 8
        then ends (refuses (typing_error (decode_string_field e.body 1))) (no_pending s)
        else if e.kind == 11
        then ends (refuses (fatal_error (decode_string_field e.body 1))) (no_pending s)
        else ends (refuses (unexpected_kind e.kind)) s

    -- `progress` up to a call of itself.
    unfoldable pub verdict : ℕ → Session → ChildEvent → Verdict
    unfolding kind_verdict
    verdict n s e =
        let restoring = (run_at s.runs n).restoring in
        let s = if (e.kind == 6) || leb 7 e.kind then cancel_run s n else s in
        if is_suspension e.kind
        then (let s = set_run s n (count_suspension (run_at s.runs n)) in
            if ltb (suspension_limit s) (run_at s.runs n).suspensions
            then aborts too_many_suspensions s
            else kind_verdict n restoring s e)
        else kind_verdict n restoring s e

    -- `progress`: an abort is a request to the worker, whose reply is the next event. `restarts` is
    -- what the exchange of the abort came to.
    unfoldable pub progress : ℕ → Session → ChildEvent → List Reply → Progressed
    unfolding verdict execution_exchange
    progress n s e [] = elim (verdict n s e) [
      | ends a t ↦ progressed a t []
      | aborts x t ↦ stopped_by n (execution_exchange t (abort_request x) [])
    ]
    progress n s e (lost ∷ rest) = elim (verdict n s e) [
      | ends a t ↦ progressed a t (lost ∷ rest)
      | aborts x t ↦ stopped_by n (execution_exchange t (abort_request x) (lost ∷ rest))
    ]
    progress n s e (event f ∷ rest) = elim (verdict n s e) [
      | ends a t ↦ progressed a t (event f ∷ rest)
      | aborts x t ↦
          if is_exhausted t
          then stopped_by n (execution_exchange t (abort_request x) (event f ∷ rest))
          else progress n (aborted t (abort_request x) f) f rest
    ]
