-- ===== src/Session/Operations.antt =====
-- session.go: the critical sections of the session's methods. A turn has two: one before and one
-- after the exchange with the worker, during which the mutex is free.
use monty_go.Common.{
  ℕ, suc, List, [], ◌∷◌, ◌++◌, Bytes, length, Bool, true, false, ◌==◌, not, if◌then◌else◌, Option,
  none, some,
}
use monty_go.Common.Int.{pos}
use monty_go.Errors.{ok, err, stuck}
use monty_go.Wire.Proto.{Protowire}
use monty_go.Wire.Fields.{field_string}
use monty_go.Wire.Parse.{decode_bytes_field, decode_string_field}
use monty_go.Snapshot.{SnapshotMetadata, encode_snapshot}
use monty_go.Exceptions.Raised.{decode_error_event}
use monty_go.Events.{ChildEvent}
use monty_go.Requests.{Request, request, req_dump, req_install, req_reset}
use monty_go.Session.{
  Session, Progress, complete, Answer, gives, refuses, waits, panics, closed_session,
  suspended_feed, active_turn, foreign_snapshot, already_resumed, inactive_snapshot, protocol,
  typing_error, fatal_error, unexpected_kind, new_run, run_at, set_run, cancel_run,
}
use monty_go.Session.Exchange.{Reply, Exchanged, worker_exchange, execution_exchange}
use monty_go.Session.Advance.{Clock, Progressed, progress, classify_runtime}

-- A result and the session afterwards.
pub record Called {ℓ} (A : Type ℓ) : Type ℓ where
  pub answer : Answer A
  pub session : Session

abbrev pub called {ℓ} : {A : Type ℓ} → Answer A → Session → Called A
called a s = record { answer = a; session = s }

abbrev pub is_none {ℓ} : {A : Type ℓ} → Option A → Bool
is_none none = true
is_none (some a) = false

-- `s.pending == r`.
abbrev pub is_pending : Option ℕ → ℕ → Bool
is_pending none n = false
is_pending (some m) n = m == n

-- The first section of `FeedStart`: it makes a run.
unfoldable pub begin_feed : Session → Called ℕ
begin_feed s =
    if s.closed
    then called (refuses closed_session) s
    else if not (is_none s.pending)
    then called (refuses suspended_feed) s
    else if s.in_turn
    then called (refuses active_turn) s
    else called (gives (length s.runs))
        (record s { used = true; in_turn = true; runs = s.runs ++ (new_run ∷ []) })

-- The first section of `runState.exchange`.
unfoldable pub begin_resume : Session → ℕ → ℕ → Called (Unit {0})
begin_resume s n step =
    if s.closed
    then called (refuses closed_session) s
    else if not (is_pending s.pending n)
    then called (refuses foreign_snapshot) s
    else if s.in_turn
    then called (refuses active_turn) s
    else if not ((run_at s.runs n).step == step)
    then called (refuses already_resumed) s
    else (let r = run_at s.runs n in
        called (gives tt)
          (record (set_run s n (record r { step = suc r.step })) { in_turn = true }))

-- The pending run is cancelled.
abbrev pub close_run : Session → Option ℕ → Called Bool
close_run s none = called (gives true) (record s { closed = true })
close_run s (some n) =
    called (gives true) (record (cancel_run s n) { closed = true; pending = none })

-- `Close` up to the exchange, and whether there is one: a closed session is left alone.
unfoldable pub begin_close : Session → Called Bool
begin_close s =
    if s.closed
    then called (gives false) s
    else if s.in_turn
    then called (refuses active_turn) s
    else close_run s s.pending

abbrev pub is_complete : Progress → Bool
is_complete (complete v) = true
is_complete other = false

-- The end of `FeedStart`: a suspended feed becomes the pending one.
abbrev pub keep_pending : ℕ → Answer Progress → Session → Session
keep_pending n (gives p) s = if is_complete p then s else record s { pending = some n }
keep_pending n other s = s

-- The end of a lost exchange.
abbrev pub no_turn : Session → Session
no_turn s = record s { in_turn = false }

module _ ⦃w : Protowire⦄ where
  -- `eventErrorValue` of pool.go.
  unfoldable pub event_error_value : ChildEvent → Answer (Unit {0})
  unfolding classify_runtime
  event_error_value e =
      if e.kind == 7
      then (elim (decode_error_event e.body) [
        | ok x ↦ refuses (classify_runtime x)
        | err x ↦ refuses (protocol x)
        | stuck ↦ waits
      ])
      else if e.kind == 8
      then refuses (typing_error (decode_string_field e.body 1))
      else if e.kind == 11
      then refuses (fatal_error (decode_string_field e.body 1))
      else refuses (unexpected_kind e.kind)

  abbrev pub refused {ℓ} : {A : Type ℓ} → Answer (Unit {0}) → Answer A
  refused (refuses e) = refuses e
  refused (gives u) = panics
  refused waits = waits
  refused panics = panics

  -- After `worker.exchange` of a dump: `metadata` is the host's part.
  abbrev pub dump_result : SnapshotMetadata → Exchanged → Answer ChildEvent → Called Bytes
  dump_result metadata x (gives e) =
      if not (e.kind == 9)
      then called (refused (event_error_value e)) x.session
      else called (gives (encode_snapshot (decode_bytes_field e.body 1) metadata)) x.session
  dump_result metadata x (refuses e) = called (refuses e) x.session
  dump_result metadata x waits = called waits x.session
  dump_result metadata x panics = called panics x.session

  abbrev pub host_metadata : Session → ℕ → SnapshotMetadata
  host_metadata s suspensions = record {
    duration = s.max_duration;
    suspensions = suspensions;
    sleep_used = pos s.sleep_used;
    has_sleep_usage = false;
  }

  -- `snapshotDump`, of a snapshot of run `n` at `step`.
  unfoldable pub snapshot_dump : Session → ℕ → ℕ → List Reply → Called Bytes
  unfolding worker_exchange event_error_value encode_snapshot
  snapshot_dump s n step replies =
      if s.closed
      then called (refuses closed_session) s
      else if not (is_pending s.pending n)
      then called (refuses inactive_snapshot) s
      else if not ((run_at s.runs n).step == step)
      then called (refuses already_resumed) s
      else (let x = worker_exchange s (request req_dump []) replies in
          dump_result (host_metadata s (run_at s.runs n).suspensions) x x.answer)

  -- `Session.Dump`.
  unfoldable pub dump : Session → List Reply → Called Bytes
  unfolding worker_exchange event_error_value encode_snapshot
  dump s replies =
      if s.closed
      then called (refuses closed_session) s
      else if not (is_none s.pending)
      then called (refuses suspended_feed) s
      else if s.in_turn
      then called (refuses active_turn) s
      else (let x = worker_exchange s (request req_dump []) replies in
          dump_result (host_metadata s 0) x x.answer)

  abbrev pub install_result : Exchanged → Answer ChildEvent → Called (Unit {0})
  install_result x (gives e) =
      if not (e.kind == 10)
      then called (event_error_value e) x.session
      else called (gives tt) x.session
  install_result x (refuses e) = called (refuses e) x.session
  install_result x waits = called waits x.session
  install_result x panics = called panics x.session

  abbrev pub requirement_fields : List Bytes → Bytes
  requirement_fields [] = []
  requirement_fields (r ∷ rs) = field_string 1 r ++ requirement_fields rs

  unfoldable pub install_dependencies : Session → List Bytes → List Reply → Called (Unit {0})
  unfolding worker_exchange event_error_value
  install_dependencies s requirements replies =
      if s.closed
      then called (refuses closed_session) s
      else if not (is_none s.pending)
      then called (refuses suspended_feed) s
      else if s.in_turn
      then called (refuses active_turn) s
      else (let x =
            worker_exchange s (request req_install (requirement_fields requirements)) replies in
          install_result x x.answer)

  -- The end of `Close`: the reset of the worker, and whether the pool can use it again.
  unfoldable pub finish_close : Session → List Reply → Called Bool
  unfolding worker_exchange
  finish_close s replies =
      let x = worker_exchange s (request req_reset []) replies in
      elim (x.answer) [
        | gives e ↦ called (gives (e.kind == 10)) x.session
        | refuses e ↦ called (gives false) x.session
        | waits ↦ called waits x.session
        | panics ↦ called panics x.session
      ]

  module _ (clock : Clock) where
    abbrev pub finished_feed : ℕ → Progressed → Called Progress
    finished_feed n p = called p.answer (keep_pending n p.answer p.session)

    -- The exchange and the second section of `FeedStart` for run `n`.
    unfoldable pub finish_feed : Session → ℕ → Request → List Reply → Called Progress
    unfolding execution_exchange progress
    finish_feed s n req replies =
        let x = execution_exchange s req replies in
        elim (x.answer) [
          | gives e ↦ finished_feed n (progress clock n (no_turn x.session) e x.rest)
          | refuses e ↦ called (refuses e) (cancel_run (no_turn x.session) n)
          | waits ↦ called waits x.session
          | panics ↦ called panics (no_turn x.session)
        ]

    abbrev pub finished : Progressed → Called Progress
    finished p = called p.answer p.session

    -- The exchange and the second section of `runState.exchange`.
    unfoldable pub finish_resume : Session → ℕ → Request → List Reply → Called Progress
    unfolding execution_exchange progress
    finish_resume s n req replies =
        let x = execution_exchange s req replies in
        elim (x.answer) [
          | gives e ↦ finished (progress clock n (no_turn x.session) e x.rest)
          | refuses e ↦
              called (refuses e) (cancel_run (record (no_turn x.session) { pending = none }) n)
          | waits ↦ called waits x.session
          | panics ↦ called panics (no_turn x.session)
        ]
