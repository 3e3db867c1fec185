-- ===== src/Session/Load.antt =====
-- session.go: `load`, `LoadSession` and `LoadSnapshot`, which restore a dump into a fresh session.
use monty_go.Common.{
  ℕ, List, [], ◌∷◌, ◌++◌, Bytes, length, Bool, true, false, ◌==◌, ◌&&◌, ◌||◌, not, ltb,
  if◌then◌else◌, Option, none, some,
}
use monty_go.Common.Int.{ℤ, pos, negsuc}
use monty_go.Errors.{ok, err, stuck}
use monty_go.Wire.Proto.{Protowire}
use monty_go.Wire.Fields.{field_bytes}
use monty_go.Snapshot.{SnapshotMetadata, decode_snapshot}
use monty_go.Events.{ChildEvent}
use monty_go.Requests.{request, req_load, is_positive}
use monty_go.Session.{
  Session, RunState, Progress, complete, Answer, gives, refuses, waits, panics, closed_session,
  active_turn, session_has_state, not_fresh, completed_load, idle_dump, suspended_dump, codec,
  new_run, cancel_run,
}
use monty_go.Session.Exchange.{Reply, Exchanged, worker_exchange, observe_event}
use monty_go.Session.Advance.{Clock, progress}
use monty_go.Session.Operations.{Called, called, is_none}

-- `int64` order, for the durations of dumps.
abbrev pub below : ℤ → ℤ → Bool
below (pos m) (pos n) = ltb m n
below (pos m) (negsuc n) = false
below (negsuc m) (pos n) = true
below (negsuc m) (negsuc n) = ltb n m

abbrev pub is_zero : ℤ → Bool
is_zero (pos n) = n == 0
is_zero (negsuc n) = false

-- The decoder of dumps refuses a sleep usage below zero.
abbrev pub natural : ℤ → ℕ
natural (pos n) = n
natural (negsuc n) = 0

-- `r` after its fields are set from the dump.
abbrev pub restored_run : SnapshotMetadata → RunState
restored_run meta = record new_run {
  suspensions = meta.suspensions;
  restoring = true;
  restore_sleep_charged = meta.has_sleep_usage;
}

-- The session before the exchange: it takes the sleep usage, and the duration that is smaller.
unfoldable pub restore : Session → SnapshotMetadata → Session
restore s meta = record s {
  used = true;
  runs = s.runs ++ (restored_run meta ∷ []);
  sleep_used = natural meta.sleep_used;
  max_duration =
      if is_zero s.max_duration || (is_positive meta.duration && below meta.duration s.max_duration)
      then meta.duration
      else s.max_duration;
}

abbrev pub restored_name : Option Bytes → Session → Session
restored_name none s = s
restored_name (some name) s = record s { script_name = name }

-- What `progress` gave of a load, for run `n`.
abbrev pub loaded : ℕ → Answer Progress → Session → Called (Option Progress)
loaded n (gives (complete v)) s = called (refuses completed_load) s
loaded n (gives p) s = called (gives (some p)) (record s { pending = some n })
loaded n (refuses e) s = called (refuses e) s
loaded n waits s = called waits s
loaded n panics s = called panics s

module _ ⦃w : Protowire⦄ (clock : Clock) where
  abbrev pub load_event : ℕ → Session → ChildEvent → List Reply → Called (Option Progress)
  load_event n s e rest =
      let t = observe_event (restored_name e.restored_script_name s) e in
      if e.kind == 10
      then called (gives none) (cancel_run t n)
      else (let p = progress clock n t e rest in loaded n p.answer p.session)

  abbrev pub load_exchanged : ℕ → Exchanged → Answer ChildEvent → Called (Option Progress)
  load_exchanged n x (gives e) = load_event n x.session e x.rest
  load_exchanged n x (refuses e) = called (refuses e) x.session
  load_exchanged n x waits = called waits x.session
  load_exchanged n x panics = called panics x.session

  -- `load` on a dump that is decoded. All of it is one critical section.
  unfoldable pub load_decoded :
      Session → Bytes → SnapshotMetadata → List Reply → Called (Option Progress)
  unfolding worker_exchange restore observe_event progress
  load_decoded s state meta replies =
      if s.closed
      then called (refuses closed_session) s
      else if not (is_none s.pending)
      then called (refuses session_has_state) s
      else if s.in_turn
      then called (refuses active_turn) s
      else if s.used
      then called (refuses not_fresh) s
      else (let x =
            worker_exchange (restore s meta) (request req_load (field_bytes 1 state)) replies in
          load_exchanged (length s.runs) x x.answer)

  -- `load`; `none` is an idle session.
  unfoldable pub load : Session → Bytes → List Reply → Called (Option Progress)
  unfolding load_decoded
  load s dumped replies = elim (decode_snapshot dumped) [
    | ok (state, meta) ↦ load_decoded s state meta replies
    | err e ↦ called (refuses (codec e)) s
    | stuck ↦ called waits s
  ]

  abbrev pub load_idle : Answer (Option Progress) → Answer (Unit {0})
  load_idle (gives none) = gives tt
  load_idle (gives (some p)) = refuses suspended_dump
  load_idle (refuses e) = refuses e
  load_idle waits = waits
  load_idle panics = panics

  unfoldable pub load_session : Session → Bytes → List Reply → Called (Unit {0})
  unfolding load
  load_session s dumped replies =
      let x = load s dumped replies in called (load_idle x.answer) x.session

  abbrev pub load_suspended : Answer (Option Progress) → Answer Progress
  load_suspended (gives none) = refuses idle_dump
  load_suspended (gives (some p)) = gives p
  load_suspended (refuses e) = refuses e
  load_suspended waits = waits
  load_suspended panics = panics

  unfoldable pub load_snapshot : Session → Bytes → List Reply → Called Progress
  unfolding load
  load_snapshot s dumped replies =
      let x = load s dumped replies in called (load_suspended x.answer) x.session
