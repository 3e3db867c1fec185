-- ===== src/Session/Others.antt =====
-- The calls that are no turn: `Close`, the dumps, the installation and the loads.
use monty_go.Common.{
  ℕ, ◌<◌, ◌≡◌, refl, sym, ◌⊎◌, inl, inr, List, [], ◌∷◌, Bytes, length, length-append, Bool, true,
  false, ◌==◌, not, if◌then◌else◌, Option, none, some, arith,
}
use mathlib.Core.Path.{subst}
use monty_go.Errors.{Result-cases}
use monty_go.Wire.Proto.{Protowire}
use monty_go.Snapshot.{SnapshotMetadata, decode_snapshot}
use monty_go.Events.{ChildEvent}
use monty_go.Requests.{Request, request, req_dump, req_install, req_load}
use monty_go.Wire.Fields.{field_bytes}
use monty_go.Session.{
  Session, Progress, complete, function_snapshot, os_snapshot, name_snapshot, future_snapshot,
  Answer, gives, refuses, waits, panics, run_at,
}
use monty_go.Session.Exchange.{Reply, event, lost, Exchanged, worker_exchange, observe_event}
use monty_go.Session.Advance.{Clock, progress}
use monty_go.Session.Kept.{
  Kept, Kept-refl, Kept-trans, Kept-other, Kept-cancel_run, Kept-worker_exchange,
  Kept-observe_event, Kept-progress, if-both,
}
use monty_go.Session.Operations.{
  Called, begin_close, close_run, is_none, is_pending, snapshot_dump, dump, dump_result,
  host_metadata, install_dependencies, install_result, requirement_fields,
}
use monty_go.Session.Load.{
  restore, restored_run, restored_name, loaded, load_event, load_exchanged, load_decoded, load,
}
use monty_go.Session.Invariant.{
  IsRun, IsRun-Grown, Grown, Grown-refl, Grown-trans, Grown-append, Grown-put_run,
}
use monty_go.Session.Sections.{Quiet, Kept-Quiet}

-- A call that only talks to the worker.
pub record Same (s t : Session) : Type 0 where
  pub closed : t.closed ≡ s.closed
  pub in_turn : t.in_turn ≡ s.in_turn
  pub pending : t.pending ≡ s.pending
  pub runs : t.runs ≡ s.runs

Same-refl : (s : Session) → Same s s
Same-refl s = record { closed = refl; in_turn = refl; pending = refl; runs = refl }

Same-worker_exchange :
    (s : Session) (req : Request) (replies : List Reply)
    → Same s (worker_exchange s req replies).session
unfolding worker_exchange
Same-worker_exchange s req [] = record {
  closed = refl;
  in_turn = refl;
  pending = refl;
  runs = refl;
}
Same-worker_exchange s req (lost ∷ rest) = record {
  closed = refl;
  in_turn = refl;
  pending = refl;
  runs = refl;
}
Same-worker_exchange s req (event e ∷ rest) = record {
  closed = refl;
  in_turn = refl;
  pending = refl;
  runs = refl;
}

-- A guard keeps the session, and what follows it does what it does.
guarded {ℓ} :
    {A : Type ℓ} (P : Session → Type 0) (b : Bool) (x y : Called A)
    → P x.session
    → P y.session
    → P (if b then x else y).session
guarded {A = A} P b x y h k = if-both (λ (c : Called A). P c.session) b x y h k

module _ ⦃w : Protowire⦄ where
  Same-dump_result :
      (s : Session) (m : SnapshotMetadata) (x : Exchanged) (a : Answer ChildEvent)
      → Same s x.session
      → Same s (dump_result m x a).session
  Same-dump_result s m x (gives e) h = guarded (Same s) (not (e.kind == 9)) _ _ h h
  Same-dump_result s m x (refuses e) h = h
  Same-dump_result s m x waits h = h
  Same-dump_result s m x panics h = h

  pub Same-snapshot_dump :
      (s : Session) (n step : ℕ) (replies : List Reply)
      → Same s (snapshot_dump s n step replies).session
  unfolding snapshot_dump
  Same-snapshot_dump s n step replies =
      let same = Same-refl s in
      let x = worker_exchange s (request req_dump []) replies in
      guarded (Same s) s.closed _ _ same (
        guarded (Same s) (not (is_pending s.pending n)) _ _ same (
          guarded (Same s) (not ((run_at s.runs n).step == step)) _ _ same (
            Same-dump_result s (host_metadata s (run_at s.runs n).suspensions) x x.answer
              (Same-worker_exchange s (request req_dump []) replies))))

  pub Same-dump : (s : Session) (replies : List Reply) → Same s (dump s replies).session
  unfolding dump
  Same-dump s replies =
      let same = Same-refl s in
      let x = worker_exchange s (request req_dump []) replies in
      guarded (Same s) s.closed _ _ same (
        guarded (Same s) (not (is_none s.pending)) _ _ same (
          guarded (Same s) s.in_turn _ _ same (
            Same-dump_result s (host_metadata s 0) x x.answer
              (Same-worker_exchange s (request req_dump []) replies))))

  Same-install_result :
      (s : Session) (x : Exchanged) (a : Answer ChildEvent)
      → Same s x.session
      → Same s (install_result x a).session
  Same-install_result s x (gives e) h = guarded (Same s) (not (e.kind == 10)) _ _ h h
  Same-install_result s x (refuses e) h = h
  Same-install_result s x waits h = h
  Same-install_result s x panics h = h

  pub Same-install_dependencies :
      (s : Session) (rs : List Bytes) (replies : List Reply)
      → Same s (install_dependencies s rs replies).session
  unfolding install_dependencies
  Same-install_dependencies s rs replies =
      let same = Same-refl s in
      let req = request req_install (requirement_fields rs) in
      let x = worker_exchange s req replies in
      guarded (Same s) s.closed _ _ same (
        guarded (Same s) (not (is_none s.pending)) _ _ same (
          guarded (Same s) s.in_turn _ _ same
            (Same-install_result s x x.answer (Same-worker_exchange s req replies))))

-- Nothing changed, or no turn was on and none is.
abbrev pub IsIdle : Session → Session → Type 0
IsIdle s t = (t ≡ s) ⊎ ((s.in_turn ≡ false) × Quiet s t)

guarded_then {ℓ} :
    {A : Type ℓ} (P : Session → Type 0) (b : Bool) (x y : Called A)
    → P x.session
    → (b ≡ false → P y.session)
    → P (if b then x else y).session
guarded_then P true x y h k = h
guarded_then P false x y h k = k refl

Quiet-close_run :
    (s : Session) (o : Option ℕ)
    → s.pending ≡ o
    → s.in_turn ≡ false
    → Quiet s (close_run s o).session
Quiet-close_run s none e h = record {
  in_turn = h;
  grown = Grown-refl s.runs;
  pending = subst (λ o. IsRun o s.runs) (sym e) tt;
}
Quiet-close_run s (some n) e h = record {
  in_turn = h;
  grown = Grown-put_run s.runs n _ (omega arith);
  pending = tt;
}

pub begin_close_lem : (s : Session) → IsIdle s (begin_close s).session
unfolding begin_close
begin_close_lem s = guarded_then (IsIdle s) s.closed _ _ (inl refl) λ a.
    guarded_then (IsIdle s) s.in_turn _ _ (inl refl)
      (λ h. inr (h, Quiet-close_run s s.pending refl h))

Kept-restored_name : (o : Option Bytes) (s : Session) → Kept s (restored_name o s)
Kept-restored_name none s = Kept-refl s
Kept-restored_name (some name) s = Kept-other _ _ refl refl refl refl refl

Quiet-trans : (s t u : Session) → Grown s.runs t.runs → Quiet t u → Quiet s u
Quiet-trans s t u g h = record {
  in_turn = h.in_turn;
  grown = Grown-trans s.runs t.runs u.runs g h.grown;
  pending = h.pending;
}

Quiet-pending :
    (s t : Session) (n : ℕ)
    → Quiet s t
    → n < length t.runs
    → Quiet s (record t { pending = some n })
Quiet-pending s t n h l = record { in_turn = h.in_turn; grown = h.grown; pending = l }

Quiet-loaded :
    (s t : Session) (n : ℕ) (a : Answer Progress)
    → Quiet s t
    → n < length t.runs
    → Quiet s (loaded n a t).session
Quiet-loaded s t n (gives (complete v)) h l = h
Quiet-loaded s t n (gives (function_snapshot m k c)) h l = Quiet-pending s t n h l
Quiet-loaded s t n (gives (os_snapshot m k c)) h l = Quiet-pending s t n h l
Quiet-loaded s t n (gives (name_snapshot m k p x o)) h l = Quiet-pending s t n h l
Quiet-loaded s t n (gives (future_snapshot m k p ids)) h l = Quiet-pending s t n h l
Quiet-loaded s t n (refuses e) h l = h
Quiet-loaded s t n waits h l = h
Quiet-loaded s t n panics h l = h

module _ ⦃w : Protowire⦄ (clock : Clock) where
  Quiet-load_event :
      (s t : Session) (n : ℕ) (e : ChildEvent) (rest : List Reply)
      → Kept s t
      → s.in_turn ≡ false
      → IsRun s.pending s.runs
      → n < length s.runs
      → Quiet s (load_event clock n t e rest).session
  Quiet-load_event s t n e rest k h p l =
      let u = observe_event (restored_name e.restored_script_name t) e in
      let seen : Kept s u = Kept-trans s t u k (
        Kept-trans t _ u (Kept-restored_name e.restored_script_name t)
          (Kept-observe_event (restored_name e.restored_script_name t) e)) in
      let x = progress clock n u e rest in
      let q = Kept-Quiet s x.session (Kept-trans s u _ seen (Kept-progress clock n u e rest)) h p in
      guarded (Quiet s) (e.kind == 10) _ _
        (Kept-Quiet s _ (Kept-trans s u _ seen (Kept-cancel_run u n)) h p)
        (Quiet-loaded s x.session n x.answer q (omega (arith, q.grown.count)))

  Quiet-load_exchanged :
      (s : Session) (n : ℕ) (x : Exchanged) (a : Answer ChildEvent)
      → Kept s x.session
      → s.in_turn ≡ false
      → IsRun s.pending s.runs
      → n < length s.runs
      → Quiet s (load_exchanged clock n x a).session
  Quiet-load_exchanged s n x (gives e) k h p l = Quiet-load_event s x.session n e x.rest k h p l
  Quiet-load_exchanged s n x (refuses e) k h p l = Kept-Quiet s _ k h p
  Quiet-load_exchanged s n x waits k h p l = Kept-Quiet s _ k h p
  Quiet-load_exchanged s n x panics k h p l = Kept-Quiet s _ k h p

  load_decoded_lem :
      (s : Session) (state : Bytes) (m : SnapshotMetadata) (replies : List Reply)
      → IsRun s.pending s.runs
      → IsIdle s (load_decoded clock s state m replies).session
  unfolding load_decoded restore
  load_decoded_lem s state m replies p = guarded_then (IsIdle s) s.closed _ _ (inl refl) λ a.
      guarded_then (IsIdle s) (not (is_none s.pending)) _ _ (inl refl) λ b.
        guarded_then (IsIdle s) s.in_turn _ _ (inl refl) λ h.
          guarded_then (IsIdle s) s.used _ _ (inl refl) λ d.
            let r = restore s m in
            let req = request req_load (field_bytes 1 state) in
            let g = Grown-append s.runs (restored_run m) in
            let x = worker_exchange r req replies in
            inr (
              h,
              Quiet-trans s r _ g (
                  Quiet-load_exchanged r (length s.runs) x x.answer
                    (Kept-worker_exchange r req replies) h (IsRun-Grown s.pending s.runs r.runs g p)
                    (omega (arith, length-append s.runs (restored_run m ∷ [])))),
            )

  pub load_lem :
      (s : Session) (dumped : Bytes) (replies : List Reply)
      → IsRun s.pending s.runs
      → IsIdle s (load clock s dumped replies).session
  unfolding load
  load_lem s dumped replies p = elim (Result-cases (decode_snapshot dumped)) [
    | inl ((state, m), e) ↦ rw (e, load) (load_decoded_lem s state m replies p)
    | inr (inl (x, e)) ↦ rw (e, load) (inl refl)
    | inr (inr e) ↦ rw (e, load) (inl refl)
  ]
