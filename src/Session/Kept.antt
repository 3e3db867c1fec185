-- ===== src/Session/Kept.antt =====
-- What the sections leave alone while they drive a run.
use monty_go.Common.{
  ℕ, zero, suc, ◌≡◌, refl, ap, ◌∙◌, ◌⊎◌, inl, inr, List, [], ◌∷◌, length, Bool, true, false, ◌==◌,
  ◌&&◌, ◌||◌, leb, ltb, if◌then◌else◌, Option, none, some,
}
use mathlib.Core.Path.{subst}
use monty_go.Errors.{Result, ok, err, stuck}
use monty_go.Exceptions.{RaisedException}
use monty_go.Wire.Proto.{Protowire}
use monty_go.Events.{ChildEvent}
use monty_go.Events.OsCall.{OsCall, OsArg, float_arg}
use monty_go.Requests.{Request}
use monty_go.Session.{
  Session, RunState, Answer, gives, refuses, waits, panics, Progress, run_at, put_run, set_run,
  cancel_run,
}
use monty_go.Session.Exchange.{
  Reply, event, lost, Exchanged, is_exhausted, observe_event, observe_sleep, observe_suspensions,
  worker_exchange, observed, execution_exchange,
}
use monty_go.Session.Advance.{
  Clock, Verdict, ends, aborts, decoded, no_pending, is_suspension, suspension_limit,
  count_suspension, exceeds_sleep, charge, capped_delay, sleep_verdict, sleep_call_verdict,
  os_verdict, is_system_sleep, kind_verdict, verdict, Progressed, progress, failed_exchange,
  stopped_by, aborted, abort_request,
}

pub record Kept (s t : Session) : Type 0 where
  pub closed : t.closed ≡ s.closed
  pub used : t.used ≡ s.used
  pub in_turn : t.in_turn ≡ s.in_turn
  pub count : length t.runs ≡ length s.runs
  pub steps : (n : ℕ) → (run_at t.runs n).step ≡ (run_at s.runs n).step
  pub pending : (t.pending ≡ s.pending) ⊎ (t.pending ≡ none)

pub Kept-refl : (s : Session) → Kept s s
Kept-refl s = record {
  closed = refl;
  used = refl;
  in_turn = refl;
  count = refl;
  steps = λ n. refl;
  pending = inl refl;
}

pub Kept-trans : (s t u : Session) → Kept s t → Kept t u → Kept s u
Kept-trans s t u h k = record {
  closed = k.closed ∙ h.closed;
  used = k.used ∙ h.used;
  in_turn = k.in_turn ∙ h.in_turn;
  count = k.count ∙ h.count;
  steps = λ n. k.steps n ∙ h.steps n;
  pending = both k.pending h.pending;
}
  where
    both :
        (u.pending ≡ t.pending) ⊎ (u.pending ≡ none)
        → (t.pending ≡ s.pending) ⊎ (t.pending ≡ none)
        → (u.pending ≡ s.pending) ⊎ (u.pending ≡ none)
    both (inr e) d = inr e
    both (inl e) (inl d) = inl (e ∙ d)
    both (inl e) (inr d) = inr (e ∙ d)

pub length-put_run :
    (rs : List RunState) (n : ℕ) (r : RunState) → length (put_run rs n r) ≡ length rs
length-put_run [] n r = refl
length-put_run (x ∷ rs) zero r = refl
length-put_run (x ∷ rs) (suc n) r = ap suc (length-put_run rs n r)

-- A run changed in place keeps the steps if its own is kept.
steps-put_run :
    (rs : List RunState) (n : ℕ) (r : RunState)
    → r.step ≡ (run_at rs n).step
    → (m : ℕ) → (run_at (put_run rs n r) m).step ≡ (run_at rs m).step
steps-put_run [] n r e m = refl
steps-put_run (x ∷ rs) zero r e zero = e
steps-put_run (x ∷ rs) zero r e (suc m) = refl
steps-put_run (x ∷ rs) (suc n) r e zero = refl
steps-put_run (x ∷ rs) (suc n) r e (suc m) = steps-put_run rs n r e m

pub Kept-set_run :
    (s : Session) (n : ℕ) (r : RunState) → r.step ≡ (run_at s.runs n).step → Kept s (set_run s n r)
Kept-set_run s n r e = record {
  closed = refl;
  used = refl;
  in_turn = refl;
  count = length-put_run s.runs n r;
  steps = steps-put_run s.runs n r e;
  pending = inl refl;
}

pub Kept-cancel_run : (s : Session) (n : ℕ) → Kept s (cancel_run s n)
Kept-cancel_run s n = Kept-set_run s n _ refl

pub Kept-no_pending : (s : Session) → Kept s (no_pending s)
Kept-no_pending s = record {
  closed = refl;
  used = refl;
  in_turn = refl;
  count = refl;
  steps = λ n. refl;
  pending = inr refl;
}

-- Changes of the other fields.
pub Kept-other :
    (s t : Session)
    → t.closed ≡ s.closed
    → t.used ≡ s.used
    → t.in_turn ≡ s.in_turn
    → t.runs ≡ s.runs
    → t.pending ≡ s.pending
    → Kept s t
Kept-other s t c u i r p = record {
  closed = c;
  used = u;
  in_turn = i;
  count = ap length r;
  steps = λ n. ap (λ rs. (run_at rs n).step) r;
  pending = inl p;
}

Kept-observe_sleep : (o : Option ℕ) (s : Session) → Kept s (observe_sleep o s)
Kept-observe_sleep none s = Kept-refl s
Kept-observe_sleep (some n) s = Kept-other _ _ refl refl refl refl refl

Kept-observe_suspensions : (o : Option ℕ) (s : Session) → Kept s (observe_suspensions o s)
Kept-observe_suspensions none s = Kept-refl s
Kept-observe_suspensions (some n) s = Kept-other _ _ refl refl refl refl refl

pub Kept-observe_event : (s : Session) (e : ChildEvent) → Kept s (observe_event s e)
unfolding observe_event
Kept-observe_event s e = Kept-trans s _ _ (Kept-observe_suspensions e.max_suspensions s) (
    Kept-trans _ _ _
      (Kept-other (observe_suspensions e.max_suspensions s) _ refl refl refl refl refl)
      (Kept-observe_sleep e.max_total_sleep_micros _))

pub Kept-worker_exchange :
    (s : Session) (req : Request) (replies : List Reply)
    → Kept s (worker_exchange s req replies).session
unfolding worker_exchange
Kept-worker_exchange s req [] = Kept-other _ _ refl refl refl refl refl
Kept-worker_exchange s req (lost ∷ rest) = Kept-other _ _ refl refl refl refl refl
Kept-worker_exchange s req (event e ∷ rest) = Kept-other _ _ refl refl refl refl refl

Kept-observed :
    (s : Session) (x : Exchanged) (a : Answer ChildEvent)
    → Kept s x.session
    → Kept s (observed x a).session
Kept-observed s x (gives e) h = Kept-trans s _ _ h (Kept-observe_event x.session e)
Kept-observed s x (refuses e) h = h
Kept-observed s x waits h = h
Kept-observed s x panics h = h

-- A property of both branches.
pub if-both {ℓ κ} :
    {A : Type ℓ} (P : A → Type κ) (b : Bool) (x y : A) → P x → P y → P (if b then x else y)
if-both P true x y h k = h
if-both P false x y h k = k

pub Kept-execution_exchange :
    (s : Session) (req : Request) (replies : List Reply)
    → Kept s (execution_exchange s req replies).session
unfolding execution_exchange
Kept-execution_exchange s req replies =
    if-both (λ (x : Exchanged). Kept s x.session) (is_exhausted s) _ _ (Kept-refl s)
      (Kept-observed s _ _ (Kept-worker_exchange s req replies))

abbrev pub session_of : Verdict → Session
session_of (ends a s) = s
session_of (aborts x s) = s

record KeptBy (s : Session) (v : Verdict) : Type 0 where
  kept : Kept s (session_of v)

by_kept : (s : Session) (v : Verdict) → Kept s (session_of v) → KeptBy s v
by_kept s v h = record { kept = h }

KeptBy-decoded {ℓ} :
    {A : Type ℓ} (s t : Session) (r : Result A) (f : A → Verdict)
    → Kept s t
    → ((a : A) → KeptBy s (f a))
    → KeptBy s (decoded r t f)
KeptBy-decoded s t (ok a) f h k = k a
KeptBy-decoded s t (err e) f h k = by_kept s _ h
KeptBy-decoded s t stuck f h k = by_kept s _ h

Kept-charge : (s : Session) (charged : Bool) (delay : ℕ) → Kept s (charge s charged delay)
unfolding charge
Kept-charge s true delay = Kept-refl s
Kept-charge s false delay = Kept-other _ _ refl refl refl refl refl

module _ ⦃w : Protowire⦄ (clock : Clock) where
  KeptBy-sleep_call_verdict :
      (n : ℕ) (restoring : Bool) (s : Session) (c : OsCall) (args : List OsArg)
      → KeptBy s (sleep_call_verdict clock n restoring s c args)
  unfolding sleep_call_verdict sleep_verdict
  KeptBy-sleep_call_verdict n restoring s c (float_arg bits ∷ rest) =
      let delay = capped_delay s.system_sleep_max (clock.nanoseconds bits) in
      let charged = restoring && (run_at s.runs n).restore_sleep_charged in
      if-both (KeptBy s) (exceeds_sleep s charged delay) _ _ (by_kept s _ (Kept-refl s))
        (by_kept s _ (Kept-charge s charged delay))
  KeptBy-sleep_call_verdict n restoring s c [] = by_kept s _ (Kept-refl s)
  KeptBy-sleep_call_verdict n restoring s c (OsArg.nil_arg ∷ rest) = by_kept s _ (Kept-refl s)
  KeptBy-sleep_call_verdict n restoring s c (OsArg.text_arg b ∷ rest) = by_kept s _ (Kept-refl s)
  KeptBy-sleep_call_verdict n restoring s c (OsArg.bytes_arg b ∷ rest) = by_kept s _ (Kept-refl s)
  KeptBy-sleep_call_verdict n restoring s c (OsArg.bool_arg b ∷ rest) = by_kept s _ (Kept-refl s)
  KeptBy-sleep_call_verdict n restoring s c (OsArg.uint64_arg b ∷ rest) = by_kept s _ (Kept-refl s)
  KeptBy-sleep_call_verdict n restoring s c (OsArg.uint32_arg b ∷ rest) = by_kept s _ (Kept-refl s)
  KeptBy-sleep_call_verdict n restoring s c (OsArg.zone_arg b ∷ rest) = by_kept s _ (Kept-refl s)
  KeptBy-sleep_call_verdict n restoring s c (OsArg.value_arg b ∷ rest) = by_kept s _ (Kept-refl s)
  KeptBy-sleep_call_verdict n restoring s c (OsArg.names_arg b ∷ rest) = by_kept s _ (Kept-refl s)

  KeptBy-os_verdict :
      (n : ℕ) (restoring : Bool) (s : Session) (c : OsCall)
      → KeptBy s (os_verdict clock n restoring s c)
  unfolding os_verdict
  KeptBy-os_verdict n restoring s c =
      if-both (KeptBy s) (is_system_sleep c.name) _ _
        (KeptBy-sleep_call_verdict n restoring s c c.args) (by_kept s _ (Kept-refl s))

  KeptBy-kind_verdict :
      (n : ℕ) (restoring : Bool) (s : Session) (e : ChildEvent)
      → KeptBy s (kind_verdict clock n restoring s e)
  unfolding kind_verdict
  KeptBy-kind_verdict n restoring s e =
      let same : (a : Answer Progress) → KeptBy s (ends a s) = λ a. by_kept s _ (Kept-refl s) in
      let gone : (a : Answer Progress) → KeptBy s (ends a (no_pending s)) =
        λ a. by_kept s _ (Kept-no_pending s) in
      if-both (KeptBy s) (e.kind == 6) _ _ (KeptBy-decoded s s _ _ (Kept-refl s) (λ v. gone _)) (
        if-both (KeptBy s) (e.kind == 2) _ _ (KeptBy-decoded s s _ _ (Kept-refl s) (λ c. same _)) (
          if-both (KeptBy s) (e.kind == 3) _ _
            (KeptBy-decoded s s _ _ (Kept-refl s) (KeptBy-os_verdict n restoring s))
            (if-both (KeptBy s) (e.kind == 4) _ _
              (KeptBy-decoded s s _ _ (Kept-refl s) (λ c. same _))
              (if-both (KeptBy s) (e.kind == 5) _ _ (same _) (
                if-both (KeptBy s) (e.kind == 7) _ _
                  (KeptBy-decoded s (no_pending s) _ _ (Kept-no_pending s) (λ x. gone _))
                  (if-both (KeptBy s) (e.kind == 8) _ _ (gone _)
                    (if-both (KeptBy s) (e.kind == 11) _ _ (gone _) (same _))))))))

  Kept-count_suspension :
      (s : Session) (n : ℕ) → Kept s (set_run s n (count_suspension (run_at s.runs n)))
  Kept-count_suspension s n = Kept-set_run s n _ (
      if-both (λ (r : RunState). r.step ≡ (run_at s.runs n).step) (run_at s.runs n).restoring _ _
        refl refl)

  after : {s t : Session} {v : Verdict} → Kept s t → KeptBy t v → KeptBy s v
  after {s} {t} {v} h k = by_kept s v (Kept-trans s t _ h k.kept)

  -- `verdict` on the session after the run is cancelled, or not.
  KeptBy-verdict : (n : ℕ) (s : Session) (e : ChildEvent) → KeptBy s (verdict clock n s e)
  unfolding verdict
  KeptBy-verdict n s e =
      let restoring = (run_at s.runs n).restoring in
      let t : Session = if (e.kind == 6) || leb 7 e.kind then cancel_run s n else s in
      let first : Kept s t =
        if-both (Kept s) ((e.kind == 6) || leb 7 e.kind) _ _ (Kept-cancel_run s n) (Kept-refl s) in
      let counted = set_run t n (count_suspension (run_at t.runs n)) in
      let second = Kept-trans s _ _ first (Kept-count_suspension t n) in
      if-both (KeptBy s) (is_suspension e.kind) _ _
        (if-both (KeptBy s) (ltb (suspension_limit counted) (run_at counted.runs n).suspensions) _ _
          (by_kept s _ second) (after second (KeptBy-kind_verdict n restoring counted e)))
        (after first (KeptBy-kind_verdict n restoring t e))

  Kept-aborted : (s : Session) (req : Request) (e : ChildEvent) → Kept s (aborted s req e)
  Kept-aborted s req e =
      Kept-trans s _ _ (Kept-other s _ refl refl refl refl refl) (Kept-observe_event _ e)

  Kept-failed_exchange :
      (s : Session) (n : ℕ) (x : Exchanged) (a : Answer ChildEvent)
      → Kept s x.session
      → Kept s (failed_exchange n x a).session
  Kept-failed_exchange s n x (gives e) h = h
  Kept-failed_exchange s n x (refuses e) h = Kept-trans s _ _ h (Kept-cancel_run x.session n)
  Kept-failed_exchange s n x waits h = h
  Kept-failed_exchange s n x panics h = h

  Kept-stopped_by :
      (s t : Session) (n : ℕ) (req : Request) (replies : List Reply)
      → Kept s t
      → Kept s (stopped_by n (execution_exchange t req replies)).session
  Kept-stopped_by s t n req replies h =
      let x = execution_exchange t req replies in
      Kept-failed_exchange s n x x.answer
        (Kept-trans s t _ h (Kept-execution_exchange t req replies))

  Verdict-cases :
      (v : Verdict)
      → ((a : Answer Progress) × (t : Session) × (v ≡ ends a t))
        ⊎ ((x : RaisedException) × (t : Session) × (v ≡ aborts x t))
  Verdict-cases (ends a t) = inl (a, t, refl)
  Verdict-cases (aborts x t) = inr (x, t, refl)

  Kept-by :
      (n : ℕ) (s : Session) (e : ChildEvent) {v : Verdict}
      → verdict clock n s e ≡ v
      → Kept s (session_of v)
  Kept-by n s e h = subst (λ v. Kept s (session_of v)) h (KeptBy-verdict n s e).kept

  -- However often the feed is aborted, `progress` leaves the turn, the steps of the runs and whether
  -- the session is closed as they were; the pending run stays, or there is none.
  pub Kept-progress :
      (n : ℕ) (s : Session) (e : ChildEvent) (replies : List Reply)
      → Kept s (progress clock n s e replies).session
  unfolding progress
  Kept-progress n s e [] = elim (Verdict-cases (verdict clock n s e)) [
    | inl (a, t, v) ↦ rw (v, progress) (Kept-by n s e v)
    | inr (x, t, v) ↦
        rw (v, progress) (Kept-stopped_by s t n (abort_request x) [] (Kept-by n s e v))
  ]
  Kept-progress n s e (lost ∷ rest) = elim (Verdict-cases (verdict clock n s e)) [
    | inl (a, t, v) ↦ rw (v, progress) (Kept-by n s e v)
    | inr (x, t, v) ↦
        rw (v, progress) (Kept-stopped_by s t n (abort_request x) (lost ∷ rest) (Kept-by n s e v))
  ]
  Kept-progress n s e (event f ∷ rest) = elim (Verdict-cases (verdict clock n s e)) [
    | inl (a, t, v) ↦ rw (v, progress) (Kept-by n s e v)
    | inr (x, t, v) ↦
        let h = Kept-by n s e v in
        let again = Kept-progress n (aborted t (abort_request x) f) f rest in
        rw (v, progress)
          (if-both (λ (p : Progressed). Kept s p.session) (is_exhausted t) _ _
            (Kept-stopped_by s t n (abort_request x) (event f ∷ rest) h)
            (Kept-trans s _ _ h (Kept-trans t _ _ (Kept-aborted t (abort_request x) f) again)))
  ]
