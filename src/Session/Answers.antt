-- ===== src/Session/Answers.antt =====
-- `progress` comes to an end when the worker does.
use monty_go.Common.{
  ℕ, ◌≡◌, refl, List, [], ◌∷◌, ◌++◌, Bytes, inl, inr, Bool, true, false, ◌==◌, ◌&&◌, ◌||◌, ltb, leb,
  if◌then◌else◌, none,
}
use mathlib.Core.Path.{subst, sym}
use monty_go.Errors.{Result, ok, err, stuck, result_of, Returns}
use monty_go.Wire.Proto.{Protowire, Laws}
use monty_go.Wire.Parse.{parse_fields}
use monty_go.Wire.Returns.{Ends-check_in, parse-Returns_plain, Ends-if}
use monty_go.Value.Total.{decode_uuid-Returns}
use monty_go.Exceptions.{RaisedException}
use monty_go.Exceptions.Raised.{decode_error_event}
use monty_go.Exceptions.Total.{decode_error_event-Returns}
use monty_go.Events.{ChildEvent}
use monty_go.Events.Total.{decode_events-Returns}
use monty_go.Events.OsCall.{OsCall, OsArg, float_arg, decode_os_call}
use monty_go.Events.OsCall.Total.{decode_os_call-Returns}
use monty_go.Requests.{Request}
use monty_go.Session.{
  Session, SessionError, Progress, Answer, gives, refuses, waits, panics, run_at, set_run,
  cancel_run,
}
use monty_go.Session.Exchange.{
  Reply, event, lost, Exchanged, is_exhausted, worker_exchange, execution_exchange,
}
use monty_go.Session.Advance.{
  Clock, Verdict, ends, aborts, suspension_limit, count_suspension, is_suspension, exceeds_sleep,
  capped_delay, is_system_sleep, sleep_verdict, sleep_call_verdict, os_verdict, kind_verdict,
  verdict, decoded, Progressed, progress, object_field, stopped_by, aborted, abort_request,
}
use monty_go.Session.Sleeps.{HasSeconds, decode_os_call-HasSeconds}
use monty_go.Session.Kept.{if-both}
use monty_go.Session.Spends.{if_cases, suspends}
use monty_go.Session.Verdicts.{Verdict-cases}

-- A reply after which `progress` asks for no other.
abbrev pub IsFinal : Reply → Type 0
IsFinal (event e) = is_suspension e.kind ≡ false
IsFinal lost = Unit {0}

-- A result or an error: not waiting, and not Go's panic.
abbrev pub IsSettled {ℓ} : {A : Type ℓ} → Answer A → Type 0
IsSettled (gives a) = Unit {0}
IsSettled (refuses e) = Unit {0}
IsSettled waits = ⊥
IsSettled panics = ⊥

-- A verdict neither waits nor panics, and aborts only where `b` allows it.
abbrev Decision : Bool → Verdict → Type 0
Decision b (ends a s) = IsSettled a
Decision b (aborts x s) = b ≡ true

record Decides (b : Bool) (v : Verdict) : Type 0 where
  decision : Decision b v

decides : (b : Bool) (v : Verdict) → Decision b v → Decides b v
decides b v h = record { decision = h }

Decides-decoded {ℓ} :
    {A : Type ℓ} (b : Bool) (s : Session) (r : Result A) (f : A → Verdict)
    → Returns r
    → ((a : A) → r ≡ ok a → Decides b (f a))
    → Decides b (decoded r s f)
Decides-decoded b s (ok a) f k h = h a refl
Decides-decoded b s (err e) f k h = decides b _ tt
Decides-decoded b s stuck f k h = absurd k

-- An exchange that is given up does not wait.
stopped_lost :
    (n : ℕ) (s : Session) (req : Request) (rest : List Reply)
    → IsSettled (stopped_by n (execution_exchange s req (lost ∷ rest))).answer
unfolding execution_exchange worker_exchange
stopped_lost n s req rest =
    if-both (λ (x : Exchanged). IsSettled (stopped_by n x).answer) (is_exhausted s) _ _ tt tt

stopped_exhausted :
    (n : ℕ) (s : Session) (req : Request) (replies : List Reply)
    → is_exhausted s ≡ true
    → IsSettled (stopped_by n (execution_exchange s req replies)).answer
unfolding execution_exchange
stopped_exhausted n s req replies h = rw (h) tt

module _ ⦃w : Protowire⦄ (laws : Laws w) (clock : Clock) where
  Decides-sleep_call_verdict :
      (b : Bool) (n : ℕ) (restoring : Bool) (s : Session) (c : OsCall) (bits : ℕ)
      (rest : List OsArg)
      → b ≡ true
      → Decides b (sleep_call_verdict clock n restoring s c (float_arg bits ∷ rest))
  unfolding sleep_call_verdict sleep_verdict
  Decides-sleep_call_verdict b n restoring s c bits rest h =
      let delay = capped_delay s.system_sleep_max (clock.nanoseconds bits) in
      let charged = restoring && (run_at s.runs n).restore_sleep_charged in
      if-both (Decides b) (exceeds_sleep s charged delay) _ _ (decides b _ h) (decides b _ tt)

  Decides-os_verdict :
      (b : Bool) (n : ℕ) (restoring : Bool) (s : Session) (c : OsCall)
      → b ≡ true
      → HasSeconds c
      → Decides b (os_verdict clock n restoring s c)
  unfolding os_verdict
  Decides-os_verdict b n restoring s c h sleeps =
      if_cases (Decides b) (is_system_sleep c.name) _ _
        (λ k.
          let (bits, rest, e) = sleeps.seconds k in
          subst (λ args. Decides b (sleep_call_verdict clock n restoring s c args)) (sym e)
            (Decides-sleep_call_verdict b n restoring s c bits rest h))
        (λ k. decides b _ tt)

  object-Returns : (b : Bytes) → Returns (result_of (parse_fields b object_field none))
  unfolding object_field
  object-Returns b = parse-Returns_plain laws b object_field none λ o f l.
      Ends-if (f.tag == 2) _ _ (Ends-check_in o _ _ (decode_uuid-Returns laws f.bytes) (λ x. tt)) tt

  Decides-kind_verdict :
      (n : ℕ) (restoring : Bool) (s : Session) (e : ChildEvent)
      → Decides (is_suspension e.kind) (kind_verdict clock n restoring s e)
  unfolding kind_verdict
  Decides-kind_verdict n restoring s e =
      let b = is_suspension e.kind in
      let gave : (p : Progress) (t : Session) → Decides b (ends (gives p) t) =
        λ p t. decides b _ tt in
      let refused : (x : SessionError) (t : Session) → Decides b (ends (refuses x) t) =
        λ x t. decides b _ tt in
      let (_, complete, call) = decode_events-Returns laws e.body in
      if-both (Decides b) (e.kind == 6) _ _ (Decides-decoded b s _ _ complete (λ v e. gave _ _)) (
        if-both (Decides b) (e.kind == 2) _ _ (Decides-decoded b s _ _ call (λ c e. gave _ _)) (
          if_cases (Decides b) (e.kind == 3) _ _
            (λ k.
              Decides-decoded b s (decode_os_call e.body) _ (decode_os_call-Returns laws e.body)
                (λ c d.
                  Decides-os_verdict b n restoring s c (suspends e.kind 3 k refl)
                    (decode_os_call-HasSeconds e.body c d)))
            (λ k.
              (if-both (Decides b) (e.kind == 4) _ _
                (Decides-decoded b s (result_of (parse_fields e.body object_field none)) _
                  (object-Returns e.body) (λ o e. gave _ _))
                (if-both (Decides b) (e.kind == 5) _ _ (gave _ _) (
                  if-both (Decides b) (e.kind == 7) _ _
                    (Decides-decoded b _ (decode_error_event e.body) _
                      (decode_error_event-Returns laws e.body) (λ x e. refused _ _))
                    (if-both (Decides b) (e.kind == 8) _ _ (refused _ _)
                      (if-both (Decides b) (e.kind == 11) _ _ (refused _ _) (refused _ _)))))))))

  Decides-verdict :
      (n : ℕ) (s : Session) (e : ChildEvent) → Decides (is_suspension e.kind) (verdict clock n s e)
  unfolding verdict
  Decides-verdict n s e =
      let b = is_suspension e.kind in
      let restoring = (run_at s.runs n).restoring in
      let t : Session = if (e.kind == 6) || leb 7 e.kind then cancel_run s n else s in
      let counted = set_run t n (count_suspension (run_at t.runs n)) in
      if_cases (Decides b) b _ _
        (λ k.
          if-both (Decides b) (ltb (suspension_limit counted) (run_at counted.runs n).suspensions) _
            _ (decides b _ k) (Decides-kind_verdict n restoring counted e))
        (λ k. Decides-kind_verdict n restoring t e)

  verdict-IsSettled :
      (n : ℕ) (s : Session) (e : ChildEvent) (a : Answer Progress) (t : Session)
      → verdict clock n s e ≡ ends a t
      → IsSettled a
  verdict-IsSettled n s e a t v =
      (subst (Decides (is_suspension e.kind)) v (Decides-verdict n s e)).decision

  suspended :
      (n : ℕ) (s : Session) (e : ChildEvent) (x : RaisedException) (t : Session)
      → verdict clock n s e ≡ aborts x t
      → is_suspension e.kind ≡ true
  suspended n s e x t v =
      (subst (Decides (is_suspension e.kind)) v (Decides-verdict n s e)).decision

  never_suspended :
      (n : ℕ) (s : Session) (e : ChildEvent) (x : RaisedException) (t : Session)
      → verdict clock n s e ≡ aborts x t
      → is_suspension e.kind ≡ false
      → ⊥
  never_suspended n s e x t v h = absurd (clash (suspended n s e x t v))
    where
      clash : is_suspension e.kind ≡ true → ⊥
      clash k = cc

  -- An event that does not suspend settles `progress` at once.
  settled :
      (n : ℕ) (s : Session) (e : ChildEvent) (replies : List Reply)
      → is_suspension e.kind ≡ false
      → IsSettled (progress clock n s e replies).answer
  unfolding progress
  settled n s e [] h = elim (Verdict-cases (verdict clock n s e)) [
    | inl (a, t, v) ↦ rw (v, progress) (verdict-IsSettled n s e a t v)
    | inr (x, t, v) ↦ absurd (never_suspended n s e x t v h)
  ]
  settled n s e (lost ∷ rest) h = elim (Verdict-cases (verdict clock n s e)) [
    | inl (a, t, v) ↦ rw (v, progress) (verdict-IsSettled n s e a t v)
    | inr (x, t, v) ↦ absurd (never_suspended n s e x t v h)
  ]
  settled n s e (event f ∷ rest) h = elim (Verdict-cases (verdict clock n s e)) [
    | inl (a, t, v) ↦ rw (v, progress) (verdict-IsSettled n s e a t v)
    | inr (x, t, v) ↦ absurd (never_suspended n s e x t v h)
  ]

  lost_settles :
      (n : ℕ) (s : Session) (e : ChildEvent) (rest : List Reply)
      → IsSettled (progress clock n s e (lost ∷ rest)).answer
  unfolding progress
  lost_settles n s e rest = elim (Verdict-cases (verdict clock n s e)) [
    | inl (a, t, v) ↦ rw (v, progress) (verdict-IsSettled n s e a t v)
    | inr (x, t, v) ↦ rw (v, progress) (stopped_lost n t (abort_request x) rest)
  ]

  event_settles :
      (n : ℕ) (s : Session) (e f : ChildEvent) (rest : List Reply)
      → ((t : Session) → IsSettled (progress clock n t f rest).answer)
      → IsSettled (progress clock n s e (event f ∷ rest)).answer
  unfolding progress
  event_settles n s e f rest again = elim (Verdict-cases (verdict clock n s e)) [
    | inl (a, t, v) ↦ rw (v, progress) (verdict-IsSettled n s e a t v)
    | inr (x, t, v) ↦
        rw (v, progress)
          (if_cases (λ (p : Progressed). IsSettled p.answer) (is_exhausted t) _ _
            (stopped_exhausted n t (abort_request x) (event f ∷ rest))
            (λ k. again (aborted t (abort_request x) f)))
  ]

  -- Once the worker is lost, or sends an event that does not suspend, `progress` gives a result or an
  -- error, whatever the worker sent before: it neither waits for more nor panics.
  pub progress-IsSettled :
      (n : ℕ) (s : Session) (e : ChildEvent) (before after : List Reply) (r : Reply)
      → IsFinal r
      → IsSettled (progress clock n s e (before ++ (r ∷ after))).answer
  progress-IsSettled n s e [] after lost h = lost_settles n s e after
  progress-IsSettled n s e [] after (event f) h =
      event_settles n s e f after (λ t. settled n t f after h)
  progress-IsSettled n s e (lost ∷ before) after r h = lost_settles n s e (before ++ (r ∷ after))
  progress-IsSettled n s e (event f ∷ before) after r h =
      event_settles n s e f (before ++ (r ∷ after)) (λ t. progress-IsSettled n t f before after r h)
