-- ===== src/Session/Verdicts.antt =====
-- `progress` and the verdicts that it goes through.
use monty_go.Common.{
  ℕ, ◌≡◌, ◌≢◌, refl, ap, ◌∙◌, ◌⊎◌, inl, inr, List, [], ◌∷◌, Bool, true, false, if◌then◌else◌,
}
use monty_go.Wire.Proto.{Protowire}
use monty_go.Exceptions.{RaisedException}
use monty_go.Events.{ChildEvent}
use monty_go.Session.{Session, Progress, Answer, gives, refuses, waits, panics}
use monty_go.Session.Exchange.{Reply, event, lost, Exchanged, is_exhausted, execution_exchange}
use monty_go.Session.Advance.{
  Clock, Verdict, ends, aborts, verdict, Progressed, progress, stopped_by, failed_exchange, aborted,
  abort_request,
}

pub Verdict-cases :
    (v : Verdict)
    → ((a : Answer Progress) × (t : Session) × (v ≡ ends a t))
      ⊎ ((x : RaisedException) × (t : Session) × (v ≡ aborts x t))
Verdict-cases (ends a t) = inl (a, t, refl)
Verdict-cases (aborts x t) = inr (x, t, refl)

-- A failed exchange gives no progress.
failed_no_progress :
    (n : ℕ) (x : Exchanged) (a : Answer ChildEvent) (p : Progress)
    → (failed_exchange n x a).answer ≢ gives p
failed_no_progress n x (gives e) p h = cc
failed_no_progress n x (refuses e) p h = cc
failed_no_progress n x waits p h = cc
failed_no_progress n x panics p h = cc

stopped_no_progress : (n : ℕ) (x : Exchanged) (p : Progress) → (stopped_by n x).answer ≢ gives p
stopped_no_progress n x p = failed_no_progress n x x.answer p

-- What holds of the verdict that ends `progress`, and passes back over an abort and the event that
-- answers it, holds of `progress`.
module _ ⦃w : Protowire⦄ (clock : Clock) (n : ℕ) (P : Session → Progress → Session → Type 0)
    (last : (s : Session) (e : ChildEvent) (p : Progress) (t : Session)
      → verdict clock n s e ≡ ends (gives p) t
      → P s p t)
    (before : (s : Session) (e f : ChildEvent) (x : RaisedException) (u : Session) (p : Progress)
        (t : Session)
      → verdict clock n s e ≡ aborts x u
      → P (aborted u (abort_request x) f) p t
      → P s p t) where
  over_end :
      (s : Session) (e : ChildEvent) (a : Answer Progress) (t : Session) (p : Progress)
      → verdict clock n s e ≡ ends a t
      → a ≡ gives p
      → P s p t
  over_end s e a t p v h = last s e p t (v ∙ ap (λ a. ends a t) h)

  over_if :
      (s : Session) (p : Progress) (b : Bool) (x y : Progressed)
      → x.answer ≢ gives p
      → (y.answer ≡ gives p → P s p y.session)
      → (if b then x else y).answer ≡ gives p
      → P s p (if b then x else y).session
  over_if s p true x y h k e = absurd (h e)
  over_if s p false x y h k e = k e

  pub over_progress :
      (s : Session) (e : ChildEvent) (replies : List Reply) (p : Progress)
      → (progress clock n s e replies).answer ≡ gives p
      → P s p (progress clock n s e replies).session
  unfolding progress
  over_progress s e [] p h = elim (Verdict-cases (verdict clock n s e)) [
    | inl (a, t, v) ↦ rw (v, progress) (over_end s e a t p v (rw (v, progress) at h))
    | inr (x, t, v) ↦ absurd (
        stopped_no_progress n (execution_exchange t (abort_request x) []) p (rw (v, progress) at h))
  ]
  over_progress s e (lost ∷ rest) p h = elim (Verdict-cases (verdict clock n s e)) [
    | inl (a, t, v) ↦ rw (v, progress) (over_end s e a t p v (rw (v, progress) at h))
    | inr (x, t, v) ↦ absurd (
        stopped_no_progress n (execution_exchange t (abort_request x) (lost ∷ rest)) p
          (rw (v, progress) at h))
  ]
  over_progress s e (event f ∷ rest) p h = elim (Verdict-cases (verdict clock n s e)) [
    | inl (a, t, v) ↦ rw (v, progress) (over_end s e a t p v (rw (v, progress) at h))
    | inr (x, t, v) ↦
        rw (v, progress)
          (over_if s p (is_exhausted t) _ _
            (stopped_no_progress n (execution_exchange t (abort_request x) (event f ∷ rest)) p)
            (λ k. before s e f x t p _ v (over_progress (aborted t (abort_request x) f) f rest p k))
            (rw (v, progress) at h))
  ]
