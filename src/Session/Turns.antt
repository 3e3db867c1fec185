-- ===== src/Session/Turns.antt =====
-- What the mutex and the flags of a session promise the goroutines that share it.
use monty_go.Common.{
  ℕ, ◌<◌, ◌≡◌, refl, ◌∙◌, sym, ◌⊎◌, inl, inr, List, [], ◌∷◌, ◌++◌, Bytes, Bool, true, false, ◌==◌,
  ==_iff, not, if◌then◌else◌, arith, All,
}
use mathlib.Core.Path.{subst}
use monty_go.Errors.{Result-cases, Returns}
use monty_go.Wire.Proto.{Protowire, Laws}
use monty_go.Snapshot.{decode_snapshot}
use monty_go.Snapshot.Checks.{decode_snapshot-Returns}
use monty_go.Session.{Session, SessionError, refuses, active_turn, codec, run_at}
use monty_go.Session.Exchange.{Reply}
use monty_go.Session.Advance.{Clock}
use monty_go.Session.Operations.{
  Called, called, is_none, is_pending, begin_feed, begin_resume, begin_close, snapshot_dump, dump,
  install_dependencies,
}
use monty_go.Session.Load.{load, load_decoded}
use monty_go.Session.Machine.{Turn, feed_turn, resume_turn, System, IsFresh, Reach}
use monty_go.Session.Invariant.{TurnInv, IsBegun, IsDistinct}
use monty_go.Session.Safety.{Reach-Inv}

-- A call that fails and leaves the session as it is.
abbrev pub IsRefused {ℓ} : {A : Type ℓ} → Session → Called A → Type ℓ
IsRefused s c = (e : SessionError) × (c ≡ called (refuses e) s)

-- No turn is on, or one, and then the session is open.
abbrev pub IsTurn : System → Type 0
IsTurn x =
    ((x.turns ≡ []) × (x.session.in_turn ≡ false))
    ⊎ ((t : Turn) × (x.turns ≡ t ∷ []) × (x.session.in_turn ≡ true) × (x.session.closed ≡ false))

IsRefused-at {ℓ} :
    {A : Type ℓ} (s : Session) (b : Bool) (e : SessionError) (k : Called A)
    → b ≡ true
    → IsRefused s (if b then called (refuses e) s else k)
IsRefused-at s true e k h = (e, refl)
IsRefused-at s false e k h = cc

IsRefused-later {ℓ} :
    {A : Type ℓ} (s : Session) (b : Bool) (e : SessionError) (k : Called A)
    → IsRefused s k
    → IsRefused s (if b then called (refuses e) s else k)
IsRefused-later s true e k h = (e, refl)
IsRefused-later s false e k h = h

-- An answered suspension that is still its run's would be at an earlier step.
begun_All :
    (P : ℕ × ℕ → Type 0) (before after : List (ℕ × ℕ)) (p : ℕ × ℕ)
    → All P (before ++ (p ∷ after))
    → P p
begun_All P [] after p h = h.0
begun_All P (q ∷ before) after p h = begun_All P before after p h.1

other_step : (m n : ℕ) → n < m → not (m == n) ≡ true
other_step m n h = ground (arith, ==_iff m n)

turn_of :
    (ts : List Turn) (s : Session)
    → TurnInv ts s
    → ((ts ≡ []) × (s.in_turn ≡ false))
      ⊎ ((t : Turn) × (ts ≡ t ∷ []) × (s.in_turn ≡ true) × (s.closed ≡ false))
turn_of [] s h = inl (refl, h)
turn_of (feed_turn n ∷ []) s (h, k, p, l) = inr (feed_turn n, refl, h, k)
turn_of (resume_turn n ∷ []) s (h, k, p) = inr (resume_turn n, refl, h, k)
turn_of (t ∷ u ∷ ts) s h = absurd h

module _ ⦃w : Protowire⦄ (clock : Clock) where
  -- At most one goroutine of a session is between the sections of a turn, whatever the calls and
  -- their order; the flag `inTurn` tells whether there is one, and while there is the session is
  -- open.
  pub at_most_one-IsTurn : (s : Session) (x : System) → IsFresh s → Reach clock s x → IsTurn x
  at_most_one-IsTurn s x f r = turn_of x.turns x.session (Reach-Inv clock s x f r).turn

  -- A suspension, which is a run and a step of it, is answered at most once.
  pub answered_once : (s : Session) (x : System) → IsFresh s → Reach clock s x → IsDistinct x.begun
  answered_once s x f r = (Reach-Inv clock s x f r).distinct

  -- After a suspension was answered, every call that would answer it again or dump it fails and
  -- leaves the session as it is, in every state that is reached.
  pub answered_IsRefused :
      (s : Session) (x : System) (n step : ℕ) (before after : List (ℕ × ℕ)) (replies : List Reply)
      → IsFresh s
      → Reach clock s x
      → x.begun ≡ before ++ ((n, step) ∷ after)
      → IsRefused x.session (begin_resume x.session n step)
        × IsRefused x.session (snapshot_dump x.session n step replies)
  unfolding begin_resume snapshot_dump
  answered_IsRefused s x n step before after replies f r e =
      let (l, less) =
        begun_All (IsBegun x.session.runs) before after (n, step)
          (subst (λ ps. All (IsBegun x.session.runs) ps) e (Reach-Inv clock s x f r).begun) in
      let gone = other_step (run_at x.session.runs n).step step less in
      let u = x.session in
      (
        IsRefused-later u u.closed _ _ (
            IsRefused-later u (not (is_pending u.pending n)) _ _ (
              IsRefused-later u u.in_turn _ _
                (IsRefused-at u (not ((run_at u.runs n).step == step)) _ _ gone))),
        IsRefused-later u u.closed _ _ (
            IsRefused-later u (not (is_pending u.pending n)) _ _
              (IsRefused-at u (not ((run_at u.runs n).step == step)) _ _ gone)),
      )

  load-IsRefused :
      Laws w
      → (s : Session) (dumped : Bytes) (replies : List Reply) → s.in_turn ≡ true
      → IsRefused s (load clock s dumped replies)
  unfolding load load_decoded
  load-IsRefused laws s dumped replies h = elim (Result-cases (decode_snapshot dumped)) [
    | inl ((state, m), e) ↦
        rw (e, load)
          (IsRefused-later s s.closed _ _
            (IsRefused-later s (not (is_none s.pending)) _ _ (IsRefused-at s s.in_turn _ _ h)))
    | inr (inl (x, e)) ↦ rw (e, load) (codec x, refl)
    | inr (inr e) ↦ absurd (subst Returns e (decode_snapshot-Returns laws dumped))
  ]

  -- While a turn is on, no feed starts, no suspension is answered, and `Close`, `Dump`,
  -- `InstallDependencies` and the loads fail, and each of them leaves the session as it is.
  pub turn_IsRefused :
      Laws w
      → (s : Session) (x : System) (t : Turn) (ts : List Turn) (n step : ℕ) (bytes : Bytes)
        (requirements : List Bytes) (replies : List Reply)
      → IsFresh s
      → Reach clock s x
      → x.turns ≡ t ∷ ts
      → IsRefused x.session (begin_feed x.session)
        × IsRefused x.session (begin_resume x.session n step)
        × (begin_close x.session ≡ called (refuses active_turn) x.session)
        × IsRefused x.session (dump x.session replies)
        × IsRefused x.session (install_dependencies x.session requirements replies)
        × IsRefused x.session (load clock x.session bytes replies)
  unfolding begin_feed begin_resume begin_close dump install_dependencies
  turn_IsRefused laws s x t ts n step bytes requirements replies f r e =
      elim (at_most_one-IsTurn s x f r) [
        | inl (idle, h) ↦ absurd (held (sym idle ∙ e))
        | inr (u, one, h, opened) ↦
            let v = x.session in
            (
              IsRefused-later v v.closed _ _ (
                  IsRefused-later v (not (is_none v.pending)) _ _ (IsRefused-at v v.in_turn _ _ h)),
              IsRefused-later v v.closed _ _ (
                  IsRefused-later v (not (is_pending v.pending n)) _ _
                    (IsRefused-at v v.in_turn _ _ h)),
              busy v opened h,
              IsRefused-later v v.closed _ _ (
                  IsRefused-later v (not (is_none v.pending)) _ _ (IsRefused-at v v.in_turn _ _ h)),
              IsRefused-later v v.closed _ _ (
                  IsRefused-later v (not (is_none v.pending)) _ _ (IsRefused-at v v.in_turn _ _ h)),
              load-IsRefused laws v bytes replies h,
            )
      ]
    where
      held : [] ≡ t ∷ ts → ⊥
      held d = cc

      busy :
          (v : Session)
          → v.closed ≡ false
          → v.in_turn ≡ true
          → begin_close v ≡ called (refuses active_turn) v
      busy v a b = rw (a, b) refl
