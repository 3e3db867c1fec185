-- ===== src/Session/Sections.antt =====
-- What each critical section does to the turn, the pending run and the runs.
use monty_go.Common.{
  ℕ, suc, ◌<◌, ◌≡◌, ◌≢◌, refl, ap, ◌∙◌, sym, ◌⊎◌, inl, inr, List, [], ◌∷◌, ◌++◌, length, Bool, true,
  false, ◌==◌, ==_iff, not, if◌then◌else◌, Option, none, some, arith,
}
use mathlib.Core.Path.{subst}
use monty_go.Wire.Proto.{Protowire}
use monty_go.Requests.{Request}
use monty_go.Session.{
  Session, Progress, Answer, gives, refuses, waits, panics, SessionError, new_run, run_at, set_run,
}
use monty_go.Session.Exchange.{Reply, execution_exchange}
use monty_go.Session.Advance.{Clock}
use monty_go.Session.Kept.{
  Kept, Kept-trans, Kept-cancel_run, Kept-no_pending, Kept-execution_exchange, Kept-progress,
  if-both,
}
use monty_go.Session.Operations.{
  Called, called, begin_feed, begin_resume, no_turn, is_none, is_pending, is_complete, finish_feed,
  finish_resume, keep_pending,
}
use monty_go.Session.Invariant.{IsRun, Grown, Grown-refl, Kept-Grown, IsRun-Grown}

pub Answer-cases {ℓ} :
    {A : Type ℓ} (a : Answer A)
    → ((x : A) × (a ≡ gives x))
      ⊎ (((e : SessionError) × (a ≡ refuses e)) ⊎ ((a ≡ waits) ⊎ (a ≡ panics)))
Answer-cases (gives x) = inl (x, refl)
Answer-cases (refuses e) = inr (inl (e, refl))
Answer-cases waits = inr (inr (inl refl))
Answer-cases panics = inr (inr (inr refl))

-- A guard that did not refuse.
pub passed {ℓ} :
    {A : Type ℓ} (b : Bool) (x : SessionError) (s : Session) (k c : Called A) (a : A)
    → (if b then called (refuses x) s else k) ≡ c
    → c.answer ≡ gives a
    → (b ≡ false) × (k ≡ c)
passed {A = A} true x s k c a e h = absurd (impossible (ap (λ (c : Called A). c.answer) e ∙ h))
  where
    impossible : refuses x ≡ gives a → ⊥
    impossible d = cc
passed {A = A} false x s k c a e h = (refl, e)

not-is_none : (o : Option ℕ) → not (is_none o) ≡ false → o ≡ none
not-is_none none e = refl
not-is_none (some n) e = cc

not-is_pending : (o : Option ℕ) (n : ℕ) → not (is_pending o n) ≡ false → o ≡ some n
not-is_pending none n e = cc
not-is_pending (some m) n e = ground (arith, ==_iff m n)

equal_of_not : (m n : ℕ) → not (m == n) ≡ false → m ≡ n
equal_of_not m n e = ground (arith, ==_iff m n)

-- `FeedStart` begins where no turn and no suspended feed is, with a new run.
pub begin_feed_lem :
    (s : Session) (c : Called ℕ) (n : ℕ)
    → begin_feed s ≡ c
    → c.answer ≡ gives n
    → (s.closed ≡ false)
      × (s.pending ≡ none)
      × (s.in_turn ≡ false)
      × (n ≡ length s.runs)
      × (c.session ≡ record s { used = true; in_turn = true; runs = s.runs ++ (new_run ∷ []) })
unfolding begin_feed
begin_feed_lem s c n e h =
    let (a, e) = passed s.closed _ s _ c n e h in
    let (b, e) = passed (not (is_none s.pending)) _ s _ c n e h in
    let (d, e) = passed s.in_turn _ s _ c n e h in
    (
      a,
      not-is_none s.pending b,
      d,
      given (ap (λ (c : Called ℕ). c.answer) e ∙ h),
      sym (ap (λ (c : Called ℕ). c.session) e),
    )
  where
    given : {m k : ℕ} → gives m ≡ gives k → k ≡ m
    given p = cc

-- A suspension is answered where its feed is pending and no turn is, at the step of the run, which
-- goes on by one.
pub begin_resume_lem :
    (s : Session) (n step : ℕ) (c : Called (Unit {0}))
    → begin_resume s n step ≡ c
    → c.answer ≡ gives tt
    → (s.closed ≡ false)
      × (s.pending ≡ some n)
      × (s.in_turn ≡ false)
      × ((run_at s.runs n).step ≡ step)
      × (c.session
          ≡ record (set_run s n (record (run_at s.runs n) { step = suc (run_at s.runs n).step })) {
            in_turn = true;
          })
unfolding begin_resume
begin_resume_lem s n step c e h =
    let (a, e) = passed s.closed _ s _ c tt e h in
    let (b, e) = passed (not (is_pending s.pending n)) _ s _ c tt e h in
    let (d, e) = passed s.in_turn _ s _ c tt e h in
    let (f, e) = passed (not ((run_at s.runs n).step == step)) _ s _ c tt e h in
    (
      a,
      not-is_pending s.pending n b,
      d,
      equal_of_not (run_at s.runs n).step step f,
      sym (ap (λ (c : Called (Unit {0})). c.session) e),
    )

-- What a section leaves behind when no turn is on.
pub record Quiet (s t : Session) : Type 0 where
  pub in_turn : t.in_turn ≡ false
  pub grown : Grown s.runs t.runs
  pub pending : IsRun t.pending t.runs

pub Quiet-refl : (s : Session) → s.in_turn ≡ false → IsRun s.pending s.runs → Quiet s s
Quiet-refl s h k = record { in_turn = h; grown = Grown-refl s.runs; pending = k }

pub Kept-Quiet : (s t : Session) → Kept s t → s.in_turn ≡ false → IsRun s.pending s.runs → Quiet s t
Kept-Quiet s t k h p = record {
  in_turn = k.in_turn ∙ h;
  grown = Kept-Grown s t k;
  pending = still k.pending;
}
  where
    still : (t.pending ≡ s.pending) ⊎ (t.pending ≡ none) → IsRun t.pending t.runs
    still (inl e) =
        subst (λ o. IsRun o t.runs) (sym e)
          (IsRun-Grown s.pending s.runs t.runs (Kept-Grown s t k) p)
    still (inr e) = subst (λ o. IsRun o t.runs) (sym e) tt

Kept-no_turn : (s t : Session) → Kept s t → Kept (no_turn s) (no_turn t)
Kept-no_turn s t h = record {
  closed = h.closed;
  used = h.used;
  in_turn = refl;
  count = h.count;
  steps = h.steps;
  pending = h.pending;
}

Quiet-no_turn : (s t : Session) → Quiet (no_turn s) t → Quiet s t
Quiet-no_turn s t h = record { in_turn = h.in_turn; grown = h.grown; pending = h.pending }

Quiet-keep_pending :
    (s t : Session) (n : ℕ) (a : Answer Progress)
    → Quiet s t
    → n < length s.runs
    → Quiet s (keep_pending n a t)
Quiet-keep_pending s t n (gives p) h l =
    if-both (λ (t : Session). Quiet s t) (is_complete p) _ _ h
      (record { in_turn = h.in_turn; grown = h.grown; pending = omega (arith, h.grown.count) })
Quiet-keep_pending s t n (refuses e) h l = h
Quiet-keep_pending s t n waits h l = h
Quiet-keep_pending s t n panics h l = h

module _ ⦃w : Protowire⦄ (clock : Clock) where
  -- The end of a turn, by an answer, an error or a lost worker.
  pub Quiet-finish_resume :
      (s : Session) (n : ℕ) (req : Request) (replies : List Reply)
      → IsRun s.pending s.runs
      → (finish_resume clock s n req replies).answer ≢ waits
      → Quiet s (finish_resume clock s n req replies).session
  unfolding finish_resume
  Quiet-finish_resume s n req replies p h =
      let x = execution_exchange s req replies in
      let k : Kept (no_turn s) (no_turn x.session) =
        Kept-no_turn s x.session (Kept-execution_exchange s req replies) in
      elim (Answer-cases x.answer) [
        | inl (e, a) ↦
            rw (a, finish_resume)
              (Quiet-no_turn s _ (
                Kept-Quiet (no_turn s) _
                  (Kept-trans _ _ _ k (Kept-progress clock n (no_turn x.session) e x.rest)) refl p))
        | inr (inl (e, a)) ↦
            rw (a, finish_resume)
              (Quiet-no_turn s _ (
                Kept-Quiet (no_turn s) _
                  (Kept-trans _ _ _ k (
                    Kept-trans _ _ _ (Kept-no_pending (no_turn x.session))
                      (Kept-cancel_run (record (no_turn x.session) { pending = none }) n)))
                  refl p))
        | inr (inr (inl a)) ↦ absurd (rw (a, finish_resume) at h refl)
        | inr (inr (inr a)) ↦
            rw (a, finish_resume) (Quiet-no_turn s _ (Kept-Quiet (no_turn s) _ k refl p))
      ]

  pub Quiet-finish_feed :
      (s : Session) (n : ℕ) (req : Request) (replies : List Reply)
      → IsRun s.pending s.runs
      → n < length s.runs
      → (finish_feed clock s n req replies).answer ≢ waits
      → Quiet s (finish_feed clock s n req replies).session
  unfolding finish_feed
  Quiet-finish_feed s n req replies p l h =
      let x = execution_exchange s req replies in
      let k : Kept (no_turn s) (no_turn x.session) =
        Kept-no_turn s x.session (Kept-execution_exchange s req replies) in
      elim (Answer-cases x.answer) [
        | inl (e, a) ↦
            rw (a, finish_feed)
              (Quiet-keep_pending s _ n _
                (Quiet-no_turn s _ (
                  Kept-Quiet (no_turn s) _
                    (Kept-trans _ _ _ k (Kept-progress clock n (no_turn x.session) e x.rest)) refl
                    p))
                l)
        | inr (inl (e, a)) ↦
            rw (a, finish_feed)
              (Quiet-no_turn s _ (
                Kept-Quiet (no_turn s) _
                  (Kept-trans _ _ _ k (Kept-cancel_run (no_turn x.session) n)) refl p))
        | inr (inr (inl a)) ↦ absurd (rw (a, finish_feed) at h refl)
        | inr (inr (inr a)) ↦
            rw (a, finish_feed) (Quiet-no_turn s _ (Kept-Quiet (no_turn s) _ k refl p))
      ]
