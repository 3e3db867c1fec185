-- ===== src/Session/Safety.antt =====
-- What holds in every state that the critical sections of a session reach.
use monty_go.Common.{
  ℕ, suc, ◌<◌, ◌≡◌, ◌≢◌, refl, ap, ◌∙◌, sym, inl, inr, List, [], ◌∷◌, ◌++◌, Bytes, length,
  length-append, Bool, true, false, Option, none, some, arith, All,
}
use mathlib.Core.Path.{subst}
use monty_go.Wire.Proto.{Protowire}
use monty_go.Session.{Session, RunState, Progress, waits, new_run, run_at, put_run}
use monty_go.Session.Advance.{Clock}
use monty_go.Session.Operations.{Called}
use monty_go.Session.Kept.{length-put_run}
use monty_go.Session.Machine.{
  Turn, feed_turn, resume_turn, System, system, IsFresh, Step, feed_begins, feed_ends,
  resume_begins, resume_ends, closes, dumps_snapshot, dumps, installs, loads, Reach, starts, later,
}
use monty_go.Session.Invariant.{
  TurnInv, IsRun, IsBegun, IsDistinct, Grown-append, Grown-put_run, IsBegun-Grown, IsRun-Grown,
  begun_fresh, run_at-put_run,
}
use monty_go.Session.Sections.{
  Quiet, begin_feed_lem, begin_resume_lem, Quiet-finish_feed, Quiet-finish_resume,
}
use monty_go.Session.Others.{
  Same, IsIdle, begin_close_lem, load_lem, Same-snapshot_dump, Same-dump, Same-install_dependencies,
}

pub record Inv (x : System) : Type 0 where
  pub turn : TurnInv x.turns x.session
  pub pending : IsRun x.session.pending x.session.runs
  pub begun : All (IsBegun x.session.runs) x.begun
  pub distinct : IsDistinct x.begun

no_turns : (ts : List Turn) (s : Session) → TurnInv ts s → s.in_turn ≡ false → ts ≡ []
no_turns [] s h e = refl
no_turns (feed_turn n ∷ []) s (h, a, b, l) e = cc
no_turns (resume_turn n ∷ []) s (h, a, b) e = cc
no_turns (t ∷ u ∷ ts) s h e = absurd h

-- The turn that ends is the only one.
only_turn :
    (before after : List Turn) (t : Turn) (s : Session)
    → TurnInv (before ++ (t ∷ after)) s
    → (before ++ after ≡ []) × TurnInv (t ∷ []) s
only_turn [] [] t s h = (refl, h)
only_turn [] (u ∷ us) (feed_turn n) s h = absurd h
only_turn [] (u ∷ us) (resume_turn n) s h = absurd h
only_turn (feed_turn n ∷ []) after t s h = absurd h
only_turn (resume_turn n ∷ []) after t s h = absurd h
only_turn (u ∷ v ∷ before) after t s h = absurd h

TurnInv-Same : (ts : List Turn) (s t : Session) → Same s t → TurnInv ts s → TurnInv ts t
TurnInv-Same [] s t k h = k.in_turn ∙ h
TurnInv-Same (feed_turn n ∷ []) s t k (a, b, c, l) =
    (k.in_turn ∙ a, k.closed ∙ b, k.pending ∙ c, omega (arith, l, ap length k.runs))
TurnInv-Same (resume_turn n ∷ []) s t k (a, b, c) = (k.in_turn ∙ a, k.closed ∙ b, k.pending ∙ c)
TurnInv-Same (u ∷ v ∷ ts) s t k h = absurd h

Inv-Same : (x : System) (t : Session) → Same x.session t → Inv x → Inv (system t x.turns x.begun)
Inv-Same x t k h = record {
  turn = TurnInv-Same x.turns x.session t k h.turn;
  pending =
      subst (λ o. IsRun o t.runs) (sym k.pending)
        (subst (λ rs. IsRun x.session.pending rs) (sym k.runs) h.pending);
  begun = subst (λ rs. All (IsBegun rs) x.begun) (sym k.runs) h.begun;
  distinct = h.distinct;
}

-- A turn that ends leaves none behind.
Inv-Quiet :
    (x : System) (t : Session) (ts : List Turn)
    → Quiet x.session t
    → ts ≡ []
    → Inv x
    → Inv (system t ts x.begun)
Inv-Quiet x t ts q e h = record {
  turn = subst (λ ts. TurnInv ts t) (sym e) q.in_turn;
  pending = q.pending;
  begun = IsBegun-Grown x.session.runs t.runs x.begun q.grown h.begun;
  distinct = h.distinct;
}

Inv-idle : (x : System) (t : Session) → IsIdle x.session t → Inv x → Inv (system t x.turns x.begun)
Inv-idle x t (inl e) h = subst (λ t. Inv (system t x.turns x.begun)) (sym e) h
Inv-idle x t (inr (e, q)) h = Inv-Quiet x t x.turns q (no_turns x.turns x.session h.turn e) h

abbrev fed : Session → Session
fed s = record s { used = true; in_turn = true; runs = s.runs ++ (new_run ∷ []) }

Inv-feed_begins :
    (x : System)
    → Inv x
    → x.session.closed ≡ false
    → x.session.pending ≡ none
    → x.session.in_turn ≡ false
    → Inv (system (fed x.session) (feed_turn (length x.session.runs) ∷ x.turns) x.begun)
Inv-feed_begins x h a b d =
    let rs = x.session.runs in
    let g = Grown-append rs new_run in
    record {
      turn =
          subst (λ ts. TurnInv (feed_turn (length rs) ∷ ts) (fed x.session))
            (sym (no_turns x.turns x.session h.turn d))
            (refl, a, b, omega (arith, length-append rs (new_run ∷ [])));
      pending = IsRun-Grown x.session.pending rs _ g h.pending;
      begun = IsBegun-Grown rs _ x.begun g h.begun;
      distinct = h.distinct;
    }

abbrev gone_on : RunState → RunState
gone_on r = record r { step = suc r.step }

abbrev resumed : Session → ℕ → Session
resumed s n = record s { in_turn = true; runs = put_run s.runs n (gone_on (run_at s.runs n)) }

Inv-resume_begins :
    (x : System) (n : ℕ)
    → Inv x
    → x.session.closed ≡ false
    → x.session.pending ≡ some n
    → x.session.in_turn ≡ false
    → Inv (
        system
          (resumed x.session n)
          (resume_turn n ∷ x.turns)
          ((n, (run_at x.session.runs n).step) ∷ x.begun))
Inv-resume_begins x n h a b d =
    let rs = x.session.runs in
    let r = gone_on (run_at rs n) in
    let g = Grown-put_run rs n r (omega arith) in
    let l : n < length rs = subst (λ o. IsRun o rs) b h.pending in
    record {
      turn =
          subst (λ ts. TurnInv (resume_turn n ∷ ts) (resumed x.session n))
            (sym (no_turns x.turns x.session h.turn d)) (refl, a, b);
      pending = IsRun-Grown x.session.pending rs _ g h.pending;
      begun = (
        (
          omega (arith, l, length-put_run rs n r),
          omega (arith, ap (λ r. r.step) (run_at-put_run rs n r l)),
        ),
        IsBegun-Grown rs _ x.begun g h.begun,
      );
      distinct = (begun_fresh rs n x.begun h.begun, h.distinct);
    }

module _ ⦃w : Protowire⦄ (clock : Clock) where
  pub Step-Inv : (x y : System) → Inv x → Step clock x y → Inv y
  Step-Inv x y h (feed_begins n {c} e k) =
      let (a, b, d, m, s) = begin_feed_lem x.session c n e k in
      subst (λ t. Inv (system t (feed_turn n ∷ x.turns) x.begun)) (sym s)
        (subst (λ n. Inv (system (fed x.session) (feed_turn n ∷ x.turns) x.begun)) (sym m)
          (Inv-feed_begins x h a b d))
  Step-Inv x y h (feed_ends n before after req replies {c} l e k) =
      let (none_left, (_, _, _, bound)) =
        only_turn before after (feed_turn n) x.session
          (subst (λ ts. TurnInv ts x.session) l h.turn) in
      Inv-Quiet x c.session (before ++ after)
        (subst (λ (c : Called Progress). c.answer ≢ waits → Quiet x.session c.session) e
          (Quiet-finish_feed clock x.session n req replies h.pending bound) k)
        none_left h
  Step-Inv x y h (resume_begins n step {c} e k) =
      let (a, b, d, m, s) = begin_resume_lem x.session n step c e k in
      subst (λ t. Inv (system t (resume_turn n ∷ x.turns) ((n, step) ∷ x.begun))) (sym s)
        (subst
          (λ step.
            Inv (system (resumed x.session n) (resume_turn n ∷ x.turns) ((n, step) ∷ x.begun)))
          m (Inv-resume_begins x n h a b d))
  Step-Inv x y h (resume_ends n before after req replies {c} l e k) =
      let (none_left, _) =
        only_turn before after (resume_turn n) x.session
          (subst (λ ts. TurnInv ts x.session) l h.turn) in
      Inv-Quiet x c.session (before ++ after)
        (subst (λ (c : Called Progress). c.answer ≢ waits → Quiet x.session c.session) e
          (Quiet-finish_resume clock x.session n req replies h.pending) k)
        none_left h
  Step-Inv x y h (closes b {c} e k) =
      Inv-idle x c.session
        (subst (λ (c : Called Bool). IsIdle x.session c.session) e (begin_close_lem x.session)) h
  Step-Inv x y h (dumps_snapshot {c} n step replies e k) =
      Inv-Same x c.session
        (subst (λ (c : Called Bytes). Same x.session c.session) e
          (Same-snapshot_dump x.session n step replies))
        h
  Step-Inv x y h (dumps {c} replies e k) =
      Inv-Same x c.session
        (subst (λ (c : Called Bytes). Same x.session c.session) e (Same-dump x.session replies)) h
  Step-Inv x y h (installs {c} rs replies e k) =
      Inv-Same x c.session
        (subst (λ (c : Called (Unit {0})). Same x.session c.session) e
          (Same-install_dependencies x.session rs replies))
        h
  Step-Inv x y h (loads {c} dumped replies e k) =
      Inv-idle x c.session
        (subst (λ (c : Called (Option Progress)). IsIdle x.session c.session) e
          (load_lem clock x.session dumped replies h.pending))
        h

  Inv-fresh : (s : Session) → IsFresh s → Inv (system s [] [])
  Inv-fresh s f = record {
    turn = f.no_turn;
    pending = subst (λ o. IsRun o s.runs) (sym f.no_pending) tt;
    begun = tt;
    distinct = tt;
  }

  pub Reach-Inv : (s : Session) (x : System) → IsFresh s → Reach clock s x → Inv x
  Reach-Inv s x f starts = Inv-fresh s f
  Reach-Inv s x f (later {x = y} r st) = Step-Inv y x (Reach-Inv s y f r) st
