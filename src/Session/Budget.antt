-- ===== src/Session/Budget.antt =====
-- The budgets that `progress` enforces: suspensions and the total of system sleeps.
use monty_go.Common.{
  ℕ, suc, ◌≤◌, ◌<◌, ◌+◌, ◌%◌, ◌^◌, ◌≡◌, refl, sym, ap, ◌∙◌, List, length, Bool, true, false,
  if◌then◌else◌, arith,
}
use mathlib.Core.Path.{subst}
use monty_go.Wire.Proto.{Protowire}
use monty_go.Events.{ChildEvent}
use monty_go.Events.OsCall.{OsCall}
use monty_go.Requests.{Request}
use monty_go.Session.{Session, RunState, Progress, os_snapshot, gives, run_at}
use monty_go.Session.Exchange.{Reply, max_int64}
use monty_go.Session.Advance.{
  Clock, Verdict, ends, aborts, charge, is_system_sleep, verdict, progress, aborted, abort_request,
}
use monty_go.Session.Operations.{is_complete}
use monty_go.Session.Kept.{length-put_run}
use monty_go.Session.Verdicts.{over_progress}
use monty_go.Session.Carried.{counted_in-IsRecounted, aborted-Carries, charge-Carries, charge-limit}
use monty_go.Session.Charged.{Slept, Sleeps, granted-Slept, aborted-Slept}
use monty_go.Session.Spends.{
  IsCounted, counted_in, LimitsOf, Within, Within-verdict, Limits-Leaves, choose_second,
}

-- What the suspensions of run `n` are, between `s` and `t`.
abbrev pub Counted : ℕ → Session → Session → Type 0
Counted n s t =
    (aborts_sent : ℕ) × (length t.sent ≡ aborts_sent + length s.sent)
    × ((run_at t.runs n).suspensions
        ≡ ((run_at s.runs n).suspensions
            + (aborts_sent + (if (run_at s.runs n).restoring then 0 else 1)))
          % 2 ^ 64)
    × IsCounted n t

abbrev Counts : ℕ → Session → Progress → Session → Type 0
Counts n s p t =
    is_complete p ≡ false
    → n < length s.runs
    → (run_at s.runs n).suspensions < 2 ^ 64
    → Counted n s t

charge-Counted :
    (n : ℕ) (s : Session) (b : Bool) (delay : ℕ)
    → n < length s.runs
    → (run_at s.runs n).suspensions < 2 ^ 64
    → IsCounted n (counted_in n s)
    → Counted n s (charge (counted_in n s) b delay)
charge-Counted n s b delay h k few =
    let c = charge-Carries (counted_in n s) b delay in
    let same = ap (λ rs. (run_at rs n).suspensions) c.runs in
    let total = (counted_in-IsRecounted n s h).total k in
    let limit = charge-limit (counted_in n s) b delay in
    let sent = ap length c.sent in (0, omega arith, omega arith, at_most few same limit)
  where
    at_most : {a b c d : ℕ} → a ≤ b → c ≡ a → d ≡ b → c ≤ d
    at_most x y z = omega arith

one_more :
    (a c w i o u : ℕ)
    → w ≡ (a + c) % 2 ^ 64
    → o ≡ 1
    → u ≡ (w + (i + o)) % 2 ^ 64
    → u ≡ (a + (suc i + c)) % 2 ^ 64
one_more a c w i o u h k e = omega arith

adds_one : (r : RunState) → r.restoring ≡ false → ◌≡◌ {A = ℕ} (if r.restoring then 0 else 1) 1
adds_one r h = choose_second r.restoring 0 1 h

-- An abort on the way is one suspension, and one request.
aborted-Counted :
    (n : ℕ) (s : Session) (req : Request) (f : ChildEvent) (p : Progress) (t : Session)
    → Counts n (aborted (counted_in n s) req f) p t
    → Counts n s p t
aborted-Counted n s req f p t again e h k =
    let cs = counted_in n s in
    let w = aborted cs req f in
    let (c, used) = aborted-Carries cs req f in
    let rc = counted_in-IsRecounted n s h in
    let same = ap (λ rs. run_at rs n) c.runs in
    let total = rc.total k in
    let asked = ap length c.sent in
    let counted = ap (λ (r : RunState). r.suspensions) same in
    let one = adds_one (run_at w.runs n) (ap (λ (r : RunState). r.restoring) same ∙ rc.again) in
    let many = ap length c.runs ∙ length-put_run s.runs n _ in
    let small = rc.bounded k in
    let (i, sent, tot, few) = again e (omega arith) (omega arith) in
    (suc i, omega arith, one_more _ _ _ _ _ _ (counted ∙ total) one tot, few)

module _ ⦃w : Protowire⦄ (clock : Clock) (n : ℕ) where
  verdict-Limits :
      (s : Session) (e : ChildEvent) (v : Verdict)
      → verdict clock n s e ≡ v
      → LimitsOf clock n (run_at s.runs n).restoring (counted_in n s) v
  verdict-Limits s e v h =
      (subst (Within clock n (run_at s.runs n).restoring (counted_in n s)) h
        (Within-verdict clock n s e)).limits

  -- When `progress` gives a snapshot of a run, the run has counted, modulo 2 ^ 64, one suspension for
  -- each abort that was sent on the way, and one for the snapshot, but not the first of them again
  -- where the run was restored at it; and that count is at most the session's limit, or 1000 where it
  -- has none. The run exists, and its count before was a uint64.
  pub progress-IsCounted :
      (s : Session) (e : ChildEvent) (replies : List Reply) (p : Progress)
      → (progress clock n s e replies).answer ≡ gives p
      → is_complete p ≡ false
      → n < length s.runs
      → (run_at s.runs n).suspensions < 2 ^ 64
      → Counted n s (progress clock n s e replies).session
  progress-IsCounted s e replies p h =
      over_progress clock n (Counts n)
        (λ s e p t v nc i k.
          let (few, (b, delay, q)) =
            Limits-Leaves clock n _ _ p t nc (verdict-Limits s e (ends (gives p) t) v) in
          subst (Counted n s) (sym q) (charge-Counted n s b delay i k few))
        (λ s e f x u p t v again. aborted-Counted n s (abort_request x) f p t (
          subst (λ z. Counts n (aborted z (abort_request x) f) p t)
            (verdict-Limits s e (aborts x u) v) again))
        s e replies p h

  -- When `progress` gives a system sleep of a run, it has a delay, at most the session's cap on one
  -- sleep where there is one, which is the call's first argument in seconds. The sleep that the
  -- session has used grows by that delay, up to the largest int64, unless the run was restored at this
  -- suspension with its sleep charged; and where the session has a sleep limit, what is used then is
  -- at most the limit. The run exists, and the sleep used before was an int64.
  pub progress-IsSlept :
      (s : Session) (e : ChildEvent) (replies : List Reply) (m step : ℕ) (c : OsCall)
      → (progress clock n s e replies).answer ≡ gives (os_snapshot m step c)
      → is_system_sleep c.name ≡ true
      → n < length s.runs
      → s.sleep_used ≤ max_int64
      → Slept clock n s c (progress clock n s e replies).session
  progress-IsSlept s e replies m step c h =
      over_progress clock n (Sleeps clock n)
        (λ s e p t v m step c q sleep i k.
          let (few, (b, delay, r, grant)) =
            verdict-Limits s e (ends (gives (os_snapshot m step c)) t)
              (v ∙ ap (λ p. ends (gives p) t) q) in
          subst (Slept clock n s c) (sym r) (granted-Slept clock n s c b delay i k (grant sleep)))
        (λ s e f x u p t v again. aborted-Slept clock n s (abort_request x) f p t (
          subst (λ z. Sleeps clock n (aborted z (abort_request x) f) p t)
            (verdict-Limits s e (aborts x u) v) again))
        s e replies (os_snapshot m step c) h m step c refl
