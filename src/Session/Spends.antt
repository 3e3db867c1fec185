-- ===== src/Session/Spends.antt =====
-- What one step of `progress` does to the budgets: suspensions and the total of system sleeps.
use monty_go.Common.{
  ℕ, ◌≤◌, ◌≡◌, refl, ap, List, [], ◌∷◌, Bytes, Bool, true, false, ◌==◌, ◌&&◌, ◌||◌, ltb, leb,
  if◌then◌else◌, Option, none, arith, ==_iff,
}
use mathlib.Core.Path.{subst, sym}
use monty_go.Errors.{Result, ok, err, stuck, result_of}
use monty_go.Wire.Proto.{Protowire}
use monty_go.Wire.Parse.{parse_fields, decode_string_field, decode_bytes_field}
use monty_go.Value.{Value}
use monty_go.Exceptions.Raised.{decode_error_event}
use monty_go.Events.{
  ChildEvent, CallEvent, decode_complete, decode_function_call, decode_source_range,
}
use monty_go.Events.OsCall.{OsCall, OsArg, float_arg, decode_os_call}
use monty_go.Session.{
  Session, SessionError, Progress, complete, function_snapshot, os_snapshot, name_snapshot,
  future_snapshot, Answer, gives, refuses, waits, panics, run_at, set_run, cancel_run,
}
use monty_go.Session.Advance.{
  Clock, Verdict, ends, aborts, suspension_limit, count_suspension, is_suspension, exceeds_sleep,
  charge, capped_delay, is_system_sleep, sleep_verdict, sleep_call_verdict, os_verdict,
  kind_verdict, verdict, decoded, object_field, classify_runtime,
}
use monty_go.Session.Operations.{is_complete}

-- The suspensions that a run has made are within the limit.
abbrev pub IsCounted : ℕ → Session → Type 0
IsCounted n s = (run_at s.runs n).suspensions ≤ suspension_limit s

-- The session with a suspension of a run counted.
abbrev pub counted_in : ℕ → Session → Session
counted_in n s = set_run s n (count_suspension (run_at s.runs n))

-- What a granted sleep is: `b` tells that it was charged before, and `delay` is its length.
abbrev pub Grant : Clock → ℕ → Bool → Session → OsCall → Bool → ℕ → Type 0
Grant clock n r s c b delay =
    (b ≡ (r && (run_at s.runs n).restore_sleep_charged))
    × (exceeds_sleep s b delay ≡ false)
    × ((bits : ℕ) × (rest : List OsArg) × (delay
          ≡ capped_delay s.system_sleep_max (clock.nanoseconds bits))
        × (c.args ≡ float_arg (clock.seconds delay) ∷ rest))

-- The session that a snapshot leaves, where `s` has its suspension counted.
abbrev pub Leaves : ℕ → Session → Session → Type 0
Leaves n s t = IsCounted n s × ((b : Bool) × (delay : ℕ) × (t ≡ charge s b delay))

abbrev pub Limits : Clock → ℕ → Bool → Session → Answer Progress → Session → Type 0
Limits clock n r s (gives (complete v)) t = Unit {0}
Limits clock n r s (gives (function_snapshot m k c)) t = Leaves n s t
Limits clock n r s (gives (os_snapshot m k c)) t =
    IsCounted n s
    × ((b : Bool) × (delay : ℕ) × (t ≡ charge s b delay)
        × (is_system_sleep c.name ≡ true → Grant clock n r s c b delay))
Limits clock n r s (gives (name_snapshot m k x y o)) t = Leaves n s t
Limits clock n r s (gives (future_snapshot m k x ids)) t = Leaves n s t
Limits clock n r s (refuses e) t = Unit {0}
Limits clock n r s waits t = Unit {0}
Limits clock n r s panics t = Unit {0}

abbrev pub LimitsOf : Clock → ℕ → Bool → Session → Verdict → Type 0
LimitsOf clock n r s (ends a t) = Limits clock n r s a t
LimitsOf clock n r s (aborts x t) = t ≡ s

pub record Within (clock : Clock) (n : ℕ) (r : Bool) (s : Session) (v : Verdict) : Type 0 where
  pub limits : LimitsOf clock n r s v

pub if_cases {ℓ κ} :
    {A : Type ℓ} (P : A → Type κ) (b : Bool) (x y : A)
    → (b ≡ true → P x)
    → (b ≡ false → P y)
    → P (if b then x else y)
if_cases P true x y h k = h refl
if_cases P false x y h k = k refl

pub suspends : (k j : ℕ) → (k == j) ≡ true → is_suspension j ≡ true → is_suspension k ≡ true
suspends k j h e = ground (arith, ==_iff k j)

no_end : (k : ℕ) → is_suspension k ≡ true → ((k == 6) || leb 7 k) ≡ false
no_end k h = ground (arith, ==_iff k 6)

pub choose_second {ℓ} : {A : Type ℓ} (b : Bool) (x y : A) → b ≡ false → (if b then x else y) ≡ y
choose_second true x y h = cc
choose_second false x y h = refl

module _ (clock : Clock) (n : ℕ) (r : Bool) (cs : Session) where
  abbrev Spends : Verdict → Type 0
  Spends = Within clock n r cs

  within : (v : Verdict) → LimitsOf clock n r cs v → Spends v
  within v h = record { limits = h }

  Within-decoded {ℓ} :
      {A : Type ℓ} (s : Session) (d : Result A) (f : A → Verdict)
      → ((a : A) → Spends (f a))
      → Spends (decoded d s f)
  Within-decoded s (ok a) f h = h a
  Within-decoded s (err e) f h = within _ tt
  Within-decoded s stuck f h = within _ tt

  Within-sleep_call_verdict :
      (c : OsCall) (args : List OsArg)
      → IsCounted n cs
      → Spends (sleep_call_verdict clock n r cs c args)
  unfolding sleep_call_verdict sleep_verdict
  Within-sleep_call_verdict c (float_arg bits ∷ rest) h =
      let delay = capped_delay cs.system_sleep_max (clock.nanoseconds bits) in
      let charged = r && (run_at cs.runs n).restore_sleep_charged in
      if_cases Spends (exceeds_sleep cs charged delay) _ _ (λ e. within _ refl)
        (λ e. within _ (h, (charged, delay, refl, λ q. (refl, e, (bits, rest, refl, refl)))))
  Within-sleep_call_verdict c [] h = within _ tt
  Within-sleep_call_verdict c (OsArg.nil_arg ∷ rest) h = within _ tt
  Within-sleep_call_verdict c (OsArg.text_arg b ∷ rest) h = within _ tt
  Within-sleep_call_verdict c (OsArg.bytes_arg b ∷ rest) h = within _ tt
  Within-sleep_call_verdict c (OsArg.bool_arg b ∷ rest) h = within _ tt
  Within-sleep_call_verdict c (OsArg.uint64_arg b ∷ rest) h = within _ tt
  Within-sleep_call_verdict c (OsArg.uint32_arg b ∷ rest) h = within _ tt
  Within-sleep_call_verdict c (OsArg.zone_arg b ∷ rest) h = within _ tt
  Within-sleep_call_verdict c (OsArg.value_arg b ∷ rest) h = within _ tt
  Within-sleep_call_verdict c (OsArg.names_arg b ∷ rest) h = within _ tt

  uncharged : (t : Session) → t ≡ cs → (b : Bool) × (delay : ℕ) × (t ≡ charge cs b delay)
  unfolding charge
  uncharged t h = (true, 0, h)

  module _ ⦃w : Protowire⦄ where
    left : (t : Session) → IsCounted n cs × (t ≡ cs) → Leaves n cs t
    left t (h, e) = (h, uncharged t e)

    Within-os_verdict : (c : OsCall) → IsCounted n cs → Spends (os_verdict clock n r cs c)
    unfolding os_verdict
    Within-os_verdict c h =
        if_cases Spends (is_system_sleep c.name) _ _ (λ e. Within-sleep_call_verdict c c.args h)
          (λ e. let (b, delay, q) = uncharged cs refl in within _ (h, (b, delay, q, λ k. cc)))

    Within-kind_verdict :
        (s : Session) (e : ChildEvent)
        → (is_suspension e.kind ≡ true → IsCounted n cs × (s ≡ cs))
        → Spends (kind_verdict clock n r s e)
    unfolding kind_verdict
    Within-kind_verdict s e h =
        let P = Spends in
        let ended : (v : Value) (t : Session) → P (ends (gives (complete v)) t) =
          λ v t. within _ tt in
        let refused : (x : SessionError) (t : Session) → P (ends (refuses x) t) =
          λ x t. within _ tt in
        let step = (run_at s.runs n).step in
        let called : Leaves n cs s
            → (c : CallEvent) → P (ends (gives (function_snapshot n step c)) s) =
          λ q c. within _ q in
        let range = decode_source_range (decode_bytes_field e.body 3) in
        let name = decode_string_field e.body 1 in
        let named : Leaves n cs s
            → (o : Option Bytes) → P (ends (gives (name_snapshot n step range name o)) s) =
          λ q o. within _ q in
        if_cases P (e.kind == 6) _ _
          (λ k. Within-decoded s (decode_complete e.body) _ (λ v. ended v _))
          λ k.
            if_cases P (e.kind == 2) _ _
              (λ k.
                Within-decoded s (decode_function_call e.body) _
                  (called (left s (h (suspends e.kind 2 k refl)))))
              λ k.
                if_cases P (e.kind == 3) _ _
                  (λ k. Within-decoded s (decode_os_call e.body) _ (λ c.
                    let (q, same) = h (suspends e.kind 3 k refl) in
                    subst (λ z. Spends (os_verdict clock n r z c)) (sym same)
                      (Within-os_verdict c q)))
                  λ k.
                    if_cases P (e.kind == 4) _ _
                      (λ k.
                        Within-decoded s (result_of (parse_fields e.body object_field none)) _
                          (named (left s (h (suspends e.kind 4 k refl)))))
                      λ k.
                        if_cases P (e.kind == 5) _ _
                          (λ k. within _ (left s (h (suspends e.kind 5 k refl))))
                          λ k.
                            if_cases P (e.kind == 7) _ _
                              (λ k.
                                Within-decoded _ (decode_error_event e.body) _
                                  (λ x. refused (classify_runtime x) _))
                              λ k.
                                if_cases P (e.kind == 8) _ _ (λ k. refused _ _)
                                  λ k.
                                    if_cases P (e.kind == 11) _ _ (λ k. refused _ _)
                                      λ k. refused _ _

module _ ⦃w : Protowire⦄ where
  pub Within-verdict :
      (clock : Clock) (n : ℕ) (s : Session) (e : ChildEvent)
      → Within clock n (run_at s.runs n).restoring (counted_in n s) (verdict clock n s e)
  unfolding verdict
  Within-verdict clock n s e =
      let r = (run_at s.runs n).restoring in
      let cs = counted_in n s in
      let over = (e.kind == 6) || leb 7 e.kind in
      let t : Session = if over then cancel_run s n else s in
      let ct = counted_in n t in
      if_cases (Within clock n r cs) (is_suspension e.kind) _ _
        (λ k.
          let same = ap (counted_in n) (choose_second over (cancel_run s n) s (no_end e.kind k)) in
          if_cases (Within clock n r cs) (ltb (suspension_limit ct) (run_at ct.runs n).suspensions)
            _ _ (λ l. within clock n r cs _ same)
            (λ l.
              let few : IsCounted n ct = ground arith in
              Within-kind_verdict clock n r cs ct e (λ q. (subst (IsCounted n) same few, same))))
        (λ k. Within-kind_verdict clock n r cs t e (λ q. cc))

-- Any snapshot that is given.
pub Limits-Leaves :
    (clock : Clock) (n : ℕ) (r : Bool) (s : Session) (p : Progress) (t : Session)
    → is_complete p ≡ false
    → Limits clock n r s (gives p) t
    → Leaves n s t
Limits-Leaves clock n r s (complete v) t e h = cc
Limits-Leaves clock n r s (function_snapshot m k c) t e h = h
Limits-Leaves clock n r s (os_snapshot m k c) t e (h, (b, delay, q, g)) = (h, (b, delay, q))
Limits-Leaves clock n r s (name_snapshot m k x y o) t e h = h
Limits-Leaves clock n r s (future_snapshot m k x ids) t e h = h
