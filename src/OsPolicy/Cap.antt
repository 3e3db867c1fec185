-- ===== src/OsPolicy/Cap.antt =====
-- The cap on a system sleep.
use monty_go.Common.{
  ℕ, zero, suc, ◌*◌, ◌/◌, ◌≡◌, refl, ◌⊎◌, inl, inr, Bytes, bytes_eq, Bool, true, false, ◌||◌,
  if◌then◌else◌, Option, none, some, text,
}
use mathlib.Core.Path.{subst}
use monty_go.Common.Int.{ℤ, pos, negsuc}
use monty_go.Errors.{Result, ok, err, stuck, >>=-ok}
use monty_go.Wire.Proto.{Protowire}
use monty_go.OsPolicy.{
  OsPolicy, system_sleep, other_sleep, sleep_part, clock_part, zone_part, random_part, process_part,
  encode_os_policy, is_empty,
}

-- UnlimitedSleep, or whole microseconds.
abbrev pub IsCap : ℤ → Type 0
IsCap cap = (cap ≡ negsuc 0) ⊎ ((micros : ℕ) × (cap ≡ pos (micros * 1000)))

abbrev Capped : Result (Bytes × ℤ) → Type 0
Capped (ok (b, cap)) = IsCap cap
Capped (err e) = Unit {0}
Capped stuck = Unit {0}

either : (b : Bool) (x y : Result (Bytes × ℤ)) → Capped x → Capped y → Capped (if b then x else y)
either true x y h k = h
either false x y h k = k

module _ ⦃w : Protowire⦄ where
  system_sleep-Capped : (o : Option ℤ) → Capped (system_sleep o)
  system_sleep-Capped none = inr (10_000_000, refl)
  system_sleep-Capped (some (pos n)) = inr (n / 1000, refl)
  system_sleep-Capped (some (negsuc zero)) = inl refl
  system_sleep-Capped (some (negsuc (suc n))) = tt

  other_sleep-Capped : (o : Option ℤ) (tag : ℕ) → Capped (other_sleep o tag)
  other_sleep-Capped none tag = inr (10_000_000, refl)
  other_sleep-Capped (some d) tag = tt

  sleep_part-Capped : (x : OsPolicy) → Capped (sleep_part x)
  unfolding sleep_part
  sleep_part-Capped x =
      let o = x.sleep_system_max in
      either (is_empty x.sleep || bytes_eq x.sleep (text "system")) _ _ (system_sleep-Capped o) (
        either (bytes_eq x.sleep (text "call_host")) _ _ (other_sleep-Capped o 2)
          (either (bytes_eq x.sleep (text "zero")) _ _ (other_sleep-Capped o 3) tt))

  -- A policy that is accepted gives the session a cap on one system sleep that is UnlimitedSleep or
  -- a whole number of microseconds, never another duration below zero.
  pub encode_os_policy-IsCap :
      (x : OsPolicy) (b : Bytes) (cap : ℤ) → encode_os_policy x ≡ ok (b, cap) → IsCap cap
  unfolding encode_os_policy
  encode_os_policy-IsCap x b cap e =
      let (clock, _, e) = >>=-ok (clock_part x) _ (b, cap) e in
      let (zone, _, e) = >>=-ok (zone_part x) _ (b, cap) e in
      let (sleep, s, e) = >>=-ok (sleep_part x) _ (b, cap) e in
      let (random, _, e) = >>=-ok (random_part x) _ (b, cap) e in
      let (process, _, e) = >>=-ok (process_part x) _ (b, cap) e in
      subst IsCap (second e) (subst Capped s (sleep_part-Capped x))
    where
      second : {p q : Bytes × ℤ} → ok p ≡ ok q → p.1 ≡ q.1
      second e = cc
