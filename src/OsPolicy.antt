-- ===== src/OsPolicy.antt =====
-- os_policy.go: the policy for clocks, sleeps and random seeds, as the worker is told it.
pub mod Seeds
pub mod Cap
use monty_go.Common.{
  ℕ, zero, suc, ◌+◌, ◌-◌, ◌*◌, ◌/◌, ◌%◌, ◌^◌, List, [], ◌∷◌, ◌++◌, Bytes, bytes_eq, length, Bool,
  true, false, ◌==◌, ◌&&◌, ◌||◌, not, ltb, leb, if◌then◌else◌, Option, none, some, text,
}
use monty_go.Common.Int.{ℤ, pos, negsuc, to_u64}
use monty_go.Errors.{Error, Result, ok, err, stuck, ◌>>=◌}
use monty_go.Wire.Proto.{Protowire}
use monty_go.Wire.Fields.{field_varint, field_fixed64, field_bytes, field_string, field_message}
use monty_go.Value.{TimeZone}
use monty_go.Value.Flat.{magnitude, encode_time_zone}
use monty_go.Requests.{divided}

-- A seed; every Go integer and big.Int is an integer, and a float is its bits.
pub data Seed : Type 0 where
  int_seed : ℤ → Seed
  nil_seed : Seed
  bytes_seed : Bytes → Seed
  float_seed : ℕ → Seed
  text_seed : Bytes → Seed
  other_seed : Seed

-- A `time.Time` by what is sent of it: Unix seconds, and nanoseconds in the second.
pub record OsPolicy : Type 0 where
  pub date_time : Bytes
  pub fixed_date_time : Option (ℤ × ℕ)
  pub time_zone : Bytes
  pub fixed_time_zone : Option TimeZone
  pub sleep : Bytes
  pub sleep_system_max : Option ℤ
  pub random : Bytes
  pub random_seed : Option Seed
  pub process_time : Bytes

-- `(*big.Int).BitLen` of a magnitude; `n` rounds are enough for `n`.
unfoldable pub bit_loop : ℕ → ℕ → ℕ
bit_loop zero n = 0
bit_loop (suc fuel) zero = 0
bit_loop (suc fuel) (suc n) = suc (bit_loop fuel (suc n / 2))

unfoldable pub bit_len : ℕ → ℕ
unfolding bit_loop
bit_len n = bit_loop n n

-- `FillBytes`, with the bytes reversed.
unfoldable pub fill_bytes : ℕ → ℕ → Bytes
fill_bytes zero v = []
fill_bytes (suc size) v = (v % 256) ∷ fill_bytes size (v / 256)

-- `z`, with `1 << (size * 8)` added where it is below zero.
abbrev pub twos_complement : ℤ → ℕ → ℕ
twos_complement (pos n) size = n
twos_complement (negsuc n) size = 2 ^ (size * 8) - suc n

abbrev pub at_least_one : ℕ → ℕ
at_least_one size = if size == 0 then 1 else size

abbrev pub seed_size : ℤ → ℕ
seed_size z = at_least_one ((bit_len (magnitude z) + 8) / 8)

unfoldable pub integer_seed : ℤ → Bytes
unfolding fill_bytes bit_len
integer_seed z = fill_bytes (seed_size z) (twos_complement z (seed_size z))

abbrev pub is_finite : ℕ → Bool
is_finite bits = not (bits / 2 ^ 52 % 2 ^ 11 == 2 ^ 11 - 1)

abbrev pub is_empty : Bytes → Bool
is_empty b = length b == 0

-- `cap`, and what is sent of it: microseconds, or 2 ^ 64 - 1 for UnlimitedSleep, which is -1.
abbrev pub sleep_cap : ℤ → Result (ℤ × ℕ)
sleep_cap (pos n) = ok (pos (n / 1000 * 1000), n / 1000)
sleep_cap (negsuc zero) = ok (negsuc 0, 2 ^ 64 - 1)
sleep_cap (negsuc (suc n)) = err Error.negative_sleep_max

abbrev pub default_cap : ℤ
default_cap = pos 10_000_000_000

abbrev pub below_day : ℤ → Bool
below_day z = leb (magnitude z) 86399

module _ ⦃w : Protowire⦄ where
  unfoldable pub encode_random_seed : Seed → Result Bytes
  unfolding integer_seed
  encode_random_seed (int_seed z) = ok (field_bytes 1 (integer_seed z))
  encode_random_seed nil_seed = err Error.nil_seed_int
  encode_random_seed (bytes_seed b) = ok (field_bytes 4 b)
  encode_random_seed (float_seed bits) =
      if is_finite bits then ok (field_fixed64 2 bits) else err Error.infinite_seed
  encode_random_seed (text_seed s) = ok (field_string 3 s)
  encode_random_seed other_seed = err Error.seed_type

  unfoldable pub clock_part : OsPolicy → Result Bytes
  unfolding bytes_eq
  clock_part x = elim (x.fixed_date_time) [
    | some (seconds, nanos) ↦
        if not (is_empty x.date_time)
        then err Error.two_clocks
        else ok (field_message 3 (field_varint 1 (to_u64 seconds) ++ field_varint 2 (nanos / 1000)))
    | none ↦
        if is_empty x.date_time || bytes_eq x.date_time (text "system")
        then ok []
        else if bytes_eq x.date_time (text "call_host")
        then ok (field_message 2 [])
        else err (Error.unknown_policy x.date_time)
  ]

  unfoldable pub zone_part : OsPolicy → Result Bytes
  unfolding bytes_eq encode_time_zone
  zone_part x = elim (x.fixed_time_zone) [
    | some z ↦
        if not (is_empty x.time_zone)
        then err Error.two_zones
        else if not (below_day z.offset_seconds)
        then err Error.zone_offset
        else ok (field_message 4 (field_message 3 (encode_time_zone z)))
    | none ↦
        if is_empty x.time_zone
        then ok []
        else if bytes_eq x.time_zone (text "utc")
        then ok (field_message 4 (field_message 1 []))
        else ok (field_message 4 (field_string 2 x.time_zone))
  ]

  abbrev pub sleep_message : ℤ × ℕ → Bytes × ℤ
  sleep_message (cap, micros) = (field_message 5 (field_message 1 (field_varint 1 micros)), cap)

  abbrev pub system_sleep : Option ℤ → Result (Bytes × ℤ)
  system_sleep none = ok ([], default_cap)
  system_sleep (some d) = sleep_cap d >>= λ c. ok (sleep_message c)

  abbrev pub other_sleep : Option ℤ → ℕ → Result (Bytes × ℤ)
  other_sleep none tag = ok (field_message 5 (field_message tag []), default_cap)
  other_sleep (some d) tag = err Error.sleep_max_unused

  -- The part for sleeps, and `cap`.
  unfoldable pub sleep_part : OsPolicy → Result (Bytes × ℤ)
  unfolding bytes_eq
  sleep_part x =
      if is_empty x.sleep || bytes_eq x.sleep (text "system")
      then system_sleep x.sleep_system_max
      else if bytes_eq x.sleep (text "call_host")
      then other_sleep x.sleep_system_max 2
      else if bytes_eq x.sleep (text "zero")
      then other_sleep x.sleep_system_max 3
      else err (Error.unknown_policy x.sleep)

  unfoldable pub random_part : OsPolicy → Result Bytes
  unfolding bytes_eq encode_random_seed
  random_part x = elim (x.random_seed) [
    | some s ↦
        if not (is_empty x.random)
        then err Error.two_seeds
        else encode_random_seed s >>= λ seed. ok (field_message 8 seed)
    | none ↦
        if is_empty x.random || bytes_eq x.random (text "system")
        then ok []
        else if bytes_eq x.random (text "call_host")
        then ok (field_message 7 [])
        else err (Error.unknown_policy x.random)
  ]

  unfoldable pub process_part : OsPolicy → Result Bytes
  unfolding bytes_eq
  process_part x =
      if is_empty x.process_time || bytes_eq x.process_time (text "zero")
      then ok []
      else if bytes_eq x.process_time (text "elapsed")
      then ok (field_message 10 [])
      else err (Error.unknown_policy x.process_time)

  unfoldable pub encode_os_policy : OsPolicy → Result (Bytes × ℤ)
  unfolding clock_part zone_part sleep_part random_part process_part
  encode_os_policy x = do
    clock ← clock_part x
    zone ← zone_part x
    sleep ← sleep_part x
    random ← random_part x
    process ← process_part x
    ok (clock ++ (zone ++ (sleep.0 ++ (random ++ process))), sleep.1)
