-- ===== src/OsPolicy/Seeds.antt =====
-- The seeds of integers: two's complement, little-endian.
use monty_go.Common.{
  ℕ, zero, suc, ◌+◌, ◌-◌, ◌*◌, ◌/◌, ◌^◌, ◌≤◌, ◌<◌, ◌≡◌, refl, ap, ◌∙◌, [], ◌∷◌, Bytes, length, ltb,
  if◌then◌else◌, arith,
}
use native.Mathlib.Nat.{two-pow-succ, pow-le-pow_right}
use monty_go.Common.Int.{ℤ, pos, negsuc}
use monty_go.Value.Flat.{magnitude}
use monty_go.OsPolicy.{bit_loop, bit_len, fill_bytes, seed_size, integer_seed}

-- The number that little-endian bytes stand for.
abbrev pub le_number : Bytes → ℕ
le_number [] = 0
le_number (b ∷ bs) = b + 256 * le_number bs

-- And the integer, when they are two's complement.
abbrev pub signed_number : Bytes → ℤ
signed_number bs =
    let v = le_number bs in
    let whole = 2 ^ (length bs * 8) in if ltb (2 * v) whole then pos v else negsuc (whole - 1 - v)

bit_loop-bound : (fuel n : ℕ) → n ≤ fuel → n < 2 ^ bit_loop fuel n
unfolding bit_loop
bit_loop-bound zero n h = omega arith
bit_loop-bound (suc fuel) zero h = omega arith
bit_loop-bound (suc fuel) (suc n) h =
    omega (
      arith,
      bit_loop-bound fuel (suc n / 2) (omega arith),
      two-pow-succ (bit_loop fuel (suc n / 2)),
    )

length-fill_bytes : (size v : ℕ) → length (fill_bytes size v) ≡ size
unfolding fill_bytes
length-fill_bytes zero v = refl
length-fill_bytes (suc size) v = ap suc (length-fill_bytes size (v / 256))

doubled : (n : ℕ) → 2 ^ suc n ≡ 2 * 2 ^ n
doubled n = omega (arith, two-pow-succ n)

eight_doublings : (k : ℕ) → 2 ^ suc (suc (suc (suc (suc (suc (suc (suc k))))))) ≡ 256 * 2 ^ k
eight_doublings k = omega (
  arith,
  doubled k,
  doubled (suc k),
  doubled (suc (suc k)),
  doubled (suc (suc (suc k))),
  doubled (suc (suc (suc (suc k)))),
  doubled (suc (suc (suc (suc (suc k))))),
  doubled (suc (suc (suc (suc (suc (suc k)))))),
  doubled (suc (suc (suc (suc (suc (suc (suc k))))))),
)

eight_more : (size : ℕ) → 2 ^ (suc size * 8) ≡ 256 * 2 ^ (size * 8)
eight_more size = ap (λ n. 2 ^ n) (omega arith) ∙ eight_doublings (size * 8)

le_number-fill_bytes : (size v : ℕ) → v < 2 ^ (size * 8) → le_number (fill_bytes size v) ≡ v
unfolding fill_bytes
le_number-fill_bytes zero v h = omega arith
le_number-fill_bytes (suc size) v h =
    omega (arith, le_number-fill_bytes size (v / 256) (omega (arith, h, eight_more size)))

-- The magnitude takes less than half of the range.
room : (z : ℤ) → 2 * magnitude z < 2 ^ (seed_size z * 8)
unfolding bit_len
room z =
    let b = bit_len (magnitude z) in
    let enough : suc b ≤ seed_size z * 8 = ground arith in
    omega (
      arith,
      bit_loop-bound (magnitude z) (magnitude z) (omega arith),
      two-pow-succ b,
      pow-le-pow_right {n = 2} (omega arith) enough,
    )

-- The bytes of an integer seed, which encodeRandomSeed sends, stand for the integer in little-endian
-- two's complement, whatever its size and sign.
pub signed_number-integer_seed : (z : ℤ) → signed_number (integer_seed z) ≡ z
unfolding integer_seed
signed_number-integer_seed (pos n) =
    let size = seed_size (pos n) in
    rw (length-fill_bytes size n, le_number-fill_bytes size n (omega (arith, room (pos n))))
      (ground (arith, room (pos n)))
signed_number-integer_seed (negsuc n) =
    let size = seed_size (negsuc n) in
    let v = 2 ^ (size * 8) - suc n in
    rw (length-fill_bytes size v, le_number-fill_bytes size v (omega (arith, room (negsuc n))))
      (ground (arith, room (negsuc n)))
