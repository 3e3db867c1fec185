-- ===== src/Print.antt =====
-- print.go: the collectors of printed text, with a cap on their bytes. A collector's lock makes each
-- write one step. `bytes` counts in Go's int, which memory keeps from wrapping around.
pub mod Cap
use monty_go.Common.{
  ℕ, ◌+◌, List, [], ◌∷◌, ◌++◌, Bytes, length, ltb, if◌then◌else◌, Option, none, some,
}
use monty_go.Common.Int.{ℤ, pos, negsuc}
use monty_go.Errors.{Error, Result, ok, err}

abbrev pub default_max_print_collect_bytes : ℕ
default_max_print_collect_bytes = 10485760

-- The cap of an optional argument: -1 is `negsuc 0`.
unfoldable pub limit_of : List ℤ → Result ℤ
limit_of [] = ok (pos default_max_print_collect_bytes)
limit_of (pos n ∷ []) = ok (pos n)
limit_of (negsuc n ∷ []) = if ltb 0 n then err Error.negative_limit else ok (negsuc n)
limit_of (x ∷ y ∷ xs) = err Error.many_limits

-- CollectString is a collector of bytes, CollectStreams one of entries.
pub record Collector {ℓ} (A : Type ℓ) : Type ℓ where
  pub output : List A
  pub bytes : ℕ
  pub max : ℤ
  pub failed : Option Error

pub record CollectedStreamEntry : Type 0 where
  pub stream : ℕ
  pub chunk : Bytes

abbrev pub new_collector {ℓ} : {A : Type ℓ} → ℤ → Collector A
new_collector limit = record { output = []; bytes = 0; max = limit; failed = none }

-- `c.max >= 0 && n > c.max`.
abbrev pub cap_error : ℤ → ℕ → Option Error
cap_error (pos m) n = if ltb m n then some (Error.print_limit m) else none
cap_error (negsuc k) n = none

-- The body of both `Write` methods, for a text of `n` bytes that is kept as `xs`.
unfoldable pub collect {ℓ} : {A : Type ℓ} → Collector A → ℕ → List A → Collector A × Option Error
collect c n xs = elim (c.failed) [
  | some e ↦ (c, some e)
  | none ↦ elim (cap_error c.max (c.bytes + n)) [
    | some e ↦ (record c { failed = some e }, some e)
    | none ↦ (record c { bytes = c.bytes + n; output = c.output ++ xs }, none)
  ]
]

unfoldable pub write_string : Collector ℕ → Bytes → Collector ℕ × Option Error
unfolding collect
write_string c text = collect c (length text) text

unfoldable pub write_stream :
    Collector CollectedStreamEntry → ℕ → Bytes → Collector CollectedStreamEntry × Option Error
unfolding collect
write_stream c stream text = collect c (length text) (record { stream = stream; chunk = text } ∷ [])
