-- ===== src/Value/Flat.antt =====
-- value.go, class_value.go and wire.go: the encoders and decoders of the values without parts.
pub mod Dates
pub mod Numbers
use monty_go.Common.{
  ℕ, zero, suc, ◌+◌, ◌*◌, ◌/◌, ◌%◌, List, [], ◌∷◌, ◌++◌, Bytes, length, Bool, true, false, not,
  ◌==◌, if◌then◌else◌, Option, none, some,
}
use monty_go.Common.Int.{ℤ, pos, negsuc, to_u64, int32_of, int64_of}
use monty_go.Errors.{Error, Result, ok, err, stuck, ◌>>=◌, Run, done, fail, state_of, result_of}
use monty_go.Wire.Proto.{Protowire, is_fixed64}
use monty_go.Wire.Fields.{
  WireField, field_varint, field_bool, field_fixed64, field_bytes, field_string, field_message,
}
use monty_go.Wire.Parse.{parse_fields}
use monty_go.Value.{Date, DateTime, Time, TimeDelta, TimeZone, Exception, FileHandle, Function}

-- The fields of a pointer that may be nil.
abbrev pub opt_field {ℓ} : {A : Type ℓ} → (A → Bytes) → Option A → Bytes
opt_field f none = []
opt_field f (some a) = f a

abbrev pub blank_date : Date
blank_date = record { year = pos 0; month = pos 0; day = pos 0 }

abbrev pub blank_date_time : DateTime
blank_date_time = record {
  date = blank_date;
  hour = pos 0;
  minute = pos 0;
  second = pos 0;
  microsecond = pos 0;
  offset_seconds = none;
  timezone_name = none;
}

abbrev pub blank_time : Time
blank_time = record {
  hour = pos 0;
  minute = pos 0;
  second = pos 0;
  microsecond = pos 0;
  offset_seconds = none;
  timezone_name = none;
  fold = pos 0;
}

abbrev pub blank_delta : TimeDelta
blank_delta = record { days = pos 0; seconds = pos 0; microseconds = pos 0 }

abbrev pub blank_zone : TimeZone
blank_zone = record { offset_seconds = pos 0; name = none }

abbrev pub blank_exception : Exception
blank_exception = record { exception_type = []; message = [] }

abbrev pub blank_handle : FileHandle
blank_handle = record { path = []; mode = []; position = 0 }

abbrev pub blank_function : Function
blank_function = record { name = []; docstring = none }

unfoldable pub date_field : Date → WireField → Run Date
date_field x f =
    if f.tag == 1
    then done (record x { year = int32_of f.varint })
    else if f.tag == 2
    then done (record x { month = int64_of f.varint })
    else if f.tag == 3
    then done (record x { day = int64_of f.varint })
    else done x

unfoldable pub date_time_field : DateTime → WireField → Run DateTime
date_time_field x f =
    if f.tag == 1
    then done (record x { date = record (x.date) { year = int32_of f.varint } })
    else if f.tag == 2
    then done (record x { date = record (x.date) { month = int64_of f.varint } })
    else if f.tag == 3
    then done (record x { date = record (x.date) { day = int64_of f.varint } })
    else if f.tag == 4
    then done (record x { hour = int64_of f.varint })
    else if f.tag == 5
    then done (record x { minute = int64_of f.varint })
    else if f.tag == 6
    then done (record x { second = int64_of f.varint })
    else if f.tag == 7
    then done (record x { microsecond = int64_of f.varint })
    else if f.tag == 8
    then done (record x { offset_seconds = some (int32_of f.varint) })
    else if f.tag == 9
    then done (record x { timezone_name = some f.bytes })
    else done x

unfoldable pub time_field : Time → WireField → Run Time
time_field x f =
    if f.tag == 1
    then done (record x { hour = int64_of f.varint })
    else if f.tag == 2
    then done (record x { minute = int64_of f.varint })
    else if f.tag == 3
    then done (record x { second = int64_of f.varint })
    else if f.tag == 4
    then done (record x { microsecond = int64_of f.varint })
    else if f.tag == 5
    then done (record x { offset_seconds = some (int32_of f.varint) })
    else if f.tag == 6
    then done (record x { timezone_name = some f.bytes })
    else if f.tag == 7
    then done (record x { fold = int64_of f.varint })
    else done x

unfoldable pub time_delta_field : TimeDelta → WireField → Run TimeDelta
time_delta_field x f =
    if f.tag == 1
    then done (record x { days = int32_of f.varint })
    else if f.tag == 2
    then done (record x { seconds = int32_of f.varint })
    else if f.tag == 3
    then done (record x { microseconds = int32_of f.varint })
    else done x

unfoldable pub time_zone_field : TimeZone → WireField → Run TimeZone
time_zone_field x f =
    if f.tag == 1
    then done (record x { offset_seconds = int32_of f.varint })
    else if f.tag == 2
    then done (record x { name = some f.bytes })
    else done x

unfoldable pub exception_field : Exception → WireField → Run Exception
exception_field x f =
    if f.tag == 1
    then done (record x { exception_type = f.bytes })
    else if f.tag == 2
    then done (record x { message = f.bytes })
    else done x

unfoldable pub file_handle_field : FileHandle → WireField → Run FileHandle
file_handle_field x f =
    if f.tag == 1
    then done (record x { path = f.bytes })
    else if f.tag == 2
    then done (record x { mode = f.bytes })
    else if f.tag == 3
    then done (record x { position = f.varint })
    else done x

unfoldable pub function_field : Function → WireField → Run Function
function_field x f =
    if f.tag == 1
    then done (record x { name = f.bytes })
    else if f.tag == 2
    then done (record x { docstring = some f.bytes })
    else done x

-- The parts of a complex value, each with whether it was seen.
pub record ComplexParts : Type 0 where
  pub re : Option ℕ
  pub im : Option ℕ

unfoldable pub complex_field : ComplexParts → WireField → Run ComplexParts
complex_field x f =
    if f.tag == 1
    then (if is_fixed64 f.type_
        then done (record x { re = some f.fixed64 })
        else fail (Error.complex_part 1) x)
    else if f.tag == 2
    then (if is_fixed64 f.type_
        then done (record x { im = some f.fixed64 })
        else fail (Error.complex_part 2) x)
    else done x

-- `!seen[0] || !seen[1]`.
abbrev pub both_parts : Option ℕ → Option ℕ → Result (ℕ × ℕ)
both_parts (some r) (some i) = ok (r, i)
both_parts none i = err Error.complex_incomplete
both_parts (some r) none = err Error.complex_incomplete

abbrev pub complex_result : ComplexParts → Result (ℕ × ℕ)
complex_result x = both_parts x.re x.im

-- `(*big.Int).Bytes`: big-endian, without leading zeros. `n` rounds are enough for `n`.
unfoldable pub be_loop : ℕ → ℕ → Bytes → Bytes
be_loop zero n acc = acc
be_loop (suc fuel) n acc =
    let rest = be_loop fuel (n / 256) ((n % 256) ∷ acc) in if n == 0 then acc else rest

unfoldable pub be_bytes : ℕ → Bytes
unfolding be_loop
be_bytes n = be_loop n n []

-- `(*big.Int).SetBytes`.
unfoldable pub be_value : ℕ → Bytes → ℕ
be_value acc [] = acc
be_value acc (b ∷ bs) = be_value (acc * 256 + b) bs

abbrev pub is_negative : ℤ → Bool
is_negative (pos n) = false
is_negative (negsuc n) = true

abbrev pub magnitude : ℤ → ℕ
magnitude (pos n) = n
magnitude (negsuc n) = suc n

-- The sign and the magnitude of a big integer, as read.
pub record BigParts : Type 0 where
  pub negative : Bool
  pub magnitude_bytes : Bytes

unfoldable pub big_field : BigParts → WireField → Run BigParts
big_field x f =
    if f.tag == 1
    then done (record x { negative = not (f.varint == 0) })
    else if f.tag == 2
    then done (record x { magnitude_bytes = f.bytes })
    else done x

-- `z.Neg(z)` if negative.
abbrev pub signed : Bool → ℕ → ℤ
signed false n = pos n
signed true zero = pos 0
signed true (suc n) = negsuc n

module _ ⦃w : Protowire⦄ where
  unfoldable pub decode_date : Bytes → Date
  decode_date data' = state_of (parse_fields data' date_field blank_date)

  unfoldable pub decode_date_time : Bytes → DateTime
  decode_date_time data' = state_of (parse_fields data' date_time_field blank_date_time)

  unfoldable pub decode_time : Bytes → Time
  decode_time data' = state_of (parse_fields data' time_field blank_time)

  unfoldable pub decode_time_delta : Bytes → TimeDelta
  decode_time_delta data' = state_of (parse_fields data' time_delta_field blank_delta)

  unfoldable pub decode_time_zone : Bytes → TimeZone
  decode_time_zone data' = state_of (parse_fields data' time_zone_field blank_zone)

  unfoldable pub decode_exception_value : Bytes → Exception
  decode_exception_value data' = state_of (parse_fields data' exception_field blank_exception)

  unfoldable pub decode_file_handle : Bytes → FileHandle
  decode_file_handle data' = state_of (parse_fields data' file_handle_field blank_handle)

  unfoldable pub decode_function : Bytes → Function
  decode_function data' = state_of (parse_fields data' function_field blank_function)

  unfoldable pub decode_complex : Bytes → Result (ℕ × ℕ)
  decode_complex data' =
      result_of (parse_fields data' complex_field (record { re = none; im = none }))
      >>= complex_result

  unfoldable pub decode_big : Bytes → Result ℤ
  unfolding be_value
  decode_big data' = do
    x ← result_of (parse_fields data' big_field (record { negative = false; magnitude_bytes = [] }))
    ok (signed x.negative (be_value 0 x.magnitude_bytes))

  unfoldable pub encode_date : Date → Bytes
  encode_date x =
      (field_varint 1 (to_u64 x.year) ++ field_varint 2 (to_u64 x.month))
      ++ field_varint 3 (to_u64 x.day)

  unfoldable pub encode_date_time : DateTime → Bytes
  unfolding encode_date
  encode_date_time x =
      let b = encode_date x.date in
      let b = b ++ field_varint 4 (to_u64 x.hour) in
      let b = b ++ field_varint 5 (to_u64 x.minute) in
      let b = b ++ field_varint 6 (to_u64 x.second) in
      let b = b ++ field_varint 7 (to_u64 x.microsecond) in
      let b = b ++ opt_field (λ z. field_varint 8 (to_u64 z)) x.offset_seconds in
      b ++ opt_field (field_string 9) x.timezone_name

  unfoldable pub encode_time : Time → Bytes
  encode_time x =
      let b = field_varint 1 (to_u64 x.hour) in
      let b = b ++ field_varint 2 (to_u64 x.minute) in
      let b = b ++ field_varint 3 (to_u64 x.second) in
      let b = b ++ field_varint 4 (to_u64 x.microsecond) in
      let b = b ++ opt_field (λ z. field_varint 5 (to_u64 z)) x.offset_seconds in
      let b = b ++ opt_field (field_string 6) x.timezone_name in b ++ field_varint 7 (to_u64 x.fold)

  unfoldable pub encode_time_delta : TimeDelta → Bytes
  encode_time_delta x =
      (field_varint 1 (to_u64 x.days) ++ field_varint 2 (to_u64 x.seconds))
      ++ field_varint 3 (to_u64 x.microseconds)

  unfoldable pub encode_time_zone : TimeZone → Bytes
  encode_time_zone x = field_varint 1 (to_u64 x.offset_seconds) ++ opt_field (field_string 2) x.name

  -- `if x.Message != ""`.
  unfoldable pub encode_exception : Exception → Bytes
  encode_exception x =
      field_string 1 x.exception_type
      ++ (if length x.message == 0 then [] else field_string 2 x.message)

  unfoldable pub encode_file_handle : FileHandle → Bytes
  encode_file_handle x =
      (field_string 1 x.path ++ field_string 2 x.mode) ++ field_varint 3 x.position

  unfoldable pub encode_function : Function → Bytes
  encode_function x = field_string 1 x.name ++ opt_field (field_string 2) x.docstring

  unfoldable pub encode_complex : ℕ → ℕ → Bytes
  encode_complex re im = field_fixed64 1 re ++ field_fixed64 2 im

  unfoldable pub encode_big_int : ℤ → Bytes
  encode_big_int x = field_bool 1 (is_negative x) ++ field_bytes 2 (be_bytes (magnitude x))
