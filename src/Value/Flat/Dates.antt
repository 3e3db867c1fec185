-- ===== src/Value/Flat/Dates.antt =====
-- Each decoder of a value without parts reads back what its encoder wrote.
use monty_go.Common.{
  ℕ, ◌≡◌, refl, ap, ◌∙◌, List, [], ◌∷◌, ◌++◌, Bytes, length, All, All-append, append_assoc,
  append-nil, Option, none, some, arith, ◌==◌, if◌then◌else◌,
}
use monty_go.Common.Int.{
  ℤ, pos, to_u64, IsInt32, IsInt64, int32_of-to_u64, int64_of-to_u64, to_u64-lt,
}
use monty_go.Errors.{Run, done, state_of}
use monty_go.Wire.Proto.{Protowire, Laws, IsU64, IsFieldNumber}
use monty_go.Wire.Fields.{WireField, field_varint, field_bytes, field_string}
use monty_go.Wire.Parse.{parse_fields}
use monty_go.Wire.Message.{
  OutField, out_varint, out_bytes, IsSendable, encode_message, fold_fields, parse_fields_of,
}
use monty_go.Value.{Date, DateTime, Time, TimeDelta, TimeZone, Exception, FileHandle, Function}
use monty_go.Value.Flat.{
  opt_field, blank_date, blank_date_time, blank_time, blank_delta, blank_zone, blank_exception,
  blank_handle, blank_function, date_field, date_time_field, time_field, time_delta_field,
  time_zone_field, exception_field, file_handle_field, function_field, decode_date,
  decode_date_time, decode_time, decode_time_delta, decode_time_zone, decode_exception_value,
  decode_file_handle, decode_function, encode_date, encode_date_time, encode_time,
  encode_time_delta, encode_time_zone, encode_exception, encode_file_handle, encode_function,
}

abbrev opt_out {ℓ} : {A : Type ℓ} → (A → OutField) → Option A → List OutField
opt_out f none = []
opt_out f (some a) = f a ∷ []

-- The ranges of `datetime`'s fields in Go: `int` has 64 bits, and the year is sent as 32.
abbrev pub IsOffset : Option ℤ → Type 0
IsOffset none = Unit {0}
IsOffset (some z) = IsInt32 z

pub record IsDate (x : Date) : Type 0 where
  pub year : IsInt32 x.year
  pub month : IsInt64 x.month
  pub day : IsInt64 x.day

pub record IsDateTime (x : DateTime) : Type 0 where
  pub date : IsDate x.date
  pub hour : IsInt64 x.hour
  pub minute : IsInt64 x.minute
  pub second : IsInt64 x.second
  pub microsecond : IsInt64 x.microsecond
  pub offset : IsOffset x.offset_seconds

pub record IsTime (x : Time) : Type 0 where
  pub hour : IsInt64 x.hour
  pub minute : IsInt64 x.minute
  pub second : IsInt64 x.second
  pub microsecond : IsInt64 x.microsecond
  pub offset : IsOffset x.offset_seconds
  pub fold : IsInt64 x.fold

pub record IsTimeDelta (x : TimeDelta) : Type 0 where
  pub days : IsInt32 x.days
  pub seconds : IsInt32 x.seconds
  pub microseconds : IsInt32 x.microseconds

abbrev offset_out : ℕ → Option ℤ → List OutField
offset_out tag = opt_out (λ z. out_varint tag (to_u64 z))

abbrev text_out : ℕ → Option Bytes → List OutField
text_out tag = opt_out (out_bytes tag)

offset_out-IsSendable :
    (tag : ℕ) (o : Option ℤ) → IsFieldNumber tag → All IsSendable (offset_out tag o)
offset_out-IsSendable tag none h = tt
offset_out-IsSendable tag (some z) h = ((h, to_u64-lt z), tt)

text_out-IsSendable :
    (tag : ℕ) (o : Option Bytes) → IsFieldNumber tag → All IsSendable (text_out tag o)
text_out-IsSendable tag none h = tt
text_out-IsSendable tag (some z) h = (h, tt)

optional-IsSendable :
    (i j : ℕ) (o : Option ℤ) (n : Option Bytes)
    → IsFieldNumber i
    → IsFieldNumber j
    → All IsSendable (offset_out i o ++ text_out j n)
optional-IsSendable i j o n hi hj =
    All-append IsSendable (offset_out i o) (text_out j n) (offset_out-IsSendable i o hi)
      (text_out-IsSendable j n hj)

module _ ⦃w : Protowire⦄ where
  encode_offset_out :
      (tag : ℕ) (o : Option ℤ) (rest : List OutField)
      → encode_message (offset_out tag o ++ rest)
        ≡ opt_field (λ z. field_varint tag (to_u64 z)) o ++ encode_message rest
  encode_offset_out tag none rest = refl
  encode_offset_out tag (some z) rest = refl

  encode_text_out :
      (tag : ℕ) (o : Option Bytes) (rest : List OutField)
      → encode_message (text_out tag o ++ rest)
        ≡ opt_field (field_string tag) o ++ encode_message rest
  unfolding field_string
  encode_text_out tag none rest = refl
  encode_text_out tag (some z) rest = refl

  encode_text_end :
      (tag : ℕ) (o : Option Bytes)
      → encode_message (text_out tag o) ≡ opt_field (field_string tag) o
  unfolding field_string
  encode_text_end tag none = refl
  encode_text_end tag (some z) = append-nil (field_bytes tag z)

  ruleset out_laws = (append_assoc, append-nil, encode_offset_out, encode_text_out, encode_text_end)

module _ ⦃w : Protowire⦄ (laws : Laws w) where
  flat_lem {ℓ} :
      {S : Type ℓ} (fn : S → WireField → Run S) (os : List OutField) (s : S) (b : Bytes)
      → b ≡ encode_message os
      → All IsSendable os
      → state_of (parse_fields b fn s) ≡ state_of (fold_fields fn os s)
  flat_lem fn os s b e h = ap state_of (parse_fields_of laws fn os s b e h)

  pub decode_date-encode_date : (x : Date) → IsDate x → decode_date (encode_date x) ≡ x
  unfolding decode_date encode_date
  decode_date-encode_date x h =
      flat_lem date_field
        (out_varint 1 (to_u64 x.year)
          ∷ out_varint 2 (to_u64 x.month)
          ∷ out_varint 3 (to_u64 x.day)
          ∷ [])
        blank_date _ (simp (append_assoc, append-nil))
        (omega (arith, to_u64-lt x.year, to_u64-lt x.month, to_u64-lt x.day))
      ∙ unfold date_field in
        rw (
          int32_of-to_u64 x.year h.year,
          int64_of-to_u64 x.month h.month,
          int64_of-to_u64 x.day h.day,
        )

  abbrev date_time_head : DateTime → List OutField
  date_time_head x =
      out_varint 1 (to_u64 x.date.year)
      ∷ out_varint 2 (to_u64 x.date.month)
      ∷ out_varint 3 (to_u64 x.date.day)
      ∷ out_varint 4 (to_u64 x.hour)
      ∷ out_varint 5 (to_u64 x.minute)
      ∷ out_varint 6 (to_u64 x.second)
      ∷ out_varint 7 (to_u64 x.microsecond)
      ∷ []

  abbrev date_time_tail : DateTime → List OutField
  date_time_tail x = offset_out 8 x.offset_seconds ++ text_out 9 x.timezone_name

  date_time_tail_lem :
      (x y : DateTime) (o : Option ℤ) (n : Option Bytes)
      → IsOffset o
      → y ≡ record x { offset_seconds = none; timezone_name = none }
      → fold_fields date_time_field (offset_out 8 o ++ text_out 9 n) y
        ≡ done (record x { offset_seconds = o; timezone_name = n })
  unfolding date_time_field
  date_time_tail_lem x y none none h e = ap done e
  date_time_tail_lem x y none (some n) h e = rw e
  date_time_tail_lem x y (some z) none h e = rw (e, int32_of-to_u64 z h)
  date_time_tail_lem x y (some z) (some n) h e = rw (e, int32_of-to_u64 z h)

  pub decode_date_time-encode_date_time :
      (x : DateTime) → IsDateTime x → decode_date_time (encode_date_time x) ≡ x
  unfolding decode_date_time encode_date_time
  decode_date_time-encode_date_time x h =
      flat_lem date_time_field (date_time_head x ++ date_time_tail x) blank_date_time _
        (simp out_laws)
        (All-append IsSendable (date_time_head x) (date_time_tail x)
          (omega (
            arith,
            to_u64-lt x.date.year,
            to_u64-lt x.date.month,
            to_u64-lt x.date.day,
            to_u64-lt x.hour,
            to_u64-lt x.minute,
            to_u64-lt x.second,
            to_u64-lt x.microsecond,
          ))
          (optional-IsSendable 8 9 x.offset_seconds x.timezone_name (omega arith) (omega arith)))
      ∙ unfold date_time_field in
        rw
          (
            int32_of-to_u64 x.date.year h.date.year,
            int64_of-to_u64 x.date.month h.date.month,
            int64_of-to_u64 x.date.day h.date.day,
            int64_of-to_u64 x.hour h.hour,
            int64_of-to_u64 x.minute h.minute,
            int64_of-to_u64 x.second h.second,
            int64_of-to_u64 x.microsecond h.microsecond,
          )
          (ap state_of (date_time_tail_lem x _ x.offset_seconds x.timezone_name h.offset refl))

  abbrev time_head : Time → List OutField
  time_head x =
      out_varint 1 (to_u64 x.hour)
      ∷ out_varint 2 (to_u64 x.minute)
      ∷ out_varint 3 (to_u64 x.second)
      ∷ out_varint 4 (to_u64 x.microsecond)
      ∷ []

  abbrev time_tail : Time → List OutField
  time_tail x =
      offset_out 5 x.offset_seconds
      ++ (text_out 6 x.timezone_name ++ (out_varint 7 (to_u64 x.fold) ∷ []))

  time_tail_lem :
      (x y : Time) (o : Option ℤ) (n : Option Bytes)
      → IsOffset o
      → IsInt64 x.fold
      → y ≡ record x { offset_seconds = none; timezone_name = none; fold = pos 0 }
      → fold_fields time_field
          (offset_out 5 o ++ (text_out 6 n ++ (out_varint 7 (to_u64 x.fold) ∷ [])))
          y
        ≡ done (record x { offset_seconds = o; timezone_name = n })
  unfolding time_field
  time_tail_lem x y none none h k e = rw (e, int64_of-to_u64 x.fold k)
  time_tail_lem x y none (some n) h k e = rw (e, int64_of-to_u64 x.fold k)
  time_tail_lem x y (some z) none h k e = rw (e, int64_of-to_u64 x.fold k, int32_of-to_u64 z h)
  time_tail_lem x y (some z) (some n) h k e = rw (e, int64_of-to_u64 x.fold k, int32_of-to_u64 z h)

  pub decode_time-encode_time : (x : Time) → IsTime x → decode_time (encode_time x) ≡ x
  unfolding decode_time encode_time
  decode_time-encode_time x h =
      flat_lem time_field (time_head x ++ time_tail x) blank_time _ (simp out_laws) (
        All-append IsSendable (time_head x) (time_tail x)
          (omega (
            arith,
            to_u64-lt x.hour,
            to_u64-lt x.minute,
            to_u64-lt x.second,
            to_u64-lt x.microsecond,
          ))
          (All-append IsSendable (offset_out 5 x.offset_seconds) _
            (offset_out-IsSendable 5 x.offset_seconds (omega arith))
            (All-append IsSendable (text_out 6 x.timezone_name) _
              (text_out-IsSendable 6 x.timezone_name (omega arith))
              (omega (arith, to_u64-lt x.fold)))))
      ∙ unfold time_field in
        rw
          (
            int64_of-to_u64 x.hour h.hour,
            int64_of-to_u64 x.minute h.minute,
            int64_of-to_u64 x.second h.second,
            int64_of-to_u64 x.microsecond h.microsecond,
          )
          (ap state_of (time_tail_lem x _ x.offset_seconds x.timezone_name h.offset h.fold refl))

  pub decode_time_delta-encode_time_delta :
      (x : TimeDelta) → IsTimeDelta x → decode_time_delta (encode_time_delta x) ≡ x
  unfolding decode_time_delta encode_time_delta
  decode_time_delta-encode_time_delta x h =
      flat_lem time_delta_field
        (out_varint 1 (to_u64 x.days)
          ∷ out_varint 2 (to_u64 x.seconds)
          ∷ out_varint 3 (to_u64 x.microseconds)
          ∷ [])
        blank_delta _ (simp out_laws)
        (omega (arith, to_u64-lt x.days, to_u64-lt x.seconds, to_u64-lt x.microseconds))
      ∙ unfold time_delta_field in
        rw (
          int32_of-to_u64 x.days h.days,
          int32_of-to_u64 x.seconds h.seconds,
          int32_of-to_u64 x.microseconds h.microseconds,
        )

  named_zone :
      (z : ℤ) (n : Option Bytes)
      → IsInt32 z
      → state_of (fold_fields time_zone_field (out_varint 1 (to_u64 z) ∷ text_out 2 n) blank_zone)
        ≡ record { offset_seconds = z; name = n }
  unfolding time_zone_field
  named_zone z none h = rw (int32_of-to_u64 z h)
  named_zone z (some n) h = rw (int32_of-to_u64 z h)

  pub decode_time_zone-encode_time_zone :
      (x : TimeZone) → IsInt32 x.offset_seconds → decode_time_zone (encode_time_zone x) ≡ x
  unfolding decode_time_zone encode_time_zone
  decode_time_zone-encode_time_zone x h =
      flat_lem time_zone_field (out_varint 1 (to_u64 x.offset_seconds) ∷ text_out 2 x.name)
        blank_zone _ (simp out_laws)
        ((omega arith, to_u64-lt x.offset_seconds), text_out-IsSendable 2 x.name (omega arith))
      ∙ named_zone x.offset_seconds x.name h

  abbrev message_out : Bytes → List OutField
  message_out m = if length m == 0 then [] else out_bytes 2 m ∷ []

  exception_lem :
      (t m : Bytes)
      → decode_exception_value (encode_exception (record { exception_type = t; message = m }))
        ≡ record { exception_type = t; message = m }
  unfolding decode_exception_value encode_exception field_string
  exception_lem t [] =
      flat_lem exception_field (out_bytes 1 t ∷ []) blank_exception _ (simp out_laws) (omega arith)
      ∙ unfold exception_field in refl
  exception_lem t (c ∷ m) =
      flat_lem exception_field (out_bytes 1 t ∷ out_bytes 2 (c ∷ m) ∷ []) blank_exception _
        (ground (arith, append-nil (field_bytes 2 (c ∷ m)))) (omega arith)
      ∙ unfold exception_field in refl

  pub decode_exception_value-encode_exception :
      (x : Exception) → decode_exception_value (encode_exception x) ≡ x
  decode_exception_value-encode_exception x = exception_lem x.exception_type x.message

  pub decode_file_handle-encode_file_handle :
      (x : FileHandle) → IsU64 x.position → decode_file_handle (encode_file_handle x) ≡ x
  unfolding decode_file_handle encode_file_handle field_string
  decode_file_handle-encode_file_handle x h =
      flat_lem file_handle_field
        (out_bytes 1 x.path ∷ out_bytes 2 x.mode ∷ out_varint 3 x.position ∷ []) blank_handle _
        (simp out_laws) (omega arith)
      ∙ unfold file_handle_field in refl

  documented :
      (n : Bytes) (d : Option Bytes)
      → state_of (fold_fields function_field (out_bytes 1 n ∷ text_out 2 d) blank_function)
        ≡ record { name = n; docstring = d }
  unfolding function_field
  documented n none = refl
  documented n (some d) = refl

  pub decode_function-encode_function : (x : Function) → decode_function (encode_function x) ≡ x
  unfolding decode_function encode_function field_string
  decode_function-encode_function x =
      flat_lem function_field (out_bytes 1 x.name ∷ text_out 2 x.docstring) blank_function
        (encode_function x) (simp out_laws)
        (omega arith, text_out-IsSendable 2 x.docstring (omega arith))
      ∙ documented x.name x.docstring
