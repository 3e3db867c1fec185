-- ===== src/Value/Leaves.antt =====
-- What `encode` makes of a value without parts, and how its kind is read back.
use monty_go.Common.{
  ℕ, suc, ◌^◌, ◌≤◌, ◌<◌, ◌≡◌, refl, sym, ap, [], ◌∷◌, ◌++◌, Bytes, length, append-nil, arith, true,
  false,
}
use monty_go.Common.Int.{ℤ, pos, negsuc, IsInt64}
use monty_go.Errors.{ok}
use monty_go.Wire.Proto.{Protowire, Laws, IsU64}
use monty_go.Wire.Fields.{zigzag, field_varint, field_bool, field_message, field_string}
use monty_go.Wire.Message.{
  encode_field_pos, OutField, out_bytes, out_varint, out_fixed64, IsSendable, encode_field,
  received, parse_fields_of,
}
use monty_go.Value.{
  Value, nil_value, ellipsis, not_implemented, bool, int, big_int, float, complex, str, bytes_value,
  date, time, date_time, time_delta, time_zone, exception, type_name, builtin_function, path,
  file_handle, function,
}
use monty_go.Value.Flat.{
  encode_date, encode_date_time, encode_time, encode_time_delta, encode_time_zone, encode_exception,
  encode_file_handle, encode_function, encode_complex, encode_big_int,
}
use monty_go.Value.{Date, Time, DateTime, TimeDelta, TimeZone, Exception, FileHandle, Function}
use monty_go.Common.Int.{IsInt32}
use monty_go.Value.Flat.Dates.{
  IsDate, IsTime, IsDateTime, IsTimeDelta, decode_date-encode_date, decode_time-encode_time,
  decode_date_time-encode_date_time, decode_time_delta-encode_time_delta,
  decode_time_zone-encode_time_zone, decode_exception_value-encode_exception,
  decode_file_handle-encode_file_handle, decode_function-encode_function,
}
use monty_go.Value.Flat.Numbers.{decode_complex-encode_complex, decode_big-encode_big_int}
use monty_go.Value.Decode.{unzigzag, kind_value, value_field, no_kinds, decode_loop}
use monty_go.Value.Encode.{encode}
use monty_go.Value.Sent.{height}
use monty_go.Value.Parts.{decode_type_name}

unzigzag-zigzag : (z : ℤ) → unzigzag (zigzag z) ≡ z
unzigzag-zigzag (pos n) = ground arith
unzigzag-zigzag (negsuc n) = ground arith

zigzag-lt : (z : ℤ) → IsInt64 z → zigzag z < 2 ^ 64
zigzag-lt (pos n) h = omega arith
zigzag-lt (negsuc n) h = omega arith

module _ ⦃w : Protowire⦄ (laws : Laws w) where
  -- What `encode` makes of a value at a depth: one field, from which the kind is read back with
  -- fuel for the height.
  pub record Kept (v : Value) (d : ℕ) : Type 0 where
    pub field_out : OutField
    pub written : encode v d ≡ ok (encode_field field_out)
    pub sendable : IsSendable field_out
    pub small : height v < length (encode_field field_out)
    pub read :
        (fuel : ℕ) → height v ≤ fuel → kind_value (decode_loop fuel) (received field_out) ≡ ok v

  pub decode_loop-encode_field :
      (v : Value) (o : OutField) (fuel : ℕ)
      → IsSendable o
      → kind_value (decode_loop fuel) (received o) ≡ ok v
      → decode_loop (suc fuel) (encode_field o) ≡ ok v
  unfolding decode_loop
  decode_loop-encode_field v o fuel h e =
      rw
        (parse_fields_of laws (value_field (decode_loop fuel)) (o ∷ []) no_kinds (encode_field o)
          (sym (append-nil _)) (h, tt))
        (unfold value_field in rw e)

  pub Kept-nil : (d : ℕ) → d ≤ 100 → Kept (nil_value) d
  unfolding encode field_message
  Kept-nil d room = record {
    field_out = out_bytes 2 [];
    written = ground arith;
    sendable = omega arith;
    small = encode_field_pos laws (out_bytes 2 []) (omega arith);
    read = λ fuel k. unfold kind_value in refl;
  }

  pub Kept-ellipsis : (d : ℕ) → d ≤ 100 → Kept (ellipsis) d
  unfolding encode field_message
  Kept-ellipsis d room = record {
    field_out = out_bytes 1 [];
    written = ground arith;
    sendable = omega arith;
    small = encode_field_pos laws (out_bytes 1 []) (omega arith);
    read = λ fuel k. unfold kind_value in refl;
  }

  pub Kept-not_implemented : (d : ℕ) → d ≤ 100 → Kept (not_implemented) d
  unfolding encode field_message
  Kept-not_implemented d room = record {
    field_out = out_bytes 3 [];
    written = ground arith;
    sendable = omega arith;
    small = encode_field_pos laws (out_bytes 3 []) (omega arith);
    read = λ fuel k. unfold kind_value in refl;
  }

  pub Kept-true : (d : ℕ) → d ≤ 100 → Kept (bool true) d
  unfolding encode field_bool
  Kept-true d room = record {
    field_out = out_varint 4 1;
    written = ground arith;
    sendable = omega arith;
    small = encode_field_pos laws (out_varint 4 1) (omega arith);
    read = λ fuel k. unfold kind_value in refl;
  }

  pub Kept-false : (d : ℕ) → d ≤ 100 → Kept (bool false) d
  unfolding encode field_bool
  Kept-false d room = record {
    field_out = out_varint 4 0;
    written = ground arith;
    sendable = omega arith;
    small = encode_field_pos laws (out_varint 4 0) (omega arith);
    read = λ fuel k. unfold kind_value in refl;
  }

  pub Kept-int : (z : ℤ) (d : ℕ) → IsInt64 z → d ≤ 100 → Kept (int z) d
  unfolding encode
  Kept-int z d h room = record {
    field_out = out_varint 5 (zigzag z);
    written = ground arith;
    sendable = (omega arith, zigzag-lt z h);
    small = encode_field_pos laws (out_varint 5 (zigzag z)) (omega arith, zigzag-lt z h);
    read = λ fuel k. unfold kind_value in ap (λ z. ok (int z)) (unzigzag-zigzag z);
  }

  pub Kept-big_int : (z : ℤ) (d : ℕ) → d ≤ 100 → Kept (big_int z) d
  unfolding encode field_message
  Kept-big_int z d room = record {
    field_out = out_bytes 6 (encode_big_int z);
    written = ground arith;
    sendable = omega arith;
    small = encode_field_pos laws (out_bytes 6 (encode_big_int z)) (omega arith);
    read = λ fuel k. unfold kind_value in rw (decode_big-encode_big_int laws z);
  }

  pub Kept-float : (x : ℕ) (d : ℕ) → IsU64 x → d ≤ 100 → Kept (float x) d
  unfolding encode
  Kept-float x d h room = record {
    field_out = out_fixed64 7 x;
    written = ground arith;
    sendable = omega arith;
    small = encode_field_pos laws (out_fixed64 7 x) (omega arith);
    read = λ fuel k. unfold kind_value in refl;
  }

  pub Kept-complex : (re im : ℕ) (d : ℕ) → IsU64 re → IsU64 im → d ≤ 100 → Kept (complex re im) d
  unfolding encode field_message
  Kept-complex re im d h h' room = record {
    field_out = out_bytes 31 (encode_complex re im);
    written = ground arith;
    sendable = omega arith;
    small = encode_field_pos laws (out_bytes 31 (encode_complex re im)) (omega arith);
    read = λ fuel k. unfold kind_value in rw (decode_complex-encode_complex laws re im h h');
  }

  pub Kept-str : (s : Bytes) (d : ℕ) → d ≤ 100 → Kept (str s) d
  unfolding encode field_string
  Kept-str s d room = record {
    field_out = out_bytes 8 s;
    written = ground arith;
    sendable = omega arith;
    small = encode_field_pos laws (out_bytes 8 s) (omega arith);
    read = λ fuel k. unfold kind_value in refl;
  }

  pub Kept-bytes : (b : Bytes) (d : ℕ) → d ≤ 100 → Kept (bytes_value b) d
  unfolding encode field_string
  Kept-bytes b d room = record {
    field_out = out_bytes 9 b;
    written = ground arith;
    sendable = omega arith;
    small = encode_field_pos laws (out_bytes 9 b) (omega arith);
    read = λ fuel k. unfold kind_value in refl;
  }

  pub Kept-builtin_function : (n : Bytes) (d : ℕ) → d ≤ 100 → Kept (builtin_function n) d
  unfolding encode field_string
  Kept-builtin_function n d room = record {
    field_out = out_bytes 26 n;
    written = ground arith;
    sendable = omega arith;
    small = encode_field_pos laws (out_bytes 26 n) (omega arith);
    read = λ fuel k. unfold kind_value in refl;
  }

  pub Kept-path : (p : Bytes) (d : ℕ) → d ≤ 100 → Kept (path p) d
  unfolding encode field_string
  Kept-path p d room = record {
    field_out = out_bytes 27 p;
    written = ground arith;
    sendable = omega arith;
    small = encode_field_pos laws (out_bytes 27 p) (omega arith);
    read = λ fuel k. unfold kind_value in refl;
  }

  pub Kept-date : (x : Date) (d : ℕ) → IsDate x → d ≤ 100 → Kept (date x) d
  unfolding encode field_message
  Kept-date x d h room = record {
    field_out = out_bytes 17 (encode_date x);
    written = ground arith;
    sendable = omega arith;
    small = encode_field_pos laws (out_bytes 17 (encode_date x)) (omega arith);
    read = λ fuel k. unfold kind_value in ap (λ x. ok (date x)) (decode_date-encode_date laws x h);
  }

  pub Kept-time : (x : Time) (d : ℕ) → IsTime x → d ≤ 100 → Kept (time x) d
  unfolding encode field_message
  Kept-time x d h room = record {
    field_out = out_bytes 18 (encode_time x);
    written = ground arith;
    sendable = omega arith;
    small = encode_field_pos laws (out_bytes 18 (encode_time x)) (omega arith);
    read = λ fuel k. unfold kind_value in ap (λ x. ok (time x)) (decode_time-encode_time laws x h);
  }

  pub Kept-date_time : (x : DateTime) (d : ℕ) → IsDateTime x → d ≤ 100 → Kept (date_time x) d
  unfolding encode field_message
  Kept-date_time x d h room = record {
    field_out = out_bytes 19 (encode_date_time x);
    written = ground arith;
    sendable = omega arith;
    small = encode_field_pos laws (out_bytes 19 (encode_date_time x)) (omega arith);
    read = λ fuel k.
        unfold kind_value in
        ap (λ x. ok (date_time x)) (decode_date_time-encode_date_time laws x h);
  }

  pub Kept-time_delta : (x : TimeDelta) (d : ℕ) → IsTimeDelta x → d ≤ 100 → Kept (time_delta x) d
  unfolding encode field_message
  Kept-time_delta x d h room = record {
    field_out = out_bytes 20 (encode_time_delta x);
    written = ground arith;
    sendable = omega arith;
    small = encode_field_pos laws (out_bytes 20 (encode_time_delta x)) (omega arith);
    read = λ fuel k.
        unfold kind_value in
        ap (λ x. ok (time_delta x)) (decode_time_delta-encode_time_delta laws x h);
  }

  pub Kept-time_zone :
      (x : TimeZone) (d : ℕ) → IsInt32 x.offset_seconds → d ≤ 100 → Kept (time_zone x) d
  unfolding encode field_message
  Kept-time_zone x d h room = record {
    field_out = out_bytes 21 (encode_time_zone x);
    written = ground arith;
    sendable = omega arith;
    small = encode_field_pos laws (out_bytes 21 (encode_time_zone x)) (omega arith);
    read = λ fuel k.
        unfold kind_value in
        ap (λ x. ok (time_zone x)) (decode_time_zone-encode_time_zone laws x h);
  }

  pub Kept-exception : (x : Exception) (d : ℕ) → d ≤ 100 → Kept (exception x) d
  unfolding encode field_message
  Kept-exception x d room = record {
    field_out = out_bytes 22 (encode_exception x);
    written = ground arith;
    sendable = omega arith;
    small = encode_field_pos laws (out_bytes 22 (encode_exception x)) (omega arith);
    read = λ fuel k.
        unfold kind_value in
        ap (λ x. ok (exception x)) (decode_exception_value-encode_exception laws x);
  }

  pub Kept-file_handle :
      (x : FileHandle) (d : ℕ) → IsU64 x.position → d ≤ 100 → Kept (file_handle x) d
  unfolding encode field_message
  Kept-file_handle x d h room = record {
    field_out = out_bytes 28 (encode_file_handle x);
    written = ground arith;
    sendable = omega arith;
    small = encode_field_pos laws (out_bytes 28 (encode_file_handle x)) (omega arith);
    read = λ fuel k.
        unfold kind_value in
        ap (λ x. ok (file_handle x)) (decode_file_handle-encode_file_handle laws x h);
  }

  pub Kept-function : (x : Function) (d : ℕ) → d ≤ 100 → Kept (function x) d
  unfolding encode field_message
  Kept-function x d room = record {
    field_out = out_bytes 25 (encode_function x);
    written = ground arith;
    sendable = omega arith;
    small = encode_field_pos laws (out_bytes 25 (encode_function x)) (omega arith);
    read = λ fuel k.
        unfold kind_value in ap (λ x. ok (function x)) (decode_function-encode_function laws x);
  }

  pub Kept-type_name : (n : Bytes) (d : ℕ) → d ≤ 100 → Kept (type_name n) d
  unfolding encode field_message
  Kept-type_name n d room = record {
    field_out = out_bytes 23 (field_string 1 n ++ field_varint 3 1);
    written = ground arith;
    sendable = omega arith;
    small =
        encode_field_pos laws (out_bytes 23 (field_string 1 n ++ field_varint 3 1)) (omega arith);
    read = λ fuel k.
        unfold kind_value in
        decode_type_name laws (decode_loop fuel) n _ (unfold field_string in simp append-nil);
  }
