-- ===== src/Value/Encode.antt =====
-- value.go: `encodeValue` on the package's own types and on Go's bool, int64, float64, complex128,
-- string, []byte and *big.Int. `d` is the depth.
use monty_go.Common.{ℕ, suc, List, [], ◌∷◌, ◌++◌, Bytes, ltb, leb, if◌then◌else◌, text}
use monty_go.Common.Int.{pos}
use monty_go.Errors.{Error, Result, ok, err, ◌>>=◌}
use monty_go.Wire.Proto.{Protowire}
use monty_go.Wire.Fields.{
  zigzag, field_varint, field_bool, field_fixed64, field_bytes, field_string, field_message,
}
use monty_go.Wire.Parse.{decode_bytes_field}
use monty_go.Value.{
  Value, Values, no_values, more_values, Pairs, no_pairs, more_pairs, nil_value, ellipsis,
  not_implemented, bool, int, big_int, float, complex, str, bytes_value, list, tuple, set,
  frozen_set, dict, named_tuple, date, time, date_time, time_delta, time_zone, exception, type_name,
  instance_type, builtin_function, path, file_handle, function, dataclass, class_type,
  class_instance, module_value, repr, cycle,
}
use monty_go.Value.Flat.{
  encode_date, encode_date_time, encode_time, encode_time_delta, encode_time_zone, encode_exception,
  encode_file_handle, encode_function, encode_complex, encode_big_int,
}

abbrev pub max_value_depth : ℕ
max_value_depth = 100

-- The test at the head of `encode`.
abbrev pub at_depth {ℓ} : {A : Type ℓ} → ℕ → Result A → Result A
at_depth d r = if ltb max_value_depth d then err Error.depth_exceeded else r

module _ ⦃w : Protowire⦄ where
  -- `reflect.Uint64`: an int where it fits 63 bits.
  unfoldable pub encode_uint : ℕ → Bytes
  encode_uint u =
      if leb u 0x7fff_ffff_ffff_ffff
      then field_varint 5 (zigzag (pos u))
      else field_message 6 (encode_big_int (pos u))

  -- One entry of a dictionary.
  abbrev pub pair_bytes : Bytes → Bytes → Bytes
  pair_bytes k v = field_message 1 (field_message 1 k ++ field_message 2 v)

  abbrev pub names_bytes : List Bytes → Bytes
  names_bytes [] = []
  names_bytes (n ∷ ns) = field_string 2 n ++ names_bytes ns

  -- `encodeStruct` on a Cycle: its two exported fields as a dictionary.
  unfoldable pub encode_cycle : ℕ → Bytes → ℕ → Result Bytes
  encode_cycle i p d = do
    k ← at_depth (suc d) (ok (field_string 8 (text "Identity")))
    v ← at_depth (suc d) (ok (encode_uint i))
    l ← at_depth (suc d) (ok (field_string 8 (text "Placeholder")))
    u ← at_depth (suc d) (ok (field_string 8 p))
    ok (field_message 14 (pair_bytes k v ++ pair_bytes l u))

  unfoldable mutual
    pub encode : Value → ℕ → Result Bytes
    encode nil_value d = at_depth d (ok (field_message 2 []))
    encode ellipsis d = at_depth d (ok (field_message 1 []))
    encode not_implemented d = at_depth d (ok (field_message 3 []))
    encode (bool b) d = at_depth d (ok (field_bool 4 b))
    encode (int z) d = at_depth d (ok (field_varint 5 (zigzag z)))
    encode (big_int z) d = at_depth d (ok (field_message 6 (encode_big_int z)))
    encode (float x) d = at_depth d (ok (field_fixed64 7 x))
    encode (complex re im) d = at_depth d (ok (field_message 31 (encode_complex re im)))
    encode (str s) d = at_depth d (ok (field_string 8 s))
    encode (bytes_value b) d = at_depth d (ok (field_bytes 9 b))
    encode (list xs) d =
        at_depth d (do body ← encode_values 1 xs (suc d); ok (field_message 11 body))
    encode (tuple xs) d =
        at_depth d (do body ← encode_values 1 xs (suc d); ok (field_message 12 body))
    encode (set xs) d =
        at_depth d (do body ← encode_values 1 xs (suc d); ok (field_message 15 body))
    encode (frozen_set xs) d =
        at_depth d (do body ← encode_values 1 xs (suc d); ok (field_message 16 body))
    encode (dict ps) d = at_depth d (do body ← encode_pairs ps (suc d); ok (field_message 14 body))
    encode (named_tuple n ns xs) d = at_depth d (do
      body ← encode_values 3 xs (suc d)
      ok (field_message 13 ((field_string 1 n ++ names_bytes ns) ++ body)))
    encode (date x) d = at_depth d (ok (field_message 17 (encode_date x)))
    encode (time x) d = at_depth d (ok (field_message 18 (encode_time x)))
    encode (date_time x) d = at_depth d (ok (field_message 19 (encode_date_time x)))
    encode (time_delta x) d = at_depth d (ok (field_message 20 (encode_time_delta x)))
    encode (time_zone x) d = at_depth d (ok (field_message 21 (encode_time_zone x)))
    encode (exception x) d = at_depth d (ok (field_message 22 (encode_exception x)))
    encode (type_name n) d =
        at_depth d (ok (field_message 23 (field_string 1 n ++ field_varint 3 1)))
    encode (instance_type n) d = at_depth d (err Error.instance_type_input)
    encode (builtin_function n) d = at_depth d (ok (field_string 26 n))
    encode (path p) d = at_depth d (ok (field_string 27 p))
    encode (file_handle x) d = at_depth d (ok (field_message 28 (encode_file_handle x)))
    encode (function x) d = at_depth d (ok (field_message 25 (encode_function x)))
    encode (dataclass h ps) d = at_depth d (err Error.dataclass_input)
    encode (class_type h ps) d = at_depth d (err Error.output_only)
    encode (class_instance h ps i qs) d = at_depth d (err Error.output_only)
    encode (module_value m ps) d = at_depth d (do
      attrs ← encode_pairs ps (suc d)
      ok (
          field_message 32 (
            (field_string 1 m.name ++ field_message 2 (field_bytes 1 m.id))
            ++ field_message 3 (decode_bytes_field (field_message 14 attrs) 14))))
    encode (repr s) d = at_depth d (ok (field_string 8 s))
    encode (cycle i p) d = at_depth d (encode_cycle i p d)

    -- The items of a list, each as a field with the tag.
    pub encode_values : ℕ → Values → ℕ → Result Bytes
    encode_values tag no_values d = ok []
    encode_values tag (more_values x xs) d = do
      item ← encode x d
      rest ← encode_values tag xs d
      ok (field_message tag item ++ rest)

    pub encode_pairs : Pairs → ℕ → Result Bytes
    encode_pairs no_pairs d = ok []
    encode_pairs (more_pairs k v ps) d = do
      key ← encode k d
      value ← encode v d
      rest ← encode_pairs ps d
      ok (pair_bytes key value ++ rest)

  unfoldable pub encode_value : Value → Result Bytes
  encode_value v = encode v 0
