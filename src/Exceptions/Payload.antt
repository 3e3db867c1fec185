-- ===== src/Exceptions/Payload.antt =====
-- exception_data.go: `encodeExceptionData` and `decodeExceptionDataWithLimit`.
use monty_go.Common.{
  ℕ, ◌++◌, [], Bytes, length, Bool, true, false, not, ◌==◌, ◌||◌, ◌&&◌, ltb, leb, if◌then◌else◌,
  Option, none, some,
}
use monty_go.Errors.{Error, Result, ok, err, ◌>>=◌, Run, done, fail, result_of, check_in}
use monty_go.Wire.Proto.{Protowire, is_varint, is_bytes}
use monty_go.Wire.Fields.{WireField, field_varint, field_bytes, field_string, field_message}
use monty_go.Wire.Parse.{parse_fields}
use monty_go.Exceptions.{UnicodeErrorData, JsonErrorData, ExceptionData, unicode_error, json_error}

-- `64 << 10`.
abbrev pub max_exception_data_field_size : ℕ
max_exception_data_field_size = 65536

-- The variables `x` and `objectSeen`.
pub record UnicodeParts : Type 0 where
  pub parts : UnicodeErrorData
  pub object_seen : Bool

abbrev pub blank_unicode : UnicodeParts
blank_unicode = record {
  parts = record {
    encoding = [];
    object_bytes = [];
    object_string = none;
    start = 0;
    end_ = 0;
    reason = [];
  };
  object_seen = false;
}

abbrev pub blank_json : JsonErrorData
blank_json = record { message = []; document = none; position = 0; line = 0; column = 0 }

-- The first switch of the closure for UnicodeErrorData.
unfoldable pub unicode_check : UnicodeParts → WireField → Run UnicodeParts
unicode_check s p =
    if p.tag == 1 || (p.tag == 2 || (p.tag == 3 || p.tag == 6))
    then (if not (is_bytes p.type_)
        then fail (Error.invalid_unicode_field p.tag) s
        else if ltb max_exception_data_field_size (length p.bytes)
        then fail (Error.unicode_field_size p.tag) s
        else done s)
    else if p.tag == 4 || p.tag == 5
    then (if not (is_varint p.type_) then fail (Error.invalid_unicode_field p.tag) s else done s)
    else done s

-- The second switch.
unfoldable pub unicode_value : UnicodeParts → WireField → Run UnicodeParts
unicode_value s p =
    if p.tag == 1
    then done (record s { parts = record (s.parts) { encoding = p.bytes } })
    else if p.tag == 2 || p.tag == 3
    then (if s.object_seen
        then fail Error.unicode_objects s
        else if p.tag == 2
        then done
            (record { parts = record (s.parts) { object_bytes = p.bytes }; object_seen = true })
        else done (record {
          parts = record (s.parts) { object_string = some p.bytes };
          object_seen = true;
        }))
    else if p.tag == 4
    then done (record s { parts = record (s.parts) { start = p.varint } })
    else if p.tag == 5
    then done (record s { parts = record (s.parts) { end_ = p.varint } })
    else if p.tag == 6
    then done (record s { parts = record (s.parts) { reason = p.bytes } })
    else done s

unfoldable pub unicode_field : UnicodeParts → WireField → Run UnicodeParts
unfolding unicode_check unicode_value
unicode_field s p = elim (unicode_check s p) [
  | done t ↦ unicode_value t p
  | fail e t ↦ fail e t
  | Run.out_of_fuel t ↦ Run.out_of_fuel t
]

unfoldable pub unicode_result : UnicodeParts → Result ExceptionData
unicode_result s =
    if not s.object_seen then err Error.unicode_no_object else ok (unicode_error s.parts)

-- The closure for JSONErrorData.
unfoldable pub json_field : ℕ → JsonErrorData → WireField → Run JsonErrorData
json_field message_limit x p =
    if ((p.tag == 1 || p.tag == 2) && not (is_bytes p.type_))
      || ((leb 3 p.tag && leb p.tag 5) && not (is_varint p.type_))
    then fail (Error.invalid_json_field p.tag) x
    else if (p.tag == 2 && ltb max_exception_data_field_size (length p.bytes))
        || (p.tag == 1 && ltb message_limit (length p.bytes))
    then fail (Error.json_field_size p.tag) x
    else if p.tag == 1
    then done (record x { message = p.bytes })
    else if p.tag == 2
    then done (record x { document = some p.bytes })
    else if p.tag == 3
    then done (record x { position = p.varint })
    else if p.tag == 4
    then done (record x { line = p.varint })
    else if p.tag == 5
    then done (record x { column = p.varint })
    else done x

abbrev pub is_some {ℓ} : {A : Type ℓ} → Option A → Bool
is_some (some a) = true
is_some none = false

module _ ⦃w : Protowire⦄ where
  -- The object, in one of its two representations.
  abbrev pub object_bytes_of : UnicodeErrorData → Option Bytes → Bytes
  object_bytes_of x (some s) = field_string 3 s
  object_bytes_of x none = field_bytes 2 x.object_bytes

  abbrev pub document_bytes : Option Bytes → Bytes
  document_bytes (some d) = field_string 2 d
  document_bytes none = []

  unfoldable pub encode_payload : ExceptionData → Bytes
  encode_payload (unicode_error x) =
      let b = field_string 1 x.encoding ++ object_bytes_of x x.object_string in
      let b = (b ++ field_varint 4 x.start) ++ field_varint 5 x.end_ in
      field_message 1 (b ++ field_string 6 x.reason)
  encode_payload (json_error x) =
      let b = field_string 1 x.message ++ document_bytes x.document in
      field_message 2
        (((b ++ field_varint 3 x.position) ++ field_varint 4 x.line) ++ field_varint 5 x.column)

  unfoldable pub encode_exception_data : Option ExceptionData → Bytes
  unfolding encode_payload
  encode_exception_data (some x) = encode_payload x
  encode_exception_data none = []

  unfoldable pub decode_unicode : Bytes → Result ExceptionData
  decode_unicode data' =
      result_of (parse_fields data' unicode_field blank_unicode) >>= unicode_result

  unfoldable pub decode_json : ℕ → Bytes → Result ExceptionData
  decode_json message_limit data' = do
    x ← result_of (parse_fields data' (json_field message_limit) blank_json)
    ok (json_error x)

  unfoldable pub payload_field : ℕ → Option ExceptionData → WireField → Run (Option ExceptionData)
  payload_field message_limit result f =
      if not (f.tag == 1) && not (f.tag == 2)
      then done result
      else if is_some result || not (is_bytes f.type_)
      then fail Error.invalid_payload result
      else if f.tag == 1
      then check_in result (decode_unicode f.bytes) (λ x. done (some x))
      else check_in result (decode_json message_limit f.bytes) (λ x. done (some x))

  -- `decodeExceptionDataWithLimit`.
  unfoldable pub decode_exception_data : Bytes → ℕ → Result (Option ExceptionData)
  decode_exception_data data' message_limit =
      result_of (parse_fields data' (payload_field message_limit) none)
