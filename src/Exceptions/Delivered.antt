-- ===== src/Exceptions/Delivered.antt =====
-- `decodeExceptionDataWithLimit` reads the payloads that `encodeExceptionData` writes.
use monty_go.Common.{
  ℕ, ◌≤◌, ◌≡◌, refl, ap, ◌∙◌, sym, List, [], ◌∷◌, ◌++◌, append_assoc, append-nil, Bytes, length,
  arith, All, Option, some, none,
}
use monty_go.Errors.{ok, done, result_of, ◌>>=◌}
use monty_go.Wire.Proto.{Protowire, Laws, IsU64}
use monty_go.Wire.Fields.{field_bytes, field_string, field_message}
use monty_go.Wire.Message.{
  OutField, out_varint, out_bytes, IsSendable, encode_message, fold_fields, parse_fields_of,
}
use monty_go.Exceptions.{UnicodeErrorData, JsonErrorData, ExceptionData, unicode_error, json_error}
use monty_go.Exceptions.Payload.{
  max_exception_data_field_size, blank_unicode, blank_json, unicode_check, unicode_value,
  unicode_field, unicode_result, json_field, encode_payload, decode_unicode, decode_json,
  payload_field, decode_exception_data,
}

-- A text that the worker's cap admits.
abbrev pub IsCapped : Bytes → Type 0
IsCapped b = length b ≤ max_exception_data_field_size

-- Only one representation of the object is set.
abbrev pub IsObject : Bytes → Option Bytes → Type 0
IsObject b none = IsCapped b
IsObject b (some s) = IsCapped s × (b ≡ [])

abbrev pub IsDocument : Option Bytes → Type 0
IsDocument none = Unit {0}
IsDocument (some d) = IsCapped d

-- What a payload is in range means, for the limit of a JSON message.
abbrev pub IsPayload : ℕ → ExceptionData → Type 0
IsPayload limit (unicode_error x) =
    IsCapped x.encoding
    × IsObject x.object_bytes x.object_string
    × IsU64 x.start
    × IsU64 x.end_
    × IsCapped x.reason
IsPayload limit (json_error x) =
    (length x.message ≤ limit)
    × IsDocument x.document
    × IsU64 x.position
    × IsU64 x.line
    × IsU64 x.column

abbrev object_out : Bytes → Option Bytes → OutField
object_out b none = out_bytes 2 b
object_out b (some s) = out_bytes 3 s

abbrev unicode_out : UnicodeErrorData → Option Bytes → List OutField
unicode_out x o =
    out_bytes 1 x.encoding
    ∷ object_out x.object_bytes o
    ∷ out_varint 4 x.start
    ∷ out_varint 5 x.end_
    ∷ out_bytes 6 x.reason
    ∷ []

object_out-IsSendable : (b : Bytes) (o : Option Bytes) → IsSendable (object_out b o)
object_out-IsSendable b none = omega arith
object_out-IsSendable b (some s) = omega arith

unicode_fields :
    (x : UnicodeErrorData) (o : Option Bytes)
    → x.object_string ≡ o
    → IsCapped x.encoding
    → IsObject x.object_bytes o
    → IsCapped x.reason
    → result_of (fold_fields unicode_field (unicode_out x o) blank_unicode) >>= unicode_result
      ≡ ok (unicode_error x)
unfolding unicode_field unicode_check unicode_value unicode_result
unicode_fields x none e h k l = ground arith
unicode_fields x (some s) e h (k, b) l = ground arith

abbrev document_out : Option Bytes → List OutField
document_out none = []
document_out (some d) = out_bytes 2 d ∷ []

abbrev json_out : JsonErrorData → Option Bytes → List OutField
json_out x o =
    out_bytes 1 x.message
    ∷ (document_out o
        ++ (out_varint 3 x.position ∷ out_varint 4 x.line ∷ out_varint 5 x.column ∷ []))

json_fields :
    (limit : ℕ) (x : JsonErrorData) (o : Option Bytes)
    → x.document ≡ o
    → length x.message ≤ limit
    → IsDocument o
    → fold_fields (json_field limit) (json_out x o) blank_json ≡ done x
unfolding json_field
json_fields limit x none e h k = ground arith
json_fields limit x (some d) e h k = ground arith

module _ ⦃w : Protowire⦄ where
  abbrev unicode_body : UnicodeErrorData → Option Bytes → Bytes
  unicode_body x o = encode_message (unicode_out x o)

  abbrev json_body : JsonErrorData → Option Bytes → Bytes
  json_body x o = encode_message (json_out x o)

  unicode_body_lem :
      (x : UnicodeErrorData) (o : Option Bytes)
      → x.object_string ≡ o
      → encode_payload (unicode_error x) ≡ field_message 1 (unicode_body x o)
  unfolding encode_payload field_string
  unicode_body_lem x none e = rw e (ap (field_message 1) (simp (append_assoc, append-nil)))
  unicode_body_lem x (some s) e = rw e (ap (field_message 1) (simp (append_assoc, append-nil)))

  json_body_lem :
      (x : JsonErrorData) (o : Option Bytes)
      → x.document ≡ o
      → encode_payload (json_error x) ≡ field_message 2 (json_body x o)
  unfolding encode_payload field_string
  json_body_lem x none e = rw e (ap (field_message 2) (simp (append_assoc, append-nil)))
  json_body_lem x (some s) e = rw e (ap (field_message 2) (simp (append_assoc, append-nil)))

  module _ (laws : Laws w) where
    decode_unicode-body :
        (x : UnicodeErrorData)
        → IsCapped x.encoding
        → IsObject x.object_bytes x.object_string
        → IsU64 x.start
        → IsU64 x.end_
        → IsCapped x.reason
        → decode_unicode (unicode_body x x.object_string) ≡ ok (unicode_error x)
    unfolding decode_unicode
    decode_unicode-body x h k m n l =
        ap (λ r. result_of r >>= unicode_result)
          (parse_fields_of laws unicode_field (unicode_out x x.object_string) blank_unicode
            (unicode_body x x.object_string) refl
            (omega arith, (object_out-IsSendable x.object_bytes x.object_string, omega arith)))
        ∙ unicode_fields x x.object_string refl h k l

    json_out-IsSendable :
        (x : JsonErrorData) (o : Option Bytes)
        → IsU64 x.position
        → IsU64 x.line
        → IsU64 x.column
        → All IsSendable (json_out x o)
    json_out-IsSendable x none h k l = omega arith
    json_out-IsSendable x (some d) h k l = omega arith

    decode_json-body :
        (limit : ℕ) (x : JsonErrorData)
        → IsPayload limit (json_error x)
        → decode_json limit (json_body x x.document) ≡ ok (json_error x)
    unfolding decode_json
    decode_json-body limit x (h, k, m, n, l) =
        ap (λ r. result_of r >>= λ y. ok (json_error y))
          (parse_fields_of laws (json_field limit) (json_out x x.document) blank_json
              (json_body x x.document) refl (json_out-IsSendable x x.document m n l)
            ∙ json_fields limit x x.document refl h k)

    payload_bytes :
        (limit tag : ℕ) (b body : Bytes)
        → b ≡ field_message tag body
        → 1 ≤ tag
        → tag ≤ 2
        → decode_exception_data b limit
          ≡ result_of (fold_fields (payload_field limit) (out_bytes tag body ∷ []) none)
    unfolding decode_exception_data field_message
    payload_bytes limit tag b body e h k = ap result_of (
        parse_fields_of laws (payload_field limit) (out_bytes tag body ∷ []) none b
          (e ∙ sym (append-nil (field_bytes tag body))) (omega arith))

    -- A payload whose texts are within the caps, with one representation of its object, is read
    -- back as it was.
    pub decode_exception_data-encode_payload :
        (limit : ℕ) (x : ExceptionData)
        → IsPayload limit x
        → decode_exception_data (encode_payload x) limit ≡ ok (some x)
    decode_exception_data-encode_payload limit (unicode_error x) (h, k, m, n, l) =
        payload_bytes limit 1 _ (unicode_body x x.object_string)
          (unicode_body_lem x x.object_string refl) (omega arith) (omega arith)
        ∙ unfold payload_field in rw (decode_unicode-body x h k m n l)
    decode_exception_data-encode_payload limit (json_error x) h =
        payload_bytes limit 2 _ (json_body x x.document) (json_body_lem x x.document refl)
          (omega arith) (omega arith)
        ∙ unfold payload_field in rw (decode_json-body limit x h)
