-- ===== src/Exceptions/Total.antt =====
-- The decoders of exceptions return on every input.
use monty_go.Common.{ℕ, Bytes, Option, some, none, arith, not, ◌==◌, ◌||◌, ◌&&◌}
use monty_go.Errors.{Ends, Returns}
use monty_go.Wire.Proto.{Protowire, Laws, is_bytes}
use monty_go.Wire.Fields.{WireField}
use monty_go.Wire.Returns.{
  Ends-check_in, Returns->>=, Ends-if, Returns-if, parse-Returns, parse-Returns_plain,
}
use monty_go.Exceptions.{ExceptionData, RaisedException}
use monty_go.Exceptions.Payload.{
  UnicodeParts, unicode_check, unicode_value, unicode_field, unicode_result, json_field, is_some,
  decode_unicode, decode_json, payload_field, decode_exception_data,
}
use monty_go.Exceptions.Raised.{
  frame_field, decode_frame, raised_field, raised_result, decode_raised, error_field, error_result,
  decode_error_event, message_limit,
}

unicode_field-Ends : (s : UnicodeParts) (f : WireField) → Ends (unicode_field s f)
unfolding unicode_field unicode_check unicode_value
unicode_field-Ends s f = ground arith

json_field-Ends :
    (n : ℕ) (s : monty_go.Exceptions.JsonErrorData) (f : WireField) → Ends (json_field n s f)
unfolding json_field
json_field-Ends n s f = ground arith

module _ ⦃w : Protowire⦄ (laws : Laws w) where
  decode_exception_data-Returns : (b : Bytes) (n : ℕ) → Returns (decode_exception_data b n)
  unfolding decode_exception_data decode_unicode decode_json payload_field
  decode_exception_data-Returns b n = parse-Returns_plain laws b (payload_field n) none λ s f l.
      Ends-if (not (f.tag == 1) && not (f.tag == 2)) _ _ tt (
        Ends-if (is_some s || not (is_bytes f.type_)) _ _ tt (
          Ends-if (f.tag == 1) _ _
            (Ends-check_in s _ _
              (parse-Returns laws f.bytes unicode_field _ unicode_result
                (λ t g m. unicode_field-Ends t g)
                (λ t. unfold unicode_result in Returns-if (not t.object_seen) _ _ tt tt))
              (λ x. tt))
            (Ends-check_in s _ _
              (parse-Returns laws f.bytes (json_field n) _ _ (λ t g m. json_field-Ends n t g)
                (λ t. tt))
              (λ x. tt))))

  raised_result-Returns : (x : RaisedException) (d : Option Bytes) → Returns (raised_result x d)
  raised_result-Returns x none = tt
  raised_result-Returns x (some d) =
      Returns->>= _ _ (decode_exception_data-Returns d (message_limit x.message)) (λ p. tt)

  decode_frame-Returns : (b : Bytes) → Returns (decode_frame b)
  unfolding decode_frame
  decode_frame-Returns b =
      parse-Returns_plain laws b frame_field _ (λ s f l. unfold frame_field in ground arith)

  decode_raised-Returns : (b : Bytes) → Returns (decode_raised b)
  unfolding decode_raised
  decode_raised-Returns b =
      parse-Returns laws b raised_field _ _
        (λ s f l.
          unfold raised_field in
          Ends-if (f.tag == 4) _ _ (Ends-if (not (is_bytes f.type_)) _ _ tt tt) (
            Ends-if (f.tag == 1) _ _ tt (
              Ends-if (f.tag == 2) _ _ tt (
                Ends-if (f.tag == 3) _ _
                  (Ends-check_in s _ _ (decode_frame-Returns f.bytes) (λ x. tt)) tt))))
        (λ s. raised_result-Returns s.raised s.structured_data)

  error_result-Returns : (x : Option RaisedException) → Returns (error_result x)
  error_result-Returns none = tt
  error_result-Returns (some x) = tt

  -- `decodeErrorEvent` returns an exception or an error on every input.
  pub decode_error_event-Returns : (b : Bytes) → Returns (decode_error_event b)
  unfolding decode_error_event
  decode_error_event-Returns b =
      parse-Returns laws b error_field none error_result
        (λ s f l.
          unfold error_field in
          Ends-if (f.tag == 1) _ _ (Ends-check_in s _ _ (decode_raised-Returns f.bytes) (λ v. tt))
            tt)
        error_result-Returns
