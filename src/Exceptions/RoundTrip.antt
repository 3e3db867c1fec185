-- ===== src/Exceptions/RoundTrip.antt =====
-- `decodeErrorEvent` reads the exception that `encodeRaised` writes.
use monty_go.Common.{
  ℕ, ◌<◌, ◌≡◌, refl, ap, ◌∙◌, sym, List, [], ◌∷◌, ◌++◌, append_assoc, append-nil, Bytes, length,
  arith, All, All-append, Option, some, none,
}
use monty_go.Errors.{ok, done, result_of, ◌>>=◌}
use monty_go.Wire.Proto.{Protowire, Laws, IsFieldNumber}
use monty_go.Wire.Fields.{field_bytes, field_string, field_message}
use monty_go.Wire.Message.{
  OutField, out_bytes, IsSendable, encode_message, fold_fields, parse_fields_of,
  encode_message-append, field_bytes_longer,
}
use monty_go.Exceptions.{StackFrame, ExceptionData, unicode_error, json_error, RaisedException}
use monty_go.Exceptions.Payload.{encode_exception_data, encode_payload}
use monty_go.Exceptions.Delivered.{IsPayload, decode_exception_data-encode_payload}
use monty_go.Exceptions.Frames.{
  IsFrame, nonempty_out, nonempty_out-IsSendable, encode_nonempty_out, decode_frame-encode_frame,
}
use monty_go.Exceptions.Raised.{
  RaisedParts, blank_raised, message_limit, encode_frame, encode_frames, encode_raised,
  raised_field, raised_result, decode_raised, error_field, error_result, decode_error_event,
}

abbrev IsPayloadOption : ℕ → Option ExceptionData → Type 0
IsPayloadOption limit none = Unit {0}
IsPayloadOption limit (some x) = IsPayload limit x

-- The positions are uint32, and the payload is within the worker's caps.
pub record IsRaised (x : RaisedException) : Type 0 where
  pub frames : All IsFrame x.frames
  pub payload : IsPayloadOption (message_limit x.message) x.payload

module _ ⦃w : Protowire⦄ where
  abbrev frames_out : List StackFrame → List OutField
  frames_out [] = []
  frames_out (f ∷ fs) = out_bytes 3 (encode_frame f) ∷ frames_out fs

  abbrev raised_tail : List StackFrame → Option ExceptionData → List OutField
  raised_tail fs p = frames_out fs ++ nonempty_out 4 (encode_exception_data p)

  abbrev raised_out : RaisedException → List OutField
  raised_out x =
      out_bytes 1 x.exception_type ∷ (nonempty_out 2 x.message ++ raised_tail x.frames x.payload)

  frames_out_lem : (fs : List StackFrame) → encode_message (frames_out fs) ≡ encode_frames fs
  unfolding field_message
  frames_out_lem [] = refl
  frames_out_lem (f ∷ fs) = ap (λ b. field_message 3 (encode_frame f) ++ b) (frames_out_lem fs)

  encode_raised_lem : (x : RaisedException) → encode_raised x ≡ encode_message (raised_out x)
  unfolding encode_raised field_string
  encode_raised_lem x =
      rw
        (
          encode_message-append (nonempty_out 2 x.message) _,
          encode_message-append (frames_out x.frames) _,
          encode_nonempty_out 2 x.message,
          encode_nonempty_out 4 (encode_exception_data x.payload),
          frames_out_lem x.frames,
        )
        (simp append_assoc)

  frames_out-IsSendable : (fs : List StackFrame) → All IsSendable (frames_out fs)
  frames_out-IsSendable [] = tt
  frames_out-IsSendable (f ∷ fs) = (omega arith, frames_out-IsSendable fs)

  raised_out-IsSendable : (x : RaisedException) → All IsSendable (raised_out x)
  raised_out-IsSendable x = (
    omega arith,
    All-append IsSendable (nonempty_out 2 x.message) _
        (nonempty_out-IsSendable 2 x.message (omega arith))
        (All-append IsSendable (frames_out x.frames) _ (frames_out-IsSendable x.frames)
          (nonempty_out-IsSendable 4 (encode_exception_data x.payload) (omega arith))),
  )

  -- `structuredData` for a payload.
  abbrev sent_data : Bytes → Option Bytes
  sent_data [] = none
  sent_data (c ∷ s) = some (c ∷ s)

  abbrev with_frames : RaisedException → List StackFrame → RaisedParts
  with_frames x fs = record {
    raised = record x { frames = fs; payload = none };
    structured_data = none;
  }

  module _ (laws : Laws w) where
    data_lem :
        (x : RaisedException) (b : Bytes)
        → fold_fields raised_field (nonempty_out 4 b) (with_frames x x.frames)
          ≡ done (record { raised = record x { payload = none }; structured_data = sent_data b })
    unfolding raised_field
    data_lem x [] = refl
    data_lem x (c ∷ s) = refl

    frames_lem :
        (x : RaisedException) (fs gs : List StackFrame) (b : Bytes)
        → All IsFrame gs
        → x.frames ≡ fs ++ gs
        → fold_fields raised_field (frames_out gs ++ nonempty_out 4 b) (with_frames x fs)
          ≡ done (record { raised = record x { payload = none }; structured_data = sent_data b })
    unfolding raised_field
    frames_lem x fs [] b h e =
        ap (λ gs. fold_fields raised_field (nonempty_out 4 b) (with_frames x gs))
          (sym (e ∙ append-nil fs))
        ∙ data_lem x b
    frames_lem x fs (g ∷ gs) b (hg, hgs) e =
        rw (decode_frame-encode_frame laws g hg)
          (frames_lem x (fs ++ (g ∷ [])) gs b hgs (e ∙ sym (append_assoc fs (g ∷ []) gs)))

    raised_fields :
        (x : RaisedException) (m : Bytes)
        → x.message ≡ m
        → All IsFrame x.frames
        → fold_fields raised_field
            (out_bytes 1 x.exception_type ∷ (nonempty_out 2 m ++ raised_tail x.frames x.payload))
            (record { raised = blank_raised; structured_data = none })
          ≡ done (record {
            raised = record x { payload = none };
            structured_data = sent_data (encode_exception_data x.payload);
          })
    unfolding raised_field
    raised_fields x [] e h =
        ap
          (λ m.
            fold_fields raised_field (raised_tail x.frames x.payload)
              (with_frames (record x { message = m }) []))
          (sym e)
        ∙ frames_lem x [] x.frames (encode_exception_data x.payload) h refl
    raised_fields x (c ∷ m) e h =
        ap
          (λ m.
            fold_fields raised_field (raised_tail x.frames x.payload)
              (with_frames (record x { message = m }) []))
          (sym e)
        ∙ frames_lem x [] x.frames (encode_exception_data x.payload) h refl

    sent_data_lem : (b : Bytes) → 0 < length b → sent_data b ≡ some b
    sent_data_lem [] h = absurd (omega arith)
    sent_data_lem (c ∷ s) h = refl

    field_bytes_pos : (tag : ℕ) (b : Bytes) → IsFieldNumber tag → 0 < length (field_bytes tag b)
    field_bytes_pos tag b h = let longer = field_bytes_longer laws tag b h in omega arith

    encode_payload_pos : (p : ExceptionData) → 0 < length (encode_payload p)
    unfolding encode_payload field_message
    encode_payload_pos (unicode_error x) = field_bytes_pos 1 _ (omega arith)
    encode_payload_pos (json_error x) = field_bytes_pos 2 _ (omega arith)

    payload_lem :
        (x : RaisedException) (p : Option ExceptionData)
        → x.payload ≡ p
        → IsPayloadOption (message_limit x.message) p
        → raised_result (record x { payload = none }) (sent_data (encode_exception_data p)) ≡ ok x
    unfolding encode_exception_data
    payload_lem x none e h = ap (λ p. ok (record x { payload = p })) (sym e)
    payload_lem x (some p) e h =
        rw
          (
            sent_data_lem (encode_payload p) (encode_payload_pos p),
            decode_exception_data-encode_payload laws (message_limit x.message) p h,
          )
          (ap (λ p. ok (record x { payload = p })) (sym e))

    pub decode_raised-encode_raised :
        (x : RaisedException) → IsRaised x → decode_raised (encode_raised x) ≡ ok x
    unfolding decode_raised
    decode_raised-encode_raised x h =
        ap (λ r. result_of r >>= λ s. raised_result s.raised s.structured_data)
          (parse_fields_of laws raised_field (raised_out x) _ (encode_raised x)
              (encode_raised_lem x) (raised_out-IsSendable x)
            ∙ raised_fields x x.message refl h.frames)
        ∙ payload_lem x x.payload refl h.payload

    -- An exception whose positions are uint32, and whose payload is within the worker's caps, is
    -- read back from an error event as it was: its type, message, frames and payload.
    pub decode_error_event-encode_raised :
        (x : RaisedException)
        → IsRaised x
        → decode_error_event (field_message 1 (encode_raised x)) ≡ ok x
    unfolding decode_error_event field_message
    decode_error_event-encode_raised x h =
        ap (λ r. result_of r >>= error_result)
          (parse_fields_of laws error_field (out_bytes 1 (encode_raised x) ∷ []) none
            (field_bytes 1 (encode_raised x)) (sym (append-nil _)) (omega arith))
        ∙ unfold error_field in rw (decode_raised-encode_raised x h)
