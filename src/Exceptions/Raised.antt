-- ===== src/Exceptions/Raised.antt =====
-- protocol.go: `encodeRaised`, `decodeRaised` and `decodeErrorEvent`.
use monty_go.Common.{
  ℕ, ◌%◌, ◌^◌, List, [], ◌∷◌, ◌++◌, Bytes, length, false, not, ◌==◌, ltb, if◌then◌else◌, Option,
  none, some,
}
use monty_go.Errors.{Error, Result, ok, err, ◌>>=◌, Run, done, fail, state_of, result_of, check_in}
use monty_go.Wire.Proto.{Protowire, is_bytes}
use monty_go.Wire.Fields.{WireField, field_varint, field_bool, field_string, field_message}
use monty_go.Wire.Parse.{parse_fields}
use monty_go.Exceptions.{StackFrame, RaisedException}
use monty_go.Exceptions.Payload.{
  max_exception_data_field_size, encode_exception_data, decode_exception_data,
}

abbrev pub blank_frame : StackFrame
blank_frame = record {
  filename = [];
  line = 0;
  column = 0;
  end_line = 0;
  end_column = 0;
  frame_name = [];
  preview_line = [];
  hide_caret = false;
  hide_frame_name = false;
}

-- The variables `x` and `structuredData` of `decodeRaised`.
pub record RaisedParts : Type 0 where
  pub raised : RaisedException
  pub structured_data : Option Bytes

abbrev pub blank_raised : RaisedException
blank_raised = record { exception_type = []; message = []; frames = []; payload = none }

-- The closures on a location, which assign a line and a column.
unfoldable pub location_field : ℕ × ℕ → WireField → Run (ℕ × ℕ)
location_field (line, column) l = done (
  if l.tag == 1 then l.varint % 2 ^ 32 else line,
  if l.tag == 2 then l.varint % 2 ^ 32 else column,
)

-- `max(maxExceptionDataFieldSize, len(x.Message))`.
abbrev pub message_limit : Bytes → ℕ
message_limit message =
    if ltb max_exception_data_field_size (length message)
    then length message
    else max_exception_data_field_size

module _ ⦃w : Protowire⦄ where
  -- `if s != "" { b = append(b, fieldString(tag, s)...) }`.
  abbrev pub nonempty_field : ℕ → Bytes → Bytes
  nonempty_field tag [] = []
  nonempty_field tag (c ∷ s) = field_string tag (c ∷ s)

  unfoldable pub encode_frame : StackFrame → Bytes
  encode_frame f =
      let sf = field_string 1 f.filename in
      let sf = sf ++ field_message 2 (field_varint 1 f.line ++ field_varint 2 f.column) in
      let sf = sf ++ field_message 3 (field_varint 1 f.end_line ++ field_varint 2 f.end_column) in
      let sf = (sf ++ nonempty_field 4 f.frame_name) ++ nonempty_field 5 f.preview_line in
      (sf ++ field_bool 6 f.hide_caret) ++ field_bool 7 f.hide_frame_name

  abbrev pub encode_frames : List StackFrame → Bytes
  encode_frames [] = []
  encode_frames (f ∷ fs) = field_message 3 (encode_frame f) ++ encode_frames fs

  unfoldable pub encode_raised : RaisedException → Bytes
  encode_raised x =
      let b = field_string 1 x.exception_type ++ nonempty_field 2 x.message in
      (b ++ encode_frames x.frames) ++ nonempty_field 4 (encode_exception_data x.payload)

  unfoldable pub frame_field : StackFrame → WireField → Run StackFrame
  frame_field sf v =
      if v.tag == 1
      then done (record sf { filename = v.bytes })
      else if v.tag == 2
      then (let at = state_of (parse_fields v.bytes location_field (sf.line, sf.column)) in
          done (record sf { line = at.0; column = at.1 }))
      else if v.tag == 3
      then (let at = state_of (parse_fields v.bytes location_field (sf.end_line, sf.end_column)) in
          done (record sf { end_line = at.0; end_column = at.1 }))
      else if v.tag == 4
      then done (record sf { frame_name = v.bytes })
      else if v.tag == 5
      then done (record sf { preview_line = v.bytes })
      else if v.tag == 6
      then done (record sf { hide_caret = not (v.varint == 0) })
      else if v.tag == 7
      then done (record sf { hide_frame_name = not (v.varint == 0) })
      else done sf

  unfoldable pub decode_frame : Bytes → Result StackFrame
  decode_frame data' = result_of (parse_fields data' frame_field blank_frame)

  unfoldable pub raised_field : RaisedParts → WireField → Run RaisedParts
  raised_field s f =
      if f.tag == 4
      then (if not (is_bytes f.type_)
          then fail Error.structured_not_message s
          else done (record s { structured_data = some f.bytes }))
      else if f.tag == 1
      then done (record s { raised = record (s.raised) { exception_type = f.bytes } })
      else if f.tag == 2
      then done (record s { raised = record (s.raised) { message = f.bytes } })
      else if f.tag == 3
      then check_in s (decode_frame f.bytes) (λ sf.
        done (record s { raised = record (s.raised) { frames = s.raised.frames ++ (sf ∷ []) } }))
      else done s

  -- The end of `decodeRaised`.
  abbrev pub raised_result : RaisedException → Option Bytes → Result RaisedException
  raised_result x none = ok x
  raised_result x (some structured_data) = do
    payload ← decode_exception_data structured_data (message_limit x.message)
    ok (record x { payload = payload })

  unfoldable pub decode_raised : Bytes → Result RaisedException
  decode_raised data' = do
    s ←
        result_of (
          parse_fields data' raised_field
            (record { raised = blank_raised; structured_data = none }))
    raised_result s.raised s.structured_data

  unfoldable pub error_field : Option RaisedException → WireField → Run (Option RaisedException)
  error_field x f =
      if f.tag == 1 then check_in x (decode_raised f.bytes) (λ v. done (some v)) else done x

  abbrev pub error_result : Option RaisedException → Result RaisedException
  error_result (some x) = ok x
  error_result none = err Error.no_exception

  unfoldable pub decode_error_event : Bytes → Result RaisedException
  decode_error_event data' = result_of (parse_fields data' error_field none) >>= error_result
