-- ===== src/Examples/Raises.antt =====
-- Exceptions at concrete inputs.
use monty_go.Common.{◌≡◌, [], ◌∷◌, text, arith, none, some, true, false}
use monty_go.Errors.{ok}
use monty_go.Wire.Fields.{field_message}
use monty_go.Exceptions.{RaisedException, StackFrame, unicode_error}
use monty_go.Exceptions.Raised.{encode_raised, decode_error_event}
use monty_go.Exceptions.RoundTrip.{IsRaised, decode_error_event-encode_raised}
use monty_go.Wire.Plain.{plain, plain-Laws}

abbrev frame : StackFrame
frame = record {
  filename = text "main.py";
  line = 3;
  column = 1;
  end_line = 3;
  end_column = 9;
  frame_name = [];
  preview_line = text "f()";
  hide_caret = true;
  hide_frame_name = false;
}

abbrev raised : RaisedException
raised = record {
  exception_type = text "UnicodeDecodeError";
  message = text "bad";
  frames = frame ∷ [];
  payload = some (
      unicode_error (record {
        encoding = text "utf-8";
        object_bytes = 255 ∷ [];
        object_string = none;
        start = 0;
        end_ = 1;
        reason = text "start";
      }));
}

raised-IsRaised : IsRaised raised
raised-IsRaised = record {
  frames = (
    record {
      line = omega arith;
      column = omega arith;
      end_line = omega arith;
      end_column = omega arith;
    },
    tt,
  );
  payload = omega arith;
}

decode_error_event-encode_raised_example :
    decode_error_event (field_message 1 (encode_raised raised)) ≡ ok raised
decode_error_event-encode_raised_example =
    decode_error_event-encode_raised plain-Laws raised raised-IsRaised
