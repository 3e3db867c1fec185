-- ===== src/Examples/Calls.antt =====
-- OS calls and requests at concrete inputs.
use monty_go.Common.{◌≡◌, [], ◌∷◌, Bytes, refl, false, arith, text}
use mathlib.Core.List.{Permᴰ}
use monty_go.Errors.{Error, err, Returns, done}
use monty_go.Wire.Plain.{plain, plain-Laws}
use monty_go.Wire.Message.{out_varint, out_bytes, encode_message, received}
use monty_go.Wire.Parse.{parse_fields, parse_loop, decode_bytes_field, next_field, string_field}
use monty_go.Value.{nil_value}
use monty_go.Arena.Decode.{message_arena, decode_arena}
use monty_go.Events.OsCall.{OsCall, text_arg, value_arg, with_call, os_call, decode_os_call}
use monty_go.Events.OsCall.Total.{decode_os_call-Returns}
use monty_go.Events.OsCall.Getenv.{os_call_getenv_dropped}
use monty_go.Requests.{feed_request}
use monty_go.Requests.Order.{feed_request-Perm}

decode_os_call-Returns_example : Returns (decode_os_call (234 ∷ 1 ∷ 9 ∷ 255 ∷ []))
decode_os_call-Returns_example = decode_os_call-Returns plain-Laws (234 ∷ 1 ∷ 9 ∷ 255 ∷ [])

-- A call whose arena, in field 50, is cut off.
abbrev bad_message : Bytes
bad_message = 146 ∷ 3 ∷ 1 ∷ 255 ∷ []

bad_arena : message_arena bad_message 50 ≡ err (Error.invalid_tag 1)
unfolding message_arena decode_arena parse_fields parse_loop decode_bytes_field next_field plain
    string_field
bad_arena = refl

feed_request-Perm_example :
    feed_request (text "x") ((97 ∷ 98 ∷ [], nil_value) ∷ (97 ∷ [], nil_value) ∷ []) false []
    ≡ feed_request (text "x") ((97 ∷ [], nil_value) ∷ (97 ∷ 98 ∷ [], nil_value) ∷ []) false []
feed_request-Perm_example =
    feed_request-Perm (text "x") ((97 ∷ 98 ∷ [], nil_value) ∷ (97 ∷ [], nil_value) ∷ [])
      ((97 ∷ [], nil_value) ∷ (97 ∷ 98 ∷ [], nil_value) ∷ []) false [] (Permᴰ.swap refl refl)
      (((λ e. cc), tt), (tt, tt))

abbrev no_call : OsCall
no_call = record {
  position = record { filename = []; start = 0; end_ = 0 };
  name = [];
  args = [];
  call_id = 0;
  allow_eager_await = false;
}

os_call_getenv_dropped_example :
    os_call bad_message no_call
      (received (out_bytes 21 (encode_message (out_bytes 1 (text "HOME") ∷ out_varint 2 0 ∷ []))))
    ≡ done
        (with_call no_call (text "os.getenv") (text_arg (text "HOME") ∷ value_arg nil_value ∷ []))
os_call_getenv_dropped_example =
    os_call_getenv_dropped plain-Laws bad_message (text "HOME") 0 no_call (Error.invalid_tag 1)
      (omega arith) bad_arena
