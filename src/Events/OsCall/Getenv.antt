-- ===== src/Events/OsCall/Getenv.antt =====
-- What `os.getenv` makes of an arena that cannot be decoded.
use monty_go.Common.{ℕ, ◌^◌, ◌<◌, ◌≡◌, refl, [], ◌∷◌, Bytes, text, arith}
use monty_go.Errors.{Error, err, done}
use monty_go.Wire.Proto.{Protowire, Laws}
use monty_go.Wire.Message.{out_varint, out_bytes, encode_message, parse_fields_of, received}
use monty_go.Value.{nil_value}
use monty_go.Arena.Decode.{message_arena}
use monty_go.Events.OsCall.{
  OsCall, with_call, text_arg, value_arg, blank_getenv, getenv_field, os_call, path_call,
}

module _ ⦃w : Protowire⦄ (laws : Laws w) where
  -- Where the arena of the call cannot be decoded, `os.getenv` with a default is not refused: its
  -- default becomes nil.
  pub os_call_getenv_dropped :
      (message key : Bytes) (i : ℕ) (x : OsCall) (e : Error)
      → i < 2 ^ 64
      → message_arena message 50 ≡ err e
      → os_call message x
          (received (out_bytes 21 (encode_message (out_bytes 1 key ∷ out_varint 2 i ∷ []))))
        ≡ done (with_call x (text "os.getenv") (text_arg key ∷ value_arg nil_value ∷ []))
  unfolding os_call path_call
  os_call_getenv_dropped message key i x e h bad =
      rw
        (parse_fields_of laws (getenv_field message) (out_bytes 1 key ∷ out_varint 2 i ∷ [])
          blank_getenv (encode_message (out_bytes 1 key ∷ out_varint 2 i ∷ [])) refl (omega arith))
        (unfold getenv_field in rw bad)
