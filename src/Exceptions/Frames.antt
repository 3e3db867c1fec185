-- ===== src/Exceptions/Frames.antt =====
-- `decodeRaised` reads the stack frames that `encodeRaised` writes.
use monty_go.Common.{
  ℕ, ◌^◌, ◌<◌, ◌≡◌, refl, ap, ◌∙◌, sym, List, [], ◌∷◌, ◌++◌, append_assoc, append-nil, Bytes, Bool,
  true, false, arith, All, All-append, not, ◌==◌, if◌then◌else◌,
}
use monty_go.Errors.{ok, done, result_of, state_of}
use monty_go.Wire.Proto.{Protowire, Laws, IsFieldNumber}
use monty_go.Wire.Fields.{field_varint, field_bool, field_bytes, field_string, field_message}
use monty_go.Wire.Parse.{parse_fields}
use monty_go.Wire.Message.{
  OutField, out_varint, out_bytes, IsSendable, encode_message, fold_fields, parse_fields_of,
  encode_message-append,
}
use monty_go.Exceptions.{StackFrame}
use monty_go.Exceptions.Raised.{
  blank_frame, location_field, nonempty_field, encode_frame, frame_field, decode_frame,
}

abbrev pub IsU32 : ℕ → Type 0
IsU32 n = n < 2 ^ 32

pub record IsFrame (f : StackFrame) : Type 0 where
  pub line : IsU32 f.line
  pub column : IsU32 f.column
  pub end_line : IsU32 f.end_line
  pub end_column : IsU32 f.end_column

abbrev pub nonempty_out : ℕ → Bytes → List OutField
nonempty_out tag [] = []
nonempty_out tag (c ∷ s) = out_bytes tag (c ∷ s) ∷ []

pub nonempty_out-IsSendable :
    (tag : ℕ) (s : Bytes) → IsFieldNumber tag → All IsSendable (nonempty_out tag s)
nonempty_out-IsSendable tag [] h = tt
nonempty_out-IsSendable tag (c ∷ s) h = (h, tt)

abbrev bit : Bool → ℕ
bit b = if b then 1 else 0

bit_lem : (b : Bool) → not (bit b == 0) ≡ b
bit_lem true = refl
bit_lem false = refl

bit-lt : (b : Bool) → bit b < 2 ^ 64
bit-lt true = omega arith
bit-lt false = omega arith

-- The frame with its locations, as the first three fields leave it.
abbrev located : StackFrame → StackFrame
located f = record f {
  frame_name = [];
  preview_line = [];
  hide_caret = false;
  hide_frame_name = false;
}

named_lem :
    (f : StackFrame) (name preview : Bytes)
    → f.frame_name ≡ name
    → f.preview_line ≡ preview
    → record f { frame_name = name; preview_line = preview } ≡ f
named_lem f name preview n p = rw (sym n, sym p)

abbrev frame_tail : StackFrame → Bytes → Bytes → List OutField
frame_tail f name preview =
    nonempty_out 4 name
    ++ (nonempty_out 5 preview
        ++ (out_varint 6 (bit f.hide_caret) ∷ out_varint 7 (bit f.hide_frame_name) ∷ []))

module _ ⦃w : Protowire⦄ where
  pub encode_nonempty_out :
      (tag : ℕ) (s : Bytes) → encode_message (nonempty_out tag s) ≡ nonempty_field tag s
  unfolding field_string
  encode_nonempty_out tag [] = refl
  encode_nonempty_out tag (c ∷ s) = append-nil (field_bytes tag (c ∷ s))

  field_bool_lem : (tag : ℕ) (b : Bool) → field_bool tag b ≡ field_varint tag (bit b)
  unfolding field_bool
  field_bool_lem tag true = refl
  field_bool_lem tag false = refl

  abbrev location : ℕ → ℕ → Bytes
  location line column = encode_message (out_varint 1 line ∷ out_varint 2 column ∷ [])

  abbrev frame_out : StackFrame → List OutField
  frame_out f =
      out_bytes 1 f.filename
      ∷ out_bytes 2 (location f.line f.column)
      ∷ out_bytes 3 (location f.end_line f.end_column)
      ∷ frame_tail f f.frame_name f.preview_line

  frame_tail_lem :
      (f y : StackFrame) (name preview : Bytes)
      → f.frame_name ≡ name
      → f.preview_line ≡ preview
      → y ≡ located f
      → fold_fields frame_field (frame_tail f name preview) y ≡ done f
  unfolding frame_field
  frame_tail_lem f y [] [] n p e =
      rw (e, bit_lem f.hide_caret, bit_lem f.hide_frame_name) (ap done (named_lem f _ _ n p))
  frame_tail_lem f y [] (d ∷ q) n p e =
      rw (e, bit_lem f.hide_caret, bit_lem f.hide_frame_name) (ap done (named_lem f _ _ n p))
  frame_tail_lem f y (c ∷ m) [] n p e =
      rw (e, bit_lem f.hide_caret, bit_lem f.hide_frame_name) (ap done (named_lem f _ _ n p))
  frame_tail_lem f y (c ∷ m) (d ∷ q) n p e =
      rw (e, bit_lem f.hide_caret, bit_lem f.hide_frame_name) (ap done (named_lem f _ _ n p))

  encode_frame_lem : (f : StackFrame) → encode_frame f ≡ encode_message (frame_out f)
  unfolding encode_frame field_string field_message
  encode_frame_lem f =
      rw
        (
          field_bool_lem 6 f.hide_caret,
          field_bool_lem 7 f.hide_frame_name,
          encode_message-append (nonempty_out 4 f.frame_name) _,
          encode_message-append (nonempty_out 5 f.preview_line) _,
          encode_nonempty_out 4 f.frame_name,
          encode_nonempty_out 5 f.preview_line,
        )
        (simp (append_assoc, append-nil))

  module _ (laws : Laws w) where
    location_lem :
        (line column : ℕ) (old : ℕ × ℕ)
        → IsU32 line
        → IsU32 column
        → state_of (parse_fields (location line column) location_field old) ≡ (line, column)
    location_lem line column old h k =
        ap state_of (
          parse_fields_of laws location_field (out_varint 1 line ∷ out_varint 2 column ∷ []) old
            (location line column) refl (omega arith))
        ∙ unfold location_field in ground arith

    frame_out-IsSendable : (f : StackFrame) → All IsSendable (frame_out f)
    frame_out-IsSendable f = (
      omega arith,
      (
        omega arith,
        (
          omega arith,
          All-append IsSendable (nonempty_out 4 f.frame_name) _
              (nonempty_out-IsSendable 4 f.frame_name (omega arith))
              (All-append IsSendable (nonempty_out 5 f.preview_line) _
                (nonempty_out-IsSendable 5 f.preview_line (omega arith))
                (omega (arith, bit-lt f.hide_caret, bit-lt f.hide_frame_name))),
        ),
      ),
    )

    frame_out_lem :
        (f : StackFrame) → IsFrame f → fold_fields frame_field (frame_out f) blank_frame ≡ done f
    unfolding frame_field
    frame_out_lem f h =
        rw
          (
            location_lem f.line f.column (0, 0) h.line h.column,
            location_lem f.end_line f.end_column (0, 0) h.end_line h.end_column,
          )
          (frame_tail_lem f _ f.frame_name f.preview_line refl refl refl)

    -- A frame whose positions are uint32 is read back as it was.
    pub decode_frame-encode_frame :
        (f : StackFrame) → IsFrame f → decode_frame (encode_frame f) ≡ ok f
    unfolding decode_frame
    decode_frame-encode_frame f h = ap result_of (
        parse_fields_of laws frame_field (frame_out f) blank_frame (encode_frame f)
          (encode_frame_lem f) (frame_out-IsSendable f)
        ∙ frame_out_lem f h)
