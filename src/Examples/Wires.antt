-- ===== src/Examples/Wires.antt =====
-- Fields, messages and frames at concrete inputs.
use monty_go.Common.{ℕ, ◌≡◌, refl, List, [], ◌∷◌, ◌++◌, Bytes, arith}
use monty_go.Errors.{Error, ok, err, Run, done, Ends}
use monty_go.Wire.Fields.{WireField}
use monty_go.Wire.Parse.{parse_fields}
use monty_go.Wire.Message.{
  OutField, out_varint, out_bytes, encode_message, parse_fields-encode_message, parse_fields-Ends,
}
use monty_go.Wire.Frame.{
  write_frame, read_frame, read_frame-write_frame, read_frame_prefix, le_bytes,
}
use monty_go.Wire.Plain.{plain, plain-Laws}

-- The tags of the fields, in order.
abbrev collect : List ℕ → WireField → Run (List ℕ)
collect seen f = done (seen ++ (f.tag ∷ []))

abbrev two_fields : List OutField
two_fields = out_varint 3 300 ∷ out_bytes 1 (7 ∷ []) ∷ []

parse_fields-encode_message_example :
    parse_fields (encode_message two_fields) collect [] ≡ done (3 ∷ 1 ∷ [])
parse_fields-encode_message_example =
    parse_fields-encode_message plain-Laws collect two_fields [] (omega arith)

parse_fields-Ends_example : Ends (parse_fields (0xff ∷ 0xff ∷ []) collect [])
parse_fields-Ends_example = parse_fields-Ends plain-Laws collect (0xff ∷ 0xff ∷ []) [] (λ s f l. tt)

read_frame-write_frame_example :
    (s : Bytes) × (write_frame (9 ∷ []) (1 ∷ 2 ∷ []) ≡ ok ((9 ∷ []) ++ s))
    × (read_frame (s ++ (5 ∷ [])) ≡ ok (1 ∷ 2 ∷ [], 5 ∷ []))
read_frame-write_frame_example = read_frame-write_frame (9 ∷ []) (1 ∷ 2 ∷ []) (5 ∷ []) (omega arith)

written_two : write_frame [] (1 ∷ 2 ∷ []) ≡ ok (2 ∷ 0 ∷ 0 ∷ 0 ∷ 1 ∷ 2 ∷ [])
unfolding write_frame le_bytes
written_two = refl

read_frame_prefix_example : read_frame (2 ∷ 0 ∷ 0 ∷ 0 ∷ 1 ∷ []) ≡ err Error.truncated_frame
read_frame_prefix_example =
    read_frame_prefix (1 ∷ 2 ∷ []) (2 ∷ 0 ∷ 0 ∷ 0 ∷ 1 ∷ []) [] 2 (omega arith) written_two
