-- ===== src/Wire/Parse.antt =====
-- wire.go: `parseFields` and `consumeSingleField`; protocol.go: the readers of one field.
use monty_go.Common.{
  ℕ, zero, suc, ◌+◌, ◌%◌, ◌^◌, List, [], ◌∷◌, ◌++◌, Bytes, length, drop, not, ◌==◌, if◌then◌else◌,
  map,
}
use monty_go.Errors.{
  Error, Result, ok, err, stuck, ◌>>=◌, Run, done, fail, out_of_fuel, and_then, state_of, result_of,
}
use monty_go.Wire.Proto.{
  WireType, varint_type, fixed64_type, bytes_type, start_group_type, end_group_type, fixed32_type,
  unknown_type, is_varint, is_bytes, Consumed, consumed, parse_error, Protowire,
}
use monty_go.Wire.Fields.{WireField, blank}

abbrev check {ℓ} : {A : Type 0} {B : Type ℓ} → Consumed A → (A → ℕ → Result B) → Result B
check (consumed v n) f = f v n
check (parse_error c) f = err (Error.parse c)

-- The number that `%d` prints for a wire type.
abbrev type_number : WireType → ℕ
type_number varint_type = 0
type_number fixed64_type = 1
type_number bytes_type = 2
type_number start_group_type = 3
type_number end_group_type = 4
type_number fixed32_type = 5
type_number (unknown_type n) = n

module _ ⦃w : Protowire⦄ where
  -- The switch on the wire type, with the bytes behind the tag; returns the field and `data`.
  unfoldable pub field_body : ℕ → WireType → Bytes → Result (WireField × Bytes)
  field_body num varint_type data' =
      check (w.consume_varint data')
        λ v n. ok (record (blank num varint_type) { varint = v }, drop data' n)
  field_body num fixed64_type data' =
      check (w.consume_fixed64 data')
        λ v n. ok (record (blank num fixed64_type) { fixed64 = v }, drop data' n)
  field_body num bytes_type data' =
      check (w.consume_bytes data')
        λ v n. ok (record (blank num bytes_type) { bytes = v }, drop data' n)
  field_body num fixed32_type data' =
      check (w.consume_fixed32 data') λ v n. ok (blank num fixed32_type, drop data' n)
  field_body num start_group_type data' =
      check (w.consume_group num data') λ v n. ok (blank num start_group_type, drop data' n)
  field_body num end_group_type data' = err (Error.invalid_wire_type (type_number end_group_type))
  field_body num (unknown_type t) data' =
      err (Error.invalid_wire_type (type_number (unknown_type t)))

  -- One round of the loop up to the call of `fn`.
  unfoldable pub next_field : Bytes → Result (WireField × Bytes)
  unfolding field_body
  next_field data' = elim (w.consume_tag data') [
    | consumed (num, typ) n ↦ field_body num typ (drop data' n)
    | parse_error c ↦ err (Error.invalid_tag c)
  ]

  unfoldable pub parse_loop {ℓ} : {S : Type ℓ} → (S → WireField → Run S) → ℕ → Bytes → S → Run S
  parse_loop fn fuel [] s = done s
  parse_loop fn zero (b ∷ bs) s = out_of_fuel s
  parse_loop fn (suc fuel) (b ∷ bs) s = elim (next_field (b ∷ bs)) [
    | ok (f, rest) ↦ and_then (fn s f) (λ s'. parse_loop fn fuel rest s')
    | err e ↦ fail e s
    | stuck ↦ out_of_fuel s
  ]

  -- `s` holds the variables that the closure `fn` assigns. Each round takes a byte at least.
  unfoldable pub parse_fields {ℓ} : {S : Type ℓ} → Bytes → (S → WireField → Run S) → S → Run S
  parse_fields data' fn s = parse_loop fn (length data') data' s

  unfoldable pub count_field : ℕ × Bytes × ℕ → WireField → Run (ℕ × Bytes × ℕ)
  count_field (tag, body, count) f = done (f.tag, f.bytes, count + 1)

  unfoldable pub consume_single_field : Bytes → Result (ℕ × Bytes)
  consume_single_field data' = do
    (tag, body, count) ← result_of (parse_fields data' count_field (0, [], 0))
    if count == 1 then ok (tag, body) else err (Error.expected_one_field count)

  unfoldable pub string_field : ℕ → Bytes → WireField → Run Bytes
  string_field tag s f = done (if f.tag == tag then f.bytes else s)

  -- `decodeStringField`: the last field with the tag that stands before an error, if there is one.
  unfoldable pub decode_string_field : Bytes → ℕ → Bytes
  decode_string_field data' tag = state_of (parse_fields data' (string_field tag) [])

  unfoldable pub decode_bytes_field : Bytes → ℕ → Bytes
  decode_bytes_field data' tag = state_of (parse_fields data' (string_field tag) [])

  unfoldable pub packed_loop : ℕ → Bytes → List ℕ → Run (List ℕ)
  packed_loop fuel [] out = done out
  packed_loop zero (b ∷ bs) out = out_of_fuel out
  packed_loop (suc fuel) (b ∷ bs) out = elim (w.consume_varint (b ∷ bs)) [
    | consumed v n ↦ packed_loop fuel (drop (b ∷ bs) n) (out ++ (v ∷ []))
    | parse_error c ↦ fail (Error.parse c) out
  ]

  unfoldable pub index_field : ℕ → List ℕ → WireField → Run (List ℕ)
  index_field tag out f =
      if not (f.tag == tag)
      then done out
      else if is_varint f.type_
      then done (out ++ (f.varint ∷ []))
      else if is_bytes f.type_
      then packed_loop (length f.bytes) f.bytes out
      else fail Error.invalid_index_wire_type out

  -- arena.go `indexes`: repeated varints, packed or not.
  unfoldable pub indexes : Bytes → ℕ → Run (List ℕ)
  indexes data' tag = parse_fields data' (index_field tag) []

  unfoldable pub decode_uint32_list : Bytes → ℕ → List ℕ
  decode_uint32_list data' tag = map (λ i. i % 2 ^ 32) (state_of (indexes data' tag))
