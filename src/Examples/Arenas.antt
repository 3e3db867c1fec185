-- ===== src/Examples/Arenas.antt =====
-- Arenas at concrete inputs.
use monty_go.Common.{◌≡◌, refl, List, [], ◌∷◌, Bytes, arith, length, ◌++◌}
use monty_go.Common.Int.{pos}
use monty_go.Errors.{ok, Returns}
use monty_go.Value.{Value, no_values, more_values, int, list}
use monty_go.Common.{contains}
use monty_go.Wire.Fields.{field_varint, field_fixed64, field_bytes, field_message}
use monty_go.Wire.Parse.{
  parse_fields, parse_loop, next_field, field_body, indexes, index_field, packed_loop,
}
use monty_go.Value.Decode.{decode_value, decode_loop, value_field, kind_value}
use monty_go.Arena.Encode.{
  add_legacy, encode_arena, add_loop, legacy_field, node_body, add_item, add_index, node_bytes,
}
use monty_go.Arena.Decode.{
  decode_arena, arena_field, node_result, node_field, node_value, node_leaf, arena_ref, arena_refs,
  indexed_items,
}
use monty_go.Arena.Ends.{add_legacy-Returns}
use monty_go.Arena.Total.{decode_arena-Returns}
use monty_go.Arena.Prefix.{decode_arena_prefix}
use monty_go.Wire.Plain.{plain, plain-Laws}

-- The nodes of 1, and of the list of node 0.
abbrev one_node : Bytes
one_node = 0x28 ∷ 2 ∷ []

abbrev list_node : Bytes
list_node = 0x5a ∷ 2 ∷ 8 ∷ 0 ∷ []

abbrev ones : Value
ones = list (more_values (int (pos 1)) no_values)

-- The message of the list of 1.
abbrev ones_message : Bytes
ones_message = 0x5a ∷ 4 ∷ 0x0a ∷ 2 ∷ 0x28 ∷ 2 ∷ []

added : add_legacy [] ones_message ≡ ok (1, one_node ∷ list_node ∷ [])
unfolding add_legacy add_loop legacy_field node_body add_item add_index node_bytes contains
    parse_fields parse_loop next_field field_body field_varint field_fixed64 field_bytes
    field_message plain
added = refl

decoded : decode_arena (encode_arena (one_node ∷ list_node ∷ [])) ≡ ok (int (pos 1) ∷ ones ∷ [])
unfolding encode_arena decode_arena arena_field node_result node_field node_value node_leaf
    arena_ref arena_refs indexed_items indexes index_field packed_loop contains parse_fields
    decode_value decode_loop value_field kind_value parse_loop next_field field_body field_varint
    field_fixed64 field_bytes field_message plain
decoded = refl

add_legacy-Returns_example : Returns (add_legacy [] (0x5a ∷ 5 ∷ []))
add_legacy-Returns_example = add_legacy-Returns plain-Laws [] (0x5a ∷ 5 ∷ [])

decode_arena-Returns_example : Returns (decode_arena (0x12 ∷ 2 ∷ 0x5a ∷ []))
decode_arena-Returns_example = decode_arena-Returns plain-Laws (0x12 ∷ 2 ∷ 0x5a ∷ [])

decode_arena_prefix_example :
    (vs : List Value) × (xs : List Value) × (decode_arena (encode_arena (one_node ∷ [])) ≡ ok vs)
    × (int (pos 1) ∷ ones ∷ [] ≡ vs ++ xs)
    × (length vs ≡ 1)
    × (length xs ≡ 1)
decode_arena_prefix_example =
    decode_arena_prefix plain-Laws (one_node ∷ []) (list_node ∷ []) (int (pos 1) ∷ ones ∷ [])
      (omega arith) decoded
