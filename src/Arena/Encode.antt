-- ===== src/Arena/Encode.antt =====
-- arena.go: `arenaEncoder`. The nodes are passed along; on an error they are dropped with the
-- encoder, as its callers do. `add` is the recursive call of `addLegacy`.
use monty_go.Common.{
  ℕ, zero, suc, ◌%◌, ◌^◌, List, [], ◌∷◌, ◌++◌, Bytes, length, not, ◌==◌, ◌||◌, if◌then◌else◌,
  contains,
}
use monty_go.Errors.{Error, Result, ok, stuck, ◌>>=◌, Run, done, fail, result_of, check_in}
use monty_go.Wire.Proto.{Protowire, is_varint, is_fixed64}
use monty_go.Wire.Fields.{WireField, field_varint, field_fixed64, field_bytes, field_message}
use monty_go.Wire.Parse.{parse_fields}
use monty_go.Value.{Value}
use monty_go.Value.Encode.{encode_value}
use monty_go.Arena.{legacy_node_tags}

-- The variable `body` (`pair`, `node`) of a closure, and the nodes of the encoder.
pub record Adding : Type 0 where
  pub body : Bytes
  pub nodes : List Bytes

abbrev pub Added : Type 0
Added = Result (ℕ × List Bytes)

module _ ⦃w : Protowire⦄ where
  module _ (add : List Bytes → Bytes → Added) where
    -- The closures of `addLegacy` call `addLegacy`, and append the index under a tag.
    unfoldable pub add_index : ℕ → Adding → Bytes → Run Adding
    add_index tag s b =
        check_in s (add s.nodes b)
          λ r. done (record { body = s.body ++ field_varint tag (r.0); nodes = r.1 })

    unfoldable pub add_item : Adding → WireField → Run Adding
    add_item s c = if not (c.tag == 1) then done s else add_index 1 s c.bytes

    unfoldable pub add_half : Adding → WireField → Run Adding
    add_half s p = add_index p.tag s p.bytes

    unfoldable pub add_pair : Adding → WireField → Run Adding
    add_pair s c =
        if not (c.tag == 1)
        then done s
        else check_in s
            (result_of (parse_fields c.bytes add_half (record { body = []; nodes = s.nodes })))
            λ t. done (record { body = s.body ++ field_message 1 t.body; nodes = t.nodes })

    unfoldable pub add_pairs : List Bytes → Bytes → Result Adding
    add_pairs nodes data' =
        result_of (parse_fields data' add_pair (record { body = []; nodes = nodes }))

    unfoldable pub add_module_part : Adding → WireField → Run Adding
    add_module_part s c =
        if c.tag == 3
        then check_in s (add_pairs s.nodes c.bytes)
            (λ t. done (record { body = s.body ++ field_message 3 t.body; nodes = t.nodes }))
        else done (record s { body = s.body ++ field_bytes c.tag c.bytes })

    unfoldable pub add_tuple_part : Adding → WireField → Run Adding
    add_tuple_part s c =
        if c.tag == 3
        then add_index 3 s c.bytes
        else done (record s { body = s.body ++ field_bytes c.tag c.bytes })

    -- The switch on `f.tag`.
    unfoldable pub node_body : List Bytes → WireField → Result Adding
    node_body nodes f =
        if f.tag == 11 || (f.tag == 12 || (f.tag == 15 || f.tag == 16))
        then result_of (parse_fields f.bytes add_item (record { body = []; nodes = nodes }))
        else if f.tag == 14
        then add_pairs nodes f.bytes
        else if f.tag == 32
        then result_of (parse_fields f.bytes add_module_part (record { body = []; nodes = nodes }))
        else if f.tag == 13
        then result_of (parse_fields f.bytes add_tuple_part (record { body = []; nodes = nodes }))
        else ok (record { body = f.bytes; nodes = nodes })

    -- The switch on `f.type_`.
    unfoldable pub node_bytes : WireField → Bytes → Bytes
    node_bytes f body =
        if is_varint f.type_
        then field_varint f.tag f.varint
        else if is_fixed64 f.type_
        then field_fixed64 f.tag f.fixed64
        else field_message f.tag body

    unfoldable pub legacy_field : Adding → WireField → Run Adding
    legacy_field s f =
        if not (contains f.tag legacy_node_tags)
        then fail (Error.unsupplied_kind f.tag) s
        else check_in s (node_body s.nodes f)
            λ t. done (record { body = node_bytes f t.body; nodes = t.nodes })

    -- The end of `addLegacy`: the index is a uint32.
    abbrev pub add_node : Adding → ℕ × List Bytes
    add_node s = (length s.nodes % 2 ^ 32, s.nodes ++ (s.body ∷ []))

  -- `addLegacy` with fuel for the depth of the nesting.
  unfoldable pub add_loop : ℕ → List Bytes → Bytes → Added
  add_loop zero nodes b = stuck
  add_loop (suc fuel) nodes b = do
    s ←
        result_of
          (parse_fields b (legacy_field (add_loop fuel)) (record { body = []; nodes = nodes }))
    ok (add_node (add_loop fuel) s)

  -- A nested message is shorter than its parent.
  unfoldable pub add_legacy : List Bytes → Bytes → Added
  unfolding add_loop
  add_legacy nodes b = add_loop (suc (length b)) nodes b

  unfoldable pub add : List Bytes → Value → Added
  unfolding encode_value
  add nodes value = encode_value value >>= λ b. add_legacy nodes b

  abbrev pub node_fields : List Bytes → Bytes
  node_fields [] = []
  node_fields (n ∷ ns) = field_message 2 n ++ node_fields ns

  unfoldable pub encode_arena : List Bytes → Bytes
  encode_arena nodes = field_varint 1 (length nodes) ++ node_fields nodes
