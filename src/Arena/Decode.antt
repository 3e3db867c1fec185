-- ===== src/Arena/Decode.antt =====
-- arena.go: `decodeArena`, with `arenaRef` and `arenaPairs`.
use monty_go.Common.{
  ℕ, ◌+◌, ◌%◌, List, [], ◌∷◌, ◌++◌, Bytes, length, get_elem?, Bool, true, not, ◌==◌, ◌||◌, ltb, leb,
  if◌then◌else◌, contains, none, some, Option,
}
use monty_go.Errors.{Error, Result, ok, err, stuck, ◌>>=◌, Run, done, fail, result_of, check_in}
use monty_go.Wire.Proto.{Protowire, is_varint, is_fixed64, is_bytes}
use monty_go.Wire.Fields.{WireField, field_varint, field_fixed64, field_message}
use monty_go.Wire.Parse.{parse_fields, indexes, decode_string_field, decode_bytes_field}
use monty_go.Value.{
  Value, Values, no_values, more_values, Pairs, no_pairs, snoc_pair, ClassHead, nil_value, list,
  tuple, set, frozen_set, dict, named_tuple, time, class_type, class_instance, module_value, cycle,
}
use monty_go.Value.Flat.{time_field, blank_time}
use monty_go.Value.Decode.{
  decode_uuid, ClassParts, blank_class, class_result, class_value, decode_module, decode_value,
}
use monty_go.Arena.{legacy_node_tags}

-- `values[i]`: an index out of range is no Go value.
abbrev pub item_at : Option Value → Result Value
item_at (some v) = ok v
item_at none = stuck

unfoldable pub arena_ref : List Value → ℕ → Result Value
arena_ref values i =
    if leb (length values) i
    then err (Error.arena_reference i (length values))
    else item_at (get_elem? values i)

-- The loops `for _, i := range ids`.
unfoldable pub arena_refs : List Value → List ℕ → Result Values
arena_refs values [] = ok no_values
arena_refs values (i ∷ ids) = do
  v ← arena_ref values i
  rest ← arena_refs values ids
  ok (more_values v rest)

unfoldable pub key_field : ℕ × ℕ → WireField → Run (ℕ × ℕ)
key_field (k, v) p = done (if p.tag == 1 then p.varint else k, if p.tag == 2 then p.varint else v)

-- `c.(ClassType)`.
unfoldable pub as_class : Value → Result (ClassHead × Pairs)
as_class (class_type head attrs) = ok (head, attrs)
as_class c = err Error.not_a_class

-- `expected`.
abbrev pub is_expected_type : WireField → Bool
is_expected_type n =
    if n.tag == 4 || n.tag == 5
    then is_varint n.type_
    else if n.tag == 7
    then is_fixed64 n.type_
    else is_bytes n.type_

-- The variables `i` and `x.Attrs` of a class instance.
pub record NodeInstance : Type 0 where
  pub class : ℕ
  pub attrs : Pairs

-- The variables `value` and `count` of a node.
pub record Node : Type 0 where
  pub value : Value
  pub count : ℕ

abbrev pub no_node : Node
no_node = record { value = nil_value; count = 0 }

-- `x.FieldNames`.
unfoldable pub name_field : List Bytes → WireField → Run (List Bytes)
name_field names p = done (if p.tag == 2 then names ++ (p.bytes ∷ []) else names)

module _ ⦃w : Protowire⦄ where
  module _ (values : List Value) where
    -- One entry of a dictionary: `key` and `val`.
    unfoldable pub entry : Bytes → Result (Value × Value)
    entry data' = do
      kv ← result_of (parse_fields data' key_field (0, 0))
      key ← arena_ref values (kv.0)
      val ← arena_ref values (kv.1)
      ok (key, val)

    unfoldable pub entry_field : Pairs → WireField → Run Pairs
    entry_field d f =
        if not (f.tag == 1)
        then done d
        else check_in d (entry f.bytes) (λ p. done (snoc_pair d (p.0) (p.1)))

    unfoldable pub arena_pairs : Bytes → Result Pairs
    arena_pairs data' = result_of (parse_fields data' entry_field no_pairs)

    -- The loop over `indexes(n.bytes, tag)`.
    unfoldable pub indexed_items : ℕ → Bytes → Result Values
    unfolding arena_refs
    indexed_items tag data' = result_of (indexes data' tag) >>= arena_refs values

    unfoldable pub node_class_field : ClassParts → WireField → Run ClassParts
    node_class_field x p =
        if p.tag == 2
        then check_in (record x { has_id = true }) (decode_uuid p.bytes)
            (λ id. done (record x { head = record (x.head) { id = id }; has_id = true }))
        else if p.tag == 3
        then done (record x { head = record (x.head) { origin = p.varint % 0x1_0000_0000 } })
        else if p.tag == 4
        then done (record x { head = record (x.head) { is_dataclass = not (p.varint == 0) } })
        else if p.tag == 5
        then check_in x (arena_pairs p.bytes) (λ d. done (record x { attrs = d }))
        else done x

    unfoldable pub node_instance_field : NodeInstance → WireField → Run NodeInstance
    node_instance_field x p =
        if p.tag == 1
        then done (record x { class = p.varint })
        else if p.tag == 3
        then check_in x (arena_pairs p.bytes) (λ d. done (record x { attrs = d }))
        else done x

    unfoldable pub node_tuple : Bytes → Result Value
    node_tuple data' = do
      names ← result_of (parse_fields data' name_field [])
      xs ← indexed_items 3 data'
      ok (named_tuple (decode_string_field data' 1) names xs)

    unfoldable pub node_class : Bytes → Result Value
    node_class data' = do
      x ← result_of (
          parse_fields data' node_class_field (record blank_class {
            head = record (blank_class.head) { name = decode_string_field data' 1 };
          }))
      c ← class_result x
      ok (class_value c)

    unfoldable pub node_instance : Bytes → Result Value
    node_instance data' = do
      id ← decode_uuid (decode_bytes_field data' 2)
      x ←
          result_of
            (parse_fields data' node_instance_field (record { class = 0; attrs = no_pairs }))
      c ← arena_ref values x.class
      ct ← as_class c
      ok (class_instance (ct.0) (ct.1) id x.attrs)

    -- The `default` of the switch: the node as a value of its own, without parts.
    unfoldable pub node_leaf : WireField → Result Value
    node_leaf n =
        if not (contains n.tag legacy_node_tags)
        then err (Error.unsupported_node n.tag)
        else if is_varint n.type_
        then decode_value (field_varint n.tag n.varint)
        else if is_fixed64 n.type_
        then decode_value (field_fixed64 n.tag n.fixed64)
        else decode_value (field_message n.tag n.bytes)

    -- The switch on `n.tag`.
    unfoldable pub node_value : WireField → Result Value
    node_value n =
        if n.tag == 11
        then (do xs ← indexed_items 1 n.bytes; ok (list xs))
        else if n.tag == 12
        then (do xs ← indexed_items 1 n.bytes; ok (tuple xs))
        else if n.tag == 15
        then (do xs ← indexed_items 1 n.bytes; ok (set xs))
        else if n.tag == 16
        then (do xs ← indexed_items 1 n.bytes; ok (frozen_set xs))
        else if n.tag == 14
        then (do d ← arena_pairs n.bytes; ok (dict d))
        else if n.tag == 13
        then node_tuple n.bytes
        else if n.tag == 18
        then (do x ← result_of (parse_fields n.bytes time_field blank_time); ok (time x))
        else if n.tag == 23
        then node_class n.bytes
        else if n.tag == 24
        then node_instance n.bytes
        else if n.tag == 32
        then (do m ← decode_module arena_pairs n.bytes; ok (module_value (m.0) (m.1)))
        else if n.tag == 30
        then ok (cycle 0 n.bytes)
        else node_leaf n

    unfoldable pub node_field : Node → WireField → Run Node
    node_field s n =
        let s' = record s { count = s.count + 1 } in
        if ltb 1 s'.count
        then fail Error.arena_multiple_kinds s'
        else if not (is_expected_type n)
        then fail (Error.arena_wire_type n.tag) s'
        else check_in s' (node_value n) (λ v. done (record s' { value = v }))

    unfoldable pub node_result : Bytes → Result Value
    node_result data' = do
      s ← result_of (parse_fields data' node_field no_node)
      if s.count == 1 then ok s.value else err Error.arena_no_kind

  unfoldable pub arena_field : List Value → WireField → Run (List Value)
  arena_field values f =
      if not (f.tag == 2)
      then done values
      else if not (is_bytes f.type_)
      then fail Error.arena_not_message values
      else check_in values (node_result values f.bytes) (λ v. done (values ++ (v ∷ [])))

  unfoldable pub decode_arena : Bytes → Result (List Value)
  decode_arena data' = result_of (parse_fields data' arena_field [])

  unfoldable pub message_arena : Bytes → ℕ → Result (List Value)
  message_arena data' tag = decode_arena (decode_bytes_field data' tag)
