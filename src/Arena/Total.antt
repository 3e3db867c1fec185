-- ===== src/Arena/Total.antt =====
-- The arena's encoder and decoder return on every input.
use monty_go.Common.{
  ℕ, List, [], ◌∷◌, Bytes, length, get_elem?-lt, arith, ltb, ◌+◌, ltb, ◌+◌, not, ◌==◌, contains,
  leb, Bool-cases, inl, inr,
}
use monty_go.Errors.{Ends, Returns}
use monty_go.Wire.Proto.{Protowire, Laws, is_varint, is_fixed64, is_bytes}
use monty_go.Wire.Fields.{WireField}
use monty_go.Wire.Returns.{
  Ends-check_in, Returns->>=, Returns-result, Ends-if, Returns-if, parse-Returns,
  parse-Returns_plain, indexes-Ends,
}
use monty_go.Value.{Value, no_pairs}
use monty_go.Value.Flat.{time_field, blank_time}
use monty_go.Value.Decode.{ClassParts}
use monty_go.Value.Total.{
  decode_uuid-Returns, class_result-Returns, decode_module-Returns, decode_value-Returns,
}
use monty_go.Arena.{legacy_node_tags}
use monty_go.Arena.Decode.{
  arena_ref, arena_refs, key_field, as_class, is_expected_type, NodeInstance, Node, no_node,
  name_field, entry, entry_field, arena_pairs, indexed_items, node_class_field, node_instance_field,
  node_tuple, node_class, node_instance, node_leaf, node_value, node_field, node_result,
  arena_field, decode_arena,
}

-- The guard of `arenaRef` keeps the index in range.
pub arena_ref-Returns : (values : List Value) (i : ℕ) → Returns (arena_ref values i)
unfolding arena_ref
arena_ref-Returns values i = elim (Bool-cases (leb (length values) i)) [
  | inl e ↦ rw e tt
  | inr e ↦ let (v, g) = get_elem?-lt values i (ground arith) in rw (e, g) tt
]

pub arena_refs-Returns : (values : List Value) (ids : List ℕ) → Returns (arena_refs values ids)
unfolding arena_refs
arena_refs-Returns values [] = tt
arena_refs-Returns values (i ∷ ids) =
    Returns->>= _ _ (arena_ref-Returns values i)
      (λ v. Returns->>= _ _ (arena_refs-Returns values ids) (λ rest. tt))

as_class-Returns : (v : Value) → Returns (as_class v)
unfolding as_class
as_class-Returns v = ground arith

module _ ⦃w : Protowire⦄ (laws : Laws w) where
  module _ (values : List Value) where
    entry-Returns : (b : Bytes) → Returns (entry values b)
    unfolding entry
    entry-Returns b =
        parse-Returns laws b key_field _ _ (λ s f l. unfold key_field in tt)
          λ kv.
            Returns->>= _ _ (arena_ref-Returns values (kv.0))
              (λ k. Returns->>= _ _ (arena_ref-Returns values (kv.1)) (λ v. tt))

    pub arena_pairs-Returns : (b : Bytes) → Returns (arena_pairs values b)
    unfolding arena_pairs
    arena_pairs-Returns b = parse-Returns_plain laws b (entry_field values) no_pairs λ s f l.
        unfold entry_field in
        Ends-if (not (f.tag == 1)) _ _ tt (Ends-check_in s _ _ (entry-Returns f.bytes) (λ p. tt))

    indexed_items-Returns : (tag : ℕ) (b : Bytes) → Returns (indexed_items values tag b)
    unfolding indexed_items
    indexed_items-Returns tag b =
        Returns->>= _ _ (Returns-result _ (indexes-Ends laws b tag)) (arena_refs-Returns values)

    node_class_field-Ends : (s : ClassParts) (f : WireField) → Ends (node_class_field values s f)
    unfolding node_class_field
    node_class_field-Ends s f =
        Ends-if (f.tag == 2) _ _ (Ends-check_in _ _ _ (decode_uuid-Returns laws f.bytes) (λ v. tt))
          (Ends-if (f.tag == 3) _ _ tt (
            Ends-if (f.tag == 4) _ _ tt (
              Ends-if (f.tag == 5) _ _ (Ends-check_in _ _ _ (arena_pairs-Returns f.bytes) (λ v. tt))
                tt)))

    node_tuple-Returns : (b : Bytes) → Returns (node_tuple values b)
    unfolding node_tuple
    node_tuple-Returns b =
        parse-Returns laws b name_field _ _ (λ s f l. unfold name_field in tt)
          λ names. Returns->>= _ _ (indexed_items-Returns 3 b) (λ xs. tt)

    node_class-Returns : (b : Bytes) → Returns (node_class values b)
    unfolding node_class
    node_class-Returns b =
        parse-Returns laws b (node_class_field values) _ _ (λ s f l. node_class_field-Ends s f)
          λ x. Returns->>= _ _ (class_result-Returns laws x) (λ c. tt)

    node_instance_field-Ends :
        (s : NodeInstance) (f : WireField) → Ends (node_instance_field values s f)
    unfolding node_instance_field
    node_instance_field-Ends s f =
        Ends-if (f.tag == 1) _ _ tt (
          Ends-if (f.tag == 3) _ _ (Ends-check_in _ _ _ (arena_pairs-Returns f.bytes) (λ v. tt)) tt)

    node_instance-Returns : (b : Bytes) → Returns (node_instance values b)
    unfolding node_instance
    node_instance-Returns b = Returns->>= _ _ (decode_uuid-Returns laws _) λ id.
        parse-Returns laws b (node_instance_field values) _ _
          (λ s f l. node_instance_field-Ends s f)
          λ x.
            Returns->>= _ _ (arena_ref-Returns values x.class)
              (λ c. Returns->>= _ _ (as_class-Returns c) (λ ct. tt))

    node_leaf-Returns : (f : WireField) → Returns (node_leaf values f)
    unfolding node_leaf
    node_leaf-Returns f = Returns-if (not (contains f.tag legacy_node_tags)) _ _ tt (
        Returns-if (is_varint f.type_) _ _ (decode_value-Returns laws _) (
          Returns-if (is_fixed64 f.type_) _ _ (decode_value-Returns laws _)
            (decode_value-Returns laws _)))

    node_value-Returns : (f : WireField) → Returns (node_value values f)
    unfolding node_value
    node_value-Returns f =
        let items = indexed_items-Returns 1 f.bytes in
        Returns-if (f.tag == 11) _ _ (Returns->>= _ _ items (λ v. tt)) (
          Returns-if (f.tag == 12) _ _ (Returns->>= _ _ items (λ v. tt)) (
            Returns-if (f.tag == 15) _ _ (Returns->>= _ _ items (λ v. tt)) (
              Returns-if (f.tag == 16) _ _ (Returns->>= _ _ items (λ v. tt)) (
                Returns-if (f.tag == 14) _ _
                  (Returns->>= _ _ (arena_pairs-Returns f.bytes) (λ v. tt))
                  (Returns-if (f.tag == 13) _ _ (node_tuple-Returns f.bytes) (
                    Returns-if (f.tag == 18) _ _
                      (parse-Returns laws f.bytes time_field blank_time _
                        (λ s g l. unfold time_field in ground arith) (λ x. tt))
                      (Returns-if (f.tag == 23) _ _ (node_class-Returns f.bytes) (
                        Returns-if (f.tag == 24) _ _ (node_instance-Returns f.bytes) (
                          Returns-if (f.tag == 32) _ _
                            (Returns->>= _ _
                              (decode_module-Returns laws (arena_pairs values) f.bytes
                                (λ x l. arena_pairs-Returns x))
                              (λ m. tt))
                            (Returns-if (f.tag == 30) _ _ tt (node_leaf-Returns f)))))))))))

    node_field-Ends : (s : Node) (f : WireField) → Ends (node_field values s f)
    unfolding node_field
    node_field-Ends s f = Ends-if (ltb 1 (s.count + 1)) _ _ tt (
        Ends-if (not (is_expected_type f)) _ _ tt
          (Ends-check_in _ _ _ (node_value-Returns f) (λ v. tt)))

    node_result-Returns : (b : Bytes) → Returns (node_result values b)
    unfolding node_result
    node_result-Returns b =
        parse-Returns laws b (node_field values) no_node _ (λ s f l. node_field-Ends s f)
          (λ s. Returns-if (s.count == 1) _ _ tt tt)

  -- `decodeArena` returns the values or an error on every input: no reference leads out of the
  -- nodes that are already decoded.
  pub decode_arena-Returns : (b : Bytes) → Returns (decode_arena b)
  unfolding decode_arena
  decode_arena-Returns b = parse-Returns_plain laws b arena_field [] λ s f l.
      unfold arena_field in
      Ends-if (not (f.tag == 2)) _ _ tt (
        Ends-if (not (is_bytes f.type_)) _ _ tt
          (Ends-check_in s _ _ (node_result-Returns s f.bytes) (λ v. tt)))
