-- ===== src/Arena/Ends.antt =====
-- `addLegacy` returns on every input: a nested message is shorter than its parent.
use monty_go.Common.{ℕ, zero, suc, ◌≤◌, ◌<◌, List, Bytes, length, arith, not, ◌==◌, ◌||◌, contains}
use monty_go.Errors.{Ends, Returns}
use monty_go.Wire.Proto.{Protowire, Laws}
use monty_go.Wire.Fields.{WireField}
use monty_go.Wire.Returns.{Ends-check_in, Ends-if, Returns-if, parse-Returns, parse-Returns_plain}
use monty_go.Arena.{legacy_node_tags}
use monty_go.Arena.Encode.{
  Adding, Added, add_index, add_item, add_half, add_pair, add_pairs, add_module_part,
  add_tuple_part, node_body, legacy_field, add_loop, add_legacy,
}

module _ ⦃w : Protowire⦄ (laws : Laws w) where
  -- `add` returns on everything shorter than `n`.
  module _ (add : List Bytes → Bytes → Added) (n : ℕ)
      (short : (ns : List Bytes) (b : Bytes) → length b < n → Returns (add ns b)) where
    add_index-Ends :
        (tag : ℕ) (s : Adding) (b : Bytes) → length b < n → Ends (add_index add tag s b)
    unfolding add_index
    add_index-Ends tag s b h = Ends-check_in s _ _ (short s.nodes b h) (λ r. tt)

    add_item-Ends : (s : Adding) (f : WireField) → length f.bytes < n → Ends (add_item add s f)
    unfolding add_item
    add_item-Ends s f h = Ends-if (not (f.tag == 1)) _ _ tt (add_index-Ends 1 s f.bytes h)

    add_half-Ends : (s : Adding) (f : WireField) → length f.bytes < n → Ends (add_half add s f)
    unfolding add_half
    add_half-Ends s f h = add_index-Ends f.tag s f.bytes h

    add_pair-Ends : (s : Adding) (f : WireField) → length f.bytes < n → Ends (add_pair add s f)
    unfolding add_pair
    add_pair-Ends s f h = Ends-if (not (f.tag == 1)) _ _ tt (
        Ends-check_in s _ _
          (parse-Returns_plain laws f.bytes (add_half add) _
            (λ t g l. add_half-Ends t g (omega arith)))
          (λ t. tt))

    add_pairs-Returns : (ns : List Bytes) (b : Bytes) → length b ≤ n → Returns (add_pairs add ns b)
    unfolding add_pairs
    add_pairs-Returns ns b h =
        parse-Returns_plain laws b (add_pair add) _ (λ s f l. add_pair-Ends s f (omega arith))

    add_module_part-Ends :
        (s : Adding) (f : WireField) → length f.bytes < n → Ends (add_module_part add s f)
    unfolding add_module_part
    add_module_part-Ends s f h =
        Ends-if (f.tag == 3) _ _
          (Ends-check_in s _ _ (add_pairs-Returns s.nodes f.bytes (omega arith)) (λ t. tt)) tt

    add_tuple_part-Ends :
        (s : Adding) (f : WireField) → length f.bytes < n → Ends (add_tuple_part add s f)
    unfolding add_tuple_part
    add_tuple_part-Ends s f h = Ends-if (f.tag == 3) _ _ (add_index-Ends 3 s f.bytes h) tt

    node_body-Returns :
        (ns : List Bytes) (f : WireField) → length f.bytes < n → Returns (node_body add ns f)
    unfolding node_body
    node_body-Returns ns f h =
        Returns-if (f.tag == 11 || (f.tag == 12 || (f.tag == 15 || f.tag == 16))) _ _
          (parse-Returns_plain laws f.bytes (add_item add) _
            (λ s g l. add_item-Ends s g (omega arith)))
          (Returns-if (f.tag == 14) _ _ (add_pairs-Returns ns f.bytes (omega arith)) (
            Returns-if (f.tag == 32) _ _
              (parse-Returns_plain laws f.bytes (add_module_part add) _
                (λ s g l. add_module_part-Ends s g (omega arith)))
              (Returns-if (f.tag == 13) _ _
                (parse-Returns_plain laws f.bytes (add_tuple_part add) _
                  (λ s g l. add_tuple_part-Ends s g (omega arith)))
                tt)))

    legacy_field-Ends :
        (s : Adding) (f : WireField) → length f.bytes < n → Ends (legacy_field add s f)
    unfolding legacy_field
    legacy_field-Ends s f h =
        Ends-if (not (contains f.tag legacy_node_tags)) _ _ tt
          (Ends-check_in s _ _ (node_body-Returns s.nodes f h) (λ t. tt))

  add_loop-Returns :
      (fuel : ℕ) (ns : List Bytes) (b : Bytes) → length b < fuel → Returns (add_loop fuel ns b)
  unfolding add_loop
  add_loop-Returns zero ns b h = absurd (omega arith)
  add_loop-Returns (suc fuel) ns b h =
      parse-Returns laws b (legacy_field (add_loop fuel)) _ _
        (λ s f l. legacy_field-Ends (add_loop fuel) fuel (add_loop-Returns fuel) s f (omega arith))
        (λ s. tt)

  -- `addLegacy` returns an index or an error on every input.
  pub add_legacy-Returns : (ns : List Bytes) (b : Bytes) → Returns (add_legacy ns b)
  unfolding add_legacy
  add_legacy-Returns ns b = add_loop-Returns (suc (length b)) ns b (omega arith)
