-- ===== src/Value/Total.antt =====
-- `decodeValue` returns on every input: its fuel is enough for the nesting of the messages.
use monty_go.Common.{
  ℕ, zero, suc, ◌≤◌, ◌<◌, ◌≡◌, refl, Bytes, length, arith, ◌==◌, not, ◌||◌, contains, ltb, Option,
  some, none,
}
use monty_go.Errors.{Result, Ends, Returns}
use monty_go.Wire.Proto.{Protowire, Laws, is_bytes}
use monty_go.Wire.Fields.{WireField}
use monty_go.Wire.Returns.{
  Ends-check_in, Returns->>=, Ends-if, Returns-if, parse-Returns, parse-Returns_plain,
}
use monty_go.Value.{Value, Values, no_values, Pairs, no_pairs, nil_value}
use monty_go.Value.Flat.{
  complex_field, complex_result, big_field, decode_complex, decode_big, ComplexParts,
}
use monty_go.Value.Decode.{
  uuid_field, uuid_result, decode_uuid, item_field, decode_object_list, half_field, pair_field,
  decode_dict, TupleParts, tuple_field, decode_named_tuple, ClassParts, blank_class, class_field,
  class_result, decode_class_type, InstanceParts, blank_instance, instance_field, instance_result,
  decode_class_instance, ModuleParts, blank_module, module_field, module_result, decode_module,
  kind_value, Kinds, value_field, no_kinds, value_result, decode_loop, decode_value,
}

module _ ⦃w : Protowire⦄ (laws : Laws w) where
  pub decode_uuid-Returns : (b : Bytes) → Returns (decode_uuid b)
  unfolding decode_uuid
  decode_uuid-Returns b =
      parse-Returns laws b uuid_field none uuid_result (λ s f l. unfold uuid_field in ground arith)
        id-Returns
    where
      id-Returns : (x : Option Bytes) → Returns (uuid_result x)
      id-Returns none = tt
      id-Returns (some id) = tt

  decode_big-Returns : (b : Bytes) → Returns (decode_big b)
  unfolding decode_big
  decode_big-Returns b =
      parse-Returns laws b big_field _ _ (λ s f l. unfold big_field in ground arith) (λ s. tt)

  both-Returns :
      (x : ComplexParts) (r i : Option ℕ) → x.re ≡ r → x.im ≡ i → Returns (complex_result x)
  both-Returns x none i e j = rw e tt
  both-Returns x (some r) none e j = rw (e, j) tt
  both-Returns x (some r) (some i) e j = rw (e, j) tt

  decode_complex-Returns : (b : Bytes) → Returns (decode_complex b)
  unfolding decode_complex
  decode_complex-Returns b =
      parse-Returns laws b complex_field _ complex_result
        (λ s f l. unfold complex_field in ground arith) (λ s. both-Returns s s.re s.im refl refl)

  pub class_result-Returns : (x : ClassParts) → Returns (class_result x)
  unfolding class_result
  class_result-Returns x = ground arith

  module_field-Ends :
      (attrs_of : Bytes → Result Pairs) (s : ModuleParts) (f : WireField)
      → Returns (attrs_of f.bytes)
      → Ends (module_field attrs_of s f)
  unfolding module_field
  module_field-Ends attrs_of s f h = Ends-if (ltb f.tag 1 || ltb 3 f.tag) _ _ tt (
      Ends-if (contains f.tag s.seen || not (is_bytes f.type_)) _ _ tt (
        Ends-if (f.tag == 1) _ _ tt (
          Ends-if (f.tag == 2) _ _ (Ends-check_in _ _ _ (decode_uuid-Returns f.bytes) (λ v. tt))
            (Ends-check_in _ _ _ h (λ v. tt)))))

  module_result-Returns : (x : ModuleParts) → Returns (module_result x)
  unfolding module_result
  module_result-Returns x = ground arith

  pub decode_module-Returns :
      (attrs_of : Bytes → Result Pairs) (b : Bytes)
      → ((x : Bytes) → length x < length b → Returns (attrs_of x))
      → Returns (decode_module attrs_of b)
  unfolding decode_module
  decode_module-Returns attrs_of b h =
      parse-Returns laws b (module_field attrs_of) blank_module module_result
        (λ s f l. module_field-Ends attrs_of s f (h f.bytes l)) module_result-Returns

  -- Below, `dec` returns on everything shorter than `n`.
  module _ (dec : Bytes → Result Value) (n : ℕ)
      (short : (b : Bytes) → length b < n → Returns (dec b)) where
    item_field-Ends : (s : Values) (f : WireField) → length f.bytes < n → Ends (item_field dec s f)
    unfolding item_field
    item_field-Ends s f l =
        Ends-if (f.tag == 1) _ _ (Ends-check_in s _ _ (short f.bytes l) (λ v. tt)) tt

    decode_object_list-Returns : (b : Bytes) → length b ≤ n → Returns (decode_object_list dec b)
    unfolding decode_object_list
    decode_object_list-Returns b h =
        parse-Returns_plain laws b (item_field dec) no_values
          (λ s f l. item_field-Ends s f (omega arith))

    half_field-Ends :
        (s : Value × Value) (f : WireField) → length f.bytes < n → Ends (half_field dec s f)
    unfolding half_field
    half_field-Ends s f l = Ends-check_in _ _ _ (short f.bytes l) (λ v. tt)

    pair_field-Ends : (s : Pairs) (f : WireField) → length f.bytes < n → Ends (pair_field dec s f)
    unfolding pair_field
    pair_field-Ends s f l =
        Ends-if (f.tag == 1) _ _
          (Ends-check_in s _ _
            (parse-Returns_plain laws f.bytes (half_field dec) (nil_value, nil_value)
              (λ t g m. half_field-Ends t g (omega arith)))
            (λ v. tt))
          tt

    decode_dict-Returns : (b : Bytes) → length b ≤ n → Returns (decode_dict dec b)
    unfolding decode_dict
    decode_dict-Returns b h =
        parse-Returns_plain laws b (pair_field dec) no_pairs
          (λ s f l. pair_field-Ends s f (omega arith))

    tuple_field-Ends :
        (s : TupleParts) (f : WireField) → length f.bytes < n → Ends (tuple_field dec s f)
    unfolding tuple_field
    tuple_field-Ends s f l = Ends-if (f.tag == 1) _ _ tt (
        Ends-if (f.tag == 2) _ _ tt
          (Ends-if (f.tag == 3) _ _ (Ends-check_in s _ _ (short f.bytes l) (λ v. tt)) tt))

    decode_named_tuple-Returns : (b : Bytes) → length b ≤ n → Returns (decode_named_tuple dec b)
    unfolding decode_named_tuple
    decode_named_tuple-Returns b h =
        parse-Returns_plain laws b (tuple_field dec) _ (λ s f l. tuple_field-Ends s f (omega arith))

    class_field-Ends :
        (s : ClassParts) (f : WireField) → length f.bytes < n → Ends (class_field dec s f)
    unfolding class_field
    class_field-Ends s f l = Ends-if (f.tag == 1) _ _ tt (
        Ends-if (f.tag == 2) _ _ (Ends-check_in s _ _ (decode_uuid-Returns f.bytes) (λ v. tt)) (
          Ends-if (f.tag == 3) _ _ tt (
            Ends-if (f.tag == 4) _ _ tt (
              Ends-if (f.tag == 5) _ _
                (Ends-check_in s _ _ (decode_dict-Returns f.bytes (omega arith)) (λ v. tt)) tt))))

    decode_class_type-Returns : (b : Bytes) → length b ≤ n → Returns (decode_class_type dec b)
    unfolding decode_class_type
    decode_class_type-Returns b h =
        parse-Returns laws b (class_field dec) blank_class class_result
          (λ s f l. class_field-Ends s f (omega arith)) class_result-Returns

    instance_field-Ends :
        (s : InstanceParts) (f : WireField) → length f.bytes < n → Ends (instance_field dec s f)
    unfolding instance_field
    instance_field-Ends s f l =
        Ends-if (f.tag == 1) _ _
          (Ends-check_in s _ _ (decode_class_type-Returns f.bytes (omega arith)) (λ v. tt))
          (Ends-if (f.tag == 2) _ _ (Ends-check_in s _ _ (decode_uuid-Returns f.bytes) (λ v. tt)) (
            Ends-if (f.tag == 3) _ _
              (Ends-check_in s _ _ (decode_dict-Returns f.bytes (omega arith)) (λ v. tt)) tt))

    instance_result-Returns : (x : InstanceParts) → Returns (instance_result x)
    unfolding instance_result
    instance_result-Returns x = ground arith

    decode_class_instance-Returns :
        (b : Bytes) → length b ≤ n → Returns (decode_class_instance dec b)
    unfolding decode_class_instance
    decode_class_instance-Returns b h =
        parse-Returns laws b (instance_field dec) blank_instance instance_result
          (λ s f l. instance_field-Ends s f (omega arith)) instance_result-Returns

    kind_value-Returns : (f : WireField) → length f.bytes < n → Returns (kind_value dec f)
    unfolding kind_value
    kind_value-Returns f l =
        let items = decode_object_list-Returns f.bytes (omega arith) in
        Returns-if (f.tag == 1) _ _ tt (
          Returns-if (f.tag == 2) _ _ tt (
            Returns-if (f.tag == 3) _ _ tt (
              Returns-if (f.tag == 4) _ _ tt (
                Returns-if (f.tag == 5) _ _ tt (
                  Returns-if (f.tag == 6) _ _
                    (Returns->>= _ _ (decode_big-Returns f.bytes) (λ v. tt))
                    (Returns-if (f.tag == 7) _ _ tt (
                      Returns-if (f.tag == 8) _ _ tt (
                        Returns-if (f.tag == 9) _ _ tt (
                          Returns-if (f.tag == 11) _ _ (Returns->>= _ _ items (λ v. tt)) (
                            Returns-if (f.tag == 12) _ _ (Returns->>= _ _ items (λ v. tt)) (
                              Returns-if (f.tag == 13) _ _
                                (Returns->>= _ _ (decode_named_tuple-Returns f.bytes (omega arith))
                                  (λ v. tt))
                                (Returns-if (f.tag == 14) _ _
                                  (Returns->>= _ _ (decode_dict-Returns f.bytes (omega arith))
                                    (λ v. tt))
                                  (Returns-if (f.tag == 15) _ _ (Returns->>= _ _ items (λ v. tt)) (
                                    Returns-if (f.tag == 16) _ _ (Returns->>= _ _ items (λ v. tt)) (
                                      Returns-if (f.tag == 17) _ _ tt (
                                        Returns-if (f.tag == 18) _ _ tt (
                                          Returns-if (f.tag == 19) _ _ tt (
                                            Returns-if (f.tag == 20) _ _ tt (
                                              Returns-if (f.tag == 21) _ _ tt (
                                                Returns-if (f.tag == 22) _ _ tt (
                                                  Returns-if (f.tag == 23) _ _
                                                    (Returns->>= _ _
                                                      (decode_class_type-Returns f.bytes
                                                        (omega arith))
                                                      (λ v. tt))
                                                    (Returns-if (f.tag == 24) _ _
                                                      (decode_class_instance-Returns f.bytes
                                                        (omega arith))
                                                      (Returns-if (f.tag == 25) _ _ tt (
                                                        Returns-if (f.tag == 26) _ _ tt (
                                                          Returns-if (f.tag == 27) _ _ tt (
                                                            Returns-if (f.tag == 28) _ _ tt (
                                                            Returns-if (f.tag == 29) _ _ tt (
                                                            Returns-if (f.tag == 30) _ _ tt (
                                                            Returns-if (f.tag == 31) _ _
                                                            (Returns->>= _ _
                                                            (decode_complex-Returns f.bytes)
                                                            (λ v. tt))
                                                            (Returns-if (f.tag == 32) _ _
                                                            (Returns->>= _ _
                                                            (decode_module-Returns (decode_dict dec)
                                                            f.bytes
                                                            (λ x m.
                                                            decode_dict-Returns x (omega arith)))
                                                            (λ v. tt))
                                                            tt))))))))))))))))))))))))))))))

    value_field-Ends : (s : Kinds) (f : WireField) → length f.bytes < n → Ends (value_field dec s f)
    unfolding value_field
    value_field-Ends s f l =
        Ends-if s.seen _ _ tt (Ends-check_in _ _ _ (kind_value-Returns f l) (λ v. tt))

  decode_loop-Returns : (fuel : ℕ) (b : Bytes) → length b < fuel → Returns (decode_loop fuel b)
  unfolding decode_loop
  decode_loop-Returns zero b h = absurd (omega arith)
  decode_loop-Returns (suc fuel) b h =
      parse-Returns laws b (value_field (decode_loop fuel)) no_kinds value_result
        (λ s f l.
          value_field-Ends (decode_loop fuel) fuel (decode_loop-Returns fuel) s f (omega arith))
        (λ s. Returns-if s.seen _ _ tt tt)

  -- `decodeValue` returns a value or an error on every input, however it is nested.
  pub decode_value-Returns : (b : Bytes) → Returns (decode_value b)
  unfolding decode_value
  decode_value-Returns b = decode_loop-Returns (suc (length b)) b (omega arith)
