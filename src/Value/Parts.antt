-- ===== src/Value/Parts.antt =====
-- The decoders of values with parts, on parts that are decoded.
use monty_go.Common.{
  ℕ, ◌≡◌, refl, sym, ap, contains, All-append, ◌∙◌, List, [], ◌∷◌, ◌++◌, Bytes, length, All, map,
  append_assoc, append-nil, arith, none,
}
use monty_go.Errors.{Result, ok, done, result_of, ◌>>=◌}
use monty_go.Wire.Proto.{Protowire, Laws, IsFieldNumber}
use monty_go.Wire.Fields.{field_bytes}
use monty_go.Wire.Parse.{parse_fields}
use monty_go.Wire.Message.{
  OutField, out_bytes, out_varint, IsSendable, encode_message, fold_fields, parse_fields_of,
}
use monty_go.Value.{
  Value, Values, no_values, more_values, Pairs, no_pairs, more_pairs, snoc_value, snoc_pair,
  nil_value, ModuleHead, type_name,
}
use monty_go.Value.Decode.{
  item_field, decode_object_list, half_field, pair_field, decode_dict, TupleParts, tuple_field,
  decode_named_tuple, decode_uuid, uuid_field, decode_module, module_field, decode_class_type,
  class_field, class_value, class_result, module_result,
}

abbrev pub append_values : Values → Values → Values
append_values no_values ys = ys
append_values (more_values x xs) ys = more_values x (append_values xs ys)

abbrev pub append_pairs : Pairs → Pairs → Pairs
append_pairs no_pairs qs = qs
append_pairs (more_pairs k v ps) qs = more_pairs k v (append_pairs ps qs)

append_values-snoc_value :
    (xs ys : Values) (v : Value)
    → append_values (snoc_value xs v) ys ≡ append_values xs (more_values v ys)
append_values-snoc_value no_values ys v = refl
append_values-snoc_value (more_values x xs) ys v =
    ap (more_values x) (append_values-snoc_value xs ys v)

append_pairs-snoc_pair :
    (ps qs : Pairs) (k v : Value)
    → append_pairs (snoc_pair ps k v) qs ≡ append_pairs ps (more_pairs k v qs)
append_pairs-snoc_pair no_pairs qs k v = refl
append_pairs-snoc_pair (more_pairs j u ps) qs k v =
    ap (more_pairs j u) (append_pairs-snoc_pair ps qs k v)

append_values-nil : (xs : Values) → xs ≡ append_values xs no_values
append_values-nil no_values = refl
append_values-nil (more_values x xs) = ap (more_values x) (append_values-nil xs)

append_pairs-nil : (ps : Pairs) → ps ≡ append_pairs ps no_pairs
append_pairs-nil no_pairs = refl
append_pairs-nil (more_pairs k v ps) = ap (more_pairs k v) (append_pairs-nil ps)

-- The messages, one for each value, decode to the values.
abbrev pub Decoded : (Bytes → Result Value) → List Bytes → Values → Type 0
Decoded dec [] no_values = Unit {0}
Decoded dec [] (more_values x xs) = ⊥
Decoded dec (e ∷ es) no_values = ⊥
Decoded dec (e ∷ es) (more_values x xs) = (dec e ≡ ok x) × Decoded dec es xs

abbrev pub DecodedPairs : (Bytes → Result Value) → List (Bytes × Bytes) → Pairs → Type 0
DecodedPairs dec [] no_pairs = Unit {0}
DecodedPairs dec [] (more_pairs k v ps) = ⊥
DecodedPairs dec (e ∷ es) no_pairs = ⊥
DecodedPairs dec ((k', v') ∷ es) (more_pairs k v ps) =
    (dec k' ≡ ok k) × (dec v' ≡ ok v) × DecodedPairs dec es ps

abbrev pub out_items : ℕ → List Bytes → List OutField
out_items tag = map (out_bytes tag)

abbrev pub out_tuple : Bytes → List Bytes → List Bytes → List OutField
out_tuple n ns es = out_bytes 1 n ∷ (out_items 2 ns ++ out_items 3 es)

module _ ⦃w : Protowire⦄ where
  abbrev pub out_module : ModuleHead → Bytes → List OutField
  out_module m attrs =
      out_bytes 1 m.name ∷ out_bytes 2 (field_bytes 1 m.id) ∷ out_bytes 3 attrs ∷ []

  abbrev pub out_pair : Bytes × Bytes → OutField
  out_pair (k, v) = out_bytes 1 (encode_message (out_bytes 1 k ∷ out_bytes 2 v ∷ []))

  abbrev pub out_pairs : List (Bytes × Bytes) → List OutField
  out_pairs = map out_pair

  module _ (laws : Laws w) (dec : Bytes → Result Value) where
    item_field-out_items :
        (es : List Bytes) (xs acc : Values)
        → Decoded dec es xs
        → fold_fields (item_field dec) (out_items 1 es) acc ≡ done (append_values acc xs)
    unfolding item_field
    item_field-out_items [] no_values acc h = ap done (append_values-nil acc)
    item_field-out_items [] (more_values x xs) acc h = absurd h
    item_field-out_items (e ∷ es) no_values acc h = absurd h
    item_field-out_items (e ∷ es) (more_values x xs) acc (hx, hxs) = rw hx (
        item_field-out_items es xs (snoc_value acc x) hxs
        ∙ ap done (append_values-snoc_value acc xs x))

    half_field-pair :
        (k' v' : Bytes) (k v : Value)
        → dec k' ≡ ok k
        → dec v' ≡ ok v
        → result_of (
            parse_fields
              (encode_message (out_bytes 1 k' ∷ out_bytes 2 v' ∷ []))
              (half_field dec)
              (nil_value, nil_value))
          ≡ ok (k, v)
    half_field-pair k' v' k v hk hv =
        ap result_of (
          parse_fields_of laws (half_field dec) (out_bytes 1 k' ∷ out_bytes 2 v' ∷ [])
            (nil_value, nil_value) _ refl (omega arith))
        ∙ unfold half_field in rw (hk, hv)

    pair_field-out_pairs :
        (es : List (Bytes × Bytes)) (ps acc : Pairs)
        → DecodedPairs dec es ps
        → fold_fields (pair_field dec) (out_pairs es) acc ≡ done (append_pairs acc ps)
    unfolding pair_field
    pair_field-out_pairs [] no_pairs acc h = ap done (append_pairs-nil acc)
    pair_field-out_pairs [] (more_pairs k v ps) acc h = absurd h
    pair_field-out_pairs (e ∷ es) no_pairs acc h = absurd h
    pair_field-out_pairs ((k', v') ∷ es) (more_pairs k v ps) acc (hk, hv, hps) =
        rw (half_field-pair k' v' k v hk hv) (
          pair_field-out_pairs es ps (snoc_pair acc k v) hps
          ∙ ap done (append_pairs-snoc_pair acc ps k v))

    out_items-IsSendable :
        (tag : ℕ) (es : List Bytes) → IsFieldNumber tag → All IsSendable (out_items tag es)
    out_items-IsSendable tag [] h = tt
    out_items-IsSendable tag (e ∷ es) h = (h, out_items-IsSendable tag es h)

    out_pairs-IsSendable : (es : List (Bytes × Bytes)) → All IsSendable (out_pairs es)
    out_pairs-IsSendable [] = tt
    out_pairs-IsSendable (e ∷ es) = (omega arith, out_pairs-IsSendable es)

    -- A list of messages is read as the values that they decode to.
    pub decode_object_list-out_items :
        (es : List Bytes) (xs : Values)
        → Decoded dec es xs
        → decode_object_list dec (encode_message (out_items 1 es)) ≡ ok xs
    unfolding decode_object_list
    decode_object_list-out_items es xs h = ap result_of (
        parse_fields_of laws (item_field dec) (out_items 1 es) no_values _ refl
          (out_items-IsSendable 1 es (omega arith))
        ∙ item_field-out_items es xs no_values h)

    pub decode_dict-out_pairs :
        (es : List (Bytes × Bytes)) (ps : Pairs)
        → DecodedPairs dec es ps
        → decode_dict dec (encode_message (out_pairs es)) ≡ ok ps
    unfolding decode_dict
    decode_dict-out_pairs es ps h = ap result_of (
        parse_fields_of laws (pair_field dec) (out_pairs es) no_pairs _ refl
          (out_pairs-IsSendable es)
        ∙ pair_field-out_pairs es ps no_pairs h)

    tuple_field-names :
        (ns : List Bytes) (x : TupleParts) (os : List OutField)
        → fold_fields (tuple_field dec) (out_items 2 ns ++ os) x
          ≡ fold_fields (tuple_field dec) os (record x { field_names = x.field_names ++ ns })
    unfolding tuple_field
    tuple_field-names [] x os = rw (append-nil x.field_names)
    tuple_field-names (n ∷ ns) x os =
        tuple_field-names ns (record x { field_names = x.field_names ++ (n ∷ []) }) os
        ∙ rw (append_assoc x.field_names (n ∷ []) ns)

    tuple_field-values :
        (es : List Bytes) (xs : Values) (x : TupleParts)
        → Decoded dec es xs
        → fold_fields (tuple_field dec) (out_items 3 es) x
          ≡ done (record x { values = append_values (x.values) xs })
    unfolding tuple_field
    tuple_field-values [] no_values x h =
        ap (λ xs. done (record x { values = xs })) (append_values-nil x.values)
    tuple_field-values [] (more_values v xs) x h = absurd h
    tuple_field-values (e ∷ es) no_values x h = absurd h
    tuple_field-values (e ∷ es) (more_values v xs) x (hx, hxs) = rw hx (
        tuple_field-values es xs (record x { values = snoc_value (x.values) v }) hxs
        ∙ ap (λ xs. done (record x { values = xs })) (append_values-snoc_value x.values xs v))

    tuple_field-out_tuple :
        (n : Bytes) (ns es : List Bytes) (xs : Values)
        → Decoded dec es xs
        → fold_fields
            (tuple_field dec)
            (out_tuple n ns es)
            (record { tuple_name = []; field_names = []; values = no_values })
          ≡ done (record { tuple_name = n; field_names = ns; values = xs })
    unfolding tuple_field
    tuple_field-out_tuple n ns es xs h =
        tuple_field-names ns _ (out_items 3 es) ∙ tuple_field-values es xs _ h

    pub decode_named_tuple-out_tuple :
        (n : Bytes) (ns es : List Bytes) (xs : Values)
        → Decoded dec es xs
        → decode_named_tuple dec (encode_message (out_tuple n ns es))
          ≡ ok (record { tuple_name = n; field_names = ns; values = xs })
    unfolding decode_named_tuple
    decode_named_tuple-out_tuple n ns es xs h = ap result_of (
        parse_fields_of laws (tuple_field dec) (out_tuple n ns es) _ _ refl (
          omega arith,
          All-append IsSendable (out_items 2 ns) (out_items 3 es)
              (out_items-IsSendable 2 ns (omega arith)) (out_items-IsSendable 3 es (omega arith)),
        )
        ∙ tuple_field-out_tuple n ns es xs h)

    pub decode_uuid-out : (id : Bytes) → length id ≡ 16 → decode_uuid (field_bytes 1 id) ≡ ok id
    unfolding decode_uuid
    decode_uuid-out id h =
        rw
          (parse_fields_of laws uuid_field (out_bytes 1 id ∷ []) none (field_bytes 1 id)
            (sym (append-nil _)) (omega arith))
          (unfold uuid_field in rw h)

    pub decode_type_name :
        (n : Bytes) (b : Bytes)
        → b ≡ encode_message (out_bytes 1 n ∷ out_varint 3 1 ∷ [])
        → (decode_class_type dec b >>= λ c. ok (class_value c)) ≡ ok (type_name n)
    unfolding decode_class_type
    decode_type_name n b e =
        rw
          (parse_fields_of laws (class_field dec) (out_bytes 1 n ∷ out_varint 3 1 ∷ []) _ b e
            (omega arith))
          (unfold class_field class_result in refl)

    pub decode_module-out_module :
        (m : ModuleHead) (attrs : Bytes) (ps : Pairs)
        → length m.id ≡ 16
        → decode_dict dec attrs ≡ ok ps
        → decode_module (decode_dict dec) (encode_message (out_module m attrs)) ≡ ok (m, ps)
    unfolding decode_module
    decode_module-out_module m attrs ps h e =
        rw
          (parse_fields_of laws (module_field (decode_dict dec)) (out_module m attrs) _ _ refl
            (omega arith))
          (unfold module_field module_result contains in rw (decode_uuid-out m.id h, e))
