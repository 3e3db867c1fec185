-- ===== src/Value/Containers.antt =====
-- What `encode` makes of a value with parts, and how its kind is read back.
use monty_go.Common.{
  ℕ, zero, suc, ◌≤◌, ◌≡◌, refl, sym, ap, List, [], ◌∷◌, ◌++◌, Bytes, length, length-append,
  append_assoc, append-nil, arith,
}
use monty_go.Errors.{ok}
use monty_go.Wire.Proto.{Protowire, Laws, IsFieldNumber}
use monty_go.Wire.Fields.{field_bytes, field_message, field_string}
use monty_go.Wire.Parse.{string_field, decode_bytes_field}
use monty_go.Wire.Message.{
  field_bytes_longer, encode_message-append, out_bytes, encode_field, encode_message,
  parse_fields_of,
}
use monty_go.Value.{
  Value, Values, no_values, more_values, Pairs, no_pairs, more_pairs, list, tuple, set, frozen_set,
  dict, named_tuple, module_value, ModuleHead,
}
use monty_go.Value.Decode.{kind_value, decode_loop}
use monty_go.Value.Encode.{encode, encode_values, encode_pairs, names_bytes}
use monty_go.Value.Sent.{height, heights, pair_heights}
use monty_go.Value.Leaves.{Kept, decode_loop-encode_field}
use monty_go.Value.Parts.{
  Decoded, DecodedPairs, out_items, out_pairs, out_tuple, out_module, decode_object_list-out_items,
  decode_dict-out_pairs, decode_named_tuple-out_tuple, decode_module-out_module,
}

module _ ⦃w : Protowire⦄ (laws : Laws w) where
  pub record KeptValues (xs : Values) (d : ℕ) : Type 0 where
    pub items : List Bytes
    pub written : (tag : ℕ) → encode_values tag xs d ≡ ok (encode_message (out_items tag items))
    pub small :
        (tag : ℕ) → IsFieldNumber tag → heights xs ≤ length (encode_message (out_items tag items))
    pub read : (fuel : ℕ) → heights xs ≤ fuel → Decoded (decode_loop fuel) items xs

  pub record KeptPairs (ps : Pairs) (d : ℕ) : Type 0 where
    pub items : List (Bytes × Bytes)
    pub written : encode_pairs ps d ≡ ok (encode_message (out_pairs items))
    pub small : pair_heights ps ≤ length (encode_message (out_pairs items))
    pub read : (fuel : ℕ) → pair_heights ps ≤ fuel → DecodedPairs (decode_loop fuel) items ps

  pub Kept-list : (xs : Values) (d : ℕ) → d ≤ 100 → KeptValues xs (suc d) → Kept laws (list xs) d
  unfolding encode field_message
  Kept-list xs d room k = record {
    field_out = out_bytes 11 (encode_message (out_items 1 k.items));
    written = rw (k.written 1) (ground arith);
    sendable = omega arith;
    small = omega (
      arith,
      k.small 1 (omega arith),
      field_bytes_longer laws 11 (encode_message (out_items 1 k.items)) (omega arith),
    );
    read = λ fuel h.
        unfold kind_value in
        rw (decode_object_list-out_items laws (decode_loop fuel) k.items xs (k.read fuel h));
  }

  pub Kept-tuple : (xs : Values) (d : ℕ) → d ≤ 100 → KeptValues xs (suc d) → Kept laws (tuple xs) d
  unfolding encode field_message
  Kept-tuple xs d room k = record {
    field_out = out_bytes 12 (encode_message (out_items 1 k.items));
    written = rw (k.written 1) (ground arith);
    sendable = omega arith;
    small = omega (
      arith,
      k.small 1 (omega arith),
      field_bytes_longer laws 12 (encode_message (out_items 1 k.items)) (omega arith),
    );
    read = λ fuel h.
        unfold kind_value in
        rw (decode_object_list-out_items laws (decode_loop fuel) k.items xs (k.read fuel h));
  }

  pub Kept-set : (xs : Values) (d : ℕ) → d ≤ 100 → KeptValues xs (suc d) → Kept laws (set xs) d
  unfolding encode field_message
  Kept-set xs d room k = record {
    field_out = out_bytes 15 (encode_message (out_items 1 k.items));
    written = rw (k.written 1) (ground arith);
    sendable = omega arith;
    small = omega (
      arith,
      k.small 1 (omega arith),
      field_bytes_longer laws 15 (encode_message (out_items 1 k.items)) (omega arith),
    );
    read = λ fuel h.
        unfold kind_value in
        rw (decode_object_list-out_items laws (decode_loop fuel) k.items xs (k.read fuel h));
  }

  pub Kept-frozen_set :
      (xs : Values) (d : ℕ) → d ≤ 100 → KeptValues xs (suc d) → Kept laws (frozen_set xs) d
  unfolding encode field_message
  Kept-frozen_set xs d room k = record {
    field_out = out_bytes 16 (encode_message (out_items 1 k.items));
    written = rw (k.written 1) (ground arith);
    sendable = omega arith;
    small = omega (
      arith,
      k.small 1 (omega arith),
      field_bytes_longer laws 16 (encode_message (out_items 1 k.items)) (omega arith),
    );
    read = λ fuel h.
        unfold kind_value in
        rw (decode_object_list-out_items laws (decode_loop fuel) k.items xs (k.read fuel h));
  }

  pub Kept-dict : (ps : Pairs) (d : ℕ) → d ≤ 100 → KeptPairs ps (suc d) → Kept laws (dict ps) d
  unfolding encode field_message
  Kept-dict ps d room k = record {
    field_out = out_bytes 14 (encode_message (out_pairs k.items));
    written = rw k.written (ground arith);
    sendable = omega arith;
    small = omega (
      arith,
      k.small,
      field_bytes_longer laws 14 (encode_message (out_pairs k.items)) (omega arith),
    );
    read = λ fuel h.
        unfold kind_value in
        rw (decode_dict-out_pairs laws (decode_loop fuel) k.items ps (k.read fuel h));
  }

  names_bytes-out_items : (ns : List Bytes) → names_bytes ns ≡ encode_message (out_items 2 ns)
  unfolding field_string
  names_bytes-out_items [] = refl
  names_bytes-out_items (n ∷ ns) = ap (◌++◌ (field_string 2 n)) (names_bytes-out_items ns)

  tuple_bytes :
      (n : Bytes) (ns es : List Bytes)
      → (field_string 1 n ++ names_bytes ns) ++ encode_message (out_items 3 es)
        ≡ encode_message (out_bytes 1 n ∷ (out_items 2 ns ++ out_items 3 es))
  unfolding field_string
  tuple_bytes n ns es = simp (append_assoc, names_bytes-out_items, encode_message-append)

  pub Kept-named_tuple :
      (n : Bytes) (ns : List Bytes) (xs : Values) (d : ℕ)
      → d ≤ 100
      → KeptValues xs (suc d)
      → Kept laws (named_tuple n ns xs) d
  unfolding encode field_message
  Kept-named_tuple n ns xs d room k = record {
    field_out = out_bytes 13 (encode_message (out_tuple n ns k.items));
    written = rw (k.written 3) (ground (arith, tuple_bytes n ns k.items));
    sendable = omega arith;
    small =
        let whole = encode_message (out_tuple n ns k.items) in
        omega (
          arith,
          k.small 3 (omega arith),
          field_bytes_longer laws 13 whole (omega arith),
          ap length (sym (tuple_bytes n ns k.items)),
          length-append (field_string 1 n ++ names_bytes ns) (encode_message (out_items 3 k.items)),
        );
    read = λ fuel h.
        unfold kind_value in
        rw (decode_named_tuple-out_tuple laws (decode_loop fuel) n ns k.items xs (k.read fuel h));
  }

  -- `decodeBytesField(attrs, 14)` takes the body out of the message that `encodeDict` made.
  dict_body : (b : Bytes) → decode_bytes_field (field_message 14 b) 14 ≡ b
  unfolding decode_bytes_field field_message
  dict_body b =
      rw
        (parse_fields_of laws (string_field 14) (out_bytes 14 b ∷ []) [] (field_bytes 14 b)
          (sym (append-nil _)) (omega arith))
        (unfold string_field in refl)

  field_message_lem : (tag : ℕ) (x : Bytes) → field_message tag x ≡ field_bytes tag x
  unfolding field_message
  field_message_lem tag x = refl

  module_bytes :
      (m : ModuleHead) (attrs : Bytes)
      → (field_string 1 m.name ++ field_message 2 (field_bytes 1 m.id)) ++ field_message 3 attrs
        ≡ encode_message (out_module m attrs)
  unfolding field_string field_message
  module_bytes m attrs = simp (append_assoc, append-nil)

  pub Kept-module :
      (m : ModuleHead) (ps : Pairs) (d : ℕ)
      → d ≤ 100
      → length m.id ≡ 16
      → KeptPairs ps (suc d)
      → Kept laws (module_value m ps) d
  unfolding encode
  Kept-module m ps d room l k = record {
    field_out = out_bytes 32 (encode_message (out_module m (encode_message (out_pairs k.items))));
    written =
        rw (k.written, dict_body, module_bytes m (encode_message (out_pairs k.items)))
          (unfold field_message in ground arith);
    sendable = omega arith;
    small =
        let attrs = encode_message (out_pairs k.items) in
        omega (
          arith,
          k.small,
          field_bytes_longer laws 3 attrs (omega arith),
          field_bytes_longer laws 32 (encode_message (out_module m attrs)) (omega arith),
          ap length (sym (module_bytes m attrs)),
          length-append (field_string 1 m.name ++ field_message 2 (field_bytes 1 m.id))
              (field_message 3 attrs),
          ap length (field_message_lem 3 attrs),
        );
    read = λ fuel h.
        unfold kind_value in
        rw (
          decode_module-out_module laws (decode_loop fuel) m (encode_message (out_pairs k.items)) ps
            l (decode_dict-out_pairs laws (decode_loop fuel) k.items ps (k.read fuel h)));
  }

  pub decode_loop-Kept :
      (v : Value) (d fuel : ℕ) (k : Kept laws v d)
      → suc (height v) ≤ fuel
      → decode_loop fuel (encode_field k.field_out) ≡ ok v
  decode_loop-Kept v d zero k h = absurd (omega arith)
  decode_loop-Kept v d (suc fuel) k h =
      decode_loop-encode_field laws v k.field_out fuel k.sendable (k.read fuel (omega arith))

  pub Kept-no_values : (d : ℕ) → KeptValues no_values d
  unfolding encode_values
  Kept-no_values d = record {
    items = [];
    written = λ tag. refl;
    small = λ tag h. omega arith;
    read = λ fuel h. tt;
  }

  pub Kept-more_values :
      (x : Value) (xs : Values) (d : ℕ)
      → Kept laws x d
      → KeptValues xs d
      → KeptValues (more_values x xs) d
  unfolding encode_values field_message
  Kept-more_values x xs d k ks = record {
    items = encode_field k.field_out ∷ ks.items;
    written = λ tag. rw (k.written, ks.written tag);
    small = λ tag h.
        let item = encode_field k.field_out in
        omega (
          arith,
          k.small,
          ks.small tag h,
          field_bytes_longer laws tag item h,
          length-append (field_bytes tag item) (encode_message (out_items tag ks.items)),
        );
    read = λ fuel h. (decode_loop-Kept x d fuel k (omega arith), ks.read fuel (omega arith));
  }

  pub Kept-no_pairs : (d : ℕ) → KeptPairs no_pairs d
  unfolding encode_pairs
  Kept-no_pairs d = record { items = []; written = refl; small = omega arith; read = λ fuel h. tt }

  pub Kept-more_pairs :
      (k v : Value) (ps : Pairs) (d : ℕ)
      → Kept laws k d
      → Kept laws v d
      → KeptPairs ps d
      → KeptPairs (more_pairs k v ps) d
  unfolding encode_pairs field_message
  Kept-more_pairs k v ps d kk kv ks = record {
    items = (encode_field kk.field_out, encode_field kv.field_out) ∷ ks.items;
    written = rw (kk.written, kv.written, ks.written) (simp append-nil);
    small =
        let key = encode_field kk.field_out in
        let value = encode_field kv.field_out in
        let entry = field_bytes 1 key ++ (field_bytes 2 value ++ []) in
        omega (
          arith,
          kk.small,
          kv.small,
          ks.small,
          field_bytes_longer laws 1 key (omega arith),
          field_bytes_longer laws 2 value (omega arith),
          field_bytes_longer laws 1 entry (omega arith),
          length-append (field_bytes 1 key) (field_bytes 2 value ++ []),
          length-append (field_bytes 2 value) [],
          length-append (field_bytes 1 entry) (encode_message (out_pairs ks.items)),
        );
    read = λ fuel h. (
      decode_loop-Kept k d fuel kk (omega arith),
      decode_loop-Kept v d fuel kv (omega arith),
      ks.read fuel (omega arith),
    );
  }
