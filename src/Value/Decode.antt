-- ===== src/Value/Decode.antt =====
-- wire.go `decodeValue` and the decoders of the values with parts; class_value.go and module.go,
-- their decoders. `dec` is the recursive call of `decodeValue`.
use monty_go.Common.{
  ℕ, zero, suc, ◌/◌, ◌%◌, List, [], ◌∷◌, ◌++◌, Bytes, length, Bool, true, false, not, ◌==◌, ◌&&◌,
  ◌||◌, ltb, if◌then◌else◌, contains, Option, none, some,
}
use monty_go.Common.Int.{ℤ, pos, negsuc}
use monty_go.Errors.{
  Error, Result, ok, err, stuck, ◌>>=◌, Run, done, fail, state_of, result_of, check_in,
}
use monty_go.Wire.Proto.{Protowire, is_bytes}
use monty_go.Wire.Fields.{WireField}
use monty_go.Wire.Parse.{parse_fields}
use monty_go.Value.{
  Value, Values, no_values, Pairs, no_pairs, snoc_value, snoc_pair, ClassHead, ModuleHead,
  nil_value, ellipsis, not_implemented, bool, int, big_int, float, complex, str, bytes_value, list,
  tuple, set, frozen_set, dict, named_tuple, date, time, date_time, time_delta, time_zone,
  exception, type_name, builtin_function, path, file_handle, function, class_type, class_instance,
  module_value, repr, cycle,
}
use monty_go.Value.Flat.{
  decode_date, decode_date_time, decode_time, decode_time_delta, decode_time_zone,
  decode_exception_value, decode_file_handle, decode_function, decode_complex, decode_big,
}

-- `protowire.DecodeZigZag`.
abbrev pub unzigzag : ℕ → ℤ
unzigzag v = if v % 2 == 0 then pos (v / 2) else negsuc (v / 2)

abbrev zero_id : Bytes
zero_id = 0 ∷ 0 ∷ 0 ∷ 0 ∷ 0 ∷ 0 ∷ 0 ∷ 0 ∷ 0 ∷ 0 ∷ 0 ∷ 0 ∷ 0 ∷ 0 ∷ 0 ∷ 0 ∷ []

-- The variables `id` and `seen` of `decodeUUID`.
unfoldable pub uuid_field : Option Bytes → WireField → Run (Option Bytes)
uuid_field x f =
    if f.tag == 1
    then (if length f.bytes == 16 then done (some f.bytes) else fail Error.uuid_length x)
    else done x

abbrev pub uuid_result : Option Bytes → Result Bytes
uuid_result (some id) = ok id
uuid_result none = err Error.uuid_missing

pub record TupleParts : Type 0 where
  pub tuple_name : Bytes
  pub field_names : List Bytes
  pub values : Values

pub record ClassParts : Type 0 where
  pub head : ClassHead
  pub attrs : Pairs
  pub has_id : Bool

abbrev pub blank_class : ClassParts
blank_class = record {
  head = record { name = []; id = zero_id; origin = 0; is_dataclass = false };
  attrs = no_pairs;
  has_id = false;
}

abbrev is_builtin : ClassHead → Bool
is_builtin c = c.origin == 1

abbrev pub same_bool : Bool → Bool → Bool
same_bool a b = if a then b else not b

-- The two checks at the end of `decodeClassType`.
unfoldable pub class_result : ClassParts → Result (ClassHead × Pairs)
class_result x =
    if ltb x.head.origin 1 || ltb 3 x.head.origin
    then err (Error.invalid_origin x.head.origin)
    else if same_bool x.has_id (not (is_builtin x.head))
    then ok (x.head, x.attrs)
    else err Error.invalid_identity

pub record InstanceParts : Type 0 where
  pub class : ClassHead × Pairs
  pub id : Bytes
  pub has_id : Bool
  pub attrs : Pairs

abbrev pub blank_instance : InstanceParts
blank_instance = record {
  class = (blank_class.head, no_pairs);
  id = zero_id;
  has_id = false;
  attrs = no_pairs;
}

unfoldable pub instance_result : InstanceParts → Result Value
instance_result x =
    if x.has_id && (x.class.0.origin == 2 || x.class.0.origin == 3)
    then ok (class_instance x.class.0 x.class.1 x.id x.attrs)
    else err Error.class_identity

pub record ModuleParts : Type 0 where
  pub head : ModuleHead
  pub attrs : Pairs
  pub seen : List ℕ

abbrev pub blank_module : ModuleParts
blank_module = record { head = record { name = []; id = zero_id }; attrs = no_pairs; seen = [] }

unfoldable pub module_result : ModuleParts → Result (ModuleHead × Pairs)
module_result x =
    if contains 2 x.seen && contains 3 x.seen
    then ok (x.head, x.attrs)
    else err Error.module_incomplete

-- `result` and `seen` of `decodeValue`.
pub record Kinds : Type 0 where
  pub result : Value
  pub seen : Bool

abbrev pub no_kinds : Kinds
no_kinds = record { result = nil_value; seen = false }

abbrev pub value_result : Kinds → Result Value
value_result x = if x.seen then ok x.result else err Error.no_kind

-- The marker of a cycle; its decoder drops errors.
unfoldable pub cycle_field : ℕ × Bytes → WireField → Run (ℕ × Bytes)
cycle_field (identity, placeholder) f =
    done (if f.tag == 1 then f.varint else identity, if f.tag == 2 then f.bytes else placeholder)

-- `if x.Origin == TypeOriginBuiltin { Type(x.Name) } else { x }`.
abbrev pub class_value : ClassHead × Pairs → Value
class_value (head, attrs) = if is_builtin head then type_name head.name else class_type head attrs

module _ ⦃w : Protowire⦄ where
  unfoldable pub decode_uuid : Bytes → Result Bytes
  decode_uuid data' = result_of (parse_fields data' uuid_field none) >>= uuid_result

  module _ (dec : Bytes → Result Value) where
    unfoldable pub item_field : Values → WireField → Run Values
    item_field xs f =
        if f.tag == 1 then check_in xs (dec f.bytes) (λ v. done (snoc_value xs v)) else done xs

    unfoldable pub decode_object_list : Bytes → Result Values
    decode_object_list data' = result_of (parse_fields data' item_field no_values)

    unfoldable pub half_field : Value × Value → WireField → Run (Value × Value)
    half_field (key, value) p =
        check_in (key, value) (dec p.bytes)
          λ v.
            done (if p.tag == 1 then (v, value) else if p.tag == 2 then (key, v) else (key, value))

    unfoldable pub pair_field : Pairs → WireField → Run Pairs
    pair_field d f =
        if f.tag == 1
        then check_in d (result_of (parse_fields f.bytes half_field (nil_value, nil_value)))
            (λ p. done (snoc_pair d (p.0) (p.1)))
        else done d

    unfoldable pub decode_dict : Bytes → Result Pairs
    decode_dict data' = result_of (parse_fields data' pair_field no_pairs)

    unfoldable pub tuple_field : TupleParts → WireField → Run TupleParts
    tuple_field x f =
        if f.tag == 1
        then done (record x { tuple_name = f.bytes })
        else if f.tag == 2
        then done (record x { field_names = x.field_names ++ (f.bytes ∷ []) })
        else if f.tag == 3
        then check_in x (dec f.bytes) (λ v. done (record x { values = snoc_value (x.values) v }))
        else done x

    unfoldable pub decode_named_tuple : Bytes → Result TupleParts
    decode_named_tuple data' = result_of (
        parse_fields data' tuple_field
          (record { tuple_name = []; field_names = []; values = no_values }))

    unfoldable pub class_field : ClassParts → WireField → Run ClassParts
    class_field x f =
        if f.tag == 1
        then done (record x { head = record (x.head) { name = f.bytes } })
        else if f.tag == 2
        then check_in x (decode_uuid f.bytes)
            (λ id. done (record x { head = record (x.head) { id = id }; has_id = true }))
        else if f.tag == 3
        then done (record x { head = record (x.head) { origin = f.varint % 0x1_0000_0000 } })
        else if f.tag == 4
        then done (record x { head = record (x.head) { is_dataclass = not (f.varint == 0) } })
        else if f.tag == 5
        then check_in x (decode_dict f.bytes) (λ d. done (record x { attrs = d }))
        else done x

    unfoldable pub decode_class_type : Bytes → Result (ClassHead × Pairs)
    decode_class_type data' =
        result_of (parse_fields data' class_field blank_class) >>= class_result

    unfoldable pub instance_field : InstanceParts → WireField → Run InstanceParts
    instance_field x f =
        if f.tag == 1
        then check_in x (decode_class_type f.bytes) (λ c. done (record x { class = c }))
        else if f.tag == 2
        then check_in x (decode_uuid f.bytes) (λ id. done (record x { id = id; has_id = true }))
        else if f.tag == 3
        then check_in x (decode_dict f.bytes) (λ d. done (record x { attrs = d }))
        else done x

    unfoldable pub decode_class_instance : Bytes → Result Value
    decode_class_instance data' =
        result_of (parse_fields data' instance_field blank_instance) >>= instance_result

  -- `decodeModule`, for the reader of the attributes that it is given.
  module _ (attrs_of : Bytes → Result Pairs) where
    module_kind : ModuleParts → WireField → Run ModuleParts
    module_kind x f =
        if f.tag == 1
        then done (record x { head = record (x.head) { name = f.bytes } })
        else if f.tag == 2
        then check_in x (decode_uuid f.bytes)
            (λ id. done (record x { head = record (x.head) { id = id } }))
        else check_in x (attrs_of f.bytes) (λ d. done (record x { attrs = d }))

    unfoldable pub module_field : ModuleParts → WireField → Run ModuleParts
    unfolding module_kind
    module_field x f =
        if ltb f.tag 1 || ltb 3 f.tag
        then done x
        else if contains f.tag x.seen || not (is_bytes f.type_)
        then fail (Error.invalid_module_field f.tag) x
        else module_kind (record x { seen = f.tag ∷ x.seen }) f

    unfoldable pub decode_module : Bytes → Result (ModuleHead × Pairs)
    decode_module data' = result_of (parse_fields data' module_field blank_module) >>= module_result

  unfoldable pub decode_cycle : Bytes → Value
  decode_cycle data' =
      let (identity, placeholder) = state_of (parse_fields data' cycle_field (0, [])) in
      cycle identity placeholder

  -- The switch of `decodeValue`.
  unfoldable pub kind_value : (Bytes → Result Value) → WireField → Result Value
  kind_value dec f =
      if f.tag == 1
      then ok ellipsis
      else if f.tag == 2
      then ok nil_value
      else if f.tag == 3
      then ok not_implemented
      else if f.tag == 4
      then ok (bool (not (f.varint == 0)))
      else if f.tag == 5
      then ok (int (unzigzag f.varint))
      else if f.tag == 6
      then (do z ← decode_big f.bytes; ok (big_int z))
      else if f.tag == 7
      then ok (float f.fixed64)
      else if f.tag == 8
      then ok (str f.bytes)
      else if f.tag == 9
      then ok (bytes_value f.bytes)
      else if f.tag == 11
      then (do xs ← decode_object_list dec f.bytes; ok (list xs))
      else if f.tag == 12
      then (do xs ← decode_object_list dec f.bytes; ok (tuple xs))
      else if f.tag == 13
      then (do
        x ← decode_named_tuple dec f.bytes
        ok (named_tuple x.tuple_name x.field_names x.values))
      else if f.tag == 14
      then (do d ← decode_dict dec f.bytes; ok (dict d))
      else if f.tag == 15
      then (do xs ← decode_object_list dec f.bytes; ok (set xs))
      else if f.tag == 16
      then (do xs ← decode_object_list dec f.bytes; ok (frozen_set xs))
      else if f.tag == 17
      then ok (date (decode_date f.bytes))
      else if f.tag == 18
      then ok (time (decode_time f.bytes))
      else if f.tag == 19
      then ok (date_time (decode_date_time f.bytes))
      else if f.tag == 20
      then ok (time_delta (decode_time_delta f.bytes))
      else if f.tag == 21
      then ok (time_zone (decode_time_zone f.bytes))
      else if f.tag == 22
      then ok (exception (decode_exception_value f.bytes))
      else if f.tag == 23
      then (do c ← decode_class_type dec f.bytes; ok (class_value c))
      else if f.tag == 24
      then decode_class_instance dec f.bytes
      else if f.tag == 25
      then ok (function (decode_function f.bytes))
      else if f.tag == 26
      then ok (builtin_function f.bytes)
      else if f.tag == 27
      then ok (path f.bytes)
      else if f.tag == 28
      then ok (file_handle (decode_file_handle f.bytes))
      else if f.tag == 29
      then ok (repr f.bytes)
      else if f.tag == 30
      then ok (decode_cycle f.bytes)
      else if f.tag == 31
      then (do z ← decode_complex f.bytes; ok (complex (z.0) (z.1)))
      else if f.tag == 32
      then (do m ← decode_module (decode_dict dec) f.bytes; ok (module_value (m.0) (m.1)))
      else err (Error.unknown_kind f.tag)

  unfoldable pub value_field : (Bytes → Result Value) → Kinds → WireField → Run Kinds
  value_field dec s f =
      if s.seen
      then fail Error.multiple_kinds s
      else check_in (record s { seen = true }) (kind_value dec f)
          (λ v. done (record { result = v; seen = true }))

  -- `decodeValue` with fuel for the depth of the nesting.
  unfoldable pub decode_loop : ℕ → Bytes → Result Value
  decode_loop zero data' = stuck
  decode_loop (suc fuel) data' =
      result_of (parse_fields data' (value_field (decode_loop fuel)) no_kinds) >>= value_result

  -- A nested message is shorter than its parent.
  unfoldable pub decode_value : Bytes → Result Value
  unfolding decode_loop
  decode_value data' = decode_loop (suc (length data')) data'
