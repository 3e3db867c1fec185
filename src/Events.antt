-- ===== src/Events.antt =====
-- protocol.go: the events of the worker.
pub mod Kinds
pub mod Total
pub mod OsCall
use monty_go.Common.{
  ℕ, ◌+◌, ◌%◌, ◌^◌, List, [], ◌∷◌, ◌++◌, Bytes, Bool, true, false, not, ◌==◌, ◌&&◌, leb,
  if◌then◌else◌, Option, none, some,
}
use monty_go.Common.Int.{ℤ, int64_of}
use monty_go.Errors.{Error, Result, ok, err, ◌>>=◌, Run, done, fail, state_of, result_of, check_in}
use monty_go.Wire.Proto.{Protowire, is_varint, is_bytes}
use monty_go.Wire.Fields.{WireField, field_message}
use monty_go.Wire.Parse.{parse_fields, indexes, decode_string_field, decode_bytes_field}
use monty_go.Value.{Value, Values, no_values, Pairs, no_pairs, more_pairs}
use monty_go.Value.Decode.{decode_uuid}
use monty_go.Arena.Decode.{arena_ref, arena_refs, arena_pairs, message_arena}

-- `childEvent`; the kind is 0 while none was read.
pub record ChildEvent : Type 0 where
  pub kind : ℕ
  pub body : Bytes
  pub total_execution_micros : ℕ
  pub max_suspensions : Option ℕ
  pub max_total_sleep_micros : Option ℕ
  pub restored_script_name : Option Bytes

abbrev pub blank_event : ChildEvent
blank_event = record {
  kind = 0;
  body = [];
  total_execution_micros = 0;
  max_suspensions = none;
  max_total_sleep_micros = none;
  restored_script_name = none;
}

abbrev pub is_kind : ℕ → Bool
is_kind tag = leb 1 tag && leb tag 12

unfoldable pub event_field : ChildEvent → WireField → Run ChildEvent
event_field e f =
    if is_kind f.tag
    then (if not (e.kind == 0)
        then fail Error.event_kinds e
        else done (record e { kind = f.tag; body = f.bytes }))
    else if f.tag == 20
    then done (record e { total_execution_micros = f.varint })
    else if f.tag == 22
    then done (record e { max_suspensions = some f.varint })
    else if f.tag == 23
    then done (record e { restored_script_name = some f.bytes })
    else if f.tag == 27
    then (if not (is_varint f.type_)
        then fail Error.sleep_limit_type e
        else done (record e { max_total_sleep_micros = some f.varint }))
    else done e

abbrev pub event_result : ChildEvent → Result ChildEvent
event_result e = if e.kind == 0 then err Error.event_no_kind else ok e

pub record PrintEvent : Type 0 where
  pub stream : ℕ
  pub chunk : Bytes

unfoldable pub print_field : PrintEvent → WireField → Run PrintEvent
print_field x f = done (record {
  stream = if f.tag == 1 then f.varint % 2 ^ 32 else x.stream;
  chunk = if f.tag == 2 then f.bytes else x.chunk;
})

pub record SourceRange : Type 0 where
  pub filename : Bytes
  pub start : ℕ
  pub end_ : ℕ

unfoldable pub range_field : SourceRange → WireField → Run SourceRange
range_field x f = done (record x {
  start = if f.tag == 2 then f.varint % 2 ^ 32 else x.start;
  end_ = if f.tag == 3 then f.varint % 2 ^ 32 else x.end_;
})

-- The variable `i` of `decodeComplete`.
unfoldable pub index_value : ℕ → WireField → Run ℕ
index_value i f = done (if f.tag == 1 then f.varint else i)

-- `callEvent` of a function call; `OS` is false.
pub record CallEvent : Type 0 where
  pub position : SourceRange
  pub name : Bytes
  pub args : Values
  pub kwargs : Pairs
  pub call_id : ℕ
  pub object_id : Option Bytes
  pub method_call : Bool
  pub allow_eager_await : Bool

-- `append(x.Kwargs, d...)`.
abbrev append_dict : Pairs → Pairs → Pairs
append_dict no_pairs d = d
append_dict (more_pairs k v ps) d = more_pairs k v (append_dict ps d)

module _ ⦃w : Protowire⦄ where
  unfoldable pub decode_event : Bytes → Result ChildEvent
  decode_event data' = result_of (parse_fields data' event_field blank_event) >>= event_result

  unfoldable pub decode_print : Bytes → PrintEvent
  decode_print data' = state_of (parse_fields data' print_field (record { stream = 0; chunk = [] }))

  unfoldable pub segment_field : List PrintEvent → WireField → Run (List PrintEvent)
  segment_field out f =
      if (f.tag == 1) && is_bytes f.type_
      then done (out ++ (decode_print f.bytes ∷ []))
      else done out

  unfoldable pub decode_print_segments : Bytes → List PrintEvent
  decode_print_segments data' = state_of (parse_fields data' segment_field [])

  unfoldable pub decode_source_range : Bytes → SourceRange
  decode_source_range data' = state_of (
      parse_fields data' range_field
        (record { filename = decode_string_field data' 1; start = 0; end_ = 0 }))

  unfoldable pub decode_complete : Bytes → Result Value
  decode_complete data' = do
    values ← message_arena data' 2
    i ← result_of (parse_fields data' index_value 0)
    arena_ref values i

  unfoldable pub call_field : List Value → CallEvent → WireField → Run CallEvent
  call_field values x f =
      if f.tag == 3
      then check_in x (arena_pairs values (field_message 1 f.bytes))
          (λ d. done (record x { kwargs = append_dict x.kwargs d }))
      else if f.tag == 4
      then done (record x { call_id = f.varint % 2 ^ 32 })
      else if f.tag == 5
      then check_in x (decode_uuid f.bytes)
          (λ id. done (record x { object_id = some id; method_call = true }))
      else if f.tag == 6
      then done (record x { allow_eager_await = not (f.varint == 0) })
      else done x

  unfoldable pub decode_function_call : Bytes → Result CallEvent
  decode_function_call data' = do
    values ← message_arena data' 7
    ids ← result_of (indexes data' 2)
    args ← arena_refs values ids
    result_of (
        parse_fields data' (call_field values) (record {
          position = decode_source_range (decode_bytes_field data' 8);
          name = decode_string_field data' 1;
          args = args;
          kwargs = no_pairs;
          call_id = 0;
          object_id = none;
          method_call = false;
          allow_eager_await = false;
        }))
