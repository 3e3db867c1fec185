-- ===== src/Events/OsCall.antt =====
-- protocol.go: `decodeOSCall`.
pub mod Total
pub mod Getenv
use monty_go.Common.{
  ℕ, ◌-◌, ◌/◌, ◌%◌, ◌^◌, List, [], ◌∷◌, ◌++◌, Bytes, bytes_eq, Bool, true, false, not, ◌==◌, ◌&&◌,
  ◌||◌, leb, ltb, if◌then◌else◌, Option, none, some, text,
}
use monty_go.Errors.{
  Error, Result, ok, err, stuck, ◌>>=◌, Run, done, fail, out_of_fuel, after_dropped, result_of,
  check_in,
}
use monty_go.Wire.Proto.{Protowire, is_varint, is_bytes}
use monty_go.Wire.Fields.{WireField}
use monty_go.Wire.Parse.{parse_fields, decode_string_field, decode_bytes_field}
use monty_go.Value.{Value, nil_value, TimeZone}
use monty_go.Value.Flat.{decode_time_zone}
use monty_go.Arena.Decode.{arena_ref, message_arena}
use monty_go.Events.{SourceRange, decode_source_range}

-- The Go values that the arguments of a call of the operating system are.
pub data OsArg : Type 0 where
  nil_arg : OsArg
  text_arg : Bytes → OsArg
  bytes_arg : Bytes → OsArg
  bool_arg : Bool → OsArg
  uint64_arg : ℕ → OsArg
  uint32_arg : ℕ → OsArg
  float_arg : ℕ → OsArg
  zone_arg : TimeZone → OsArg
  value_arg : Value → OsArg
  names_arg : List Bytes → OsArg

-- `callEvent` with `OS`; it has no object and no keyword arguments.
pub record OsCall : Type 0 where
  pub position : SourceRange
  pub name : Bytes
  pub args : List OsArg
  pub call_id : ℕ
  pub allow_eager_await : Bool

abbrev pub with_call : OsCall → Bytes → List OsArg → OsCall
with_call x name args = record x { name = name; args = args }

-- The calls whose argument is the path.
unfoldable pub path_call : ℕ → Option Bytes
path_call tag =
    if tag == 2
    then some (text "Path.exists")
    else if tag == 3
    then some (text "Path.is_file")
    else if tag == 4
    then some (text "Path.is_dir")
    else if tag == 5
    then some (text "Path.is_symlink")
    else if tag == 6
    then some (text "Path.read_text")
    else if tag == 7
    then some (text "Path.read_bytes")
    else if tag == 8
    then some (text "Path.stat")
    else if tag == 9
    then some (text "Path.iterdir")
    else if tag == 10
    then some (text "Path.resolve")
    else if tag == 11
    then some (text "Path.absolute")
    else if tag == 12
    then some (text "Path.unlink")
    else if tag == 13
    then some (text "Path.rmdir")
    else none

-- The closures with two texts.
unfoldable pub two_field : Bytes × Bytes → WireField → Run (Bytes × Bytes)
two_field (p, d) v = done (if v.tag == 1 then v.bytes else p, if v.tag == 2 then v.bytes else d)

-- The variables of `Path.mkdir`.
unfoldable pub mkdir_field : Bytes × Bool × Bool → WireField → Run (Bytes × Bool × Bool)
mkdir_field (p, parents, exist) v = done (
  if v.tag == 1 then v.bytes else p,
  if v.tag == 2 then not (v.varint == 0) else parents,
  if v.tag == 3 then not (v.varint == 0) else exist,
)

unfoldable pub size_field : ℕ → WireField → Run ℕ
size_field size v = done (if v.tag == 1 then v.varint else size)

unfoldable pub seconds_field : ℕ → WireField → Run ℕ
seconds_field bits v = done (if v.tag == 1 then v.fixed64 else bits)

-- `seconds >= float64(math.MaxInt64)/float64(time.Second)` for the bits of a positive number: these
-- are in the order of the numbers.
abbrev max_seconds : ℕ
max_seconds = 0x4201_2e0b_e826_d695

-- NaN and the infinities have all bits of the exponent; below zero the sign bit is set, and others.
unfoldable pub invalid_seconds : ℕ → Bool
invalid_seconds bits =
    (bits / 2 ^ 52 % 2 ^ 11 == 2 ^ 11 - 1)
    || (ltb (2 ^ 63) bits || (ltb bits (2 ^ 63) && leb max_seconds bits))

unfoldable pub sleep_name : ℕ → Bytes
sleep_name tag =
    if tag == 27
    then text "time.sleep"
    else if tag == 28
    then text "asyncio.sleep"
    else if tag == 29
    then text "system.sleep"
    else text "system.async_sleep"

unfoldable pub name_arg_field : Bytes → WireField → Run Bytes
name_arg_field name v =
    if v.tag == 1
    then (if not (is_bytes v.type_) then fail Error.import_not_string name else done v.bytes)
    else done name

-- `seen[name]`.
unfoldable pub is_seen : Bytes → List Bytes → Bool
is_seen name [] = false
is_seen name (n ∷ ns) = bytes_eq n name || is_seen name ns

-- `names`, whose members are the keys of `seen`.
unfoldable pub stub_field : List Bytes → WireField → Run (List Bytes)
unfolding is_seen
stub_field names v =
    if v.tag == 1
    then (if not (is_bytes v.type_)
        then fail Error.import_not_string names
        else if is_seen v.bytes names
        then fail (Error.duplicate_stub v.bytes) names
        else done (names ++ (v.bytes ∷ [])))
    else done names

-- The variables of `Path.scan`.
pub record Scan : Type 0 where
  pub path_text : Bytes
  pub depth : OsArg
  pub follow : Bool
  pub pattern_texts : List Bytes
  pub case_sensitive : OsArg
  pub recurse : Bool

abbrev pub blank_scan : Scan
blank_scan = record {
  path_text = [];
  depth = nil_arg;
  follow = false;
  pattern_texts = [];
  case_sensitive = nil_arg;
  recurse = false;
}

unfoldable pub scan_field : Scan → WireField → Run Scan
scan_field s v =
    if v.tag == 1 || v.tag == 4
    then (if not (is_bytes v.type_)
        then fail Error.scan_not_string s
        else if v.tag == 1
        then done (record s { path_text = v.bytes })
        else done (record s { pattern_texts = s.pattern_texts ++ (v.bytes ∷ []) }))
    else if v.tag == 2 || (v.tag == 3 || (v.tag == 5 || v.tag == 6))
    then (if not (is_varint v.type_)
        then fail Error.scan_not_varint s
        else if v.tag == 2
        then (if ltb (2 ^ 32 - 1) v.varint
            then fail Error.scan_depth s
            else done (record s { depth = uint32_arg (v.varint % 2 ^ 32) }))
        else if v.tag == 3
        then done (record s { follow = not (v.varint == 0) })
        else if v.tag == 5
        then done (record s { case_sensitive = bool_arg (not (v.varint == 0)) })
        else done (record s { recurse = not (v.varint == 0) }))
    else done s

abbrev pub scan_args : Scan → List OsArg
scan_args s =
    text_arg s.path_text
    ∷ s.depth
    ∷ bool_arg s.follow
    ∷ names_arg s.pattern_texts
    ∷ s.case_sensitive
    ∷ bool_arg s.recurse
    ∷ []

-- The variables of `os.getenv`: `key`, `def` and `decErr`.
pub record GetenvParts : Type 0 where
  pub key : Bytes
  pub default_value : Value
  pub dec_err : Option Error

abbrev pub blank_getenv : GetenvParts
blank_getenv = record { key = []; default_value = nil_value; dec_err = none }

-- `def, decErr = arenaRef(values, v.varint)` and `return decErr`.
unfoldable pub getenv_default : GetenvParts → Result Value → Run GetenvParts
getenv_default s (ok x) = done (record s { default_value = x; dec_err = none })
getenv_default s (err e) = fail e (record s { default_value = nil_value; dec_err = some e })
getenv_default s stuck = out_of_fuel s

-- `return decErr`.
abbrev pub getenv_return : GetenvParts → Option Error → Run GetenvParts
getenv_return s none = done s
getenv_return s (some e) = fail e s

module _ ⦃w : Protowire⦄ where
  unfoldable pub getenv_field : Bytes → GetenvParts → WireField → Run GetenvParts
  unfolding arena_ref getenv_default
  getenv_field message s v =
      let s' = if v.tag == 1 then record s { key = v.bytes } else s in
      if v.tag == 2
      then check_in s' (message_arena message 50)
          (λ values. getenv_default s' (arena_ref values v.varint))
      else getenv_return s' s'.dec_err

  -- The end of the case, `if decErr != nil`.
  abbrev pub getenv_call : OsCall → GetenvParts → Option Error → Run OsCall
  getenv_call x s (some e) = fail e x
  getenv_call x s none =
      done (with_call x (text "os.getenv") (text_arg s.key ∷ value_arg s.default_value ∷ []))

  unfoldable pub zone_field : OsArg → WireField → Run OsArg
  zone_field tz v = done (if v.tag == 1 then zone_arg (decode_time_zone v.bytes) else tz)

  -- The cases from 14 to 20, which drop the errors of their fields.
  abbrev pub two_call : OsCall → ℕ → Bytes × Bytes → OsCall
  two_call x tag (p, d) =
      if tag == 14
      then with_call x (text "Path.write_text") (text_arg p ∷ text_arg d ∷ [])
      else if tag == 15
      then with_call x (text "Path.append_text") (text_arg p ∷ text_arg d ∷ [])
      else if tag == 16
      then with_call x (text "Path.write_bytes") (text_arg p ∷ bytes_arg d ∷ [])
      else if tag == 17
      then with_call x (text "Path.append_bytes") (text_arg p ∷ bytes_arg d ∷ [])
      else if tag == 18
      then with_call x (text "open") (text_arg p ∷ text_arg d ∷ [])
      else with_call x (text "Path.rename") (text_arg p ∷ text_arg d ∷ [])

  abbrev pub mkdir_call : OsCall → Bytes × Bool × Bool → OsCall
  mkdir_call x (p, parents, exist) =
      with_call x (text "Path.mkdir") (text_arg p ∷ bool_arg parents ∷ bool_arg exist ∷ [])

  unfoldable pub file_call : OsCall → WireField → Run OsCall
  unfolding two_field mkdir_field
  file_call x f =
      if f.tag == 19
      then after_dropped x (parse_fields f.bytes mkdir_field ([], false, false))
          (λ m. done (mkdir_call x m))
      else after_dropped x (parse_fields f.bytes two_field ([], []))
          (λ t. done (two_call x f.tag t))

  -- The cases from 27 to 30.
  unfoldable pub sleep_call : OsCall → WireField → Run OsCall
  unfolding invalid_seconds sleep_name
  sleep_call x f = check_in x (result_of (parse_fields f.bytes seconds_field 0)) λ bits.
      if invalid_seconds bits
      then fail Error.invalid_sleep_duration x
      else done (with_call x (sleep_name f.tag) (float_arg bits ∷ []))

  -- The cases from 31 on, whose field is a message.
  unfoldable pub import_call : OsCall → WireField → Run OsCall
  import_call x f =
      if f.tag == 31
      then (if not (is_bytes f.type_)
          then fail Error.import_not_message x
          else check_in (record x { name = text "import" })
              (result_of (parse_fields f.bytes name_arg_field []))
              (λ name. done (with_call x (text "import") (text_arg name ∷ []))))
      else if f.tag == 32
      then (if not (is_bytes f.type_)
          then fail Error.stubs_not_message x
          else check_in (record x { name = text "import_stubs" })
              (result_of (parse_fields f.bytes stub_field []))
              (λ names. done (with_call x (text "import_stubs") (names_arg names ∷ []))))
      else if f.tag == 33
      then (if not (is_bytes f.type_)
          then fail Error.scan_not_message x
          else check_in (record x { name = text "Path.scan" })
              (result_of (parse_fields f.bytes scan_field blank_scan))
              (λ s. done (with_call x (text "Path.scan") (scan_args s))))
      else done x

  -- The switch of `decodeOSCall`; `message` is its `data`.
  unfoldable pub os_call : Bytes → OsCall → WireField → Run OsCall
  unfolding path_call
  os_call message x f = elim (path_call f.tag) [
    | some name ↦ done (with_call x name (text_arg f.bytes ∷ []))
    | none ↦
        if leb 14 f.tag && leb f.tag 20
        then file_call x f
        else if f.tag == 21
        then after_dropped x (parse_fields f.bytes (getenv_field message) blank_getenv)
            (λ s. getenv_call x s s.dec_err)
        else if f.tag == 22
        then done (record x { name = text "os.environ" })
        else if f.tag == 23
        then done (record x { name = text "date.today" })
        else if f.tag == 25
        then check_in x (result_of (parse_fields f.bytes size_field 0))
            (λ size. done (with_call x (text "os.urandom") (uint64_arg size ∷ [])))
        else if f.tag == 26
        then done (with_call x (text "time.time") (text_arg (decode_string_field f.bytes 1) ∷ []))
        else if leb 27 f.tag && leb f.tag 30
        then sleep_call x f
        else if f.tag == 24
        then after_dropped x (parse_fields f.bytes zone_field nil_arg)
            (λ tz. done (with_call x (text "datetime.now") (tz ∷ [])))
        else import_call x f
  ]

  unfoldable pub os_call_field : Bytes → OsCall → WireField → Run OsCall
  os_call_field message x f =
      if f.tag == 51
      then done (record x { allow_eager_await = not (f.varint == 0) })
      else if f.tag == 1
      then done (record x { call_id = f.varint % 2 ^ 32 })
      else os_call message x f

  unfoldable pub decode_os_call : Bytes → Result OsCall
  decode_os_call message = result_of (
      parse_fields message (os_call_field message) (record {
        position = decode_source_range (decode_bytes_field message 52);
        name = [];
        args = [];
        call_id = 0;
        allow_eager_await = false;
      }))
