-- ===== src/Events/OsCall/Total.antt =====
-- `decodeOSCall` returns on every input.
use monty_go.Common.{
  [], false, if◌then◌else◌, ◌==◌, ◌&&◌, leb, not, Bytes, Option, some, none, arith, Option-cases,
  inl, inr,
}
use monty_go.Errors.{Error, Ends, Returns, Result, ok, err, stuck}
use monty_go.Value.{Value}
use monty_go.Arena.Decode.{message_arena, arena_ref}
use monty_go.Arena.Total.{arena_ref-Returns}
use monty_go.Events.Total.{message_arena-Returns}
use monty_go.Wire.Message.{parse_fields-Ends}
use monty_go.Wire.Parse.{parse_fields}
use monty_go.Wire.Proto.{Protowire, Laws, is_bytes}
use monty_go.Wire.Fields.{WireField}
use monty_go.Wire.Returns.{Ends-check_in, Ends-after_dropped, Ends-if, parse-Returns_plain}
use monty_go.Events.OsCall.{
  OsCall, GetenvParts, getenv_field, blank_getenv, getenv_default, getenv_return, file_call,
  two_field, mkdir_field, zone_field, nil_arg, path_call, size_field, seconds_field,
  invalid_seconds, name_arg_field, stub_field, scan_field, blank_scan, getenv_call, sleep_call,
  import_call, os_call, os_call_field, decode_os_call,
}

module _ ⦃w : Protowire⦄ (laws : Laws w) where
  getenv_call-Ends : (x : OsCall) (s : GetenvParts) (o : Option Error) → Ends (getenv_call x s o)
  getenv_call-Ends x s none = tt
  getenv_call-Ends x s (some e) = tt

  getenv_default-Ends : (s : GetenvParts) (r : Result Value) → Returns r → Ends (getenv_default s r)
  unfolding getenv_default
  getenv_default-Ends s (ok x) h = tt
  getenv_default-Ends s (err e) h = tt
  getenv_default-Ends s stuck h = h

  getenv_return-Ends : (s : GetenvParts) (o : Option Error) → Ends (getenv_return s o)
  getenv_return-Ends s none = tt
  getenv_return-Ends s (some e) = tt

  -- The index of the default is within the arena, or an error.
  getenv_field-Ends : (b : Bytes) (s : GetenvParts) (f : WireField) → Ends (getenv_field b s f)
  unfolding getenv_field
  getenv_field-Ends b s f =
      let t : GetenvParts = if f.tag == 1 then record s { key = f.bytes } else s in
      Ends-if (f.tag == 2) _ _
        (Ends-check_in t (message_arena b 50) _ (message_arena-Returns laws b 50) (λ values.
          getenv_default-Ends t (arena_ref values f.varint) (arena_ref-Returns values f.varint)))
        (getenv_return-Ends t t.dec_err)

  file_call-Ends : (x : OsCall) (f : WireField) → Ends (file_call x f)
  unfolding file_call
  file_call-Ends x f =
      Ends-if (f.tag == 19) _ _
        (Ends-after_dropped x (parse_fields f.bytes mkdir_field ([], false, false)) _
          (parse_fields-Ends laws mkdir_field f.bytes ([], false, false)
            (λ s g l. unfold mkdir_field in tt))
          (λ m. tt))
        (Ends-after_dropped x (parse_fields f.bytes two_field ([], [])) _
          (parse_fields-Ends laws two_field f.bytes ([], []) (λ s g l. unfold two_field in tt))
          (λ t. tt))

  sleep_call-Ends : (x : OsCall) (f : WireField) → Ends (sleep_call x f)
  unfolding sleep_call
  sleep_call-Ends x f =
      Ends-check_in x _ _
        (parse-Returns_plain laws f.bytes seconds_field 0 (λ s g l. unfold seconds_field in tt))
        (λ bits. Ends-if (invalid_seconds bits) _ _ tt tt)

  import_call-Ends : (x : OsCall) (f : WireField) → Ends (import_call x f)
  unfolding import_call
  import_call-Ends x f =
      Ends-if (f.tag == 31) _ _
        (Ends-if (not (is_bytes f.type_)) _ _ tt (
          Ends-check_in _ _ _
            (parse-Returns_plain laws f.bytes name_arg_field _
              (λ s g l. unfold name_arg_field in ground arith))
            (λ n. tt)))
        (Ends-if (f.tag == 32) _ _
          (Ends-if (not (is_bytes f.type_)) _ _ tt (
            Ends-check_in _ _ _
              (parse-Returns_plain laws f.bytes stub_field _
                (λ s g l. unfold stub_field in ground arith))
              (λ n. tt)))
          (Ends-if (f.tag == 33) _ _
            (Ends-if (not (is_bytes f.type_)) _ _ tt (
              Ends-check_in _ _ _
                (parse-Returns_plain laws f.bytes scan_field blank_scan
                  (λ s g l. unfold scan_field in ground arith))
                (λ n. tt)))
            tt))

  os_call-Ends : (b : Bytes) (x : OsCall) (f : WireField) → Ends (os_call b x f)
  unfolding os_call
  os_call-Ends b x f = elim (Option-cases (path_call f.tag)) [
    | inr (n, e) ↦ rw (e, os_call) tt
    | inl e ↦
        rw (e, os_call)
          (Ends-if (leb 14 f.tag && leb f.tag 20) _ _ (file_call-Ends x f) (
            Ends-if (f.tag == 21) _ _
              (Ends-after_dropped x (parse_fields f.bytes (getenv_field b) blank_getenv) _
                (parse_fields-Ends laws (getenv_field b) f.bytes blank_getenv
                  (λ s g l. getenv_field-Ends b s g))
                (λ s. getenv_call-Ends x s s.dec_err))
              (Ends-if (f.tag == 22) _ _ tt (
                Ends-if (f.tag == 23) _ _ tt (
                  Ends-if (f.tag == 25) _ _
                    (Ends-check_in x _ _
                      (parse-Returns_plain laws f.bytes size_field 0
                        (λ s g l. unfold size_field in tt))
                      (λ size. tt))
                    (Ends-if (f.tag == 26) _ _ tt (
                      Ends-if (leb 27 f.tag && leb f.tag 30) _ _ (sleep_call-Ends x f) (
                        Ends-if (f.tag == 24) _ _
                          (Ends-after_dropped x (parse_fields f.bytes zone_field nil_arg) _
                            (parse_fields-Ends laws zone_field f.bytes nil_arg
                              (λ s g l. unfold zone_field in tt))
                            (λ tz. tt))
                          (import_call-Ends x f)))))))))
  ]

  -- `decodeOSCall` returns a call or an error on every input.
  pub decode_os_call-Returns : (b : Bytes) → Returns (decode_os_call b)
  unfolding decode_os_call
  decode_os_call-Returns b = parse-Returns_plain laws b (os_call_field b) _ λ s f l.
      unfold os_call_field in
      Ends-if (f.tag == 51) _ _ tt (Ends-if (f.tag == 1) _ _ tt (os_call-Ends b s f))
