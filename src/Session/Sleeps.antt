-- ===== src/Session/Sleeps.antt =====
-- A system sleep that `decodeOSCall` gives has its seconds as its first argument.
use monty_go.Common.{
  ℕ, ◌≡◌, refl, List, [], ◌∷◌, Bytes, bytes_eq, true, false, ◌==◌, ◌&&◌, leb, not, inl, inr, Option,
  none, some, Option-cases, text,
}
use mathlib.Core.Path.{subst}
use monty_go.Errors.{
  Error, Result, ok, err, stuck, Run, done, fail, out_of_fuel, check_in, after_dropped, result_of,
  result_of-ok,
}
use monty_go.Wire.Proto.{Protowire, is_bytes}
use monty_go.Wire.Fields.{WireField}
use monty_go.Wire.Parse.{parse_fields}
use monty_go.Wire.Invariant.{parse_fields_inv}
use monty_go.Events.OsCall.{
  OsCall, OsArg, float_arg, path_call, invalid_seconds, GetenvParts, getenv_call, two_call,
  mkdir_call, mkdir_field, two_field, seconds_field, name_arg_field, stub_field, scan_field,
  blank_scan, scan_args, getenv_field, blank_getenv, size_field, zone_field, nil_arg, text_arg,
  names_arg, uint64_arg, with_call, file_call, sleep_call, import_call, os_call, os_call_field,
  decode_os_call,
}
use monty_go.Session.Advance.{is_system_sleep}
use monty_go.Session.Kept.{if-both}

-- A call that is a system sleep has a float first.
pub record HasSeconds (x : OsCall) : Type 0 where
  pub seconds :
      is_system_sleep x.name ≡ true
      → (bits : ℕ) × (rest : List OsArg) × (x.args ≡ float_arg bits ∷ rest)

-- The call that a field leaves, where it leaves one.
abbrev Timed : Run OsCall → Type 0
Timed (done x) = HasSeconds x
Timed (fail e x) = Unit {0}
Timed (out_of_fuel x) = Unit {0}

Timed-check_in {ℓ} :
    {A : Type ℓ} (x : OsCall) (r : Result A) (k : A → Run OsCall)
    → ((a : A) → Timed (k a))
    → Timed (check_in x r k)
Timed-check_in x (ok a) k h = h a
Timed-check_in x (err e) k h = tt
Timed-check_in x stuck k h = tt

Timed-after_dropped {ℓ} :
    {A : Type ℓ} (x : OsCall) (r : Run A) (k : A → Run OsCall)
    → ((a : A) → Timed (k a))
    → Timed (after_dropped x r k)
Timed-after_dropped x (done a) k h = h a
Timed-after_dropped x (fail e a) k h = h a
Timed-after_dropped x (out_of_fuel a) k h = tt

-- A name that is no system sleep's.
other_name : (x : OsCall) → is_system_sleep x.name ≡ false → HasSeconds x
other_name x h = record { seconds = λ e. cc }

abbrev NoSleep : Option Bytes → Type 0
NoSleep none = Unit {0}
NoSleep (some name) = is_system_sleep name ≡ false

path_call-NoSleep : (tag : ℕ) → NoSleep (path_call tag)
unfolding path_call is_system_sleep bytes_eq
path_call-NoSleep tag = if-both NoSleep (tag == 2) _ _ refl (
    if-both NoSleep (tag == 3) _ _ refl (
      if-both NoSleep (tag == 4) _ _ refl (
        if-both NoSleep (tag == 5) _ _ refl (
          if-both NoSleep (tag == 6) _ _ refl (
            if-both NoSleep (tag == 7) _ _ refl (
              if-both NoSleep (tag == 8) _ _ refl (
                if-both NoSleep (tag == 9) _ _ refl (
                  if-both NoSleep (tag == 10) _ _ refl (
                    if-both NoSleep (tag == 11) _ _ refl (
                      if-both NoSleep (tag == 12) _ _ refl
                        (if-both NoSleep (tag == 13) _ _ refl tt)))))))))))

two_call-HasSeconds :
    ⦃w : Protowire⦄ (x : OsCall) (tag : ℕ) (t : Bytes × Bytes) → HasSeconds (two_call x tag t)
unfolding is_system_sleep bytes_eq
two_call-HasSeconds x tag (p, d) = if-both HasSeconds (tag == 14) _ _ (other_name _ refl) (
    if-both HasSeconds (tag == 15) _ _ (other_name _ refl) (
      if-both HasSeconds (tag == 16) _ _ (other_name _ refl) (
        if-both HasSeconds (tag == 17) _ _ (other_name _ refl)
          (if-both HasSeconds (tag == 18) _ _ (other_name _ refl) (other_name _ refl)))))

module _ ⦃w : Protowire⦄ where
  file_call-Timed : (x : OsCall) (f : WireField) → Timed (file_call x f)
  unfolding file_call is_system_sleep bytes_eq
  file_call-Timed x f =
      if-both Timed (f.tag == 19) _ _
        (Timed-after_dropped x (parse_fields f.bytes mkdir_field ([], false, false)) _
          (λ m. other_name (mkdir_call x m) refl))
        (Timed-after_dropped x (parse_fields f.bytes two_field ([], [])) _
          (two_call-HasSeconds x f.tag))

  sleep_call-Timed : (x : OsCall) (f : WireField) → Timed (sleep_call x f)
  unfolding sleep_call
  sleep_call-Timed x f =
      Timed-check_in x (result_of (parse_fields f.bytes seconds_field 0)) _ λ bits.
        if-both Timed (invalid_seconds bits) _ _ tt (record { seconds = λ e. (bits, [], refl) })

  import_call-Timed : (x : OsCall) (f : WireField) → HasSeconds x → Timed (import_call x f)
  unfolding import_call is_system_sleep bytes_eq
  import_call-Timed x f h =
      if-both Timed (f.tag == 31) _ _
        (if-both Timed (not (is_bytes f.type_)) _ _ tt (
          Timed-check_in _ (result_of (parse_fields f.bytes name_arg_field [])) _
            (λ n. other_name (with_call x (text "import") (text_arg n ∷ [])) refl)))
        (if-both Timed (f.tag == 32) _ _
          (if-both Timed (not (is_bytes f.type_)) _ _ tt (
            Timed-check_in _ (result_of (parse_fields f.bytes stub_field [])) _
              (λ n. other_name (with_call x (text "import_stubs") (names_arg n ∷ [])) refl)))
          (if-both Timed (f.tag == 33) _ _
            (if-both Timed (not (is_bytes f.type_)) _ _ tt (
              Timed-check_in _ (result_of (parse_fields f.bytes scan_field blank_scan)) _
                (λ s. other_name (with_call x (text "Path.scan") (scan_args s)) refl)))
            h))

  getenv_call-Timed : (x : OsCall) (s : GetenvParts) (o : Option Error) → Timed (getenv_call x s o)
  unfolding is_system_sleep bytes_eq
  getenv_call-Timed x s none = other_name _ refl
  getenv_call-Timed x s (some e) = tt

  os_call-Timed : (b : Bytes) (x : OsCall) (f : WireField) → HasSeconds x → Timed (os_call b x f)
  unfolding os_call is_system_sleep bytes_eq
  os_call-Timed b x f h = elim (Option-cases (path_call f.tag)) [
    | inr (n, e) ↦ rw (e, os_call) (other_name _ (subst NoSleep e (path_call-NoSleep f.tag)))
    | inl e ↦
        rw (e, os_call)
          (if-both Timed (leb 14 f.tag && leb f.tag 20) _ _ (file_call-Timed x f) (
            if-both Timed (f.tag == 21) _ _
              (Timed-after_dropped x (parse_fields f.bytes (getenv_field b) blank_getenv) _
                (λ s. getenv_call-Timed x s s.dec_err))
              (if-both Timed (f.tag == 22) _ _ (other_name _ refl) (
                if-both Timed (f.tag == 23) _ _ (other_name _ refl) (
                  if-both Timed (f.tag == 25) _ _
                    (Timed-check_in x (result_of (parse_fields f.bytes size_field 0)) _ (λ size.
                      other_name (with_call x (text "os.urandom") (uint64_arg size ∷ [])) refl))
                    (if-both Timed (f.tag == 26) _ _ (other_name _ refl) (
                      if-both Timed (leb 27 f.tag && leb f.tag 30) _ _ (sleep_call-Timed x f) (
                        if-both Timed (f.tag == 24) _ _
                          (Timed-after_dropped x (parse_fields f.bytes zone_field nil_arg) _
                            (λ tz. other_name (with_call x (text "datetime.now") (tz ∷ [])) refl))
                          (import_call-Timed x f h)))))))))
  ]

  field-Timed :
      (b : Bytes) (x : OsCall) (f : WireField) → HasSeconds x → Timed (os_call_field b x f)
  unfolding os_call_field
  field-Timed b x f h =
      if-both Timed (f.tag == 51) _ _ (record { seconds = h.seconds })
        (if-both Timed (f.tag == 1) _ _ (record { seconds = h.seconds }) (os_call-Timed b x f h))

  -- Whatever fields the message has, and in whatever order.
  pub decode_os_call-HasSeconds : (b : Bytes) (x : OsCall) → decode_os_call b ≡ ok x → HasSeconds x
  unfolding decode_os_call is_system_sleep bytes_eq
  decode_os_call-HasSeconds b x e =
      parse_fields_inv HasSeconds (os_call_field b)
        (λ x f y h d. subst Timed d (field-Timed b x f h)) b _ x (other_name _ refl)
        (result_of-ok _ x e)
