-- ===== src/Errors.antt =====
-- The Go errors of the package as values, and the results of functions that return one.
use monty_go.Common.{ℕ, Bytes, ◌≡◌, ◌⊎◌, inl, inr, refl, ap}

-- One constructor for each place that makes an error, with what its text shows; `parse` is
-- `protowire.ParseError` of the negative length that it is given.
pub data Error : Type 0 where
  -- wire.go
  invalid_tag parse : ℕ → Error
  invalid_wire_type : ℕ → Error
  expected_one_field : ℕ → Error
  invalid_index_wire_type : Error
  frame_too_long : ℕ → Error
  truncated_frame end_of_input : Error
  complex_part : ℕ → Error
  complex_incomplete : Error
  multiple_kinds no_kind : Error
  unknown_kind : ℕ → Error
  -- class_value.go and module.go
  uuid_length uuid_missing : Error
  invalid_origin : ℕ → Error
  invalid_identity : Error
  class_identity : Error
  invalid_module_field : ℕ → Error
  module_incomplete : Error
  -- value.go
  depth_exceeded output_only dataclass_input instance_type_input : Error
  -- arena.go
  arena_reference : ℕ → ℕ → Error
  arena_not_message arena_multiple_kinds arena_no_kind not_a_class : Error
  arena_wire_type unsupported_node unsupplied_kind : ℕ → Error
  -- exception_data.go and protocol.go
  invalid_payload unicode_objects unicode_no_object structured_not_message no_exception : Error
  invalid_unicode_field unicode_field_size invalid_json_field json_field_size : ℕ → Error
  -- protocol.go, the requests
  input_error : Bytes → Error → Error
  -- print.go
  many_limits negative_limit : Error
  print_limit : ℕ → Error
  -- protocol.go, the calls of the operating system
  invalid_sleep_duration import_not_message import_not_string stubs_not_message : Error
  duplicate_stub : Bytes → Error
  scan_not_message scan_not_string scan_not_varint scan_depth : Error
  -- os_policy.go
  two_clocks two_zones zone_offset sleep_max_unused negative_sleep_max : Error
  two_seeds nil_seed_int infinite_seed seed_type : Error
  unknown_policy : Bytes → Error
  -- protocol.go, the events
  event_kinds event_no_kind sleep_limit_type : Error
  -- snapshot.go
  invalid_snapshot_format no_worker_state : Error
  snapshot_field_repeated snapshot_wire_type : ℕ → Error
  invalid_snapshot_duration invalid_sleep_usage : Error
  snapshot_version : Bytes → Error

-- Go's `(value, error)`. `stuck` is no Go value: a loop ran out of its fuel, or an index is
-- out of range.
pub data Result {ℓ} (A : Type ℓ) : Type ℓ where
  ok : A → Result A
  err : Error → Result A
  stuck : Result A

infixl 5 ◌>>=◌ ◌>>◌
abbrev pub ◌>>=◌ {ℓ κ} : {A : Type ℓ} {B : Type κ} → Result A → (A → Result B) → Result B
ok a >>= f = f a
err e >>= f = err e
stuck >>= f = stuck

abbrev pub ◌>>◌ {ℓ} : {B : Type ℓ} → Result (Unit {0}) → Result B → Result B
m >> k = m >>= λ _. k

-- A closure that assigns captured variables and returns an error: the variables keep what was
-- assigned before the error.
pub data Run {ℓ} (S : Type ℓ) : Type ℓ where
  done : S → Run S
  fail : Error → S → Run S
  out_of_fuel : S → Run S

abbrev pub and_then {ℓ} : {S : Type ℓ} → Run S → (S → Run S) → Run S
and_then (done s) f = f s
and_then (fail e s) f = fail e s
and_then (out_of_fuel s) f = out_of_fuel s

-- The variables afterwards, where the code drops the error: `_ = parseFields(...)`. This is for
-- closures that have no loop and no index of their own, and for `indexes`, which always ends.
abbrev pub state_of {ℓ} : {S : Type ℓ} → Run S → S
state_of (done s) = s
state_of (fail e s) = s
state_of (out_of_fuel s) = s

-- The variables afterwards, where a closure drops the error of a call: a call that does not end is
-- not dropped. `s` are the variables of the closure.
abbrev pub after_dropped {ℓ κ} : {S : Type ℓ} {A : Type κ} → S → Run A → (A → Run S) → Run S
after_dropped s (done a) k = k a
after_dropped s (fail e a) k = k a
after_dropped s (out_of_fuel a) k = out_of_fuel s

-- `if err != nil { return ..., err }`.
abbrev pub result_of {ℓ} : {S : Type ℓ} → Run S → Result S
result_of (done s) = ok s
result_of (fail e s) = err e
result_of (out_of_fuel s) = stuck

-- A call inside such a closure whose error the closure returns.
abbrev pub check_in {ℓ κ} : {S : Type ℓ} {A : Type κ} → S → Result A → (A → Run S) → Run S
check_in s (ok a) f = f a
check_in s (err e) f = fail e s
check_in s stuck f = out_of_fuel s

-- A loop has not run out of its fuel.
abbrev pub Ends {ℓ} : {S : Type ℓ} → Run S → Type 0
Ends (done s) = Unit {0}
Ends (fail e s) = Unit {0}
Ends (out_of_fuel s) = ⊥

abbrev pub Returns {ℓ} : {A : Type ℓ} → Result A → Type 0
Returns (ok a) = Unit {0}
Returns (err e) = Unit {0}
Returns stuck = ⊥

pub Result-cases {ℓ} :
    {A : Type ℓ} (r : Result A)
    → ((a : A) × (r ≡ ok a)) ⊎ (((e : Error) × (r ≡ err e)) ⊎ (r ≡ stuck))
Result-cases (ok a) = inl (a, refl)
Result-cases (err e) = inr (inl (e, refl))
Result-cases stuck = inr (inr refl)

pub Ends-and_then {ℓ} :
    {S : Type ℓ} (r : Run S) (f : S → Run S) → Ends r → ((s : S) → Ends (f s)) → Ends (and_then r f)
Ends-and_then (done s) f h k = k s
Ends-and_then (fail e s) f h k = tt
Ends-and_then (out_of_fuel s) f h k = h

pub Run-cases {ℓ} :
    {S : Type ℓ} (r : Run S)
    → ((s : S) × (r ≡ done s))
      ⊎ (((e : Error) × (s : S) × (r ≡ fail e s)) ⊎ ((s : S) × (r ≡ out_of_fuel s)))
Run-cases (done s) = inl (s, refl)
Run-cases (fail e s) = inr (inl (e, s, refl))
Run-cases (out_of_fuel s) = inr (inr (s, refl))

pub done-injective {ℓ} : {S : Type ℓ} {s t : S} → done s ≡ done t → s ≡ t
done-injective e = cc

pub Returns-result_of {ℓ κ} :
    {S : Type ℓ} {A : Type κ} (r : Run S) (k : S → Result A)
    → Ends r
    → ((s : S) → Returns (k s))
    → Returns (result_of r >>= k)
Returns-result_of (done s) k e h = h s
Returns-result_of (fail x s) k e h = tt
Returns-result_of (out_of_fuel s) k e h = e

pub ok-injective {ℓ} : {A : Type ℓ} {a b : A} → ok a ≡ ok b → a ≡ b
ok-injective e = cc

pub result_of-ok {ℓ} : {S : Type ℓ} (r : Run S) (s : S) → result_of r ≡ ok s → r ≡ done s
result_of-ok (done t) s e = ap done (ok-injective e)
result_of-ok (fail x t) s e = cc
result_of-ok (out_of_fuel t) s e = cc

pub check_in-done {ℓ κ} :
    {S : Type ℓ} {A : Type κ} (s : S) (r : Result A) (k : A → Run S) (t : S)
    → check_in s r k ≡ done t
    → (a : A) × (r ≡ ok a) × (k a ≡ done t)
check_in-done s (ok a) k t e = (a, refl, e)
check_in-done s (err x) k t e = cc
check_in-done s stuck k t e = cc

pub >>=-ok {ℓ κ} :
    {A : Type ℓ} {B : Type κ} (r : Result A) (k : A → Result B) (b : B)
    → r >>= k ≡ ok b
    → (a : A) × (r ≡ ok a) × (k a ≡ ok b)
>>=-ok (ok a) k b e = (a, refl, e)
>>=-ok (err x) k b e = cc
>>=-ok stuck k b e = cc
