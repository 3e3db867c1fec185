-- ===== src/Requests.antt =====
-- protocol.go: the requests to the worker. A `time.Duration` is an integer of nanoseconds.
pub mod Order
use monty_go.Common.{
  ℕ, zero, suc, ◌+◌, ◌/◌, List, [], ◌∷◌, ◌++◌, Bytes, length, Bool, true, false, ◌==◌, ◌&&◌, ◌||◌,
  ltb, if◌then◌else◌, Option, none, some,
}
use monty_go.Common.Int.{ℤ, pos, negsuc, to_u64}
use monty_go.Errors.{Error, Result, ok, err, stuck, ◌>>=◌}
use monty_go.Wire.Proto.{Protowire}
use monty_go.Wire.Fields.{field_varint, field_bool, field_string, field_message}
use monty_go.Value.{Value, nil_value}
use monty_go.Snapshot.{runtime_version}
use monty_go.Arena.Encode.{add, encode_arena}
use monty_go.Exceptions.{RaisedException}
use monty_go.Exceptions.Raised.{encode_raised, nonempty_field}

pub data RequestKind : Type 0 where
  req_configure req_install req_feed req_resume_call req_resume_name req_resume_futures :
      RequestKind
  req_dump req_load req_reset req_shutdown req_abort_feed : RequestKind

-- The numbers of the constants.
abbrev pub kind_number : RequestKind → ℕ
kind_number req_configure = 1
kind_number req_install = 2
kind_number req_feed = 3
kind_number req_resume_call = 4
kind_number req_resume_name = 5
kind_number req_resume_futures = 6
kind_number req_dump = 7
kind_number req_load = 8
kind_number req_reset = 9
kind_number req_shutdown = 10
kind_number req_abort_feed = 11

pub record Request : Type 0 where
  pub kind : RequestKind
  pub body : Bytes

abbrev pub request : RequestKind → Bytes → Request
request kind body = record { kind = kind; body = body }

abbrev pub protocol_version : ℕ
protocol_version = 5

pub record ResourceLimits : Type 0 where
  pub max_duration : ℤ
  pub max_feed_duration : ℤ
  pub max_turn_duration : ℤ
  pub max_total_sleep : ℤ
  pub max_memory : ℕ
  pub gc_interval : ℕ
  pub max_recursion_depth : ℕ
  pub max_suspensions : ℕ

-- `configureWire`; the format is the number of `TypeCheckFormat.wire`.
pub record ConfigureWire : Type 0 where
  pub script_name : Bytes
  pub limits : ResourceLimits
  pub type_check : Bool
  pub type_check_stubs : Option Bytes
  pub type_check_format : ℕ
  pub type_check_color : Bool
  pub assert_annotations : Option ℕ
  pub print_flush_interval : ℤ
  pub os_policy : Bytes

abbrev negated : ℕ → ℤ
negated zero = pos 0
negated (suc n) = negsuc n

-- A division of durations rounds towards zero.
abbrev pub divided : ℤ → ℕ → ℤ
divided (pos n) unit = pos (n / unit)
divided (negsuc n) unit = negated ((n + 1) / unit)

abbrev pub is_positive : ℤ → Bool
is_positive (pos n) = ltb 0 n
is_positive (negsuc n) = false

pub record ResumeResult : Type 0 where
  pub value : Value
  pub raised : Option RaisedException
  pub future : Option ℕ
  pub not_found : Option Bytes
  pub not_handled : Bool

abbrev pub no_result : ResumeResult
no_result = record {
  value = nil_value;
  raised = none;
  future = none;
  not_found = none;
  not_handled = false;
}

-- The order of `sort.Strings`, byte by byte.
unfoldable pub bytes_le : Bytes → Bytes → Bool
bytes_le [] ys = true
bytes_le (x ∷ xs) [] = false
bytes_le (x ∷ xs) (y ∷ ys) =
    let rest = bytes_le xs ys in if ltb x y then true else if x == y then rest else false

-- The inputs in the order of their names. A map has a name at most once.
unfoldable pub insert_input : Bytes × Value → List (Bytes × Value) → List (Bytes × Value)
unfolding bytes_le
insert_input x [] = x ∷ []
insert_input x (y ∷ ys) =
    let rest = insert_input x ys in if bytes_le (x.0) (y.0) then x ∷ y ∷ ys else y ∷ rest

unfoldable pub sorted_inputs : List (Bytes × Value) → List (Bytes × Value)
unfolding insert_input
sorted_inputs [] = []
sorted_inputs (x ∷ xs) = insert_input x (sorted_inputs xs)

module _ ⦃w : Protowire⦄ where
  unfoldable pub encode_request : Request → Bytes
  encode_request r = field_message (kind_number r.kind) r.body

  abbrev duration_field : ℕ → ℤ → Bytes
  duration_field tag d = if is_positive d then field_varint tag (to_u64 (divided d 1000)) else []

  abbrev positive_field : ℕ → ℕ → Bytes
  positive_field tag n = if ltb 0 n then field_varint tag n else []

  unfoldable pub encode_limits : ResourceLimits → Bytes
  encode_limits x =
      duration_field 6 x.max_feed_duration
      ++ (duration_field 7 x.max_turn_duration
          ++ (positive_field 5 x.max_suspensions
              ++ (duration_field 8 x.max_total_sleep
                  ++ (positive_field 2 x.max_memory
                      ++ (positive_field 3 x.gc_interval
                          ++ positive_field 4 x.max_recursion_depth)))))

  abbrev some_field {ℓ} : {A : Type ℓ} → (A → Bytes) → Option A → Bytes
  some_field f (some a) = f a
  some_field f none = []

  unfoldable pub configure_request : ConfigureWire → Request
  unfolding encode_limits
  configure_request x =
      let limits = encode_limits x.limits in
      let b =
        field_string 1 x.script_name
        ++ (if length limits == 0 then [] else field_message 2 limits) in
      let b = b ++ field_bool 3 x.type_check in
      let b = b ++ some_field (field_string 4) x.type_check_stubs in
      let b = b ++ field_string 5 runtime_version in
      let b = b ++ some_field (field_varint 6) x.assert_annotations in
      let b = b ++ field_varint 7 x.type_check_format in
      let b = b ++ field_bool 8 x.type_check_color in
      let b = b ++ field_varint 9 protocol_version in
      let b = b ++ field_varint 10 (to_u64 (divided x.print_flush_interval 1000000)) in
      request req_configure
        (b ++ (if length x.os_policy == 0 then [] else field_message 11 x.os_policy))

  -- The error of an input names it.
  abbrev named_error {ℓ} : {A : Type ℓ} → Bytes → Result A → Result A
  named_error name (ok a) = ok a
  named_error name (err e) = err (Error.input_error name e)
  named_error name stuck = stuck

  -- The loop over the names, with the nodes of the encoder; returns what it appends to the body.
  unfoldable pub feed_inputs : List Bytes → List (Bytes × Value) → Result (Bytes × List Bytes)
  unfolding add
  feed_inputs nodes [] = ok ([], nodes)
  feed_inputs nodes ((name, x) ∷ inputs) = do
    r ← named_error name (add nodes x)
    rest ← feed_inputs (r.1) inputs
    ok (field_message 2 (field_string 1 name ++ field_varint 2 (r.0)) ++ rest.0, rest.1)

  unfoldable pub feed_request : Bytes → List (Bytes × Value) → Bool → Bytes → Result Request
  unfolding feed_inputs sorted_inputs encode_arena
  feed_request code inputs skip cwd = do
    r ← feed_inputs [] (sorted_inputs inputs)
    let b = field_string 1 code ++ r.0
    let b = b ++ field_message 3 (encode_arena (r.1))
    let b = b ++ field_bool 4 skip
    ok (request req_feed (b ++ nonempty_field 5 cwd))

  -- The first field that is set decides: `err`, `future`, `notFound`, `notHandled`, the value.
  unfoldable pub encode_resume_result : ResumeResult → List Bytes → Result (Bytes × List Bytes)
  unfolding add encode_raised
  encode_resume_result x nodes = elim (x.raised) [
    | some e ↦ ok (field_message 2 (encode_raised e), nodes)
    | none ↦ elim (x.future) [
      | some id ↦ ok (field_varint 3 id, nodes)
      | none ↦ elim (x.not_found) [
        | some name ↦ ok (field_string 4 name, nodes)
        | none ↦
            if x.not_handled
            then ok (field_message 5 [], nodes)
            else add nodes x.value >>= λ r. ok (field_varint 1 (r.0), r.1)
      ]
    ]
  ]

  unfoldable pub resume_call_request : ℕ → ResumeResult → Result Request
  unfolding encode_resume_result encode_arena
  resume_call_request call_id x = do
    r ← encode_resume_result x []
    ok (
        request req_resume_call (
          field_varint 1 call_id
          ++ (field_message 2 (r.0) ++ field_message 3 (encode_arena (r.1)))))

  unfoldable pub resume_name_value_request : Value → Result Request
  unfolding add encode_arena
  resume_name_value_request x = do
    r ← add [] x
    ok (request req_resume_name (field_message 1 (encode_arena (r.1)) ++ field_varint 2 (r.0)))

  unfoldable pub resume_name_undefined_request : Request
  resume_name_undefined_request = request req_resume_name (field_message 3 [])

  unfoldable pub future_results : List Bytes → List (ℕ × ResumeResult) → Result (Bytes × List Bytes)
  unfolding encode_resume_result
  future_results nodes [] = ok ([], nodes)
  future_results nodes ((call_id, x) ∷ results) = do
    r ← encode_resume_result x nodes
    rest ← future_results (r.1) results
    ok (field_message 1 (field_varint 1 call_id ++ field_message 2 (r.0)) ++ rest.0, rest.1)

  unfoldable pub resume_futures_request : List (ℕ × ResumeResult) → Result Request
  unfolding future_results encode_arena
  resume_futures_request results = do
    r ← future_results [] results
    ok (request req_resume_futures (r.0 ++ field_message 2 (encode_arena (r.1))))
