-- ===== src/Value.antt =====
-- value.go, class_value.go and module.go: the values that cross the boundary to the worker. A Go
-- value in an interface is a constructor; strings and byte slices are lists of bytes, floats are
-- their IEEE 754 bit patterns, `int` has 64 bits.
pub mod Flat
pub mod Decode
pub mod Encode
pub mod Sent
pub mod Parts
pub mod Leaves
pub mod Containers
pub mod RoundTrip
pub mod Total
pub mod Depth
use monty_go.Common.{ℕ, ◌≡◌, List, [], ◌∷◌, Bytes, Bool, Option}
use monty_go.Common.Int.{ℤ}

pub record Date : Type 0 where
  pub year : ℤ
  pub month : ℤ
  pub day : ℤ

pub record DateTime : Type 0 where
  pub date : Date
  pub hour : ℤ
  pub minute : ℤ
  pub second : ℤ
  pub microsecond : ℤ
  pub offset_seconds : Option ℤ
  pub timezone_name : Option Bytes

pub record Time : Type 0 where
  pub hour : ℤ
  pub minute : ℤ
  pub second : ℤ
  pub microsecond : ℤ
  pub offset_seconds : Option ℤ
  pub timezone_name : Option Bytes
  pub fold : ℤ

pub record TimeDelta : Type 0 where
  pub days : ℤ
  pub seconds : ℤ
  pub microseconds : ℤ

pub record TimeZone : Type 0 where
  pub offset_seconds : ℤ
  pub name : Option Bytes

pub record Exception : Type 0 where
  pub exception_type : Bytes
  pub message : Bytes

pub record FileHandle : Type 0 where
  pub path : Bytes
  pub mode : Bytes
  pub position : ℕ

pub record Function : Type 0 where
  pub name : Bytes
  pub docstring : Option Bytes

-- `ClassType` without its attributes. An identity is 16 bytes; the origin is 1 for a builtin, 2 for
-- the sandbox, 3 for the host.
pub record ClassHead : Type 0 where
  pub name : Bytes
  pub id : Bytes
  pub origin : ℕ
  pub is_dataclass : Bool

-- `Module` without its attributes.
pub record ModuleHead : Type 0 where
  pub name : Bytes
  pub id : Bytes

-- `Dataclass` without its attributes.
pub record DataclassHead : Type 0 where
  pub name : Bytes
  pub type_id : ℕ
  pub field_names : List Bytes
  pub frozen : Bool

mutual
  pub data Value : Type 0 where
    nil_value ellipsis not_implemented : Value
    bool : Bool → Value
    int : ℤ → Value
    big_int : ℤ → Value
    float : ℕ → Value
    complex : ℕ → ℕ → Value
    str : Bytes → Value
    bytes_value : Bytes → Value
    list : Values → Value
    tuple : Values → Value
    set : Values → Value
    frozen_set : Values → Value
    dict : Pairs → Value
    named_tuple : Bytes → List Bytes → Values → Value
    date : Date → Value
    time : Time → Value
    date_time : DateTime → Value
    time_delta : TimeDelta → Value
    time_zone : TimeZone → Value
    exception : Exception → Value
    type_name : Bytes → Value
    instance_type : Bytes → Value
    builtin_function : Bytes → Value
    path : Bytes → Value
    file_handle : FileHandle → Value
    function : Function → Value
    dataclass : DataclassHead → Pairs → Value
    class_type : ClassHead → Pairs → Value
    class_instance : ClassHead → Pairs → Bytes → Pairs → Value
    module_value : ModuleHead → Pairs → Value
    repr : Bytes → Value
    cycle : ℕ → Bytes → Value

  -- `[]Value`.
  pub data Values : Type 0 where
    no_values : Values
    more_values : Value → Values → Values

  -- `Dict`, in insertion order.
  pub data Pairs : Type 0 where
    no_pairs : Pairs
    more_pairs : Value → Value → Pairs → Pairs

-- `append(items, v)`.
abbrev pub snoc_value : Values → Value → Values
snoc_value no_values v = more_values v no_values
snoc_value (more_values x xs) v = more_values x (snoc_value xs v)

abbrev pub snoc_pair : Pairs → Value → Value → Pairs
snoc_pair no_pairs k v = more_pairs k v no_pairs
snoc_pair (more_pairs j u ps) k v = more_pairs j u (snoc_pair ps k v)
