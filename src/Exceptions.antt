-- ===== src/Exceptions.antt =====
-- errors.go and exception_data.go: exceptions and their structured payloads.
pub mod Payload
pub mod Raised
pub mod Total
pub mod Frames
pub mod RoundTrip
pub mod Delivered
use monty_go.Common.{ℕ, List, Bytes, Bool, Option}

pub record UnicodeErrorData : Type 0 where
  pub encoding : Bytes
  pub object_bytes : Bytes
  pub object_string : Option Bytes
  pub start : ℕ
  pub end_ : ℕ
  pub reason : Bytes

pub record JsonErrorData : Type 0 where
  pub message : Bytes
  pub document : Option Bytes
  pub position : ℕ
  pub line : ℕ
  pub column : ℕ

-- `ExceptionData`; nil, and a nil pointer of either type, is `none` of an option.
pub data ExceptionData : Type 0 where
  unicode_error : UnicodeErrorData → ExceptionData
  json_error : JsonErrorData → ExceptionData

pub record StackFrame : Type 0 where
  pub filename : Bytes
  pub line : ℕ
  pub column : ℕ
  pub end_line : ℕ
  pub end_column : ℕ
  pub frame_name : Bytes
  pub preview_line : Bytes
  pub hide_caret : Bool
  pub hide_frame_name : Bool

pub record RaisedException : Type 0 where
  pub exception_type : Bytes
  pub message : Bytes
  pub frames : List StackFrame
  pub payload : Option ExceptionData
