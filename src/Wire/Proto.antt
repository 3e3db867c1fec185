-- ===== src/Wire/Proto.antt =====
-- google.golang.org/protobuf/encoding/protowire, as wire.go calls it.
use monty_go.Common.{ℕ, ◌^◌, ◌≤◌, ◌<◌, ◌≡◌, [], ◌++◌, Bytes, length, Bool, true, false}

-- `protowire.Type`; ConsumeTag can return all eight values of three bits.
pub data WireType : Type 0 where
  varint_type fixed64_type bytes_type start_group_type end_group_type fixed32_type : WireType
  unknown_type : ℕ → WireType

abbrev pub is_varint : WireType → Bool
is_varint WireType.varint_type = true
is_varint _ = false

abbrev pub is_fixed64 : WireType → Bool
is_fixed64 WireType.fixed64_type = true
is_fixed64 _ = false

abbrev pub is_bytes : WireType → Bool
is_bytes WireType.bytes_type = true
is_bytes _ = false

-- What a Consume function returns: a value and its length, or a negative length as an error code.
pub data Consumed (A : Type 0) : Type 0 where
  consumed : A → ℕ → Consumed A
  parse_error : ℕ → Consumed A

pub record Protowire : Type 0 where
  pub append_tag : Bytes → ℕ → WireType → Bytes
  pub append_varint : Bytes → ℕ → Bytes
  pub append_fixed64 : Bytes → ℕ → Bytes
  pub append_bytes : Bytes → Bytes → Bytes
  pub consume_tag : Bytes → Consumed (ℕ × WireType)
  pub consume_varint : Bytes → Consumed ℕ
  pub consume_fixed64 : Bytes → Consumed ℕ
  pub consume_fixed32 : Bytes → Consumed ℕ
  pub consume_bytes : Bytes → Consumed Bytes
  pub consume_group : ℕ → Bytes → Consumed Bytes

-- The wire types that the encoders write.
abbrev pub IsWritten : WireType → Type 0
IsWritten WireType.varint_type = Unit {0}
IsWritten WireType.fixed64_type = Unit {0}
IsWritten WireType.bytes_type = Unit {0}
IsWritten _ = ⊥

-- The field numbers that ConsumeTag accepts.
abbrev pub IsFieldNumber : ℕ → Type 0
IsFieldNumber n = (1 ≤ n) × (n < 2 ^ 29)

abbrev pub IsU64 : ℕ → Type 0
IsU64 v = v < 2 ^ 64

-- The documented behaviour: an Append function appends, a Consume function reads back from the
-- front what Append wrote, a tag takes a byte at least, and a length-prefixed value is shorter
-- than its encoding, which lies within the input.
pub record Laws (w : Protowire) : Type 0 where
  pub append_tag_lem :
      (b : Bytes) (n : ℕ) (t : WireType) → w.append_tag b n t ≡ b ++ w.append_tag [] n t
  pub append_varint_lem : (b : Bytes) (v : ℕ) → w.append_varint b v ≡ b ++ w.append_varint [] v
  pub append_fixed64_lem : (b : Bytes) (v : ℕ) → w.append_fixed64 b v ≡ b ++ w.append_fixed64 [] v
  pub append_bytes_lem : (b x : Bytes) → w.append_bytes b x ≡ b ++ w.append_bytes [] x
  pub consume_tag-append_tag :
      (n : ℕ) (t : WireType) (rest : Bytes)
      → IsFieldNumber n
      → IsWritten t
      → w.consume_tag (w.append_tag [] n t ++ rest)
        ≡ Consumed.consumed (n, t) (length (w.append_tag [] n t))
  pub consume_varint-append_varint :
      (v : ℕ) (rest : Bytes)
      → IsU64 v
      → w.consume_varint (w.append_varint [] v ++ rest)
        ≡ Consumed.consumed v (length (w.append_varint [] v))
  pub consume_fixed64-append_fixed64 :
      (v : ℕ) (rest : Bytes)
      → IsU64 v
      → w.consume_fixed64 (w.append_fixed64 [] v ++ rest)
        ≡ Consumed.consumed v (length (w.append_fixed64 [] v))
  pub consume_bytes-append_bytes :
      (x rest : Bytes)
      → w.consume_bytes (w.append_bytes [] x ++ rest)
        ≡ Consumed.consumed x (length (w.append_bytes [] x))
  pub consume_tag_length :
      (b : Bytes) (p : ℕ × WireType) (n : ℕ) → w.consume_tag b ≡ Consumed.consumed p n → 0 < n
  pub consume_varint_length :
      (b : Bytes) (v n : ℕ) → w.consume_varint b ≡ Consumed.consumed v n → 0 < n
  pub consume_bytes_length :
      (b x : Bytes) (n : ℕ)
      → w.consume_bytes b ≡ Consumed.consumed x n
      → (length x < n) × (n ≤ length b)
