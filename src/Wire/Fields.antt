-- ===== src/Wire/Fields.antt =====
-- wire.go: the field encoders, `parseFields`, and the one-field readers of protocol.go.
use monty_go.Common.{ℕ, ◌+◌, [], Bytes, Bool, if◌then◌else◌}
use monty_go.Common.Int.{ℤ, pos, negsuc}
use monty_go.Wire.Proto.{WireType, varint_type, fixed64_type, bytes_type, Protowire}

-- `type wireField struct`.
pub record WireField : Type 0 where
  pub tag : ℕ
  pub type_ : WireType
  pub varint : ℕ
  pub fixed64 : ℕ
  pub bytes : Bytes

-- `f := wireField{tag: int(num), type_: typ}`.
abbrev pub blank : ℕ → WireType → WireField
blank tag t = record { tag = tag; type_ = t; varint = 0; fixed64 = 0; bytes = [] }

-- `protowire.EncodeZigZag` is `uint64(x<<1) ^ uint64(x>>63)`: even numbers for the non-negative.
abbrev pub zigzag : ℤ → ℕ
zigzag (pos n) = n + n
zigzag (negsuc n) = n + n + 1

module _ ⦃w : Protowire⦄ where
  unfoldable pub field_varint : ℕ → ℕ → Bytes
  field_varint tag value = w.append_varint (w.append_tag [] tag varint_type) value

  unfoldable pub field_bool : ℕ → Bool → Bytes
  field_bool tag value = if value then field_varint tag 1 else field_varint tag 0

  unfoldable pub field_fixed64 : ℕ → ℕ → Bytes
  field_fixed64 tag value = w.append_fixed64 (w.append_tag [] tag fixed64_type) value

  unfoldable pub field_bytes : ℕ → Bytes → Bytes
  field_bytes tag value = w.append_bytes (w.append_tag [] tag bytes_type) value

  unfoldable pub field_string : ℕ → Bytes → Bytes
  field_string tag value = field_bytes tag value

  unfoldable pub field_message : ℕ → Bytes → Bytes
  field_message tag body = field_bytes tag body
