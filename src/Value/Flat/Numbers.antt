-- ===== src/Value/Flat/Numbers.antt =====
-- The decoders of complex numbers and of big integers read back what the encoders wrote.
use monty_go.Common.{
  ℕ, zero, suc, ◌+◌, ◌*◌, ◌/◌, ◌%◌, ◌≤◌, ◌≡◌, refl, ap, ◌∙◌, [], ◌∷◌, Bytes, append-nil, true,
  arith,
}
use monty_go.Common.Int.{ℤ, pos, negsuc}
use monty_go.Errors.{ok}
use monty_go.Wire.Proto.{Protowire, Laws, IsU64}
use monty_go.Wire.Fields.{field_bool}
use monty_go.Wire.Message.{out_varint, out_fixed64, out_bytes, parse_fields_of}
use monty_go.Value.Flat.{
  complex_field, big_field, be_loop, be_bytes, be_value, signed, decode_complex, decode_big,
  encode_complex, encode_big_int,
}

be_value-be_loop :
    (fuel n : ℕ) (acc : Bytes) → n ≤ fuel → be_value 0 (be_loop fuel n acc) ≡ be_value n acc
unfolding be_value be_loop
be_value-be_loop zero zero acc h = refl
be_value-be_loop zero (suc n) acc h = absurd (omega arith)
be_value-be_loop (suc fuel) n acc h =
    let whole : n / 256 * 256 + n % 256 ≡ n = omega arith in
    ground (
      arith,
      be_value-be_loop fuel (n / 256) ((n % 256) ∷ acc) (omega arith),
      ap (λ m. be_value m acc) whole,
    )

pub be_value-be_bytes : (n : ℕ) → be_value 0 (be_bytes n) ≡ n
unfolding be_bytes
be_value-be_bytes n = be_value-be_loop n n [] (omega arith) ∙ unfold be_value in refl

module _ ⦃w : Protowire⦄ (laws : Laws w) where
  -- The two halves of a complex number, every bit of them.
  pub decode_complex-encode_complex :
      (re im : ℕ) → IsU64 re → IsU64 im → decode_complex (encode_complex re im) ≡ ok (re, im)
  unfolding decode_complex encode_complex
  decode_complex-encode_complex re im h k =
      rw
        (parse_fields_of laws complex_field (out_fixed64 1 re ∷ out_fixed64 2 im ∷ []) _
          (encode_complex re im) (simp append-nil) (omega arith))
        (unfold complex_field in refl)

  -- A big integer of any size and sign.
  pub decode_big-encode_big_int : (x : ℤ) → decode_big (encode_big_int x) ≡ ok x
  unfolding decode_big encode_big_int field_bool
  decode_big-encode_big_int (pos n) =
      rw
        (parse_fields_of laws big_field (out_varint 1 0 ∷ out_bytes 2 (be_bytes n) ∷ []) _
          (encode_big_int (pos n)) (simp append-nil) (omega arith))
        (unfold big_field in ap (λ m. ok (pos m)) (be_value-be_bytes n))
  decode_big-encode_big_int (negsuc n) =
      rw
        (parse_fields_of laws big_field (out_varint 1 1 ∷ out_bytes 2 (be_bytes (suc n)) ∷ []) _
          (encode_big_int (negsuc n)) (simp append-nil) (omega arith))
        (unfold big_field in ap (λ m. ok (signed true m)) (be_value-be_bytes (suc n)))
