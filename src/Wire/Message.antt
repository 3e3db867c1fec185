-- ===== src/Wire/Message.antt =====
-- What `parseFields` makes of a message that the field encoders wrote, and that it ends.
use monty_go.Common.{
  ℕ, zero, suc, ◌≤◌, ◌<◌, ◌≡◌, refl, sym, ap, ◌∙◌, List, [], ◌∷◌, ◌++◌, Bytes, length, drop,
  length-drop, length-append, drop-append, append_assoc, All, arith, ◌⊎◌, inl, inr,
}
use mathlib.Core.Path.{fun_ext}
use monty_go.Errors.{Result-cases, Returns, Ends-and_then, ok, Run, done, and_then, Ends}
use monty_go.Wire.Proto.{
  WireType, varint_type, fixed64_type, bytes_type, start_group_type, end_group_type, fixed32_type,
  unknown_type, Consumed, consumed, parse_error, Protowire, Laws, IsFieldNumber, IsU64, IsWritten,
}
use monty_go.Wire.Fields.{WireField, blank, field_varint, field_fixed64, field_bytes}
use monty_go.Wire.Parse.{field_body, next_field, parse_loop, parse_fields}

-- A field as an encoder is asked for it.
pub data OutField : Type 0 where
  out_varint : ℕ → ℕ → OutField
  out_fixed64 : ℕ → ℕ → OutField
  out_bytes : ℕ → Bytes → OutField

abbrev pub IsSendable : OutField → Type 0
IsSendable (out_varint tag v) = IsFieldNumber tag × IsU64 v
IsSendable (out_fixed64 tag v) = IsFieldNumber tag × IsU64 v
IsSendable (out_bytes tag x) = IsFieldNumber tag

abbrev pub received : OutField → WireField
received (out_varint tag v) = record (blank tag varint_type) { varint = v }
received (out_fixed64 tag v) = record (blank tag fixed64_type) { fixed64 = v }
received (out_bytes tag x) = record (blank tag bytes_type) { bytes = x }

-- The closure run over the fields of a list, until it returns an error.
abbrev pub fold_fields {ℓ} : {S : Type ℓ} → (S → WireField → Run S) → List OutField → S → Run S
fold_fields fn [] s = done s
fold_fields fn (o ∷ os) s = and_then (fn s (received o)) (λ s'. fold_fields fn os s')

abbrev tag_of : OutField → ℕ
tag_of (out_varint tag v) = tag
tag_of (out_fixed64 tag v) = tag
tag_of (out_bytes tag x) = tag

abbrev type_of : OutField → WireType
type_of (out_varint tag v) = varint_type
type_of (out_fixed64 tag v) = fixed64_type
type_of (out_bytes tag x) = bytes_type

pub Consumed-cases :
    {A : Type 0} (c : Consumed A)
    → ((a : A) × (n : ℕ) × (c ≡ consumed a n)) ⊎ ((k : ℕ) × (c ≡ parse_error k))
Consumed-cases (consumed a n) = inl (a, n, refl)
Consumed-cases (parse_error k) = inr (k, refl)

module _ ⦃w : Protowire⦄ where
  abbrev pub encode_field : OutField → Bytes
  encode_field (out_varint tag v) = field_varint tag v
  encode_field (out_fixed64 tag v) = field_fixed64 tag v
  encode_field (out_bytes tag x) = field_bytes tag x

  abbrev pub encode_message : List OutField → Bytes
  encode_message [] = []
  encode_message (o ∷ os) = encode_field o ++ encode_message os

  pub encode_message-append :
      (os ps : List OutField) → encode_message (os ++ ps) ≡ encode_message os ++ encode_message ps
  encode_message-append [] ps = refl
  encode_message-append (o ∷ os) ps =
      ap (◌++◌ (encode_field o)) (encode_message-append os ps)
      ∙ sym (append_assoc (encode_field o) (encode_message os) (encode_message ps))

  module _ (laws : Laws w) where
    abbrev value_bytes : OutField → Bytes
    value_bytes (out_varint tag v) = w.append_varint [] v
    value_bytes (out_fixed64 tag v) = w.append_fixed64 [] v
    value_bytes (out_bytes tag x) = w.append_bytes [] x

    encode_field_lem :
        (o : OutField) → encode_field o ≡ w.append_tag [] (tag_of o) (type_of o) ++ value_bytes o
    unfolding field_varint field_fixed64 field_bytes
    encode_field_lem (out_varint tag v) = laws.append_varint_lem _ v
    encode_field_lem (out_fixed64 tag v) = laws.append_fixed64_lem _ v
    encode_field_lem (out_bytes tag x) = laws.append_bytes_lem _ x

    field_body-value_bytes :
        (o : OutField) (rest : Bytes)
        → IsSendable o
        → field_body (tag_of o) (type_of o) (value_bytes o ++ rest) ≡ ok (received o, rest)
    unfolding field_body
    field_body-value_bytes (out_varint tag v) rest h =
        rw (laws.consume_varint-append_varint v rest h.1, drop-append (w.append_varint [] v) rest)
    field_body-value_bytes (out_fixed64 tag v) rest h =
        rw
          (laws.consume_fixed64-append_fixed64 v rest h.1, drop-append (w.append_fixed64 [] v) rest)
    field_body-value_bytes (out_bytes tag x) rest h =
        rw (laws.consume_bytes-append_bytes x rest, drop-append (w.append_bytes [] x) rest)

    IsSendable-tag :
        (o : OutField) → IsSendable o → IsFieldNumber (tag_of o) × IsWritten (type_of o)
    IsSendable-tag (out_varint tag v) h = (h.0, tt)
    IsSendable-tag (out_fixed64 tag v) h = (h.0, tt)
    IsSendable-tag (out_bytes tag x) h = (h, tt)

    next_field-tag :
        (n : ℕ) (t : WireType) (v : Bytes)
        → IsFieldNumber n
        → IsWritten t
        → next_field (w.append_tag [] n t ++ v) ≡ field_body n t v
    unfolding next_field
    next_field-tag n t v h k =
        rw (laws.consume_tag-append_tag n t v h k, next_field, drop-append (w.append_tag [] n t) v)

    pub next_field-encode_field :
        (o : OutField) (rest : Bytes)
        → IsSendable o
        → next_field (encode_field o ++ rest) ≡ ok (received o, rest)
    next_field-encode_field o rest h =
        let (hn, ht) = IsSendable-tag o h in
        ap (λ x. next_field (x ++ rest)) (encode_field_lem o)
        ∙ ap next_field (append_assoc (w.append_tag [] (tag_of o) (type_of o)) (value_bytes o) rest)
        ∙ next_field-tag (tag_of o) (type_of o) (value_bytes o ++ rest) hn ht
        ∙ field_body-value_bytes o rest h

    pub encode_field_pos : (o : OutField) → IsSendable o → 0 < length (encode_field o)
    encode_field_pos o h =
        let (hn, ht) = IsSendable-tag o h in
        omega (
          arith,
          ap length (encode_field_lem o),
          length-append (w.append_tag [] (tag_of o) (type_of o)) (value_bytes o),
          laws.consume_tag_length _ _ _
              (laws.consume_tag-append_tag (tag_of o) (type_of o) [] hn ht),
        )

    -- A field is longer than its content.
    pub field_bytes_longer :
        (tag : ℕ) (x : Bytes) → IsFieldNumber tag → length x < length (field_bytes tag x)
    unfolding field_bytes
    field_bytes_longer tag x h = omega (
      arith,
      ap length (laws.append_bytes_lem (w.append_tag [] tag bytes_type) x),
      length-append (w.append_tag [] tag bytes_type) (w.append_bytes [] x),
      laws.consume_bytes_length (w.append_bytes [] x ++ []) x _
          (laws.consume_bytes-append_bytes x []),
    )

    field_body_shorter :
        (num : ℕ) (t : WireType) (b : Bytes) (f : WireField) (rest : Bytes)
        → field_body num t b ≡ ok (f, rest)
        → (length rest ≤ length b) × (length f.bytes ≤ length b)
    unfolding field_body
    field_body_shorter num varint_type b f rest e = grind (arith, length-drop)
    field_body_shorter num fixed64_type b f rest e = grind (arith, length-drop)
    field_body_shorter num bytes_type b f rest e =
        grind (arith, length-drop, laws.consume_bytes_length)
    field_body_shorter num fixed32_type b f rest e = grind (arith, length-drop)
    field_body_shorter num start_group_type b f rest e = grind (arith, length-drop)
    field_body_shorter num end_group_type b f rest e = cc
    field_body_shorter num (unknown_type t) b f rest e = cc

    field_body-Returns : (num : ℕ) (t : WireType) (b : Bytes) → Returns (field_body num t b)
    unfolding field_body
    field_body-Returns num varint_type b = ground arith
    field_body-Returns num fixed64_type b = ground arith
    field_body-Returns num bytes_type b = ground arith
    field_body-Returns num fixed32_type b = ground arith
    field_body-Returns num start_group_type b = ground arith
    field_body-Returns num end_group_type b = tt
    field_body-Returns num (unknown_type t) b = tt

    next_field-Returns : (b : Bytes) → Returns (next_field b)
    unfolding next_field
    next_field-Returns b = elim (Consumed-cases (w.consume_tag b)) [
      | inl ((num, t), n, c) ↦ rw (c, next_field) (field_body-Returns num t (drop b n))
      | inr (k, c) ↦ rw (c, next_field) tt
    ]

    -- Each round of `parseFields` takes a byte at least, and a nested message is shorter.
    pub next_field_shorter :
        (x : ℕ) (xs : Bytes) (f : WireField) (rest : Bytes)
        → next_field (x ∷ xs) ≡ ok (f, rest)
        → (length rest ≤ length xs) × (length f.bytes ≤ length xs)
    unfolding next_field
    next_field_shorter x xs f rest e = elim (Consumed-cases (w.consume_tag (x ∷ xs))) [
      | inl ((num, t), n, c) ↦ grind (
        arith,
        field_body_shorter num t (drop (x ∷ xs) n) f rest (rw (c, next_field) at e),
        laws.consume_tag_length (x ∷ xs) (num, t) n c,
        length-drop (x ∷ xs) n,
      )
      | inr (k, c) ↦ cc (rw (c, next_field) at e)
    ]

    module _ {ℓ} {S : Type ℓ} (fn : S → WireField → Run S) where
      parse_loop_fuel :
          (k m : ℕ) (d : Bytes) (s : S)
          → length d ≤ k
          → length d ≤ m
          → parse_loop fn k d s ≡ parse_loop fn m d s
      unfolding parse_loop
      parse_loop_fuel k m [] s hk hm = refl
      parse_loop_fuel zero m (b ∷ bs) s hk hm = absurd (omega arith)
      parse_loop_fuel (suc k) zero (b ∷ bs) s hk hm = absurd (omega arith)
      parse_loop_fuel (suc k) (suc m) (b ∷ bs) s hk hm = elim (Result-cases (next_field (b ∷ bs))) [
        | inl ((f, rest), e) ↦
            let h = next_field_shorter b bs f rest e in
            rw (e, parse_loop)
              (ap (and_then (fn s f))
                (fun_ext λ s'. parse_loop_fuel k m rest s' (omega arith) (omega arith)))
        | inr (inl (x, e)) ↦ rw (e, parse_loop)
        | inr (inr e) ↦ rw (e, parse_loop)
      ]

      parse_loop_step :
          (fuel x : ℕ) (xs : Bytes) (f : WireField) (rest : Bytes) (s : S)
          → next_field (x ∷ xs) ≡ ok (f, rest)
          → parse_loop fn (suc fuel) (x ∷ xs) s
            ≡ and_then (fn s f) (λ s'. parse_loop fn fuel rest s')
      unfolding parse_loop
      parse_loop_step fuel x xs f rest s e = rw (e, parse_loop)

      parse_fields_step :
          (b : Bytes) (f : WireField) (rest : Bytes) (s : S)
          → 0 < length b
          → next_field b ≡ ok (f, rest)
          → parse_fields b fn s ≡ and_then (fn s f) (λ s'. parse_fields rest fn s')
      unfolding parse_fields
      parse_fields_step [] f rest s pos e = absurd (omega arith)
      parse_fields_step (x ∷ xs) f rest s pos e =
          parse_loop_step (length xs) x xs f rest s e
          ∙ ap (and_then (fn s f)) (
              fun_ext λ s'.
                parse_loop_fuel (length xs) (length rest) rest s'
                  (next_field_shorter x xs f rest e).0 (omega arith))

      -- A field that an encoder wrote is handed to the closure, and the loop goes on behind it.
      pub parse_fields-encode_field :
          (o : OutField) (rest : Bytes) (s : S)
          → IsSendable o
          → parse_fields (encode_field o ++ rest) fn s
            ≡ and_then (fn s (received o)) (λ s'. parse_fields rest fn s')
      parse_fields-encode_field o rest s h =
          parse_fields_step (encode_field o ++ rest) (received o) rest s
            (omega (arith, length-append (encode_field o) rest, encode_field_pos o h))
            (next_field-encode_field o rest h)

      -- `parseFields` on an encoded message runs its closure over the fields, in order, until an
      -- error.
      pub parse_fields-encode_message :
          (os : List OutField) (s : S)
          → All IsSendable os
          → parse_fields (encode_message os) fn s ≡ fold_fields fn os s
      parse_fields-encode_message [] s h = unfold parse_fields parse_loop in refl
      parse_fields-encode_message (o ∷ os) s (ho, hos) =
          parse_fields-encode_field o (encode_message os) s ho
          ∙ ap (and_then (fn s (received o))) (fun_ext λ s'. parse_fields-encode_message os s' hos)

      -- The same of bytes that are such a message.
      pub parse_fields_of :
          (os : List OutField) (s : S) (b : Bytes)
          → b ≡ encode_message os
          → All IsSendable os
          → parse_fields b fn s ≡ fold_fields fn os s
      parse_fields_of os s b e h =
          ap (λ b. parse_fields b fn s) e ∙ parse_fields-encode_message os s h

      parse_loop-Ends :
          (k : ℕ) (d : Bytes) (s : S)
          → length d ≤ k
          → ((s : S) (f : WireField) → length f.bytes < k → Ends (fn s f))
          → Ends (parse_loop fn k d s)
      unfolding parse_loop
      parse_loop-Ends k [] s hk h = tt
      parse_loop-Ends zero (b ∷ bs) s hk h = absurd (omega arith)
      parse_loop-Ends (suc k) (b ∷ bs) s hk h = elim (Result-cases (next_field (b ∷ bs))) [
        | inl ((f, rest), e) ↦
            let sh = next_field_shorter b bs f rest e in
            rw (e, parse_loop)
              (Ends-and_then (fn s f) (λ s'. parse_loop fn k rest s') (h s f (omega arith))
                (λ s'. parse_loop-Ends k rest s' (omega arith) (λ t g l. h t g (omega arith))))
        | inr (inl (x, e)) ↦ rw (e, parse_loop) tt
        | inr (inr e) ↦ absurd (rw e at (next_field-Returns (b ∷ bs)))
      ]

      -- `parseFields` ends if its closure does on every field whose content is shorter than the
      -- input, as the content of each field is.
      pub parse_fields-Ends :
          (d : Bytes) (s : S)
          → ((s : S) (f : WireField) → length f.bytes < length d → Ends (fn s f))
          → Ends (parse_fields d fn s)
      unfolding parse_fields
      parse_fields-Ends d s h = parse_loop-Ends (length d) d s (omega arith) h
