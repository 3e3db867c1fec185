-- ===== src/Snapshot/Checks.antt =====
-- What `decodeSnapshot` guarantees of any input, well formed or not.
use monty_go.Common.{
  ◌^◌, ◌<◌, ◌≡◌, sym, Bytes, length, drop, arith, Bool-cases, true, inl, inr, has_prefix,
  bytes_eq→eq,
}
use monty_go.Common.Int.{ℤ, pos, negsuc}
use mathlib.Core.Path.{subst}
use monty_go.Errors.{ok, done, Ends, Returns, Returns-result_of, Run-cases}
use monty_go.Wire.Proto.{Protowire, Laws}
use monty_go.Wire.Fields.{WireField}
use monty_go.Wire.Parse.{parse_fields}
use monty_go.Wire.Message.{parse_fields-Ends}
use monty_go.Wire.Invariant.{parse_fields_inv}
use monty_go.Snapshot.{
  SnapshotMetadata, Decoding, runtime_version, snapshot_magic, snapshot_field, snapshot_result,
  blank_decoding, decode_snapshot,
}

-- A duration that `time.Duration` holds and that is not negative.
abbrev pub IsDuration : ℤ → Type 0
IsDuration (pos n) = n < 2 ^ 63
IsDuration (negsuc n) = ⊥

pub record IsBudget (m : SnapshotMetadata) : Type 0 where
  pub duration_fits : IsDuration m.duration
  pub sleep_fits : IsDuration m.sleep_used

snapshot_field-IsBudget :
    (d : Decoding) (f : WireField) (d' : Decoding)
    → IsBudget d.meta
    → snapshot_field d f ≡ done d'
    → IsBudget d'.meta
unfolding snapshot_field
snapshot_field-IsBudget d f d' h e = ground arith

snapshot_field-Ends : (d : Decoding) (f : WireField) → Ends (snapshot_field d f)
unfolding snapshot_field
snapshot_field-Ends d f = ground arith

snapshot_result_ok :
    (d : Decoding) (state : Bytes) (m : SnapshotMetadata)
    → snapshot_result d ≡ ok (state, m)
    → (0 < length state) × (m ≡ d.meta) × (d.version ≡ runtime_version)
unfolding snapshot_result
snapshot_result_ok d state m e = ground (arith, bytes_eq→eq d.version runtime_version)

snapshot_result-Returns : (d : Decoding) → Returns (snapshot_result d)
unfolding snapshot_result
snapshot_result-Returns d = ground arith

abbrev fields_of : Bytes → Bytes
fields_of b = drop b (length snapshot_magic)

blank-IsBudget : IsBudget blank_decoding.meta
blank-IsBudget = omega arith

module _ ⦃w : Protowire⦄ where
  -- A snapshot that is accepted has the magic prefix, a worker state, and budgets that are
  -- durations in range and not negative.
  pub decode_snapshot_ok :
      (b state : Bytes) (m : SnapshotMetadata)
      → decode_snapshot b ≡ ok (state, m)
      → (has_prefix b snapshot_magic ≡ true) × (0 < length state) × IsBudget m
  unfolding decode_snapshot
  decode_snapshot_ok b state m e = elim (Bool-cases (has_prefix b snapshot_magic)) [
    | inr bad ↦ cc (rw bad at e)
    | inl magic ↦ elim (Run-cases (parse_fields (fields_of b) snapshot_field blank_decoding)) [
      | inl (d, r) ↦
          let (filled, kept, _) = snapshot_result_ok d state m (rw (magic, r) at e) in
          let known =
            parse_fields_inv (λ d. IsBudget d.meta) snapshot_field snapshot_field-IsBudget
              (fields_of b) blank_decoding d blank-IsBudget r in
          (magic, filled, subst IsBudget (sym kept) known)
      | inr (inl (x, d, r)) ↦ cc (rw (magic, r) at e)
      | inr (inr (d, r)) ↦ cc (rw (magic, r) at e)
    ]
  ]

  -- `decodeSnapshot` returns on every input.
  pub decode_snapshot-Returns : Laws w → (b : Bytes) → Returns (decode_snapshot b)
  unfolding decode_snapshot
  decode_snapshot-Returns laws b =
      let ends =
        parse_fields-Ends laws snapshot_field (fields_of b) blank_decoding
          (λ s f _. snapshot_field-Ends s f) in
      elim (Bool-cases (has_prefix b snapshot_magic)) [
        | inr bad ↦ rw bad tt
        | inl magic ↦ rw magic (Returns-result_of _ snapshot_result ends snapshot_result-Returns)
      ]
