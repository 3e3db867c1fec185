-- ===== src/Snapshot/RoundTrip.antt =====
-- `decodeSnapshot` reads what `encodeSnapshot` wrote.
use monty_go.Common.{bytes_eq_refl}
use monty_go.Common.{
  ℕ, ◌^◌, ◌<◌, ◌≡◌, ◌∙◌, List, [], ◌∷◌, ◌++◌, Bytes, drop-append, append_assoc, append-nil,
  has_prefix-append, arith, Bool, true,
}
use monty_go.Common.Int.{ℤ, pos, negsuc, to_u64, to_u64-lt}
use monty_go.Errors.{Error, ok, err, ◌>>=◌, result_of}
use monty_go.Wire.Proto.{Protowire, Laws}
use monty_go.Wire.Fields.{field_string}
use monty_go.Wire.Message.{
  OutField, out_varint, out_bytes, encode_message, fold_fields, parse_fields-encode_message,
}
use monty_go.Snapshot.{
  SnapshotMetadata, runtime_version, snapshot_magic, snapshot_field, snapshot_result,
  blank_decoding, encode_snapshot, decode_snapshot,
}

abbrev snapshot_fields : Bytes → SnapshotMetadata → List OutField
snapshot_fields state m =
    out_bytes 1 state
    ∷ out_bytes 2 runtime_version
    ∷ out_varint 3 (to_u64 m.duration)
    ∷ out_varint 4 m.suspensions
    ∷ out_varint 5 (to_u64 m.sleep_used)
    ∷ []

abbrev pub metadata : ℤ → ℕ → ℤ → Bool → SnapshotMetadata
metadata d n u known = record {
  duration = d;
  suspensions = n;
  sleep_used = u;
  has_sleep_usage = known;
}

module _ ⦃w : Protowire⦄ where
  encode_snapshot-message :
      (state : Bytes) (m : SnapshotMetadata)
      → encode_snapshot state m ≡ snapshot_magic ++ encode_message (snapshot_fields state m)
  unfolding encode_snapshot field_string
  encode_snapshot-message state m = simp (append_assoc, append-nil)

  module _ (laws : Laws w) where
    decode_snapshot-fields :
        (state : Bytes) (m : SnapshotMetadata)
        → m.suspensions < 2 ^ 64
        → decode_snapshot (encode_snapshot state m) ≡ (
            result_of (fold_fields snapshot_field (snapshot_fields state m) blank_decoding)
            >>= snapshot_result)
    unfolding decode_snapshot
    decode_snapshot-fields state m h = rw (
      encode_snapshot-message state m,
      has_prefix-append snapshot_magic (encode_message (snapshot_fields state m)),
      drop-append snapshot_magic (encode_message (snapshot_fields state m)),
      parse_fields-encode_message laws snapshot_field (snapshot_fields state m) blank_decoding
          (omega (arith, to_u64-lt m.duration, to_u64-lt m.sleep_used)),
    )

    -- A dump of a state that is not empty, with budgets that are not negative, is read back as it
    -- was, and marks the sleep usage as known.
    pub decode_snapshot-encode_snapshot :
        (x : ℕ) (xs : Bytes) (d n u : ℕ) (known : Bool)
        → d < 2 ^ 63
        → n < 2 ^ 64
        → u < 2 ^ 63
        → let m = metadata (pos d) n (pos u) in
          decode_snapshot (encode_snapshot (x ∷ xs) (m known)) ≡ ok (x ∷ xs, m true)
    decode_snapshot-encode_snapshot x xs d n u known hd hn hu =
        decode_snapshot-fields (x ∷ xs) (metadata (pos d) n (pos u) known) hn
        ∙ unfold snapshot_field snapshot_result in ground (arith, bytes_eq_refl runtime_version)

    -- A dump of a session whose budget is negative cannot be loaded.
    pub decode_snapshot-encode_snapshot_negative :
        (state : Bytes) (d : ℕ) (m : SnapshotMetadata)
        → m.duration ≡ negsuc d
        → d < 2 ^ 63
        → m.suspensions < 2 ^ 64
        → decode_snapshot (encode_snapshot state m) ≡ err Error.invalid_snapshot_duration
    decode_snapshot-encode_snapshot_negative state d m e hd hn =
        decode_snapshot-fields state m hn
        ∙ unfold snapshot_field snapshot_result in ground (arith, bytes_eq_refl runtime_version)
