-- ===== src/Examples/Snapshots.antt =====
-- Snapshots at concrete inputs.
use monty_go.Common.{◌<◌, ◌≡◌, [], ◌∷◌, Bytes, refl, true, false, has_prefix, arith, Bool}
use monty_go.Common.Int.{pos, negsuc}
use monty_go.Errors.{Error, ok, err}
use monty_go.Snapshot.{SnapshotMetadata, snapshot_magic, encode_snapshot, decode_snapshot}
use monty_go.Snapshot.RoundTrip.{
  metadata, decode_snapshot-encode_snapshot, decode_snapshot-encode_snapshot_negative,
}
use monty_go.Snapshot.Checks.{IsBudget, decode_snapshot_ok}
use monty_go.Wire.Plain.{plain, plain-Laws}

abbrev budget : Bool → SnapshotMetadata
budget = metadata (pos 5_000_000_000) 3 (pos 250)

abbrev small_dump : Bytes
small_dump = encode_snapshot (1 ∷ 2 ∷ []) (budget false)

decode_snapshot-encode_snapshot_example : decode_snapshot small_dump ≡ ok (1 ∷ 2 ∷ [], budget true)
decode_snapshot-encode_snapshot_example =
    decode_snapshot-encode_snapshot plain-Laws 1 (2 ∷ []) 5_000_000_000 3 250 false (omega arith)
      (omega arith) (omega arith)

decode_snapshot-encode_snapshot_negative_example :
    decode_snapshot (encode_snapshot (1 ∷ []) (metadata (negsuc 0) 0 (pos 0) true))
    ≡ err Error.invalid_snapshot_duration
decode_snapshot-encode_snapshot_negative_example =
    decode_snapshot-encode_snapshot_negative plain-Laws (1 ∷ []) 0
      (metadata (negsuc 0) 0 (pos 0) true) refl (omega arith) (omega arith)

decode_snapshot_ok_example :
    (has_prefix small_dump snapshot_magic ≡ true) × (0 < 2) × IsBudget (budget true)
decode_snapshot_ok_example =
    decode_snapshot_ok small_dump (1 ∷ 2 ∷ []) (budget true) decode_snapshot-encode_snapshot_example
