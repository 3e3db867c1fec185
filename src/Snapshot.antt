-- ===== src/Snapshot.antt =====
-- snapshot.go: the dump of a session, the worker's opaque state beside the budgets that the host
-- keeps. A `time.Duration` is an integer of nanoseconds.
pub mod RoundTrip
pub mod Checks
use monty_go.Common.{
  ℕ, zero, suc, ◌+◌, ◌^◌, ◌≡◌, List, [], ◌∷◌, ◌++◌, Bytes, length, drop, Bool, true, false, not,
  ◌==◌, ◌&&◌, ◌||◌, ltb, leb, if◌then◌else◌, text, has_prefix, contains, bytes_eq,
}
use monty_go.Common.Int.{ℤ, pos, negsuc, to_u64}
use monty_go.Errors.{
  Error, Result, ok, err, stuck, ◌>>=◌, Run, done, fail, out_of_fuel, and_then, result_of,
}
use monty_go.Wire.Proto.{Protowire, is_varint, is_bytes}
use monty_go.Wire.Fields.{WireField, field_varint, field_bytes, field_string}
use monty_go.Wire.Parse.{parse_fields}

abbrev pub runtime_version : Bytes
runtime_version = text "1.2.0"

abbrev pub snapshot_magic : Bytes
snapshot_magic = text "monty-go snapshot" ++ (0 ∷ 1 ∷ [])

-- `type snapshotMetadata struct`.
pub record SnapshotMetadata : Type 0 where
  pub duration : ℤ
  pub suspensions : ℕ
  pub sleep_used : ℤ
  pub has_sleep_usage : Bool

-- The variables that the closure of `decodeSnapshot` assigns; `seen` lists the keys of the map.
pub record Decoding : Type 0 where
  pub state : Bytes
  pub version : Bytes
  pub meta : SnapshotMetadata
  pub seen : List ℕ

abbrev pub blank_decoding : Decoding
blank_decoding = record {
  state = [];
  version = [];
  meta = record { duration = pos 0; suspensions = 0; sleep_used = pos 0; has_sleep_usage = false };
  seen = [];
}

-- `expected` is varint, and bytes for the tags up to 2.
abbrev is_expected : WireField → Bool
is_expected f = if leb f.tag 2 then is_bytes f.type_ else is_varint f.type_

abbrev max_int64 : ℕ
max_int64 = 0x7fff_ffff_ffff_ffff

-- The last switch of the closure, on a tag from 1 to 5.
unfoldable pub snapshot_value : Decoding → WireField → Run Decoding
snapshot_value d f =
    if f.tag == 1
    then done (record d { state = f.bytes })
    else if f.tag == 2
    then done (record d { version = f.bytes })
    else if f.tag == 3
    then (if ltb max_int64 f.varint
        then fail Error.invalid_snapshot_duration d
        else done (record d { meta = record (d.meta) { duration = pos f.varint } }))
    else if f.tag == 4
    then done (record d { meta = record (d.meta) { suspensions = f.varint } })
    else (if ltb max_int64 f.varint
        then fail Error.invalid_sleep_usage d
        else done (record d {
          meta = record (d.meta) { sleep_used = pos f.varint; has_sleep_usage = true };
        }))

unfoldable pub snapshot_field : Decoding → WireField → Run Decoding
unfolding snapshot_value contains
snapshot_field d f =
    if ltb f.tag 1 || ltb 5 f.tag
    then done d
    else if contains f.tag d.seen
    then fail (Error.snapshot_field_repeated f.tag) d
    else let d' = record d { seen = f.tag ∷ d.seen } in
      if not (is_expected f) then fail (Error.snapshot_wire_type f.tag) d' else snapshot_value d' f

-- The checks after the fields are read.
unfoldable pub snapshot_result : Decoding → Result (Bytes × SnapshotMetadata)
snapshot_result d =
    if length d.state == 0
    then err Error.no_worker_state
    else if not (bytes_eq d.version runtime_version)
    then err (Error.snapshot_version d.version)
    else ok (d.state, d.meta)

module _ ⦃w : Protowire⦄ where
  unfoldable pub encode_snapshot : Bytes → SnapshotMetadata → Bytes
  unfolding field_bytes field_string field_varint
  encode_snapshot state m =
      let b = snapshot_magic ++ field_bytes 1 state in
      let b = b ++ field_string 2 runtime_version in
      let b = b ++ field_varint 3 (to_u64 m.duration) in
      let b = b ++ field_varint 4 m.suspensions in b ++ field_varint 5 (to_u64 m.sleep_used)

  unfoldable pub decode_snapshot : Bytes → Result (Bytes × SnapshotMetadata)
  decode_snapshot data' =
      if not (has_prefix data' snapshot_magic) then err Error.invalid_snapshot_format else (do
        d ←
            result_of
              (parse_fields (drop data' (length snapshot_magic)) snapshot_field blank_decoding)
        snapshot_result d)
