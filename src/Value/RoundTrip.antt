-- ===== src/Value/RoundTrip.antt =====
-- `decodeValue` reads back every value that `encodeValue` can send, and the depth limit is exact.
use monty_go.Common.{ℕ, suc, ◌+◌, ◌≤◌, ◌≡◌, Bytes, length, true, false, arith}
use monty_go.Errors.{ok}
use monty_go.Wire.Proto.{Protowire, Laws}
use monty_go.Value.{
  Value, Values, no_values, more_values, Pairs, no_pairs, more_pairs, nil_value, ellipsis,
  not_implemented, bool, int, big_int, float, complex, str, bytes_value, list, tuple, set,
  frozen_set, dict, named_tuple, date, time, date_time, time_delta, time_zone, exception, type_name,
  instance_type, builtin_function, path, file_handle, function, dataclass, class_type,
  class_instance, module_value, repr, cycle,
}
use monty_go.Wire.Message.{encode_field}
use monty_go.Value.Decode.{decode_value}
use monty_go.Value.Encode.{encode_value}
use monty_go.Value.Sent.{IsSent, AreSent, ArePairsSent, height, heights, pair_heights}
use monty_go.Value.Leaves.{
  Kept, Kept-nil, Kept-ellipsis, Kept-not_implemented, Kept-true, Kept-false, Kept-int,
  Kept-big_int, Kept-float, Kept-complex, Kept-str, Kept-bytes, Kept-builtin_function, Kept-path,
  Kept-date, Kept-time, Kept-date_time, Kept-time_delta, Kept-time_zone, Kept-exception,
  Kept-file_handle, Kept-function, Kept-type_name,
}
use monty_go.Value.Containers.{
  KeptValues, KeptPairs, Kept-list, Kept-tuple, Kept-set, Kept-frozen_set, Kept-dict,
  Kept-named_tuple, Kept-module, Kept-no_values, Kept-more_values, Kept-no_pairs, Kept-more_pairs,
  decode_loop-Kept,
}

module _ ⦃w : Protowire⦄ (laws : Laws w) where
  mutual
    pub kept : (v : Value) (d : ℕ) → IsSent v → d + height v ≤ 100 → Kept laws v d
    kept nil_value d h r = Kept-nil laws d (omega arith)
    kept ellipsis d h r = Kept-ellipsis laws d (omega arith)
    kept not_implemented d h r = Kept-not_implemented laws d (omega arith)
    kept (bool true) d h r = Kept-true laws d (omega arith)
    kept (bool false) d h r = Kept-false laws d (omega arith)
    kept (int z) d h r = Kept-int laws z d h (omega arith)
    kept (big_int z) d h r = Kept-big_int laws z d (omega arith)
    kept (float x) d h r = Kept-float laws x d h (omega arith)
    kept (complex re im) d h r = Kept-complex laws re im d h.0 h.1 (omega arith)
    kept (str s) d h r = Kept-str laws s d (omega arith)
    kept (bytes_value b) d h r = Kept-bytes laws b d (omega arith)
    kept (list xs) d h r =
        Kept-list laws xs d (omega arith) (Kept-values xs (suc d) h (omega arith))
    kept (tuple xs) d h r =
        Kept-tuple laws xs d (omega arith) (Kept-values xs (suc d) h (omega arith))
    kept (set xs) d h r = Kept-set laws xs d (omega arith) (Kept-values xs (suc d) h (omega arith))
    kept (frozen_set xs) d h r =
        Kept-frozen_set laws xs d (omega arith) (Kept-values xs (suc d) h (omega arith))
    kept (dict ps) d h r = Kept-dict laws ps d (omega arith) (Kept-pairs ps (suc d) h (omega arith))
    kept (named_tuple n ns xs) d h r =
        Kept-named_tuple laws n ns xs d (omega arith) (Kept-values xs (suc d) h (omega arith))
    kept (date x) d h r = Kept-date laws x d h (omega arith)
    kept (time x) d h r = Kept-time laws x d h (omega arith)
    kept (date_time x) d h r = Kept-date_time laws x d h (omega arith)
    kept (time_delta x) d h r = Kept-time_delta laws x d h (omega arith)
    kept (time_zone x) d h r = Kept-time_zone laws x d h (omega arith)
    kept (exception x) d h r = Kept-exception laws x d (omega arith)
    kept (type_name n) d h r = Kept-type_name laws n d (omega arith)
    kept (instance_type n) d h r = absurd h
    kept (builtin_function n) d h r = Kept-builtin_function laws n d (omega arith)
    kept (path p) d h r = Kept-path laws p d (omega arith)
    kept (file_handle x) d h r = Kept-file_handle laws x d h (omega arith)
    kept (function x) d h r = Kept-function laws x d (omega arith)
    kept (dataclass x ps) d h r = absurd h
    kept (class_type x ps) d h r = absurd h
    kept (class_instance x ps i qs) d h r = absurd h
    kept (module_value m ps) d h r =
        Kept-module laws m ps d (omega arith) h.0 (Kept-pairs ps (suc d) h.1 (omega arith))
    kept (repr s) d h r = absurd h
    kept (cycle i p) d h r = absurd h

    pub Kept-values :
        (xs : Values) (d : ℕ) → AreSent xs → d + heights xs ≤ 101 → KeptValues laws xs d
    Kept-values no_values d h r = Kept-no_values laws d
    Kept-values (more_values x xs) d (hx, hxs) r =
        Kept-more_values laws x xs d (kept x d hx (omega arith))
          (Kept-values xs d hxs (omega arith))

    pub Kept-pairs :
        (ps : Pairs) (d : ℕ) → ArePairsSent ps → d + pair_heights ps ≤ 101 → KeptPairs laws ps d
    Kept-pairs no_pairs d h r = Kept-no_pairs laws d
    Kept-pairs (more_pairs k v ps) d (hk, hv, hps) r =
        Kept-more_pairs laws k v ps d (kept k d hk (omega arith)) (kept v d hv (omega arith))
          (Kept-pairs ps d hps (omega arith))

  -- A value whose numbers are in range, which is nested at most 100 deep, and in which there is no
  -- instance type, dataclass, class type, class instance, representation or cycle, is encoded, and
  -- decoding the bytes gives the value back.
  pub decode_value-encode_value :
      (v : Value)
      → IsSent v
      → height v ≤ 100
      → (b : Bytes) × (encode_value v ≡ ok b) × (decode_value b ≡ ok v)
  unfolding encode_value decode_value
  decode_value-encode_value v h r =
      let k = kept v 0 h (omega arith) in
      (
        encode_field k.field_out,
        k.written,
        decode_loop-Kept laws v 0 (suc (length (encode_field k.field_out))) k
            (omega (arith, k.small)),
      )
