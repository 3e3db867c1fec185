-- ===== src/Value/Depth.antt =====
-- `encodeValue` refuses exactly the values that are nested too deep, at any starting depth.
use monty_go.Common.{ℕ, suc, ◌+◌, ◌≤◌, ◌<◌, ◌≡◌, ◌⊎◌, inl, inr, arith}
use monty_go.Errors.{Error, Result, err}
use monty_go.Wire.Proto.{Protowire, Laws}
use monty_go.Value.{
  Value, Values, no_values, more_values, Pairs, no_pairs, more_pairs, nil_value, ellipsis,
  not_implemented, bool, int, big_int, float, complex, str, bytes_value, list, tuple, set,
  frozen_set, dict, named_tuple, date, time, date_time, time_delta, time_zone, exception, type_name,
  instance_type, builtin_function, path, file_handle, function, dataclass, class_type,
  class_instance, module_value, repr, cycle,
}
use monty_go.Value.Encode.{at_depth, encode, encode_values, encode_pairs, encode_value}
use monty_go.Value.Sent.{IsSent, AreSent, ArePairsSent, height, heights, pair_heights}
use monty_go.Value.RoundTrip.{kept}

le-or-lt : (a b : ℕ) → (a ≤ b) ⊎ (b < a)
le-or-lt a b = grind arith

at_depth-deep {ℓ} :
    {A : Type ℓ} (d : ℕ) (r : Result A)
    → (d ≤ 100 → r ≡ err Error.depth_exceeded)
    → at_depth d r ≡ err Error.depth_exceeded
at_depth-deep d r h = elim (le-or-lt d 100) [
  | inl m ↦ rw (h m) (ground arith)
  | inr m ↦ ground arith
]

module _ ⦃w : Protowire⦄ (laws : Laws w) where
  deep_more_values :
      (tag : ℕ) (x : Value) (xs : Values) (d : ℕ)
      → AreSent (more_values x xs)
      → 101 < d + heights (more_values x xs)
      → (100 < d + height x → encode x d ≡ err Error.depth_exceeded)
      → (101 < d + heights xs → encode_values tag xs d ≡ err Error.depth_exceeded)
      → encode_values tag (more_values x xs) d ≡ err Error.depth_exceeded
  unfolding encode_values
  deep_more_values tag x xs d (hx, hxs) r head tail = elim (le-or-lt (d + height x) 100) [
    | inl fits ↦ rw ((kept laws x d hx fits).written, tail (omega arith))
    | inr deep ↦ rw (head deep)
  ]

  deep_more_pairs :
      (k v : Value) (ps : Pairs) (d : ℕ)
      → ArePairsSent (more_pairs k v ps)
      → 101 < d + pair_heights (more_pairs k v ps)
      → (100 < d + height k → encode k d ≡ err Error.depth_exceeded)
      → (100 < d + height v → encode v d ≡ err Error.depth_exceeded)
      → (101 < d + pair_heights ps → encode_pairs ps d ≡ err Error.depth_exceeded)
      → encode_pairs (more_pairs k v ps) d ≡ err Error.depth_exceeded
  unfolding encode_pairs
  deep_more_pairs k v ps d (hk, hv, hps) r key value tail = elim (le-or-lt (d + height k) 100) [
    | inr deep ↦ rw (key deep)
    | inl fits ↦ elim (le-or-lt (d + height v) 100) [
      | inr deep ↦ rw ((kept laws k d hk fits).written, value deep)
      | inl room ↦
          rw ((kept laws k d hk fits).written, (kept laws v d hv room).written, tail (omega arith))
    ]
  ]

  mutual
    unfolding encode

    deep :
        (v : Value) (d : ℕ) → IsSent v → 100 < d + height v → encode v d ≡ err Error.depth_exceeded
    deep nil_value d h r = at_depth-deep d _ (λ m. absurd (omega arith))
    deep ellipsis d h r = at_depth-deep d _ (λ m. absurd (omega arith))
    deep not_implemented d h r = at_depth-deep d _ (λ m. absurd (omega arith))
    deep (bool b) d h r = at_depth-deep d _ (λ m. absurd (omega arith))
    deep (int z) d h r = at_depth-deep d _ (λ m. absurd (omega arith))
    deep (big_int z) d h r = at_depth-deep d _ (λ m. absurd (omega arith))
    deep (float x) d h r = at_depth-deep d _ (λ m. absurd (omega arith))
    deep (complex re im) d h r = at_depth-deep d _ (λ m. absurd (omega arith))
    deep (str s) d h r = at_depth-deep d _ (λ m. absurd (omega arith))
    deep (bytes_value b) d h r = at_depth-deep d _ (λ m. absurd (omega arith))
    deep (list xs) d h r =
        at_depth-deep d _ (λ m. rw (deep_values 1 xs (suc d) h (omega arith) (omega arith)))
    deep (tuple xs) d h r =
        at_depth-deep d _ (λ m. rw (deep_values 1 xs (suc d) h (omega arith) (omega arith)))
    deep (set xs) d h r =
        at_depth-deep d _ (λ m. rw (deep_values 1 xs (suc d) h (omega arith) (omega arith)))
    deep (frozen_set xs) d h r =
        at_depth-deep d _ (λ m. rw (deep_values 1 xs (suc d) h (omega arith) (omega arith)))
    deep (named_tuple n ns xs) d h r =
        at_depth-deep d _ (λ m. rw (deep_values 3 xs (suc d) h (omega arith) (omega arith)))
    deep (dict ps) d h r =
        at_depth-deep d _ (λ m. rw (deep_pairs ps (suc d) h (omega arith) (omega arith)))
    deep (module_value m ps) d h r =
        at_depth-deep d _ (λ m. rw (deep_pairs ps (suc d) h.1 (omega arith) (omega arith)))
    deep (date x) d h r = at_depth-deep d _ (λ m. absurd (omega arith))
    deep (time x) d h r = at_depth-deep d _ (λ m. absurd (omega arith))
    deep (date_time x) d h r = at_depth-deep d _ (λ m. absurd (omega arith))
    deep (time_delta x) d h r = at_depth-deep d _ (λ m. absurd (omega arith))
    deep (time_zone x) d h r = at_depth-deep d _ (λ m. absurd (omega arith))
    deep (exception x) d h r = at_depth-deep d _ (λ m. absurd (omega arith))
    deep (type_name n) d h r = at_depth-deep d _ (λ m. absurd (omega arith))
    deep (builtin_function n) d h r = at_depth-deep d _ (λ m. absurd (omega arith))
    deep (path p) d h r = at_depth-deep d _ (λ m. absurd (omega arith))
    deep (file_handle x) d h r = at_depth-deep d _ (λ m. absurd (omega arith))
    deep (function x) d h r = at_depth-deep d _ (λ m. absurd (omega arith))
    deep (instance_type n) d h r = absurd h
    deep (dataclass x ps) d h r = absurd h
    deep (class_type x ps) d h r = absurd h
    deep (class_instance x ps i qs) d h r = absurd h
    deep (repr s) d h r = absurd h
    deep (cycle i p) d h r = absurd h

    deep_values :
        (tag : ℕ) (xs : Values) (d : ℕ)
        → AreSent xs
        → d ≤ 101
        → 101 < d + heights xs
        → encode_values tag xs d ≡ err Error.depth_exceeded
    deep_values tag no_values d h m r = absurd (omega arith)
    deep_values tag (more_values x xs) d h m r =
        deep_more_values tag x xs d h r (deep x d h.0) (deep_values tag xs d h.1 m)

    deep_pairs :
        (ps : Pairs) (d : ℕ)
        → ArePairsSent ps
        → d ≤ 101
        → 101 < d + pair_heights ps
        → encode_pairs ps d ≡ err Error.depth_exceeded
    deep_pairs no_pairs d h m r = absurd (omega arith)
    deep_pairs (more_pairs k v ps) d h m r =
        deep_more_pairs k v ps d h r (deep k d h.0) (deep v d h.1) (deep_pairs ps d h.2 m)

  -- A value whose numbers are in range, which is nested more than 100 deep, and in which there is no
  -- instance type, dataclass, class type, class instance, representation or cycle, is refused as too
  -- deep, wherever in it the depth is.
  pub encode_value_too_deep :
      (v : Value) → IsSent v → 100 < height v → encode_value v ≡ err Error.depth_exceeded
  unfolding encode_value
  encode_value_too_deep v h r = deep v 0 h (omega arith)
