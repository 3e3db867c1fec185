-- ===== src/Value/Sent.antt =====
-- The values that can be sent: their ranges, and how deep they are.
use monty_go.Common.{ℕ, suc, ◌≡◌, length, max}
use monty_go.Common.Int.{IsInt32, IsInt64}
use monty_go.Wire.Proto.{IsU64}
use monty_go.Value.{
  Value, Values, no_values, more_values, Pairs, no_pairs, more_pairs, nil_value, ellipsis,
  not_implemented, bool, int, big_int, float, complex, str, bytes_value, list, tuple, set,
  frozen_set, dict, named_tuple, date, time, date_time, time_delta, time_zone, exception, type_name,
  instance_type, builtin_function, path, file_handle, function, dataclass, class_type,
  class_instance, module_value, repr, cycle,
}
use monty_go.Value.Flat.Dates.{IsDate, IsTime, IsDateTime, IsTimeDelta}

-- Machine numbers are in their range, an identity has 16 bytes. The last six kinds are refused by
-- `encode`, or sent as another kind: none of them may stand anywhere in the value.
abbrev mutual
  pub IsSent : Value → Type 0
  IsSent nil_value = Unit {0}
  IsSent ellipsis = Unit {0}
  IsSent not_implemented = Unit {0}
  IsSent (bool b) = Unit {0}
  IsSent (int z) = IsInt64 z
  IsSent (big_int z) = Unit {0}
  IsSent (float x) = IsU64 x
  IsSent (complex re im) = IsU64 re × IsU64 im
  IsSent (str s) = Unit {0}
  IsSent (bytes_value b) = Unit {0}
  IsSent (list xs) = AreSent xs
  IsSent (tuple xs) = AreSent xs
  IsSent (set xs) = AreSent xs
  IsSent (frozen_set xs) = AreSent xs
  IsSent (dict ps) = ArePairsSent ps
  IsSent (named_tuple n ns xs) = AreSent xs
  IsSent (date x) = IsDate x
  IsSent (time x) = IsTime x
  IsSent (date_time x) = IsDateTime x
  IsSent (time_delta x) = IsTimeDelta x
  IsSent (time_zone x) = IsInt32 x.offset_seconds
  IsSent (exception x) = Unit {0}
  IsSent (type_name n) = Unit {0}
  IsSent (builtin_function n) = Unit {0}
  IsSent (path p) = Unit {0}
  IsSent (file_handle x) = IsU64 x.position
  IsSent (function x) = Unit {0}
  IsSent (module_value m ps) = (length m.id ≡ 16) × ArePairsSent ps
  IsSent (instance_type n) = ⊥
  IsSent (dataclass h ps) = ⊥
  IsSent (class_type h ps) = ⊥
  IsSent (class_instance h ps i qs) = ⊥
  IsSent (repr s) = ⊥
  IsSent (cycle i p) = ⊥

  pub AreSent : Values → Type 0
  AreSent no_values = Unit {0}
  AreSent (more_values x xs) = IsSent x × AreSent xs

  pub ArePairsSent : Pairs → Type 0
  ArePairsSent no_pairs = Unit {0}
  ArePairsSent (more_pairs k v ps) = IsSent k × IsSent v × ArePairsSent ps

-- How many containers stand around the innermost value.
abbrev mutual
  pub height : Value → ℕ
  height (list xs) = heights xs
  height (tuple xs) = heights xs
  height (set xs) = heights xs
  height (frozen_set xs) = heights xs
  height (dict ps) = pair_heights ps
  height (named_tuple n ns xs) = heights xs
  height (module_value m ps) = pair_heights ps
  height _ = 0

  pub heights : Values → ℕ
  heights no_values = 0
  heights (more_values x xs) = max (suc (height x)) (heights xs)

  pub pair_heights : Pairs → ℕ
  pair_heights no_pairs = 0
  pair_heights (more_pairs k v ps) = max (max (suc (height k)) (suc (height v))) (pair_heights ps)
