-- ===== src/Examples/Policies.antt =====
-- OS policies at concrete inputs.
use monty_go.Common.{◌≡◌, refl, [], ◌∷◌, none, some, text, bytes_eq}
use monty_go.Common.Int.{pos, negsuc}
use monty_go.OsPolicy.{OsPolicy, integer_seed, encode_os_policy}
use monty_go.OsPolicy.Cap.{IsCap, encode_os_policy-IsCap}
use monty_go.Errors.{ok}
use monty_go.Wire.Plain.{plain}
use monty_go.Wire.Fields.{field_message, field_bytes, field_varint}
use monty_go.OsPolicy.Seeds.{signed_number, signed_number-integer_seed}

-- -128 takes two bytes, since its magnitude has eight bits.
two_bytes : integer_seed (negsuc 127) ≡ 128 ∷ 255 ∷ []
unfolding integer_seed
two_bytes = refl

signed_number-integer_seed_example : signed_number (integer_seed (negsuc 299)) ≡ negsuc 299
signed_number-integer_seed_example = signed_number-integer_seed (negsuc 299)

-- Sleeps of at most 1.5 microseconds, and an elapsed process clock.
abbrev policy : OsPolicy
policy = record {
  date_time = [];
  fixed_date_time = none;
  time_zone = [];
  fixed_time_zone = none;
  sleep = text "system";
  sleep_system_max = some (pos 1500);
  random = [];
  random_seed = none;
  process_time = text "elapsed";
}

policy_sent : encode_os_policy policy ≡ ok (42 ∷ 4 ∷ 10 ∷ 2 ∷ 8 ∷ 1 ∷ 82 ∷ 0 ∷ [], pos 1000)
unfolding encode_os_policy plain bytes_eq field_message field_bytes field_varint
policy_sent = refl

encode_os_policy-IsCap_example : IsCap (pos 1000)
encode_os_policy-IsCap_example = encode_os_policy-IsCap policy _ _ policy_sent
