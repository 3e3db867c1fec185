-- ===== src/Examples/Values.antt =====
-- Values at concrete inputs.
use monty_go.Common.{ℕ, zero, suc, ◌≡◌, [], ◌∷◌, Bytes, text, none, some, arith}
use monty_go.Common.Int.{pos, negsuc}
use monty_go.Errors.{Error, ok, err, Returns}
use monty_go.Value.{
  Value, no_values, more_values, no_pairs, more_pairs, int, big_int, str, list, dict, date_time,
  named_tuple,
}
use monty_go.Value.Decode.{decode_value}
use monty_go.Value.Encode.{encode_value}
use monty_go.Value.RoundTrip.{decode_value-encode_value}
use monty_go.Value.Depth.{encode_value_too_deep}
use monty_go.Value.Total.{decode_value-Returns}
use monty_go.Wire.Plain.{plain, plain-Laws}

abbrev moment : Value
moment = date_time (record {
  date = record { year = negsuc 0; month = pos 2; day = pos 29 };
  hour = pos 23;
  minute = pos 59;
  second = pos 0;
  microsecond = pos 1;
  offset_seconds = some (negsuc 3599);
  timezone_name = none;
})

abbrev sample : Value
sample = list (
    more_values (dict (more_pairs (str (text "k")) moment no_pairs)) (
      more_values (named_tuple (text "P") (text "x" ∷ []) (more_values (int (negsuc 41)) no_values))
        (more_values (big_int (negsuc 0x1_0000_0000_0000_0000)) no_values)))

decode_value-encode_value_example :
    (b : Bytes) × (encode_value sample ≡ ok b) × (decode_value b ≡ ok sample)
decode_value-encode_value_example =
    decode_value-encode_value plain-Laws sample (omega arith) (omega arith)

-- `n` lists around a number.
nested : ℕ → Value
nested zero = int (pos 1)
nested (suc n) = list (more_values (nested n) no_values)

encode_value_too_deep_example : encode_value (nested 101) ≡ err Error.depth_exceeded
unfolding nested
encode_value_too_deep_example =
    encode_value_too_deep plain-Laws (nested 101) (omega arith) (omega arith)

decode_value-Returns_example : Returns (decode_value (0x5a ∷ 0x02 ∷ 0x0a ∷ []))
decode_value-Returns_example = decode_value-Returns plain-Laws (0x5a ∷ 0x02 ∷ 0x0a ∷ [])
