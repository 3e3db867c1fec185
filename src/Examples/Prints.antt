-- ===== src/Examples/Prints.antt =====
-- Collectors and events at concrete inputs.
use monty_go.Common.{◌≡◌, ◌≤◌, refl, ap, List, [], ◌∷◌, length, text, arith}
use monty_go.Common.Int.{pos}
use monty_go.Errors.{ok, Returns, result_of, ◌>>=◌}
use monty_go.Wire.Message.{OutField, out_varint, out_bytes, encode_message, parse_fields_of}
use monty_go.Wire.Plain.{plain, plain-Laws}
use monty_go.Print.{CollectedStreamEntry, new_collector}
use monty_go.Print.Cap.{
  write_strings, write_streams, write_strings-new_collector, write_streams-new_collector,
}
use monty_go.Events.{
  ChildEvent, blank_event, decode_event, decode_complete, decode_function_call, event_field,
  event_result,
}
use monty_go.Events.Kinds.{count_kinds, decode_event_one_kind}
use monty_go.Events.Total.{decode_events-Returns}

write_strings-new_collector_example :
    let c = write_strings (new_collector (pos 5)) (text "ab" ∷ text "cdef" ∷ text "g" ∷ []) in
    (c.output ≡ text "ab") × (length c.output ≤ 5)
write_strings-new_collector_example =
    write_strings-new_collector 5 (text "ab" ∷ text "cdef" ∷ text "g" ∷ [])

abbrev entry_a : CollectedStreamEntry
entry_a = record { stream = 1; chunk = text "ab" }

abbrev entry_b : CollectedStreamEntry
entry_b = record { stream = 2; chunk = text "cdef" }

write_streams-new_collector_example :
    (write_streams (new_collector (pos 5)) (entry_a ∷ entry_b ∷ [])).output ≡ entry_a ∷ []
write_streams-new_collector_example = write_streams-new_collector 5 (entry_a ∷ entry_b ∷ [])

-- The event of a completed feed, with the time that it took.
abbrev event_fields : List OutField
event_fields = out_bytes 6 (8 ∷ 0 ∷ []) ∷ out_varint 20 17 ∷ []

abbrev completed : ChildEvent
completed = record blank_event { kind = 6; body = 8 ∷ 0 ∷ []; total_execution_micros = 17 }

event_decoded : decode_event (encode_message event_fields) ≡ ok completed
unfolding decode_event event_field
event_decoded =
    ap (λ r. result_of r >>= event_result)
      (parse_fields_of plain-Laws event_field event_fields blank_event (encode_message event_fields)
        refl (omega arith))

decode_event_one_kind_example : count_kinds event_fields ≡ 1
decode_event_one_kind_example =
    decode_event_one_kind plain-Laws event_fields completed (omega arith) event_decoded

decode_events-Returns_example :
    Returns (decode_event (0x0a ∷ []))
    × Returns (decode_complete (0x0a ∷ []))
    × Returns (decode_function_call (0x0a ∷ []))
decode_events-Returns_example = decode_events-Returns plain-Laws (0x0a ∷ [])
