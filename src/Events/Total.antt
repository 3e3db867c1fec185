-- ===== src/Events/Total.antt =====
-- The decoders of events return on every input.
use monty_go.Common.{ℕ, Bytes, arith, ◌==◌}
use monty_go.Errors.{Returns}
use monty_go.Wire.Proto.{Protowire, Laws}
use monty_go.Wire.Returns.{
  Ends-check_in, Returns->>=, Returns-result, Ends-if, Returns-if, parse-Returns,
  parse-Returns_plain, indexes-Ends,
}
use monty_go.Value.Total.{decode_uuid-Returns}
use monty_go.Arena.Decode.{message_arena}
use monty_go.Arena.Total.{
  arena_ref-Returns, arena_refs-Returns, arena_pairs-Returns, decode_arena-Returns,
}
use monty_go.Events.{
  event_field, event_result, decode_event, index_value, decode_complete, call_field,
  decode_function_call,
}

module _ ⦃w : Protowire⦄ (laws : Laws w) where
  pub message_arena-Returns : (b : Bytes) (tag : ℕ) → Returns (message_arena b tag)
  unfolding message_arena
  message_arena-Returns b tag = decode_arena-Returns laws _

  decode_event-Returns : (b : Bytes) → Returns (decode_event b)
  unfolding decode_event
  decode_event-Returns b =
      parse-Returns laws b event_field _ event_result (λ s f l. unfold event_field in ground arith)
        (λ s. Returns-if (s.kind == 0) _ _ tt tt)

  decode_complete-Returns : (b : Bytes) → Returns (decode_complete b)
  unfolding decode_complete
  decode_complete-Returns b = Returns->>= _ _ (message_arena-Returns b 2) λ values.
      parse-Returns laws b index_value 0 _ (λ s f l. unfold index_value in tt)
        (λ i. arena_ref-Returns values i)

  decode_function_call-Returns : (b : Bytes) → Returns (decode_function_call b)
  unfolding decode_function_call
  decode_function_call-Returns b = Returns->>= _ _ (message_arena-Returns b 7) λ values.
      Returns->>= _ _ (Returns-result _ (indexes-Ends laws b 2)) λ ids.
        Returns->>= _ _ (arena_refs-Returns values ids) λ args.
          parse-Returns_plain laws b (call_field values) _ λ s f l.
            unfold call_field in
            Ends-if (f.tag == 3) _ _
              (Ends-check_in s _ _ (arena_pairs-Returns laws values _) (λ d. tt))
              (Ends-if (f.tag == 4) _ _ tt (
                Ends-if (f.tag == 5) _ _
                  (Ends-check_in s _ _ (decode_uuid-Returns laws f.bytes) (λ id. tt))
                  (Ends-if (f.tag == 6) _ _ tt tt)))

  -- The decoders of an event, of a completed feed and of a function call return on every input.
  pub decode_events-Returns :
      (b : Bytes)
      → Returns (decode_event b) × Returns (decode_complete b) × Returns (decode_function_call b)
  decode_events-Returns b =
      (decode_event-Returns b, decode_complete-Returns b, decode_function_call-Returns b)
