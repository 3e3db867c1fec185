-- ===== src/Arena/Prefix.antt =====
-- The values of an arena are decoded in order, each from its own node and the values before it.
use monty_go.Common.{
  ◌+◌, ◌^◌, ◌<◌, ◌≡◌, refl, ap, ◌∙◌, sym, List, [], ◌∷◌, ◌++◌, append_assoc, append-nil, Bytes,
  length, length-append, arith, All,
}
use monty_go.Errors.{
  Result, ok, Run, done, result_of, check_in, result_of-ok, check_in-done, and_then, done-injective,
}
use monty_go.Wire.Proto.{Protowire, Laws}
use monty_go.Wire.Fields.{field_message, field_varint}
use monty_go.Wire.Message.{
  OutField, out_varint, out_bytes, IsSendable, fold_fields, encode_message, parse_fields_of,
}
use monty_go.Value.{Value}
use monty_go.Arena.Encode.{encode_arena, node_fields}
use monty_go.Arena.Decode.{node_result, arena_field, decode_arena}

module _ ⦃w : Protowire⦄ where
  -- The nodes decoded one after the other, with the values that stand before them.
  abbrev pub decode_nodes : List Bytes → List Value → Run (List Value)
  decode_nodes [] vs = done vs
  decode_nodes (n ∷ ns) vs = check_in vs (node_result vs n) (λ v. decode_nodes ns (vs ++ (v ∷ [])))

  abbrev node_out : List Bytes → List OutField
  node_out [] = []
  node_out (n ∷ ns) = out_bytes 2 n ∷ node_out ns

  decode_nodes-length :
      (ns : List Bytes) (vs us : List Value)
      → decode_nodes ns vs ≡ done us
      → (xs : List Value) × (us ≡ vs ++ xs) × (length xs ≡ length ns)
  decode_nodes-length [] vs us e = ([], sym (done-injective e) ∙ sym (append-nil vs), refl)
  decode_nodes-length (n ∷ ns) vs us e =
      let (v, a, d) = check_in-done vs (node_result vs n) _ us e in
      let (xs, x, l) = decode_nodes-length ns (vs ++ (v ∷ [])) us d in
      (v ∷ xs, x ∙ append_assoc vs (v ∷ []) xs, omega (arith, l))

  decode_nodes-append :
      (ns ms : List Bytes) (vs us : List Value)
      → decode_nodes (ns ++ ms) vs ≡ done us
      → (ws : List Value) × (decode_nodes ns vs ≡ done ws) × (decode_nodes ms ws ≡ done us)
  decode_nodes-append [] ms vs us e = (vs, refl, e)
  decode_nodes-append (n ∷ ns) ms vs us e =
      let (v, a, d) = check_in-done vs (node_result vs n) _ us e in
      let (ws, x, y) = decode_nodes-append ns ms (vs ++ (v ∷ [])) us d in (ws, rw (a, x), y)

  module _ (laws : Laws w) where
    node_fields_lem : (ns : List Bytes) → node_fields ns ≡ encode_message (node_out ns)
    unfolding field_message
    node_fields_lem [] = refl
    node_fields_lem (n ∷ ns) = ap (λ b. field_message 2 n ++ b) (node_fields_lem ns)

    node_out-IsSendable : (ns : List Bytes) → All IsSendable (node_out ns)
    node_out-IsSendable [] = tt
    node_out-IsSendable (n ∷ ns) = (omega arith, node_out-IsSendable ns)

    fold-check_in :
        (vs : List Value) (r : Result Value) (k : Value → Run (List Value))
        (g : List Value → Run (List Value))
        → ((v : Value) → g (vs ++ (v ∷ [])) ≡ k v)
        → and_then (check_in vs r (λ v. done (vs ++ (v ∷ [])))) g ≡ check_in vs r k
    fold-check_in vs (ok v) k g h = h v
    fold-check_in vs (Result.err e) k g h = refl
    fold-check_in vs Result.stuck k g h = refl

    fold_fields-node_out :
        (ns : List Bytes) (vs : List Value)
        → fold_fields arena_field (node_out ns) vs ≡ decode_nodes ns vs
    unfolding arena_field
    fold_fields-node_out [] vs = refl
    fold_fields-node_out (n ∷ ns) vs =
        fold-check_in vs (node_result vs n) _ _ (λ v. fold_fields-node_out ns (vs ++ (v ∷ [])))

    -- `decodeArena` on what `encode` wrote.
    pub decode_arena-encode_arena :
        (ns : List Bytes)
        → length ns < 2 ^ 64
        → decode_arena (encode_arena ns) ≡ result_of (decode_nodes ns [])
    unfolding decode_arena encode_arena
    decode_arena-encode_arena ns h =
        rw
          (parse_fields_of laws arena_field (out_varint 1 (length ns) ∷ node_out ns) []
            (encode_arena ns) (ap (λ b. field_varint 1 (length ns) ++ b) (node_fields_lem ns))
            (((omega arith, omega arith)), node_out-IsSendable ns))
          (unfold arena_field in ap result_of (fold_fields-node_out ns []))

    -- When an arena is decoded, it has one value for each node, and leaving out the last nodes
    -- leaves out their values: no value depends on a later node.
    pub decode_arena_prefix :
        (ns ms : List Bytes) (us : List Value)
        → length ns + length ms < 2 ^ 64
        → decode_arena (encode_arena (ns ++ ms)) ≡ ok us
        → (vs : List Value) × (xs : List Value) × (decode_arena (encode_arena ns) ≡ ok vs)
          × (us ≡ vs ++ xs)
          × (length vs ≡ length ns)
          × (length xs ≡ length ms)
    decode_arena_prefix ns ms us h e =
        let whole =
          sym (decode_arena-encode_arena (ns ++ ms) (omega (arith, length-append ns ms))) in
        let (ws, a, b) = decode_nodes-append ns ms [] us (result_of-ok _ us (whole ∙ e)) in
        let (vs, x, l) = decode_nodes-length ns [] ws a in
        let (xs, y, m) = decode_nodes-length ms ws us b in
        (ws, xs, decode_arena-encode_arena ns (omega arith) ∙ ap result_of a, y, ap length x ∙ l, m)
