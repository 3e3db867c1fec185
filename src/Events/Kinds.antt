-- ===== src/Events/Kinds.antt =====
-- An event that `decodeEvent` accepts has one kind.
use monty_go.Common.{
  ℕ, suc, ◌+◌, ◌≤◌, ◌≡◌, refl, ap, ◌∙◌, sym, List, [], ◌∷◌, arith, All, ◌==◌, if◌then◌else◌,
  Bool-cases, inl, inr,
}
use monty_go.Errors.{ok, done, >>=-ok, result_of-ok, Run-cases, done-injective}
use monty_go.Wire.Proto.{Protowire, Laws}
use monty_go.Wire.Fields.{WireField}
use monty_go.Wire.Message.{
  OutField, received, IsSendable, encode_message, fold_fields, parse_fields_of,
}
use monty_go.Events.{ChildEvent, blank_event, is_kind, event_field, event_result, decode_event}

-- The fields that give the event a kind.
abbrev pub count_kinds : List OutField → ℕ
count_kinds [] = 0
count_kinds (o ∷ os) =
    let rest = count_kinds os in if is_kind ((received o).tag) then suc rest else rest

abbrev known : ChildEvent → ℕ
known e = if e.kind == 0 then 0 else 1

event_field-known :
    (e : ChildEvent) (f : WireField) (e' : ChildEvent)
    → event_field e f ≡ done e'
    → known e' ≡ (if is_kind f.tag then suc (known e) else known e)
unfolding event_field
event_field-known e f e' h = ground arith

fold-known :
    ⦃w : Protowire⦄ (os : List OutField) (e e' : ChildEvent)
    → fold_fields event_field os e ≡ done e'
    → known e' ≡ known e + count_kinds os
fold-known [] e e' h = let k = ap known (done-injective h) in omega arith
fold-known (o ∷ os) e e' h = elim (Run-cases (event_field e (received o))) [
  | inl (t, a) ↦
      let rest = fold-known os t e' (rw a at h) in
      let step = event_field-known e (received o) t a in
      elim (Bool-cases (is_kind ((received o).tag))) [
        | inl b ↦ rw b (let s : known t ≡ suc (known e) = rw b at step in omega arith)
        | inr b ↦ rw b (let s : known t ≡ known e = rw b at step in omega arith)
      ]
  | inr (inl (x, t, a)) ↦ cc (rw a at h)
  | inr (inr (t, a)) ↦ cc (rw a at h)
]

known-le : (e : ChildEvent) → known e ≤ 1
known-le e = ground arith

event_result-known : (s e : ChildEvent) → event_result s ≡ ok e → known s ≡ 1
event_result-known s e h = ground arith

module _ ⦃w : Protowire⦄ (laws : Laws w) where
  -- An encoded event that decodeEvent accepts has exactly one field that gives it a kind.
  pub decode_event_one_kind :
      (os : List OutField) (e : ChildEvent)
      → All IsSendable os
      → decode_event (encode_message os) ≡ ok e
      → count_kinds os ≡ 1
  unfolding decode_event
  decode_event_one_kind os e h d =
      let (s, p, r) = >>=-ok _ _ e d in
      let whole =
        sym (parse_fields_of laws event_field os blank_event (encode_message os) refl h)
        ∙ result_of-ok _ s p in
      omega (arith, fold-known os blank_event s whole, event_result-known s e r)
