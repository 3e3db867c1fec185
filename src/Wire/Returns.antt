-- ===== src/Wire/Returns.antt =====
-- How a decoder that parses its fields and checks them comes to return.
use monty_go.Common.{
  ℕ, zero, suc, ◌≤◌, ◌<◌, ◌==◌, not, List, [], ◌∷◌, drop, length-drop, arith, inl, inr, Bytes,
  length, Bool, true, false, if◌then◌else◌,
}
use monty_go.Errors.{
  Result, ok, err, stuck, Run, done, fail, out_of_fuel, result_of, check_in, after_dropped, Ends,
  Returns, ◌>>=◌, Returns-result_of,
}
use monty_go.Wire.Proto.{Protowire, Laws, is_varint, is_bytes}
use monty_go.Wire.Fields.{WireField}
use monty_go.Wire.Parse.{parse_fields, packed_loop, index_field, indexes}
use monty_go.Wire.Message.{parse_fields-Ends, Consumed-cases}

-- A call inside a closure ends if the callee returns and the rest ends.
pub Ends-check_in {ℓ κ} :
    {S : Type ℓ} {A : Type κ} (s : S) (r : Result A) (k : A → Run S)
    → Returns r
    → ((a : A) → Ends (k a))
    → Ends (check_in s r k)
Ends-check_in s (ok a) k h e = e a
Ends-check_in s (err x) k h e = tt
Ends-check_in s stuck k h e = h

-- A call whose error the closure drops has to end all the same.
pub Ends-after_dropped {ℓ κ} :
    {S : Type ℓ} {A : Type κ} (s : S) (r : Run A) (k : A → Run S)
    → Ends r
    → ((a : A) → Ends (k a))
    → Ends (after_dropped s r k)
Ends-after_dropped s (done a) k h e = e a
Ends-after_dropped s (fail x a) k h e = e a
Ends-after_dropped s (out_of_fuel a) k h e = h

pub Returns->>= {ℓ κ} :
    {A : Type ℓ} {B : Type κ} (r : Result A) (k : A → Result B)
    → Returns r
    → ((a : A) → Returns (k a))
    → Returns (r >>= k)
Returns->>= (ok a) k h e = e a
Returns->>= (err x) k h e = tt
Returns->>= stuck k h e = h

pub Returns-result {ℓ} : {S : Type ℓ} (r : Run S) → Ends r → Returns (result_of r)
Returns-result (done s) h = tt
Returns-result (fail x s) h = tt
Returns-result (out_of_fuel s) h = h

pub Ends-if {ℓ} :
    {S : Type ℓ} (b : Bool) (x y : Run S) → Ends x → Ends y → Ends (if b then x else y)
Ends-if true x y h k = h
Ends-if false x y h k = k

pub Returns-if {ℓ} :
    {A : Type ℓ} (b : Bool) (x y : Result A) → Returns x → Returns y → Returns (if b then x else y)
Returns-if true x y h k = h
Returns-if false x y h k = k

module _ ⦃w : Protowire⦄ (laws : Laws w) where
  -- A parse whose closure ends on every field, followed by a check that returns.
  pub parse-Returns {ℓ κ} :
      {S : Type ℓ} {A : Type κ} (b : Bytes) (fn : S → WireField → Run S) (s : S) (k : S → Result A)
      → ((s : S) (f : WireField) → length f.bytes < length b → Ends (fn s f))
      → ((s : S) → Returns (k s))
      → Returns (result_of (parse_fields b fn s) >>= k)
  parse-Returns b fn s k h r =
      Returns-result_of (parse_fields b fn s) k (parse_fields-Ends laws fn b s h) r

  pub parse-Returns_plain {ℓ} :
      {S : Type ℓ} (b : Bytes) (fn : S → WireField → Run S) (s : S)
      → ((s : S) (f : WireField) → length f.bytes < length b → Ends (fn s f))
      → Returns (result_of (parse_fields b fn s))
  parse-Returns_plain b fn s h =
      Returns-result (parse_fields b fn s) (parse_fields-Ends laws fn b s h)

  packed_loop-Ends :
      (fuel : ℕ) (b : Bytes) (out : List ℕ) → length b ≤ fuel → Ends (packed_loop fuel b out)
  unfolding packed_loop
  packed_loop-Ends fuel [] out h = tt
  packed_loop-Ends zero (b ∷ bs) out h = absurd (omega arith)
  packed_loop-Ends (suc fuel) (b ∷ bs) out h = elim (Consumed-cases (w.consume_varint (b ∷ bs))) [
    | inl (v, n, c) ↦
        let pos = laws.consume_varint_length (b ∷ bs) v n c in
        let less = length-drop (b ∷ bs) n in
        rw (c, packed_loop) (packed_loop-Ends fuel (drop (b ∷ bs) n) _ (omega arith))
    | inr (k, c) ↦ rw (c, packed_loop) tt
  ]

  -- `indexes` ends on every input.
  pub indexes-Ends : (b : Bytes) (tag : ℕ) → Ends (indexes b tag)
  unfolding indexes index_field
  indexes-Ends b tag = parse_fields-Ends laws (index_field tag) b [] λ s f l.
      Ends-if (not (f.tag == tag)) _ _ tt (
        Ends-if (is_varint f.type_) _ _ tt (
          Ends-if (is_bytes f.type_) _ _ (packed_loop-Ends (length f.bytes) f.bytes s (omega arith))
            tt))
