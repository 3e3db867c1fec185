-- ===== src/Wire/Invariant.antt =====
-- A predicate on the variables of a closure that `parseFields` calls.
use monty_go.Common.{ℕ, zero, suc, ◌≡◌, [], ◌∷◌, Bytes, length, inl, inr}
use mathlib.Core.Path.{subst}
use monty_go.Errors.{done-injective, Result-cases, Run-cases, Run, done}
use monty_go.Wire.Proto.{Protowire}
use monty_go.Wire.Fields.{WireField}
use monty_go.Wire.Parse.{next_field, parse_loop, parse_fields}

module _ {ℓ κ} ⦃w : Protowire⦄ {S : Type ℓ} (P : S → Type κ) (fn : S → WireField → Run S) where
  module _ (keep : (s : S) (f : WireField) (s' : S) → P s → fn s f ≡ done s' → P s') where
    parse_loop_inv : (k : ℕ) (d : Bytes) (s s' : S) → P s → parse_loop fn k d s ≡ done s' → P s'
    unfolding parse_loop
    parse_loop_inv k [] s s' h e = subst P (done-injective e) h
    parse_loop_inv zero (b ∷ bs) s s' h e = cc
    parse_loop_inv (suc k) (b ∷ bs) s s' h e = elim (Result-cases (next_field (b ∷ bs))) [
      | inl ((f, rest), n) ↦ elim (Run-cases (fn s f)) [
        | inl (t, r) ↦ parse_loop_inv k rest t s' (keep s f t h r) (rw (n, parse_loop, r) at e)
        | inr (inl (x, t, r)) ↦ cc (rw (n, parse_loop, r) at e)
        | inr (inr (t, r)) ↦ cc (rw (n, parse_loop, r) at e)
      ]
      | inr (inl (x, n)) ↦ cc (rw (n, parse_loop) at e)
      | inr (inr n) ↦ cc (rw (n, parse_loop) at e)
    ]

    -- What the closure keeps holds of its variables when `parseFields` returns no error.
    pub parse_fields_inv : (d : Bytes) (s s' : S) → P s → parse_fields d fn s ≡ done s' → P s'
    unfolding parse_fields
    parse_fields_inv d s s' h e = parse_loop_inv (length d) d s s' h e
