-- ===== src/Requests/Order.antt =====
-- The order of the inputs of a feed: Go's maps have none, and the request has one.
use monty_go.Common.{
  ◌≡◌, ◌≢◌, refl, ap, ◌∙◌, sym, ◌⊎◌, inl, inr, List, [], ◌∷◌, Bytes, Bool, true, false, ==_iff,
  arith, All, Bool-cases,
}
use mathlib.Core.Path.{subst}
use mathlib.Core.List.{Permᴰ}
use monty_go.Wire.Proto.{Protowire}
use monty_go.Value.{Value}
use monty_go.Requests.{bytes_le, insert_input, sorted_inputs, feed_request}

bytes_le_total : (xs ys : Bytes) → bytes_le xs ys ≡ false → bytes_le ys xs ≡ true
unfolding bytes_le
bytes_le_total [] ys h = cc
bytes_le_total (x ∷ xs) [] h = refl
bytes_le_total (x ∷ xs) (y ∷ ys) h =
    let again = bytes_le_total xs ys in ground (arith, again, ==_iff x y, ==_iff y x)

bytes_le_antisym : (xs ys : Bytes) → bytes_le xs ys ≡ true → bytes_le ys xs ≡ true → xs ≡ ys
unfolding bytes_le
bytes_le_antisym [] [] h k = refl
bytes_le_antisym [] (y ∷ ys) h k = cc
bytes_le_antisym (x ∷ xs) [] h k = cc
bytes_le_antisym (x ∷ xs) (y ∷ ys) h k =
    let (e, f, g) = heads in ap (λ z. z ∷ xs) e ∙ ap (◌∷◌ y) (bytes_le_antisym xs ys f g)
  where
    heads : (x ≡ y) × (bytes_le xs ys ≡ true) × (bytes_le ys xs ≡ true)
    heads = (
      ground (arith, ==_iff x y, ==_iff y x),
      ground (arith, ==_iff x y, ==_iff y x),
      ground (arith, ==_iff x y, ==_iff y x),
    )

bytes_le_trans :
    (xs ys zs : Bytes) → bytes_le xs ys ≡ true → bytes_le ys zs ≡ true → bytes_le xs zs ≡ true
unfolding bytes_le
bytes_le_trans [] ys zs h k = refl
bytes_le_trans (x ∷ xs) [] zs h k = cc
bytes_le_trans (x ∷ xs) (y ∷ ys) [] h k = cc
bytes_le_trans (x ∷ xs) (y ∷ ys) (z ∷ zs) h k =
    let again = bytes_le_trans xs ys zs in ground (arith, again, ==_iff x y, ==_iff y z, ==_iff x z)

-- A map has a name once.
abbrev pub HasNames : List (Bytes × Value) → Type 0
HasNames [] = Unit {0}
HasNames (x ∷ xs) = All (λ (y : Bytes × Value). x.0 ≢ y.0) xs × HasNames xs

-- Of two names that differ, one is before the other.
apart :
    (xs ys : Bytes)
    → xs ≢ ys
    → ((bytes_le xs ys ≡ true) × (bytes_le ys xs ≡ false))
      ⊎ ((bytes_le xs ys ≡ false) × (bytes_le ys xs ≡ true))
apart xs ys h = elim (Bool-cases (bytes_le xs ys)) [
  | inl e ↦ elim (Bool-cases (bytes_le ys xs)) [
    | inl f ↦ absurd (h (bytes_le_antisym xs ys e f))
    | inr f ↦ inl (e, f)
  ]
  | inr e ↦ inr (e, bytes_le_total xs ys e)
]

first :
    (x z : Bytes × Value) (zs : List (Bytes × Value))
    → bytes_le (x.0) (z.0) ≡ true
    → insert_input x (z ∷ zs) ≡ x ∷ z ∷ zs
unfolding insert_input
first x z zs h = rw (h) refl

further :
    (x z : Bytes × Value) (zs : List (Bytes × Value))
    → bytes_le (x.0) (z.0) ≡ false
    → insert_input x (z ∷ zs) ≡ z ∷ insert_input x zs
unfolding insert_input
further x z zs h = rw (h) refl

insert_ordered :
    (x y : Bytes × Value) (zs : List (Bytes × Value))
    → bytes_le (x.0) (y.0) ≡ true
    → bytes_le (y.0) (x.0) ≡ false
    → insert_input x (insert_input y zs) ≡ insert_input y (insert_input x zs)
unfolding insert_input
insert_ordered x y [] h k = first x y [] h ∙ sym (further y x [] k)
insert_ordered x y (z ∷ zs) h k = elim (Bool-cases (bytes_le (x.0) (z.0))) [
  | inl g ↦ elim (Bool-cases (bytes_le (y.0) (z.0))) [
    | inl f ↦
        ap (insert_input x) (first y z zs f)
        ∙ first x y (z ∷ zs) h
        ∙ ap (◌∷◌ x) (sym (first y z zs f))
        ∙ sym (further y x (z ∷ zs) k)
        ∙ ap (insert_input y) (sym (first x z zs g))
    | inr f ↦
        ap (insert_input x) (further y z zs f)
        ∙ first x z (insert_input y zs) g
        ∙ ap (◌∷◌ x) (sym (further y z zs f))
        ∙ sym (further y x (z ∷ zs) k)
        ∙ ap (insert_input y) (sym (first x z zs g))
  ]
  | inr g ↦ elim (Bool-cases (bytes_le (y.0) (z.0))) [
    | inl f ↦ absurd (clash (bytes_le_trans (x.0) (y.0) (z.0) h f) g)
    | inr f ↦
        ap (insert_input x) (further y z zs f)
        ∙ further x z (insert_input y zs) g
        ∙ ap (◌∷◌ z) (insert_ordered x y zs h k)
        ∙ sym (further y z (insert_input x zs) f)
        ∙ ap (insert_input y) (sym (further x z zs g))
  ]
]
  where
    clash : {b : Bool} → b ≡ true → b ≡ false → ⊥
    clash p q = cc

insert_comm :
    (x y : Bytes × Value) (zs : List (Bytes × Value))
    → x.0 ≢ y.0
    → insert_input x (insert_input y zs) ≡ insert_input y (insert_input x zs)
insert_comm x y zs h = elim (apart (x.0) (y.0) h) [
  | inl (e, f) ↦ insert_ordered x y zs e f
  | inr (e, f) ↦ sym (insert_ordered y x zs f e)
]

All-Perm {κ} :
    (P : Bytes × Value → Type κ) {xs ys : List (Bytes × Value)} → Permᴰ xs ys → All P xs → All P ys
All-Perm P Permᴰ.nil h = h
All-Perm P (Permᴰ.cons e p) (a, h) = (subst P e a, All-Perm P p h)
All-Perm P (Permᴰ.swap e f) (a, (b, h)) = (subst P f b, (subst P e a, h))
All-Perm P (Permᴰ.trans p q) h = All-Perm P q (All-Perm P p h)

HasNames-Perm : {xs ys : List (Bytes × Value)} → Permᴰ xs ys → HasNames xs → HasNames ys
HasNames-Perm Permᴰ.nil h = h
HasNames-Perm (Permᴰ.cons {l₂ = l} e p) (a, h) = (
  subst (λ (x : Bytes × Value). All (λ (y : Bytes × Value). x.0 ≢ y.0) l) e (All-Perm _ p a),
  HasNames-Perm p h,
)
HasNames-Perm (Permᴰ.swap {a} {b} {b' = b'} {l = l} e f) ((n, ha), (hb, hl)) =
    subst (λ x. HasNames (x ∷ b' ∷ l)) f
      (subst (λ x. HasNames (b ∷ x ∷ l)) e ((λ q. n (sym q), hb), (ha, hl)))
HasNames-Perm (Permᴰ.trans p q) h = HasNames-Perm q (HasNames-Perm p h)

sorted_inputs-Perm :
    {xs ys : List (Bytes × Value)} → Permᴰ xs ys → HasNames xs → sorted_inputs xs ≡ sorted_inputs ys
unfolding sorted_inputs
sorted_inputs-Perm Permᴰ.nil h = refl
sorted_inputs-Perm (Permᴰ.cons {b} {l₁} e p) (a, h) =
    ap (λ x. insert_input x (sorted_inputs l₁)) e ∙ ap (insert_input b) (sorted_inputs-Perm p h)
sorted_inputs-Perm (Permᴰ.swap {a} {b} {a'} {l} e f) ((n, ha), h) =
    insert_comm a b (sorted_inputs l) n
    ∙ ap (λ x. insert_input x (insert_input a (sorted_inputs l))) f
    ∙ ap (λ x. insert_input a' (insert_input x (sorted_inputs l))) e
sorted_inputs-Perm (Permᴰ.trans p q) h =
    sorted_inputs-Perm p h ∙ sorted_inputs-Perm q (HasNames-Perm p h)

module _ ⦃w : Protowire⦄ where
  -- The request of a feed is the same for every order in which Go's map of the inputs, whose names
  -- are all different, is read, errors included.
  pub feed_request-Perm :
      (code : Bytes) (xs ys : List (Bytes × Value)) (skip : Bool) (cwd : Bytes)
      → Permᴰ xs ys
      → HasNames xs
      → feed_request code xs skip cwd ≡ feed_request code ys skip cwd
  unfolding feed_request
  feed_request-Perm code xs ys skip cwd p h = rw (sorted_inputs-Perm p h) refl
