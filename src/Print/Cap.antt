-- ===== src/Print/Cap.antt =====
-- What a collector keeps.
use monty_go.Common.{
  ℕ, ◌+◌, ◌-◌, ◌≤◌, ◌≡◌, refl, ap, ◌∙◌, sym, List, [], ◌∷◌, ◌++◌, append_assoc, append-nil, Bytes,
  length, length-append, ltb, if◌then◌else◌, none, some, Bool-cases, inl, inr, arith, true, false,
}
use monty_go.Common.Int.{ℤ, pos}
use monty_go.Errors.{Error}
use monty_go.Print.{
  Collector, CollectedStreamEntry, new_collector, collect, write_string, write_stream,
}

-- The texts as a specification counts them: those before the first that does not fit in `m`.
abbrev pub fitting {ℓ} : {A : Type ℓ} → (A → ℕ) → ℕ → List A → List A
fitting size m [] = []
fitting size m (x ∷ xs) = if ltb m (size x) then [] else x ∷ fitting size (m - size x) xs

abbrev pub joined : List Bytes → Bytes
joined [] = []
joined (t ∷ ts) = t ++ joined ts

-- The collector after a list of writes.
abbrev pub write_strings : Collector ℕ → List Bytes → Collector ℕ
write_strings c [] = c
write_strings c (t ∷ ts) = write_strings ((write_string c t).0) ts

abbrev pub write_streams :
    Collector CollectedStreamEntry → List CollectedStreamEntry → Collector CollectedStreamEntry
write_streams c [] = c
write_streams c (e ∷ es) = write_streams ((write_stream c e.stream e.chunk).0) es

abbrev pub entry_size : CollectedStreamEntry → ℕ
entry_size e = length e.chunk

-- A collector that has not failed, with `n` of `m` bytes used.
abbrev opened {ℓ} : {A : Type ℓ} → List A → ℕ → ℤ → Collector A
opened xs n m = record { output = xs; bytes = n; max = m; failed = none }

-- The same after the cap was exceeded.
abbrev stopped {ℓ} : {A : Type ℓ} → List A → ℕ → ℕ → Collector A
stopped xs n m = record { output = xs; bytes = n; max = pos m; failed = some (Error.print_limit m) }

collect-over {ℓ} :
    {A : Type ℓ} (xs ys : List A) (n m k : ℕ)
    → ltb m (n + k) ≡ true
    → (collect (opened xs n (pos m)) k ys).0 ≡ stopped xs n m
unfolding collect
collect-over xs ys n m k a = rw (a, collect)

collect-fits {ℓ} :
    {A : Type ℓ} (xs ys : List A) (n m k : ℕ)
    → ltb m (n + k) ≡ false
    → (collect (opened xs n (pos m)) k ys).0 ≡ opened (xs ++ ys) (n + k) (pos m)
unfolding collect
collect-fits xs ys n m k a = rw (a, collect)

write_strings-stopped :
    (ts : List Bytes) (xs : Bytes) (n m : ℕ) → (write_strings (stopped xs n m) ts).output ≡ xs
unfolding write_string collect
write_strings-stopped [] xs n m = refl
write_strings-stopped (t ∷ ts) xs n m = write_strings-stopped ts xs n m

write_streams-stopped :
    (es xs : List CollectedStreamEntry) (n m : ℕ) → (write_streams (stopped xs n m) es).output ≡ xs
unfolding write_stream collect
write_streams-stopped [] xs n m = refl
write_streams-stopped (e ∷ es) xs n m = write_streams-stopped es xs n m

room-over : (m n k : ℕ) → n ≤ m → ltb m (n + k) ≡ true → ltb (m - n) k ≡ true
room-over m n k h e = ground arith

room-fits : (m n k : ℕ) → n ≤ m → ltb m (n + k) ≡ false → ltb (m - n) k ≡ false
room-fits m n k h e = ground arith

write_strings-opened :
    (ts : List Bytes) (xs : Bytes) (n m : ℕ)
    → n ≤ m
    → (write_strings (opened xs n (pos m)) ts).output ≡ xs ++ joined (fitting length (m - n) ts)
unfolding write_string
write_strings-opened [] xs n m h = sym (append-nil xs)
write_strings-opened (t ∷ ts) xs n m h = elim (Bool-cases (ltb m (n + length t))) [
  | inl a ↦
      ap (λ c. (write_strings c ts).output) (collect-over xs t n m (length t) a)
      ∙ rw (room-over m n (length t) h a) (write_strings-stopped ts xs n m ∙ sym (append-nil xs))
  | inr a ↦
      let less : m - (n + length t) ≡ m - n - length t = omega arith in
      ap (λ c. (write_strings c ts).output) (collect-fits xs t n m (length t) a)
      ∙ rw (room-fits m n (length t) h a) (
          write_strings-opened ts (xs ++ t) (n + length t) m (ground arith)
          ∙ ap (λ k. (xs ++ t) ++ joined (fitting length k ts)) less
          ∙ append_assoc xs t _)
]

write_streams-opened :
    (es xs : List CollectedStreamEntry) (n m : ℕ)
    → n ≤ m
    → (write_streams (opened xs n (pos m)) es).output ≡ xs ++ fitting entry_size (m - n) es
unfolding write_stream
write_streams-opened [] xs n m h = sym (append-nil xs)
write_streams-opened (x ∷ es) xs n m h = elim (Bool-cases (ltb m (n + length x.chunk))) [
  | inl a ↦
      ap (λ c. (write_streams c es).output) (collect-over xs (x ∷ []) n m (length x.chunk) a)
      ∙ rw (room-over m n (length x.chunk) h a)
          (write_streams-stopped es xs n m ∙ sym (append-nil xs))
  | inr a ↦
      let less : m - (n + length x.chunk) ≡ m - n - length x.chunk = omega arith in
      ap (λ c. (write_streams c es).output) (collect-fits xs (x ∷ []) n m (length x.chunk) a)
      ∙ rw (room-fits m n (length x.chunk) h a) (
          write_streams-opened es (xs ++ (x ∷ [])) (n + length x.chunk) m (ground arith)
          ∙ ap (λ k. (xs ++ (x ∷ [])) ++ fitting entry_size k es) less
          ∙ append_assoc xs (x ∷ []) _)
]

length-joined : (m : ℕ) (ts : List Bytes) → length (joined (fitting length m ts)) ≤ m
length-joined m [] = omega arith
length-joined m (t ∷ ts) = elim (Bool-cases (ltb m (length t))) [
  | inl a ↦ rw a (omega arith)
  | inr a ↦
      let rest = length-joined (m - length t) ts in
      let room : length t ≤ m = ground arith in
      rw a (omega (arith, length-append t (joined (fitting length (m - length t) ts))))
]

-- A CollectString with a cap holds the texts of the writes before the first one that does not fit,
-- joined in order, and never more bytes than the cap.
pub write_strings-new_collector :
    (m : ℕ) (ts : List Bytes)
    → let c = write_strings (new_collector (pos m)) ts in
      (c.output ≡ joined (fitting length m ts)) × (length c.output ≤ m)
write_strings-new_collector m ts =
    let zero_less : m - 0 ≡ m = omega arith in
    let e =
      write_strings-opened ts [] 0 m (omega arith)
      ∙ ap (λ k. joined (fitting length k ts)) zero_less in
    (e, omega (arith, ap length e, length-joined m ts))

-- A CollectStreams with a cap holds the entries of the writes before the first one that does not
-- fit, in order.
pub write_streams-new_collector :
    (m : ℕ) (es : List CollectedStreamEntry)
    → (write_streams (new_collector (pos m)) es).output ≡ fitting entry_size m es
write_streams-new_collector m es =
    let zero_less : m - 0 ≡ m = omega arith in
    write_streams-opened es [] 0 m (omega arith) ∙ ap (λ k. fitting entry_size k es) zero_less
