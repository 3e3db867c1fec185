-- ===== src/Wire/Plain.antt =====
-- A protowire for examples: varints of seven bits a byte, lengths and tags by varints, and eight
-- little-endian bytes for a fixed64, with the laws that the theorems ask for.
use monty_go.Common.{
  ℕ, zero, suc, ◌+◌, ◌-◌, ◌*◌, ◌/◌, ◌%◌, ◌^◌, ◌≤◌, ◌<◌, ◌≡◌, refl, sym, ap, ◌∙◌, [], ◌∷◌, ◌++◌,
  Bytes, length, take, drop, length-append, drop-append, take-append, length-drop, length-take,
  append_assoc, ltb, leb, if◌then◌else◌, arith,
}
use monty_go.Wire.Frame.{le_bytes, le_value, length-le_bytes, le_value-le_bytes}
use monty_go.Wire.Proto.{
  WireType, varint_type, fixed64_type, bytes_type, start_group_type, end_group_type, fixed32_type,
  unknown_type, Consumed, consumed, parse_error, Protowire, Laws, IsFieldNumber, IsU64, IsWritten,
}

varint_bytes : ℕ → ℕ → Bytes
varint_bytes zero v = v ∷ []
varint_bytes (suc k) v =
    let rest = varint_bytes k (v / 128) in if ltb v 128 then v ∷ [] else (v % 128 + 128) ∷ rest

longer : ℕ → Consumed ℕ → Consumed ℕ
longer b (consumed v n) = consumed (b - 128 + 128 * v) (n + 1)
longer b (parse_error c) = parse_error c

varint_front : Bytes → Consumed ℕ
unfolding longer
varint_front [] = parse_error 1
varint_front (b ∷ bs) =
    let more = longer b (varint_front bs) in if ltb b 128 then consumed b 1 else more

varint_front-varint_bytes :
    (k v : ℕ) (rest : Bytes)
    → v < 128 ^ suc k
    → varint_front (varint_bytes k v ++ rest) ≡ consumed v (length (varint_bytes k v))
unfolding varint_front varint_bytes
varint_front-varint_bytes zero v rest h = ground arith
varint_front-varint_bytes (suc k) v rest h =
    ground (arith, varint_front-varint_bytes k (v / 128) rest (omega arith))

longer_length :
    (b m : ℕ) (c : Consumed ℕ) (v n : ℕ)
    → ((v n : ℕ) → c ≡ consumed v n → (0 < n) × (n ≤ m))
    → longer b c ≡ consumed v n
    → (0 < n) × (n ≤ suc m)
unfolding longer
longer_length b m (consumed u k) v n h e = ground (arith, h u k)
longer_length b m (parse_error k) v n h e = cc

varint_front-length :
    (b : Bytes) (v n : ℕ) → varint_front b ≡ consumed v n → (0 < n) × (n ≤ length b)
unfolding varint_front
varint_front-length [] v n e = cc
varint_front-length (b ∷ bs) v n e =
    ground (arith, longer_length b (length bs) (varint_front bs) v n (varint_front-length bs))

lt-pow : (v : ℕ) → v < 128 ^ suc v
lt-pow zero = omega arith
lt-pow (suc v) = grind (arith, lt-pow v)

type_code : WireType → ℕ
type_code varint_type = 0
type_code fixed64_type = 1
type_code bytes_type = 2
type_code start_group_type = 3
type_code end_group_type = 4
type_code fixed32_type = 5
type_code (unknown_type n) = 6

code_type : ℕ → WireType
code_type zero = varint_type
code_type (suc zero) = fixed64_type
code_type (suc (suc zero)) = bytes_type
code_type (suc (suc (suc n))) = unknown_type (n + 3)

split_tag : Consumed ℕ → Consumed (ℕ × WireType)
unfolding code_type
split_tag (consumed v n) = consumed (v / 8, code_type (v % 8)) n
split_tag (parse_error c) = parse_error c

take_value : ℕ → Bytes → Consumed Bytes
take_value n b = if leb n (length b) then consumed (take b n) n else parse_error 1

behind_length : Bytes → Consumed ℕ → Consumed Bytes
behind_length b (consumed m n) =
    if leb (n + m) (length b) then consumed (take (drop b n) m) (n + m) else parse_error 1
behind_length b (parse_error c) = parse_error c

map_value : Consumed Bytes → Consumed ℕ
unfolding le_value
map_value (consumed x n) = consumed (le_value x) n
map_value (parse_error c) = parse_error c

written_tag :
    (n c : ℕ) (t : WireType) (rest : Bytes)
    → IsFieldNumber n
    → c < 8
    → code_type c ≡ t
    → split_tag (varint_front (varint_bytes 9 (n * 8 + c) ++ rest))
      ≡ consumed (n, t) (length (varint_bytes 9 (n * 8 + c)))
written_tag n c t rest h k e =
    let q : (n * 8 + c) / 8 ≡ n = omega arith in
    let r : (n * 8 + c) % 8 ≡ c = omega arith in
    ap split_tag (varint_front-varint_bytes 9 (n * 8 + c) rest (omega arith))
    ∙ unfold split_tag in
      rw (q, r) (ap (λ t. consumed (n, t) (length (varint_bytes 9 (n * 8 + c)))) e)

tag_read :
    (n : ℕ) (t : WireType) (rest : Bytes)
    → IsFieldNumber n
    → IsWritten t
    → split_tag (varint_front (varint_bytes 9 (n * 8 + type_code t) ++ rest))
      ≡ consumed (n, t) (length (varint_bytes 9 (n * 8 + type_code t)))
unfolding split_tag type_code
tag_read n varint_type rest h k = written_tag n 0 varint_type rest h (omega arith) refl
tag_read n fixed64_type rest h k = written_tag n 1 fixed64_type rest h (omega arith) refl
tag_read n bytes_type rest h k = written_tag n 2 bytes_type rest h (omega arith) refl
tag_read n start_group_type rest h k = absurd k
tag_read n end_group_type rest h k = absurd k
tag_read n fixed32_type rest h k = absurd k
tag_read n (unknown_type m) rest h k = absurd k

take_front : (xs ys : Bytes) (n : ℕ) → length xs ≡ n → take (xs ++ ys) n ≡ xs
take_front xs ys n h = ap (take (xs ++ ys)) (sym h) ∙ take-append xs ys

fixed64_read :
    (v : ℕ) (rest : Bytes)
    → IsU64 v
    → map_value (take_value 8 (le_bytes 8 v ++ rest)) ≡ consumed v (length (le_bytes 8 v))
unfolding map_value take_value
fixed64_read v rest h = ground (
  arith,
  length-append (le_bytes 8 v) rest,
  length-le_bytes 8 v,
  take_front (le_bytes 8 v) rest 8 (length-le_bytes 8 v),
  le_value-le_bytes 8 v,
)

behind_length-append :
    (a x rest : Bytes)
    → behind_length (a ++ (x ++ rest)) (consumed (length x) (length a))
      ≡ consumed x (length (a ++ x))
unfolding behind_length
behind_length-append a x rest =
    rw
      (
        drop-append a (x ++ rest),
        take-append x rest,
        length-append a x,
        length-append a (x ++ rest),
        length-append x rest,
      )
      (ground arith)

bytes_read :
    (x rest : Bytes)
    → behind_length
        ((varint_bytes (length x) (length x) ++ x) ++ rest)
        (varint_front ((varint_bytes (length x) (length x) ++ x) ++ rest))
      ≡ consumed x (length (varint_bytes (length x) (length x) ++ x))
bytes_read x rest =
    let a = varint_bytes (length x) (length x) in
    ap (λ b. behind_length b (varint_front b)) (append_assoc a x rest)
    ∙ ap (behind_length (a ++ (x ++ rest)))
        (varint_front-varint_bytes (length x) (length x) (x ++ rest) (lt-pow (length x)))
    ∙ behind_length-append a x rest

split_tag_length :
    (c : Consumed ℕ) (p : ℕ × WireType) (n : ℕ)
    → split_tag c ≡ consumed p n
    → ((v n : ℕ) → c ≡ consumed v n → 0 < n)
    → 0 < n
unfolding split_tag
split_tag_length (consumed v m) p n e h = ground (arith, h v m)
split_tag_length (parse_error c) p n e h = cc

behind_length-length :
    (b : Bytes) (c : Consumed ℕ) (x : Bytes) (n : ℕ)
    → behind_length b c ≡ consumed x n
    → ((v n : ℕ) → c ≡ consumed v n → 0 < n)
    → (length x < n) × (n ≤ length b)
unfolding behind_length
behind_length-length b (consumed m k) x n e h =
    ground (arith, h m k, length-drop b k, length-take (drop b k) m)
behind_length-length b (parse_error c) x n e h = cc

instance unfoldable pub plain : Protowire
unfolding varint_bytes varint_front type_code split_tag take_value behind_length map_value le_bytes
plain = record {
  append_tag = λ b n t. b ++ varint_bytes 9 (n * 8 + type_code t);
  append_varint = λ b v. b ++ varint_bytes 9 v;
  append_fixed64 = λ b v. b ++ le_bytes 8 v;
  append_bytes = λ b x. b ++ (varint_bytes (length x) (length x) ++ x);
  consume_tag = λ b. split_tag (varint_front b);
  consume_varint = varint_front;
  consume_fixed64 = λ b. map_value (take_value 8 b);
  consume_fixed32 = λ b. map_value (take_value 4 b);
  consume_bytes = λ b. behind_length b (varint_front b);
  consume_group = λ n b. parse_error 1;
}

pub plain-Laws : Laws plain
unfolding plain
plain-Laws = record {
  append_tag_lem = λ b n t. refl;
  append_varint_lem = λ b v. refl;
  append_fixed64_lem = λ b v. refl;
  append_bytes_lem = λ b x. refl;
  consume_tag-append_tag = tag_read;
  consume_varint-append_varint = λ v rest h. varint_front-varint_bytes 9 v rest (omega arith);
  consume_fixed64-append_fixed64 = fixed64_read;
  consume_bytes-append_bytes = bytes_read;
  consume_tag_length =
      λ b p n e. split_tag_length (varint_front b) p n e (λ v n e. (varint_front-length b v n e).0);
  consume_varint_length = λ b v n e. (varint_front-length b v n e).0;
  consume_bytes_length = λ b x n e.
      behind_length-length b (varint_front b) x n e (λ v n e. (varint_front-length b v n e).0);
}
