-- ===== src/Wire/Frame.antt =====
-- wire.go: frames with a little-endian length prefix of four bytes. The reader and the writer are
-- a byte stream: what is left to read, and what has been written.
use monty_go.Common.{
  ℕ, zero, suc, ◌+◌, ◌*◌, ◌/◌, ◌%◌, ◌^◌, ◌≤◌, ◌<◌, ◌≡◌, refl, sym, ap, ◌∙◌, [], ◌∷◌, ◌++◌, Bytes,
  length, take, drop, length-append, drop-append, take-append, length-drop, append_assoc, ltb, leb,
  if◌then◌else◌, arith,
}
use monty_go.Errors.{Error, Result, ok, err, ◌>>=◌, ok-injective}

-- `binary.LittleEndian`, for a number of `k` bytes.
unfoldable pub le_bytes : ℕ → ℕ → Bytes
le_bytes zero v = []
le_bytes (suc k) v = (v % 256) ∷ le_bytes k (v / 256)

unfoldable pub le_value : Bytes → ℕ
le_value [] = 0
le_value (b ∷ bs) = b + 256 * le_value bs

pub length-le_bytes : (k v : ℕ) → length (le_bytes k v) ≡ k
unfolding le_bytes
length-le_bytes zero v = refl
length-le_bytes (suc k) v = ap suc (length-le_bytes k (v / 256))

pub le_value-le_bytes : (k v : ℕ) → v < 256 ^ k → le_value (le_bytes k v) ≡ v
unfolding le_bytes le_value
le_value-le_bytes zero v h = omega arith
le_value-le_bytes (suc k) v h = ground (arith, le_value-le_bytes k (v / 256) (grind arith))

abbrev pub max_frame_len : ℕ
max_frame_len = 0x1000_0000

-- What the stream holds after `writeFrame`; the writer's own errors are not modelled.
unfoldable pub write_frame : Bytes → Bytes → Result Bytes
write_frame w body =
    if ltb max_frame_len (length body)
    then err (Error.frame_too_long (length body))
    else ok ((w ++ le_bytes 4 (length body % 2 ^ 32)) ++ body)

-- `io.ReadFull` of `n` bytes: the bytes and the stream behind them, or an early end.
unfoldable pub read_full : Error → Bytes → ℕ → Result (Bytes × Bytes)
read_full e r n = if leb n (length r) then ok (take r n, drop r n) else err e

unfoldable pub read_frame : Bytes → Result (Bytes × Bytes)
read_frame r = do
  (prefix, r) ← read_full Error.end_of_input r 4
  let size = le_value prefix
  if ltb max_frame_len size
      then err (Error.frame_too_long size)
      else read_full Error.truncated_frame r size

read_full-append :
    (e : Error) (x rest : Bytes) (n : ℕ) → length x ≡ n → read_full e (x ++ rest) n ≡ ok (x, rest)
unfolding read_full
read_full-append e x rest n h =
    ground (arith, length-append x rest, take-append x rest, drop-append x rest)

read_full-short : (e : Error) (r : Bytes) (n : ℕ) → length r < n → read_full e r n ≡ err e
unfolding read_full
read_full-short e r n h = ground arith

abbrev frame : Bytes → Bytes
frame body = le_bytes 4 (length body) ++ body

write_frame-frame :
    (w body : Bytes) → length body ≤ max_frame_len → write_frame w body ≡ ok (w ++ frame body)
unfolding write_frame
write_frame-frame w body h =
    let short : length body % 2 ^ 32 ≡ length body = omega arith in
    rw (short, append_assoc) (ground arith)

read_frame-frame :
    (body rest : Bytes)
    → length body ≤ max_frame_len
    → read_frame (frame body ++ rest) ≡ ok (body, rest)
unfolding read_frame
read_frame-frame body rest h =
    rw
      (
        append_assoc (le_bytes 4 (length body)) body rest,
        read_full-append Error.end_of_input (le_bytes 4 (length body)) (body ++ rest) 4
            (length-le_bytes 4 (length body)),
        le_value-le_bytes 4 (length body) (omega arith),
      )
      (ground (arith, read_full-append Error.truncated_frame body rest (length body) refl))

-- `writeFrame` appends a frame to the stream when the body is within the maximum, and `readFrame`
-- takes exactly that frame off the stream again, whatever follows it.
pub read_frame-write_frame :
    (w body rest : Bytes)
    → length body ≤ max_frame_len
    → (s : Bytes) × (write_frame w body ≡ ok (w ++ s)) × (read_frame (s ++ rest) ≡ ok (body, rest))
read_frame-write_frame w body rest h =
    (frame body, write_frame-frame w body h, read_frame-frame body rest h)

take-length : (xs ys : Bytes) (n : ℕ) → length xs ≡ n → take (xs ++ ys) n ≡ xs
take-length xs ys n h = ap (take (xs ++ ys)) (sym h) ∙ take-append xs ys

take-append_le : (xs ys : Bytes) (n : ℕ) → n ≤ length xs → take (xs ++ ys) n ≡ take xs n
take-append_le [] [] n h = refl
take-append_le [] (y ∷ ys) zero h = refl
take-append_le [] (y ∷ ys) (suc n) h = absurd (omega arith)
take-append_le (x ∷ xs) ys zero h = refl
take-append_le (x ∷ xs) ys (suc n) h = ap (◌∷◌ x) (take-append_le xs ys n (omega arith))

-- Every proper prefix of a frame that `writeFrame` wrote is refused: as the end of the input inside
-- the length, and as a truncated frame behind it.
pub read_frame_prefix :
    (body front back : Bytes) (x : ℕ)
    → length body ≤ max_frame_len
    → write_frame [] body ≡ ok (front ++ (x ∷ back))
    → read_frame front
      ≡ err (if ltb (length front) 4 then Error.end_of_input else Error.truncated_frame)
unfolding read_frame read_full
read_frame_prefix body front back x h e = ground (
  arith,
  ap length whole,
  length-append (le_bytes 4 (length body)) body,
  length-append front (x ∷ back),
  length-le_bytes 4 (length body),
  length-drop front 4,
  size,
)
  where
    whole : frame body ≡ front ++ (x ∷ back)
    whole = ok-injective (sym (write_frame-frame [] body h) ∙ e)

    prefix : 4 ≤ length front → take front 4 ≡ le_bytes 4 (length body)
    prefix l =
        sym (take-append_le front (x ∷ back) 4 l)
        ∙ ap (λ (l : Bytes). take l 4) (sym whole)
        ∙ take-length (le_bytes 4 (length body)) body 4 (length-le_bytes 4 (length body))

    size : 4 ≤ length front → le_value (take front 4) ≡ length body
    size l = ap le_value (prefix l) ∙ le_value-le_bytes 4 (length body) (omega arith)
