-- ===== src/Message/Framing.antt =====
-- Frames written and read back: the round trip, cut streams, and what a reader accepts.
use mathlib.Core.List.{append-nil, append_assoc}
use gateway_test.Prelude.{
  ℕ, zero, suc, ◌/◌, ◌%◌, ◌^◌, ◌≤◌, ◌<◌, ◌≡◌, refl, sym, ap, ◌∙◌, ◌⊎◌, inl, inr, true, false, some,
  List, [], ◌∷◌, ◌++◌, arith, ltb, if◌then◌else◌, nat_eq, string_eq, length, take, drop,
  length-append, All, u32,
}
use gateway_test.Message.{
  read_message, write_message, read_full, read_sized, big_endian_value, big_endian_bytes,
  max_message_size, ReadError, header_failed, body_failed, Writer,
}

-- The bytes of one message on the stream.
abbrev pub frame : List ℕ → List ℕ
frame message_data = big_endian_bytes (u32 (length message_data)) ++ message_data

take-append : (xs ys : List ℕ) → take (length xs) (xs ++ ys) ≡ xs
take-append [] ys = refl
take-append (x ∷ xs) ys = ap (λ zs. x ∷ zs) (take-append xs ys)

drop-append : (xs ys : List ℕ) → drop (length xs) (xs ++ ys) ≡ ys
drop-append [] ys = refl
drop-append (x ∷ xs) ys = drop-append xs ys

take-drop : (n : ℕ) (xs : List ℕ) → take n xs ++ drop n xs ≡ xs
take-drop zero xs = refl
take-drop (suc n) [] = refl
take-drop (suc n) (x ∷ xs) = ap (λ zs. x ∷ zs) (take-drop n xs)

length-take : (n : ℕ) (xs : List ℕ) → n ≤ length xs → length (take n xs) ≡ n
length-take zero xs h = refl
length-take (suc n) [] h = absurd (omega arith)
length-take (suc n) (x ∷ xs) h = ap suc (length-take n xs (omega arith))

big_endian_value-bytes : (n : ℕ) → n < 2 ^ 32 → big_endian_value (big_endian_bytes n) ≡ n
big_endian_value-bytes n h = omega arith

read_full-append : (xs ys : List ℕ) → read_full (length xs) (xs ++ ys) ≡ (some xs, ys)
unfolding read_full
read_full-append xs ys = ground (arith, length-append xs ys, take-append xs ys, drop-append xs ys)

read_sized-frame :
    (header message_data rest : List ℕ)
    → big_endian_value header ≡ length message_data
    → length message_data ≤ max_message_size
    → read_sized (some header, message_data ++ rest) ≡ (inr message_data, rest)
unfolding read_sized
read_sized-frame header message_data rest e h =
    ground (arith, e, read_full-append message_data rest)

pub read_message-frame :
    (message_data rest : List ℕ)
    → length message_data ≤ max_message_size
    → read_message (frame message_data ++ rest) ≡ (inr message_data, rest)
unfolding read_message
read_message-frame message_data rest h =
    let header = big_endian_bytes (u32 (length message_data)) in
    rw (read_full-append header (message_data ++ rest)) (
      read_sized-frame header message_data rest
        (big_endian_value-bytes (u32 (length message_data)) (omega arith) ∙ omega arith) h)

-- Messages written one after the other, and as many messages read.
unfoldable pub write_all : Writer → List (List ℕ) → List ℕ → List ℕ
write_all writer [] stream = stream
write_all writer (m ∷ ms) stream = write_all writer ms (write_message writer m stream).0

read_more : List (List ℕ) × List ℕ → ReadError ⊎ List ℕ → List ℕ → List (List ℕ) × List ℕ
read_more rest (inl e) reader = ([], reader)
read_more rest (inr m) reader = (m ∷ rest.0, rest.1)

unfoldable pub read_all : ℕ → List ℕ → List (List ℕ) × List ℕ
unfolding read_more
read_all zero reader = ([], reader)
read_all (suc count) reader =
    let (result, reader') = read_message reader in
    let rest = read_all count reader' in read_more rest result reader'

abbrev frames : List (List ℕ) → List ℕ
frames [] = []
frames (m ∷ ms) = frame m ++ frames ms

read_all-frames :
    (ms : List (List ℕ)) (rest : List ℕ)
    → All (λ m. length m ≤ max_message_size) ms
    → read_all (length ms) (frames ms ++ rest) ≡ (ms, rest)
unfolding read_all
read_all-frames [] rest h = refl
read_all-frames (m ∷ ms) rest h = rw (
  append_assoc (frame m) (frames ms) rest,
  read_message-frame m (frames ms ++ rest) h.0,
  read_all-frames ms rest h.1,
)

pub write_message-frame :
    (writer : Writer) (m stream : List ℕ)
    → ((b : List ℕ) → writer b ≡ (b, true))
    → length m ≤ max_message_size
    → (write_message writer m stream).0 ≡ stream ++ frame m
unfolding write_message
write_message-frame writer m stream ok h = ground (arith, ok (frame m))

write_all-frames :
    (writer : Writer) (ms : List (List ℕ)) (stream : List ℕ)
    → ((b : List ℕ) → writer b ≡ (b, true))
    → All (λ m. length m ≤ max_message_size) ms
    → write_all writer ms stream ≡ stream ++ frames ms
unfolding write_all write_message
write_all-frames writer [] stream ok h = sym (append-nil stream)
write_all-frames writer (m ∷ ms) stream ok h = rw (write_message-frame writer m stream ok h.0) (
    write_all-frames writer ms (stream ++ frame m) ok h.1
    ∙ append_assoc stream (frame m) (frames ms))

-- Messages within the size limit that a writer takes without an error are read back from the
-- stream, all of them, in their order and unchanged, and nothing is left of it.
pub read_all-write_all :
    (writer : Writer) (ms : List (List ℕ))
    → ((b : List ℕ) → writer b ≡ (b, true))
    → All (λ m. length m ≤ max_message_size) ms
    → read_all (length ms) (write_all writer ms []) ≡ (ms, [])
read_all-write_all writer ms ok h =
    rw (write_all-frames writer ms [] ok h, sym (append-nil (frames ms))) (read_all-frames ms [] h)

big_endian_bytes-value :
    (a b c d : ℕ)
    → a < 256
    → b < 256
    → c < 256
    → d < 256
    → big_endian_bytes (big_endian_value (a ∷ b ∷ c ∷ d ∷ [])) ≡ a ∷ b ∷ c ∷ d ∷ []
big_endian_bytes-value a b c d ha hb hc hd =
    let v = big_endian_value (a ∷ b ∷ c ∷ d ∷ []) in
    let first : v / 16777216 % 256 ≡ a = omega arith in
    let second : v / 65536 % 256 ≡ b = omega arith in
    let third : v / 256 % 256 ≡ c = omega arith in
    let last : v % 256 ≡ d = omega arith in rw (first, second, third, last) refl

read_sized-accepts :
    (a b c d : ℕ) (rest message_data : List ℕ)
    → let r = read_sized (some (a ∷ b ∷ c ∷ d ∷ []), rest) in
      r.0 ≡ inr message_data
      → (length message_data ≤ max_message_size)
        × (length message_data ≡ big_endian_value (a ∷ b ∷ c ∷ d ∷ []))
        × (message_data ++ r.1 ≡ rest)
unfolding read_sized read_full
read_sized-accepts a b c d rest message_data e =
    let v = big_endian_value (a ∷ b ∷ c ∷ d ∷ []) in
    ground (arith, take-drop v rest, length-take v rest, e)

read_message-four :
    (a b c d : ℕ) (rest : List ℕ)
    → read_message (a ∷ b ∷ c ∷ d ∷ rest) ≡ read_sized (some (a ∷ b ∷ c ∷ d ∷ []), rest)
unfolding read_message
read_message-four a b c d rest = ap read_sized (read_full-append (a ∷ b ∷ c ∷ d ∷ []) rest)

-- Whatever bytes arrive: where a message is read, it is within the size limit, and the bytes were
-- its frame followed by what the reader still holds.
pub read_message-accepts :
    (reader message_data : List ℕ)
    → All (λ b. b < 256) reader
    → (read_message reader).0 ≡ inr message_data
    → (length message_data ≤ max_message_size)
      × (frame message_data ++ (read_message reader).1 ≡ reader)
unfolding read_message read_full read_sized
read_message-accepts [] message_data bytes e = ground (arith, e)
read_message-accepts (a ∷ []) message_data bytes e = ground (arith, e)
read_message-accepts (a ∷ b ∷ []) message_data bytes e = ground (arith, e)
read_message-accepts (a ∷ b ∷ c ∷ []) message_data bytes e = ground (arith, e)
read_message-accepts (a ∷ b ∷ c ∷ d ∷ rest) message_data (ha, (hb, (hc, (hd, _)))) e =
    let (small, size, joined) =
      read_sized-accepts a b c d rest message_data
        (sym (ap (λ r. r.0) (read_message-four a b c d rest)) ∙ e) in
    let same : u32 (length message_data) ≡ big_endian_value (a ∷ b ∷ c ∷ d ∷ []) =
      omega (arith, small, size) in
    (
      small,
      ap (λ n. big_endian_bytes n ++ (message_data ++ (read_message (a ∷ b ∷ c ∷ d ∷ rest)).1)) same
          ∙ ap (λ h. h ++ (message_data ++ (read_message (a ∷ b ∷ c ∷ d ∷ rest)).1))
              (big_endian_bytes-value a b c d ha hb hc hd)
          ∙ ap (λ r. a ∷ b ∷ c ∷ d ∷ r)
              (ap (λ r. message_data ++ r.1) (read_message-four a b c d rest) ∙ joined),
    )

read_sized-short :
    (header message_data : List ℕ) (k : ℕ)
    → big_endian_value header ≡ length message_data
    → length message_data ≤ max_message_size
    → k < length message_data
    → (read_sized (some header, take k message_data)).0 ≡ inl body_failed
unfolding read_sized read_full
read_sized-short header message_data k e h short = ground (arith, e, length-take k message_data)

-- A stream that ends inside a frame gives an error and never a message: the header's before its
-- four bytes are there, the body's after.
pub read_message-cut :
    (message_data : List ℕ) (k : ℕ)
    → length message_data ≤ max_message_size
    → k < length (frame message_data)
    → (read_message (take k (frame message_data))).0
      ≡ inl (if ltb k 4 then header_failed else body_failed)
unfolding read_message read_full read_sized
read_message-cut message_data zero h short = refl
read_message-cut message_data (suc zero) h short = refl
read_message-cut message_data (suc (suc zero)) h short = refl
read_message-cut message_data (suc (suc (suc zero))) h short = refl
read_message-cut message_data (suc (suc (suc (suc k)))) h short =
    let header = big_endian_bytes (u32 (length message_data)) in
    let late : ltb (suc (suc (suc (suc k)))) 4 ≡ false = ground arith in
    rw late (
      ap (λ r. r.0) (read_message-four _ _ _ _ (take k message_data))
      ∙ read_sized-short header message_data k
          (big_endian_value-bytes (u32 (length message_data)) (omega arith) ∙ omega arith) h
          (omega arith))
