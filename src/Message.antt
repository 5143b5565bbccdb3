-- ===== src/Message.antt =====
-- internal/message/codec.go: the frames on the stream. A byte is a number below 256. The latency
-- callback of the reader is a measurement and has no part here.
pub mod Framing
pub mod Create
pub mod Conversation
mod Tests
use gateway_test.Prelude.{
  ℕ, ◌+◌, ◌*◌, ◌/◌, ◌%◌, refl, ◌⊎◌, inl, inr, Bool, Option, none, some, List, [], ◌∷◌, ◌++◌, arith,
  ltb, leb, if◌then◌else◌, nat_eq, string_eq, length, take, drop, u32,
}

abbrev pub message_header_size : ℕ
message_header_size = 4

abbrev pub max_message_size : ℕ
max_message_size = 1024 * 1024

pub data ReadError : Type 0 where
  header_failed message_too_long body_failed : ReadError

pub data WriteError : Type 0 where
  too_large write_failed : WriteError

-- io.ReadFull: the bytes, or an error, and what the reader still holds. An error uses up the rest.
pub read_full : ℕ → List ℕ → Option (List ℕ) × List ℕ
read_full n reader =
    if leb n (length reader) then (some (take n reader), drop n reader) else (none, [])

-- binary.BigEndian.Uint32 reads the first four bytes, and panics on fewer.
abbrev pub big_endian_value : List ℕ → ℕ
big_endian_value (a ∷ b ∷ c ∷ d ∷ _) = a * 16777216 + b * 65536 + c * 256 + d
big_endian_value _ = 0

-- binary.Write of a uint32.
abbrev pub big_endian_bytes : ℕ → List ℕ
big_endian_bytes n = n / 16777216 % 256 ∷ n / 65536 % 256 ∷ n / 256 % 256 ∷ n % 256 ∷ []

read_body : Option (List ℕ) × List ℕ → (ReadError ⊎ List ℕ) × List ℕ
read_body (none, reader) = (inl body_failed, reader)
read_body (some message_data, reader) = (inr message_data, reader)

read_sized : Option (List ℕ) × List ℕ → (ReadError ⊎ List ℕ) × List ℕ
unfolding read_body
read_sized (none, reader) = (inl header_failed, reader)
read_sized (some header, reader) =
    let message_len = big_endian_value header in
    if ltb max_message_size message_len
    then (inl message_too_long, reader)
    else read_body (read_full message_len reader)

unfoldable pub read_message : List ℕ → (ReadError ⊎ List ℕ) × List ℕ
unfolding read_sized
read_message reader = read_sized (read_full message_header_size reader)

-- What a writer takes of a buffer, and whether it returns no error.
abbrev pub Writer : Type 0
Writer = List ℕ → List ℕ × Bool

-- The stream is what the writer took so far.
unfoldable pub write_message : Writer → List ℕ → List ℕ → List ℕ × Option WriteError
write_message writer message_data stream =
    let (taken, ok) = writer (big_endian_bytes (u32 (length message_data)) ++ message_data) in
    if ltb max_message_size (length message_data)
    then (stream, some too_large)
    else (stream ++ taken, if ok then none else some write_failed)
