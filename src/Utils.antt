-- ===== src/Utils.antt =====
-- The byte helpers of src/core/utils.cpp. A buffer is a list of bytes, a pointer an offset into it;
-- an access outside of the buffer is the error `out_of_bounds`.
pub mod Bytes
pub mod Uuid
pub mod Cursor
pub mod Tests
use cppbox.Prelude.{
  ℕ, suc, ◌+◌, ◌-◌, ◌*◌, ◌/◌, ◌%◌, ◌<◌, bit_and, bit_or, Bool, true, false, ◌&&◌, Option, none,
  some, List, [], ◌∷◌, ◌++◌, String, length, get_elem?, set, leb, ltb, ◌==◌, if◌then◌else◌, Result,
  Error, ok, err, out_of_bounds, runtime_error, require, ◌>>=◌, ◌>>◌,
}

abbrev pub IsByte : ℕ → Type 0
IsByte b = b < 256

-- `data[i]`.
abbrev pub byte : List ℕ → ℕ → Result ℕ
byte data_ i = elim (get_elem? data_ i) [ none ↦ err out_of_bounds | some b ↦ ok b ]

-- `data[i] = v`.
abbrev pub store : List ℕ → ℕ → ℕ → Result (List ℕ)
store data_ i v = if ltb i (length data_) then ok (set data_ i v) else err out_of_bounds

-- `read_be16(p)` at `p = data + i`.
unfoldable pub read_be16_at : List ℕ → ℕ → Result ℕ
read_be16_at data_ i = do
  hi ← byte data_ i
  lo ← byte data_ (i + 1)
  ok (bit_or (hi * 256) lo % 65536)

abbrev pub truncated_packet : String
truncated_packet = "truncated packet"

-- `read_be16(data, offset)`, with its default message.
unfoldable pub read_be16 : List ℕ → ℕ → Result ℕ
unfolding read_be16_at
read_be16 data_ offset = do
  require (leb offset (length data_) && leb 2 (length data_ - offset)) truncated_packet
  read_be16_at data_ offset

unfoldable pub read_be32 : List ℕ → ℕ → Result ℕ
read_be32 data_ offset = do
  require (leb offset (length data_) && leb 4 (length data_ - offset)) truncated_packet
  b0 ← byte data_ offset
  b1 ← byte data_ (offset + 1)
  b2 ← byte data_ (offset + 2)
  b3 ← byte data_ (offset + 3)
  ok (bit_or (bit_or (bit_or (b0 * 16777216) (b1 * 65536)) (b2 * 256)) b3)

-- The two bytes that both versions of `write_be16` write.
abbrev pub be16_hi : ℕ → ℕ
be16_hi value = bit_and (value / 256) 255

abbrev pub be16_lo : ℕ → ℕ
be16_lo value = bit_and value 255

-- `write_be16(p, value)` at `p = data + i`.
unfoldable pub write_be16_at : List ℕ → ℕ → ℕ → Result (List ℕ)
write_be16_at data_ i value = do d ← store data_ i (be16_hi value); store d (i + 1) (be16_lo value)

-- `write_be16(out, value)`.
unfoldable pub write_be16 : List ℕ → ℕ → List ℕ
write_be16 out value = (out ++ (be16_hi value ∷ [])) ++ (be16_lo value ∷ [])

-- `std::tolower` in the "C" locale.
abbrev pub tolower : ℕ → ℕ
tolower c = if leb b'A' c && leb c b'Z' then c + 32 else c

-- `hex_value`, with `none` for -1.
unfoldable pub hex_value : ℕ → Option ℕ
hex_value c =
    if leb b'0' c && leb c b'9'
    then some (c - b'0')
    else if leb b'a' (tolower c) && leb (tolower c) b'f'
    then some (tolower c - b'a' + 10)
    else none

abbrev pub is_some {ℓ} : {A : Type ℓ} → Option A → Bool
is_some none = false
is_some (some a) = true

-- The first loop of `parse_uuid`: the digits without the dashes.
unfoldable pub uuid_digits : List ℕ → Result (List ℕ)
uuid_digits [] = ok []
uuid_digits (c ∷ uuid) =
    let rest = uuid_digits uuid in
    if c == b'-'
    then rest
    else require (is_some (hex_value c)) "invalid uuid character" >> rest >>= λ hex. ok (c ∷ hex)

-- `(hi << 4) | lo`, as an unsigned char.
abbrev pub hex_byte : ℕ → ℕ → ℕ
hex_byte hi lo = bit_or (hi * 16) lo % 256

abbrev pub hex_digit : ℕ → ℕ
hex_digit c = elim (hex_value c) [ none ↦ 0 | some v ↦ v ]

-- The second loop: a byte for each two digits.
unfoldable pub uuid_bytes : List ℕ → List ℕ
uuid_bytes (hi ∷ lo ∷ hex) = hex_byte (hex_digit hi) (hex_digit lo) ∷ uuid_bytes hex
uuid_bytes _ = []

unfoldable pub parse_uuid : List ℕ → Result (List ℕ)
parse_uuid uuid = do
  hex ← uuid_digits uuid
  require (length hex == 32) "uuid must contain 32 hex digits"
  ok (uuid_bytes hex)
