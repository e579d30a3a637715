-- ===== src/TlsSniffer.antt =====
-- The search for the server name in a TLS client hello: src/protocol/tls_sniffer.cpp.
-- `ok none` is `std::nullopt`. The two while loops take fuel; `TlsSniffer.Safety` shows that as
-- many rounds as the buffer has bytes are enough.
pub mod Safety
pub mod Tests
use cppbox.Prelude.{
  ℕ, zero, suc, ◌+◌, ◌-◌, ◌*◌, Bool, true, false, ◌&&◌, not, ◌||◌, bit_or, Option, none, some, List,
  length, take, drop, leb, ltb, ◌==◌, Result, Error, ok, err, stuck, out_of_bounds, if◌then◌else◌,
}
use cppbox.Utils
use cppbox.Utils.{read_be16}

-- A step of the search: it may end the search with `std::nullopt`.
abbrev pub Search : Type 0 → Type 0
Search A = Result (Option A)

infixl 5 ◌>>=◌ ◌>>◌
abbrev pub ◌>>=◌ : {A B : Type 0} → Search A → (A → Search B) → Search B
ok (some a) >>= f = f a
ok none >>= f = ok none
err e >>= f = err e
stuck >>= f = stuck

abbrev pub ◌>>◌ : {B : Type 0} → Search (Unit {0}) → Search B → Search B
m >> k = m >>= λ _. k

-- `if (!test) return std::nullopt;`
abbrev pub need : Bool → Search (Unit {0})
need true = ok (some tt)
need false = ok none

abbrev pub found : {A : Type 0} → Result A → Search A
found (ok a) = ok (some a)
found (err e) = err e
found stuck = stuck

-- `data[i]` and `read_be16(data, i)`.
abbrev pub byte_at : List ℕ → ℕ → Search ℕ
byte_at data_ i = found (Utils.byte data_ i)

abbrev pub be16_at : List ℕ → ℕ → Search ℕ
be16_at data_ i = found (read_be16 data_ i)

abbrev pub has_bytes : List ℕ → ℕ → ℕ → Bool
has_bytes data_ pos size = leb pos (length data_) && leb size (length data_ - pos)

-- `std::string(data + pos, size)`: every byte that it reads must lie in the buffer.
abbrev pub bytes_at : List ℕ → ℕ → ℕ → Search (List ℕ)
bytes_at data_ pos size =
    if leb (pos + size) (length data_)
    then ok (some (take size (drop pos data_)))
    else err out_of_bounds

-- The inner loop: `some name` leaves the function, `none` goes on with the next extension.
unfoldable pub name_loop : ℕ → List ℕ → ℕ → ℕ → Search (Option (List ℕ))
name_loop zero data_ name_pos name_list_end = stuck
name_loop (suc fuel) data_ name_pos name_list_end = elim (ltb name_pos name_list_end) [
  | false ↦ ok (some none)
  | true ↦ do
    need (has_bytes data_ name_pos 3)
    name_type ← byte_at data_ name_pos
    name_len ← be16_at data_ (name_pos + 1)
    need (has_bytes data_ (name_pos + 3) name_len)
    elim (name_type == 0) [
      | true ↦ bytes_at data_ (name_pos + 3) name_len >>= λ name. ok (some (some name))
      | false ↦ name_loop fuel data_ (name_pos + 3 + name_len) name_list_end
    ]
]

-- The branch for the server_name extension.
unfoldable pub server_names : List ℕ → ℕ → Search (Option (List ℕ))
server_names data_ pos = do
  need (has_bytes data_ pos 2)
  name_list_len ← be16_at data_ pos
  need (has_bytes data_ (pos + 2) name_list_len)
  name_loop (suc (length data_)) data_ (pos + 2) (pos + 2 + name_list_len)

unfoldable pub extension_body : ℕ → List ℕ → ℕ → Search (Option (List ℕ))
extension_body extension_type data_ pos = elim (extension_type == 0) [
  | true ↦ server_names data_ pos
  | false ↦ ok (some none)
]

-- The loop over the extensions.
unfoldable pub extension_loop : ℕ → List ℕ → ℕ → ℕ → Search (List ℕ)
extension_loop zero data_ pos extensions_end = stuck
extension_loop (suc fuel) data_ pos extensions_end = elim (ltb pos extensions_end) [
  | false ↦ ok none
  | true ↦ do
    need (has_bytes data_ pos 4)
    extension_type ← be16_at data_ pos
    extension_len ← be16_at data_ (pos + 2)
    need (has_bytes data_ (pos + 4) extension_len)
    name ← extension_body extension_type data_ (pos + 4)
    elim name [
      | some text ↦ ok (some text)
      | none ↦ extension_loop fuel data_ (pos + 4 + extension_len) extensions_end
    ]
]

-- The handshake length: three bytes.
abbrev pub be24 : ℕ → ℕ → ℕ → ℕ
be24 b0 b1 b2 = bit_or (bit_or (b0 * 65536) (b1 * 256)) b2

-- The record and handshake headers.
unfoldable pub read_headers : List ℕ → Search (Unit {0})
read_headers data_ = do
  need (has_bytes data_ 0 5)
  content_type ← byte_at data_ 0
  need (content_type == 0x16)
  record_len ← be16_at data_ 3
  need (has_bytes data_ 5 record_len)
  need (has_bytes data_ 5 4)
  handshake_type ← byte_at data_ 5
  need (handshake_type == 1)
  b0 ← byte_at data_ 6
  b1 ← byte_at data_ 7
  b2 ← byte_at data_ 8
  need (has_bytes data_ 9 (be24 b0 b1 b2))

-- A field behind a length of one byte, and one behind a length of two bytes: the position after it.
unfoldable pub skip_field8 : List ℕ → ℕ → Search ℕ
skip_field8 data_ pos = do
  need (has_bytes data_ pos 1)
  len ← byte_at data_ pos
  need (has_bytes data_ (pos + 1) len)
  ok (some (pos + 1 + len))

unfoldable pub skip_field16 : List ℕ → ℕ → Search ℕ
skip_field16 data_ pos = do
  need (has_bytes data_ pos 2)
  len ← be16_at data_ pos
  need (has_bytes data_ (pos + 2) len)
  ok (some (pos + 2 + len))

unfoldable pub sniff_tls_sni : List ℕ → Search (List ℕ)
sniff_tls_sni data_ = do
  read_headers data_
  need (has_bytes data_ 9 34)
  after_session ← skip_field8 data_ 43
  after_ciphers ← skip_field16 data_ after_session
  after_compression ← skip_field8 data_ after_ciphers
  extensions_end ← skip_field16 data_ after_compression
  extension_loop (suc (length data_)) data_ (after_compression + 2) extensions_end
