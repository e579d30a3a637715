-- ===== src/Checksum.antt =====
-- The Internet checksum of the TUN inbound: src/inbound/tun_checksum.cpp. A pointer into a packet
-- is an offset into its list of bytes.
pub mod Fold
pub mod Words
pub mod Verify
pub mod Transport
pub mod Tests
use cppbox.Prelude.{
  ℕ, suc, ◌+◌, ◌-◌, ◌*◌, ◌/◌, ◌%◌, ◌^◌, ◌<◌, ◌≤◌, bit_and, bit_or, Bool, true, false, List, [], ◌∷◌,
  ◌++◌, length, drop, take, leb, ◌==◌, if◌then◌else◌, Result, ok, err, out_of_bounds, ◌>>=◌, arith,
}
use cppbox.Prelude.Recursion.{Acc, lt_wf}
use cppbox.Prelude.Bits.{and_65535}
use cppbox.Utils.{byte, store}
use mathlib.Core.Logic.{dite}
use native.Mathlib.Decide.{dec_lt}

-- `uint32_t` addition.
abbrev pub add32 : ℕ → ℕ → ℕ
add32 a b = (a + b) % 4294967296

-- `(data[i] << 8) | data[i + 1]` as a uint16_t.
abbrev pub word : ℕ → ℕ → ℕ
word hi lo = bit_or (hi * 256) lo % 65536

-- The loop over the words, with the odd byte at the end.
unfoldable pub sum_words : List ℕ → ℕ → ℕ
sum_words [] sum = sum
sum_words (b ∷ []) sum = add32 sum (b * 256 % 65536)
sum_words (hi ∷ lo ∷ rest) sum = sum_words rest (add32 sum (word hi lo))

-- The body of `while (sum >> 16)`.
abbrev pub fold_once : ℕ → ℕ
fold_once sum = add32 (bit_and sum 65535) (sum / 65536)

pub fold_once-lt : (sum : ℕ) → 0 < sum / 65536 → fold_once sum < sum
fold_once-lt sum h = omega (arith, and_65535 sum)

unfoldable pub fold_loop : (sum : ℕ) → Acc ◌<◌ sum → ℕ
fold_loop sum (Acc.intro _ smaller) =
    dite (dec_lt 0 (sum / 65536))
      (λ h. fold_loop (fold_once sum) (smaller (fold_once sum) (fold_once-lt sum h))) (λ _. sum)

unfoldable pub fold : ℕ → ℕ
fold sum = fold_loop sum (lt_wf.apply sum)

-- `static_cast<uint16_t>(~sum)`.
abbrev pub complement16 : ℕ → ℕ
complement16 sum = (4294967295 - sum) % 65536

unfoldable pub checksum : List ℕ → ℕ
checksum data_ = complement16 (fold (sum_words data_ 0))

-- The span of `len` bytes at `offset`, which must lie in the buffer.
abbrev pub span : ℕ → ℕ → List ℕ → Result (List ℕ)
span offset len data_ =
    if leb (offset + len) (length data_)
    then ok (take len (drop offset data_))
    else err out_of_bounds

-- The two stores at the end of each `recalc_` function.
unfoldable pub store_checksum : ℕ → ℕ → ℕ → List ℕ → Result (List ℕ)
store_checksum hi lo value p = do p' ← store p hi (value / 256 % 256); store p' lo (value % 256)

unfoldable pub ip_header_len : ℕ → ℕ
ip_header_len first = bit_and first 15 * 4 % 256

unfoldable pub recalc_ipv4_checksum : List ℕ → Result (List ℕ)
recalc_ipv4_checksum ip = do
  p ← store ip 10 0
  p' ← store p 11 0
  first ← byte p' 0
  header ← span 0 (ip_header_len first) p'
  store_checksum 10 11 (checksum header) p'

-- The pseudo header and the segment, as both transport checksums sum them.
unfoldable pub pseudo_packet : ℕ → ℕ → ℕ → List ℕ → Result (List ℕ)
pseudo_packet protocol offset len p = do
  addresses ← span 12 8 p
  segment ← span offset len p
  ok ((addresses ++ (0 ∷ protocol ∷ (len / 256 % 256) ∷ (len % 256) ∷ [])) ++ segment)

unfoldable pub recalc_tcp_checksum : ℕ → ℕ → List ℕ → Result (List ℕ)
recalc_tcp_checksum tcp tcp_len packet = do
  p ← store packet (tcp + 16) 0
  p' ← store p (tcp + 17) 0
  pseudo ← pseudo_packet 6 tcp tcp_len p'
  store_checksum (tcp + 16) (tcp + 17) (checksum pseudo) p'

-- A UDP checksum of 0 is sent as 0xffff.
abbrev pub udp_value : ℕ → ℕ
udp_value value = if value == 0 then 65535 else value

unfoldable pub recalc_udp_checksum : ℕ → ℕ → List ℕ → Result (List ℕ)
recalc_udp_checksum udp udp_len packet = do
  p ← store packet (udp + 6) 0
  p' ← store p (udp + 7) 0
  pseudo ← pseudo_packet 17 udp udp_len p'
  store_checksum (udp + 6) (udp + 7) (udp_value (checksum pseudo)) p'
