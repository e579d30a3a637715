-- ===== src/Checksum/Tests.antt =====
-- The checksum at concrete packets.
use cppbox.Prelude.{
  ℕ, ◌≡◌, refl, List, [], ◌∷◌, ◌++◌, arith, ok, replicate, length, get_elem?, ◌+◌, ◌≢◌,
}
use cppbox.Prelude.Recursion.{lt_wf}
use cppbox.Checksum.{checksum, fold, fold_loop, sum_words, ip_header_len, recalc_tcp_checksum}
use cppbox.Checksum.Words.{Verifies}
use cppbox.Checksum.Transport.{pseudo_list, recalc_tcp_checksum-Verifies}
use native.Mathlib.Decide.{dec_lt}

-- An IPv4 header of 20 bytes, from 172.16.10.99 to 172.16.10.12.
abbrev header : List ℕ
header =
    0x45 ∷ 0x00 ∷ 0x00 ∷ 0x3c ∷ 0x1c ∷ 0x46 ∷ 0x40 ∷ 0x00 ∷ 0x40 ∷ 0x06 ∷ 0x00 ∷ 0x00 ∷ 0xac ∷ 0x10
    ∷ 0x0a ∷ 0x63 ∷ 0xac ∷ 0x10 ∷ 0x0a ∷ 0x0c ∷ []

abbrev segment_packet : List ℕ
segment_packet = header ++ replicate 20 7

checksum-header : checksum header ≡ 0xb1e6
unfolding checksum fold fold_loop sum_words lt_wf dec_lt
checksum-header = refl

full_header : ip_header_len 0x45 ≡ 20
unfolding ip_header_len
full_header = refl

recalc_tcp_checksum-Verifies_example :
    (p : List ℕ) × (recalc_tcp_checksum 20 20 segment_packet ≡ ok p)
    × Verifies (pseudo_list 6 20 20 p)
    × (length p ≡ length segment_packet)
    × ((i : ℕ) → 20 + 16 ≢ i → 20 + 17 ≢ i → get_elem? p i ≡ get_elem? segment_packet i)
recalc_tcp_checksum-Verifies_example =
    recalc_tcp_checksum-Verifies 20 20 segment_packet (omega arith) (omega arith) (omega arith)
      (omega arith) (omega arith)
