-- ===== src/TunInbound/Responses.antt =====
-- What `write_udp_response` of src/inbound/tun_inbound.cpp gives to the adapter.
use cppbox.Prelude.{
  ℕ, ◌+◌, ◌≤◌, ◌≡◌, ◌<◌, ◌/◌, ◌%◌, some, get_elem?, refl, sym, subst, ◌∙◌, inl, inr, false, List,
  [], ◌∷◌, ◌++◌, All, arith, length, ltb, take, drop, ok, ◌>>=◌,
}
use cppbox.Utils.{IsByte}
use cppbox.Checksum.{ip_header_len, recalc_ipv4_checksum, recalc_udp_checksum}
use cppbox.Checksum.Words.{Verifies}
use cppbox.Checksum.Verify.{recalc_ipv4_checksum-Verifies}
use cppbox.Checksum.Transport.{pseudo_list, recalc_udp_checksum-Verifies}
use cppbox.TunNat.{TunFlowKey}
use cppbox.TunInbound.{TunInbound, udp_response, write_udp_response}
use cppbox.TunInbound.Fields.{recalc_ipv4_checksum-Keeps}
use cppbox.TunInbound.Replies.{IsFlow, Ensures-ok}
use cppbox.TunInbound.Buffers.{
  recalc_ipv4_checksum-IsBuffer, recalc_udp_checksum-Keeps, take-eq, drop-eq,
}
use cppbox.TunInbound.Datagrams.{IsHeaded, IsHeaded-Keeps, Carries, udp_response-Carries}

-- The header with its checksum.
abbrev Signed : TunFlowKey → List ℕ → List ℕ → Type 0
Signed session data_ p = Carries session data_ p × Verifies (take 20 p)

sign :
    (session : TunFlowKey) (data_ q : List ℕ)
    → Carries session data_ q
    → (p : List ℕ) × (recalc_ipv4_checksum q ≡ ok p) × Signed session data_ p
sign session data_ q (b, h, body) =
    let len : ip_header_len 69 ≡ 20 = unfold ip_header_len in refl in
    let (p, e, sum) =
      recalc_ipv4_checksum-Verifies q 69 b.1 h.0 (omega (arith, len)) (omega (arith, len, b.0)) in
    let k = recalc_ipv4_checksum-Keeps q p e in
    let carried : Carries session data_ p = (
      recalc_ipv4_checksum-IsBuffer (28 + length data_) q p e b,
      IsHeaded-Keeps (length data_) session 10 12 q p (inl (omega arith, omega arith)) k h,
      (λ j. k (28 + j) (inr (omega arith)) ∙ body j),
    ) in
    (p, e, (carried, rw len at sum))

-- A packet with those headers and that data, both of its checksums right: the IPv4 header verifies, and so
-- does the segment behind its pseudo header, with a UDP
-- checksum that is not 0, which would mean none.
abbrev pub IsDelivered : TunFlowKey → List ℕ → List ℕ → Type 0
IsDelivered session data_ p =
    IsHeaded (length data_) session p
    × (drop 28 p ≡ data_)
    × Verifies (take 20 p)
    × Verifies (pseudo_list 17 20 (8 + length data_) p)
    × (hi : ℕ) × (lo : ℕ) × (get_elem? p 26 ≡ some hi)
    × (get_elem? p 27 ≡ some lo)
    × (0 < hi + lo)

sign_udp :
    (session : TunFlowKey) (data_ p : List ℕ)
    → 28 + length data_ ≤ 65535
    → Signed session data_ p
    → (r : List ℕ) × (recalc_udp_checksum 20 (8 + length data_) p ≡ ok r)
      × IsDelivered session data_ r
sign_udp session data_ p room ((b, h, body), sum) =
    let (r, value, e, verified, high, low, set) =
      recalc_udp_checksum-Verifies 20 (8 + length data_) p b.1 (omega arith) (omega arith)
        (omega arith) (omega (arith, b.0)) in
    let (b', k) = recalc_udp_checksum-Keeps (28 + length data_) 20 (8 + length data_) p r e b in
    let front : take 20 r ≡ take 20 p =
      take-eq 20 r p (omega (arith, b.0, b'.0)) (λ j lt. k j (inl (omega arith))) in
    let delivered : IsDelivered session data_ r = (
      IsHeaded-Keeps (length data_) session 26 28 p r (inr (omega arith)) k h,
      drop-eq 28 r data_ (omega (arith, b'.0)) (λ j. k (28 + j) (inr (omega arith)) ∙ body j),
      subst Verifies (sym front) sum,
      verified,
      value / 256 % 256,
      value % 256,
      high,
      low,
      set,
    ) in
    (r, e, delivered)

-- For a flow of 32 bit addresses and 16 bit ports and at most 65507 bytes of data, write_udp_response
-- returns and gives the adapter one packet more: its header has version 4, protocol 17 and both
-- lengths, it goes from the far end of the flow to the near end, the data follow the 28 bytes of
-- headers, and the header and the segment with its pseudo header verify,
-- the UDP checksum not being 0.
pub write_udp_response-IsDelivered :
    (session : TunFlowKey) (data_ : List ℕ) (s : TunInbound)
    → IsFlow session
    → All IsByte data_
    → 28 + length data_ ≤ 65535
    → (p : List ℕ) × (write_udp_response session data_ s
        ≡ ok (record s { written = s.written ++ (p ∷ []) }))
      × IsDelivered session data_ p
unfolding write_udp_response
write_udp_response-IsDelivered session data_ s flow bytes room =
    let (q, e, c) =
      Ensures-ok (Carries session data_) (udp_response session data_)
        (udp_response-Carries session data_ flow bytes room) in
    let (p, e1, signed) = sign session data_ q c in
    let (r, e2, d) = sign_udp session data_ p room signed in
    let small : ltb 65535 (28 + length data_) ≡ false = ground arith in
    (r, rw (write_udp_response, small, e, ◌>>=◌, e1, e2) refl, d)
