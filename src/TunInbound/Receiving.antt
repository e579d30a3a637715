-- ===== src/TunInbound/Receiving.antt =====
-- Receiving from the far end of a UDP flow: `recv_loop` of TunUdpFlow in src/inbound/tun_inbound.cpp.
use cppbox.Prelude.{
  ℕ, ◌+◌, ◌≡◌, refl, ap, ◌∙◌, inl, inr, Bool-cases, true, false, List, [], ◌∷◌, ◌++◌, append-nil,
  append_assoc, sym, All, arith, length, ltb, Result, ok, err, stuck,
}
use cppbox.Utils.{IsByte}
use cppbox.TunNat.{TunFlowKey}
use cppbox.TunInbound.{TunInbound, write_udp_response, erase_udp_flow}
use cppbox.TunInbound.Replies.{IsFlow}
use cppbox.TunInbound.Responses.{IsDelivered, write_udp_response-IsDelivered}

-- The datagrams that the socket receives, until it fails or is closed. An exception ends the loop too.
unfoldable pub recv_loop : TunFlowKey → ℕ → List (List ℕ) → TunInbound → Result TunInbound
recv_loop session nat_port [] s = ok (erase_udp_flow nat_port s)
recv_loop session nat_port (data_ ∷ rest) s = elim (write_udp_response session data_ s) [
  | ok written ↦ recv_loop session nat_port rest written
  | err e ↦ ok (erase_udp_flow nat_port s)
  | stuck ↦ stuck
]

-- The datagrams that fit into a packet.
abbrev pub fitting : List (List ℕ) → List (List ℕ)
fitting [] = []
fitting (data_ ∷ rest) = elim (ltb 65535 (28 + length data_)) [
  | true ↦ fitting rest
  | false ↦ data_ ∷ fitting rest
]

-- One packet for each datagram, in their order.
abbrev pub AllDelivered : TunFlowKey → List (List ℕ) → List (List ℕ) → Type 0
AllDelivered session [] [] = Unit
AllDelivered session [] (p ∷ ps) = ⊥
AllDelivered session (data_ ∷ rest) [] = ⊥
AllDelivered session (data_ ∷ rest) (p ∷ ps) =
    IsDelivered session data_ p × AllDelivered session rest ps

abbrev pub Delivers : TunFlowKey → ℕ → List (List ℕ) → TunInbound → Type 0
Delivers session nat_port datagrams s =
    (ps : List (List ℕ)) × (recv_loop session nat_port datagrams s
      ≡ ok (erase_udp_flow nat_port (record s { written = s.written ++ ps })))
    × AllDelivered session (fitting datagrams) ps

-- For a flow of 32 bit addresses and 16 bit ports, recv_loop gives the adapter one packet for each
-- datagram received that fits into a packet, in their order, and nothing else: each goes from the far
-- end of the flow to the near end, carries the bytes of its datagram, has the right lengths, and both
-- of its checksums are right: the 16 bit words of the IPv4 header, and those of the UDP segment with
-- its pseudo header, add up to 0xffff in one's complement, and the UDP checksum is not
-- 0. When nothing more is received, the flow is taken out of the table.
pub recv_loop-AllDelivered :
    (session : TunFlowKey) (nat_port : ℕ) (datagrams : List (List ℕ)) (s : TunInbound)
    → IsFlow session
    → All (All IsByte) datagrams
    → Delivers session nat_port datagrams s
unfolding recv_loop
recv_loop-AllDelivered session nat_port [] s flow bytes = (
  [],
  ap (λ w. ok (erase_udp_flow nat_port (record s { written = w }))) (sym (append-nil s.written)),
  tt,
)
recv_loop-AllDelivered session nat_port (data_ ∷ rest) s flow (first, bytes) =
    elim (Bool-cases (ltb 65535 (28 + length data_))) [
      | inl large ↦
          let dropped : write_udp_response session data_ s ≡ ok s =
            unfold write_udp_response in rw (write_udp_response, large) refl in
          let (ps, e, d) = recv_loop-AllDelivered session nat_port rest s flow bytes in
          (ps, rw (recv_loop, dropped) e, rw (fitting, AllDelivered, large) d)
      | inr small ↦
          let (p, e, d) =
            write_udp_response-IsDelivered session data_ s flow first (ground arith) in
          let (ps, e', ds) =
            recv_loop-AllDelivered session nat_port rest
              (record s { written = s.written ++ (p ∷ []) }) flow bytes in
          (
            p ∷ ps,
            rw (recv_loop, e)
                (e'
                  ∙ ap (λ w. ok (erase_udp_flow nat_port (record s { written = w })))
                      (append_assoc s.written (p ∷ []) ps)),
            rw (fitting, AllDelivered, small) (d, ds),
          )
    ]
