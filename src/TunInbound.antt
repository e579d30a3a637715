-- ===== src/TunInbound.antt =====
-- The packets of the TUN inbound: src/inbound/tun_inbound.cpp. A packet is its list of bytes, and what
-- is handed to Wintun is appended to `written`. The addresses are uint32_t values copied by memcpy,
-- which on the target holds the first byte lowest.
pub mod Total
pub mod TcpPackets
pub mod Handlers
pub mod Fields
pub mod Buffers
pub mod Datagrams
pub mod Responses
pub mod Receiving
pub mod Replies
pub mod Clients
pub mod Start
mod Tests
use cppbox.Prelude.{
  ℕ, suc, ◌+◌, ◌-◌, ◌*◌, ◌/◌, ◌%◌, bit_and, Bool, true, false, ◌||◌, ◌&&◌, not, Option, none, some,
  List, [], ◌∷◌, ◌++◌, length, take, drop, replicate, leb, ltb, ◌==◌, if◌then◌else◌, Result, ok,
  err, out_of_bounds, ◌>>=◌,
}
use cppbox.Prelude.Map.{Map, nat_key, find, insert, erase as erase_key}
use cppbox.Utils.{byte, store, read_be16_at, write_be16_at}
use cppbox.Checksum.{
  span, ip_header_len, recalc_ipv4_checksum, recalc_tcp_checksum, recalc_udp_checksum,
}
use cppbox.TunNat.{TunFlowKey, TunNat, TunNatLookupResult, lookup_or_create, lookup_back, erase}
use cppbox.UdpFlow.{TunUdpFlow, Spawn, new_flow, enqueue}

-- A flow of the table `udp_flows_`.
pub record FlowEntry : Type 0 where
  pub session : TunFlowKey
  pub queue : TunUdpFlow

-- The state of TunInbound that packets change. `spawned` are the coroutines started, by the port of
-- their flow, and `closed` the ports of the flows whose sockets are posted to be closed.
pub record TunInbound : Type 0 where
  pub tun_ip : ℕ
  pub tun_next_ip : ℕ
  pub tcp_listen_port : ℕ
  pub tcp_nat : TunNat
  pub udp_nat : TunNat
  pub udp_flows : Map ℕ FlowEntry
  pub spawned : List (ℕ × Spawn)
  pub closed : List ℕ
  pub written : List (List ℕ)

-- `memcpy(&value, p + i, 4)` and back.
unfoldable pub load_u32 : List ℕ → ℕ → Result ℕ
load_u32 p i = do
  b0 ← byte p i
  b1 ← byte p (i + 1)
  b2 ← byte p (i + 2)
  b3 ← byte p (i + 3)
  ok (b0 + b1 * 256 + b2 * 65536 + b3 * 16777216)

unfoldable pub store_u32 : List ℕ → ℕ → ℕ → Result (List ℕ)
store_u32 p i v = do
  p ← store p i (v % 256)
  p ← store p (i + 1) (v / 256 % 256)
  p ← store p (i + 2) (v / 65536 % 256)
  store p (i + 3) (v / 16777216 % 256)

-- A handler's return value, with the packet that it has changed in place.
pub record Handled : Type 0 where
  pub state : TunInbound
  pub packet : List ℕ
  pub write_back : Bool

-- `return false` with nothing changed.
abbrev pub ignored : TunInbound → List ℕ → Result Handled
ignored s packet = ok (record { state = s; packet = packet; write_back = false })

-- `if (test) return false;`
abbrev pub unless : Bool → TunInbound → List ℕ → Result Handled → Result Handled
unless true s packet rest = ignored s packet
unless false s packet rest = rest

-- The new addresses and ports, then both checksums.
unfoldable pub rewrite_tcp : List ℕ → ℕ → ℕ → ℕ → ℕ → ℕ → ℕ → Result (List ℕ)
rewrite_tcp packet tcp tcp_len src_ip dst_ip src_port dst_port = do
  p ← store_u32 packet 12 src_ip
  p ← store_u32 p 16 dst_ip
  p ← write_be16_at p tcp src_port
  p ← write_be16_at p (tcp + 2) dst_port
  p ← recalc_ipv4_checksum p
  recalc_tcp_checksum tcp tcp_len p

unfoldable pub handle_tcp_from_local_relay : TunInbound → List ℕ → ℕ → ℕ → ℕ → Result Handled
handle_tcp_from_local_relay s packet tcp tcp_len nat_port = elim (lookup_back nat_port s.tcp_nat) [
  | none ↦ ignored s packet
  | some session ↦
      (rewrite_tcp packet tcp tcp_len session.dst_ip session.src_ip session.dst_port
          session.src_port
        >>= λ p. ok (record { state = s; packet = p; write_back = true }))
]

unfoldable pub handle_tcp_from_stack : TunInbound → List ℕ → ℕ → ℕ → TunFlowKey → Result Handled
handle_tcp_from_stack s packet tcp tcp_len key = do
  (nat, nat_result) ← lookup_or_create key s.tcp_nat
  p ← rewrite_tcp packet tcp tcp_len s.tun_next_ip s.tun_ip nat_result.nat_port s.tcp_listen_port
  ok (record { state = record s { tcp_nat = nat }; packet = p; write_back = true })

-- `handle_tcp_packet` behind its tests.
unfoldable pub route_tcp : TunInbound → List ℕ → ℕ → ℕ → Result Handled
route_tcp s packet tcp tcp_len = do
  src_ip ← load_u32 packet 12
  dst_ip ← load_u32 packet 16
  src_port ← read_be16_at packet tcp
  dst_port ← read_be16_at packet (tcp + 2)
  elim ((src_ip == s.tun_ip) && (src_port == s.tcp_listen_port)) [
    | true ↦ handle_tcp_from_local_relay s packet tcp tcp_len dst_port
    | false ↦
        handle_tcp_from_stack s packet tcp tcp_len
          (record { src_ip = src_ip; src_port = src_port; dst_ip = dst_ip; dst_port = dst_port })
  ]

unfoldable pub handle_tcp_packet : TunInbound → List ℕ → Result Handled
handle_tcp_packet s packet = unless (ltb (length packet) 20) s packet do
  first ← byte packet 0
  protocol ← byte packet 9
  unless (not (first / 16 == 4) || not (protocol == 6)) s packet (
      unless (ltb (length packet) (ip_header_len first + 20)) s packet do
        total_len ← read_be16_at packet 2
        unless (ltb (length packet) total_len || ltb total_len (ip_header_len first + 20)) s packet
            (route_tcp s packet (ip_header_len first) (total_len - ip_header_len first)))

-- `erase_udp_flow`.
unfoldable pub erase_udp_flow : ℕ → TunInbound → TunInbound
erase_udp_flow nat_port s = elim (find nat_port s.udp_flows) [
  | none ↦ record s { udp_nat = erase nat_port s.udp_nat }
  | some flow ↦ record s {
    udp_flows = erase_key nat_port s.udp_flows;
    udp_nat = erase nat_port s.udp_nat;
    closed = s.closed ++ (nat_port ∷ []);
  }
]

abbrev pub erase_evicted : Option ℕ → TunInbound → TunInbound
erase_evicted none s = s
erase_evicted (some nat_port) s = erase_udp_flow nat_port s

-- The flow of a port, or a new one.
abbrev pub flow_for : TunFlowKey → Option FlowEntry → FlowEntry
flow_for session none = record { session = session; queue = new_flow }
flow_for session (some flow) = flow

-- `flow->enqueue(payload)` on the flow of the port.
unfoldable pub enqueue_on : ℕ → TunFlowKey → List ℕ → TunInbound → TunInbound
enqueue_on nat_port session payload s =
    let flow = flow_for session (find nat_port s.udp_flows) in
    let (queue, spawned) = enqueue payload flow.queue in
    record s {
      udp_flows = insert nat_port (record flow { queue = queue }) s.udp_flows;
      spawned = s.spawned ++ ((nat_port, spawned) ∷ []);
    }

abbrev pub deliver : Option TunFlowKey → ℕ → List ℕ → TunInbound → TunInbound
deliver none nat_port payload s = s
deliver (some session) nat_port payload s = enqueue_on nat_port session payload s

-- `handle_udp_packet` behind its tests.
unfoldable pub route_udp : TunInbound → List ℕ → ℕ → ℕ → Result Handled
route_udp s packet udp_header udp_len = do
  src_ip ← load_u32 packet 12
  dst_ip ← load_u32 packet 16
  src_port ← read_be16_at packet udp_header
  dst_port ← read_be16_at packet (udp_header + 2)
  (nat, nat_result) ←
      lookup_or_create
        (record { src_ip = src_ip; src_port = src_port; dst_ip = dst_ip; dst_port = dst_port })
        s.udp_nat
  payload ← span (udp_header + 8) (udp_len - 8) packet
  let s = erase_evicted nat_result.evicted_nat_port (record s { udp_nat = nat })
  ignored (deliver (lookup_back nat_result.nat_port s.udp_nat) nat_result.nat_port payload s) packet

unfoldable pub handle_udp_packet : TunInbound → List ℕ → Result Handled
handle_udp_packet s packet = unless (ltb (length packet) 20) s packet do
  first ← byte packet 0
  protocol ← byte packet 9
  unless (not (first / 16 == 4) || not (protocol == 17)) s packet (
      unless (ltb (length packet) (ip_header_len first + 8)) s packet do
        total_len ← read_be16_at packet 2
        unless (ltb (length packet) total_len || ltb total_len (ip_header_len first + 8)) s packet
            do
              fragment ← read_be16_at packet 6
              unless (not (bit_and fragment 16383 == 0)) s packet do
                udp_len ← read_be16_at packet (ip_header_len first + 4)
                unless (ltb udp_len 8 || ltb total_len (ip_header_len first + udp_len)) s packet
                    (route_udp s packet (ip_header_len first) udp_len))

unfoldable pub handle_ipv4_packet : TunInbound → List ℕ → Result Handled
handle_ipv4_packet s packet = unless (ltb (length packet) 20) s packet do
  first ← byte packet 0
  unless (not (first / 16 == 4)) s packet do
    protocol ← byte packet 9
    elim (protocol == 6) [
      | true ↦ handle_tcp_packet s packet
      | false ↦ elim (protocol == 17) [
        | true ↦ handle_udp_packet s packet
        | false ↦ ignored s packet
      ]
    ]

-- The body of `packet_loop` for a packet that Wintun has received.
unfoldable pub receive_packet : TunInbound → List ℕ → Result TunInbound
receive_packet s packet = do
  h ← handle_ipv4_packet s packet
  ok (
      if h.write_back
      then record h.state { written = h.state.written ++ (h.packet ∷ []) }
      else h.state)

-- The header of `write_udp_response`, ahead of the checksums.
unfoldable pub udp_response : TunFlowKey → List ℕ → Result (List ℕ)
udp_response session data_ = do
  p ← store (replicate (28 + length data_) 0) 0 69
  p ← store p 8 64
  p ← store p 9 17
  p ← write_be16_at p 2 ((28 + length data_) % 65536)
  p ← write_be16_at p 6 16384
  p ← store_u32 p 12 session.dst_ip
  p ← store_u32 p 16 session.src_ip
  p ← write_be16_at p 20 session.dst_port
  p ← write_be16_at p 22 session.src_port
  p ← write_be16_at p 24 ((8 + length data_) % 65536)
  ok (take 28 p ++ data_)

unfoldable pub write_udp_response : TunFlowKey → List ℕ → TunInbound → Result TunInbound
write_udp_response session data_ s = elim (ltb 65535 (28 + length data_)) [
  | true ↦ ok s
  | false ↦
      (udp_response session data_ >>= λ p. recalc_ipv4_checksum p >>= λ p.
      recalc_udp_checksum 20 (8 + length data_) p >>= λ p.
      ok (record s { written = s.written ++ (p ∷ []) }))
]
