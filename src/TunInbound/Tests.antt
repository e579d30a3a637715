-- ===== src/TunInbound/Tests.antt =====
-- Concrete runs of TunInbound.
use cppbox.Prelude.Recursion.{lt_wf}
use cppbox.Prelude.Map.{nat_key, find, insert, erase}
use native.Mathlib.Decide.{dec_lt}
use cppbox.Utils.{write_be16_at, read_be16_at}
use cppbox.Prelude.{some, true, refl, ℕ, ◌≡◌, ◌++◌, List, [], ◌∷◌, arith, replicate, ok}
use cppbox.Checksum.{
  ip_header_len, recalc_ipv4_checksum, recalc_tcp_checksum, pseudo_packet, store_checksum, checksum,
  fold, fold_loop, sum_words,
}
use cppbox.TunNat.{
  init, TunFlowKey, lookup_or_create, create, make_room, evict_one_locked, evict_loop,
  allocate_port_locked, allocate_loop, touch_locked, remove_first,
}
use cppbox.TunNat.Invariant.{init-IsValid}
use cppbox.Address.{ipv4_address}
use cppbox.Address.Tests.{tagged, tagged-IsFaithful}
use cppbox.TunInbound.Clients.{handles, accept_client, accept_client-handle_tcp_from_stack}
use cppbox.TunInbound.Fields.{HasFields}
use cppbox.TunInbound.Receiving.{Delivers, recv_loop-AllDelivered}
use cppbox.TunInbound.Replies.{route_tcp-handle_tcp_from_stack}
use cppbox.TunInbound.{
  TunInbound, load_u32, store_u32, rewrite_tcp, route_tcp, handle_tcp_from_stack, Handled,
}

-- The state after `start`.
abbrev started : TunInbound
started = record {
  tun_ip = 16777386;
  tun_next_ip = 33554602;
  tcp_listen_port = 5000;
  tcp_nat = init 0;
  udp_nat = init 1024;
  udp_flows = [];
  spawned = [];
  closed = [];
  written = [];
}

-- A TCP packet of 40 bytes.
abbrev tcp_packet : List ℕ
tcp_packet =
    (69 ∷ 0 ∷ 0 ∷ 40 ∷ 0 ∷ 0 ∷ 64 ∷ 0 ∷ 64 ∷ 6 ∷ 0 ∷ 0 ∷ [])
    ++ (10 ∷ 0 ∷ 0 ∷ 1 ∷ 8 ∷ 8 ∷ 8 ∷ 8 ∷ 195 ∷ 80 ∷ 1 ∷ 187 ∷ replicate 16 0)

-- The flow of that packet.
abbrev web : TunFlowKey
web = record { src_ip = 16777226; src_port = 50000; dst_ip = 134744072; dst_port = 443 }

-- The table with that flow, and the packet that is sent to the relay.
abbrev one_flow : TunInbound
one_flow = record started {
  tcp_nat = record {
    next_port = 10001;
    max_sessions = 0;
    forward = (web, 10000) ∷ [];
    reverse = (10000, web) ∷ [];
    lru = 10000 ∷ [];
  };
}

abbrev sent : Handled
sent = record {
  state = one_flow;
  packet =
      (69 ∷ 0 ∷ 0 ∷ 40 ∷ 0 ∷ 0 ∷ 64 ∷ 0 ∷ 64 ∷ 6 ∷ 230 ∷ 204 ∷ [])
      ++ (170 ∷ 0 ∷ 0 ∷ 2 ∷ 170 ∷ 0 ∷ 0 ∷ 1 ∷ 39 ∷ 16 ∷ 19 ∷ 136 ∷ replicate 12 0)
      ++ (113 ∷ 73 ∷ 0 ∷ 0 ∷ []);
  write_back = true;
}

sent_ok : handle_tcp_from_stack started tcp_packet 20 20 web ≡ ok sent
unfolding handle_tcp_from_stack lookup_or_create create make_room evict_one_locked evict_loop
    allocate_port_locked allocate_loop touch_locked remove_first init find insert erase rewrite_tcp
    store_u32 write_be16_at recalc_ipv4_checksum recalc_tcp_checksum pseudo_packet store_checksum
    ip_header_len checksum fold fold_loop sum_words lt_wf dec_lt
sent_ok = refl

-- A reply of the relay to the NAT port.
abbrev reply : List ℕ
reply =
    (69 ∷ 0 ∷ 0 ∷ 40 ∷ 0 ∷ 0 ∷ 64 ∷ 0 ∷ 64 ∷ 6 ∷ 0 ∷ 0 ∷ [])
    ++ (170 ∷ 0 ∷ 0 ∷ 1 ∷ 170 ∷ 0 ∷ 0 ∷ 2 ∷ 19 ∷ 136 ∷ 39 ∷ 16 ∷ replicate 16 0)

route_tcp-handle_tcp_from_stack_example :
    HasFields sent.packet 20 started.tun_next_ip started.tun_ip 10000 started.tcp_listen_port
    × (h' : Handled) × (route_tcp one_flow reply 20 20 ≡ ok h')
    × (h'.write_back ≡ true)
    × HasFields h'.packet 20 134744072 16777226 443 50000
unfolding load_u32 read_be16_at ip_header_len init
route_tcp-handle_tcp_from_stack_example =
    route_tcp-handle_tcp_from_stack started one_flow tcp_packet reply 69 20 20 20 20 10000 33554602
      web sent (init-IsValid 0) (omega arith, omega arith, omega arith, omega arith)
      (omega arith, omega arith, omega arith) (omega arith) sent_ok refl refl
      (refl, omega arith, omega arith, omega arith, omega arith) (refl, refl, refl, refl)

accept_client-handle_tcp_from_stack_example :
    accept_client tagged one_flow (some 10000)
    ≡ ok (
        handles (record {
          destination = record { host = ipv4_address (8 ∷ 8 ∷ 8 ∷ 8 ∷ []); port = 443 };
          initial_payload = [];
        }))
unfolding load_u32 read_be16_at init
accept_client-handle_tcp_from_stack_example =
    accept_client-handle_tcp_from_stack tagged started tcp_packet 20 20 10000 8 8 8 8 web sent
      tagged-IsFaithful (init-IsValid 0) (omega arith) (omega arith, omega arith, omega arith) refl
      refl refl refl (omega arith, omega arith, omega arith, omega arith) refl sent_ok refl

recv_loop-AllDelivered_example : Delivers web 10000 ((7 ∷ 9 ∷ []) ∷ [] ∷ (1 ∷ []) ∷ []) started
recv_loop-AllDelivered_example =
    recv_loop-AllDelivered web 10000 ((7 ∷ 9 ∷ []) ∷ [] ∷ (1 ∷ []) ∷ []) started
      (omega arith, omega arith, omega arith, omega arith)
      ((omega arith, (omega arith, tt)), (tt, ((omega arith, tt), tt)))
