-- ===== src/TunInbound/Clients.antt =====
-- The connections that the local relay of src/inbound/tun_inbound.cpp accepts, its packet loop and its end.
-- A packet or an accepted socket comes as an event.
use cppbox.Prelude.{
  ℕ, ◌+◌, ◌*◌, ◌/◌, ◌%◌, ◌<◌, ◌≤◌, ◌≡◌, refl, sym, subst, ◌∙◌, Bool, true, false, Option, none,
  some, List, [], ◌∷◌, ◌++◌, arith, get_elem?, Result, ok, ok_injective, ◌>>=◌,
}
use cppbox.Prelude.Map.{Map, nat_key}
use cppbox.Utils.{read_be16_at}
use cppbox.Address.{
  AddressText, IsFaithful, Host, ipv4_address, Session, parse_v4, address_v4_from_net_order_u32,
}
use cppbox.TunNat.{TunFlowKey, lookup_back, erase}
use cppbox.TunNat.Invariant.{IsValid}
use cppbox.TunInbound.{
  FlowEntry, TunInbound, Handled, load_u32, handle_tcp_from_stack, receive_packet,
}
use cppbox.TunInbound.Fields.{load_u32_lem}
use cppbox.TunInbound.Replies.{handle_tcp_from_stack-Sent}

-- What `handle_client` does with a socket: it closes it, or hands it on with a session.
pub data Client : Type 0 where
  closes : Client
  handles : Session → Client

module _ (t : AddressText) where
  -- `Host::ipv4(ipv4_to_string(value))`.
  abbrev pub flow_host : ℕ → Result Host
  flow_host value = parse_v4 t (t.print_v4 (address_v4_from_net_order_u32 value))

  unfoldable pub flow_session : TunFlowKey → Result Session
  flow_session flow = flow_host flow.dst_ip >>= λ host.
      ok (record {
        destination = record { host = host; port = flow.dst_port };
        initial_payload = [];
      })

  -- `handle_client` up to the call of the handler. The port is that of the peer, if it is known.
  unfoldable pub accept_client : TunInbound → Option ℕ → Result Client
  accept_client s none = ok closes
  accept_client s (some nat_port) = elim (lookup_back nat_port s.tcp_nat) [
    | none ↦ ok closes
    | some flow ↦ (flow_session flow >>= λ session. ok (handles session))
  ]

-- `handle_client` behind the handler, whose exceptions are caught.
unfoldable pub finish_client : TunInbound → ℕ → TunInbound
finish_client s nat_port = record s { tcp_nat = erase nat_port s.tcp_nat }

-- What `wintun_.receive()` gives, with the error where it gives no packet.
pub data Received : Type 0 where
  packet : List ℕ → Received
  no_more_items : Received
  handle_eof : Received
  failed : Received

-- `packet_loop`, on what is received one after another until it is stopped; after an error the loop is left.
unfoldable pub packet_loop : List Received → TunInbound → Result TunInbound
packet_loop [] s = ok s
packet_loop (packet p ∷ rest) s = receive_packet s p >>= packet_loop rest
packet_loop (no_more_items ∷ rest) s = packet_loop rest s
packet_loop (handle_eof ∷ rest) s = ok s
packet_loop (failed ∷ rest) s = ok s

abbrev pub flow_ports : Map ℕ FlowEntry → List ℕ
flow_ports [] = []
flow_ports ((nat_port, flow) ∷ flows) = nat_port ∷ flow_ports flows

-- `stopping_`, the acceptor and the routes, next to the state that packets change.
pub record TunLife : Type 0 where
  pub state : TunInbound
  pub stopping : Bool
  pub acceptor_open : Bool
  pub routes_configured : Bool

-- `stop`, by the value that `stopping_` had.
abbrev pub stop_when : Bool → TunLife → TunLife
stop_when true life = life
stop_when false life = record {
  state = record life.state {
    udp_flows = [];
    closed = life.state.closed ++ flow_ports life.state.udp_flows;
  };
  stopping = true;
  acceptor_open = false;
  routes_configured = false;
}

unfoldable pub stop_tun : TunLife → TunLife
stop_tun life = stop_when life.stopping life

-- The bytes of an address come back from its number.
address_v4-load_u32 :
    (p : List ℕ) (i b0 b1 b2 b3 value : ℕ)
    → get_elem? p i ≡ some b0
    → get_elem? p (i + 1) ≡ some b1
    → get_elem? p (i + 2) ≡ some b2
    → get_elem? p (i + 3) ≡ some b3
    → (b0 < 256) × (b1 < 256) × (b2 < 256) × (b3 < 256)
    → load_u32 p i ≡ ok value
    → address_v4_from_net_order_u32 value ≡ b0 ∷ b1 ∷ b2 ∷ b3 ∷ []
unfolding address_v4_from_net_order_u32
address_v4-load_u32 p i b0 b1 b2 b3 value e0 e1 e2 e3 (l0, l1, l2, l3) e =
    let w : b0 + b1 * 256 + b2 * 65536 + b3 * 16777216 ≡ value =
      ok_injective (sym (load_u32_lem p i b0 b1 b2 b3 e0 e1 e2 e3) ∙ e) in
    let f0 : value % 256 ≡ b0 = omega arith in
    let f1 : value / 256 % 256 ≡ b1 = omega arith in
    let f2 : value / 65536 % 256 ≡ b2 = omega arith in
    let f3 : value / 16777216 % 256 ≡ b3 = omega arith in
    rw (address_v4_from_net_order_u32, f0, f1, f2, f3) refl

-- A packet of a flow that goes to the relay makes the relay's connection from its NAT port a session to
-- the address and the port that the packet was sent to, byte for byte.
pub accept_client-handle_tcp_from_stack :
    (t : AddressText) (s : TunInbound) (p : List ℕ) (tcp tcp_len nat_port b0 b1 b2 b3 : ℕ)
    (key : TunFlowKey) (h : Handled)
    → IsFaithful t
    → IsValid s.tcp_nat
    → 20 ≤ tcp
    → (s.tun_next_ip < 4294967296) × (s.tun_ip < 4294967296) × (s.tcp_listen_port < 65536)
    → get_elem? p 16 ≡ some b0
    → get_elem? p 17 ≡ some b1
    → get_elem? p 18 ≡ some b2
    → get_elem? p 19 ≡ some b3
    → (b0 < 256) × (b1 < 256) × (b2 < 256) × (b3 < 256)
    → load_u32 p 16 ≡ ok key.dst_ip
    → handle_tcp_from_stack s p tcp tcp_len key ≡ ok h
    → read_be16_at h.packet tcp ≡ ok nat_port
    → accept_client t h.state (some nat_port)
      ≡ ok (
          handles (record {
            destination = record {
              host = ipv4_address (b0 ∷ b1 ∷ b2 ∷ b3 ∷ []);
              port = key.dst_port;
            };
            initial_payload = [];
          }))
unfolding accept_client flow_session parse_v4
accept_client-handle_tcp_from_stack t s p tcp tcp_len nat_port b0 b1 b2 b3 key h faithful v front
      (a, b, c) e0 e1 e2 e3 small dst sent port =
    let (used, back, _, _, _, left) =
      handle_tcp_from_stack-Sent s p tcp tcp_len key h v front a b c sent in
    let w : used ≡ nat_port = ok_injective (sym left.2 ∙ port) in
    let there = subst (λ n. lookup_back n h.state.tcp_nat ≡ some key) w back in
    let bytes = address_v4-load_u32 p 16 b0 b1 b2 b3 key.dst_ip e0 e1 e2 e3 small dst in
    let read = faithful.v4_print (b0 ∷ b1 ∷ b2 ∷ b3 ∷ []) refl in
    rw (accept_client, there, flow_session, bytes, parse_v4, read, ◌>>=◌) refl
