-- ===== src/TunInbound/TcpPackets.antt =====
-- A TCP packet through the handlers of src/inbound/tun_inbound.cpp.
use cppbox.Prelude.{
  ℕ, ◌+◌, ◌≤◌, ◌≡◌, refl, Bool, true, false, ◌&&◌, some, List, arith, length, get_elem?, ◌==◌,
  Option-cases, inl, inr, Result,
}
use cppbox.Prelude.Map.{nat_key}
use cppbox.Utils.{byte, read_be16_at}
use cppbox.Checksum.{ip_header_len}
use cppbox.TunNat.{TunNat, TunFlowKey, lookup_or_create, lookup_back}
use cppbox.TunNat.Invariant.{IsValid}
use cppbox.TunNat.Methods.{HasRoom, lookup_or_create-IsValid, lookup_or_create-total}
use cppbox.TunInbound.{
  TunInbound, Handled, load_u32, rewrite_tcp, handle_tcp_from_local_relay, handle_tcp_from_stack,
  route_tcp,
}
use cppbox.TunInbound.Total.{Ensures, bind-Ensures, byte-Ensures, rewrite-Ensures}

-- The tables are valid and have room for a flow.
abbrev pub IsOpen : TunInbound → Type 0
IsOpen s = IsValid s.tcp_nat × HasRoom s.tcp_nat × IsValid s.udp_nat × HasRoom s.udp_nat

-- The packet keeps its length, and the tables are valid.
abbrev pub IsHandled : ℕ → Handled → Type 0
IsHandled n h = (length h.packet ≡ n) × IsValid h.state.tcp_nat × IsValid h.state.udp_nat

pub nat-Ensures :
    (key : TunFlowKey) (n : TunNat)
    → IsValid n
    → HasRoom n
    → Ensures (λ result. IsValid result.0) (lookup_or_create key n)
nat-Ensures key n v room =
    let (n', r, e) = lookup_or_create-total key n v room in
    rw e (lookup_or_create-IsValid key n n' r v e)

pub be16_at-Ensures :
    (p : List ℕ) (i : ℕ) → i + 2 ≤ length p → Ensures (λ _. Unit {0}) (read_be16_at p i)
unfolding read_be16_at
be16_at-Ensures p i h = bind-Ensures _ _ (byte p i) _ (byte-Ensures 0 0 p i (omega arith)) λ hi _.
    bind-Ensures _ _ (byte p (i + 1)) _ (byte-Ensures 0 0 p (i + 1) (omega arith)) λ lo _. tt

pub load-Ensures : (p : List ℕ) (i : ℕ) → i + 4 ≤ length p → Ensures (λ _. Unit {0}) (load_u32 p i)
unfolding load_u32
load-Ensures p i h = bind-Ensures _ _ (byte p i) _ (byte-Ensures 0 0 p i (omega arith)) λ b0 _.
    bind-Ensures _ _ (byte p (i + 1)) _ (byte-Ensures 0 0 p (i + 1) (omega arith)) λ b1 _.
      bind-Ensures _ _ (byte p (i + 2)) _ (byte-Ensures 0 0 p (i + 2) (omega arith)) λ b2 _.
        bind-Ensures _ _ (byte p (i + 3)) _ (byte-Ensures 0 0 p (i + 3) (omega arith)) λ b3 _. tt

pub branch-Ensures :
    (P : Handled → Type 0) (test : Bool) (x y : Result Handled)
    → Ensures P x
    → Ensures P y
    → Ensures P (elim test [ true ↦ x | false ↦ y ])
branch-Ensures P true x y p q = p
branch-Ensures P false x y p q = q

module _ (s : TunInbound) (o : IsOpen s) (packet : List ℕ) (first : ℕ)
    (starts : get_elem? packet 0 ≡ some first) (long : 20 ≤ ip_header_len first) where
  pub skipped :
      IsHandled (length packet) (record { state = s; packet = packet; write_back = false })
  skipped = (refl, o.0, o.2)

  pub relay-Ensures :
      (tcp tcp_len port : ℕ)
      → ip_header_len first ≤ tcp
      → 20 ≤ tcp_len
      → tcp + tcp_len ≤ length packet
      → Ensures (IsHandled (length packet)) (handle_tcp_from_local_relay s packet tcp tcp_len port)
  unfolding handle_tcp_from_local_relay
  relay-Ensures tcp tcp_len port t l room = elim (Option-cases (lookup_back port s.tcp_nat)) [
    | inl e ↦ rw (e, handle_tcp_from_local_relay) skipped
    | inr (key, e) ↦
        rw (e, handle_tcp_from_local_relay)
          (bind-Ensures _ _
            (rewrite_tcp packet tcp tcp_len key.dst_ip key.src_ip key.dst_port key.src_port) _
            (rewrite-Ensures (length packet) first packet tcp tcp_len _ _ _ _ (refl, starts)
              (omega arith) (omega arith) l room)
            λ p b. (b.0, o.0, o.2))
  ]

  pub stack-Ensures :
      (tcp tcp_len : ℕ) (key : TunFlowKey)
      → ip_header_len first ≤ tcp
      → 20 ≤ tcp_len
      → tcp + tcp_len ≤ length packet
      → Ensures (IsHandled (length packet)) (handle_tcp_from_stack s packet tcp tcp_len key)
  unfolding handle_tcp_from_stack
  stack-Ensures tcp tcp_len key t l room =
      bind-Ensures _ _ (lookup_or_create key s.tcp_nat) _ (nat-Ensures key s.tcp_nat o.0 o.1)
        λ (nat, r) v.
          bind-Ensures _ _
            (rewrite_tcp packet tcp tcp_len s.tun_next_ip s.tun_ip r.nat_port s.tcp_listen_port) _
            (rewrite-Ensures (length packet) first packet tcp tcp_len _ _ _ _ (refl, starts)
              (omega arith) (omega arith) l room)
            λ p b. (b.0, v, o.2)

  pub route_tcp-Ensures :
      (tcp_len : ℕ)
      → 20 ≤ tcp_len
      → ip_header_len first + tcp_len ≤ length packet
      → Ensures (IsHandled (length packet)) (route_tcp s packet (ip_header_len first) tcp_len)
  unfolding route_tcp
  route_tcp-Ensures tcp_len l room =
      bind-Ensures _ _ (load_u32 packet 12) _ (load-Ensures packet 12 (omega arith)) λ src_ip _.
        bind-Ensures _ _ (load_u32 packet 16) _ (load-Ensures packet 16 (omega arith)) λ dst_ip _.
          bind-Ensures _ _ (read_be16_at packet (ip_header_len first)) _
            (be16_at-Ensures packet _ (omega arith))
            λ src_port _.
              bind-Ensures _ _ (read_be16_at packet (ip_header_len first + 2)) _
                (be16_at-Ensures packet _ (omega arith))
                λ dst_port _.
                  branch-Ensures _ ((src_ip == s.tun_ip) && (src_port == s.tcp_listen_port)) _ _
                    (relay-Ensures (ip_header_len first) tcp_len dst_port (omega arith) l room)
                    (stack-Ensures (ip_header_len first) tcp_len _ (omega arith) l room)
