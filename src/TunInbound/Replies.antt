-- ===== src/TunInbound/Replies.antt =====
-- The two ways of a TCP connection through src/inbound/tun_inbound.cpp: what goes to the local relay, and
-- the replies that come back from it.
use cppbox.Prelude.{
  ℕ, ◌+◌, ◌<◌, ◌≤◌, ◌≡◌, refl, sym, ◌∙◌, subst, true, some, List, length, get_elem?, ==_self,
  Result, ok, ok_injective, err, stuck, ◌>>=◌, >>=-eq-ok,
}
use cppbox.Prelude.Map.{contains}
use cppbox.Utils.{read_be16_at}
use cppbox.Checksum.{ip_header_len}
use cppbox.TunNat.{TunFlowKey, TunNat, lookup_or_create, lookup_back}
use cppbox.TunNat.Invariant.{IsValid}
use cppbox.TunNat.Methods.{lookup_or_create-IsValid}
use cppbox.TunNat.Lookup.{lookup_back-lookup_or_create}
use cppbox.TunInbound.{
  TunInbound, Handled, rewrite_tcp, handle_tcp_from_local_relay, handle_tcp_from_stack, route_tcp,
}
use cppbox.TunInbound.Total.{Ensures, rewrite-Ensures}
use cppbox.TunInbound.Fields.{HasFields, rewrite_tcp-HasFields}

-- Addresses of 32 bits and ports of 16.
abbrev pub IsFlow : TunFlowKey → Type 0
IsFlow key =
    (key.src_ip < 4294967296)
    × (key.dst_ip < 4294967296)
    × (key.src_port < 65536)
    × (key.dst_port < 65536)

-- A packet with room for its headers.
abbrev pub HasHeaders : List ℕ → ℕ → ℕ → ℕ → Type 0
HasHeaders p first tcp tcp_len =
    (get_elem? p 0 ≡ some first)
    × (ip_header_len first ≤ length p)
    × (20 ≤ tcp)
    × (20 ≤ tcp_len)
    × (tcp + tcp_len ≤ length p)

pub Ensures-ok {ℓ} :
    {A : Type ℓ} (P : A → Type 0) (m : Result A) → Ensures P m → (a : A) × (m ≡ ok a) × P a
Ensures-ok P (ok a) h = (a, refl, h)
Ensures-ok P (err e) h = absurd h
Ensures-ok P stuck h = absurd h

lookup_back-lt :
    (n : TunNat) (port : ℕ) (key : TunFlowKey)
    → IsValid n
    → lookup_back port n ≡ some key
    → port < 65536
unfolding lookup_back
lookup_back-lt n port key v e = (v.ports port (rw (contains, e) refl)).1

-- What `handle_tcp_from_stack` sends on: to the listening port of the relay, from the NAT port, which
-- leads back to the flow.
abbrev pub Sent : TunInbound → ℕ → TunFlowKey → Handled → Type 0
Sent s tcp key h =
    (nat_port : ℕ) × (lookup_back nat_port h.state.tcp_nat ≡ some key)
    × (nat_port < 65536)
    × (h.state.tun_ip ≡ s.tun_ip)
    × (h.state.tcp_listen_port ≡ s.tcp_listen_port)
    × HasFields h.packet tcp s.tun_next_ip s.tun_ip nat_port s.tcp_listen_port

pub handle_tcp_from_stack-Sent :
    (s : TunInbound) (packet : List ℕ) (tcp tcp_len : ℕ) (key : TunFlowKey) (h : Handled)
    → IsValid s.tcp_nat
    → 20 ≤ tcp
    → s.tun_next_ip < 4294967296
    → s.tun_ip < 4294967296
    → s.tcp_listen_port < 65536
    → handle_tcp_from_stack s packet tcp tcp_len key ≡ ok h
    → Sent s tcp key h
unfolding handle_tcp_from_stack
handle_tcp_from_stack-Sent s packet tcp tcp_len key h v t a b c e =
    let (found, l, e1) = >>=-eq-ok (lookup_or_create key s.tcp_nat) _ e in
    let (p, w, e2) =
      >>=-eq-ok
        (rewrite_tcp packet tcp tcp_len s.tun_next_ip s.tun_ip found.1.nat_port s.tcp_listen_port) _
        e1 in
    let back = lookup_back-lookup_or_create key s.tcp_nat found.0 found.1 v l in
    let small =
      lookup_back-lt found.0 found.1.nat_port key
        (lookup_or_create-IsValid key s.tcp_nat found.0 found.1 v l) back in
    subst (Sent s tcp key) (ok_injective e2) (
      found.1.nat_port,
      back,
      small,
      refl,
      refl,
      rewrite_tcp-HasFields packet p tcp tcp_len s.tun_next_ip s.tun_ip found.1.nat_port
          s.tcp_listen_port t a b small c w,
    )

-- A reply from the relay to a NAT port that leads to a flow.
route_tcp-restores :
    (s : TunInbound) (reply : List ℕ) (first tcp tcp_len nat_port dst_ip : ℕ) (key : TunFlowKey)
    → HasHeaders reply first tcp tcp_len
    → IsFlow key
    → lookup_back nat_port s.tcp_nat ≡ some key
    → HasFields reply tcp s.tun_ip dst_ip s.tcp_listen_port nat_port
    → (h : Handled) × (route_tcp s reply tcp tcp_len ≡ ok h)
      × (h.write_back ≡ true)
      × HasFields h.packet tcp key.dst_ip key.src_ip key.dst_port key.src_port
unfolding route_tcp handle_tcp_from_local_relay
route_tcp-restores s reply first tcp tcp_len nat_port dst_ip key (front, header, t, l, room) flow
      back (src, dst, src_port, dst_port) =
    let (p, w, _) =
      Ensures-ok _ (rewrite_tcp reply tcp tcp_len key.dst_ip key.src_ip key.dst_port key.src_port) (
        rewrite-Ensures (length reply) first reply tcp tcp_len key.dst_ip key.src_ip key.dst_port
          key.src_port (refl, front) header t l room) in
    (
      record { state = s; packet = p; write_back = true },
      rw
          (
            route_tcp,
            src,
            ◌>>=◌,
            dst,
            src_port,
            dst_port,
            ==_self s.tun_ip,
            ==_self s.tcp_listen_port,
            handle_tcp_from_local_relay,
            back,
            w,
          )
          refl,
      refl,
      rewrite_tcp-HasFields reply p tcp tcp_len key.dst_ip key.src_ip key.dst_port key.src_port t
          flow.1 flow.0 flow.3 flow.2 w,
    )

-- A packet of a flow that goes to the relay leaves with the address of the adapter and the relay's port as
-- its destination, and its source port is a NAT port. As long as that port leads to the same flow, a
-- reply of the relay to it is handled and written back, with the flow's destination as its source and
-- the flow's source as its destination, addresses and ports: the application sees the server that it
-- called.
pub route_tcp-handle_tcp_from_stack :
    (s later : TunInbound) (packet reply : List ℕ)
    (first tcp tcp_len reply_tcp reply_len nat_port dst_ip : ℕ) (key : TunFlowKey) (h : Handled)
    → IsValid s.tcp_nat
    → IsFlow key
    → (s.tun_next_ip < 4294967296) × (s.tun_ip < 4294967296) × (s.tcp_listen_port < 65536)
    → 20 ≤ tcp
    → handle_tcp_from_stack s packet tcp tcp_len key ≡ ok h
    → read_be16_at h.packet tcp ≡ ok nat_port
    → lookup_back nat_port later.tcp_nat ≡ lookup_back nat_port h.state.tcp_nat
    → HasHeaders reply first reply_tcp reply_len
    → HasFields reply reply_tcp later.tun_ip dst_ip later.tcp_listen_port nat_port
    → HasFields h.packet tcp s.tun_next_ip s.tun_ip nat_port s.tcp_listen_port
      × (h' : Handled) × (route_tcp later reply reply_tcp reply_len ≡ ok h')
      × (h'.write_back ≡ true)
      × HasFields h'.packet reply_tcp key.dst_ip key.src_ip key.dst_port key.src_port
route_tcp-handle_tcp_from_stack s later packet reply first tcp tcp_len reply_tcp reply_len nat_port
      dst_ip key h v flow (a, b, c) t sent port same headers fields =
    let (used, back, _, _, _, left) =
      handle_tcp_from_stack-Sent s packet tcp tcp_len key h v t a b c sent in
    let w : used ≡ nat_port = ok_injective (sym left.2 ∙ port) in
    let (h', routed, written, restored) =
      route_tcp-restores later reply first reply_tcp reply_len nat_port dst_ip key headers flow
        (same ∙ subst (λ n. lookup_back n h.state.tcp_nat ≡ some key) w back) fields in
    (
      subst (λ n. HasFields h.packet tcp s.tun_next_ip s.tun_ip n s.tcp_listen_port) w left,
      h',
      routed,
      written,
      restored,
    )
