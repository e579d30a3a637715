-- ===== src/TunInbound/Start.antt =====
-- `TunInbound::start` of src/inbound/tun_inbound.cpp, up to the packet thread and the loop that accepts. What
-- Wintun and the acceptor return are parameters. An error leaves what was done before it.
use cppbox.Prelude.{
  ℕ, ◌≡◌, refl, sym, ap, subst, ◌⊎◌, inl, inr, Bool, true, false, Option, none, some, List, [],
  String, Result, ok, err, stuck, runtime_error, runtime_error_about, require, ◌>>=◌,
}
use cppbox.Address.{AddressText, ipv4_to_net_order_u32}
use cppbox.TunRoute.{RouteCalls, Traced, traced, configure_tun_routes}
use cppbox.TunInbound.Clients.{TunLife, stop_when, stop_tun}

pub record TunInboundConfig : Type 0 where
  pub tun_ip : List ℕ
  pub tun_next_ip : List ℕ

-- Whether each call succeeds, and the LUID of the adapter.
pub record WintunCalls : Type 0 where
  pub load : Bool
  pub open_adapter : Bool
  pub start_session : Bool
  pub adapter_luid : Option ℕ

-- The message of the error of each call, and the port that the acceptor has been given.
pub record AcceptorCalls : Type 0 where
  pub open_error : Option (List ℕ)
  pub set_option_error : Option (List ℕ)
  pub bind_error : Option (List ℕ)
  pub listen_error : Option (List ℕ)
  pub local_endpoint_error : Option (List ℕ)
  pub local_port : ℕ

-- The state that is left, and whether something was thrown.
pub data Started : Type 0 where
  ends_with_result : TunLife → Result (Unit {0}) → Started

abbrev pub then_start {ℓ} : {A : Type ℓ} → Result A → TunLife → (A → Started) → Started
then_start (ok a) life next = next a
then_start (err error) life next = ends_with_result life (err error)
then_start stuck life next = ends_with_result life stuck

-- `if (ec) throw ...`
abbrev pub no_error : String → Option (List ℕ) → Result (Unit {0})
no_error message none = ok tt
no_error message (some ec) = err (runtime_error_about message ec)

abbrev pub luid_or_throw : Option ℕ → Result ℕ
luid_or_throw none = err (runtime_error "failed to get wintun adapter luid")
luid_or_throw (some luid) = ok luid

abbrev pub routes_or_throw : Traced → Result (Unit {0})
routes_or_throw (traced calls done) = require done "failed to configure tun routes"

module _ (t : AddressText) (wintun : WintunCalls) (acceptor : AcceptorCalls)
    (routes : RouteCalls) where
  -- The part behind the routes.
  unfoldable pub start_acceptor : TunLife → Started
  start_acceptor life =
      then_start (no_error "tun acceptor open failed: " acceptor.open_error) life λ _.
        let opened : TunLife = record life { acceptor_open = true } in
        then_start (no_error "tun acceptor set_option failed: " acceptor.set_option_error) opened
          λ _. then_start (no_error "tun acceptor bind failed: " acceptor.bind_error) opened λ _.
            then_start (no_error "tun acceptor listen failed: " acceptor.listen_error) opened λ _.
              let bound : TunLife = record opened {
                state = record opened.state { tcp_listen_port = acceptor.local_port };
              } in
              then_start
                (no_error "tun acceptor local_endpoint failed: " acceptor.local_endpoint_error)
                bound λ _. ends_with_result bound (ok tt)

  unfoldable pub start_tun : TunInboundConfig → TunLife → Started
  start_tun config life = then_start (ipv4_to_net_order_u32 t config.tun_ip) life λ ip.
      let first : TunLife = record life { state = record life.state { tun_ip = ip } } in
      then_start (ipv4_to_net_order_u32 t config.tun_next_ip) first λ next_ip.
        let addressed : TunLife = record first {
          state = record first.state { tun_next_ip = next_ip };
        } in
        then_start (require wintun.load "failed to load wintun.dll") addressed λ _.
          then_start (require wintun.open_adapter "failed to open wintun adapter") addressed λ _.
            then_start (require wintun.start_session "failed to start wintun session") addressed
              λ _. then_start (luid_or_throw wintun.adapter_luid) addressed λ luid.
                then_start
                  (configure_tun_routes t routes luid config.tun_ip config.tun_next_ip
                    >>= routes_or_throw)
                  addressed λ _. start_acceptor (record addressed { routes_configured = true })

-- After `stop` nothing is left open, and stopping again does nothing.
abbrev IsDown : TunLife → Type 0
IsDown life =
    (life.stopping ≡ true)
    × (life.acceptor_open ≡ false)
    × (life.routes_configured ≡ false)
    × (life.state.udp_flows ≡ [])

stop_tun-IsDown :
    (life : TunLife)
    → (life.stopping ≡ false) ⊎ IsDown life
    → IsDown (stop_tun life) × (stop_tun (stop_tun life) ≡ stop_tun life)
unfolding stop_tun
stop_tun-IsDown life (inl going) =
    subst (λ left. IsDown left × (stop_tun left ≡ left))
      (sym (ap (λ stopping. stop_when stopping life) going)) ((refl, refl, refl, refl), refl)
stop_tun-IsDown life (inr down) =
    let same : stop_tun life ≡ life = ap (λ stopping. stop_when stopping life) down.0 in
    subst (λ left. IsDown left × (stop_tun left ≡ left)) (sym same) (down, same)
