-- ===== src/Program.antt =====
-- The wiring of the program: src/main.cpp. The sockets of the inbounds and outbounds are left out: an
-- inbound is its endpoint, an outbound its configuration.
pub mod Dispatch
pub mod Closing
mod Tests
use cppbox.Prelude.{
  ℕ, Bool, true, false, Option, none, some, List, [], ◌∷◌, ◌++◌, codes, text_eq, if◌then◌else◌,
  Result, Error, ok, err, stuck, runtime_error, runtime_error_about, system_error, ◌>>=◌, String,
}
use cppbox.Prelude.Map.{Map, find, insert, text_key}
use cppbox.Json.{Json}
use cppbox.Address.{AddressText, Host, ipv4_address, ipv6_address, Destination, Session, parse_host}
use cppbox.Vless.{TlsConfig}
use cppbox.Router.{Router, pick_outbound}
use cppbox.RuleSet.{make_router}
use cppbox.DnsServer.{DnsServer, make_dns_server}
use cppbox.DnsInbound.{parse_endpoint}
use cppbox.TunRoute.{RouteCalls, find_default_route_interface_index}
use cppbox.Config.{
  InboundConfig, OutboundConfig, TransportConfig, TunConfig, WindowsProxyConfig, AppConfig, Unset,
  load_config,
}

pub record VlessOutboundConfig : Type 0 where
  pub server : Destination
  pub uuid : List ℕ
  pub tls : Option TlsConfig
  pub transport : Option TransportConfig
  pub override_address : Bool

pub data Outbound : Type 0 where
  direct_outbound : Outbound
  vless_outbound : VlessOutboundConfig → Outbound
  block_outbound : Outbound

pub data Inbound : Type 0 where
  tun_inbound : TunConfig → Inbound
  mixed_inbound : Destination → Inbound
  socks5_inbound : Destination → Inbound
  http_inbound : Destination → Inbound
  dns_inbound : Destination → Inbound

-- What has been built when `io.run()` is called.
pub record Running : Type 0 where
  pub config : AppConfig
  pub router : Router
  pub dns_server : DnsServer
  pub outbounds : Map (List ℕ) Outbound
  pub interface_index : ℕ
  pub inbounds : Map (List ℕ) Inbound

module _ (t : AddressText) where
  abbrev pub make_vless : Bool → OutboundConfig → Result (Option Outbound)
  make_vless override item = parse_host t item.server >>= λ host. ok (
      some (
        vless_outbound (record {
          server = record { host = host; port = item.server_port };
          uuid = item.uuid;
          tls = item.tls;
          transport = item.transport;
          override_address = override;
        })))

  -- An item of another type makes nothing.
  unfoldable pub make_outbound : Bool → OutboundConfig → Result (Option Outbound)
  make_outbound override item =
      if text_eq item.kind (codes "direct")
      then ok (some direct_outbound)
      else if text_eq item.kind (codes "vless")
      then make_vless override item
      else if text_eq item.kind (codes "block")
      then ok (some block_outbound)
      else ok none

  abbrev pub keep : List ℕ → Option Outbound → Map (List ℕ) Outbound → Map (List ℕ) Outbound
  keep tag none outbounds = outbounds
  keep tag (some outbound) outbounds = insert tag outbound outbounds

  -- The loop over the outbounds.
  unfoldable pub make_outbounds :
      Bool → List OutboundConfig → Map (List ℕ) Outbound → Result (Map (List ℕ) Outbound)
  make_outbounds override [] outbounds = ok outbounds
  make_outbounds override (item ∷ items) outbounds = do
    made ← make_outbound override item
    make_outbounds override items (keep item.tag made outbounds)

  -- The outbound of a tag; the error is caught in the handler and logged.
  unfoldable pub find_outbound : Map (List ℕ) Outbound → List ℕ → Result Outbound
  find_outbound outbounds tag = elim (find tag outbounds) [
    | none ↦ err (runtime_error_about "outbound not found: " tag)
    | some outbound ↦ ok outbound
  ]

  -- The handler of a session, up to the call of the outbound.
  unfoldable pub dispatch : Router → Map (List ℕ) Outbound → Session → Result Outbound
  dispatch router outbounds session = pick_outbound t router session >>= find_outbound outbounds

  -- The throwing overload of `ip::make_address`.
  unfoldable pub make_address : List ℕ → Result Host
  make_address text = elim (t.make_address_v4 text) [
    | some a ↦ ok (ipv4_address a)
    | none ↦ elim (t.make_address_v6 text) [
      | some a ↦ ok (ipv6_address a)
      | none ↦ err system_error
    ]
  ]

  unfoldable pub make_inbound : InboundConfig → Destination → Result Inbound
  make_inbound item endpoint =
      if text_eq item.kind (codes "mixed")
      then ok (mixed_inbound endpoint)
      else if text_eq item.kind (codes "socks5")
      then ok (socks5_inbound endpoint)
      else if text_eq item.kind (codes "http")
      then ok (http_inbound endpoint)
      else err (runtime_error_about "unsupported inbound type: " item.kind)

  -- The loop over the inbounds.
  unfoldable pub make_inbounds :
      List InboundConfig → Map (List ℕ) Inbound → Result (Map (List ℕ) Inbound)
  make_inbounds [] inbounds = ok inbounds
  make_inbounds (item ∷ items) inbounds = do
    host ← make_address item.listen
    inbound ← make_inbound item (record { host = host; port = item.listen_port })
    make_inbounds items (insert item.tag inbound inbounds)

  abbrev pub add_dns_inbound :
      Option (List ℕ) → Map (List ℕ) Inbound → Result (Map (List ℕ) Inbound)
  add_dns_inbound none inbounds = ok inbounds
  add_dns_inbound (some listen) inbounds = parse_endpoint t listen >>= λ endpoint.
      ok (insert (codes "dns") (dns_inbound endpoint) inbounds)

  -- The interface of outgoing connections, 0 without TUN.
  unfoldable pub outbound_index : RouteCalls → TunConfig → Result ℕ
  outbound_index calls tun =
      if tun.enable
      then (elim (find_default_route_interface_index calls) [
        | none ↦ err (runtime_error "failed to find outbound interface for tun")
        | some index ↦ ok index
      ])
      else ok 0

  abbrev pub first_inbounds : TunConfig → Map (List ℕ) Inbound
  first_inbounds tun = if tun.enable then insert (codes "tun") (tun_inbound tun) [] else []

  -- `main`, from the configuration on.
  unfoldable pub set_up :
      (List ℕ → Option (List ℕ)) → (List ℕ → Result Json) → RouteCalls → AppConfig → Result Running
  set_up read_file parse calls config = do
    router ← make_router read_file parse config.route
    dns_server ← make_dns_server t config.dns router
    outbounds ← make_outbounds config.override_address config.outbounds []
    index ← outbound_index calls config.tun
    inbounds ← make_inbounds config.inbounds (first_inbounds config.tun)
    inbounds ← add_dns_inbound config.dns.listen inbounds
    ok (record {
      config = config;
      router = router;
      dns_server = dns_server;
      outbounds = outbounds;
      interface_index = index;
      inbounds = inbounds;
    })

  -- The exit code when something is thrown before `io.run()` returns is 1.
  unfoldable pub main :
      (List ℕ → Option (List ℕ)) → (List ℕ → Result Json) → RouteCalls → Unset → Result Running
  main read_file parse calls unset =
      load_config read_file parse unset (codes "config.json") >>= set_up read_file parse calls
