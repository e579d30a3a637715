-- ===== src/Config/Sections.antt =====
-- The sections of src/config/config.cpp that stand on their own: inbounds, outbounds, the Windows proxy
-- and the TUN adapter. A member that the code declares without an initializer and does not set holds
-- what `Unset` gives.
use cppbox.Prelude.{
  ℕ, Bool, true, false, Option, none, some, List, [], codes, text_eq, if◌then◌else◌, Result, ok,
  ◌>>=◌,
}
use cppbox.Json.{
  each, each_in, or_null, Json, Object, as_object, as_array, object_in, if_contains, get_string,
  get_bool, get_u16,
}
use cppbox.Vless.{TlsConfig}

pub record InboundConfig : Type 0 where
  pub kind : List ℕ
  pub tag : List ℕ
  pub listen : List ℕ
  pub listen_port : ℕ

pub record TransportConfig : Type 0 where
  pub kind : List ℕ
  pub path : List ℕ

pub record OutboundConfig : Type 0 where
  pub kind : List ℕ
  pub tag : List ℕ
  pub server : List ℕ
  pub server_port : ℕ
  pub uuid : List ℕ
  pub tls : Option TlsConfig
  pub transport : Option TransportConfig

pub record WindowsProxyConfig : Type 0 where
  pub enabled : Bool
  pub addr : List ℕ
  pub port : ℕ

pub record TunConfig : Type 0 where
  pub enable : Bool
  pub tun_ip : List ℕ
  pub tun_next_ip : List ℕ

pub record Unset : Type 0 where
  pub server_port : ℕ
  pub insecure : Bool
  pub enabled : Bool
  pub port : ℕ

unfoldable pub load_inbound : Json → Result InboundConfig
load_inbound j = do
  obj ← as_object j
  kind ← get_string obj "type"
  tag ← get_string obj "tag"
  listen ← get_string obj "listen"
  listen_port ← get_u16 obj "listen_port"
  ok (record { kind = kind; tag = tag; listen = listen; listen_port = listen_port })

unfoldable pub load_inbounds : Object → Result (List InboundConfig)
load_inbounds root = each_in load_inbound (if_contains root "inbounds")

abbrev enabled_tls : Object → Result TlsConfig
enabled_tls obj = do
  server_name ← get_string obj "server_name"
  insecure ← get_bool obj "insecure"
  ok (record { enabled = true; server_name = server_name; insecure = insecure })

module _ (unset : Unset) where
  unfoldable pub load_tls : Option Object → Result (Option TlsConfig)
  load_tls none = ok none
  load_tls (some obj) = do
    enabled ← get_bool obj "enabled"
    tls ←
        if enabled
        then enabled_tls obj
        else ok (record { enabled = false; server_name = []; insecure = unset.insecure })
    ok (some tls)

  unfoldable pub load_transport : Option Object → Result (Option TransportConfig)
  load_transport none = ok none
  load_transport (some obj) = do
    kind ← get_string obj "type"
    path ← get_string obj "path"
    ok (some (record { kind = kind; path = path }))

  -- The block behind `if (outbound.type == "vless")`.
  unfoldable pub load_vless : Object → OutboundConfig → Result OutboundConfig
  load_vless obj outbound = do
    server ← get_string obj "server"
    server_port ← get_u16 obj "server_port"
    uuid ← get_string obj "uuid"
    tls ← load_tls (object_in (if_contains obj "tls"))
    transport ← load_transport (object_in (if_contains obj "transport"))
    ok (record outbound {
      server = server;
      server_port = server_port;
      uuid = uuid;
      tls = tls;
      transport = transport;
    })

  abbrev pub empty_outbound : List ℕ → List ℕ → OutboundConfig
  empty_outbound kind tag = record {
    kind = kind;
    tag = tag;
    server = [];
    server_port = unset.server_port;
    uuid = [];
    tls = none;
    transport = none;
  }

  unfoldable pub load_outbound : Json → Result OutboundConfig
  load_outbound j = do
    obj ← as_object j
    kind ← get_string obj "type"
    tag ← get_string obj "tag"
    if text_eq kind (codes "vless")
        then load_vless obj (empty_outbound kind tag)
        else ok (empty_outbound kind tag)

  unfoldable pub load_outbounds : Object → Result (List OutboundConfig)
  load_outbounds root = as_array (or_null (if_contains root "outbounds")) >>= each load_outbound

  unfoldable pub load_windows_proxy : Option Object → Result WindowsProxyConfig
  load_windows_proxy none = ok (record { enabled = unset.enabled; addr = []; port = unset.port })
  load_windows_proxy (some obj) = do
    enabled ← get_bool obj "enabled"
    if enabled
        then enabled_proxy obj
        else ok (record { enabled = false; addr = []; port = unset.port })
    where
      enabled_proxy : Object → Result WindowsProxyConfig
      enabled_proxy obj = do
        addr ← get_string obj "addr"
        port ← get_u16 obj "port"
        ok (record { enabled = true; addr = addr; port = port })

unfoldable pub load_tun : Option Object → Result TunConfig
load_tun none = ok (record { enable = false; tun_ip = []; tun_next_ip = [] })
load_tun (some obj) = do
  enable ← get_bool obj "enable"
  if enable then enabled_tun obj else ok (record { enable = false; tun_ip = []; tun_next_ip = [] })
  where
    enabled_tun : Object → Result TunConfig
    enabled_tun obj = do
      tun_ip ← get_string obj "tun_ip"
      tun_next_ip ← get_string obj "tun_next_ip"
      ok (record { enable = true; tun_ip = tun_ip; tun_next_ip = tun_next_ip })
