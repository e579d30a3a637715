-- ===== src/Config/Load.antt =====
-- `load_config` of src/config/config.cpp. The file system and Boost.JSON's parser are parameters.
use cppbox.Prelude.{
  ℕ, Bool, false, Option, none, some, List, Result, ok, err, runtime_error_about, ◌>>=◌,
}
use cppbox.Json.{Json, bool, Object, as_object, object_in, if_contains}
use cppbox.Router.{RouteConfig}
use cppbox.DnsServer.{DnsConfig}
use cppbox.Config.Sections.{
  InboundConfig, OutboundConfig, WindowsProxyConfig, TunConfig, Unset, load_inbounds,
  load_outbounds, load_windows_proxy, load_tun,
}
use cppbox.Config.Routes.{load_route, load_dns}

pub record AppConfig : Type 0 where
  pub inbounds : List InboundConfig
  pub outbounds : List OutboundConfig
  pub route : RouteConfig
  pub windows_proxy : WindowsProxyConfig
  pub dns : DnsConfig
  pub override_address : Bool
  pub tun : TunConfig

-- A value of another kind is passed over.
abbrev pub load_override : Option Json → Bool
load_override (some (bool b)) = b
load_override j = false

-- The sections, in the order of the code.
unfoldable pub load_root : Unset → Object → Result AppConfig
load_root unset root = do
  inbounds ← load_inbounds root
  outbounds ← load_outbounds unset root
  route ← load_route root
  windows_proxy ← load_windows_proxy unset (object_in (if_contains root "windows_proxy"))
  dns ← load_dns root
  tun ← load_tun (object_in (if_contains root "tun"))
  ok (record {
    inbounds = inbounds;
    outbounds = outbounds;
    route = route;
    windows_proxy = windows_proxy;
    dns = dns;
    override_address = load_override (if_contains root "override_address");
    tun = tun;
  })

-- `read_file` gives nothing for a file that does not open.
module _ (read_file : List ℕ → Option (List ℕ)) (parse : List ℕ → Result Json) where
  unfoldable pub load_config : Unset → List ℕ → Result AppConfig
  load_config unset path = elim (read_file path) [
    | none ↦ err (runtime_error_about "failed to open config: " path)
    | some text ↦ parse text >>= as_object >>= load_root unset
  ]
