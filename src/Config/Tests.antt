-- ===== src/Config/Tests.antt =====
-- Concrete runs of Config.
use cppbox.Prelude.{
  ℕ, ◌≡◌, refl, false, Option, none, some, List, [], ◌∷◌, codes, String, Result, ok,
}
use cppbox.Prelude.Map.{find, text_key}
use cppbox.Json.{
  each, Json, Fields, int64, string, array, object, no_items, item, no_fields, field, strings_of,
  get_string, get_bool, get_u16, get_string_array,
}
use cppbox.Address.Tests.{tagged}
use cppbox.Router.{Router}
use cppbox.DnsServer.{DnsItemConfig, DnsConfig, DnsServer, make_dns_server}
use cppbox.Config.Sections.{
  Unset, load_inbound, load_inbounds, load_outbound, load_outbounds, load_windows_proxy, load_tun,
}
use cppbox.Config.Routes.{
  load_rule, load_route, load_listen, load_by_kind, load_dns_server, load_dns_servers,
  load_dns_rule, load_dns_rules, load_dns, tags_of,
}
use cppbox.Config.Load.{AppConfig, load_root, load_config}
use cppbox.Config.Safe.{IsSafe, load_config-IsSafe}
use cppbox.Config.Serving.{load_config-make_dns_server}

abbrev text : String → String → Fields → Fields
text key value rest = field (codes key) (string (codes value)) rest

abbrev one : Fields → Json
one fields = array (item (object fields) no_items)

abbrev mixed_inbound : Fields
mixed_inbound = text "type" "mixed" (
    text "tag" "in" (
      field (codes "listen") (string (4 ∷ 127 ∷ 0 ∷ 0 ∷ 1 ∷ []))
        (field (codes "listen_port") (int64 1080) no_fields)))

abbrev direct : Fields
direct = text "type" "direct" (text "tag" "direct" no_fields)

abbrev route_fields : Fields
route_fields = text "final" "direct" (
    field (codes "rules") (one (text "domain" "a.org" (text "outbound" "direct" no_fields)))
      no_fields)

abbrev server_fields : Fields
server_fields = text "tag" "main" (
    text "type" "udp" (
      field (codes "server") (string (4 ∷ 8 ∷ 8 ∷ 8 ∷ 8 ∷ []))
        (field (codes "server_port") (int64 53) no_fields)))

abbrev dns_fields : Fields
dns_fields = field (codes "servers") (one server_fields) (
    field (codes "rules") (one (text "domain_suffix" "org" (text "server" "main" no_fields)))
      (text "final" "main" no_fields))

abbrev document : Json
document = object (
    field (codes "inbounds") (one mixed_inbound) (
      field (codes "outbounds") (one direct) (
        field (codes "route") (object route_fields)
          (field (codes "dns") (object dns_fields) no_fields))))

abbrev one_file : List ℕ → Option (List ℕ)
one_file path = some []

abbrev parsed : List ℕ → Result Json
parsed text = ok document

abbrev zeros : Unset
zeros = record { server_port = 0; insecure = false; enabled = false; port = 0 }

abbrev pub main_server : DnsItemConfig
main_server = record {
  tag = codes "main";
  kind = codes "udp";
  server = 4 ∷ 8 ∷ 8 ∷ 8 ∷ 8 ∷ [];
  server_port = 53;
  path = [];
  server_name = [];
}

abbrev pub dns_config : DnsConfig
dns_config = record {
  listen = none;
  servers = main_server ∷ [];
  rules =
      record {
        domain = [];
        domain_suffix = codes "org" ∷ [];
        domain_keyword = [];
        rule_set = [];
        server = codes "main";
      }
      ∷ [];
  final = codes "main";
}

abbrev pub app_config : AppConfig
app_config = record {
  inbounds =
      record {
        kind = codes "mixed";
        tag = codes "in";
        listen = 4 ∷ 127 ∷ 0 ∷ 0 ∷ 1 ∷ [];
        listen_port = 1080;
      }
      ∷ [];
  outbounds =
      record {
        kind = codes "direct";
        tag = codes "direct";
        server = [];
        server_port = 0;
        uuid = [];
        tls = none;
        transport = none;
      }
      ∷ [];
  route = record {
    rules =
        record {
          domain = codes "a.org" ∷ [];
          domain_suffix = [];
          domain_keyword = [];
          ip_cidr = [];
          rule_set = [];
          outbound = codes "direct";
        }
        ∷ [];
    final_outbound = codes "direct";
    rule_set_configs = [];
  };
  windows_proxy = record { enabled = false; addr = []; port = 0 };
  dns = dns_config;
  override_address = false;
  tun = record { enable = false; tun_ip = []; tun_next_ip = [] };
}

abbrev pub no_rules : Router
no_rules = record { config = app_config.route; rule_sets = [] }

loaded : load_config one_file parsed zeros (codes "config.json") ≡ ok app_config
unfolding load_config load_root load_inbounds load_inbound load_outbounds load_outbound each
    load_route load_rule load_windows_proxy load_dns load_listen load_dns_servers load_dns_server
    load_by_kind load_dns_rules load_dns_rule tags_of load_tun get_string get_bool get_u16
    get_string_array strings_of find
loaded = refl

load_config-IsSafe_example : IsSafe app_config
load_config-IsSafe_example =
    load_config-IsSafe one_file parsed zeros (codes "config.json") app_config loaded

load_config-make_dns_server_example :
    (s : DnsServer) × (make_dns_server tagged dns_config no_rules ≡ ok s)
load_config-make_dns_server_example =
    load_config-make_dns_server tagged one_file parsed zeros (codes "config.json") app_config
      no_rules loaded ((refl, refl, refl, refl), tt) (refl, tt)
