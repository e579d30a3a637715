-- ===== src/Program/Tests.antt =====
-- Concrete runs of Program.
use cppbox.Prelude.{
  ℕ, Option, ◌≡◌, refl, none, true, List, [], ◌∷◌, ◌++◌, codes, Result, ok, err, system_error,
  replicate,
}
use cppbox.Prelude.Map.{find, insert, text_key}
use cppbox.Address.{domain_name, ipv4_address, Session}
use cppbox.Address.Tests.{tagged}
use cppbox.Router.{match_domain_host, match_rule, match_rule_conditions, match_ip_cidr}
use cppbox.DnsServer.{make_dns_server, add_servers, check_server, check_rules, find_nameserver}
use cppbox.RuleSet.{load_rule_sets, make_router}
use cppbox.Json.{Json}
use cppbox.TunRoute.{RouteCalls}
use cppbox.Config.Tests.{app_config, no_rules, dns_config, main_server}
use cppbox.Program.{
  direct_outbound, mixed_inbound, Running, make_outbound, make_outbounds, make_address,
  make_inbound, make_inbounds, outbound_index, dispatch, set_up,
}
use cppbox.Program.Closing.{main_events, callbacks, main-stops}
use cppbox.Shutdown.Once.{registered_until}
use cppbox.Shutdown.{registers, presses, polls, proceeds, started, is_stop_event, run}
use cppbox.Program.Dispatch.{dispatch-set_up}

abbrev no_files : List ℕ → Option (List ℕ)
no_files path = none

abbrev unparsed : List ℕ → Result Json
unparsed text = err system_error

abbrev calls : RouteCalls
calls = record {
  create_address = λ row. 0;
  delete_address = λ row. 0;
  create_route = λ row. 0;
  delete_route = λ row. 0;
  get_table = none;
  interface_metric = λ luid. none;
}

abbrev running : Running
running = record {
  config = app_config;
  router = no_rules;
  dns_server = record {
    config = dns_config;
    nameservers = (codes "main", main_server) ∷ [];
    router = no_rules;
  };
  outbounds = (codes "direct", direct_outbound) ∷ [];
  interface_index = 0;
  inbounds =
      (
        codes "in",
        mixed_inbound (record { host = ipv4_address (127 ∷ 0 ∷ 0 ∷ 1 ∷ []); port = 1080 }),
      )
      ∷ [];
}

abbrev visit : Session
visit = record {
  destination = record { host = domain_name (codes "a.org"); port = 443 };
  initial_payload = [];
}

set_up_ok : set_up tagged no_files unparsed calls app_config ≡ ok running
unfolding set_up make_router load_rule_sets make_dns_server add_servers check_server check_rules
    find_nameserver find insert make_outbounds make_outbound outbound_index make_inbounds
    make_address make_inbound
set_up_ok = refl

dispatch-set_up_example :
    dispatch tagged running.router running.outbounds visit ≡ ok direct_outbound
unfolding match_rule match_rule_conditions match_domain_host match_ip_cidr make_outbound
dispatch-set_up_example =
    dispatch-set_up tagged no_files unparsed calls app_config running visit [] []
      (record {
        domain = codes "a.org" ∷ [];
        domain_suffix = [];
        domain_keyword = [];
        ip_cidr = [];
        rule_set = [];
        outbound = codes "direct";
      })
      [] []
      (record {
        kind = codes "direct";
        tag = codes "direct";
        server = [];
        server_port = 0;
        uuid = [];
        tls = none;
        transport = none;
      })
      direct_outbound set_up_ok refl tt refl refl refl refl tt

-- With the Windows proxy: a callback is registered later, and Ctrl+C is pressed.
main-stops_example :
    (n : ℕ) × ((run
        (main_events true ++ ((registers 2 ∷ []) ++ (presses 0 ∷ polls ∷ replicate n proceeds)))
        started).io_stopped
      ≡ true)
    × ((run
          (main_events true ++ ((registers 2 ∷ []) ++ (presses 0 ∷ polls ∷ replicate n proceeds)))
          started).ran
        ≡ callbacks true ++ registered_until (run (main_events true) started) (registers 2 ∷ []))
unfolding is_stop_event
main-stops_example = main-stops true (registers 2 ∷ []) 0 refl
