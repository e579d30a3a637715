-- ===== src/Connector/Tests.antt =====
-- Concrete runs of Connector.
use cppbox.Prelude.{ℕ, ◌==◌, refl, ◌⊎◌, none, some, List, [], ◌∷◌, codes, Result, ok, if◌then◌else◌}
use cppbox.Address.{Host, ipv4_address, Destination, asio_address}
use cppbox.Address.Tests.{tagged}
use cppbox.DnsServer.{DnsItemConfig, DnsServer}
use cppbox.Connector.{SocketCalls, resolve_destination, connect_tcp, htonl}
use cppbox.Connector.Attempts.{Outcome, AllFailed, connect_tcp-cases}

abbrev calls : SocketCalls
calls = record {
  open_error = λ n address. none;
  unicast_if = λ n address value. value == htonl 7;
  connect_error = λ n address port. if port == 80 then none else some (codes "refused");
}

abbrev echo : DnsItemConfig → List ℕ → Result (List ℕ)
echo server message = ok message

abbrev no_names : DnsServer
no_names = record {
  config = record { listen = none; servers = []; rules = []; final = [] };
  nameservers = [];
  router = record {
    config = record { rules = []; final_outbound = []; rule_set_configs = [] };
    rule_sets = [];
  };
}

abbrev there : Destination
there = record { host = ipv4_address (1 ∷ 1 ∷ 1 ∷ 1 ∷ []); port = 80 }

abbrev one_address : List Host
one_address = ipv4_address (1 ∷ 1 ∷ 1 ∷ 1 ∷ []) ∷ []

connect_tcp-cases_example :
    Outcome calls 7 80 0 one_address (connect_tcp tagged echo no_names calls 7 there)
    ⊎ AllFailed calls 7 80 0 [] one_address (connect_tcp tagged echo no_names calls 7 there)
unfolding resolve_destination asio_address
connect_tcp-cases_example = connect_tcp-cases tagged echo no_names calls 7 there one_address refl
