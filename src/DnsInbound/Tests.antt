-- ===== src/DnsInbound/Tests.antt =====
-- Concrete runs of DnsInbound.
use cppbox.Prelude.{false, List, ◌≡◌, refl, [], ◌∷◌, ◌++◌, codes, ok, err, runtime_error}
use cppbox.Prelude.Texts.{split_at, has_char, digits_value}
use cppbox.Address.{ipv4_address}
use cppbox.Address.Tests.{tagged}
use cppbox.DnsInbound.Serving.{Event, receives, stops, start_dns, run, start_dns-requests}
use cppbox.DnsInbound.{parse_port, split_bracketed, split_plain, listen_address, parse_endpoint}

ipv4_endpoint :
    parse_endpoint tagged ((4 ∷ 127 ∷ 0 ∷ 0 ∷ 1 ∷ []) ++ codes ":53")
    ≡ ok (record { host = ipv4_address (127 ∷ 0 ∷ 0 ∷ 1 ∷ []); port = 53 })
unfolding parse_endpoint split_plain split_at has_char listen_address parse_port digits_value
ipv4_endpoint = refl

no_port :
    parse_endpoint tagged (codes "[::1]") ≡ err (runtime_error "dns.listen must be [ipv6]:port")
unfolding parse_endpoint split_bracketed split_at
no_port = refl

-- Two requests, and of the two behind the call of stop the one that the pending receive returns.
abbrev history : List Event
history =
    receives (1 ∷ []) 7
    ∷ receives (2 ∷ []) 8
    ∷ stops
    ∷ receives (3 ∷ []) 7
    ∷ receives (4 ∷ []) 9
    ∷ []

start_dns-requests_example :
    (run history (start_dns (record { stopping = false; socket_open = false }))).handled
    ≡ (1 ∷ [], 7) ∷ (2 ∷ [], 8) ∷ (3 ∷ [], 7) ∷ []
start_dns-requests_example = start_dns-requests history false
