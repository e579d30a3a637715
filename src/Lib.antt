-- ===== src/Lib.antt =====
-- cppbox, a proxy for Windows, checked against a model of its source.
--
-- The program accepts connections (mixed SOCKS5/HTTP inbounds, a TUN device, a DNS inbound), finds
-- the destination of each, picks an outbound by the routing rules and relays the bytes, directly or
-- through a VLESS server. This library models the parts of it that compute.
--
-- - Prelude: names, tests, lists, results of code that throws, maps, bits, recursion on numbers.
-- - Utils (src/core/utils.cpp): big-endian reads and writes, UUIDs. A buffer is a list of bytes, a
--   pointer an offset; an access outside of the buffer is the error `out_of_bounds`.
-- - Checksum (src/inbound/tun_checksum.cpp): the checksums of the packets that the TUN inbound writes.
-- - DnsMessage (src/dns/dns_message.cpp): the DNS packets that the DNS server reads and writes.
-- - TlsSniffer (src/protocol/tls_sniffer.cpp): the server name in a TLS client hello.
-- - TunNat (src/inbound/tun_nat.cpp): the translation table of the TUN inbound.
-- - UdpFlow (TunUdpFlow of src/inbound/tun_inbound.cpp): the queue of a UDP flow and the coroutines that
--   empty it, as steps in any order. Connecting and sending may fail, which ends
--   the coroutine.
-- - TunInbound (src/inbound/tun_inbound.cpp): the handlers of packets, on top of TunNat, UdpFlow and
--   Checksum, the sockets that the local relay accepts, and starting and stopping. Handlers run one after
--   another on the packet thread; each returns its new state. recv_loop of a UDP flow
--   takes the list of what its socket receives. What Wintun and the acceptor return are parameters.
-- - Json (src/common/json_common.cpp) and Config (src/config/config.cpp): the configuration file. The file system and
--   the parser are parameters, and so are the values of members that the code leaves without one.
-- - TunRoute (src/inbound/tun_route.cpp): the address and the routes of the TUN adapter, and the interface that
--   outgoing connections take. The calls of Windows are the parameter `RouteCalls`.
-- - Address (src/core/address.cpp, src/core/session.hpp): hosts and destinations. The text forms of IP
--   addresses belong to Boost.Asio and are the parameter `AddressText`.
-- - Router (src/route/router.cpp, src/route/rule_set.cpp, src/config/config.hpp): the routing rules.
-- - RuleSet (src/route/rule_set.cpp, src/route/router.cpp): the rule set files, behind the JSON parser.
-- - Socks5 (src/protocol/socks5.cpp): the SOCKS5 handshake on the bytes that a client sends, with what is
--   written back.
-- - HttpProxy (src/protocol/http_proxy.cpp): requests to the HTTP proxy, their targets and what is sent on.
-- - Shutdown (src/core/shutdown.cpp): the callbacks that run when the program stops, with signals, console
--   events and posted handlers as events in any order.
-- - DnsServer (src/dns/dns.cpp): the choice of a nameserver and the lookup of a name, on top of DnsMessage
--   and Router. The exchange of a message with a nameserver is the parameter `exchange`; Exchange models it as
--   calls of Network.
-- - Connector (src/transport/connector.cpp): the attempts to connect to the addresses of a destination, on top of
--   DnsServer. What the calls of a socket return is the parameter `SocketCalls`.
-- - DnsInbound (src/dns/dns_inbound.cpp): the endpoint that the DNS inbound listens on, and its answers. Serving is
--   the loop that receives requests; what the socket receives is a list of events.
-- - Program (src/main.cpp): what is built from the configuration, where a session goes, and how the program ends, on
--   top of Config, Router, DnsServer, DnsInbound, TunRoute and Shutdown.
-- - Network: the calls of Boost.Asio, Beast and OpenSSL that coroutines make, as a history, the last in front. What each
--   call returns, or that it throws, is the parameter `Peer`, which sees all calls before.
-- - Wintun (src/inbound/tun_wintun.cpp): the handles and functions of the Wintun library.
-- - WindowsProxy (src/platform/windows_proxy.cpp): the proxy settings of Windows.
-- - Tls (src/core/tls.cpp, src/core/tls.hpp) and Transport (src/transport/tcp_client.cpp, src/transport/ws_client.cpp): the
--   clients that open a stream to a server, as calls of Network.
-- - Outbounds (src/outbound/vless_outbound.cpp, src/outbound/direct_outbound.cpp, src/outbound/block_outbound.cpp and the
--   handler of sessions of src/main.cpp), on top of Program, Vless, Router and Transport. The two relays of an
--   outbound, side by side, are one call.
-- - Listeners (src/inbound/mixed_inbound.cpp, src/inbound/socks5_inbound.cpp, src/inbound/http_inbound.cpp): the clients of
--   the listening inbounds, on top of Socks5 and HttpProxy.
-- - Streams (src/transport/stream_utils.hpp, src/outbound/direct_outbound.cpp, src/outbound/vless_outbound.cpp): which errors
--   end a stream, and the relays from one to another. Reads and writes give what a list of rounds says.
-- - Vless (src/protocol/vless.cpp, src/outbound/vless_outbound.cpp): the VLESS header, the choice of the
--   destination and the relay from the server, whose messages and writes a list of rounds gives.
--
-- A function that throws returns a `Result`: `ok`, `err` with what is thrown, or `stuck` where a loop
-- has used up its fuel. The sum of `checksum` is folded by recursion on the falling sum. The loops of
-- the TLS sniffer and of `read_name` have as many rounds as the buffer has bytes, and one more; each
-- round takes a byte at least. The loop over the lines of an HTTP header has as many rounds as the
-- text has bytes, and one more. `read_name` may follow 16 compression pointers, as in the source. The
-- search for a NAT port has 131072 rounds, two passes over the 16-bit ports.
--
-- Not modelled are what sockets, TLS and WebSocket streams do within a call, how coroutines interleave but for the
-- UDP flows, the DNS inbound and the shutdown, what the calls of Windows do, logging, the loops that accept the clients of
-- the listening inbounds, the JSON parser and the text forms of IP addresses, which belong to other libraries.
pub mod Prelude
pub mod Utils
pub mod Address
pub mod Checksum
pub mod DnsMessage
pub mod TlsSniffer
pub mod TunNat
pub mod Router
pub mod Vless
pub mod UdpFlow
pub mod TunInbound
pub mod DnsServer
pub mod Socks5
pub mod HttpProxy
pub mod Shutdown
pub mod Json
pub mod Config
pub mod Connector
pub mod TunRoute
pub mod DnsInbound
pub mod Program
pub mod RuleSet
pub mod Listeners
pub mod Streams
pub mod Network
pub mod Tls
pub mod Transport
pub mod Outbounds
pub mod Wintun
pub mod WindowsProxy
