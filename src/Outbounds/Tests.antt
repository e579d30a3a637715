-- ===== src/Outbounds/Tests.antt =====
-- Concrete runs of the outbounds.
use cppbox.Prelude.{
  ℕ, true, false, ◌≡◌, ◌≢◌, refl, none, some, List, [], ◌∷◌, codes, map, ok, stuck, system_error,
  subst, arith, All,
}
use cppbox.Prelude.Map.{Map, find, text_key}
use cppbox.Address.{domain_name, Session, host_text}
use cppbox.Address.Tests.{tagged}
use cppbox.Router.{pick_outbound, pick_from, Router}
use cppbox.Utils.{parse_uuid, uuid_digits, uuid_bytes, hex_value, write_be16, tolower, IsByte}
use cppbox.Vless.{
  TlsConfig, normalize_tls, build_request, request_host, request_head, choose_destination,
}
use cppbox.Tls.{configure_tls_context, configure_tls_stream_identity}
use cppbox.Transport.{make_tcp_client, connect_tcp_client, connect_tls}
use cppbox.Program.{VlessOutboundConfig, Outbound, vless_outbound, find_outbound}
use cppbox.Network.{
  Call, Event, Answer, returned, thrown, Peer, connect, tls_handshake, load_system_roots,
  set_verify_mode, set_tlsext_host_name, host_name_verification, write, relay, close_stream,
  close_inbound,
}
use cppbox.Network.Encrypted.{IsEncrypted}
use cppbox.Outbounds.{connect_stream, open_stream, use_stream, handle_vless, serve}
use cppbox.Outbounds.Encrypted.{serve-IsEncrypted}
use cppbox.Outbounds.Closing.{closing, handle_vless-closing}

-- Every call returns, and nothing is read.
abbrev willing : Peer
willing = record { answer = λ events c. returned []; status = λ events. 200 }

-- The handshake throws.
abbrev refuse : Call → Answer
refuse tls_handshake = thrown system_error
refuse c = returned []

abbrev distrusted : Peer
distrusted = record { answer = λ events. refuse; status = λ events. 200 }

abbrev tls_settings : TlsConfig
tls_settings = record { enabled = true; server_name = []; insecure = false }

abbrev proxy : VlessOutboundConfig
proxy = record {
  server = record { host = domain_name (codes "p.net"); port = 443 };
  uuid = codes "00112233-4455-6677-8899-AABBCCDDEEFF";
  tls = some tls_settings;
  transport = none;
  override_address = false;
}

abbrev greeting : Session
greeting = record {
  destination = record { host = domain_name (codes "a.org"); port = 80 };
  initial_payload = 71 ∷ 69 ∷ [];
}

abbrev to_proxy : Router
to_proxy = record {
  config = record { rules = []; final_outbound = codes "proxy"; rule_set_configs = [] };
  rule_sets = [];
}

abbrev proxies : Map (List ℕ) Outbound
proxies = (codes "proxy", vless_outbound proxy) ∷ []

abbrev call_of : Event → Call
call_of e = e.call

-- The calls of a session that is relayed, the last in front.
handle_vless_calls :
    map call_of (handle_vless tagged willing tls_settings proxy greeting []).1
    ≡ close_inbound
      ∷ close_stream
      ∷ relay
      ∷ write (71 ∷ 69 ∷ [])
      ∷ write (
          0
          ∷ 0
          ∷ 17
          ∷ 34
          ∷ 51
          ∷ 68
          ∷ 85
          ∷ 102
          ∷ 119
          ∷ 136
          ∷ 153
          ∷ 170
          ∷ 187
          ∷ 204
          ∷ 221
          ∷ 238
          ∷ 255
          ∷ 0
          ∷ 1
          ∷ 0
          ∷ 80
          ∷ 2
          ∷ 5
          ∷ codes "a.org")
      ∷ tls_handshake
      ∷ host_name_verification (codes "p.net")
      ∷ set_tlsext_host_name (codes "p.net")
      ∷ connect proxy.server
      ∷ set_verify_mode true
      ∷ load_system_roots
      ∷ []
unfolding handle_vless open_stream choose_destination connect_stream make_tcp_client normalize_tls
    configure_tls_context connect_tcp_client connect_tls configure_tls_stream_identity use_stream
    build_request parse_uuid uuid_digits uuid_bytes hex_value request_host request_head host_text
    write_be16 tolower
handle_vless_calls = refl

serve-IsEncrypted_example :
    IsEncrypted (codes "p.net") (serve tagged willing tls_settings to_proxy proxies greeting []).1
unfolding find_outbound find pick_outbound pick_from host_text
serve-IsEncrypted_example =
    serve-IsEncrypted tagged willing tls_settings to_proxy proxies greeting (codes "proxy") proxy
      tls_settings refl refl refl refl refl

returned_injective : {a b : List ℕ} → returned a ≡ returned b → a ≡ b
returned_injective e = cc

-- No stream is opened, and the socket of the client is closed.
handle_vless-closing_example :
    let (opened, events) = open_stream tagged distrusted tls_settings proxy greeting [] in
    (opened ≢ stuck)
    × (handle_vless tagged distrusted tls_settings proxy greeting []
        ≡ (ok tt, closing tagged distrusted tls_settings proxy greeting opened events))
handle_vless-closing_example =
    handle_vless-closing tagged distrusted tls_settings proxy greeting (omega arith)
      (λ events bytes e. subst (All IsByte) (returned_injective e) tt)
