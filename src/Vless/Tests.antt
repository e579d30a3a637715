-- ===== src/Vless/Tests.antt =====
-- Concrete runs of Vless.
use cppbox.Prelude.{ℕ, true, ◌≡◌, refl, arith, some, List, [], ◌∷◌, ◌++◌, codes, ok}
use cppbox.Utils.{parse_uuid, uuid_digits, uuid_bytes, hex_value}
use cppbox.Address.{domain_name, Destination}
use cppbox.Vless.{build_request, relay_stream_to_tcp}
use cppbox.Vless.Requests.{read_request, read_request-build_request}
use cppbox.Vless.Responses.{Write, Passes, headed, messages_of, relay_stream_to_tcp-header}
use cppbox.Streams.{success, eof}

abbrev one_uuid : List ℕ
one_uuid =
    0 ∷ 17 ∷ 34 ∷ 51 ∷ 68 ∷ 85 ∷ 102 ∷ 119 ∷ 136 ∷ 153 ∷ 170 ∷ 187 ∷ 204 ∷ 221 ∷ 238 ∷ 255 ∷ []

abbrev site : Destination
site = record { host = domain_name (codes "a.org"); port = 443 }

read_request-build_request_example :
    (request : List ℕ) × (build_request (codes "00112233-4455-6677-8899-AABBCCDDEEFF") site
      ≡ ok request)
    × (read_request (request ++ (22 ∷ 3 ∷ []))
        ≡ some (one_uuid, (443, (domain_name (codes "a.org"), 22 ∷ 3 ∷ []))))
unfolding parse_uuid uuid_digits uuid_bytes hex_value
read_request-build_request_example =
    read_request-build_request (codes "00112233-4455-6677-8899-AABBCCDDEEFF") one_uuid site
      (22 ∷ 3 ∷ []) refl (omega arith) (omega arith)

-- The second write finds that the client is gone.
abbrev two_writes : List Write
two_writes =
    record { bytes = 72 ∷ 73 ∷ []; write_ec = success }
    ∷ record { bytes = 74 ∷ []; write_ec = eof }
    ∷ []

relay_stream_to_tcp-header_example :
    Passes (record { bytes = 71 ∷ []; write_ec = success } ∷ two_writes) (
      relay_stream_to_tcp true (
        headed 0 (9 ∷ []) (record { bytes = 71 ∷ []; write_ec = success })
        ∷ messages_of two_writes))
relay_stream_to_tcp-header_example =
    relay_stream_to_tcp-header 0 (9 ∷ []) (record { bytes = 71 ∷ []; write_ec = success })
      two_writes (refl, (refl, tt))
