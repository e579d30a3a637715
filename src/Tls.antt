-- ===== src/Tls.antt =====
-- TLS settings: src/core/tls.cpp and src/core/tls.hpp. The settings of a context and of the stream that is
-- made with it stand in one history of calls.
pub mod Roots
use cppbox.Prelude.{Bool, not, List, ℕ}
use cppbox.Network.{
  Peer, Io, load_system_roots, set_verify_mode, set_tlsext_host_name, host_name_verification,
  perform, perform_when, ◌>>◌,
}

unfoldable pub configure_tls_context : Peer → Bool → Io (List ℕ)
configure_tls_context p insecure = do
  perform p load_system_roots
  perform p (set_verify_mode (not insecure))

unfoldable pub configure_tls_stream_identity : Peer → List ℕ → Bool → Io (List ℕ)
configure_tls_stream_identity p server_name insecure = do
  perform p (set_tlsext_host_name server_name)
  perform_when p (not insecure) (host_name_verification server_name)
