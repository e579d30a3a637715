-- ===== src/TunInbound/Handlers.antt =====
-- The handlers of src/inbound/tun_inbound.cpp on every packet.
use cppbox.Prelude.{ℕ, ◌≤◌, ◌≡◌, some, List, get_elem?}
use cppbox.Prelude.Map.{nat_key}
use cppbox.Checksum.{ip_header_len}
use cppbox.TunInbound.{TunInbound}

-- A packet that has a full IP header, if it has a first byte.
abbrev pub HasHeader : List ℕ → Type 0
HasHeader packet = (first : ℕ) → get_elem? packet 0 ≡ some first → 20 ≤ ip_header_len first
