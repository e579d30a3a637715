-- ===== src/TunRoute.antt =====
-- The addresses and routes of the TUN adapter: src/inbound/tun_route.cpp. The calls of Windows are the
-- parameter `RouteCalls`, each with the error that it returns; 0 is NO_ERROR.
pub mod Metric
mod Tests
use cppbox.Prelude.{
  ℕ, ◌+◌, Bool, true, false, ◌||◌, ◌&&◌, not, Option, none, some, List, [], ◌∷◌, ltb, ◌==◌,
  if◌then◌else◌, Result, ok, ◌>>=◌,
}
use cppbox.Address.{AddressText, ipv4_to_net_order_u32}

-- The fields of MIB_UNICASTIPADDRESS_ROW that the code sets.
pub record AddressRow : Type 0 where
  pub interface_luid : ℕ
  pub s_addr : ℕ
  pub on_link_prefix_length : ℕ

-- The fields of MIB_IPFORWARD_ROW2 that the code sets, or reads from the table.
pub record ForwardRow : Type 0 where
  pub interface_luid : ℕ
  pub interface_index : ℕ
  pub prefix_s_addr : ℕ
  pub prefix_length : ℕ
  pub next_hop : ℕ
  pub metric : ℕ

-- `get_table` and `interface_metric` give nothing where the call returns an error.
pub record RouteCalls : Type 0 where
  pub create_address : AddressRow → ℕ
  pub delete_address : AddressRow → ℕ
  pub create_route : ForwardRow → ℕ
  pub delete_route : ForwardRow → ℕ
  pub get_table : Option (List ForwardRow)
  pub interface_metric : ℕ → Option ℕ

abbrev pub error_object_already_exists : ℕ
error_object_already_exists = 5010

abbrev pub error_not_found : ℕ
error_not_found = 1168

abbrev pub ok_or_exists : ℕ → Bool
ok_or_exists error = (error == 0) || (error == error_object_already_exists)

abbrev pub ok_or_missing : ℕ → Bool
ok_or_missing error = not (not (error == 0) && not (error == error_not_found))

-- What was called, and what it was called with.
pub data RouteCall : Type 0 where
  creates_address : AddressRow → RouteCall
  deletes_address : AddressRow → RouteCall
  creates_route : ForwardRow → RouteCall
  deletes_route : ForwardRow → RouteCall

-- The calls made, and what is returned.
pub data Traced : Type 0 where
  traced : List RouteCall → Bool → Traced

module _ (t : AddressText) (calls : RouteCalls) (luid : ℕ) where
  unfoldable pub address_row : List ℕ → Result AddressRow
  address_row tun_ip = ipv4_to_net_order_u32 t tun_ip >>= λ addr.
      ok (record { interface_luid = luid; s_addr = addr; on_link_prefix_length = 24 })

  unfoldable pub route_row : List ℕ → Result ForwardRow
  route_row tun_next_ip = ipv4_to_net_order_u32 t tun_next_ip >>= λ hop. ok (record {
    interface_luid = luid;
    interface_index = 0;
    prefix_s_addr = 0;
    prefix_length = 0;
    next_hop = hop;
    metric = 1;
  })

  abbrev pub add_tun_address : AddressRow → Bool
  add_tun_address row = ok_or_exists (calls.create_address row)

  abbrev pub delete_tun_address : AddressRow → Bool
  delete_tun_address row = ok_or_missing (calls.delete_address row)

  abbrev pub add_default_route : ForwardRow → Bool
  add_default_route row = ok_or_exists (calls.create_route row)

  abbrev pub delete_default_route : ForwardRow → Bool
  delete_default_route row = ok_or_missing (calls.delete_route row)

  -- The second address is read only when the first call has succeeded.
  unfoldable pub configure_tun_routes : List ℕ → List ℕ → Result Traced
  configure_tun_routes tun_ip tun_next_ip = address_row tun_ip >>= λ address.
      elim (add_tun_address address) [
        | false ↦ ok (traced (creates_address address ∷ []) false)
        | true ↦
            (route_row tun_next_ip >>= λ route. ok (
              if add_default_route route
              then traced (creates_address address ∷ creates_route route ∷ []) true
              else traced
                  (creates_address address ∷ creates_route route ∷ deletes_address address ∷ [])
                  false))
      ]

  unfoldable pub cleanup_tun_routes : List ℕ → List ℕ → Result Traced
  cleanup_tun_routes tun_ip tun_next_ip = do
    route ← route_row tun_next_ip
    address ← address_row tun_ip
    ok (
        traced (deletes_route route ∷ deletes_address address ∷ [])
          (delete_default_route route && delete_tun_address address))

-- `best_metric` and `best_index`, which are set together.
abbrev pub Best : Type 0
Best = Option (ℕ × ℕ)

module _ (interface_metric : ℕ → Option ℕ) where
  -- The effective metric of a default route; other routes are passed over. It is the sum of two
  -- 32-bit numbers in 64 bits.
  unfoldable pub effective_metric : ForwardRow → Option ℕ
  effective_metric route =
      if not (route.prefix_length == 0) || not (route.prefix_s_addr == 0)
      then none
      else elim (interface_metric route.interface_luid) [
        | none ↦ none
        | some m ↦ some (route.metric + m)
      ]

  abbrev pub improves : ℕ → Best → Bool
  improves metric none = true
  improves metric (some (best_metric, best_index)) = ltb metric best_metric

  unfoldable pub consider : Best → ForwardRow → Best
  consider best route = elim (effective_metric route) [
    | none ↦ best
    | some metric ↦ if improves metric best then some (metric, route.interface_index) else best
  ]

  -- The loop over the table.
  unfoldable pub scan : Best → List ForwardRow → Best
  scan best [] = best
  scan best (route ∷ routes) = scan (consider best route) routes

abbrev pub best_index : Best → Option ℕ
best_index none = none
best_index (some (metric, index)) = some index

unfoldable pub find_default_route_interface_index : RouteCalls → Option ℕ
find_default_route_interface_index calls = elim calls.get_table [
  | none ↦ none
  | some table ↦ best_index (scan calls.interface_metric none table)
]
