-- ===== src/TunRoute/Tests.antt =====
-- Concrete runs of TunRoute.
use cppbox.Prelude.{ℕ, ◌≡◌, refl, ◌⊎◌, ◌==◌, if◌then◌else◌, none, some, List, [], ◌∷◌, All}
use cppbox.TunRoute.{ForwardRow, RouteCalls, find_default_route_interface_index}
use cppbox.TunRoute.Metric.{HasMetric, IsLeast, find_default_route_interface_index-cases}

abbrev default_by : ℕ → ℕ → ForwardRow
default_by index metric = record {
  interface_luid = index;
  interface_index = index;
  prefix_s_addr = 0;
  prefix_length = 0;
  next_hop = 16777226;
  metric = metric;
}

abbrev table : List ForwardRow
table = default_by 4 25 ∷ default_by 7 10 ∷ default_by 9 10 ∷ []

-- Creating a route is refused.
abbrev calls : RouteCalls
calls = record {
  create_address = λ row. 5010;
  delete_address = λ row. 0;
  create_route = λ row. 5;
  delete_route = λ row. 1168;
  get_table = some table;
  interface_metric = λ luid. if luid == 9 then none else some 15;
}

find_default_route_interface_index-cases_example :
    ((find_default_route_interface_index calls ≡ none)
      × All (λ route. (m : ℕ) → HasMetric calls.interface_metric route m → ⊥) table)
    ⊎ ((metric : ℕ) × (route : ForwardRow) × IsLeast calls.interface_metric table metric route
        × (find_default_route_interface_index calls ≡ some route.interface_index))
find_default_route_interface_index-cases_example =
    find_default_route_interface_index-cases calls table refl
