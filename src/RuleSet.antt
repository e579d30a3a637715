-- ===== src/RuleSet.antt =====
-- Loading the rule sets: src/route/rule_set.cpp and the constructor of src/route/router.cpp. The file system and
-- Boost.JSON's parser are parameters.
use cppbox.Prelude.{
  ℕ, Bool, ◌&&◌, not, Option, none, some, List, [], ◌∷◌, codes, is_empty, text_eq, if◌then◌else◌,
  Result, ok, err, runtime_error, runtime_error_about, ◌>>=◌, ◌>>◌,
}
use cppbox.Prelude.Map.{Map, insert, text_key}
use cppbox.Json.{Json, as_object, if_contains, get_string_array, each_in}
use cppbox.Router.{RouteRuleConfig, RuleSetConfig, RouteConfig, Router}

-- No list has an item.
abbrev pub is_null_rule : RouteRuleConfig → Bool
is_null_rule rule =
    is_empty rule.domain
    && is_empty rule.domain_keyword
    && is_empty rule.domain_suffix
    && is_empty rule.ip_cidr
    && is_empty rule.rule_set

-- The lists of a rule and the test on them; the code reads no `rule_set` here.
unfoldable pub load_item : Json → Result RouteRuleConfig
load_item j = do
  obj ← as_object j
  domain ← get_string_array obj "domain"
  domain_suffix ← get_string_array obj "domain_suffix"
  domain_keyword ← get_string_array obj "domain_keyword"
  ip_cidr ← get_string_array obj "ip_cidr"
  let rule : RouteRuleConfig = record {
    domain = domain;
    domain_suffix = domain_suffix;
    domain_keyword = domain_keyword;
    ip_cidr = ip_cidr;
    rule_set = [];
    outbound = [];
  }
  if is_null_rule rule then err (runtime_error "rule must be not null") else ok rule

-- `read_file` gives nothing for a file that does not open.
module _ (read_file : List ℕ → Option (List ℕ)) (parse : List ℕ → Result Json) where
  unfoldable pub load_source : List ℕ → Result (List RouteRuleConfig)
  load_source path = elim (read_file path) [
    | none ↦ err (runtime_error_about "failed to open rule_set: " path)
    | some text ↦
        (parse text >>= as_object >>= λ root. each_in load_item (if_contains root "rules"))
  ]

  abbrev pub check_config : RuleSetConfig → Result (Unit {0})
  check_config item =
      if not (text_eq item.set_type (codes "local"))
      then err (runtime_error_about "only local rule_set is supported: " item.tag)
      else if not (text_eq item.format (codes "source"))
      then err (runtime_error_about "only source rule_set is supported: " item.tag)
      else if is_empty item.path
      then err (runtime_error_about "missing rule_set path: " item.tag)
      else ok tt

  -- The loop of the constructor.
  unfoldable pub load_rule_sets :
      List RuleSetConfig
      → Map (List ℕ) (List RouteRuleConfig)
      → Result (Map (List ℕ) (List RouteRuleConfig))
  load_rule_sets [] sets = ok sets
  load_rule_sets (item ∷ items) sets = do
    check_config item
    rules ← load_source item.path
    load_rule_sets items (insert item.tag rules sets)

  unfoldable pub make_router : RouteConfig → Result Router
  make_router config = do
    sets ← load_rule_sets config.rule_set_configs []
    ok (record { config = config; rule_sets = sets })
