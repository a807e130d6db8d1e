-- ===== src/Api/Server.antt =====
-- redog-api/src/server.rs: the handlers, and the routes that lead to them. axum, which matches the
-- path and decodes it, is not modelled: a request is its method and the parts of its path. A HEAD
-- request and the preflight of CORS, which axum answers itself, are left out.
use redog.Common.{true, Text, codes, List, [], ◌∷◌, map, Option, none, some, if◌then◌else◌, text_eq}
use redog.Adapter.Selector.{Selector, select}
use redog.Core.Adapter.{ProxyAdapter, show_adapter_type}
use redog.Core.Error.{Result, ok, err, Outcome, done, bind_outcome}
use redog.Core.Rule.{Rule, show_rule_type}
use redog.Tunnel.Routing.{Mode, rule, global, direct_mode}
use redog.Tunnel.Statistics.{snapshot, list, close_all}
use redog.Api.State.{
  Entry, plain, group, ApiState, adapter_of, find_entry, put_entry, ProxyView, RuleView, hello,
  version, speeds, config_mode, proxy_map, one_proxy, rule_list, connection_list, Response, json,
  status_only,
}

pub data HttpMethod : Type 0 where
  get post put patch delete : HttpMethod

pub data Handler : Type 0 where
  hello_handler version_handler traffic_handler get_configs_handler patch_configs_handler : Handler
  proxies_handler rules_handler connections_handler close_handler : Handler
  get_proxy_handler change_proxy_handler : Text → Handler

-- The answer of the router: a handler, 404 for a path, or 405 for a method.
pub data Route : Type 0 where
  handled : Handler → Route
  not_found not_allowed : Route

-- The methods of a path.
unfoldable pub get_only : Handler → HttpMethod → Route
get_only h get = handled h
get_only h _ = not_allowed

unfoldable pub configs_route : HttpMethod → Route
configs_route get = handled get_configs_handler
configs_route patch = handled patch_configs_handler
configs_route _ = not_allowed

unfoldable pub proxy_route : Text → HttpMethod → Route
proxy_route name get = handled (get_proxy_handler name)
proxy_route name put = handled (change_proxy_handler name)
proxy_route name _ = not_allowed

unfoldable pub connections_route : HttpMethod → Route
connections_route get = handled connections_handler
connections_route delete = handled close_handler
connections_route _ = not_allowed

-- A path of one part.
unfoldable pub part_route : Text → HttpMethod → Route
unfolding text_eq get_only configs_route connections_route
part_route part method =
    if text_eq part (codes "version")
    then get_only version_handler method
    else if text_eq part (codes "traffic")
    then get_only traffic_handler method
    else if text_eq part (codes "configs")
    then configs_route method
    else if text_eq part (codes "proxies")
    then get_only proxies_handler method
    else if text_eq part (codes "rules")
    then get_only rules_handler method
    else if text_eq part (codes "connections")
    then connections_route method
    else not_found

unfoldable pub route : List Text → HttpMethod → Route
unfolding text_eq get_only part_route proxy_route
route [] method = get_only hello_handler method
route (part ∷ []) method = part_route part method
route (part ∷ name ∷ []) method =
    if text_eq part (codes "proxies") then proxy_route name method else not_found
route _ method = not_found

-- `env!("CARGO_PKG_VERSION")` is an argument.
abbrev pub get_hello : Response
get_hello = json (hello (codes "redog"))

abbrev pub get_version : Text → Response
get_version package_version = json (version package_version true)

-- The name of a mode, and back.
unfoldable pub mode_name : Mode → Text
mode_name rule = codes "rule"
mode_name global = codes "global"
mode_name direct_mode = codes "direct"

unfoldable pub mode_of_name : Text → Option Mode
unfolding text_eq
mode_of_name name =
    if text_eq name (codes "rule")
    then some rule
    else if text_eq name (codes "global")
    then some global
    else if text_eq name (codes "direct")
    then some direct_mode
    else none

unfoldable pub proxy_view : {S D : Type 0} → ProxyAdapter S D → ProxyView
unfolding show_adapter_type
proxy_view p = record {
  name = p.name;
  proxy_type = show_adapter_type p.adapter_type;
  alive = p.alive;
  udp = p.support_udp;
}

unfoldable pub rule_view : Rule → RuleView
unfolding show_rule_type
rule_view r = record {
  rule_type = show_rule_type r.rule_type;
  payload = r.payload;
  proxy = r.adapter;
}

module _ {S D : Type 0} where
  unfoldable pub get_traffic : ApiState S D → ApiState S D × Response
  unfolding snapshot
  get_traffic s =
      let (traffic, now) = snapshot s.traffic in
      (record s { traffic = traffic }, json (speeds now.upload_speed now.download_speed))

  unfoldable pub get_configs : ApiState S D → Response
  unfolding mode_name
  get_configs s = json (config_mode (mode_name s.mode))

  unfoldable pub patch_configs : Option Text → ApiState S D → ApiState S D × Response
  unfolding mode_of_name
  patch_configs none s = (s, status_only 204)
  patch_configs (some name) s = elim (mode_of_name name) [
    | some mode ↦ (record s { mode = mode }, status_only 204)
    | none ↦ (s, status_only 400)
  ]

  -- The entries of the map in turn; the keys are those of the map, so each is found.
  unfoldable pub proxy_views : List (Text × Entry S D) → Outcome (List (Text × ProxyView))
  unfolding adapter_of proxy_view
  proxy_views [] = done []
  proxy_views ((name, e) ∷ es) =
      let rest = proxy_views es in
      bind_outcome (adapter_of e)
        (λ p. bind_outcome rest (λ views. done ((name, proxy_view p) ∷ views)))

  unfoldable pub get_proxies : ApiState S D → Outcome Response
  unfolding proxy_views
  get_proxies s = bind_outcome (proxy_views s.proxies) (λ views. done (json (proxy_map views)))

  unfoldable pub get_proxy : Text → ApiState S D → Outcome Response
  unfolding find_entry adapter_of proxy_view
  get_proxy name s = elim (find_entry name s.proxies) [
    | none ↦ done (status_only 404)
    | some e ↦ bind_outcome (adapter_of e) (λ p. done (json (one_proxy (proxy_view p))))
  ]

  -- After the selection.
  abbrev pub selection :
      Text → ApiState S D → Selector S D × Result (Unit {0}) → ApiState S D × Response
  selection group_name s (g, ok _) =
      (record s { proxies = put_entry group_name (group g) s.proxies }, status_only 204)
  selection group_name s (g, err _) =
      (record s { proxies = put_entry group_name (group g) s.proxies }, status_only 400)

  unfoldable pub change_proxy : Text → Text → ApiState S D → ApiState S D × Response
  unfolding find_entry select put_entry
  change_proxy group_name body_name s = elim (find_entry group_name s.proxies) [
    | none ↦ (s, status_only 404)
    | some (plain _) ↦ (s, status_only 400)
    | some (group g) ↦ selection group_name s (select body_name g)
  ]

  unfoldable pub get_rules : ApiState S D → Response
  unfolding rule_view
  get_rules s = json (rule_list (map rule_view s.rules))

  unfoldable pub get_connections : ApiState S D → ApiState S D × Response
  unfolding snapshot list
  get_connections s =
      let (traffic, now) = snapshot s.traffic in
      (
        record s { traffic = traffic },
        json (connection_list now.download_total now.upload_total (list s.connections)),
      )

  unfoldable pub close_all_connections : ApiState S D → ApiState S D × Response
  unfolding close_all
  close_all_connections s =
      let (connections, count) = close_all s.connections in
      (record s { connections = connections }, status_only 204)
