-- ===== src/Config/Tests.antt =====
-- The validation of a configuration with a group and a rule.
use redog.Common.{codes, [], ◌∷◌, some, none, false}
use redog.Config.Types.{
  Config, ProxyGroupConfig, default_mode, default_log_level, default_bind_address,
}

abbrev group : ProxyGroupConfig
group = record {
  name = codes "Auto";
  group_type = codes "select";
  proxies = codes "DIRECT" ∷ [];
  url = none;
  interval = none;
  tolerance = none;
  use_providers = [];
}

abbrev sample : Config
sample = record {
  port = some 7890;
  socks_port = some 7891;
  mixed_port = none;
  redir_port = none;
  tproxy_port = none;
  allow_lan = false;
  bind_address = default_bind_address;
  mode = default_mode;
  log_level = default_log_level;
  external_controller = none;
  external_ui = none;
  secret = none;
  dns = none;
  tun = none;
  proxies = [];
  proxy_groups = group ∷ [];
  proxy_providers = [];
  rule_providers = [];
  rules = codes "DOMAIN,a.test,Auto" ∷ [];
}
