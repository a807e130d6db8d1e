-- ===== src/Config/Types.antt =====
-- redog-config/src/types.rs: the configuration's data. A map is a list of its entries.
use redog.Common.{ℕ, Bool, Text, codes, List, Option}
use redog.Core.Metadata.{DnsMode}

pub data TunnelMode : Type 0 where
  rule global direct : TunnelMode

abbrev pub default_mode : TunnelMode
default_mode = rule

pub data LogLevel : Type 0 where
  silent error warning info debug : LogLevel

abbrev pub default_log_level : LogLevel
default_log_level = info

pub record DnsConfig : Type 0 where
  pub enable : Bool
  pub listen : Option Text
  pub enhanced_mode : Option DnsMode
  pub fake_ip_range : Option Text
  pub fake_ip_filter : List Text
  pub nameserver : List Text
  pub fallback : List Text
  pub nameserver_policy : List (Text × List Text)

pub record TunConfig : Type 0 where
  pub enable : Bool
  pub stack : Text
  pub dns_hijack : List Text
  pub auto_route : Bool
  pub auto_detect_interface : Bool

abbrev pub default_tun_stack : Text
default_tun_stack = codes "system"

pub record WsOpts : Type 0 where
  pub path : Option Text
  pub headers : List (Text × Text)

pub record ProxyConfig : Type 0 where
  pub name : Text
  pub proxy_type : Text
  pub server : Option Text
  pub port : Option ℕ
  pub password : Option Text
  pub cipher : Option Text
  pub uuid : Option Text
  pub alter_id : Option ℕ
  pub tls : Option Bool
  pub sni : Option Text
  pub network : Option Text
  pub ws_opts : Option WsOpts
  pub udp : Option Bool
  pub skip_cert_verify : Option Bool

pub record ProxyGroupConfig : Type 0 where
  pub name : Text
  pub group_type : Text
  pub proxies : List Text
  pub url : Option Text
  pub interval : Option ℕ
  pub tolerance : Option ℕ
  pub use_providers : List Text

pub record HealthCheckConfig : Type 0 where
  pub enable : Bool
  pub url : Option Text
  pub interval : Option ℕ

pub record ProviderConfig : Type 0 where
  pub vehicle_type : Text
  pub url : Option Text
  pub path : Option Text
  pub interval : Option ℕ
  pub health_check : Option HealthCheckConfig

pub record RuleProviderConfig : Type 0 where
  pub vehicle_type : Text
  pub behavior : Option Text
  pub url : Option Text
  pub path : Option Text
  pub interval : Option ℕ

pub record Config : Type 0 where
  pub port : Option ℕ
  pub socks_port : Option ℕ
  pub mixed_port : Option ℕ
  pub redir_port : Option ℕ
  pub tproxy_port : Option ℕ
  pub allow_lan : Bool
  pub bind_address : Text
  pub mode : TunnelMode
  pub log_level : LogLevel
  pub external_controller : Option Text
  pub external_ui : Option Text
  pub secret : Option Text
  pub dns : Option DnsConfig
  pub tun : Option TunConfig
  pub proxies : List ProxyConfig
  pub proxy_groups : List ProxyGroupConfig
  pub proxy_providers : List (Text × ProviderConfig)
  pub rule_providers : List (Text × RuleProviderConfig)
  pub rules : List Text

abbrev pub default_bind_address : Text
default_bind_address = codes "*"
