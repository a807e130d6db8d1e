-- ===== src/Rules/Libs.antt =====
-- The crates that redog-rules calls, as parameters: `regex`, `ipnet`, and the Unicode tables
-- behind `str::to_lowercase`.
use redog.Common.{Bool, Text, Parsed}
use redog.Core.Address.{IpAddr}

pub record Libs (Regex IpNet : Type 0) : Type 0 where
  -- `str::to_lowercase`
  pub to_lowercase : Text → Text
  -- `regex::Regex::new`, `Regex::is_match`
  pub regex_new : Text → Parsed Regex
  pub is_match : Regex → Text → Bool
  -- `IpNet::from_str`, `IpNet::contains`, and the test for `IpNet::V4`
  pub parse_net : Text → Parsed IpNet
  pub net_contains : IpNet → IpAddr → Bool
  pub net_is_v4 : IpNet → Bool
