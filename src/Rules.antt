-- ===== src/Rules.antt =====
-- redog-rules: the kinds of rules, their parser, and what they match.
pub mod Libs
pub mod Domain
pub mod IpCidr
pub mod Port
pub mod FinalMatch
pub mod Parser
pub mod Matching
pub mod Meaning
pub mod RoundTrip
mod Tests
