-- ===== src/Api/State.antt =====
-- redog-api/src/server.rs: the tunnel behind the interface. A selector group is kept as the object
-- that it is, so that a choice made here is seen by the tunnel. What a JSON value holds is a field
-- of its own.
use redog.Common.{ℕ, Bool, Text, List, [], ◌∷◌, Option, none, some, if◌then◌else◌, text_eq}
use redog.Adapter.Selector.{Selector, selected_proxy}
use redog.Core.Adapter.{ProxyAdapter, selector}
use redog.Core.Error.{Outcome, done, panic}
use redog.Core.Rule.{Rule}
use redog.Tunnel.Routing.{Mode}
use redog.Tunnel.Statistics.{TrafficCounter, ConnectionTracker, ConnectionInfo}

-- A `dyn ProxyAdapter` that `downcast_ref` finds to be a selector group, or another.
pub data Entry (S D : Type 0) : Type 0 where
  plain : ProxyAdapter S D → Entry S D
  group : Selector S D → Entry S D

pub record ApiState (S D : Type 0) : Type 0 where
  pub proxies : List (Text × Entry S D)
  pub rules : List Rule
  pub mode : Mode
  pub traffic : TrafficCounter
  pub connections : ConnectionTracker

module _ {S D : Type 0} where
  -- The group as the trait object that its selected member makes it.
  abbrev pub as_group : Selector S D → Outcome (ProxyAdapter S D) → Outcome (ProxyAdapter S D)
  as_group g (done p) = done (record p { name = g.name; adapter_type = selector; addr = none })
  as_group g panic = panic

  unfoldable pub adapter_of : Entry S D → Outcome (ProxyAdapter S D)
  unfolding selected_proxy
  adapter_of (plain p) = done p
  adapter_of (group g) = as_group g (selected_proxy g)

  -- `Tunnel::get_proxy`
  unfoldable pub find_entry : Text → List (Text × Entry S D) → Option (Entry S D)
  find_entry k [] = none
  find_entry k ((j, e) ∷ es) = if text_eq j k then some e else find_entry k es

  -- The map after a change of the object under a key.
  unfoldable pub put_entry : Text → Entry S D → List (Text × Entry S D) → List (Text × Entry S D)
  put_entry k e [] = []
  put_entry k e ((j, f) ∷ es) =
      let rest = put_entry k e es in if text_eq j k then (j, e) ∷ es else (j, f) ∷ rest

  abbrev pub with_adapter :
      Text
      → Outcome (ProxyAdapter S D)
      → Outcome (List (Text × ProxyAdapter S D))
      → Outcome (List (Text × ProxyAdapter S D))
  with_adapter name (done p) (done ps) = done ((name, p) ∷ ps)
  with_adapter name (done p) panic = panic
  with_adapter name panic rest = panic

  -- The map as the tunnel sees it. A group with no member panics when it is asked.
  unfoldable pub adapters : List (Text × Entry S D) → Outcome (List (Text × ProxyAdapter S D))
  unfolding adapter_of
  adapters [] = done []
  adapters ((name, e) ∷ es) = with_adapter name (adapter_of e) (adapters es)

-- The fields of a proxy in an answer.
pub record ProxyView : Type 0 where
  pub name : Text
  pub proxy_type : Text
  pub alive : Bool
  pub udp : Bool

pub record RuleView : Type 0 where
  pub rule_type : Text
  pub payload : Text
  pub proxy : Text

-- The body of an answer; a status alone has none.
pub data Body : Type 0 where
  nothing : Body
  hello : Text → Body
  version : Text → Bool → Body
  speeds : ℕ → ℕ → Body
  config_mode : Text → Body
  proxy_map : List (Text × ProxyView) → Body
  one_proxy : ProxyView → Body
  rule_list : List RuleView → Body
  connection_list : ℕ → ℕ → List ConnectionInfo → Body

pub record Response : Type 0 where
  pub status : ℕ
  pub body : Body

-- `Json(..)`, and a `StatusCode` alone.
abbrev pub json : Body → Response
json b = record { status = 200; body = b }

abbrev pub status_only : ℕ → Response
status_only n = record { status = n; body = nothing }
