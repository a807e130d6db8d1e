-- ===== src/App/Started.antt =====
-- What the program as it is started does with a connection, in each mode: its table of adapters
-- holds DIRECT and REJECT and nothing else.
use redog.Common.{
  Bool, true, false, not, Text, codes, List, [], ◌∷◌, none, some, if◌then◌else◌, text_eq, ◌≡◌, refl,
  ap, ◌∙◌, inl, inr, Bool-cases,
}
use redog.Adapter.Outbound.{Sockets, TrackedStream, direct, reject, direct_connect_stream}
use redog.App.Setup.{build_rules, initial_proxies, main_tunnel}
use redog.Config.Types.{Config}
use redog.Core.Adapter.{ProxyAdapter}
use redog.Core.Error.{err, connection_closed}
use redog.Core.Metadata.{Metadata}
use redog.Core.Rule.{Rule}
use redog.Rules.Libs.{Libs}
use redog.Tunnel.Routing.{
  Mode, rule, global, direct_mode, new, set_mode, find_proxy, find_global, or_direct, match_rules,
  match_adapter, default_match,
}

-- Among the rules that match and name one of the two adapters, the first names REJECT.
abbrev pub rejected : List Rule → Metadata → Bool
rejected [] m = false
rejected (r ∷ rs) m =
    if not (r.matches m)
    then rejected rs m
    else if text_eq (codes "DIRECT") r.adapter
    then false
    else if text_eq (codes "REJECT") r.adapter
    then true
    else rejected rs m

-- A connection is rejected by the rules in their mode alone.
abbrev pub rejects : Mode → List Rule → Metadata → Bool
rejects rule rules m = rejected rules m
rejects global rules m = false
rejects direct_mode rules m = false

module _ {Stream Datagram : Type 0} (net : Sockets Stream Datagram) where
  abbrev Answer : Type 0
  Answer = ProxyAdapter (TrackedStream Stream) Datagram

  abbrev answer : Bool → Answer
  answer true = reject
  answer false = direct net

  find_initial :
      (k : Text)
      → find_proxy k (initial_proxies net) ≡ (
          if text_eq (codes "DIRECT") k
          then some (direct net)
          else if text_eq (codes "REJECT") k
          then some reject
          else none)
  unfolding find_proxy initial_proxies
  find_initial k = refl

  initial_direct : find_proxy (codes "DIRECT") (initial_proxies net) ≡ some (direct net)
  unfolding find_proxy initial_proxies text_eq
  initial_direct = refl

  match_rules-answer :
      (rules : List Rule) (m : Metadata)
      → (match_rules (direct net) rules (initial_proxies net) m).adapter ≡ answer (rejected rules m)
  unfolding match_rules default_match
  match_rules-answer [] m = rw initial_direct refl
  match_rules-answer (r ∷ rs) m = elim (Bool-cases (r.matches m)) [
    | inr miss ↦ rw miss (match_rules-answer rs m)
    | inl hit ↦ elim (Bool-cases (text_eq (codes "DIRECT") r.adapter)) [
      | inl d ↦ rw (hit, find_initial r.adapter, d) refl
      | inr no_d ↦ elim (Bool-cases (text_eq (codes "REJECT") r.adapter)) [
        | inl x ↦ rw (hit, find_initial r.adapter, no_d, x) refl
        | inr no_x ↦ rw (hit, find_initial r.adapter, no_d, no_x) (match_rules-answer rs m)
      ]
    ]
  ]

  all_builtin : or_direct (direct net) (find_global (initial_proxies net)) ≡ direct net
  unfolding find_global initial_proxies direct reject text_eq
  all_builtin = refl

  connect_stream-answer :
      (b : Bool) (m : Metadata)
      → (answer b).connect_stream m
        ≡ (if b then err connection_closed else direct_connect_stream net m)
  unfolding direct reject
  connect_stream-answer true m = refl
  connect_stream-answer false m = refl

  adapter-answer :
      (mode : Mode) (rules : List Rule) (m : Metadata)
      → (match_adapter (direct net) (set_mode mode (new (initial_proxies net) rules)) m).adapter
        ≡ answer (rejects mode rules m)
  unfolding match_adapter set_mode new find_global
  adapter-answer rule rules m = match_rules-answer rules m
  adapter-answer global rules m = all_builtin
  adapter-answer direct_mode rules m = rw initial_direct refl

  -- The program that is started with any configuration, in any mode that it is then set to, connects
  -- directly or not at all: a connection is closed where the mode is that of the rules and, among
  -- the rules that match and name DIRECT or REJECT, the first names REJECT; otherwise it is made
  -- directly. A rule with any other target does nothing.
  pub main_tunnel-connect_stream :
      {Regex IpNet : Type 0}
      → (libs : Libs Regex IpNet) (config : Config) (mode : Mode) (m : Metadata)
      → let t = set_mode mode (main_tunnel libs net config) in
        (match_adapter (direct net) t m).adapter.connect_stream m ≡ (
          if rejects mode (build_rules libs config.rules) m
          then err connection_closed
          else direct_connect_stream net m)
  unfolding main_tunnel
  main_tunnel-connect_stream libs config mode m =
      ap (λ a. a.connect_stream m) (adapter-answer mode (build_rules libs config.rules) m)
      ∙ connect_stream-answer (rejects mode (build_rules libs config.rules) m) m
