-- ===== src/App/Journey.antt =====
-- A connection from the bytes of a SOCKS5 client at the mixed listener to the adapter that makes it,
-- under the rules of the configuration's lines.
use redog.Common.{
  ◌<◌, Bool, true, false, Text, codes, List, [], ◌∷◌, ◌++◌, map, All, length, if◌then◌else◌,
  text_eq, ◌≡◌, refl, ap, ◌∙◌, inl, inr, Bool-cases,
}
use redog.Common.Utf8.{Bytes}
use redog.Adapter.Outbound.{Sockets, direct, direct_connect_stream}
use redog.App.Lines.{Line, good, bad, line_text, IsLine, rules_of, build_rules-front}
use redog.App.Setup.{build_rules, main_tunnel}
use redog.App.Started.{rejected, main_tunnel-connect_stream}
use redog.Config.Types.{Config}
use redog.Core.Address.{IpAddr, SocketAddr}
use redog.Core.Error.{ok, err, connection_closed}
use redog.Core.Metadata.{Metadata}
use redog.Core.Rule.{Rule}
use redog.Listener.Both.{ran, handle_mixed_connection_lem}
use redog.Listener.Mixed.{peek_byte, handle_mixed_connection}
use redog.Listener.Reader.{Socket, as_wire, answers}
use redog.Listener.Socks.{socks_metadata}
use redog.Listener.Requests.{connect_message}
use redog.Rules.Libs.{Libs}
use redog.Rules.Meaning.{Meaning, matches_iff}
use redog.Rules.Parser.{BoxedRule, as_rule}
use redog.Rules.RoundTrip.{written, WellFormed, parse_rule-written}
use redog.Transport.Socks5.{connect, Address, reply}
use redog.Transport.Socks5.RoundTrip.{Fits, client_message}
use redog.Tunnel.Routing.{match_adapter, set_mode, rule}

first_decides :
    (r : Rule) (rules : List Rule) (m : Metadata) (blocks : Bool)
    → r.matches m ≡ true
    → r.adapter ≡ (if blocks then codes "REJECT" else codes "DIRECT")
    → rejected (r ∷ rules) m ≡ blocks
unfolding text_eq
first_decides r rules m true hit a = rw (hit, a) refl
first_decides r rules m false hit a = rw (hit, a) refl

module _ {Regex IpNet : Type 0} (libs : Libs Regex IpNet) where
  -- A line that the parser refuses, or whose rule is not for the connection.
  abbrev pub PassedBy : Metadata → Line Regex IpNet → Type 0
  PassedBy m (good b) = Meaning libs b m → ⊥
  PassedBy m (bad s) = Unit

  not_matching :
      (b : BoxedRule Regex IpNet) (m : Metadata)
      → (Meaning libs b m → ⊥)
      → (as_rule libs b).matches m ≡ false
  not_matching b m h = elim (Bool-cases ((as_rule libs b).matches m)) [
    | inl e ↦ absurd (h ((matches_iff libs b m).0 e))
    | inr e ↦ e
  ]

  rejected-front :
      (front : List (Line Regex IpNet)) (rules : List Rule) (m : Metadata)
      → All (PassedBy m) front
      → rejected (rules_of libs front ++ rules) m ≡ rejected rules m
  rejected-front [] rules m h = refl
  rejected-front (good b ∷ ls) rules m (h, hs) =
      rw (not_matching b m h) (rejected-front ls rules m hs)
  rejected-front (bad s ∷ ls) rules m (h, hs) = rejected-front ls rules m hs

  build_rules-first :
      (b : BoxedRule Regex IpNet) (more : List Text)
      → WellFormed libs b
      → build_rules libs (written libs b ∷ more) ≡ as_rule libs b ∷ build_rules libs more
  unfolding build_rules
  build_rules-first b more h = rw (parse_rule-written libs b h, build_rules) refl

  -- A rule that is for the connection, and rejects it or lets it through, decides.
  decides :
      (b : BoxedRule Regex IpNet) (blocks : Bool) (more : List Text) (m : Metadata)
      → WellFormed libs b
      → (as_rule libs b).adapter ≡ (if blocks then codes "REJECT" else codes "DIRECT")
      → Meaning libs b m
      → rejected (build_rules libs (written libs b ∷ more)) m ≡ blocks
  decides b blocks more m h a hit =
      ap (λ rules. rejected rules m) (build_rules-first b more h)
      ∙ first_decides (as_rule libs b) (build_rules libs more) m blocks
          ((matches_iff libs b m).1 hit) a

module _ {Regex IpNet Stream Datagram : Type 0} (libs : Libs Regex IpNet)
    (net : Sockets Stream Datagram) (show_ip : IpAddr → Text) where
  -- A SOCKS5 client asks the mixed listener, over a live connection, with fewer than 256 methods, to
  -- connect to an address that the format can carry. The configuration's lines are some that the
  -- parser refuses or whose rules are not for the connection, then the line of a well-formed rule
  -- that is for it and names REJECT or DIRECT, then any others. Then the listener returns the
  -- connection's metadata, and the tunnel that the program starts with closes the connection if the
  -- rule names REJECT, and makes it directly if it names DIRECT.
  pub handle_mixed_connection-decided :
      (config : Config) (front : List (Line Regex IpNet)) (b : BoxedRule Regex IpNet)
      (blocks : Bool) (more : List Text) (peer_addr : SocketAddr) (methods : Bytes) (a : Address)
      (rest : Bytes) (s : Socket)
      → config.rules ≡ map (line_text libs) front ++ written libs b ∷ more
      → All (IsLine libs) front
      → All (PassedBy libs (socks_metadata show_ip peer_addr a)) front
      → WellFormed libs b
      → (as_rule libs b).adapter ≡ (if blocks then codes "REJECT" else codes "DIRECT")
      → Meaning libs b (socks_metadata show_ip peer_addr a)
      → length methods < 256
      → Fits a
      → s.broken ≡ false
      → peek_byte s ≡ 5
      → (as_wire s).input ≡ client_message methods connect a ++ rest
      → let m = socks_metadata show_ip peer_addr a in
        (handle_mixed_connection show_ip peer_addr s
          ≡ answers
              (record (as_wire s) { input = rest; output = (s.output ++ (5 ∷ 0 ∷ [])) ++ reply })
              (ok m))
        × ((match_adapter (direct net) (main_tunnel libs net config) m).adapter.connect_stream m
            ≡ (if blocks then err connection_closed else direct_connect_stream net m))
  unfolding main_tunnel set_mode
  handle_mixed_connection-decided config front b blocks more peer_addr methods a rest s lines read
        passed well names hit few fits live five input =
      let m = socks_metadata show_ip peer_addr a in
      let rules : rejected (build_rules libs config.rules) m ≡ blocks =
        ap (λ l. rejected (build_rules libs l) m) lines
        ∙ ap (λ l. rejected l m) (build_rules-front libs front (written libs b ∷ more) read)
        ∙ rejected-front libs front (build_rules libs (written libs b ∷ more)) m passed
        ∙ decides libs b blocks more m well names hit in
      (
        handle_mixed_connection_lem show_ip peer_addr s
            ∙ rw five (
                ap ran (
                  connect_message show_ip peer_addr methods a rest (as_wire s) few fits live
                    input)),
        main_tunnel-connect_stream net libs config rule m
            ∙ ap (λ x. if x then err connection_closed else direct_connect_stream net m) rules,
      )
