-- ===== src/App/Examples.antt =====
-- The program's theorems at a configuration that blocks a zone, and at one that cannot be read.
use redog.Common.{
  true, false, Text, codes, List, [], ◌∷◌, ◌++◌, All, to_ascii_lowercase, is_whitespace, ◌≡◌, refl,
  inr, arith, if◌then◌else◌, to_decimal,
}
use redog.Common.Utf8.{utf8, utf8_char}
use redog.Adapter.Outbound.{direct, direct_connect_stream}
use redog.App.Journey.{PassedBy, handle_mixed_connection-decided}
use redog.App.Lines.{Line, good, IsLine}
use redog.App.Ports.{PortsHold, main_config-PortsHold}
use redog.App.Setup.{build_rules, default_config, main_config, main_tunnel}
use redog.App.Started.{rejects, main_tunnel-connect_stream}
use redog.App.Tests.{libs, net, peer, target, show_ip}
use redog.Config.Types.{Config}
use redog.Config.Validate.{load_config}
use redog.Core.Error.{Result, ok, err, timeout, connection_closed}
use redog.Core.Metadata.{Metadata}
use redog.Listener.Mixed.{handle_mixed_connection, peek_byte}
use redog.Listener.Reader.{Socket, as_wire, answers}
use redog.Listener.Socks.{socks_metadata}
use redog.Rules.Domain.{domain_suffix_rule}
use redog.Rules.Meaning.{Meaning}
use redog.Rules.Parser
use redog.Rules.Parser.{BoxedRule, as_rule}
use redog.Rules.RoundTrip.{written, WellFormed}
use redog.Transport.Socks5.{connect, encode_address, reply, address_host, address_port}
use redog.Transport.Socks5.RoundTrip.{Fits, client_message}
use redog.Tunnel.Routing.{match_adapter, set_mode, rule}

-- A file that cannot be read.
abbrev unreadable : Text → Result Text
unreadable path = err timeout

main_config-PortsHold_example :
    PortsHold (main_config (load_config (λ s. err timeout) unreadable (codes "config.yaml")))
main_config-PortsHold_example =
    main_config-PortsHold (λ s. err timeout) unreadable (codes "config.yaml")

abbrev remote_shell : BoxedRule Text Text
remote_shell =
    Parser.dst_port (record { port = 22; adapter = codes "DIRECT"; payload_str = codes "22" })

abbrev blocking : BoxedRule Text Text
blocking = Parser.suffix (record { suffix = codes "a.test"; adapter = codes "REJECT" })

abbrev more : List Text
more = codes "MATCH,DIRECT" ∷ []

-- The default configuration with two lines in front.
abbrev config : Config
config = record default_config { rules = written libs remote_shell ∷ written libs blocking ∷ more }

abbrev m : Metadata
m = socks_metadata show_ip peer target

main_tunnel-connect_stream_example :
    (match_adapter
        (direct net)
        (set_mode rule (main_tunnel libs net config))
        m).adapter.connect_stream
      m
    ≡ (if rejects rule (build_rules libs config.rules) m
        then err connection_closed
        else direct_connect_stream net m)
main_tunnel-connect_stream_example = main_tunnel-connect_stream net libs config rule m

abbrev front : List (Line Text Text)
front = good remote_shell ∷ []

abbrev client : Socket
client = record {
  arriving = (client_message (0 ∷ []) connect target ++ (22 ∷ [])) ∷ [];
  output = [];
  broken = false;
}

front-IsLine : All (IsLine libs) front
unfolding is_whitespace to_decimal
front-IsLine = ((omega arith, refl, (refl, refl)), tt)

front-PassedBy : All (PassedBy libs m) front
unfolding address_port socks_metadata
front-PassedBy = (λ e. let far : 443 ≡ 22 = e in absurd (omega (arith, far)), tt)

blocking-WellFormed : WellFormed libs blocking
unfolding is_whitespace
blocking-WellFormed = record {
  no_comma = omega arith;
  payload_trimmed = (refl, refl);
  adapter_trimmed = (refl, refl);
}

names_reject : (as_rule libs blocking).adapter ≡ (if true then codes "REJECT" else codes "DIRECT")
unfolding as_rule domain_suffix_rule
names_reject = refl

blocking-Meaning : Meaning libs blocking m
unfolding address_host socks_metadata to_ascii_lowercase
blocking-Meaning = (codes "www.a.test", refl, inr (codes "www", refl))

target-Fits : Fits target
unfolding utf8 utf8_char
target-Fits = (
  (refl, (refl, (refl, (refl, (refl, (refl, (refl, (refl, (refl, (refl, tt)))))))))),
  omega arith,
  omega arith,
)

first_byte : peek_byte client ≡ 5
unfolding peek_byte
first_byte = refl

handle_mixed_connection-decided_example :
    (handle_mixed_connection show_ip peer client
      ≡ answers
          (record (as_wire client) { input = 22 ∷ []; output = (5 ∷ 0 ∷ []) ++ reply })
          (ok (socks_metadata show_ip peer target)))
    × ((match_adapter (direct net) (main_tunnel libs net config) m).adapter.connect_stream m
        ≡ (if true then err connection_closed else direct_connect_stream net m))
unfolding encode_address utf8_char
handle_mixed_connection-decided_example =
    handle_mixed_connection-decided libs net show_ip config front blocking true more peer (0 ∷ [])
      target (22 ∷ []) client refl front-IsLine front-PassedBy blocking-WellFormed names_reject
      blocking-Meaning (omega arith) target-Fits refl first_byte refl
