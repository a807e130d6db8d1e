-- ===== src/Tunnel/Handler.antt =====
-- redog-tunnel/src/tunnel.rs: `handle_tcp`, in the two parts between which other tasks run: up to
-- the relay, and after it. What the relay ends with is an argument.
use redog.Common.{ℕ, Text, [], ◌∷◌, Option, none, some}
use redog.Core.Address.{IpAddr}
use redog.Core.Adapter.{ProxyAdapter}
use redog.Core.Error.{Result, ok, err}
use redog.Core.Metadata.{Metadata, destination, show_network, show_inbound_type}
use redog.Tunnel.Routing.{MatchResult, Tunnel, match_adapter}
use redog.Tunnel.Statistics.{ConnectionInfo, add_upload, add_download, track, untrack}

module _ {S D : Type 0} where
  -- `conn_info`
  unfoldable pub connection_info :
      (IpAddr → Text) → (ℕ → Text) → ℕ → Metadata → MatchResult S D → ConnectionInfo
  connection_info show_ip show_port now m r = record {
    id = 0;
    destination = destination show_ip show_port m;
    network = show_network m.network;
    inbound_type = show_inbound_type m.inbound_type;
    chains = r.adapter.name ∷ [];
    rule = r.rule_name;
    rule_payload = r.rule_payload;
    upload = 0;
    download = 0;
    start = now;
  }

  -- Up to the relay: the tunnel, and the id and the remote stream if the adapter connects.
  unfoldable pub open_connection :
      (IpAddr → Text)
      → (ℕ → Text)
      → ProxyAdapter S D
      → ℕ
      → Metadata
      → Tunnel S D
      → Tunnel S D × Option (ℕ × S)
  unfolding match_adapter track connection_info
  open_connection show_ip show_port fallback now m t =
      let r = match_adapter fallback t m in
      elim (r.adapter.connect_stream m) [
        | err e ↦ (t, none)
        | ok remote ↦
            let (tracker, id) = track (connection_info show_ip show_port now m r) t.connections in
            (record t { connections = tracker }, some (id, remote))
      ]

  -- After the relay: the traffic is added if it ended well, and the connection is untracked.
  unfoldable pub close_connection : ℕ → Result (ℕ × ℕ) → Tunnel S D → Tunnel S D
  unfolding add_upload add_download untrack
  close_connection id (ok (tx, rx)) t = record t {
    traffic = add_download rx (add_upload tx t.traffic);
    connections = untrack id t.connections;
  }
  close_connection id (err e) t = record t { connections = untrack id t.connections }

  -- `handle_tcp` with no other task in between.
  unfoldable pub handle_tcp :
      (IpAddr → Text)
      → (ℕ → Text)
      → ProxyAdapter S D
      → ℕ
      → Metadata
      → Result (ℕ × ℕ)
      → Tunnel S D
      → Tunnel S D
  unfolding open_connection close_connection
  handle_tcp show_ip show_port fallback now m relayed t =
      let (opened, found) = open_connection show_ip show_port fallback now m t in
      elim found [ none ↦ opened | some (id, _) ↦ close_connection id relayed opened ]
