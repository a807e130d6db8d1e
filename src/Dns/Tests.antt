-- ===== src/Dns/Tests.antt =====
-- The choice among two addresses of the two families.
use redog.Common.{codes, List, [], ◌∷◌, Text, Parsed, parsed, ◌≡◌, refl}
use redog.Core.Address.{SocketAddr, v4, v6}
use redog.Core.Error.{ok}
use redog.Dns.Resolver.{resolve_v4, resolve_v6}

abbrev found : Text → Parsed (List SocketAddr)
found _ = parsed (record { ip = v6 9; port = 0 } ∷ record { ip = v4 7; port = 0 } ∷ [])

picks_v4 : resolve_v4 found (codes "a.b") ≡ ok (v4 7)
unfolding resolve_v4
picks_v4 = refl

picks_v6 : resolve_v6 found (codes "a.b") ≡ ok (v6 9)
unfolding resolve_v6
picks_v6 = refl
