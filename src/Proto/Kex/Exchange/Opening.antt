-- ===== src/Proto/Kex/Exchange/Opening.antt =====
-- The versions, and the hello of the client (common/transport/kex_v1.cpp).
use natbuster.Prelude.{ℕ, ◌≡◌, refl, List, [], ◌∷◌, ◌++◌}
use natbuster.Crypto.Cipher.{Gcm}
use natbuster.Transport.Link.{Link, send_kex, send_internal, packet_kex}
use natbuster.Proto.Keys.{Keys}
use natbuster.Proto.Kex.{ok, Random, finish, kex_reset, generate_into}
use natbuster.Proto.Kex.Client
use natbuster.Proto.Kex.Server
use natbuster.Proto.Kex.Exchange.{
  side_kex, side_random, Meeting, plain, version_a, version_b, hello_a, client1, client2, server1,
}

module _ {K : Keys} (m : Meeting K) (g : Gcm) where
  -- The packet that the client sends first, and what the server makes of it.
  pub greet :
      (l : Link) (p : List (List ℕ))
      → Client.init_kex g (side_kex m.client) (plain l p)
        ≡ finish (client1 m) (plain l (p ++ ((packet_kex ∷ (version_a m)) ∷ []))) ok
  unfolding Client.init_kex send_kex send_internal
  greet l p = refl

  pub server_version :
      (l : Link) (p : List (List ℕ)) (rnd : Random K)
      → Server.recv g (side_kex m.server) (plain l p) rnd (version_a m)
        ≡ finish (server1 m) (plain l (p ++ ((packet_kex ∷ (version_b m)) ∷ []))) ok
  unfolding Server.recv Server.dispatch Server.on_version send_kex send_internal
  server_version l p rnd = refl

  pub client_version :
      (l : Link) (p : List (List ℕ))
      → Client.recv g (client1 m) (plain l p) (side_random m.client) (version_b m)
        ≡ finish (client2 m) (plain l (p ++ ((packet_kex ∷ (hello_a m)) ∷ []))) ok
  unfolding Client.recv Client.dispatch Client.on_version kex_reset generate_into send_kex
      send_internal
  client_version l p = rw (m.agreed.first.exports) refl
