-- ===== src/Proto/Kex/Rekey.antt =====
-- A second key exchange on a connection.
use natbuster.Prelude.{◌≡◌, refl, ap, some, ◌∷◌, arith}
use natbuster.Crypto.Cipher.{Gcm}
use natbuster.Transport.Link.{Link, send_kex}
use natbuster.Proto.Keys.{Keys}
use natbuster.Proto.Kex.{
  kf_done, kf_err, s1_m1, kexc_version, current_version, error_state, ok, Kex, Random, Turn, fail,
}
use natbuster.Proto.Kex.Client
use natbuster.Proto.Kex.Server

-- The message with which a client that is done starts another key exchange makes a server that is
-- done fail, whatever else their states are.
pub rekey-refused :
    {K : Keys} (g : Gcm) (x y : Kex K) (l l' m : Link) (rnd : Random K)
    → x.state ≡ kf_done
    → y.state ≡ kf_done
    → send_kex g l (kexc_version ∷ current_version) ≡ some l'
    → (t : Turn K) × (u : Turn K) × (Client.init_kex g x l ≡ some t)
      × (t.kex.state ≡ s1_m1)
      × (Server.recv g y m rnd t.kex.m1 ≡ some u)
      × (u.event ≡ error_state)
      × (u.kex.state ≡ kf_err)
unfolding Client.init_kex Server.recv Server.dispatch Server.on_hello fail
rekey-refused g x y l l' m rnd a b sent = (
  record {
    kex = record x { m1 = kexc_version ∷ current_version; state = s1_m1 };
    link = l';
    event = ok;
  },
  record { kex = record y { state = kf_err }; link = m; event = error_state },
  ground (arith, a, sent),
  refl,
  ap (λ q. Server.dispatch g q y m rnd kexc_version current_version) b,
  refl,
  refl,
)
