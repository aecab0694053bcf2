-- ===== src/Transport/Session/Connect.antt =====
-- Two new sessions that are connected to each other, from the opening to the end of the key exchange
-- (common/transport/opt_session.cpp on both sides).
use natbuster.Prelude.{
  ℕ, ◌≡◌, refl, true, false, Option, some, List, [], ◌∷◌, ◌++◌, length, drop, ◌>>=◌,
}
use natbuster.Crypto.Cipher.{Gcm, GcmLaws, Cipher, encrypt, set_packet, le64}
use natbuster.Crypto.Cipher.Stream.{InStep, encrypt_lem, decrypt-encrypt}
use natbuster.Transport.Link.{new_link, packet_kex}
use natbuster.Proto.Keys.{Keys}
use natbuster.Proto.Kex.{Random, kexc_newkeys, kexs_newkeys}
use natbuster.Proto.Kex.Server
use natbuster.Proto.Kex.Working.{Signer, Agreement, Hashing}
use natbuster.Proto.Kex.Exchange.{
  Side, side_kex, side_random, accepts, user_of, Meeting, version_a, version_b, hello_a, hello_b,
  identity_a, client4, server4, keyed,
}
use natbuster.Proto.Kex.Exchange.Ciphers.{keyed-InStep}
use natbuster.Proto.Kex.Exchange.Opening.{greet, server_version, client_version}
use natbuster.Proto.Kex.Exchange.Hello.{server_hello}
use natbuster.Proto.Kex.Exchange.Answer.{client_hello}
use natbuster.Proto.Kex.Exchange.Identity.{client_newkeys, server_newkeys, server_identity}
use natbuster.Transport.Session.{
  Session, Event, opened, Result, on_open, on_packet, handle, handle_bytes, kex_recv, after_kex,
}

-- Packets that come in one after another.
unfoldable pub on_packets : {K : Keys} → Gcm → Session K → Random K → List (List ℕ) → Result K
on_packets g s rnd [] = some (s, [])
on_packets g s rnd (p ∷ ps) =
    on_packet g s rnd p >>= λ r. on_packets g r.0 rnd ps >>= λ t. some (t.0, r.1 ++ t.1)

-- The two sessions, and what each has told the layer above.
pub record Outcome (K : Keys) : Type 0 where
  pub client : Session K
  pub server : Session K
  pub client_events : List Event
  pub server_events : List Event

-- Both open; then each gets, in turns, what the other has sent since.
unfoldable pub connect :
    {K : Keys} → Gcm → Session K → Session K → Random K → Random K → Option (Outcome K)
connect g client server at_client at_server = do
  c1 ← on_open g client
  s1 ← on_open g server
  s2 ← on_packets g s1.0 at_server c1.0.link.sent
  c2 ← on_packets g c1.0 at_client s2.0.link.sent
  s3 ← on_packets g s2.0 at_server (drop 1 c2.0.link.sent)
  c3 ← on_packets g c2.0 at_client (drop 1 s3.0.link.sent)
  s4 ← on_packets g s3.0 at_server (drop 2 c3.0.link.sent)
  some (record {
    client = c3.0;
    server = s4.0;
    client_events = c1.1 ++ (c2.1 ++ c3.1);
    server_events = s1.1 ++ (s2.1 ++ (s3.1 ++ s4.1));
  })

-- Each has the key of the other as the long term key and the user it belongs to, both have the same
-- secret and the same hash, both encrypt in both directions, and are in step in both.
pub record Connected {K : Keys} (c s : Side K) (o : Outcome K) : Type 0 where
  pub client_opened : o.client_events ≡ opened ∷ []
  pub server_opened : o.server_events ≡ opened ∷ []
  pub server_key : o.client.kex.lt_key_remote ≡ some (K.public s.lt_key)
  pub client_key : o.server.kex.lt_key_remote ≡ some (K.public c.lt_key)
  pub server_user : o.client.kex.user_remote ≡ user_of K c.known_remotes (K.public s.lt_key)
  pub client_user : o.server.kex.user_remote ≡ user_of K s.known_remotes (K.public c.lt_key)
  pub same_secret : o.client.kex.k ≡ o.server.kex.k
  pub same_hash : o.client.kex.h ≡ o.server.kex.h
  pub to_server : InStep o.client.link.outbound o.server.link.inbound
  pub to_client : InStep o.server.link.outbound o.client.link.inbound
  pub client_encrypts : o.client.link.enc_on_ob ≡ true
  pub client_decrypts : o.client.link.enc_on_ib ≡ true
  pub client_ready : o.client.link.first_kex_ok ≡ true
  pub server_encrypts : o.server.link.enc_on_ob ≡ true
  pub server_decrypts : o.server.link.enc_on_ib ≡ true
  pub server_ready : o.server.link.first_kex_ok ≡ true

abbrev pub client_session : {K : Keys} → Side K → Cipher → Cipher → Session K
client_session c inbound outbound = record {
  is_client = true;
  link = new_link inbound outbound;
  kex = side_kex c;
}

abbrev pub server_session : {K : Keys} → Side K → Cipher → Cipher → Session K
server_session s inbound outbound = record {
  is_client = false;
  link = new_link inbound outbound;
  kex = side_kex s;
}

-- OpenSSL seals whatever it is given.
abbrev pub Seals : Gcm → Type 0
Seals g = (key iv aad d : List ℕ) → (p : List ℕ × List ℕ) × (g.seal key iv aad d ≡ some p)

encrypts :
    (g : Gcm) (c : Cipher) (d : List ℕ)
    → GcmLaws g
    → Seals g
    → (p : List ℕ) × (c' : Cipher) × (encrypt g c d [] ≡ some (p, c'))
encrypts g c d laws seals =
    let (p, e) = seals c.key (set_packet c (le64 c.sequential_packet_counter)).iv [] d in
    (_, _, encrypt_lem g c d [] p laws e)

-- The two sessions at the end, the client's last packet and the two ciphers that it has gone through.
module _ {K : Keys} (m : Meeting K) (c_in s_out sender receiver : Cipher) (p : List ℕ) where
  abbrev client_end : Session K
  client_end = record {
    is_client = true;
    link = record (new_link (keyed m 65 67 c_in) sender) {
      first_kex_ok = true;
      enc_on_ib = true;
      enc_on_ob = true;
      sent =
          (packet_kex ∷ version_a m)
          ∷ (packet_kex ∷ hello_a m)
          ∷ (packet_kex ∷ kexc_newkeys ∷ [])
          ∷ p
          ∷ [];
    };
    kex = client4 m;
  }

  abbrev server_end : Session K
  server_end = record {
    is_client = false;
    link = record (new_link receiver (keyed m 65 67 s_out)) {
      first_kex_ok = true;
      enc_on_ib = true;
      enc_on_ob = true;
      sent =
          (packet_kex ∷ version_b m)
          ∷ (packet_kex ∷ hello_b m)
          ∷ (packet_kex ∷ kexs_newkeys ∷ [])
          ∷ [];
    };
    kex = server4 m;
  }

  abbrev ends : Outcome K
  ends = record {
    client = client_end;
    server = server_end;
    client_events = opened ∷ [];
    server_events = opened ∷ [];
  }

  ends-Connected :
      s_out.sequential_packet_counter ≡ c_in.sequential_packet_counter
      → InStep sender receiver
      → Connected m.client m.server ends
  ends-Connected down step = record {
    client_opened = refl;
    server_opened = refl;
    server_key = refl;
    client_key = refl;
    server_user = refl;
    client_user = refl;
    same_secret = refl;
    same_hash = refl;
    to_server = step;
    to_client = keyed-InStep m 65 67 s_out c_in down;
    client_encrypts = refl;
    client_decrypts = refl;
    client_ready = refl;
    server_encrypts = refl;
    server_decrypts = refl;
    server_ready = refl;
  }

-- Two new sessions with nonces of 64 bytes, whose long term keys sign and whose new keys can be
-- exchanged, and of which each accepts the long term key of the other, are connected: no call fails,
-- both report the connection as open, once, and nothing else, and each then has the other's key and
-- the user that it belongs to; the secrets and the hashes are the same; both encrypt and decrypt, and
-- in both directions what one encrypts is in step with what the other decrypts. (The ciphers of the
-- two ends have counted alike; exporting and loading these keys, hashing and sealing do not fail; an
-- exported key and a signature have fewer than 2^16 bytes.)
pub connect-Connected :
    {K : Keys} (g : Gcm) (c s : Side K) (c_in c_out s_in s_out : Cipher)
    → Signer K c.lt_key
    → Signer K s.lt_key
    → Agreement K c.dh_key s.dh_key
    → Hashing K
    → GcmLaws g
    → Seals g
    → length c.nonce ≡ 64
    → length s.nonce ≡ 64
    → c_out.sequential_packet_counter ≡ s_in.sequential_packet_counter
    → s_out.sequential_packet_counter ≡ c_in.sequential_packet_counter
    → accepts K c.known_remotes (K.public s.lt_key) ≡ true
    → accepts K s.known_remotes (K.public c.lt_key) ≡ true
    → (o : Outcome K) × (connect g
          (client_session c c_in c_out)
          (server_session s s_in s_out)
          (side_random c)
          (side_random s)
        ≡ some o)
      × Connected c s o
unfolding connect on_packets on_open on_packet handle_bytes handle kex_recv after_kex
    Server.init_kex
connect-Connected {K} g c s c_in c_out s_in s_out cs ss agreed hashing laws seals hc hs up down
      server_ok client_ok =
    let m : Meeting K = record {
      client = c;
      server = s;
      client_signs = cs;
      server_signs = ss;
      agreed = agreed;
      hashing = hashing;
    } in
    let identity : List ℕ = packet_kex ∷ identity_a m in
    let step = keyed-InStep m 66 68 c_out s_in up in
    let (p, c_out', sealed) = encrypts g (keyed m 66 68 c_out) identity laws seals in
    let (s_in', unsealed, step', l) =
      decrypt-encrypt g (keyed m 66 68 c_out) c_out' (keyed m 66 68 s_in) identity [] p laws step
        sealed in
    let server = server_end m c_in s_out c_out' s_in' p in
    (
      ends m c_in s_out c_out' s_in' p,
      rw
          (
            greet m g (new_link c_in c_out) [],
            server_version m g (new_link s_in s_out) [] (side_random s),
            client_version m g (new_link c_in c_out) ((packet_kex ∷ version_a m) ∷ []),
            server_hello m g hc (new_link s_in s_out) ((packet_kex ∷ version_b m) ∷ []),
            client_hello m g hs
                (record (new_link c_in c_out) {
                  sent = (packet_kex ∷ version_a m) ∷ (packet_kex ∷ hello_a m) ∷ [];
                })
                (side_random c) server_ok,
            client_newkeys m g (new_link c_in c_out)
                ((packet_kex ∷ version_a m) ∷ (packet_kex ∷ hello_a m) ∷ []) (side_random c) p
                c_out' sealed,
            server_newkeys m g
                (record (new_link s_in (keyed m 65 67 s_out)) {
                  enc_on_ob = true;
                  sent = server.link.sent;
                })
                (side_random s),
            unsealed,
            server_identity m g (record server.link { first_kex_ok = false }) (side_random s)
                client_ok,
          )
          refl,
      ends-Connected m c_in s_out c_out' s_in' p down step',
    )
