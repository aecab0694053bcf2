-- ===== src/Proto/Kex/Exchange/Hello.antt =====
-- `KEXV1_B::recv` of common/transport/kex_v1.cpp on the client's hello.
use natbuster.Prelude.{ℕ, ◌≡◌, refl, true, some, List, [], ◌∷◌, ◌++◌, arith, length}
use natbuster.Blob.Packed.{reader, next_record}
use natbuster.Blob.Packed.Read.{frame, pack}
use natbuster.Crypto.Cipher.{Gcm}
use natbuster.Transport.Link.{Link, send_kex, send_internal, packet_kex}
use natbuster.Proto.Keys.{Keys}
use natbuster.Proto.Kex.{
  k2_s_hello, ok, kexs_newkeys, Kex, finish, kex_reset, load_into, generate_into, ecdhe_into,
  secret_hash_calculate,
}
use natbuster.Proto.Kex.Server
use natbuster.Proto.Kex.Working.{
  between, next_record-between, eof-between, length-frame, nonce_room,
}
use natbuster.Proto.Kex.Exchange.{
  side_random, Meeting, plain, keyed, hello_a, hello_b, shared_secret, shared_hash, server1,
  server2,
}
use natbuster.Proto.Kex.Exchange.Ciphers.{keyed_lem}

module _ {K : Keys} (m : Meeting K) (g : Gcm) (hc : length m.client.nonce ≡ 64) where
  hello_key :
      next_record (reader (pack (m.agreed.first.exported ∷ m.client.nonce ∷ [])))
      ≡ some (
        between (frame (m.agreed.first.exported)) (pack (m.client.nonce ∷ [])),
        some (m.agreed.first.exported),
      )
  unfolding reader
  hello_key =
      next_record-between [] (m.agreed.first.exported) (m.client.nonce ∷ [])
        (omega (arith, hc, m.agreed.first.export_short))

  hello_nonce :
      next_record (between (frame (m.agreed.first.exported)) (pack (m.client.nonce ∷ [])))
      ≡ some (
        between (frame (m.agreed.first.exported) ++ frame m.client.nonce) [],
        some m.client.nonce,
      )
  hello_nonce =
      next_record-between (frame (m.agreed.first.exported)) m.client.nonce []
        (omega (arith, hc, length-frame (m.agreed.first.exported), m.agreed.first.export_short))

  abbrev greeted : Kex K
  greeted = record (server2 m) { state = k2_s_hello }

  -- The server's answer to the hello: its own hello and the new keys, from which on it encrypts.
  pub server_hello :
      (l : Link) (p : List (List ℕ))
      → Server.recv g (server1 m) (plain l p) (side_random m.server) (hello_a m)
        ≡ finish
            (server2 m)
            (record l {
              enc_on_ob = true;
              outbound = keyed m 65 67 l.outbound;
              sent =
                  (p ++ ((packet_kex ∷ (hello_b m)) ∷ []))
                  ++ ((packet_kex ∷ kexs_newkeys ∷ []) ∷ []);
            })
            ok
  unfolding Server.recv Server.dispatch Server.on_hello Server.send_hello kex_reset generate_into
      load_into ecdhe_into secret_hash_calculate send_kex send_internal
  server_hello l p =
      rw
        (
          hello_key,
          m.agreed.first.loads,
          m.agreed.second_agrees,
          hello_nonce,
          nonce_room m.client.nonce hc,
          m.agreed.first.exports,
          m.agreed.second.exports,
          m.hashing.hashes (
              pack (
                (shared_secret m)
                ∷ m.agreed.first.exported
                ∷ m.agreed.second.exported
                ∷ m.client.nonce
                ∷ m.server.nonce
                ∷ [])),
          eof-between (frame (m.agreed.first.exported) ++ frame m.client.nonce),
          m.server_signs.own.exports,
          m.server_signs.signs (shared_hash m),
        )
        (keyed_lem m greeted 65 67 l.outbound _ _ refl refl)
