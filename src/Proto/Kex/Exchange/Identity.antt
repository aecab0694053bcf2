-- ===== src/Proto/Kex/Exchange/Identity.antt =====
-- The new keys, and the identity of the client (common/transport/kex_v1.cpp).
use natbuster.Prelude.{ℕ, ◌≡◌, refl, ◌∙◌, true, some, List, [], ◌∷◌, ◌++◌, arith}
use natbuster.Blob.Packed.{reader, next_record, eof}
use natbuster.Blob.Packed.Read.{frame, pack}
use natbuster.Crypto.Cipher.{Gcm, Cipher, encrypt}
use natbuster.Transport.Link.{Link, send_kex, send_internal, packet_kex}
use natbuster.Proto.Keys.{Keys}
use natbuster.Proto.Kex.{
  k3_s_enc, k4_c_enc, ok, ok_done, kexs_newkeys, kexc_newkeys, Random, finish, client_proof_hash,
}
use natbuster.Proto.Kex.Client
use natbuster.Proto.Kex.Server
use natbuster.Proto.Kex.Working.{between, next_record-between, eof-between, length-frame}
use natbuster.Proto.Kex.Exchange.{
  accepts, check_remote_lem, Meeting, plain, keyed, version_a, version_b, shared_hash, proof_hash,
  identity_a, client3, client4, server2, server4,
}
use natbuster.Proto.Kex.Exchange.Ciphers.{keyed_lem}

module _ {K : Keys} (m : Meeting K) (g : Gcm) where
  newkeys_end : eof (reader []) ≡ some true
  unfolding reader eof
  newkeys_end = refl

  -- The client's answer to the new keys of the server: its own, and its identity, encrypted.
  pub client_newkeys :
      (l : Link) (p : List (List ℕ)) (rnd : Random K) (sealed : List ℕ) (outbound : Cipher)
      → encrypt g (keyed m 66 68 l.outbound) (packet_kex ∷ (identity_a m)) []
        ≡ some (sealed, outbound)
      → Client.recv g (client3 m) (plain l p) rnd (kexs_newkeys ∷ [])
        ≡ finish
            (client4 m)
            (record l {
              inbound = keyed m 65 67 l.inbound;
              outbound = outbound;
              enc_on_ib = true;
              enc_on_ob = true;
              sent = (p ++ ((packet_kex ∷ kexc_newkeys ∷ []) ∷ [])) ++ (sealed ∷ []);
            })
            ok_done
  unfolding Client.recv Client.dispatch Client.on_newkeys Client.send_identity client_proof_hash
      send_kex send_internal
  client_newkeys l p rnd sealed outbound e = rw newkeys_end (
      keyed_lem m (client3 m) 65 67 l.inbound _ _ refl refl
      ∙ keyed_lem m (record (client3 m) { state = k3_s_enc }) 66 68 l.outbound _ _ refl refl
      ∙ rw
          (
            m.client_signs.own.exports,
            m.hashing.hashes (
                pack (
                  (shared_hash m)
                  ∷ (version_a m)
                  ∷ (version_b m)
                  ∷ m.client_signs.own.exported
                  ∷ [])),
            m.client_signs.signs (proof_hash m),
            e,
          )
          refl)

  -- What the server makes of the client's new keys.
  pub server_newkeys :
      (l : Link) (rnd : Random K)
      → Server.recv g (server2 m) l rnd (kexc_newkeys ∷ [])
        ≡ finish
            (record (server2 m) { state = k4_c_enc })
            (record l { inbound = keyed m 66 68 l.inbound; enc_on_ib = true })
            ok
  unfolding Server.recv Server.dispatch Server.on_newkeys
  server_newkeys l rnd = rw newkeys_end (keyed_lem m (server2 m) 66 68 l.inbound _ _ refl refl)

  identity_key :
      next_record
        (reader (pack (m.client_signs.own.exported ∷ m.client_signs.signature (proof_hash m) ∷ [])))
      ≡ some (
        between
            (frame (m.client_signs.own.exported))
            (pack (m.client_signs.signature (proof_hash m) ∷ [])),
        some (m.client_signs.own.exported),
      )
  unfolding reader
  identity_key =
      next_record-between [] (m.client_signs.own.exported)
        (m.client_signs.signature (proof_hash m) ∷ [])
        (omega
          (arith, m.client_signs.own.export_short, m.client_signs.signature_short (proof_hash m)))

  abbrev at_proof : List ℕ
  at_proof = frame (m.client_signs.own.exported) ++ frame (m.client_signs.signature (proof_hash m))

  identity_proof :
      next_record (
        between
          (frame (m.client_signs.own.exported))
          (pack (m.client_signs.signature (proof_hash m) ∷ [])))
      ≡ some (between at_proof [], some (m.client_signs.signature (proof_hash m)))
  identity_proof =
      next_record-between (frame (m.client_signs.own.exported))
        (m.client_signs.signature (proof_hash m)) []
        (omega (
          arith,
          length-frame (m.client_signs.own.exported),
          m.client_signs.own.export_short,
          m.client_signs.signature_short (proof_hash m),
        ))

  -- And of its identity, if the server accepts it.
  pub server_identity :
      (l : Link) (rnd : Random K)
      → accepts K m.server.known_remotes (K.public m.client.lt_key) ≡ true
      → Server.recv g (record (server2 m) { state = k4_c_enc }) l rnd (identity_a m)
        ≡ finish (server4 m) l ok_done
  unfolding Server.recv Server.dispatch Server.on_identity Server.check_proof client_proof_hash
  server_identity l rnd a =
      rw
        (
          identity_key,
          m.client_signs.own.loads,
          check_remote_lem (record (server2 m) { state = k4_c_enc }) m.server.known_remotes
              (K.public m.client.lt_key) a,
          identity_proof,
          eof-between at_proof,
          m.client_signs.own.exports,
          m.hashing.hashes (
              pack (
                (shared_hash m)
                ∷ (version_a m)
                ∷ (version_b m)
                ∷ m.client_signs.own.exported
                ∷ [])),
          m.client_signs.verifies (proof_hash m),
        )
        refl
