-- ===== src/Proto/Kex/Exchange/Answer.antt =====
-- `KEXV1_A::recv` of common/transport/kex_v1.cpp on the server's hello.
use natbuster.Prelude.{
  ℕ, ◌+◌, ◌≡◌, refl, true, none, some, List, [], ◌∷◌, ◌++◌, arith, length, length-append,
}
use natbuster.Blob.Packed.{reader, next_record}
use natbuster.Blob.Packed.Read.{frame, pack}
use natbuster.Crypto.Cipher.{Gcm}
use natbuster.Transport.Link.{Link}
use natbuster.Proto.Keys.{Keys}
use natbuster.Proto.Kex.{
  k1_c_hello, ok, Kex, Random, finish, load_into, ecdhe_into, secret_hash_calculate,
}
use natbuster.Proto.Kex.Client
use natbuster.Proto.Kex.Working.{
  between, next_record-between, eof-between, length-frame, nonce_room,
}
use natbuster.Proto.Kex.Exchange.{
  accepts, check_remote_lem, Meeting, hello_b, shared_secret, shared_hash, client2, client3,
}

module _ {K : Keys} (m : Meeting K) (g : Gcm) (hs : length m.server.nonce ≡ 64) where
  abbrev at_key : List ℕ
  at_key = frame (m.agreed.second.exported)

  abbrev at_nonce : List ℕ
  at_nonce = at_key ++ frame m.server.nonce

  abbrev at_lt_key : List ℕ
  at_lt_key = at_nonce ++ frame (m.server_signs.own.exported)

  abbrev at_sign : List ℕ
  at_sign = at_lt_key ++ frame (m.server_signs.signature (shared_hash m))

  length-at_nonce : length at_nonce ≡ 8 + length (m.agreed.second.exported) + length m.server.nonce
  length-at_nonce = omega (
    arith,
    length-append at_key (frame m.server.nonce),
    length-frame m.server.nonce,
    length-frame (m.agreed.second.exported),
  )

  length-at_lt_key : length at_lt_key ≡ length at_nonce + 4 + length (m.server_signs.own.exported)
  length-at_lt_key = omega (
    arith,
    length-append at_nonce (frame (m.server_signs.own.exported)),
    length-frame (m.server_signs.own.exported),
  )

  -- The four records of the server's hello.
  answer_key :
      next_record (
        reader (
          pack (
            m.agreed.second.exported
            ∷ m.server.nonce
            ∷ m.server_signs.own.exported
            ∷ m.server_signs.signature (shared_hash m)
            ∷ [])))
      ≡ some (
        between at_key (
            pack (
              m.server.nonce
              ∷ m.server_signs.own.exported
              ∷ m.server_signs.signature (shared_hash m)
              ∷ [])),
        some (m.agreed.second.exported),
      )
  unfolding reader
  answer_key =
      next_record-between [] (m.agreed.second.exported)
        (m.server.nonce
          ∷ m.server_signs.own.exported
          ∷ m.server_signs.signature (shared_hash m)
          ∷ [])
        (omega (
          arith,
          hs,
          m.agreed.second.export_short,
          m.server_signs.own.export_short,
          m.server_signs.signature_short (shared_hash m),
        ))

  answer_nonce :
      next_record (
        between at_key (
          pack (
            m.server.nonce
            ∷ m.server_signs.own.exported
            ∷ m.server_signs.signature (shared_hash m)
            ∷ [])))
      ≡ some (
        between at_nonce
            (pack (m.server_signs.own.exported ∷ m.server_signs.signature (shared_hash m) ∷ [])),
        some m.server.nonce,
      )
  answer_nonce =
      next_record-between at_key m.server.nonce
        (m.server_signs.own.exported ∷ m.server_signs.signature (shared_hash m) ∷ [])
        (omega (
          arith,
          hs,
          length-frame (m.agreed.second.exported),
          m.agreed.second.export_short,
          m.server_signs.own.export_short,
          m.server_signs.signature_short (shared_hash m),
        ))

  answer_lt_key :
      next_record (
        between at_nonce
          (pack (m.server_signs.own.exported ∷ m.server_signs.signature (shared_hash m) ∷ [])))
      ≡ some (
        between at_lt_key (pack (m.server_signs.signature (shared_hash m) ∷ [])),
        some (m.server_signs.own.exported),
      )
  answer_lt_key =
      next_record-between at_nonce (m.server_signs.own.exported)
        (m.server_signs.signature (shared_hash m) ∷ [])
        (omega (
          arith,
          hs,
          length-at_nonce,
          m.agreed.second.export_short,
          m.server_signs.own.export_short,
          m.server_signs.signature_short (shared_hash m),
        ))

  answer_sign :
      next_record (between at_lt_key (pack (m.server_signs.signature (shared_hash m) ∷ [])))
      ≡ some (between at_sign [], some (m.server_signs.signature (shared_hash m)))
  answer_sign = next_record-between at_lt_key (m.server_signs.signature (shared_hash m)) [] (
      omega (
        arith,
        hs,
        length-at_nonce,
        length-at_lt_key,
        m.agreed.second.export_short,
        m.server_signs.own.export_short,
        m.server_signs.signature_short (shared_hash m),
      ))

  abbrev heard : Kex K
  heard = record (client3 m) { state = k1_c_hello; lt_key_remote = none; user_remote = none }

  -- What the client makes of it, if it accepts the server.
  pub client_hello :
      (l : Link) (rnd : Random K)
      → accepts K m.client.known_remotes (K.public m.server.lt_key) ≡ true
      → Client.recv g (client2 m) l rnd (hello_b m) ≡ finish (client3 m) l ok
  unfolding Client.recv Client.dispatch Client.on_hello Client.on_hello_key load_into ecdhe_into
      secret_hash_calculate
  client_hello l rnd a =
      rw
        (
          answer_key,
          m.agreed.second.loads,
          m.agreed.first_agrees,
          answer_nonce,
          nonce_room m.server.nonce hs,
          m.agreed.first.exports,
          m.agreed.second.exports,
          m.hashing.hashes (
              pack (
                (shared_secret m)
                ∷ m.agreed.first.exported
                ∷ m.agreed.second.exported
                ∷ m.client.nonce
                ∷ m.server.nonce
                ∷ [])),
          answer_lt_key,
          m.server_signs.own.loads,
          check_remote_lem heard m.client.known_remotes (K.public m.server.lt_key) a,
          answer_sign,
          m.server_signs.verifies (shared_hash m),
          eof-between at_sign,
        )
        refl
