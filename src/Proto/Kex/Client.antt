-- ===== src/Proto/Kex/Client.antt =====
-- `KEXV1_A` of common/transport/kex_v1.cpp: the side that opens the connection.
use natbuster.Prelude.{
  ℕ, true, not, some, List, [], ◌∷◌, ◌==◌, if◌then◌else◌, length, get_or, ◌>>=◌,
}
use natbuster.Blob.Edit.Copy.{overwrite}
use natbuster.Blob.Packed.{Reader, reader}
use natbuster.Blob.Packed.Read.{pack}
use natbuster.Crypto.Cipher.{Gcm}
use natbuster.Transport.Link.{Link, send_kex}
use natbuster.Proto.Keys.{Keys}
use natbuster.Proto.Kex.{
  State, s0_new, s1_m1, s2_m2, kf_done, kf_err, k1_c_hello, k2_s_hello, k3_s_enc, k4_c_enc,
  error_malformed, error_notrust, error_crypto, error_state, ok, ok_done, kexc_version,
  kexs_version, kexc_hello, kexs_hello, kexs_newkeys, kexc_newkeys, kexc_identity, current_version,
  Kex, Random, Run, finish, fail, need, need_record, need_eof, kex_reset, load_into, generate_into,
  export_self, ecdhe_into, secret_hash_calculate, client_proof_hash, derive_cipher, check_remote,
}

module _ {K : Keys} (g : Gcm) where
  unfoldable pub init_kex : Kex K → Link → Run K
  init_kex x l =
      let m1 = kexc_version ∷ current_version in
      let start = (send_kex g l m1 >>= λ l'. finish (record x { m1 = m1; state = s1_m1 }) l' ok) in
      elim x.state [
        | s0_new ↦ start
        | kf_done ↦ start
        | _ ↦ finish (record x { state = kf_err }) l error_state
      ]

  -- The version of the server is here: sends the hello.
  unfoldable pub on_version : Kex K → Link → Random K → ℕ → List ℕ → Run K
  on_version x l rnd packet_type packet_data =
      if not (packet_type == kexs_version)
      then fail x l error_state
      else if not (length packet_data == 4)
      then fail x l error_malformed
      else if not (get_or packet_data 3 0 == 1)
      then fail x l error_malformed
      else let x1 = kex_reset x in
        let x2 = record x1 { m2 = overwrite x1.m2 0 (packet_type ∷ packet_data); state = s2_m2 } in
        need (generate_into K x2.dh_key_self rnd.new_key) (fail x2 l error_crypto) (λ dh_key.
          let x3 = record x2 { dh_key_self = some dh_key } in
          need rnd.nonce (fail x3 l error_crypto) (λ nonce.
            let x4 = record x3 { nonce_a = nonce } in
            need (export_self x4) (fail x4 l error_crypto) (λ pkey.
              send_kex g l (kexc_hello ∷ pack (pkey ∷ x4.nonce_a ∷ [])) >>= λ l'.
              finish (record x4 { state = k1_c_hello }) l' ok)))

  -- The server hello from the long term key on.
  unfoldable pub on_hello_key : Kex K → Link → Reader → Run K
  on_hello_key x l r1 = need_record r1 (fail x l error_malformed) (λ lt_key_b r2.
      need (K.load_public lt_key_b) (fail x l error_crypto) (λ lt_key_b_obj.
        need (check_remote x lt_key_b_obj) (fail x l error_notrust) (λ x1.
          need_record r2 (fail x1 l error_malformed) (λ h_sign r3.
            need x1.lt_key_remote (fail x1 l error_notrust) (λ key.
              if K.verify key x1.h h_sign
              then need_eof r3 (fail x1 l error_malformed)
                  (finish (record x1 { state = k2_s_hello }) l ok)
              else fail x1 l error_notrust)))))

  unfoldable pub on_hello : Kex K → Link → ℕ → Reader → Run K
  on_hello x l packet_type packet_reader =
      if not (packet_type == kexs_hello)
      then fail x l error_state
      else need_record packet_reader (fail x l error_malformed) (λ dh_key_b r1.
        need (load_into K x.dh_key_remote dh_key_b) (fail x l error_crypto) (λ remote.
          let x1 = record x { dh_key_remote = some remote } in
          need (ecdhe_into x1) (fail x1 l error_crypto) (λ secret.
            let x2 = record x1 { k = secret } in
            need_record r1 (fail x2 l error_malformed) (λ nonce_b r2.
              let x3 = record x2 { nonce_b = overwrite x2.nonce_b 0 nonce_b } in
              need (secret_hash_calculate x3 true) (fail x3 l error_crypto)
                (λ h. on_hello_key (record x3 { h = h }) l r2)))))

  -- The identity of the client, the last message.
  unfoldable pub send_identity : Kex K → Link → Run K
  send_identity x l =
      need (K.export_public (K.public x.lt_key_self)) (fail x l error_crypto) (λ lt_key_self.
        need (client_proof_hash x (K.public x.lt_key_self)) (fail x l error_crypto)
          (λ client_proof_data.
            need (K.sign x.lt_key_self client_proof_data) (fail x l error_crypto) (λ client_proof.
              send_kex g l (kexc_identity ∷ pack (lt_key_self ∷ client_proof ∷ [])) >>= λ l'.
              finish (record x { state = kf_done }) l' ok_done)))

  -- 'A', 'B', 'C' and 'D' are 65 to 68.
  unfoldable pub on_newkeys : Kex K → Link → ℕ → Reader → Run K
  on_newkeys x l packet_type packet_reader =
      if not (packet_type == kexs_newkeys)
      then fail x l error_state
      else need_eof packet_reader (fail x l error_malformed) (
          derive_cipher x 65 67 l.inbound (λ c. fail x (record l { inbound = c }) error_crypto)
            (λ inbound.
              let l1 = record l { inbound = inbound; enc_on_ib = true } in
              let x1 = record x { state = k3_s_enc } in
              send_kex g l1 (kexc_newkeys ∷ []) >>= λ l2.
              let l3 = record l2 { enc_on_ob = true } in
              derive_cipher x1 66 68 l3.outbound
                (λ c. fail x1 (record l3 { outbound = c }) error_crypto)
                (λ outbound.
                  send_identity (record x1 { state = k4_c_enc })
                    (record l3 { outbound = outbound }))))

  -- The cases of `recv`, by the state.
  unfoldable pub dispatch : State → Kex K → Link → Random K → ℕ → List ℕ → Run K
  dispatch s1_m1 x l rnd packet_type packet_data = on_version x l rnd packet_type packet_data
  dispatch k1_c_hello x l rnd packet_type packet_data =
      on_hello x l packet_type (reader packet_data)
  dispatch k2_s_hello x l rnd packet_type packet_data =
      on_newkeys x l packet_type (reader packet_data)
  dispatch _ x l rnd packet_type packet_data = fail x l error_state

  unfoldable pub recv : Kex K → Link → Random K → List ℕ → Run K
  recv x l rnd [] = fail x l error_malformed
  recv x l rnd (packet_type ∷ packet_data) = dispatch x.state x l rnd packet_type packet_data
