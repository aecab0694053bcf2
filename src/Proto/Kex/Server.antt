-- ===== src/Proto/Kex/Server.antt =====
-- `KEXV1_B` of common/transport/kex_v1.cpp: the side that is connected to.
use natbuster.Prelude.{
  ℕ, true, false, not, some, List, [], ◌∷◌, ◌==◌, if◌then◌else◌, length, get_or, ◌>>=◌,
}
use natbuster.Blob.Edit.Copy.{overwrite}
use natbuster.Blob.Packed.{Reader, reader}
use natbuster.Blob.Packed.Read.{pack}
use natbuster.Crypto.Cipher.{Gcm}
use natbuster.Transport.Link.{Link, send_kex}
use natbuster.Proto.Keys.{Keys}
use natbuster.Proto.Kex.{
  State, s0_new, s2_m2, kf_done, k1_c_hello, k2_s_hello, k3_s_enc, k4_c_enc, k5_c_identity,
  error_malformed, error_notrust, error_crypto, error_state, ok, ok_done, kexc_version,
  kexs_version, kexc_hello, kexs_hello, kexs_newkeys, kexc_newkeys, kexc_identity, current_version,
  Kex, Random, Run, finish, fail, need, need_record, need_eof, kex_reset, load_into, generate_into,
  export_self, ecdhe_into, secret_hash_calculate, client_proof_hash, derive_cipher, check_remote,
}

module _ {K : Keys} (g : Gcm) where
  -- The body is commented out.
  unfoldable pub init_kex : Kex K → Link → Run K
  init_kex x l = finish x l ok

  unfoldable pub on_version : Kex K → Link → ℕ → List ℕ → Run K
  on_version x l packet_type packet_data =
      if not (packet_type == kexc_version)
      then fail x l error_state
      else if not (length packet_data == 4)
      then fail x l error_malformed
      else if not (get_or packet_data 3 0 == 1)
      then fail x l error_malformed
      else let x1 = record x {
        m1 = overwrite x.m1 0 (packet_type ∷ packet_data);
        m2 = kexs_version ∷ current_version;
      } in
        (send_kex g l x1.m2 >>= λ l'. finish (record x1 { state = s2_m2 }) l' ok)

  -- The two packets that answer a client hello, the second of which turns on the outbound cipher.
  unfoldable pub send_hello : Kex K → Link → Run K
  send_hello x l = need (export_self x) (fail x l error_crypto) (λ ekey.
      need (K.export_public (K.public x.lt_key_self)) (fail x l error_crypto) (λ lkey.
        need (K.sign x.lt_key_self x.h) (fail x l error_crypto) (λ h_sign.
          send_kex g l (kexs_hello ∷ pack (ekey ∷ x.nonce_b ∷ lkey ∷ h_sign ∷ [])) >>= λ l1.
          let x1 = record x { state = k2_s_hello } in
          send_kex g l1 (kexs_newkeys ∷ []) >>= λ l2.
          let l3 = record l2 { enc_on_ob = true } in
          derive_cipher x1 65 67 l3.outbound
            (λ c. fail x1 (record l3 { outbound = c }) error_crypto)
            (λ outbound.
              finish (record x1 { state = k3_s_enc }) (record l3 { outbound = outbound }) ok))))

  unfoldable pub on_hello : Kex K → Link → Random K → ℕ → Reader → Run K
  on_hello x l rnd packet_type packet_reader =
      if not (packet_type == kexc_hello)
      then fail x l error_state
      else let x1 = kex_reset x in
        need (generate_into K x1.dh_key_self rnd.new_key) (fail x1 l error_crypto) (λ dh_key.
          let x2 = record x1 { dh_key_self = some dh_key } in
          need rnd.nonce (fail x2 l error_crypto) (λ nonce.
            let x3 = record x2 { nonce_b = nonce } in
            need_record packet_reader (fail x3 l error_malformed) (λ dh_key_a r1.
              need (load_into K x3.dh_key_remote dh_key_a) (fail x3 l error_crypto) (λ remote.
                let x4 = record x3 { dh_key_remote = some remote } in
                need (ecdhe_into x4) (fail x4 l error_crypto) (λ secret.
                  let x5 = record x4 { k = secret } in
                  need_record r1 (fail x5 l error_malformed) (λ nonce_a r2.
                    let x6 = record x5 { nonce_a = overwrite x5.nonce_a 0 nonce_a } in
                    need (secret_hash_calculate x6 false) (fail x6 l error_crypto) (λ h.
                      let x7 = record x6 { h = h } in
                      need_eof r2 (fail x7 l error_malformed)
                        (send_hello (record x7 { state = k1_c_hello }) l))))))))

  unfoldable pub on_newkeys : Kex K → Link → ℕ → Reader → Run K
  on_newkeys x l packet_type packet_reader =
      if not (packet_type == kexc_newkeys)
      then fail x l error_state
      else need_eof packet_reader (fail x l error_malformed) (
          derive_cipher x 66 68 l.inbound (λ c. fail x (record l { inbound = c }) error_crypto)
            (λ inbound.
              finish (record x { state = k4_c_enc })
                (record l { inbound = inbound; enc_on_ib = true }) ok))

  -- The proof of the client that its long term key is its own.
  unfoldable pub check_proof : Kex K → Link → List ℕ → Run K
  check_proof x l client_proof_signature = need x.lt_key_remote (fail x l error_crypto) (λ key.
      need (client_proof_hash x key) (fail x l error_crypto) (λ client_proof_data.
        if K.verify key client_proof_data client_proof_signature
        then finish (record x { state = kf_done }) l ok_done
        else fail x l error_notrust))

  unfoldable pub on_identity : Kex K → Link → ℕ → Reader → Run K
  on_identity x l packet_type packet_reader =
      if not (packet_type == kexc_identity)
      then fail x l error_state
      else need_record packet_reader (fail x l error_malformed) (λ lt_key_a r1.
        need (K.load_public lt_key_a) (fail x l error_crypto) (λ lt_key_a_obj.
          need (check_remote x lt_key_a_obj) (fail x l error_notrust) (λ x1.
            need_record r1 (fail x1 l error_malformed) (λ client_proof_signature r2.
              need_eof r2 (fail x1 l error_malformed)
                (check_proof (record x1 { state = k5_c_identity }) l client_proof_signature)))))

  -- The cases of `recv`, by the state.
  unfoldable pub dispatch : State → Kex K → Link → Random K → ℕ → List ℕ → Run K
  dispatch s0_new x l rnd packet_type packet_data = on_version x l packet_type packet_data
  dispatch s2_m2 x l rnd packet_type packet_data = on_hello x l rnd packet_type (reader packet_data)
  dispatch kf_done x l rnd packet_type packet_data =
      on_hello x l rnd packet_type (reader packet_data)
  dispatch k3_s_enc x l rnd packet_type packet_data =
      on_newkeys x l packet_type (reader packet_data)
  dispatch k4_c_enc x l rnd packet_type packet_data =
      on_identity x l packet_type (reader packet_data)
  dispatch _ x l rnd packet_type packet_data = fail x l error_state

  unfoldable pub recv : Kex K → Link → Random K → List ℕ → Run K
  recv x l rnd [] = fail x l error_malformed
  recv x l rnd (packet_type ∷ packet_data) = dispatch x.state x l rnd packet_type packet_data
