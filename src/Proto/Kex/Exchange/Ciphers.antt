-- ===== src/Proto/Kex/Exchange/Ciphers.antt =====
-- The ciphers of one key exchange (common/transport/kex_v1.cpp, `secret_derive_key`).
use natbuster.Prelude.{ℕ, ◌≡◌, refl, ap, sym, ◌∙◌, some, some_inj, take, arith, length, length-take}
use natbuster.Crypto.Cipher.{Cipher}
use natbuster.Crypto.Cipher.Stream.{InStep}
use natbuster.Proto.Keys.{Keys}
use natbuster.Proto.Kex.{Kex, Run, derive_cipher}
use natbuster.Proto.Kex.Derive.{material, derive_cipher_lem}
use natbuster.Proto.Kex.Exchange.{Meeting, keyed, shared_secret, shared_hash, server2}

module _ {K : Keys} (m : Meeting K) where
  pub keyed_lem :
      (x : Kex K) (a b : ℕ) (cipher : Cipher) (failed go_on : Cipher → Run K)
      → x.k ≡ (shared_secret m)
      → x.h ≡ (shared_hash m)
      → derive_cipher x a b cipher failed go_on ≡ go_on (keyed m a b cipher)
  keyed_lem x a b cipher failed go_on k h =
      let same : (n : ℕ) → material x n 0 ≡ material (server2 m) n 0 = λ n. rw (k, h) refl in
      derive_cipher_lem x a b cipher failed go_on (m.hashing.digest (material (server2 m) a 0))
        (m.hashing.digest (material (server2 m) b 0))
        (λ d out e.
          ap length (sym (some_inj (m.hashing.digest d) out (sym (m.hashing.hashes d) ∙ e)))
          ∙ m.hashing.digest_long d)
        (m.hashing.hashes (material x a 0) ∙ ap (λ u. some (m.hashing.digest u)) (same a))
        (m.hashing.hashes (material x b 0) ∙ ap (λ u. some (m.hashing.digest u)) (same b))

  -- Two ciphers that are set from the same letters, and have counted alike.
  pub keyed-InStep :
      (a b : ℕ) (sender receiver : Cipher)
      → sender.sequential_packet_counter ≡ receiver.sequential_packet_counter
      → InStep (keyed m a b sender) (keyed m a b receiver)
  keyed-InStep a b sender receiver counts =
      let iv_there : length (take 12 (m.hashing.digest (material (server2 m) b 0))) ≡ 12 = omega (
        arith,
        length-take 12 (m.hashing.digest (material (server2 m) b 0)),
        m.hashing.digest_long (material (server2 m) b 0),
      ) in
      record {
        same_key = refl;
        same_common = refl;
        sender_iv = iv_there;
        receiver_iv = iv_there;
        same_count = counts;
      }
