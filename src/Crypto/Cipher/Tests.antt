-- ===== src/Crypto/Cipher/Tests.antt =====
-- The theorems about common/crypto/cipher.cpp, applied to a toy cipher that adds nothing but a tag.
use natbuster.Prelude.{
  ℕ, ◌≡◌, ◌≢◌, refl, ap, sym, true, some, List, [], ◌∷◌, ◌++◌, arith, length, replicate, some_inj,
}
use natbuster.Prelude.Bytes.{le32}
use natbuster.Crypto.Cipher.{
  Gcm, GcmLaws, Cipher, new_cipher, encrypt, encrypt_standalone, le64, set_packet,
}
use natbuster.Crypto.Cipher.Stream.{
  InStep, encrypt_all, decrypt_all, decrypt_all-encrypt_all, counted,
}
use natbuster.Crypto.Cipher.Nonce.{encrypt-fresh, encrypt-encrypt_standalone_nonce}

abbrev toy_tag : List ℕ
toy_tag = replicate 16 1

abbrev toy : Gcm
toy = record {
  seal = λ key iv aad d. some (d, toy_tag);
  unseal = λ key iv aad d tag. some (d, true);
}

toy-GcmLaws : GcmLaws toy
toy-GcmLaws = record {
  seal_sizes = λ key iv aad d s e.
      let same = some_inj (d, toy_tag) s e in
      (ap (λ k. length k.0) (sym same), ap (λ k. length k.1) (sym same));
  unseal_seal =
      λ key iv aad d s n e h. ap (λ k. some (k.0, true)) (sym (some_inj (d, toy_tag) s e));
}

abbrev fresh : Cipher
fresh = new_cipher (replicate 32 0) (replicate 12 0)

new-InStep : InStep fresh fresh
new-InStep = record {
  same_key = refl;
  same_common = refl;
  sender_iv = refl;
  receiver_iv = refl;
  same_count = refl;
}

abbrev sealed : List ℕ
sealed = toy_tag ++ (5 ∷ 6 ∷ [])

sealed_run : encrypt toy fresh (5 ∷ 6 ∷ []) [] ≡ some (sealed, counted fresh)
unfolding encrypt set_packet le64 le32
sealed_run = refl

abbrev packets : List (List ℕ)
packets = (5 ∷ 6 ∷ []) ∷ [] ∷ []

all_run : encrypt_all toy fresh packets ≡ some (sealed ∷ toy_tag ∷ [], counted (counted fresh))
unfolding encrypt_all encrypt set_packet le64 le32
all_run = refl

decrypt_all-encrypt_all_example : decrypt_all toy fresh (sealed ∷ toy_tag ∷ []) ≡ some packets
decrypt_all-encrypt_all_example =
    decrypt_all-encrypt_all toy fresh (counted (counted fresh)) fresh packets
      (sealed ∷ toy_tag ∷ []) toy-GcmLaws new-InStep all_run

abbrev standalone : List ℕ
standalone = replicate 10 1 ++ (replicate 6 0 ++ (5 ∷ 6 ∷ []))

abbrev counted_standalone : Cipher
counted_standalone = record fresh { standalone_packet_counter = 1 }

standalone_run :
    encrypt_standalone toy fresh (5 ∷ 6 ∷ []) [] ≡ some (standalone, counted_standalone)
unfolding encrypt_standalone set_packet le64 le32
standalone_run = refl

next_run : encrypt toy (counted fresh) [] [] ≡ some (toy_tag, counted (counted fresh))
unfolding encrypt set_packet le64 le32
next_run = refl

none_between : encrypt_all toy (counted fresh) [] ≡ some ([], counted fresh)
unfolding encrypt_all
none_between = refl

encrypt-fresh_example : (counted fresh).iv ≢ (counted (counted fresh)).iv
encrypt-fresh_example =
    encrypt-fresh toy fresh (counted fresh) (counted fresh) (counted (counted fresh)) (5 ∷ 6 ∷ [])
      [] [] [] sealed toy_tag [] [] toy-GcmLaws refl (omega arith) (omega arith) sealed_run
      none_between next_run

shared_nonce_example :
    ((counted fresh).key ≡ counted_standalone.key) × ((counted fresh).iv ≡ counted_standalone.iv)
shared_nonce_example =
    encrypt-encrypt_standalone_nonce toy fresh (counted fresh) counted_standalone (5 ∷ 6 ∷ [])
      (5 ∷ 6 ∷ []) [] [] sealed standalone toy-GcmLaws refl sealed_run standalone_run
