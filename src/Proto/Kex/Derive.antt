-- ===== src/Proto/Kex/Derive.antt =====
-- What the two sides derive from their secrets.
use natbuster.Prelude.{
  take, length-take, ℕ, zero, suc, ◌≤◌, ◌<◌, ◌≡◌, refl, ap, ◌∙◌, none, some, inl, inr, List, [],
  ◌∷◌, ◌++◌, arith, length, add32, Option-cases,
}
use natbuster.Prelude.Bytes.{le32}
use natbuster.Crypto.Cipher.{Cipher, set_key, set_iv}
use natbuster.Proto.Keys.{Keys}
use natbuster.Proto.Kex.{Kex, derive_loop, secret_hash_derive_bits, derive_cipher, Run}

-- SHA-512 makes 64 bytes.
abbrev pub HashLaw : Keys → Type 0
HashLaw K = (d out : List ℕ) → K.sha512 d ≡ some out → length out ≡ 64

-- The bytes that a round of the loop hashes.
abbrev pub material : {K : Keys} → Kex K → ℕ → ℕ → List ℕ
material x c frag_cnt = x.k ++ (le32 frag_cnt ++ ((c ∷ []) ++ x.h))

-- For 1 to 64 bytes the loop ends after one round, with the digest of the secrets, the number 0 and
-- the letter, or with the failure of the hash.
pub derive_bits_lem :
    {K : Keys} (x : Kex K) (c min_len : ℕ)
    → HashLaw K
    → 0 < min_len
    → min_len ≤ 64
    → secret_hash_derive_bits x c min_len ≡ some (K.sha512 (material x c 0))
unfolding secret_hash_derive_bits derive_loop
derive_bits_lem {K} x c min_len law h l = elim (Option-cases (K.sha512 (material x c 0))) [
  | inl failed ↦ ground (arith, failed)
  | inr (digest, made) ↦ ground (arith, made, law (material x c 0) digest made)
]

-- For more than 64 bytes the loop never ends, whatever fuel it is given, unless the hash fails in
-- a round.
pub derive_loop_endless :
    {K : Keys} (x : Kex K) (c min_len fuel frag_cnt : ℕ) (out : List ℕ)
    → HashLaw K
    → ((n : ℕ) → (digest : List ℕ) × (K.sha512 (material x c n) ≡ some digest))
    → 64 < min_len
    → length out ≤ 64
    → derive_loop x c min_len fuel frag_cnt out ≡ none
unfolding derive_loop
derive_loop_endless x c min_len zero frag_cnt out law works h l = refl
derive_loop_endless x c min_len (suc fuel) frag_cnt out law works h l =
    let (digest, made) = works frag_cnt in
    let rest =
      derive_loop_endless x c min_len fuel (add32 frag_cnt 1) digest law works h
        (omega (arith, law (material x c frag_cnt) digest made)) in
    ground (arith, made, rest)

-- The key and the nonce that the secrets and two letters give.
abbrev pub derived : {K : Keys} → Kex K → Cipher → List ℕ → List ℕ → Cipher
derived x c key_bits iv_bits = record c { key = take 32 key_bits; iv = take 12 iv_bits }

pub derive_cipher_lem :
    {K : Keys} (x : Kex K) (a b : ℕ) (c : Cipher) (failed k : Cipher → Run K)
    (key_bits iv_bits : List ℕ)
    → HashLaw K
    → K.sha512 (material x a 0) ≡ some key_bits
    → K.sha512 (material x b 0) ≡ some iv_bits
    → derive_cipher x a b c failed k ≡ k (derived x c key_bits iv_bits)
unfolding derive_cipher set_key set_iv
derive_cipher_lem {K} x a b c failed k key_bits iv_bits law ek ei =
    let lk = law (material x a 0) key_bits ek in
    let li = law (material x b 0) iv_bits ei in
    let first : secret_hash_derive_bits x a 32 ≡ some (some key_bits) =
      derive_bits_lem x a 32 law (omega arith) (omega arith) ∙ ap some ek in
    let second : secret_hash_derive_bits x b 12 ≡ some (some iv_bits) =
      derive_bits_lem x b 12 law (omega arith) (omega arith) ∙ ap some ei in
    ground (arith, first, second, lk, li, length-take 32 key_bits, length-take 12 iv_bits)
