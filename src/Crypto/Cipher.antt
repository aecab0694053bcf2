-- ===== src/Crypto/Cipher.antt =====
-- common/crypto/cipher.h and cipher.cpp: `CipherAES256GCMPacketStream`, which numbers packets and
-- gives each number to AES-256-GCM as its nonce. OpenSSL is the parameter `Gcm`.
pub mod Stream
pub mod Standalone
pub mod Nonce
mod Tests
use natbuster.Prelude.{
  ℕ, ◌+◌, ◌-◌, ◌/◌, ◌%◌, ◌^◌, ◌≤◌, ◌≡◌, Bool, true, false, Option, none, some, List, [], ◌∷◌, ◌++◌,
  ltb, ◌==◌, if◌then◌else◌, length, take, drop, replicate, add32, sub32, u32_mod, assert, ◌>>=◌,
  ◌>>◌,
}
use natbuster.Prelude.Bytes.{le32}

-- The EVP calls of one packet: `seal key iv aad in` is the ciphertext and the tag of 16 bytes,
-- `unseal key iv aad in tag` the plaintext and whether the bytes of the tag are right. `none` is a
-- call that fails for another reason.
pub record Gcm : Type 0 where
  pub seal : List ℕ → List ℕ → List ℕ → List ℕ → Option (List ℕ × List ℕ)
  pub unseal : List ℕ → List ℕ → List ℕ → List ℕ → List ℕ → Option (List ℕ × Bool)

-- What OpenSSL documents: the ciphertext is as long as the plaintext, and what was sealed is
-- unsealed, also by a tag that was cut to at least 4 bytes.
pub record GcmLaws (g : Gcm) : Type 0 where
  pub seal_sizes :
      (key iv aad d : List ℕ) (s : List ℕ × List ℕ)
      → g.seal key iv aad d ≡ some s
      → (length s.0 ≡ length d) × (length s.1 ≡ 16)
  pub unseal_seal :
      (key iv aad d : List ℕ) (s : List ℕ × List ℕ) (n : ℕ)
      → g.seal key iv aad d ≡ some s
      → 4 ≤ n
      → g.unseal key iv aad s.0 (take n s.1) ≡ some (d, true)

abbrev pub u64_mod : ℕ
u64_mod = 2 ^ 64

abbrev pub add64 : ℕ → ℕ → ℕ
add64 a b = (a + b) % u64_mod

-- The bytes of a `uint64_t` in memory.
unfoldable pub le64 : ℕ → List ℕ
le64 n = le32 (n % u32_mod) ++ le32 (n / u32_mod)

pub record Cipher : Type 0 where
  pub key : List ℕ
  pub iv : List ℕ
  pub sequential_packet_counter : ℕ
  pub standalone_packet_counter : ℕ

abbrev pub tag_size : ℕ
tag_size = 16

abbrev pub tag_standalone_size : ℕ
tag_standalone_size = 10

-- The constructor, with what stands in the memory of `_key` and `_iv`, which it does not write.
abbrev pub new_cipher : List ℕ → List ℕ → Cipher
new_cipher key iv = record {
  key = key;
  iv = iv;
  sequential_packet_counter = 0;
  standalone_packet_counter = 0;
}

abbrev pub iv_size : ℕ
iv_size = 12

abbrev pub key_size : ℕ
key_size = 32

unfoldable pub set_iv : Cipher → List ℕ → Option Cipher
set_iv c bytes = assert (length bytes == iv_size) >> some (record c { iv = bytes })

unfoldable pub set_key : Cipher → List ℕ → Option Cipher
set_key c key = assert (length key == key_size) >> some (record c { key = key })

abbrev pub max_size_increase : ℕ
max_size_increase = tag_size

unfoldable pub enc_size : ℕ → ℕ
enc_size raw_size = add32 raw_size tag_size

unfoldable pub dec_size : ℕ → ℕ
dec_size size = sub32 size tag_size

-- `_iv.parts.packet = packet`
unfoldable pub set_packet : Cipher → List ℕ → Cipher
set_packet c packet = record c { iv = take 4 c.iv ++ packet }

unfoldable pub encrypt : Gcm → Cipher → List ℕ → List ℕ → Option (List ℕ × Cipher)
encrypt g c in_data aad = do
  let c' = set_packet c (le64 c.sequential_packet_counter)
  s ← g.seal c'.key c'.iv aad in_data
  assert (length s.0 == length in_data)
  some (
    take tag_size s.1 ++ s.0,
    record c' { sequential_packet_counter = add64 c'.sequential_packet_counter 1 },
  )

-- What a decryption returns, writes to `out` and leaves.
pub record Opened : Type 0 where
  pub ok : Bool
  pub out : List ℕ
  pub cipher : Cipher

unfoldable pub decrypt : Gcm → Cipher → List ℕ → List ℕ → Option Opened
decrypt g c in_data aad =
    let c' = set_packet c (le64 c.sequential_packet_counter) in
    if ltb (length in_data) tag_size
    then some (record { ok = false; out = []; cipher = c' })
    else (do
      s ← g.unseal c'.key c'.iv aad (drop tag_size in_data) (take tag_size in_data)
      assert (length s.0 == length (drop tag_size in_data))
      some (record {
        ok = s.1;
        out = s.0;
        cipher = record c' { sequential_packet_counter = add64 c'.sequential_packet_counter 1 };
      }))

-- The counter is in the packet: its low 6 bytes stand between the tag and the ciphertext.
unfoldable pub encrypt_standalone : Gcm → Cipher → List ℕ → List ℕ → Option (List ℕ × Cipher)
encrypt_standalone g c in_data aad = do
  let c' = set_packet c (le64 c.standalone_packet_counter)
  s ← g.seal c'.key c'.iv aad in_data
  assert (length s.0 == length in_data)
  some (
    take tag_standalone_size s.1
        ++ (take (tag_size - tag_standalone_size) (le64 c.standalone_packet_counter) ++ s.0),
    record c' { standalone_packet_counter = add64 c'.standalone_packet_counter 1 },
  )

unfoldable pub decrypt_standalone : Gcm → Cipher → List ℕ → List ℕ → Option Opened
decrypt_standalone g c in_data aad =
    if ltb (length in_data) 16 then some (record { ok = false; out = []; cipher = c }) else (do
      let counter = take (tag_size - tag_standalone_size) (drop tag_standalone_size in_data)
      let c' = set_packet c (counter ++ replicate (8 - length counter) 0)
      s ← g.unseal c'.key c'.iv aad (drop tag_size in_data) (take tag_standalone_size in_data)
      assert (length s.0 == length (drop tag_size in_data))
      some (record { ok = s.1; out = s.0; cipher = c' }))
