-- ===== src/Proto/Kex/Exchange.antt =====
-- One key exchange of two sides that work (common/transport/kex_v1.cpp): what each sends, and the
-- states that it goes through.
pub mod Ciphers
pub mod Opening
pub mod Hello
pub mod Answer
pub mod Identity
use natbuster.Prelude.{
  ℕ, ◌+◌, ◌≡◌, refl, ap, sym, ◌∙◌, true, none, some, some_inj, List, [], ◌∷◌, ◌++◌, drop, take,
  append-nil, arith, length, length-append, length-take, Bool, false, Option,
}
use natbuster.Blob.Packed.{reader, next_record, eof}
use natbuster.Blob.Packed.Read.{frame, pack}
use natbuster.Crypto.Cipher.{Gcm, Cipher, encrypt}
use natbuster.Crypto.Cipher.Stream.{InStep}
use natbuster.Transport.Link.{Link, send_kex, send_internal, packet_kex}
use natbuster.Proto.Keys.{Keys, User, UserGroup, find_user, is_member, anonymous}
use natbuster.Proto.Kex.{
  s1_m1, s2_m2, kf_done, k1_c_hello, k2_s_hello, k3_s_enc, k4_c_enc, ok, ok_done, kexc_version,
  kexs_version, kexc_hello, kexs_hello, kexs_newkeys, kexc_newkeys, kexc_identity, current_version,
  Kex, new_kex, Random, Run, finish, kex_reset, load_into, generate_into, ecdhe_into,
  secret_hash_calculate, client_proof_hash, derive_cipher, check_remote,
}
use natbuster.Proto.Kex.Client
use natbuster.Proto.Kex.Server
use natbuster.Proto.Kex.Working.{
  Signer, Agreement, Hashing, between, next_record-between, eof-between, length-frame, nonce_room,
}
use natbuster.Proto.Kex.Derive.{material, derived, derive_cipher_lem}

-- What one side brings along: its long term key, the users it trusts, and what its random generator
-- gives.
pub record Side (K : Keys) : Type 0 where
  pub lt_key : K.PrKey
  pub known_remotes : Option (UserGroup K)
  pub dh_key : K.PrKey
  pub nonce : List ℕ

abbrev pub side_kex : {K : Keys} → Side K → Kex K
side_kex {K} s = new_kex K s.lt_key s.known_remotes

abbrev pub side_random : {K : Keys} → Side K → Random K
side_random s = record { new_key = some s.dh_key; nonce = some s.nonce }

-- Whom a side accepts: anybody if it names no users.
unfoldable pub accepts : (K : Keys) → Option (UserGroup K) → K.PuKey → Bool
accepts K none key = true
accepts K (some group) key = is_member K group key

-- The user that an accepted key belongs to.
unfoldable pub user_of : (K : Keys) → Option (UserGroup K) → K.PuKey → Option (User K)
user_of K none key = some anonymous
user_of K (some group) key = find_user K group key

pub check_remote_lem :
    {K : Keys} (x : Kex K) (users : Option (UserGroup K)) (key : K.PuKey)
    → accepts K users key ≡ true
    → check_remote (record x { lt_key_remote = none; users_remote = users }) key
      ≡ some (record x {
        lt_key_remote = some key;
        user_remote = user_of K users key;
        users_remote = users;
      })
unfolding check_remote accepts user_of
check_remote_lem {K} x none key a = refl
check_remote_lem {K} x (some group) key a = rw a refl

-- A link that does not encrypt yet, and has sent these packets.
abbrev pub plain : Link → List (List ℕ) → Link
plain l packets = record l { enc_on_ob = false; sent = packets }

-- The two sides of an exchange.
pub record Meeting (K : Keys) : Type 1 where
  pub client : Side K
  pub server : Side K
  pub client_signs : Signer K client.lt_key
  pub server_signs : Signer K server.lt_key
  pub agreed : Agreement K client.dh_key server.dh_key
  pub hashing : Hashing K

module _ {K : Keys} (m : Meeting K) where
  abbrev pub version_a : List ℕ
  version_a = kexc_version ∷ current_version

  abbrev pub version_b : List ℕ
  version_b = kexs_version ∷ current_version

  abbrev pub hello_a : List ℕ
  hello_a = kexc_hello ∷ pack (m.agreed.first.exported ∷ m.client.nonce ∷ [])

  abbrev pub shared_secret : List ℕ
  shared_secret = m.agreed.secret

  abbrev pub shared_hash : List ℕ
  shared_hash = m.hashing.digest (
      pack (
        shared_secret ∷ m.agreed.first.exported ∷ m.agreed.second.exported ∷ m.client.nonce
        ∷ m.server.nonce ∷ []))

  abbrev pub hello_b : List ℕ
  hello_b =
      kexs_hello
      ∷ pack (
          m.agreed.second.exported
          ∷ m.server.nonce
          ∷ m.server_signs.own.exported
          ∷ m.server_signs.signature shared_hash
          ∷ [])

  abbrev pub proof_hash : List ℕ
  proof_hash =
      m.hashing.digest
        (pack (shared_hash ∷ version_a ∷ version_b ∷ m.client_signs.own.exported ∷ []))

  abbrev pub identity_a : List ℕ
  identity_a =
      kexc_identity ∷ pack (m.client_signs.own.exported ∷ m.client_signs.signature proof_hash ∷ [])

  -- The states that the client goes through.
  abbrev pub client1 : Kex K
  client1 = record (side_kex m.client) { m1 = version_a; state = s1_m1 }

  abbrev pub client2 : Kex K
  client2 = record client1 {
    m2 = version_b;
    dh_key_self = some m.client.dh_key;
    nonce_a = m.client.nonce;
    state = k1_c_hello;
  }

  abbrev pub client3 : Kex K
  client3 = record client2 {
    dh_key_remote = some (K.public m.server.dh_key);
    k = shared_secret;
    nonce_b = m.server.nonce;
    h = shared_hash;
    lt_key_remote = some (K.public m.server.lt_key);
    user_remote = user_of K m.client.known_remotes (K.public m.server.lt_key);
    state = k2_s_hello;
  }

  -- And those of the server.
  abbrev pub server1 : Kex K
  server1 = record (side_kex m.server) { m1 = version_a; m2 = version_b; state = s2_m2 }

  abbrev pub server2 : Kex K
  server2 = record server1 {
    dh_key_self = some m.server.dh_key;
    dh_key_remote = some (K.public m.client.dh_key);
    k = shared_secret;
    nonce_a = m.client.nonce;
    nonce_b = m.server.nonce;
    h = shared_hash;
    state = k3_s_enc;
  }

  abbrev pub server4 : Kex K
  server4 = record server2 {
    lt_key_remote = some (K.public m.client.lt_key);
    user_remote = user_of K m.server.known_remotes (K.public m.client.lt_key);
    state = kf_done;
  }

  -- A cipher that the exchange has set, and that has counted nothing.
  abbrev pub keyed : ℕ → ℕ → Cipher → Cipher
  keyed a b cipher =
      derived server2 cipher (m.hashing.digest (material server2 a 0))
        (m.hashing.digest (material server2 b 0))

  abbrev pub client4 : Kex K
  client4 = record client3 { state = kf_done }
