-- ===== src/Proto/Kex/Tests.antt =====
-- The theorems about common/transport/kex_v1.cpp, applied to toy keys that are numbers.
use natbuster.Prelude.{ℕ, ◌+◌, ◌≡◌, refl, true, none, some, List, [], ◌∷◌, ◌==◌, get_or, replicate}
use natbuster.Prelude.Bytes.{read32}
use natbuster.Blob.Packed.{reader, next_record, eof, cslice}
use natbuster.Blob.Packed.Read.{pack}
use natbuster.Crypto.Cipher.{Gcm, new_cipher}
use natbuster.Transport.Link.{Link, new_link, send_kex, send_internal}
use natbuster.Proto.Keys.{Keys, anonymous}
use natbuster.Proto.Kex.{
  s0_new, s1_m1, s2_m2, kf_done, k4_c_enc, k1_c_hello, ok, ok_done, Kex, new_kex, Random, Turn,
  check_remote, client_proof_hash, kex_reset, generate_into,
}
use natbuster.Proto.Kex.Client
use natbuster.Proto.Kex.Server
use natbuster.Proto.Kex.Order.{ServerStep, ClientStep}
use natbuster.Proto.Kex.Steps.{server_recv-ServerStep, client_recv-ClientStep}
use natbuster.Proto.Kex.Trust.{Proven, recv-Proven}

abbrev digest : List ℕ
digest = replicate 64 7

-- The signature of a key is the key itself.
abbrev pub toy_keys : Keys
toy_keys = record {
  PuKey = ℕ;
  PrKey = ℕ;
  public = λ k. k;
  load_public = λ d. some (get_or d 0 0);
  export_public = λ k. some (k ∷ []);
  is_same = λ a b. a == b;
  ecdhe = λ a b. some ((a + b) ∷ []);
  sign = λ k d. some (k ∷ []);
  verify = λ k d s. get_or s 0 0 == k;
  fingerprint = λ k. some (k ∷ []);
  sha512 = λ d. some digest;
}

abbrev pub toy_gcm : Gcm
toy_gcm = record {
  seal = λ key iv aad d. some (d, replicate 16 1);
  unseal = λ key iv aad d tag. some (d, true);
}

abbrev pub link : Link
link =
    new_link (new_cipher (replicate 32 0) (replicate 12 0))
      (new_cipher (replicate 32 0) (replicate 12 0))

abbrev pub new_side : Kex toy_keys
new_side = new_kex toy_keys 3 none

abbrev pub rnd : Random toy_keys
rnd = record { new_key = some 5; nonce = some (replicate 64 2) }

abbrev version_turn : Turn toy_keys
version_turn = record {
  kex = record new_side { state = s2_m2; m1 = 1 ∷ 0 ∷ 0 ∷ 0 ∷ 1 ∷ []; m2 = 2 ∷ 0 ∷ 0 ∷ 0 ∷ 1 ∷ [] };
  link = record link { sent = (1 ∷ 2 ∷ 0 ∷ 0 ∷ 0 ∷ 1 ∷ []) ∷ [] };
  event = ok;
}

version_run : Server.recv toy_gcm new_side link rnd (1 ∷ 0 ∷ 0 ∷ 0 ∷ 1 ∷ []) ≡ some version_turn
unfolding Server.recv Server.dispatch Server.on_version send_kex send_internal
version_run = refl

server_example : ServerStep s0_new (1 ∷ 0 ∷ 0 ∷ 0 ∷ 1 ∷ []) ok s2_m2
server_example =
    server_recv-ServerStep toy_gcm new_side link rnd (1 ∷ 0 ∷ 0 ∷ 0 ∷ 1 ∷ []) version_turn
      version_run

abbrev greeting : Kex toy_keys
greeting = record new_side { state = s1_m1 }

abbrev hello_turn : Turn toy_keys
hello_turn = record {
  kex = record new_side {
    state = k1_c_hello;
    m2 = 2 ∷ 0 ∷ 0 ∷ 0 ∷ 1 ∷ [];
    dh_key_self = some 5;
    nonce_a = replicate 64 2;
  };
  link = record link { sent = (1 ∷ 3 ∷ pack ((5 ∷ []) ∷ replicate 64 2 ∷ [])) ∷ [] };
  event = ok;
}

hello_run : Client.recv toy_gcm greeting link rnd (2 ∷ 0 ∷ 0 ∷ 0 ∷ 1 ∷ []) ≡ some hello_turn
unfolding Client.recv Client.dispatch Client.on_version send_kex send_internal kex_reset
    generate_into
hello_run = refl

client_example : ClientStep s1_m1 (2 ∷ 0 ∷ 0 ∷ 0 ∷ 1 ∷ []) ok k1_c_hello
client_example =
    client_recv-ClientStep toy_gcm greeting link rnd (2 ∷ 0 ∷ 0 ∷ 0 ∷ 1 ∷ []) hello_turn hello_run

-- A server that waits for the identity, and the identity of the key 9.
abbrev pub waiting : Kex toy_keys
waiting = record new_side { state = k4_c_enc }

abbrev pub identity : List ℕ
identity = 7 ∷ 1 ∷ 0 ∷ 0 ∷ 0 ∷ 9 ∷ 1 ∷ 0 ∷ 0 ∷ 0 ∷ 9 ∷ []

abbrev pub done_turn : Turn toy_keys
done_turn = record {
  kex = record new_side { state = kf_done; lt_key_remote = some 9; user_remote = some anonymous };
  link = link;
  event = ok_done;
}

pub identity_run : Server.recv toy_gcm waiting link rnd identity ≡ some done_turn
unfolding Server.recv Server.dispatch Server.on_identity Server.check_proof check_remote
    client_proof_hash reader next_record eof cslice read32
identity_run = refl

recv-Proven_example : Proven waiting done_turn
recv-Proven_example = recv-Proven toy_gcm waiting link rnd identity done_turn identity_run refl
