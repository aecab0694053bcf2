-- ===== src/Proto/Kex.antt =====
-- `KEXV1` of common/transport/kex_v1.h: the state that the two sides share, and what both compute.
-- A message is a byte for its type and packed records: `Blob.Packed.RoundTrip` has that the writer
-- leaves these bytes. The blobs are modelled by the bytes that they show.
pub mod Working
pub mod Derive
pub mod Exchange
pub mod Client
pub mod Server
pub mod Runs
pub mod Order
pub mod Steps
pub mod Trust
pub mod Rekey
pub mod Tests
use natbuster.Prelude.{
  ℕ, zero, suc, ◌+◌, ◌≡◌, Bool, true, false, Option, none, some, List, [], ◌∷◌, ◌++◌, ltb, leb,
  ◌==◌, if◌then◌else◌, length, take, add32, get_or, assert, ◌>>=◌, ◌>>◌,
}
use natbuster.Prelude.Bytes.{le32}
use natbuster.Blob.Packed.{Reader, next_record, eof}
use natbuster.Blob.Packed.Read.{pack}
use natbuster.Crypto.Cipher.{Cipher, set_key, set_iv, key_size, iv_size}
use natbuster.Transport.Link.{Link}
use natbuster.Proto.Keys.{Keys, User, UserGroup, find_user, is_member, anonymous}

pub data State : Type 0 where
  s0_new : State
  s1_m1 : State
  s2_m2 : State
  kf_done : State
  kf_err : State
  k1_c_hello : State
  k2_s_hello : State
  k3_s_enc : State
  k4_c_enc : State
  k5_c_identity : State

-- `KEX_Event`
pub data KexEvent : Type 0 where
  error_generic : KexEvent
  error_malformed : KexEvent
  error_notrust : KexEvent
  error_crypto : KexEvent
  error_send : KexEvent
  error_state : KexEvent
  ok : KexEvent
  ok_done : KexEvent

-- `PacketType`
abbrev pub kexc_version : ℕ
kexc_version = 1

abbrev pub kexs_version : ℕ
kexs_version = 2

abbrev pub kexc_hello : ℕ
kexc_hello = 3

abbrev pub kexs_hello : ℕ
kexs_hello = 4

abbrev pub kexs_newkeys : ℕ
kexs_newkeys = 5

abbrev pub kexc_newkeys : ℕ
kexc_newkeys = 6

abbrev pub kexc_identity : ℕ
kexc_identity = 7

-- `Utils::current_version.num` in memory: build, minor and major number.
abbrev pub current_version : List ℕ
current_version = 0 ∷ 0 ∷ 0 ∷ 1 ∷ []

pub record Kex (K : Keys) : Type 0 where
  pub state : State
  pub m1 : List ℕ
  pub m2 : List ℕ
  pub k : List ℕ
  pub h : List ℕ
  pub nonce_a : List ℕ
  pub nonce_b : List ℕ
  pub dh_key_self : Option (K.PrKey)
  pub dh_key_remote : Option (K.PuKey)
  pub lt_key_self : K.PrKey
  pub lt_key_remote : Option (K.PuKey)
  pub user_remote : Option (User K)
  pub users_remote : Option (UserGroup K)

abbrev pub new_kex : (K : Keys) → K.PrKey → Option (UserGroup K) → Kex K
new_kex K self known_remotes = record {
  state = s0_new;
  m1 = [];
  m2 = [];
  k = [];
  h = [];
  nonce_a = [];
  nonce_b = [];
  dh_key_self = none;
  dh_key_remote = none;
  lt_key_self = self;
  lt_key_remote = none;
  user_remote = none;
  users_remote = known_remotes;
}

-- What the random generator gives to a call: a new key, and 64 bytes.
pub record Random (K : Keys) : Type 0 where
  pub new_key : Option (K.PrKey)
  pub nonce : Option (List ℕ)

-- What a call of `recv` leaves and returns.
pub record Turn (K : Keys) : Type 0 where
  pub kex : Kex K
  pub link : Link
  pub event : KexEvent

-- `none` is an assertion that fails, or an exception.
abbrev pub Run : Keys → Type 0
Run K = Option (Turn K)

abbrev pub finish : {K : Keys} → Kex K → Link → KexEvent → Run K
finish x l e = some (record { kex = x; link = l; event = e })

unfoldable pub fail : {K : Keys} → Kex K → Link → KexEvent → Run K
fail x l reason = some (record { kex = record x { state = kf_err }; link = l; event = reason })

-- `if (!call) return fail(reason);`
abbrev pub need {ℓ} : {A : Type ℓ} {K : Keys} → Option A → Run K → (A → Run K) → Run K
need none failed continue = failed
need (some a) failed continue = continue a

abbrev pub need_record : {K : Keys} → Reader → Run K → (List ℕ → Reader → Run K) → Run K
need_record r failed continue =
    next_record r >>= λ step. need step.1 failed (λ d. continue d step.0)

abbrev pub need_eof : {K : Keys} → Reader → Run K → Run K → Run K
need_eof r failed continue = eof r >>= λ at_end. if at_end then continue else failed

-- The blobs keep their content: `Blob.erase` wipes nothing.
unfoldable pub kex_reset : {K : Keys} → Kex K → Kex K
kex_reset x = record x { dh_key_self = none; dh_key_remote = none }

-- `load_public` does not overwrite a key.
unfoldable pub load_into : (K : Keys) → Option (K.PuKey) → List ℕ → Option (K.PuKey)
load_into K none d = K.load_public d
load_into K (some key) d = none

-- `generate_ec25519` does not overwrite a key either.
unfoldable pub generate_into : (K : Keys) → Option (K.PrKey) → Option (K.PrKey) → Option (K.PrKey)
generate_into K none new_key = new_key
generate_into K (some key) new_key = none

abbrev pub export_self : {K : Keys} → Kex K → Option (List ℕ)
export_self {K} x = x.dh_key_self >>= λ key. K.export_public (K.public key)

abbrev pub export_remote : {K : Keys} → Kex K → Option (List ℕ)
export_remote {K} x = x.dh_key_remote >>= λ key. K.export_public key

-- `_dh_key_self.ecdhe(_dh_key_remote, _k)`
unfoldable pub ecdhe_into : {K : Keys} → Kex K → Option (List ℕ)
ecdhe_into {K} x = do self ← x.dh_key_self; remote ← x.dh_key_remote; K.ecdhe self remote

-- The new `_h`.
unfoldable pub secret_hash_calculate : {K : Keys} → Kex K → Bool → Option (List ℕ)
secret_hash_calculate {K} x is_client = do
  dh_key_a ← if is_client then export_self x else export_remote x
  dh_key_b ← if is_client then export_remote x else export_self x
  K.sha512 (pack (x.k ∷ dh_key_a ∷ dh_key_b ∷ x.nonce_a ∷ x.nonce_b ∷ []))

unfoldable pub client_proof_hash : {K : Keys} → Kex K → K.PuKey → Option (List ℕ)
client_proof_hash {K} x client_key = do
  client_key_blob ← K.export_public client_key
  K.sha512 (pack (x.h ∷ x.m1 ∷ x.m2 ∷ client_key_blob ∷ []))

-- The loop of `secret_hash_derive_bits`: every round overwrites `out`. The outer `none` is a loop
-- that the fuel does not suffice for, the inner one is `false`.
unfoldable pub derive_loop : {K : Keys} → Kex K → ℕ → ℕ → ℕ → ℕ → List ℕ → Option (Option (List ℕ))
derive_loop x c min_len zero frag_cnt out = none
derive_loop {K} x c min_len (suc fuel) frag_cnt out =
    if ltb (length out) min_len
    then elim (K.sha512 (x.k ++ (le32 frag_cnt ++ ((c ∷ []) ++ x.h)))) [
      | none ↦ some none
      | some digest ↦ derive_loop x c min_len fuel (add32 frag_cnt 1) digest
    ]
    else some (some out)

unfoldable pub secret_hash_derive_bits : {K : Keys} → Kex K → ℕ → ℕ → Option (Option (List ℕ))
secret_hash_derive_bits x c min_len = derive_loop x c min_len 2 0 []

-- Derives a key and a nonce, and sets them on a cipher.
unfoldable pub derive_cipher :
    {K : Keys} → Kex K → ℕ → ℕ → Cipher → (Cipher → Run K) → (Cipher → Run K) → Run K
derive_cipher x key_char iv_char cipher failed continue =
    secret_hash_derive_bits x key_char key_size >>= λ key_bits.
    need key_bits (failed cipher) (λ key_data.
      assert (leb key_size (length key_data))
      >> set_key cipher (take key_size key_data)
      >>= λ keyed. secret_hash_derive_bits x iv_char iv_size >>= λ iv_bits.
          need iv_bits (failed keyed) (λ iv_data.
            assert (leb iv_size (length iv_data))
            >> set_iv keyed (take iv_size iv_data)
            >>= continue))

-- Whether the other side's long term key is accepted: the state then has the key and its user.
unfoldable pub check_remote : {K : Keys} → Kex K → K.PuKey → Option (Kex K)
check_remote {K} x key = elim x.lt_key_remote [
  | some known ↦ if K.is_same known key then some x else none
  | none ↦ elim x.users_remote [
    | some group ↦
        if is_member K group key
        then some (record x { lt_key_remote = some key; user_remote = find_user K group key })
        else none
    | none ↦ some (record x { lt_key_remote = some key; user_remote = some anonymous })
  ]
]
