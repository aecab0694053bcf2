-- ===== src/Proto/Keys.antt =====
-- The keys and hashes that the key exchange calls (common/crypto/pkey.h and hash.h, on OpenSSL), as
-- an interface, and the users that are trusted (common/identity/identity.h).
use natbuster.Prelude.{ℕ, Bool, true, false, Option, none, some, List, [], ◌∷◌, if◌then◌else◌, ◌==◌}

-- A key that is there; an empty `PKey` is `none`. A call that returns false returns `none`.
pub record Keys : Type 1 where
  pub PuKey : Type 0
  pub PrKey : Type 0
  pub public : PrKey → PuKey
  pub load_public : List ℕ → Option PuKey
  pub export_public : PuKey → Option (List ℕ)
  pub is_same : PuKey → PuKey → Bool
  pub ecdhe : PrKey → PuKey → Option (List ℕ)
  pub sign : PrKey → List ℕ → Option (List ℕ)
  pub verify : PuKey → List ℕ → List ℕ → Bool
  pub fingerprint : PuKey → Option (List ℕ)
  pub sha512 : List ℕ → Option (List ℕ)

-- A range of ports of a user.
pub record PortSettings : Type 0 where
  pub dir_pull : Bool
  pub dir_push : Bool
  pub proto_tcp : Bool
  pub proto_udp : Bool
  pub port_min : ℕ
  pub port_max : ℕ

pub record User (K : Keys) : Type 0 where
  pub name : List ℕ
  pub key : Option (K.PuKey)
  pub ports : List PortSettings

-- `User::Anonymous`, named "anonymous" and without a key.
abbrev pub anonymous : {K : Keys} → User K
anonymous = record {
  name = 97 ∷ 110 ∷ 111 ∷ 110 ∷ 121 ∷ 109 ∷ 111 ∷ 117 ∷ 115 ∷ [];
  key = none;
  ports = [];
}

-- `_identites`: the users by the fingerprint of their key.
abbrev pub UserGroup : Keys → Type 0
UserGroup K = List (List ℕ × User K)

unfoldable pub same_bytes : List ℕ → List ℕ → Bool
same_bytes [] [] = true
same_bytes [] (y ∷ ys) = false
same_bytes (x ∷ xs) [] = false
same_bytes (x ∷ xs) (y ∷ ys) = if x == y then same_bytes xs ys else false

unfoldable pub find_by_fingerprint : (K : Keys) → UserGroup K → List ℕ → Option (User K)
unfolding same_bytes
find_by_fingerprint K [] key = none
find_by_fingerprint K (it ∷ rest) key =
    if same_bytes it.0 key then some it.1 else find_by_fingerprint K rest key

-- The result of `fingerprint` is not looked at: it writes nothing if it fails.
unfoldable pub find_user : (K : Keys) → UserGroup K → K.PuKey → Option (User K)
find_user K group key = elim (K.fingerprint key) [
  | none ↦ find_by_fingerprint K group []
  | some f ↦ find_by_fingerprint K group f
]

unfoldable pub is_member : (K : Keys) → UserGroup K → K.PuKey → Bool
is_member K [] key = false
is_member K (it ∷ rest) key = elim it.1.key [
  | some known ↦ if K.is_same known key then true else is_member K rest key
  | none ↦ is_member K rest key
]

-- `addUser`: whether the user is added, and the group. The result of `fingerprint` is not looked at.
unfoldable pub add_user : (K : Keys) → UserGroup K → User K → UserGroup K × Bool
add_user K group identity = elim identity.key [
  | none ↦ (group, false)
  | some key ↦ elim (find_user K group key) [
    | some known ↦ (group, false)
    | none ↦ elim (K.fingerprint key) [
      | none ↦ (([], identity) ∷ group, true)
      | some f ↦ ((f, identity) ∷ group, true)
    ]
  ]
]
