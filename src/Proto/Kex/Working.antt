-- ===== src/Proto/Kex/Working.antt =====
-- Keys and hashes that work (common/crypto/pkey.h and hash.h): what OpenSSL documents of calls that
-- do not fail, for the keys that are used in this way. And how `recv` of common/transport/kex_v1.cpp
-- reads a message that was packed.
use natbuster.Prelude.{
  ℕ, ◌+◌, ◌^◌, ◌<◌, ◌≡◌, refl, ap, sym, true, some, List, [], ◌∷◌, ◌++◌, drop, arith, length,
  u32_mod, length-append, append_assoc, append-nil,
}
use natbuster.Prelude.Bytes.{le32, length-le32}
use natbuster.Blob.Packed.{Reader, next_record, eof}
use natbuster.Blob.Packed.Read.{frame, pack, next_record-frame}
use natbuster.Proto.Keys.{Keys}

-- A public key that is exported, and loaded again from its bytes.
pub record Published (K : Keys) (k : K.PuKey) : Type 0 where
  pub exported : List ℕ
  pub exports : K.export_public k ≡ some exported
  pub export_short : length exported < 2 ^ 16
  pub loads : K.load_public exported ≡ some k

-- A key that can sign, such as an Ed25519 key: its public key verifies what it has signed.
pub record Signer (K : Keys) (a : K.PrKey) : Type 0 where
  pub own : Published K (K.public a)
  pub signature : List ℕ → List ℕ
  pub signs : (d : List ℕ) → K.sign a d ≡ some (signature d)
  pub signature_short : (d : List ℕ) → length (signature d) < 2 ^ 16
  pub verifies : (d : List ℕ) → K.verify (K.public a) d (signature d) ≡ true

-- Two keys that can be exchanged, such as X25519 keys: each side computes the same secret.
pub record Agreement (K : Keys) (a b : K.PrKey) : Type 0 where
  pub first : Published K (K.public a)
  pub second : Published K (K.public b)
  pub secret : List ℕ
  pub first_agrees : K.ecdhe a (K.public b) ≡ some secret
  pub second_agrees : K.ecdhe b (K.public a) ≡ some secret

pub record Hashing (K : Keys) : Type 0 where
  pub digest : List ℕ → List ℕ
  pub hashes : (d : List ℕ) → K.sha512 d ≡ some (digest d)
  pub digest_long : (d : List ℕ) → length (digest d) ≡ 64

-- A reader between what it has read and what is left.
abbrev pub between : List ℕ → List ℕ → Reader
between before after = record { read_cursor = length before; src = before ++ after }

-- The bytes of so many records.
abbrev pub total : List (List ℕ) → ℕ
total [] = 0
total (d ∷ ds) = 4 + length d + total ds

pub length-frame : (d : List ℕ) → length (frame d) ≡ 4 + length d
length-frame d = omega (arith, length-append (le32 (length d)) d, length-le32 (length d))

length-pack : (ds : List (List ℕ)) → length (pack ds) ≡ total ds
length-pack [] = refl
length-pack (d ∷ ds) =
    omega (arith, length-append (frame d) (pack ds), length-frame d, length-pack ds)

pub next_record-between :
    (before d : List ℕ) (ds : List (List ℕ))
    → length before + total (d ∷ ds) + 4 < u32_mod
    → next_record (between before (pack (d ∷ ds)))
      ≡ some (between (before ++ frame d) (pack ds), some d)
next_record-between before d ds w =
    let next : List ℕ = before ++ frame d in
    let e : before ++ (frame d ++ pack ds) ≡ next ++ pack ds =
      sym (append_assoc before (frame d) (pack ds)) in
    let l : length before + 4 + length d ≡ length next =
      omega (arith, length-append before (frame d), length-frame d) in
    let size : length (before ++ pack (d ∷ ds)) + 4 < u32_mod =
      omega (arith, w, length-append before (pack (d ∷ ds)), length-pack (d ∷ ds)) in
    rw (next_record-frame before d (pack ds) size, e, l) refl

pub eof-between : (before : List ℕ) → eof (between before []) ≡ some true
unfolding eof
eof-between before = let e = ap length (append-nil before) in ground (arith, e)

-- What `copy_from` leaves in an empty blob.
pub nonce_room : (n : List ℕ) → length n ≡ 64 → n ++ drop (0 + length n) [] ≡ n
nonce_room n h = rw h (append-nil n)
