-- ===== src/Proto/Sample.antt =====
-- Keys that are numbers, for the tests: the text and the fingerprint of a key are the number itself.
use natbuster.Prelude.{
  ℕ, false, Option, none, some, List, [], ◌∷◌, ◌==◌, ◌≡◌, ◌∙◌, ap₂, some_inj, arith,
}
use natbuster.Proto.Keys.{Keys, same_bytes}

abbrev pub load : List ℕ → Option ℕ
load (k ∷ []) = some k
load s = none

abbrev pub number_keys : Keys
number_keys = record {
  PuKey = ℕ;
  PrKey = ℕ;
  public = λ k. k;
  load_public = load;
  export_public = λ k. some (k ∷ []);
  is_same = λ a b. a == b;
  ecdhe = λ a b. none;
  sign = λ k m. none;
  verify = λ k m s. false;
  fingerprint = λ k. some (k ∷ []);
  sha512 = λ m. none;
}

one_byte : (a b : ℕ) → (a == b) ≡ same_bytes (a ∷ []) (b ∷ [])
unfolding same_bytes
one_byte a b = ground arith

pub number_keys_apart :
    (a b : ℕ) (f g : List ℕ)
    → some (a ∷ []) ≡ some f
    → some (b ∷ []) ≡ some g
    → (a == b) ≡ same_bytes f g
number_keys_apart a b f g p q =
    one_byte a b ∙ ap₂ same_bytes (some_inj (a ∷ []) f p) (some_inj (b ∷ []) g q)
