-- ===== src/Config/Json.antt =====
-- The values of jsoncpp, as an interface, and common/config/parse.h. Texts are their bytes, but for the
-- names of fields and the messages, which the program only compares or prints.
use Prim.Native.Char.{code}
use Prim.Native.String.{String}
use text.Mathlib.Text.{◌==◌ as str_eq}
use natbuster.Prelude.{
  ℕ, zero, suc, ◌^◌, ◌<◌, ◌≡◌, Bool, true, false, Option, none, some, List, [], ◌∷◌, ◌++◌,
  if◌then◌else◌, length,
}

-- `negsuc n` is -(n + 1).
pub data ℤ : Type 0 where
  pos : ℕ → ℤ
  negsuc : ℕ → ℤ

-- What the program calls. `none` is an exception: `isMember` of a value that is no object, an index into
-- one that is no array, a number that does not fit.
pub record Json : Type 1 where
  pub Value : Type 0
  pub null : Value
  pub empty : Value → Bool
  pub is_member : Value → String → Option Bool
  pub get : Value → String → Value
  pub at_index : Value → ℕ → Option Value
  pub size : Value → ℕ
  pub is_array : Value → Bool
  pub is_object : Value → Bool
  pub is_bool : Value → Bool
  pub is_integral : Value → Bool
  pub is_string : Value → Bool
  pub as_bool : Value → Bool
  pub as_string : Value → List ℕ
  pub as_uint64 : Value → Option ℕ
  pub as_int : Value → Option ℤ
  pub put : Value → String → Value → Value
  pub of_bool : Bool → Value
  pub of_int : ℤ → Value
  pub of_string : List ℕ → Value
  pub array : List Value → Value

-- What jsoncpp documents of these calls.
pub record JsonLaws (J : Json) : Type 0 where
  pub empty-null : J.empty J.null ≡ true
  pub member-null : (k : String) → J.is_member J.null k ≡ some false
  pub member-put :
      (v w : J.Value) (k j : String) (b : Bool)
      → J.is_member v j ≡ some b
      → J.is_member (J.put v k w) j ≡ some (if str_eq k j then true else b)
  pub get-put :
      (v w : J.Value) (k j : String) (b : Bool)
      → J.is_member v j ≡ some b
      → J.get (J.put v k w) j ≡ (if str_eq k j then w else J.get v j)
  pub string-put : (v w : J.Value) (k : String) → J.is_string (J.put v k w) ≡ false
  pub array-array : (l : List J.Value) → J.is_array (J.array l) ≡ true
  pub size-array : (l : List J.Value) → J.size (J.array l) ≡ length l
  -- An object has no index.
  pub at-member :
      (v : J.Value) (k : String) (i : ℕ) → J.is_member v k ≡ some true → J.at_index v i ≡ none
  pub bool-of : (b : Bool) → (J.is_bool (J.of_bool b) ≡ true) × (J.as_bool (J.of_bool b) ≡ b)
  pub string-of :
      (s : List ℕ) → (J.is_string (J.of_string s) ≡ true) × (J.as_string (J.of_string s) ≡ s)
  pub int-of : (z : ℤ) → (J.is_integral (J.of_int z) ≡ true) × (J.as_int (J.of_int z) ≡ some z)
  pub uint64-of : (n : ℕ) → n < 2 ^ 64 → J.as_uint64 (J.of_int (pos n)) ≡ some n

abbrev pub codes : String → List ℕ
codes String.[] = []
codes (String.◌∷◌ c s) = code c ∷ codes s

-- A message, in its parts.
pub data Part : Type 0 where
  words : String → Part
  number : ℕ → Part

-- `parse_status`, with what was read if it is a success; the callers drop what a parse that fails has
-- written. `thrown` is an exception or an assertion that fails.
pub data ParseStatus {ℓ} (A : Type ℓ) : Type ℓ where
  success : A → ParseStatus A
  error : List Part → ParseStatus A
  thrown : ParseStatus A

infixl 5 ◌>>=◌ ◌>>◌
abbrev pub ◌>>=◌ {ℓ κ} :
    {A : Type ℓ} {B : Type κ} → ParseStatus A → (A → ParseStatus B) → ParseStatus B
success a >>= f = f a
error message >>= f = error message
thrown >>= f = thrown

abbrev pub ◌>>◌ {ℓ} : {B : Type ℓ} → ParseStatus (Unit {0}) → ParseStatus B → ParseStatus B
m >> k = m >>= λ _. k

unfoldable pub prefix {ℓ} : {A : Type ℓ} → List Part → ParseStatus A → ParseStatus A
prefix pref (success a) = success a
prefix pref (error message) = error (pref ++ message)
prefix pref thrown = thrown

-- A call that may throw.
abbrev pub lift {ℓ} : {A : Type ℓ} → Option A → ParseStatus A
lift none = thrown
lift (some a) = success a

abbrev pub expect : Bool → List Part → ParseStatus (Unit {0})
expect true message = success tt
expect false message = error message

abbrev pub assert_that : Bool → ParseStatus (Unit {0})
assert_that true = success tt
assert_that false = thrown

abbrev pub is_nil {ℓ} : {A : Type ℓ} → List A → Bool
is_nil [] = true
is_nil (x ∷ xs) = false

module _ (J : Json) where
  open J use {Value, is_member, get}

  -- `node.isMember(key) && (field = node[key]).test()`, and the field.
  unfoldable pub field : Value → String → (Value → Bool) → ParseStatus (Option Value)
  field node key test = lift (is_member node key) >>= λ b.
      success (if b then (if test (get node key) then some (get node key) else none) else none)

  -- The same where the field is missed with an error.
  unfoldable pub required : Value → String → (Value → Bool) → List Part → ParseStatus Value
  required node key test message =
      field node key test >>= λ o. elim o [ none ↦ error message | some v ↦ success v ]

-- The loop over an array `field`, whose elements are taken from `node`.
unfoldable pub each {ℓ κ} :
    {A : Type ℓ} {S : Type κ}
    → (ℕ → Option A)
    → (ℕ → A → S → ParseStatus S)
    → ℕ
    → ℕ
    → S
    → ParseStatus S
each element body zero i s = success s
each element body (suc n) i s =
    lift (element i) >>= λ a. body i a s >>= λ s'. each element body n (suc i) s'
