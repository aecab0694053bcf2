-- ===== src/Config/Object.antt =====
-- JSON objects by their fields: what the calls of common/config and common/identity find in a value that
-- `store` has built.
use Prim.Native.String.{String}
use text.Mathlib.Text.{◌==◌ as str_eq}
use natbuster.Prelude.{
  ◌≡◌, refl, ◌∙◌, Bool, true, false, Bool-cases, inl, inr, Option-cases, Option, none, some, List,
  if◌then◌else◌, arith,
}
use natbuster.Config.Json.{
  Json, JsonLaws, Part, ParseStatus, success, error, thrown, ◌>>=◌, field, required,
}

abbrev pub is_some {ℓ} : {A : Type ℓ} → Option A → Bool
is_some none = false
is_some (some a) = true

abbrev pub kept {ℓ} : {A : Type ℓ} → (A → Bool) → Option A → Option A
kept test none = none
kept test (some a) = if test a then some a else none

abbrev pub or_error {ℓ} : {A : Type ℓ} → List Part → Option A → ParseStatus A
or_error message none = error message
or_error message (some a) = success a

pub >>=-success {ℓ κ} :
    {A : Type ℓ} {B : Type κ} (m : ParseStatus A) (f : A → ParseStatus B) (b : B)
    → (m >>= f) ≡ success b
    → (a : A) × (m ≡ success a) × (f a ≡ success b)
>>=-success (success a) f b h = (a, refl, h)
>>=-success (error message) f b h = cc
>>=-success thrown f b h = cc

module _ (J : Json) (laws : JsonLaws J) where
  open J use {Value, null, is_member, get, put}

  -- `v` is an object with these fields.
  pub record IsObject (v : Value) (f : String → Option Value) : Type 0 where
    pub member : (k : String) → is_member v k ≡ some (is_some (f k))
    pub found : (k : String) (w : Value) → f k ≡ some w → get v k ≡ w

  abbrev pub with_field : (String → Option Value) → String → Value → String → Option Value
  with_field f k w j = if str_eq k j then some w else f j

  pub null-IsObject : IsObject null (λ k. none)
  null-IsObject = record { member = laws.member-null; found = λ k w e. cc }

  pub put-IsObject :
      (v w : Value) (k : String) (f : String → Option Value)
      → IsObject v f
      → IsObject (put v k w) (with_field f k w)
  put-IsObject v w k f o = record {
    member = λ j.
        laws.member-put v w k j (is_some (f j)) (o.member j)
        ∙ (elim (Bool-cases (str_eq k j)) [ inl e ↦ rw e refl | inr e ↦ rw e refl ]);
    found = λ j x e.
        laws.get-put v w k j (is_some (f j)) (o.member j) ∙ (elim (Bool-cases (str_eq k j)) [
          | inl h ↦ ground (arith, e, h)
          | inr h ↦ ground (arith, h, e, o.found j x)
        ]);
  }

  module _ (v : Value) (f : String → Option Value) (o : IsObject v f) where
    pub field_lem :
        (k : String) (test : Value → Bool) → field J v k test ≡ success (kept test (f k))
    unfolding field
    field_lem k test = elim (Option-cases (f k)) [
      | inl e ↦ rw (o.member k, e) refl
      | inr (w, e) ↦ rw (o.member k, o.found k w e, e) refl
    ]

    pub required_lem :
        (k : String) (test : Value → Bool) (message : List Part)
        → required J v k test message ≡ or_error message (kept test (f k))
    unfolding required
    required_lem k test message = ground (arith, field_lem k test)
