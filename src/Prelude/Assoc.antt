-- ===== src/Prelude/Assoc.antt =====
-- `std::map` with numbers for keys, as an association list.
use Prim.Native.Nat.{ℕ, ◌≤◌, ◌<◌}
use mathlib.Core.Path.{◌≡◌, refl, ap, sym, ◌∙◌}
use mathlib.Core.Logic.{◌≢◌, ◌⊎◌, inl, inr}
use mathlib.Core.Option.{Option, none, some}
use mathlib.Core.List.{List, [], ◌∷◌}
use natbuster.Prelude.Tests.{Option-cases, ◌==◌, if◌then◌else◌}
use natbuster.Prelude.Partial.{some_inj}
use natbuster.Prelude.Lists.{length}
use native.Mathlib.Omega.{arith}
use native.Mathlib.Decide.{ℕ_discrete}

module _ {A : Type 0} where
  -- `find`
  unfoldable pub lookup : ℕ → List (ℕ × A) → Option A
  lookup k [] = none
  lookup k ((j, v) ∷ m) = if j == k then some v else lookup k m

  -- `erase`, of all that stands under the key.
  unfoldable pub erase : ℕ → List (ℕ × A) → List (ℕ × A)
  erase k [] = []
  erase k ((j, v) ∷ m) = let rest = erase k m in if j == k then rest else (j, v) ∷ rest

  -- `insert` does nothing where the key has a value.
  unfoldable pub insert : ℕ → A → List (ℕ × A) → List (ℕ × A)
  insert k v m = elim (lookup k m) [ none ↦ (k, v) ∷ m | some _ ↦ m ]

  -- `m[k] = v`
  unfoldable pub assign : ℕ → A → List (ℕ × A) → List (ℕ × A)
  assign k v m = (k, v) ∷ erase k m

  pub lookup-erase :
      (k j : ℕ) (m : List (ℕ × A)) → lookup j (erase k m) ≡ (if k == j then none else lookup j m)
  unfolding lookup erase
  lookup-erase k j [] = ground arith
  lookup-erase k j ((i, v) ∷ m) = ground (arith, lookup-erase k j m)

  pub erase-some :
      (k j : ℕ) (v : A) (m : List (ℕ × A)) → lookup j (erase k m) ≡ some v → lookup j m ≡ some v
  erase-some k j v m e = ground (arith, lookup-erase k j m)

  pub erase_self : (k : ℕ) (m : List (ℕ × A)) → lookup k (erase k m) ≡ none
  erase_self k m = ground (arith, lookup-erase k k m)

  pub erase_other : (k j : ℕ) (m : List (ℕ × A)) → k ≢ j → lookup j (erase k m) ≡ lookup j m
  erase_other k j m h = ground (arith, lookup-erase k j m)

  pub insert_present : (k : ℕ) (v w : A) (m : List (ℕ × A)) → lookup k m ≡ some w → insert k v m ≡ m
  unfolding insert
  insert_present k v w m e = ground (arith, e)

  pub insert_absent :
      (k : ℕ) (v : A) (m : List (ℕ × A)) → lookup k m ≡ none → insert k v m ≡ (k, v) ∷ m
  unfolding insert
  insert_absent k v m e = ground (arith, e)

  pub lookup-insert :
      (k j : ℕ) (v : A) (m : List (ℕ × A))
      → lookup k m ≡ none
      → lookup j (insert k v m) ≡ (if k == j then some v else lookup j m)
  unfolding lookup
  lookup-insert k j v m e = rw (insert_absent k v m e) refl

  pub insert_self :
      (k : ℕ) (v : A) (m : List (ℕ × A)) → lookup k m ≡ none → lookup k (insert k v m) ≡ some v
  insert_self k v m e = ground (arith, lookup-insert k k v m e)

  pub insert_other :
      (k j : ℕ) (v : A) (m : List (ℕ × A)) → k ≢ j → lookup j (insert k v m) ≡ lookup j m
  insert_other k j v m h = elim (Option-cases (lookup k m)) [
    | inl e ↦ ground (arith, lookup-insert k j v m e)
    | inr (w, e) ↦ ap (lookup j) (insert_present k v w m e)
  ]

  pub lookup-assign :
      (k j : ℕ) (v : A) (m : List (ℕ × A))
      → lookup j (assign k v m) ≡ (if k == j then some v else lookup j m)
  unfolding lookup assign
  lookup-assign k j v m = ground (arith, lookup-erase k j m)

  length-erase_le : (k : ℕ) (m : List (ℕ × A)) → length (erase k m) ≤ length m
  unfolding erase
  length-erase_le k [] = omega arith
  length-erase_le k ((j, v) ∷ m) = ground (arith, length-erase_le k m)

  pub length-erase : (k : ℕ) (m : List (ℕ × A)) → lookup k m ≢ none → length (erase k m) < length m
  unfolding lookup erase
  length-erase k [] h = absurd (h refl)
  length-erase k ((j, v) ∷ m) h =
      ground (arith, length-erase_le k m, λ (g : lookup k m ≢ none). length-erase k m g)

  pub assign_self : (k : ℕ) (v : A) (m : List (ℕ × A)) → lookup k (assign k v m) ≡ some v
  assign_self k v m = ground (arith, lookup-assign k k v m)

  pub assign_other :
      (k j : ℕ) (v : A) (m : List (ℕ × A)) → k ≢ j → lookup j (assign k v m) ≡ lookup j m
  assign_other k j v m h = ground (arith, lookup-assign k j v m)

  -- What stands under a key after a write: the new value under its own key, or what was there.
  pub assign_cases :
      (k j : ℕ) (v w : A) (m : List (ℕ × A))
      → lookup j (assign k v m) ≡ some w
      → ((k ≡ j) × (v ≡ w)) ⊎ (lookup j m ≡ some w)
  assign_cases k j v w m e = elim (ℕ_discrete k j) [
    | yes h ↦
        inl (h, some_inj v w (sym (assign_self k v m) ∙ ap (λ q. lookup q (assign k v m)) h ∙ e))
    | no h ↦ inr (sym (assign_other k j v m h) ∙ e)
  ]

  pub insert_cases :
      (k j : ℕ) (v w : A) (m : List (ℕ × A))
      → lookup k m ≡ none
      → lookup j (insert k v m) ≡ some w
      → ((k ≡ j) × (v ≡ w)) ⊎ (lookup j m ≡ some w)
  insert_cases k j v w m n e = elim (ℕ_discrete k j) [
    | yes h ↦
        inl (h, some_inj v w (sym (insert_self k v m n) ∙ ap (λ q. lookup q (insert k v m)) h ∙ e))
    | no h ↦ inr (sym (insert_other k j v m h) ∙ e)
  ]
