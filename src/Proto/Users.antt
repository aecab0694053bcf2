-- ===== src/Proto/Users.antt =====
-- The groups of users of common/identity/identity.h.
mod Tests
use natbuster.Prelude.{
  ℕ, ◌≡◌, refl, sym, ap, subst, ◌∙◌, inl, inr, Bool, true, false, Bool-cases, Option, none, some,
  Option-cases, some_inj, List, [], ◌∷◌, arith, ◌==◌, ==_iff, if◌then◌else◌,
}
use natbuster.Proto.Keys.{
  Keys, User, UserGroup, same_bytes, find_by_fingerprint, find_user, is_member, add_user,
}

pub same_bytes-eq : (a b : List ℕ) → same_bytes a b ≡ true → a ≡ b
unfolding same_bytes
same_bytes-eq [] [] h = refl
same_bytes-eq [] (y ∷ ys) h = cc
same_bytes-eq (x ∷ xs) [] h = cc
same_bytes-eq (x ∷ xs) (y ∷ ys) h = ground (arith, h, same_bytes-eq xs ys)

abbrev pub or_else {ℓ} : {A : Type ℓ} → Option A → Option A → Option A
or_else none d = d
or_else (some a) d = some a

abbrev pub is_some {ℓ} : {A : Type ℓ} → Option A → Bool
is_some none = false
is_some (some a) = true

module _ (K : Keys) where
  find_user_at :
      (group : UserGroup K) (key : K.PuKey) (f : List ℕ)
      → K.fingerprint key ≡ some f
      → find_user K group key ≡ find_by_fingerprint K group f
  unfolding find_user
  find_user_at group key f e = ground (arith, e)

  add_known :
      (group : UserGroup K) (identity known : User K) (key : K.PuKey)
      → identity.key ≡ some key
      → find_user K group key ≡ some known
      → add_user K group identity ≡ (group, false)
  unfolding add_user
  add_known group identity known key k e = ground (arith, k, e)

  pub add_new :
      (group : UserGroup K) (identity : User K) (key : K.PuKey) (f : List ℕ)
      → identity.key ≡ some key
      → K.fingerprint key ≡ some f
      → find_user K group key ≡ none
      → add_user K group identity ≡ ((f, identity) ∷ group, true)
  unfolding add_user
  add_new group identity key f k p e = ground (arith, k, e, p)

  same_user :
      (group : UserGroup K) (key other : K.PuKey) (f g : List ℕ)
      → K.fingerprint key ≡ some f
      → K.fingerprint other ≡ some g
      → same_bytes f g ≡ true
      → find_user K group key ≡ find_user K group other
  same_user group key other f g p q s =
      find_user_at group key f p
      ∙ ap (find_by_fingerprint K group) (same_bytes-eq f g s)
      ∙ sym (find_user_at group other g q)

  found_or :
      (group : UserGroup K) (identity : User K) (other : K.PuKey) (f g : List ℕ)
      → K.fingerprint other ≡ some g
      → find_user K ((f, identity) ∷ group) other
        ≡ (if same_bytes f g then some identity else find_user K group other)
  unfolding find_by_fingerprint
  found_or group identity other f g q =
      find_user_at ((f, identity) ∷ group) other g q
      ∙ ap (λ r. if same_bytes f g then some identity else r) (sym (find_user_at group other g q))

  -- After `addUser`, a key that had a user has the same user; of the others, exactly the keys with the
  -- fingerprint of the new user's key have the new user.
  pub find_user-add_user :
      (group : UserGroup K) (identity : User K) (key other : K.PuKey) (f g : List ℕ)
      → identity.key ≡ some key
      → K.fingerprint key ≡ some f
      → K.fingerprint other ≡ some g
      → find_user K (add_user K group identity).0 other
        ≡ or_else (find_user K group other) (if same_bytes f g then some identity else none)
  unfolding find_by_fingerprint
  find_user-add_user group identity key other f g k p q =
      elim (Option-cases (find_user K group key)) [
        | inl n ↦
            ap (λ r. find_user K r.0 other) (add_new group identity key f k p n)
            ∙ found_or group identity other f g q
            ∙ (elim (Bool-cases (same_bytes f g)) [
              | inl s ↦ rw (s, sym (same_user group key other f g p q s) ∙ n) refl
              | inr s ↦ ground (arith, s)
            ])
        | inr (u, e) ↦
            ap (λ r. find_user K r.0 other) (add_known group identity u key k e)
            ∙ (elim (Bool-cases (same_bytes f g)) [
              | inl s ↦ rw (sym (same_user group key other f g p q s) ∙ e) refl
              | inr s ↦ ground (arith, s)
            ])
      ]

  -- Each user stands under the fingerprint of its key.
  abbrev pub IsValid : UserGroup K → Type 0
  IsValid [] = Unit {0}
  IsValid (it ∷ rest) =
      ((key : K.PuKey) × (it.1.key ≡ some key) × (K.fingerprint key ≡ some it.0)) × IsValid rest

  -- Two keys are the same exactly if their fingerprints are.
  abbrev pub TellsApart : Type 0
  TellsApart =
      (a b : K.PuKey) (f g : List ℕ)
      → K.fingerprint a ≡ some f
      → K.fingerprint b ≡ some g
      → K.is_same a b ≡ same_bytes f g

  -- The groups that `addUser` makes, of keys that have a fingerprint.
  pub data Built : UserGroup K → Type 0 where
    no_users : Built []
    added :
        (identity : User K) (key : K.PuKey) (f : List ℕ) {group : UserGroup K}
        → identity.key ≡ some key
        → K.fingerprint key ≡ some f
        → Built group
        → Built (add_user K group identity).0

  pub Built-IsValid : {group : UserGroup K} → Built group → IsValid group
  Built-IsValid no_users = tt
  Built-IsValid (added identity key f {group} k p b) = elim (Option-cases (find_user K group key)) [
    | inl n ↦
        subst (λ r. IsValid r.0) (sym (add_new group identity key f k p n))
          ((key, k, p), Built-IsValid b)
    | inr (u, e) ↦
        subst (λ r. IsValid r.0) (sym (add_known group identity u key k e)) (Built-IsValid b)
  ]

  is_member_at :
      (group : UserGroup K) (key : K.PuKey) (g : List ℕ)
      → TellsApart
      → IsValid group
      → K.fingerprint key ≡ some g
      → is_member K group key ≡ is_some (find_by_fingerprint K group g)
  unfolding is_member find_by_fingerprint
  is_member_at [] key g t v p = refl
  is_member_at (it ∷ rest) key g t ((own, k, q), v) p =
      ground (arith, k, t own key it.0 g q p, is_member_at rest key g t v p)

  -- In a group that `addUser` has made, the two searches agree: `isMember`, which compares the keys, and
  -- `findUser`, which looks the fingerprint up. (Fingerprints tell keys apart.)
  pub is_member-find_user :
      (group : UserGroup K) (key : K.PuKey) (g : List ℕ)
      → TellsApart
      → Built group
      → K.fingerprint key ≡ some g
      → is_member K group key ≡ is_some (find_user K group key)
  is_member-find_user group key g t b p =
      is_member_at group key g t (Built-IsValid b) p ∙ ap is_some (sym (find_user_at group key g p))
