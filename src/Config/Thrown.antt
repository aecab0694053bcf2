-- ===== src/Config/Thrown.antt =====
-- What can not be read back from JSON: the arrays of common/identity/identity.cpp and config.cpp.
use Prim.Native.String.{String}
use natbuster.Prelude.{
  ℕ, zero, suc, ◌≡◌, ◌≢◌, refl, ap, sym, ◌∙◌, Bool, true, Option, none, some, List, [], ◌∷◌, arith,
}
use natbuster.Proto.Keys.{Keys, PortSettings, User, UserGroup}
use natbuster.Endpoint.Router
use natbuster.Config.Json.{
  Json, JsonLaws, Part, words, ParseStatus, success, error, thrown, ◌>>=◌, ◌>>◌, is_nil,
  assert_that, each, field, required,
}
use natbuster.Config.Users.{parse_permissions, parse_perm_group, with_key, parse_user, parse_users}
use natbuster.Config.Object.{>>=-success}

-- A loop over elements that can not be taken, as the first can not, does not end but with no rounds.
each-thrown {ℓ κ} :
    {A : Type ℓ} {S : Type κ} (element : ℕ → Option A) (body : ℕ → A → S → ParseStatus S) (n i : ℕ)
    (s : S)
    → element i ≡ none
    → n ≢ 0
    → each element body n i s ≡ thrown
unfolding each
each-thrown element body zero i s e h = absurd (h refl)
each-thrown element body (suc n) i s e h = rw e refl

each-zero {ℓ κ} :
    {A : Type ℓ} {S : Type κ} (element : ℕ → Option A) (body : ℕ → A → S → ParseStatus S) (n i : ℕ)
    (s t : S)
    → element i ≡ none
    → each element body n i s ≡ success t
    → (n ≡ 0) × (s ≡ t)
unfolding each
each-zero element body zero i s t e h = (refl, cc)
each-zero element body (suc n) i s t e h = absurd (ground (arith, h, e))

asserted-zero :
    {A B : Type 0} (ports : List B) (element : ℕ → Option A)
    (body : ℕ → A → List B → ParseStatus (List B)) (n : ℕ) (t : List B)
    → element 0 ≡ none
    → (assert_that (is_nil ports) >> each element body n 0 []) ≡ success t
    → (n ≡ 0) × ([] ≡ t)
asserted-zero [] element body n t e h = each-zero element body n 0 [] t e h
asserted-zero (x ∷ xs) element body n t e h = cc

ports_or : {K : Keys} → List PortSettings → ParseStatus (User K) → List PortSettings
ports_or d (success u) = u.ports
ports_or d (error message) = d
ports_or d thrown = d

first_of {ℓ} :
    {A : Type ℓ} {B C : Type 0} (m : ParseStatus A) (p : B) (g : A → C) (q : B × C)
    → (m >>= λ a. success (p, g a)) ≡ success q
    → q.0 ≡ p
first_of (success a) p g q h = ground (arith, h)
first_of (error message) p g q h = cc
first_of thrown p g q h = cc

denied : (content : List ℕ) → Router.on_pipe [] content ≡ none
unfolding Router.on_pipe Router.authorised
denied content = ground arith

module _ (J : Json) (laws : JsonLaws J) where
  open J use {Value, is_member, get, at_index, size, is_array}

  required-success :
      (node f : Value) (k : String) (test : Value → Bool) (message : List Part)
      → required J node k test message ≡ success f
      → (is_member node k ≡ some true) × (get node k ≡ f)
  unfolding required field
  required-success node f k test message h = ground (arith, h)

  -- The loop runs over the elements of `node`, which is an object.
  parse_permissions-success :
      (ports ports' : List PortSettings) (node : Value)
      → parse_permissions J ports node ≡ success ports'
      → (size (get node "ports") ≡ 0) × (ports' ≡ [])
  unfolding parse_permissions
  parse_permissions-success ports ports' node h =
      let (f, found, rest) = >>=-success _ _ ports' h in
      let (m, g) = required-success node f "ports" is_array _ found in
      let (z, e) =
        asserted-zero ports (at_index node) _ (size f) ports' (laws.at-member node "ports" 0 m)
          rest in
      (ap size g ∙ z, sym e)

  parse_perm_group-success :
      (ports ports' : List PortSettings) (name : List ℕ) (node : Value)
      → parse_perm_group J ports node ≡ success (ports', name)
      → (size (get node "ports") ≡ 0) × (ports' ≡ [])
  unfolding parse_perm_group
  parse_perm_group-success ports ports' name node h =
      let (p, run, rest) = >>=-success _ _ (ports', name) h in
      let (z, e) = parse_permissions-success ports p node run in
      (z, first_of (field J node "name" J.is_string) p _ (ports', name) rest ∙ e)

  module _ (K : Keys) where
    ports-with_key :
        (o : Option (K.PuKey)) (group : List PortSettings × List ℕ) (u : User K)
        → with_key J K group o ≡ success u
        → u.ports ≡ group.0
    unfolding with_key ports_or
    ports-with_key none group u h = cc
    ports-with_key (some key) group u h = ap (λ s. ports_or [] s) (sym h)

    -- A user that has been read has no ports, and the array of ports was empty: whatever port is asked for,
    -- the router refuses it.
    pub parse_user-denied :
        (node : Value) (u : User K) (content : List ℕ)
        → parse_user J K node ≡ success u
        → (size (get node "ports") ≡ 0) × (u.ports ≡ []) × (Router.on_pipe u.ports content ≡ none)
    unfolding parse_user
    parse_user-denied node u content h =
        let (group, run, rest) = >>=-success _ _ u h in
        let (f, _, out) =
          >>=-success
            (required J node "pukey" J.is_string (words ".pukey: Expected string field" ∷ []))
            (λ f. with_key J K group (K.load_public (J.as_string f))) u rest in
        let (z, e) = parse_perm_group-success [] group.0 group.1 node run in
        let p = ports-with_key (K.load_public (J.as_string f)) group u out ∙ e in
        (z, p, rw p (denied content))

    -- The array of users is read from the node that holds it: if it has an element, reading throws.
    pub parse_users-thrown :
        (identites : UserGroup K) (node : Value)
        → is_member node "users" ≡ some true
        → is_array (get node "users") ≡ true
        → size (get node "users") ≢ 0
        → parse_users J K identites node ≡ thrown
    unfolding parse_users
    parse_users-thrown [] node m a s =
        rw (m, a) (each-thrown _ _ _ 0 [] (laws.at-member node "users" 0 m) s)
    parse_users-thrown (x ∷ xs) node m a s = rw (m, a) refl
