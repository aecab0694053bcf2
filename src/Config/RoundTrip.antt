-- ===== src/Config/RoundTrip.antt =====
-- What `store` of common/identity and common/config writes, and `parse` reads.
use Prim.Native.String.{String}
use natbuster.Prelude.{
  ℕ, ◌<◌, ◌≡◌, ◌⊎◌, inl, inr, refl, ap, ◌∙◌, Option, none, some, List, [], ◌∷◌, if◌then◌else◌, map,
  arith,
}
use natbuster.Proto.Keys.{Keys, User, UserGroup}
use natbuster.Config.Json.{Json, JsonLaws, pos, words, success, error, thrown, is_nil, each}
use natbuster.Config.Users.{
  in_range, store_port, store_permissions, parse_permissions, store_perm_group, parse_perm_group,
  with_key, key_text, store_user, parse_user, store_users, parse_users,
}
use natbuster.Config.Profile.{
  ServerSettings, Texts, private_text, store_base, parse_base, store_server, parse_server,
  parse_port,
}
use natbuster.Config.Object.{
  IsObject, with_field, null-IsObject, put-IsObject, field_lem, required_lem, is_some,
}

pub List-cases {ℓ} :
    {A : Type ℓ} (xs : List A) → (xs ≡ []) ⊎ ((x : A) × (rest : List A) × (xs ≡ x ∷ rest))
List-cases [] = inl refl
List-cases (x ∷ rest) = inr (x, rest, refl)

module _ (J : Json) (laws : JsonLaws J) where
  open J use {Value, null, is_member, get, put, of_string, of_int, array}

  abbrev pub no_fields : String → Option Value
  no_fields k = none

  abbrev pub two : String → Value → String → Value → String → Option Value
  two k v j w = with_field J laws (with_field J laws no_fields k v) j w

  pub two-IsObject :
      (k j : String) (v w : Value) → IsObject J laws (put (put null k v) j w) (two k v j w)
  two-IsObject k j v w =
      put-IsObject J laws _ w j _ (put-IsObject J laws _ v k _ (null-IsObject J laws))

  -- The arrays of an object: the loop is over the object.
  permissions_of :
      (v : Value) (f : String → Option Value) (l : List Value)
      → IsObject J laws v f
      → f "ports" ≡ some (array l)
      → parse_permissions J [] v ≡ (if is_nil l then success [] else thrown)
  unfolding parse_permissions each
  permissions_of v f [] o e =
      rw (required_lem J laws v f o "ports", e, laws.array-array [], laws.size-array []) refl
  permissions_of v f (x ∷ l) o e =
      rw
        (
          required_lem J laws v f o "ports",
          e,
          laws.array-array (x ∷ l),
          laws.size-array (x ∷ l),
          laws.at-member v "ports" 0 (o.member "ports" ∙ ap (λ p. some (is_some p)) e),
        )
        refl

  module _ (K : Keys) where
    user_fields : User K → String → Option Value
    user_fields u =
        with_field J laws
          (two "ports" (array (map (store_port J) u.ports)) "name" (of_string u.name)) "pukey"
          (of_string (key_text J K u.key))

    store_user-IsObject : (u : User K) → IsObject J laws (store_user J K u) (user_fields u)
    unfolding user_fields store_user store_perm_group store_permissions
    store_user-IsObject u =
        put-IsObject J laws _ _ "pukey" _
          (two-IsObject "ports" "name" (array (map (store_port J) u.ports)) (of_string u.name))

    parse_user-store :
        (u : User K) (key : K.PuKey) (v : Value)
        → IsObject J laws v (user_fields u)
        → K.load_public (key_text J K u.key) ≡ some key
        → parse_user J K v ≡ (
            if is_nil u.ports
            then success (record { name = u.name; key = some key; ports = [] })
            else thrown)
    unfolding user_fields parse_user parse_perm_group with_key
    parse_user-store u key v o l =
        let read = permissions_of v (user_fields u) _ o refl in
        elim (List-cases u.ports) [
          | inl e ↦
              rw
                (
                  read,
                  ap (map (store_port J)) e,
                  ap is_nil e,
                  field_lem J laws v (user_fields u) o "name",
                  (laws.string-of u.name).0,
                  required_lem J laws v (user_fields u) o "pukey",
                  (laws.string-of (key_text J K u.key)).0,
                  (laws.string-of (key_text J K u.key)).1,
                  l,
                  (laws.string-of u.name).1,
                )
                refl
          | inr (x, rest, e) ↦ rw (read, ap (map (store_port J)) e, ap is_nil e) refl
        ]

    -- A user that is stored is read back as it was, if it has no ports; if it has, reading throws. (Its key
    -- can be read back.)
    pub parse_user-store_user :
        (u : User K) (key : K.PuKey)
        → u.key ≡ some key
        → K.load_public (key_text J K u.key) ≡ some key
        → parse_user J K (store_user J K u) ≡ (if is_nil u.ports then success u else thrown)
    parse_user-store_user u key k l =
        parse_user-store u key (store_user J K u) (store_user-IsObject u) l
        ∙ (elim (List-cases u.ports) [
          | inl e ↦ ground (arith, e, k)
          | inr (x, rest, e) ↦ rw (ap is_nil e) refl
        ])

    parse_users-store :
        (l : List Value) (v : Value) (f : String → Option Value)
        → IsObject J laws v f
        → f "users" ≡ some (array l)
        → parse_users J K [] v ≡ (if is_nil l then success [] else thrown)
    unfolding parse_users each
    parse_users-store [] v f o e =
        rw (o.member "users", o.found "users" _ e, e, laws.array-array [], laws.size-array []) refl
    parse_users-store (x ∷ l) v f o e =
        rw
          (
            o.member "users",
            o.found "users" _ e,
            e,
            laws.array-array (x ∷ l),
            laws.size-array (x ∷ l),
            laws.at-member v "users" 0 (o.member "users" ∙ ap (λ p. some (is_some p)) e),
          )
          refl

    pub parse_users-store_users :
        (g : UserGroup K)
        → parse_users J K [] (store_users J K g) ≡ (if is_nil g then success [] else thrown)
    unfolding store_users
    parse_users-store_users g =
        parse_users-store (map (λ it. store_user J K it.1) g) (store_users J K g) _
          (put-IsObject J laws null _ "users" _ (null-IsObject J laws)) refl
        ∙ (elim (List-cases g) [ inl e ↦ rw e refl | inr (x, rest, e) ↦ rw e refl ])

  module _ (K : Keys) (T : Texts K) where
    pub parse_base-store_base :
        (name : List ℕ) (prkey : Option (K.PrKey)) (key : K.PrKey) (v : Value)
        (f : String → Option Value)
        → IsObject J laws v f
        → f "name" ≡ some (of_string name)
        → f "prkey" ≡ some (of_string (private_text J K T prkey))
        → T.load_private (private_text J K T prkey) ≡ some key
        → parse_base J K T v ≡ success (name, key)
    unfolding parse_base
    parse_base-store_base name prkey key v f o n p k =
        rw
          (
            required_lem J laws v f o "name",
            required_lem J laws v f o "prkey",
            n,
            p,
            (laws.string-of name).0,
            (laws.string-of (private_text J K T prkey)).0,
            (laws.string-of (private_text J K T prkey)).1,
            k,
            (laws.string-of name).1,
          )
          refl

    pub parse_port-store :
        (n : ℕ) (v : Value) (f : String → Option Value)
        → n < 65536
        → IsObject J laws v f
        → f "port" ≡ some (of_int (pos n))
        → parse_port J K T v
          ≡ (if in_range n then success n else error (words ".port: Port out of range" ∷ []))
    unfolding parse_port
    parse_port-store n v f h o e =
        rw
          (
            required_lem J laws v f o "port",
            e,
            (laws.int-of (pos n)).0,
            laws.uint64-of n (omega arith),
          )
          (ground arith)

    -- The settings of a server that are stored are read back as they were, or, with the port 0, are an error.
    -- (The private key can be read back.)
    pub parse_server-store_server :
        (s : ServerSettings K) (key : K.PrKey)
        → s.prkey ≡ some key
        → T.load_private (private_text J K T s.prkey) ≡ some key
        → s.port < 65536
        → parse_server J K T (store_server J K T s)
          ≡ (if in_range s.port then success s else error (words ".port: Port out of range" ∷ []))
    unfolding parse_server store_server store_base
    parse_server-store_server s key k l h =
        let o = put-IsObject J laws _ (of_int (pos s.port)) "port" _ (
          two-IsObject "name" "prkey" (of_string s.name)
            (of_string (private_text J K T s.prkey))) in
        rw
          (
            parse_base-store_base s.name s.prkey key _ _ o refl refl l,
            parse_port-store s.port _ _ h o refl,
          )
          (ground (arith, k))
