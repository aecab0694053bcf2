-- ===== src/Config/Users.antt =====
-- `store` and `parse` of the permissions and users of common/identity/identity.cpp.
use Prim.Native.String.{String}
use natbuster.Prelude.{
  ℕ, Bool, false, ◌&&◌, Option, none, some, List, [], ◌∷◌, map, if◌then◌else◌, ltb, ◌==◌,
}
use natbuster.Proto.Keys.{Keys, PortSettings, User, UserGroup, add_user}
use natbuster.Config.Json.{
  Json, pos, codes, Part, words, number, ParseStatus, success, error, ◌>>=◌, ◌>>◌, lift, expect,
  assert_that, is_nil, field, required, each, prefix,
}

-- The text of a message about the port entry `i`.
abbrev at_port : ℕ → String → List Part
at_port i message = words ".ports[" ∷ number i ∷ words message ∷ []

abbrev pub in_range : ℕ → Bool
in_range port = ltb 0 port && ltb port 65536

module _ (J : Json) where
  open J use {
    Value, null, empty, is_member, get, at_index, size, is_array, is_object, is_bool, is_integral,
    is_string, as_bool, as_string, as_uint64, put, of_bool, of_int, of_string, array,
  }

  -- The two branches on `port_min == port_max`, as they stand.
  unfoldable pub store_port : PortSettings → Value
  store_port it =
      let flags =
        put
          (put (put (put null "pull" (of_bool it.dir_pull)) "push" (of_bool it.dir_push)) "tcp"
            (of_bool it.proto_tcp))
          "udp" (of_bool it.proto_udp) in
      if it.port_min == it.port_max
      then put (put flags "port_min" (of_int (pos it.port_min))) "port_max"
          (of_int (pos it.port_max))
      else put flags "port" (of_int (pos it.port_min))

  unfoldable pub store_permissions : List PortSettings → Value
  store_permissions ports = put null "ports" (array (map store_port ports))

  -- A flag, and what `field2` is afterwards.
  unfoldable pub parse_flag : Value → ℕ → String → String → Value → ParseStatus (Bool × Value)
  parse_flag nodei i key message field2 = lift (is_member nodei key) >>= λ here.
      if here
      then (if is_bool (get nodei key)
          then success (as_bool (get nodei key), get nodei key)
          else error (at_port i message))
      else success (false, field2)

  -- The number is read from `field2`, which holds a flag.
  unfoldable pub parse_port : Value → ℕ → Value → ParseStatus (ℕ × ℕ)
  parse_port nodei i field2 = do
    has_min ← lift (is_member nodei "port_min")
    (if has_min then error (at_port i "].port: Conflicting field port_min") else success tt)
    has_max ← lift (is_member nodei "port_max")
    (if has_max then error (at_port i "].port: Conflicting field port_max") else success tt)
    (if is_integral (get nodei "port")
        then success tt
        else error
            (at_port i "].port: Expected integer field port, or fields port_min and port_max"))
    port_res ← lift (as_uint64 field2)
    expect (in_range port_res) (at_port i "].port: Port out of range")
    success (port_res, port_res)

  -- The range is looked for in `node`, which holds the array.
  unfoldable pub parse_range : Value → ℕ → ParseStatus (ℕ × ℕ)
  parse_range node i = do
    let missing = at_port i "]: Expected integer field port_min and port_max"
    low ← required J node "port_min" is_integral missing
    high ← required J node "port_max" is_integral missing
    port_min ← lift (as_uint64 low)
    expect (in_range port_min) (at_port i "].port_min: Port out of range port_max")
    port_max ← lift (as_uint64 high)
    expect (in_range port_max) (at_port i "].port_max: Port out of range port_max")
    (if ltb port_max port_min
        then error (at_port i "]: Expected port_min <= port_max")
        else success tt)
    success (port_min, port_max)

  -- One element of the loop. The settings are a local variable.
  unfoldable pub parse_entry : Value → ℕ → Value → ParseStatus PortSettings
  parse_entry node i nodei = do
    pull ← parse_flag nodei i "pull" "].pull: Expected bool field" null
    push ← parse_flag nodei i "push" "].push: Expected bool field" pull.1
    tcp ← parse_flag nodei i "tcp" "].tcp: Expected bool field" push.1
    udp ← parse_flag nodei i "udp" "].udp: Expected bool field" tcp.1
    has_port ← lift (is_member nodei "port")
    range ← (if has_port then parse_port nodei i udp.1 else parse_range node i)
    success (record {
      dir_pull = pull.0;
      dir_push = push.0;
      proto_tcp = tcp.0;
      proto_udp = udp.0;
      port_min = range.0;
      port_max = range.1;
    })

  -- `ports` is cleared, and no element is pushed onto it.
  unfoldable pub parse_permissions : List PortSettings → Value → ParseStatus (List PortSettings)
  parse_permissions ports node = do
    f ← required J node "ports" is_array (words ".ports: Expected array field" ∷ [])
    assert_that (is_nil ports)
    each (at_index node) (λ i nodei s. parse_entry node i nodei >>= λ settings. success s) (size f)
        0 []

  unfoldable pub store_perm_group : List PortSettings → List ℕ → Value
  store_perm_group ports name = put (store_permissions ports) "name" (of_string name)

  unfoldable pub parse_perm_group :
      List PortSettings → Value → ParseStatus (List PortSettings × List ℕ)
  parse_perm_group ports node = do
    ports' ← parse_permissions ports node
    name ← field J node "name" is_string
    success (ports', elim name [ none ↦ [] | some v ↦ as_string v ])

  module _ (K : Keys) where
    abbrev pub key_text : Option (K.PuKey) → List ℕ
    key_text none = codes "PLACEHOLDER"
    key_text (some key) = elim (K.export_public key) [
      | none ↦ codes "PLACEHOLDER"
      | some blob ↦ blob
    ]

    unfoldable pub store_user : User K → Value
    store_user u = put (store_perm_group u.ports u.name) "pukey" (of_string (key_text u.key))

    unfoldable pub with_key : List PortSettings × List ℕ → Option (K.PuKey) → ParseStatus (User K)
    with_key group none = error (words ".pukey: Could not parse key" ∷ [])
    with_key group (some key) = success (record { name = group.1; key = some key; ports = group.0 })

    -- A new user reads its fields from `node`.
    unfoldable pub parse_user : Value → ParseStatus (User K)
    parse_user node = do
      group ← parse_perm_group [] node
      f ← required J node "pukey" is_string (words ".pukey: Expected string field" ∷ [])
      with_key group (K.load_public (as_string f))

    unfoldable pub store_users : UserGroup K → Value
    store_users identites = put null "users" (array (map (λ it. store_user it.1) identites))

    unfoldable pub parse_users : UserGroup K → Value → ParseStatus (UserGroup K)
    parse_users identites node = do
      let missing = words ".users: Expected array or object" ∷ []
      here ← lift (is_member node "users")
      (if here then success tt else error missing)
      let f = get node "users"
      if is_array f
          then (assert_that (is_nil identites)
              >> each (at_index node)
                  (λ i nodei s.
                    prefix (words ".users[" ∷ number i ∷ words "]" ∷ []) (parse_user nodei)
                    >>= λ user. success (add_user K s user).0)
                  (size f) 0 [])
          else (if is_object f
              then (prefix (words ".users" ∷ []) (parse_user f) >>= λ user.
                  success (add_user K identites user).0)
              else error missing)
