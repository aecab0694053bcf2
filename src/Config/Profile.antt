-- ===== src/Config/Profile.antt =====
-- `store` and `parse` of the settings of common/config/config.cpp.
use natbuster.Prelude.{
  ℕ, suc, ◌-◌, ◌%◌, ◌==◌, Bool, true, false, Option, none, some, List, [], ◌∷◌, ◌++◌, map,
  if◌then◌else◌, ltb,
}
use natbuster.Proto.Keys.{Keys, UserGroup}
use natbuster.Config.Json.{
  Json, ℤ, pos, negsuc, codes, words, number, ParseStatus, success, error, ◌>>=◌, ◌>>◌, lift,
  expect, required, each, prefix,
}
use natbuster.Config.Users.{in_range, store_users, parse_users}

pub record Host : Type 0 where
  pub host_name : List ℕ
  pub port : ℕ

pub record ClientIpServerSettings (K : Keys) : Type 0 where
  pub host : Host
  pub identity : UserGroup K

pub record ClientC2ServerSettings (K : Keys) : Type 0 where
  pub host : Host
  pub identity : UserGroup K
  pub auto_reconnect : Bool
  pub reconnect_interval : ℤ

pub record ClientSettings (K : Keys) : Type 0 where
  pub name : List ℕ
  pub prkey : Option (K.PrKey)
  pub c2_server : ClientC2ServerSettings K
  pub ip_servers : List (ClientIpServerSettings K)

pub record ServerSettings (K : Keys) : Type 0 where
  pub name : List ℕ
  pub prkey : Option (K.PrKey)
  pub port : ℕ

-- What the settings call besides: the text of a private key, which OpenSSL makes (common/crypto/pkey.h),
-- and `std::stoi`, with `none` for an exception.
pub record Texts (K : Keys) : Type 0 where
  pub export_private : K.PrKey → Option (List ℕ)
  pub load_private : List ℕ → Option (K.PrKey)
  pub stoi : List ℕ → Option ℤ

-- What stands before and after the last `:`.
unfoldable pub split_last : List ℕ → Option (List ℕ × List ℕ)
split_last [] = none
split_last (c ∷ cs) = elim (split_last cs) [
  | none ↦ if c == b':' then some ([], cs) else none
  | some (before, after) ↦ some (c ∷ before, after)
]

-- The conversion of an `int` to `uint16_t`.
abbrev pub to_u16 : ℤ → ℕ
to_u16 (pos n) = n % 65536
to_u16 (negsuc n) = (65536 - suc (n % 65536)) % 65536

-- Of common/network/network_linux.cpp, read with a `return ErrorCode::OK` at its end, which is missing.
unfoldable pub split_network_string : (List ℕ → Option ℤ) → List ℕ → ParseStatus Host
split_network_string stoi full_name = elim (split_last full_name) [
  | none ↦ error (words ": Could not parse address as string" ∷ [])
  | some (name, port) ↦
      lift (stoi port) >>= λ z. success (record { host_name = name; port = to_u16 z })
]

abbrev pub new_host : Host
new_host = record { host_name = []; port = 0 }

abbrev pub new_ip_server : {K : Keys} → ClientIpServerSettings K
new_ip_server = record { host = new_host; identity = [] }

-- `reconnect_interval < 5`
abbrev pub too_short : ℤ → Bool
too_short (pos n) = ltb n 5
too_short (negsuc n) = true

module _ (J : Json) (K : Keys) (T : Texts K) where
  open J use {
    Value, null, is_member, get, at_index, size, is_array, is_object, is_bool, is_integral,
    is_string, as_bool, as_string, as_uint64, as_int, put, of_bool, of_int, of_string, array,
  }
  open T use {export_private, load_private, stoi}

  unfoldable pub store_host : Host → Value
  store_host h = put (put null "host_name" (of_string h.host_name)) "port" (of_int (pos h.port))

  unfoldable pub parse_port : Value → ParseStatus ℕ
  parse_port node = do
    f ← required J node "port" is_integral (words ".port: Expected integer field" ∷ [])
    port_res ← lift (as_uint64 f)
    expect (in_range port_res) (words ".port: Port out of range" ∷ [])
    success port_res

  unfoldable pub parse_host : Value → ParseStatus Host
  parse_host node = if is_string node then split_network_string stoi (as_string node) else (do
    f ← required J node "host_name" is_string (words ".host_name: Expected string field" ∷ [])
    port ← parse_port node
    success (record { host_name = as_string f; port = port }))

  -- The fields `host` and `identity`, which may be missing.
  unfoldable pub parse_peer : Value → Host × UserGroup K → ParseStatus (Host × UserGroup K)
  parse_peer node old = do
    has_host ← lift (is_member node "host")
    host ←
        (if has_host
          then prefix (words ".host" ∷ []) (parse_host (get node "host"))
          else success old.0)
    has_identity ← lift (is_member node "identity")
    identity ←
        (if has_identity
          then prefix (words ".identity" ∷ []) (parse_users J K [] (get node "identity"))
          else success old.1)
    success (host, identity)

  unfoldable pub store_peer : Host → UserGroup K → Value
  store_peer host identity =
      put (put null "host" (store_host host)) "identity" (store_users J K identity)

  unfoldable pub store_ip_server : ClientIpServerSettings K → Value
  store_ip_server s = store_peer s.host s.identity

  unfoldable pub parse_ip_server : Value → ParseStatus (ClientIpServerSettings K)
  parse_ip_server node = parse_peer node (new_host, []) >>= λ peer.
      success (record { host = peer.0; identity = peer.1 })

  unfoldable pub store_c2_server : ClientC2ServerSettings K → Value
  store_c2_server s =
      put (put (store_peer s.host s.identity) "auto_reconnect" (of_bool s.auto_reconnect))
        "reconnect_interval" (of_int s.reconnect_interval)

  unfoldable pub parse_interval : Value → ParseStatus ℤ
  parse_interval node = do
    f ←
        required J node "reconnect_interval" is_integral
          (words ".reconnect_interval: Expected int field" ∷ [])
    interval ← lift (as_int f)
    (if too_short interval
        then error (words ".reconnect_interval: Expected >=5 seconds" ∷ [])
        else success tt)
    success interval

  unfoldable pub parse_c2_server : Value → ParseStatus (ClientC2ServerSettings K)
  parse_c2_server node = do
    peer ← parse_peer node (new_host, [])
    f ← required J node "auto_reconnect" is_bool (words ".auto_reconnect: Expected bool field" ∷ [])
    interval ← (if as_bool f then parse_interval node else success (negsuc 0))
    success (record {
      host = peer.0;
      identity = peer.1;
      auto_reconnect = as_bool f;
      reconnect_interval = interval;
    })

  abbrev pub private_text : Option (K.PrKey) → List ℕ
  private_text none = codes "PLACEHOLDER"
  private_text (some key) = elim (export_private key) [
    | none ↦ codes "PLACEHOLDER"
    | some blob ↦ blob
  ]

  unfoldable pub store_base : List ℕ → Option (K.PrKey) → Value
  store_base name prkey =
      put (put null "name" (of_string name)) "prkey" (of_string (private_text prkey))

  unfoldable pub parse_base : Value → ParseStatus (List ℕ × K.PrKey)
  parse_base node = do
    name ← required J node "name" is_string (words ".name: Expected string field" ∷ [])
    f ← required J node "prkey" is_string (words ".name: Expected string field" ∷ [])
    elim (load_private (as_string f)) [
      | none ↦ error (words ".prkey: Could not parse key" ∷ [])
      | some key ↦ success (as_string name, key)
    ]

  unfoldable pub store_client : ClientSettings K → Value
  store_client s =
      put (put (store_base s.name s.prkey) "c2_server" (store_c2_server s.c2_server)) "ip_servers"
        (array (map store_ip_server s.ip_servers))

  unfoldable pub parse_ip_servers : Value → ParseStatus (List (ClientIpServerSettings K))
  parse_ip_servers node = do
    let missing = words ".ip_servers: Expected array or object" ∷ []
    here ← lift (is_member node "ip_servers")
    (if here then success tt else error missing)
    let f = get node "ip_servers"
    if is_array f
        then each (at_index node)
            (λ i nodei s.
              prefix (words ".ip_servers[" ∷ number i ∷ words "]" ∷ []) (parse_ip_server nodei)
              >>= λ server. success (s ++ (server ∷ [])))
            (size f) 0 []
        else (if is_object f
            then (prefix (words ".ip_servers" ∷ []) (parse_ip_server f) >>= λ server.
                success (server ∷ []))
            else error missing)

  -- Into new settings, as `load_client_config` does; `c2_server` may be missing.
  unfoldable pub parse_client : Value → ParseStatus (ClientSettings K)
  parse_client node = do
    base ← parse_base node
    has_c2 ← lift (is_member node "c2_server")
    c2_server ←
        (if has_c2
          then prefix (words ".c2_server" ∷ []) (parse_c2_server (get node "c2_server"))
          else success (record {
            host = new_host;
            identity = [];
            auto_reconnect = false;
            reconnect_interval = negsuc 0;
          }))
    ip_servers ← parse_ip_servers node
    success (record {
      name = base.0;
      prkey = some base.1;
      c2_server = c2_server;
      ip_servers = ip_servers;
    })

  unfoldable pub store_server : ServerSettings K → Value
  store_server s = put (store_base s.name s.prkey) "port" (of_int (pos s.port))

  unfoldable pub parse_server : Value → ParseStatus (ServerSettings K)
  parse_server node = do
    base ← parse_base node
    port ← parse_port node
    success (record { name = base.0; prkey = some base.1; port = port })
