-- ===== src/Config/Reload.antt =====
-- A client's settings of common/config/config.cpp, stored and read again.
use Prim.Native.String.{String}
use natbuster.Prelude.{
  ℕ, ◌<◌, ◌≡◌, ◌⊎◌, inl, inr, refl, ap, ◌∙◌, true, false, ◌&&◌, Option, some, List, [], ◌∷◌,
  if◌then◌else◌, map, arith,
}
use natbuster.Proto.Keys.{Keys, UserGroup}
use natbuster.Config.Json.{Json, JsonLaws, pos, negsuc, success, thrown, is_nil, each, prefix}
use natbuster.Config.Users.{in_range, store_users}
use natbuster.Config.Profile.{
  Host, ClientC2ServerSettings, ClientSettings, Texts, private_text, store_base, store_host,
  parse_host, store_peer, parse_peer, store_ip_server, store_c2_server, parse_interval,
  parse_c2_server, too_short, store_client, parse_client, parse_ip_servers,
}
use natbuster.Config.Object.{IsObject, with_field, put-IsObject, required_lem, is_some}
use natbuster.Config.RoundTrip.{
  List-cases, two, two-IsObject, parse_base-store_base, parse_port-store, parse_users-store_users,
}

in_range-lt : (n : ℕ) → in_range n ≡ true → n < 65536
in_range-lt n h = ground arith

module _ (J : Json) (laws : JsonLaws J) (K : Keys) (T : Texts K) where
  open J use {Value, null, is_member, get, put, of_bool, of_string, of_int, array}

  parse_host-store_host :
      (h : Host) → in_range h.port ≡ true → parse_host J K T (store_host J K T h) ≡ success h
  unfolding parse_host store_host
  parse_host-store_host h r =
      let o =
        two-IsObject J laws "host_name" "port" (of_string h.host_name) (of_int (pos h.port)) in
      rw
        (
          laws.string-put (put null "host_name" (of_string h.host_name)) (of_int (pos h.port))
              "port",
          required_lem J laws _ _ o "host_name",
          (laws.string-of h.host_name).0,
          parse_port-store J laws K T h.port _ _ (in_range-lt h.port r) o refl,
          r,
          (laws.string-of h.host_name).1,
        )
        refl

  peer_of :
      (h : Host) (g : UserGroup K) (old : Host × UserGroup K) (v : Value)
      (f : String → Option Value)
      → IsObject J laws v f
      → f "host" ≡ some (store_host J K T h)
      → f "identity" ≡ some (store_users J K g)
      → in_range h.port ≡ true
      → parse_peer J K T v old ≡ (if is_nil g then success (h, g) else thrown)
  unfolding parse_peer prefix
  peer_of h g old v f o a b r =
      rw
        (
          o.member "host",
          a,
          o.found "host" _ a,
          parse_host-store_host h r,
          o.member "identity",
          b,
          o.found "identity" _ b,
          parse_users-store_users J laws K g,
        )
        (elim (List-cases g) [ inl e ↦ rw e refl | inr (x, rest, e) ↦ rw e refl ])

  -- The interval is there to be read, or not there at all.
  abbrev pub IntervalKept : ClientC2ServerSettings K → Type 0
  IntervalKept s =
      ((s.auto_reconnect ≡ true) × (too_short s.reconnect_interval ≡ false))
      ⊎ ((s.auto_reconnect ≡ false) × (s.reconnect_interval ≡ negsuc 0))

  interval_of :
      (s : ClientC2ServerSettings K) (v : Value) (f : String → Option Value)
      → IsObject J laws v f
      → f "reconnect_interval" ≡ some (of_int s.reconnect_interval)
      → IntervalKept s
      → (if s.auto_reconnect then parse_interval J K T v else success (negsuc 0))
        ≡ success s.reconnect_interval
  unfolding parse_interval
  interval_of s v f o e (inl (a, k)) =
      rw
        (
          a,
          required_lem J laws v f o "reconnect_interval",
          e,
          (laws.int-of s.reconnect_interval).0,
          (laws.int-of s.reconnect_interval).1,
          k,
        )
        refl
  interval_of s v f o e (inr (a, k)) = rw (a, k) refl

  parse_c2_server-store_c2_server :
      (s : ClientC2ServerSettings K)
      → in_range s.host.port ≡ true
      → IntervalKept s
      → parse_c2_server J K T (store_c2_server J K T s)
        ≡ (if is_nil s.identity then success s else thrown)
  unfolding parse_c2_server store_c2_server store_peer
  parse_c2_server-store_c2_server s r i =
      let o = put-IsObject J laws _ (of_int s.reconnect_interval) "reconnect_interval" _ (
        put-IsObject J laws _ (of_bool s.auto_reconnect) "auto_reconnect" _ (
          two-IsObject J laws "host" "identity" (store_host J K T s.host)
            (store_users J K s.identity))) in
      elim (List-cases s.identity) [
        | inl e ↦
            rw
              (
                peer_of s.host s.identity _ _ _ o refl refl r,
                ap is_nil e,
                required_lem J laws _ _ o "auto_reconnect",
                (laws.bool-of s.auto_reconnect).0,
                (laws.bool-of s.auto_reconnect).1,
                interval_of s _ _ o refl i,
              )
              refl
        | inr (x, rest, e) ↦ rw (peer_of s.host s.identity _ _ _ o refl refl r, ap is_nil e) refl
      ]

  servers_of :
      (l : List Value) (v : Value) (f : String → Option Value)
      → IsObject J laws v f
      → f "ip_servers" ≡ some (array l)
      → parse_ip_servers J K T v ≡ (if is_nil l then success [] else thrown)
  unfolding parse_ip_servers each
  servers_of [] v f o e =
      rw
        (
          o.member "ip_servers",
          o.found "ip_servers" _ e,
          e,
          laws.array-array [],
          laws.size-array [],
        )
        refl
  servers_of (x ∷ l) v f o e =
      rw
        (
          o.member "ip_servers",
          o.found "ip_servers" _ e,
          e,
          laws.array-array (x ∷ l),
          laws.size-array (x ∷ l),
          laws.at-member v "ip_servers" 0 (o.member "ip_servers" ∙ ap (λ p. some (is_some p)) e),
        )
        refl

  client_fields : ClientSettings K → String → Option Value
  client_fields s =
      with_field J laws
        (with_field J laws
          (two J laws "name" (of_string s.name) "prkey" (of_string (private_text J K T s.prkey)))
          "c2_server" (store_c2_server J K T s.c2_server))
        "ip_servers" (array (map (store_ip_server J K T) s.ip_servers))

  client_of :
      (s : ClientSettings K) (key : K.PrKey) (v : Value)
      → IsObject J laws v (client_fields s)
      → T.load_private (private_text J K T s.prkey) ≡ some key
      → in_range s.c2_server.host.port ≡ true
      → IntervalKept s.c2_server
      → parse_client J K T v ≡ (
          if is_nil s.c2_server.identity && is_nil s.ip_servers
          then success
              (record { name = s.name; prkey = some key; c2_server = s.c2_server; ip_servers = [] })
          else thrown)
  unfolding client_fields parse_client prefix
  client_of s key v o l r i =
      let base = parse_base-store_base J laws K T s.name s.prkey key v _ o refl refl l in
      let c2 = parse_c2_server-store_c2_server s.c2_server r i in
      let ips = servers_of (map (store_ip_server J K T) s.ip_servers) v _ o refl in
      elim (List-cases s.c2_server.identity) [
        | inl e ↦ elim (List-cases s.ip_servers) [
          | inl n ↦
              rw
                (
                  base,
                  o.member "c2_server",
                  o.found "c2_server" _ refl,
                  c2,
                  ap is_nil e,
                  ips,
                  ap (map (store_ip_server J K T)) n,
                  ap is_nil n,
                )
                refl
          | inr (x, rest, n) ↦
              rw
                (
                  base,
                  o.member "c2_server",
                  o.found "c2_server" _ refl,
                  c2,
                  ap is_nil e,
                  ips,
                  ap (map (store_ip_server J K T)) n,
                  ap is_nil n,
                )
                refl
        ]
        | inr (x, rest, e) ↦
            rw (base, o.member "c2_server", o.found "c2_server" _ refl, c2, ap is_nil e) refl
      ]

  -- The settings of a client that are stored are read back as they were, if they hold no user of the
  -- server and no IP server; if they hold one, reading throws. (The port of the server is not 0, the
  -- interval is 5 at least with a reconnection and -1 without one, and the private key can be read back.)
  pub parse_client-store_client :
      (s : ClientSettings K) (key : K.PrKey)
      → s.prkey ≡ some key
      → T.load_private (private_text J K T s.prkey) ≡ some key
      → in_range s.c2_server.host.port ≡ true
      → IntervalKept s.c2_server
      → parse_client J K T (store_client J K T s)
        ≡ (if is_nil s.c2_server.identity && is_nil s.ip_servers then success s else thrown)
  unfolding client_fields store_client store_base
  parse_client-store_client s key k l r i =
      client_of s key (store_client J K T s)
        (put-IsObject J laws _ _ "ip_servers" _ (
          put-IsObject J laws _ _ "c2_server" _ (
            two-IsObject J laws "name" "prkey" (of_string s.name)
              (of_string (private_text J K T s.prkey)))))
        l r i
      ∙ (elim (List-cases s.ip_servers) [
        | inl n ↦ ground (arith, n, k)
        | inr (x, rest, n) ↦ ground (arith, ap is_nil n)
      ])
