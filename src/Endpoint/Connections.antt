-- ===== src/Endpoint/Connections.antt =====
-- The connections of common/endpoint/c2_server.cpp: `C2ServerEndpoint` and the table of the clients that
-- are logged in. A fingerprint is the number that its bytes make, under a last byte of 1; the user of a connection comes from
-- the layer below, as the fingerprint of its key, or nothing for an anonymous one. Objects are
-- references; an erase through an iterator that is not valid is `none`.
use natbuster.Prelude.{
  ℕ, ◌+◌, ◌*◌, ◌≡◌, Option, none, some, List, [], ◌∷◌, leb, ◌==◌, if◌then◌else◌, length, get_or,
  drop, ◌>>=◌,
}
use natbuster.Prelude.Assoc.{lookup, erase, assign}

-- `_self_lu`: no value yet, the end of the lookup table, or a place in it, by its key.
pub data Place : Type 0 where
  unset : Place
  at_end : Place
  at_key : ℕ → Place

pub record C2ServerEndpoint : Type 0 where
  pub self_lu : Place

pub record C2Server : Type 0 where
  pub connection_lookup : List (ℕ × ℕ)
  pub endpoints : List (ℕ × C2ServerEndpoint)

pub data Effect : Type 0 where
  closes : ℕ → Effect
  opens_route : ℕ → ℕ → Effect

abbrev pub number : List ℕ → ℕ
number [] = 1
number (b ∷ bs) = b + 256 * number bs

abbrev pub set_self_lu : C2Server → ℕ → Place → C2Server
set_self_lu s r place = record s { endpoints = assign r (record { self_lu = place }) s.endpoints }

-- The previous client with the same key is closed, and its place forgotten.
unfoldable pub eject : C2Server → ℕ → C2Server × List Effect
eject s fingerprint = elim (lookup fingerprint s.connection_lookup) [
  | none ↦ (s, [])
  | some other ↦ (
    record (set_self_lu s other at_end) {
      connection_lookup = erase fingerprint s.connection_lookup;
    },
    closes other ∷ [],
  )
]

-- The entry under the key, and the place of it.
unfoldable pub enter : C2Server → ℕ → ℕ → C2Server × List Effect
enter s r fingerprint =
    let e = eject s fingerprint in
    (
      record (set_self_lu e.0 r (at_key fingerprint)) {
        connection_lookup = assign fingerprint r e.0.connection_lookup;
      },
      e.1,
    )

-- An anonymous user is closed, and the call goes on with the empty fingerprint.
unfoldable pub on_open : C2Server → ℕ → Option ℕ → C2Server × List Effect
on_open s r none = let e = enter s r (number []) in (e.0, closes r ∷ e.1)
on_open s r (some fingerprint) = enter s r fingerprint

-- A connection is made; the constructor gives `_self_lu` no value.
unfoldable pub connect : C2Server → ℕ → C2Server
connect s r = set_self_lu s r unset

-- An iterator with no value can not be compared: `none`.
unfoldable pub leave : Place → C2Server → ℕ → Option C2Server
leave unset s r = none
leave at_end s r = some s
leave (at_key fingerprint) s r = lookup fingerprint s.connection_lookup >>= λ other.
    if other == r
    then some (record s { connection_lookup = erase fingerprint s.connection_lookup })
    else none

-- The entry goes, and with its place in `_connections` the object.
unfoldable pub on_close : C2Server → ℕ → Option C2Server
on_close s r = lookup r s.endpoints >>= λ e.
    leave e.self_lu s r >>= λ s'. some (record s' { endpoints = erase r s'.endpoints })

abbrev pub pipe_user : ℕ
pipe_user = 1

unfoldable pub route_to : C2Server → ℕ → List ℕ → List Effect
route_to s src dst = elim (lookup (number dst) s.connection_lookup) [
  | none ↦ []
  | some other ↦ opens_route other src ∷ []
]

-- The user is the one of the pipe that was asked for.
unfoldable pub on_pipe : C2Server → Option ℕ → List ℕ → List Effect
on_pipe s none content = []
on_pipe s (some src) content =
    if leb 1 (length content)
    then (if get_or content 0 0 == pipe_user
        then (if length (drop 1 content) == 32 then route_to s src (drop 1 content) else [])
        else [])
    else []

-- The table and the places agree: each entry is the place of its object, and each place an entry.
pub record IsValid (s : C2Server) : Type 0 where
  pub listed :
      (f r : ℕ)
      → lookup f s.connection_lookup ≡ some r
      → lookup r s.endpoints ≡ some (record { self_lu = at_key f })
  pub placed :
      (r f : ℕ)
      → lookup r s.endpoints ≡ some (record { self_lu = at_key f })
      → lookup f s.connection_lookup ≡ some r
