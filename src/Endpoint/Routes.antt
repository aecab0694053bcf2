-- ===== src/Endpoint/Routes.antt =====
-- The two relays of common/endpoint: `RouterTCPRoute` of router.cpp joins a pipe and a TCP socket, and
-- `C2ServerRoute` of c2_server.cpp joins two pipes. What is asked of the pipes and the socket are effects;
-- `none` is an assertion that fails.
use natbuster.Prelude.{
  ℕ, Bool, true, false, Option, none, some, List, [], ◌∷◌, ◌++◌, if◌then◌else◌, ◌>>=◌, ◌>>◌, assert,
  not,
}
use natbuster.Prelude.Bytes.{le16}

-- `registered`: `_self` is in `_open_routes`, and not its end.
pub record RouterTcpRoute : Type 0 where
  pub is_client : Bool
  pub registered : Bool

pub data Effect : Type 0 where
  pipe_starts : Effect
  pipe_starts_client : List ℕ → Effect
  socket_starts : Effect
  pipe_sends : List ℕ → Effect
  socket_sends : List ℕ → Effect
  erases : Effect
  pipe_closes : Effect
  socket_closes : Effect

pub data Event : Type 0 where
  socket_open : Event
  pipe_open : Event
  pipe_packet : List ℕ → Event
  socket_packet : List ℕ → Event
  error : ℕ → Event
  pipe_close : Event
  socket_close : Event

abbrev pub Result : Type 0
Result = Option (RouterTcpRoute × List Effect)

unfoldable pub on_socket_open : RouterTcpRoute → Result
on_socket_open r = if r.is_client then none else some (r, pipe_starts ∷ [])

unfoldable pub on_pipe_open : RouterTcpRoute → Result
on_pipe_open r = if r.is_client then some (r, socket_starts ∷ []) else none

-- The erase that both close handlers make first.
unfoldable pub leave : RouterTcpRoute → RouterTcpRoute × List Effect
leave r = (record r { registered = false }, if r.registered then erases ∷ [] else [])

unfoldable pub on_pipe_close : RouterTcpRoute → Result
on_pipe_close r = some ((leave r).0, (leave r).1 ++ (socket_closes ∷ []))

unfoldable pub on_socket_close : RouterTcpRoute → Result
on_socket_close r = some ((leave r).0, (leave r).1 ++ (pipe_closes ∷ []))

unfoldable pub start_server : RouterTcpRoute → Result
start_server r =
    assert (not r.is_client) >> some (record r { registered = true }, socket_starts ∷ [])

unfoldable pub start_client : RouterTcpRoute → ℕ → Result
start_client r remote_port =
    assert r.is_client
    >> some (record r { registered = true }, pipe_starts_client (le16 remote_port) ∷ [])

unfoldable pub step : RouterTcpRoute → Event → Result
step r socket_open = on_socket_open r
step r pipe_open = on_pipe_open r
step r (pipe_packet view) = some (r, socket_sends view ∷ [])
step r (socket_packet view) = some (r, pipe_sends view ∷ [])
step r (error code) = some (r, [])
step r pipe_close = on_pipe_close r
step r socket_close = on_socket_close r

unfoldable pub run : RouterTcpRoute → List Event → Result
run r [] = some (r, [])
run r (e ∷ es) = step r e >>= λ s. run s.0 es >>= λ t. some (t.0, s.1 ++ t.1)

-- `C2ServerRoute`: the pipe `a` of the one who asked, the pipe `b` to the other. Its place in `_routes` is
-- given up by `close` alone.
pub data Side : Type 0 where
  a : Side
  b : Side

pub data Relayed : Type 0 where
  starts : Side → Relayed
  starts_client : List ℕ → Relayed
  sends : Side → List ℕ → Relayed
  leaves : Relayed
  closes : Side → Relayed

pub data Call : Type 0 where
  opened : Call
  packet : Side → List ℕ → Call
  failed : ℕ → Call
  closed : Side → Call

abbrev pub other : Side → Side
other a = b
other b = a

unfoldable pub route_start : List ℕ → List Relayed
route_start open_data = starts_client open_data ∷ []

unfoldable pub route_call : Call → List Relayed
route_call opened = starts a ∷ []
route_call (packet side view) = sends (other side) view ∷ []
route_call (failed code) = []
route_call (closed side) = closes (other side) ∷ []

unfoldable pub route_close : Bool → List Relayed
route_close registered = (if registered then leaves ∷ [] else []) ++ (closes a ∷ closes b ∷ [])

unfoldable pub route_calls : List Call → List Relayed
route_calls [] = []
route_calls (c ∷ cs) = route_call c ++ route_calls cs
