-- ===== src/Transport/Pipes.antt =====
-- common/transport/opt_pipes.h and opt_pipes.cpp: many pipes over one connection. The map of pipes
-- holds weak references, so the objects are a store of their own, by reference; `release` is the
-- destructor, when the last owner lets a pipe go. Callbacks, timers and packets for the layer below
-- are effects.
pub mod Recv
pub mod Invariant
pub mod Live
pub mod Methods
pub mod Handlers
pub mod Steps
pub mod Calls
pub mod Closed
pub mod Handshake
mod Tests
use natbuster.Prelude.{
  ℕ, zero, suc, ◌+◌, ◌%◌, ◌≡◌, Bool, true, false, not, Option, none, some, List, [], ◌∷◌, ◌++◌, leb,
  ◌==◌, if◌then◌else◌, length, get_or, drop, add32, assert, ◌>>=◌, ◌>>◌, map,
}
use natbuster.Prelude.Bytes.{le32, read32}
use natbuster.Prelude.Assoc.{lookup, insert, erase, assign}
use natbuster.Utils.Math.{clamped_sub}

-- `unopened` is `None`, a pipe that was just created.
pub data OpenState : Type 0 where
  unopened : OpenState
  open_request_sent : OpenState
  open_request_recv : OpenState
  opened : OpenState
  closed : OpenState

pub record Pipe : Type 0 where
  pub id : ℕ
  pub open_state : OpenState

pub record State : Type 0 where
  pub is_client : Bool
  pub pipes : List (ℕ × ℕ)
  pub next_pipe_id : ℕ
  pub objects : List (ℕ × Pipe)
  pub next_ref : ℕ

abbrev pub init : Bool → State
init is_client = record {
  is_client = is_client;
  pipes = [];
  next_pipe_id = if is_client then 1 else 0;
  objects = [];
  next_ref = 0;
}

abbrev pub pipe_open_req : ℕ
pipe_open_req = 1

abbrev pub pipe_open_resp : ℕ
pipe_open_resp = 2

abbrev pub pipe_close : ℕ
pipe_close = 3

abbrev pub pipe_data : ℕ
pipe_data = 4

abbrev pub self_data : ℕ
self_data = 5

-- For the layer below, and the callbacks, those of a pipe with its reference.
pub data Effect : Type 0 where
  sent : List ℕ → Effect
  sent_raw : List ℕ → Effect
  close_below : Effect
  expiry_timer : ℕ → Effect
  on_pipe : ℕ → List ℕ → Effect
  pipe_opened : ℕ → Effect
  pipe_closed : ℕ → Effect
  pipe_packet : ℕ → List ℕ → Effect
  pipe_raw : ℕ → List ℕ → Effect
  pipe_error : ℕ → Effect
  packet : List ℕ → Effect
  raw : List ℕ → Effect
  error : Effect
  all_closed : Effect

abbrev pub Result : Type 0
Result = Option (State × List Effect)

abbrev pub message : ℕ → ℕ → List ℕ → List ℕ
message type id content = type ∷ le32 id ++ content

-- `_pipes.find(id)` and `lock()` of what is found.
unfoldable pub find : State → ℕ → Option (ℕ × Pipe)
find s id = lookup id s.pipes >>= λ r. lookup r s.objects >>= λ p. some (r, p)

abbrev pub set_state : State → ℕ → Pipe → OpenState → State
set_state s r p state = record s { objects = assign r (record p { open_state = state }) s.objects }

unfoldable pub create : State → ℕ → OpenState → State
create s id state = record s {
  pipes = insert id s.next_ref s.pipes;
  objects = assign s.next_ref (record { id = id; open_state = state }) s.objects;
  next_ref = suc s.next_ref;
}

-- The new pipe is the last reference.
unfoldable pub open_pipe : State → State × ℕ
open_pipe s = (
  create (record s { next_pipe_id = add32 s.next_pipe_id 2 }) s.next_pipe_id unopened,
  s.next_ref,
)

-- `OPTPipe::erase` takes whatever stands under the number off the map.
unfoldable pub erase_pipe : State → ℕ → State
erase_pipe s id = record s { pipes = erase id s.pipes }

unfoldable pub close_in : OpenState → State → ℕ → Pipe → State × List Effect
close_in closed s r p = (erase_pipe s p.id, [])
close_in _ s r p = (
  set_state (erase_pipe s p.id) r p closed,
  sent (message pipe_close p.id []) ∷ pipe_closed r ∷ [],
)

unfoldable pub close : State → ℕ → Pipe → State × List Effect
close s r p = close_in p.open_state s r p

unfoldable pub drop_in : OpenState → State → ℕ → Pipe → State × List Effect
drop_in opened s r p = close s r p
drop_in open_request_sent s r p = close s r p
drop_in _ s r p = (erase_pipe s p.id, [])

unfoldable pub drop_pipe : State → ℕ → Pipe → State × List Effect
drop_pipe s r p = drop_in p.open_state s r p

-- `~OPTPipe`
unfoldable pub release : State → ℕ → Pipe → State × List Effect
release s r p = let d = drop_pipe s r p in (record d.0 { objects = erase r d.0.objects }, d.1)

unfoldable pub start_client_in : OpenState → State → ℕ → Pipe → List ℕ → State × List Effect
start_client_in unopened s r p content = (
  set_state s r p open_request_sent,
  sent (message pipe_open_req p.id content) ∷ expiry_timer r ∷ [],
)
start_client_in _ s r p content = (s, [])

unfoldable pub start_client : State → ℕ → Pipe → List ℕ → State × List Effect
start_client s r p content = start_client_in p.open_state s r p content

unfoldable pub start_in : OpenState → State → ℕ → Pipe → State × List Effect
start_in unopened s r p = start_client s r p []
start_in open_request_recv s r p =
    (set_state s r p opened, sent (message pipe_open_resp p.id []) ∷ [])
start_in _ s r p = (s, [])

unfoldable pub start : State → ℕ → Pipe → State × List Effect
start s r p = start_in p.open_state s r p

unfoldable pub expired_in : OpenState → State → ℕ → Pipe → State × List Effect
expired_in open_request_sent s r p = close s r p
expired_in _ s r p = (s, [])

unfoldable pub on_open_expired : State → ℕ → Pipe → State × List Effect
on_open_expired s r p = expired_in p.open_state s r p

-- Whether the pipe is open is not looked at.
unfoldable pub send : Pipe → List ℕ → Effect
send p content = sent (message pipe_data p.id content)

unfoldable pub send_raw : Pipe → List ℕ → Effect
send_raw p content = sent_raw (message pipe_data p.id content)

-- `OPTPipes::send` and `OPTPipes::sendRaw`: both have a header of one byte, and both send it raw.
unfoldable pub self_send : List ℕ → Effect
self_send content = sent_raw (self_data ∷ content)

unfoldable pub self_send_raw : List ℕ → Effect
self_send_raw content = sent_raw (self_data ∷ content)

unfoldable pub pipe_mtu : ℕ → ℕ
pipe_mtu below = clamped_sub below 5

unfoldable pub self_mtu : ℕ → ℕ
self_mtu below = clamped_sub below 1
