-- ===== src/Transport/Pipes/Recv.antt =====
-- The callbacks of `OPTPipes` (common/transport/opt_pipes.cpp) for what comes from below.
use natbuster.Prelude.{
  ℕ, ◌%◌, Bool, true, false, not, none, some, List, [], ◌∷◌, ◌++◌, leb, ◌==◌, if◌then◌else◌, length,
  get_or, drop, assert, ◌>>◌,
}
use natbuster.Prelude.Bytes.{read32}
use natbuster.Prelude.Assoc.{lookup}
use natbuster.Transport.Pipes.{
  OpenState, open_request_sent, open_request_recv, opened, closed, Pipe, State, Effect, close_below,
  on_pipe, pipe_opened, pipe_closed, pipe_packet, pipe_raw, pipe_error, packet, raw, error,
  all_closed, Result, find, set_state, create, erase_pipe, pipe_open_req, pipe_open_resp,
  pipe_close, pipe_data, self_data,
}

-- `(id % 2 == 1) == _is_client`: the number is one that this side gives out.
abbrev pub same : Bool → Bool → Bool
same true b = b
same false b = not b

abbrev pub is_own : State → ℕ → Bool
is_own s id = same (id % 2 == 1) s.is_client

unfoldable pub on_open_req : State → ℕ → List ℕ → State × List Effect
on_open_req s id content = if is_own s id then (s, []) else (elim (lookup id s.pipes) [
  | none ↦ (create s id open_request_recv, on_pipe s.next_ref content ∷ [])
  | some _ ↦ (s, [])
])

unfoldable pub answered : OpenState → State → ℕ → Pipe → State × List Effect
answered open_request_sent s r p = (set_state s r p opened, pipe_opened r ∷ [])
answered _ s r p = (s, [])

-- What is done with the pipe of a number, if it is there and alive.
unfoldable pub at_pipe : State → ℕ → (ℕ → Pipe → State × List Effect) → State × List Effect
at_pipe s id handler = elim (find s id) [ none ↦ (s, []) | some (r, p) ↦ handler r p ]

unfoldable pub on_open_resp : State → ℕ → State × List Effect
on_open_resp s id =
    if is_own s id then at_pipe s id (λ r p. answered p.open_state s r p) else (s, [])

unfoldable pub closed_in : OpenState → State → ℕ → Pipe → State × List Effect
closed_in closed s r p = (s, [])
closed_in _ s r p = (set_state s r p closed, pipe_closed r ∷ [])

-- The number is taken off the map, whether its pipe is alive or not.
unfoldable pub on_pipe_close : State → ℕ → State × List Effect
on_pipe_close s id = elim (find s id) [
  | none ↦ (erase_pipe s id, [])
  | some (r, p) ↦ closed_in p.open_state (erase_pipe s id) r p
]

unfoldable pub data_in : OpenState → State → Effect → State × List Effect
data_in opened s e = (s, e ∷ [])
data_in _ s e = (s, [])

unfoldable pub dispatch : State → ℕ → ℕ → List ℕ → State × List Effect
dispatch s type id content =
    if type == pipe_open_req
    then on_open_req s id content
    else if type == pipe_open_resp
    then on_open_resp s id
    else if type == pipe_close
    then on_pipe_close s id
    else if type == pipe_data
    then at_pipe s id (λ r p. data_in p.open_state s (pipe_packet r content))
    else if type == self_data
    then (s, packet content ∷ [])
    else (s, close_below ∷ [])

-- `cslice_right(5)` asserts that there are five bytes.
unfoldable pub on_packet : State → List ℕ → Result
on_packet s view =
    assert (leb 5 (length view))
    >> some (dispatch s (get_or view 0 0) (read32 (drop 1 view)) (drop 5 view))

unfoldable pub dispatch_raw : State → ℕ → ℕ → List ℕ → State × List Effect
dispatch_raw s type id content =
    if type == pipe_data
    then at_pipe s id (λ r p. data_in p.open_state s (pipe_raw r content))
    else if type == self_data
    then (s, raw content ∷ [])
    else (s, close_below ∷ [])

unfoldable pub on_raw : State → List ℕ → Result
on_raw s view =
    assert (leb 5 (length view))
    >> some (dispatch_raw s (get_or view 0 0) (read32 (drop 1 view)) (drop 5 view))

-- The callback of each pipe of the map that is alive; `std::map` goes by number, the list may not.
unfoldable pub each_pipe : (ℕ → Effect) → List (ℕ × Pipe) → List (ℕ × ℕ) → List Effect
each_pipe callback objects [] = []
each_pipe callback objects ((id, r) ∷ m) =
    let rest = each_pipe callback objects m in
    elim (lookup r objects) [ none ↦ rest | some _ ↦ callback r ∷ rest ]

-- The state of the pipes stays as it is.
unfoldable pub on_error : State → State × List Effect
on_error s = (s, each_pipe pipe_error s.objects s.pipes ++ (error ∷ []))

unfoldable pub on_close : State → State × List Effect
on_close s = (s, each_pipe pipe_closed s.objects s.pipes ++ (all_closed ∷ []))
