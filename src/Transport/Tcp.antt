-- ===== src/Transport/Tcp.antt =====
-- common/transport/opt_tcp.h and opt_tcp.cpp: packets over a byte stream. The blobs of the
-- reassembly list are modelled by the bytes that they show; `Blob.Edit` has what `resize` and
-- `copy_from` do to those. A callback is an event that the call emits.
pub mod Buffer
pub mod Stream
pub mod Delivery
mod Tests
use natbuster.Prelude.{
  ℕ, zero, suc, ◌+◌, ◌-◌, ◌^◌, ◌≡◌, Bool, true, false, Option, none, some, List, [], ◌∷◌, ◌++◌, ltb,
  leb, ◌==◌, if◌then◌else◌, length, get_or, take, drop, add32, sub32, min, assert, ◌>>=◌, ◌>>◌,
}
use natbuster.Prelude.Bytes.{le32, read32}

-- What `OPTTCP` hands to the layer above, or asks of its socket.
pub data Event : Type 0 where
  packet : List ℕ → Event
  raw : List ℕ → Event
  closed : Event

pub record State : Type 0 where
  pub total_len : ℕ
  pub frags : List (List ℕ)

abbrev pub init : State
init = record { total_len = 0; frags = [] }

abbrev pub pkt_normal : ℕ
pkt_normal = 1

abbrev pub pkt_raw : ℕ
pkt_raw = 2

abbrev pub max_packet_size : ℕ
max_packet_size = 2 ^ 24

abbrev pub get_mtu_normal : ℕ
get_mtu_normal = max_packet_size

-- The loop of `read_from_reassamble_list` with `peek`, `need` bytes before its end. An empty list
-- throws.
unfoldable pub peek_loop : List (List ℕ) → ℕ → Option (List ℕ)
peek_loop [] need = if need == 0 then some [] else none
peek_loop (f ∷ fs) need =
    let next_frag = min need (length f) in
    let rest = peek_loop fs (need - next_frag) in
    if need == 0 then some [] else (rest >>= λ tail. some (take next_frag f ++ tail))

-- The same loop without `peek`: what is copied out is taken off the list.
unfoldable pub read_loop : List (List ℕ) → ℕ → ℕ → Option (List ℕ × State)
read_loop [] total need =
    if need == 0 then some ([], record { total_len = total; frags = [] }) else none
read_loop (f ∷ fs) total need =
    let next_frag = min need (length f) in
    let left = drop next_frag f in
    let rest = read_loop fs (sub32 total next_frag) (need - next_frag) in
    if need == 0
    then some ([], record { total_len = total; frags = f ∷ fs })
    else if length left == 0
    then (rest >>= λ r. some (take next_frag f ++ r.0, r.1))
    else (assert (need - next_frag == 0)
        >> some (take next_frag f, record { total_len = sub32 total next_frag; frags = left ∷ fs }))

-- The outer option is an exception, the inner one is `false`.
unfoldable pub peek_from : State → ℕ → Option (Option (List ℕ))
peek_from s len =
    if leb len s.total_len then (peek_loop s.frags len >>= λ d. some (some d)) else some none

unfoldable pub read_from : State → ℕ → Option (Option (List ℕ × State))
read_from s len =
    if leb len s.total_len
    then (read_loop s.frags s.total_len len >>= λ d. some (some d))
    else some none

-- What a round of the loop in `on_receive` ends with: the state, the event if there is one, and
-- whether there is a next round.
pub record Round : Type 0 where
  pub state : State
  pub event : List Event
  pub again : Bool

abbrev pub stop : State → List Event → Round
stop s e = record { state = s; event = e; again = false }

-- Reads out the header and the content, and cuts off the header.
unfoldable pub deliver : (List ℕ → Event) → State → ℕ → Option Round
deliver callback s len = read_from s (add32 5 len) >>= λ got. elim got [
  | none ↦ some (stop s [])
  | some (content, s') ↦
      some (record { state = s'; event = callback (drop 5 content) ∷ []; again = true })
]

unfoldable pub dispatch : State → ℕ → ℕ → Option Round
dispatch s type len =
    if ltb len max_packet_size
    then (if type == pkt_normal
        then deliver packet s len
        else if type == pkt_raw
        then deliver raw s len
        else some (stop s (closed ∷ [])))
    else some (stop s (closed ∷ []))

unfoldable pub round : State → Option Round
round s = peek_from s 5 >>= λ got. elim got [
  | none ↦ some (stop s [])
  | some next_header ↦ dispatch s (get_or next_header 0 0) (read32 (drop 1 next_header))
]

-- `while (_reassamble_list.size() > 0)`. `none` too if the fuel runs out.
unfoldable pub receive_loop : ℕ → State → Option (State × List Event)
receive_loop zero s = none
receive_loop (suc fuel) s = elim s.frags [
  | [] ↦ some (s, [])
  | _ ∷ _ ↦ round s >>= λ r. elim r.again [
    | true ↦ receive_loop fuel r.state >>= λ t. some (t.0, r.event ++ t.1)
    | false ↦ some (r.state, r.event)
  ]
]

-- A round that goes on takes five bytes at least, so there are fewer rounds than bytes.
unfoldable pub on_receive : State → List ℕ → Option (State × List Event)
on_receive s view =
    receive_loop (s.total_len + length view + 1)
      (record { total_len = add32 s.total_len (length view); frags = s.frags ++ (view ∷ []) })

-- The bytes that `send` and `sendRaw` give to the socket.
unfoldable pub wrap : ℕ → List ℕ → List ℕ
wrap type view = type ∷ le32 (length view) ++ view

unfoldable pub send : List ℕ → List ℕ
send view = wrap pkt_normal view

unfoldable pub send_raw : List ℕ → List ℕ
send_raw view = wrap pkt_raw view
