-- ===== src/Transport/Udp.antt =====
-- common/transport/opt_udp.h and opt_udp.cpp: ordered packets over datagrams. A callback, a datagram
-- for the socket and the closing of the socket are effects that a call returns. The clock stands
-- still during a call.
pub mod Send
pub mod Frames
pub mod Fragment
pub mod Sender
pub mod Receive
pub mod Refine
pub mod Delivery
pub mod EndToEnd
pub mod Retransmit
pub mod Due
pub mod Ack
pub mod Gaps
mod Tests
use natbuster.Prelude.{
  ℕ, zero, suc, ◌+◌, ◌-◌, ◌*◌, ◌/◌, ◌%◌, ◌^◌, min, max, ◌≡◌, Bool, true, false, ◌&&◌, ◌||◌, Option,
  none, some, List, [], ◌∷◌, ◌++◌, map, ltb, leb, ◌==◌, if◌then◌else◌, length, get_or, get_elem?,
  take, drop, u32_mod, add32, sub32, mul32, assert, ◌>>=◌, ◌>>◌,
}
use natbuster.Prelude.Bytes.{le32, read32}
use natbuster.Prelude.Assoc.{lookup, insert, erase}

abbrev pub seq_rt_cnt : ℕ
seq_rt_cnt = 64

-- `seq & seq_rt_mask` and `seq & seq_num_mask`
abbrev pub seq_rt : ℕ → ℕ
seq_rt seq = seq % seq_rt_cnt

abbrev pub seq_num : ℕ → ℕ
seq_num seq = seq - seq % seq_rt_cnt

abbrev pub mgmt_hello : ℕ
mgmt_hello = 1

abbrev pub mgmt_ping : ℕ
mgmt_ping = 2

abbrev pub mgmt_pong : ℕ
mgmt_pong = 3

abbrev pub pkt_mid : ℕ
pkt_mid = 16

abbrev pub pkt_start : ℕ
pkt_start = 17

abbrev pub pkt_end : ℕ
pkt_end = 18

abbrev pub pkt_single : ℕ
pkt_single = 19

abbrev pub pkt_ack : ℕ
pkt_ack = 32

abbrev pub udp_pipe : ℕ
udp_pipe = 48

pub data Effect : Type 0 where
  datagram : List ℕ → Effect
  packet : List ℕ → Effect
  raw : List ℕ → Effect
  invalid_ping : Effect
  close_socket : Effect

pub record Settings : Type 0 where
  pub max_mtu : ℕ
  pub max_pong : ℕ
  pub min_retransmit : ℕ

abbrev pub default_settings : Settings
default_settings = record { max_mtu = 1454; max_pong = 30000000; min_retransmit = 3000 }

-- The running averages are floats: a type of their own, with the update by a time of flight and the
-- delay in microseconds that is computed from them before it is clamped.
pub record Estimator : Type 1 where
  pub Ping : Type 0
  pub observe : ℕ → Ping → Ping
  pub estimate : Ping → ℕ

pub record Transmit : Type 0 where
  pub transmits : List ℕ
  pub packet : List ℕ

pub record State (E : Estimator) : Type 0 where
  pub receive_map : List (ℕ × List ℕ)
  pub reassemble_list : List (List ℕ)
  pub rx_seq : ℕ
  pub last_pong_in : ℕ
  pub pong_timeout_timer : Option ℕ
  pub transmit_queue : List Transmit
  pub tx_seq : ℕ
  pub retransmit_timer : Option ℕ
  pub ping : E.Ping

abbrev pub init : (E : Estimator) → E.Ping → State E
init E ping = record {
  receive_map = [];
  reassemble_list = [];
  rx_seq = 0;
  last_pong_in = 0;
  pong_timeout_timer = none;
  transmit_queue = [];
  tx_seq = 0;
  retransmit_timer = none;
  ping = ping;
}

abbrev pub Result : Estimator → Type 0
Result E = Option (State E × List Effect)

-- `pkt->content.packet.seq`
abbrev pub seq_of : List ℕ → ℕ
seq_of p = read32 (drop 1 p)

abbrev pub set_seq : ℕ → List ℕ → List ℕ
set_seq seq p = take 1 p ++ le32 seq ++ drop 5 p

-- `type == PKT_END || type == PKT_SINGLE`
abbrev pub ends_frame : List ℕ → Bool
ends_frame p = get_or p 0 0 == pkt_end || get_or p 0 0 == pkt_single

unfoldable pub contents : List (List ℕ) → List ℕ
contents [] = []
contents (f ∷ fs) = drop 5 f ++ contents fs

-- The list of fragments in one buffer. Where 32 bits cannot hold the length, `bufcpy` fails.
unfoldable pub assembled : List (List ℕ) → Option (List ℕ)
assembled fs = if ltb (length (contents fs)) u32_mod then some (contents fs) else none

-- A packet that is next in order.
unfoldable pub append_packet : List (List ℕ) → List ℕ → Option (List (List ℕ) × List Effect)
append_packet list p =
    if ends_frame p
    then (assembled (list ++ (p ∷ [])) >>= λ d. some ([], packet d ∷ []))
    else some (list ++ (p ∷ []), [])

-- When the packet was last sent; outside the vector of times, `none`.
unfoldable pub last_transmit : Transmit → Option ℕ
last_transmit t = get_elem? t.transmits (seq_rt (seq_of t.packet))

unfoldable pub deadline : ℕ → List Transmit → Option (Option ℕ)
deadline delta [] = some none
deadline delta (t ∷ q) = last_transmit t >>= λ sent. some (some (sent + delta))

-- The loop of the ACK case; each packet that is taken off adds its time of flight.
unfoldable pub acknowledge :
    (E : Estimator) → ℕ → ℕ → List Transmit → E.Ping → List Transmit × E.Ping
acknowledge E now seq [] ping = ([], ping)
acknowledge E now seq (t ∷ q) ping =
    let hit = seq_num (seq_of t.packet) == seq_num seq && ltb (seq_rt seq) (length t.transmits) in
    let rest =
      acknowledge E now seq q
        (if hit then E.observe (now - get_or t.transmits (seq_rt seq) 0) ping else ping) in
    if hit then rest else (t ∷ rest.0, rest.1)

unfoldable pub send_pong : List ℕ → Effect
send_pong ping_packet = datagram (mgmt_pong ∷ drop 1 ping_packet)

abbrev pub is_data : ℕ → Bool
is_data type = type == pkt_mid || type == pkt_start || type == pkt_end || type == pkt_single

module _ {E : Estimator} where
  -- Each round takes a packet off the map, so its size and one is enough fuel.
  unfoldable pub reassemble_loop : ℕ → State E → Result E
  reassemble_loop zero s = none
  reassemble_loop (suc fuel) s = elim (lookup s.rx_seq s.receive_map) [
    | none ↦ some (s, [])
    | some p ↦ append_packet s.reassemble_list p >>= λ r.
        reassemble_loop fuel (record s {
          receive_map = erase s.rx_seq s.receive_map;
          reassemble_list = r.0;
          rx_seq = add32 s.rx_seq seq_rt_cnt;
        })
        >>= λ t. some (t.0, r.1 ++ t.1)
  ]

  unfoldable pub try_reassemble : State E → Result E
  try_reassemble s = reassemble_loop (suc (length s.receive_map)) s

  unfoldable pub next_retransmit_delta : Settings → State E → ℕ
  next_retransmit_delta c s = min (max c.min_retransmit (E.estimate s.ping)) 500000

  unfoldable pub reset_retransmit_timer : Settings → State E → Option (State E)
  reset_retransmit_timer c s = deadline (next_retransmit_delta c s) s.transmit_queue >>= λ d.
      some (record s { retransmit_timer = d })

  unfoldable pub reset_pong_timeout_timer : Settings → State E → State E
  reset_pong_timeout_timer c s = record s {
    pong_timeout_timer = some (s.last_pong_in + c.max_pong);
  }

  unfoldable pub on_ack : Settings → State E → ℕ → List ℕ → Result E
  on_ack c s now view =
      if length view == 5
      then (let r = acknowledge E now (seq_of view) s.transmit_queue s.ping in
          reset_retransmit_timer c (record s { transmit_queue = r.0; ping = r.1 }) >>= λ s'.
          some (s', []))
      else some (s, close_socket ∷ [])

  -- `int32_t advance = seq - _rx_seq; if (advance >= 0)`
  unfoldable pub on_data : State E → List ℕ → Result E
  on_data s view =
      if ltb (length view) 5
      then some (s, close_socket ∷ [])
      else (let ack = datagram (pkt_ack ∷ le32 (seq_of view)) in
          if ltb (sub32 (seq_of view) s.rx_seq) (2 ^ 31)
          then (try_reassemble (record s { receive_map = insert (seq_of view) view s.receive_map })
              >>= λ r. some (r.0, ack ∷ r.1))
          else some (s, ack ∷ []))

  -- The switch on the type of a datagram; `now` is the time of the call.
  unfoldable pub dispatch : Settings → State E → ℕ → ℕ → List ℕ → Result E
  dispatch c s now type view =
      if type == mgmt_hello
      then some (s, [])
      else if type == mgmt_ping
      then some (s, (if length view == 65 then send_pong view else invalid_ping) ∷ [])
      else if type == mgmt_pong
      then some (reset_pong_timeout_timer c (record s { last_pong_in = now }), [])
      else if type == pkt_ack
      then on_ack c s now view
      else if is_data type
      then on_data s view
      else if type == udp_pipe
      then some (s, raw view ∷ [])
      else some (s, [])

  unfoldable pub on_receive : Settings → State E → ℕ → List ℕ → Result E
  on_receive c s now [] = some (s, close_socket ∷ [])
  on_receive c s now (type ∷ rest) = dispatch c s now type (type ∷ rest)
