-- ===== src/Transport/Udp/Send.antt =====
-- The sending side of `OPTUDP` (common/transport/opt_udp.cpp): fragments, and the timers that send
-- again, ping and give up.
use natbuster.Prelude.{
  ℕ, zero, suc, ◌+◌, ◌-◌, ◌/◌, ◌%◌, Bool, true, false, Option, none, some, List, [], ◌∷◌, ◌++◌, map,
  ltb, leb, ◌==◌, if◌then◌else◌, length, take, drop, add32, sub32, mul32, assert, ◌>>=◌, ◌>>◌, not,
}
use natbuster.Prelude.Bytes.{le32}
use natbuster.Transport.Udp.{
  Effect, datagram, close_socket, Settings, Estimator, State, Result, Transmit, seq_of, set_seq,
  seq_rt, seq_num, seq_rt_cnt, pkt_single, pkt_start, pkt_end, pkt_mid, udp_pipe, mgmt_ping,
  last_transmit, next_retransmit_delta, reset_retransmit_timer, reset_pong_timeout_timer,
}

unfoldable pub fragment_type : ℕ → ℕ → ℕ → ℕ
fragment_type progress packet_data data_left =
    if progress == 0
    then (if packet_data == data_left then pkt_single else pkt_start)
    else (if packet_data == data_left then pkt_end else pkt_mid)

abbrev pub fragment : ℕ → ℕ → List ℕ → List ℕ
fragment type seq payload = type ∷ le32 seq ++ payload

-- The loop of `send`; `rest` is the data after `progress`. A round takes a byte at least, so the
-- length of the data and one is enough fuel. `none` is a division by zero.
unfoldable pub fragment_loop : ℕ → ℕ → ℕ → ℕ → List ℕ → Option (List (List ℕ))
fragment_loop zero seq packets_left progress rest = none
fragment_loop (suc fuel) seq packets_left progress rest =
    let data_left = length rest in
    let packet_data = (data_left - 1) / packets_left + 1 in
    let p = fragment (fragment_type progress packet_data data_left) seq (take packet_data rest) in
    let more =
      fragment_loop fuel (add32 seq seq_rt_cnt) (packets_left - 1) (progress + packet_data)
        (drop packet_data rest) in
    if data_left == 0
    then some []
    else if packets_left == 0
    then none
    else (more >>= λ ps. some (p ∷ ps))

unfoldable pub packet_count : Settings → List ℕ → Option ℕ
packet_count c view =
    assert (not (sub32 c.max_mtu 5 == 0))
    >> some (add32 (sub32 (length view) 1 / sub32 c.max_mtu 5) 1)

unfoldable pub retransmit : ℕ → Transmit → ℕ → Option Transmit
retransmit now t old_rt =
    let new_rt = (old_rt + 1) % seq_rt_cnt in
    let packet = set_seq (seq_num (seq_of t.packet) + new_rt) t.packet in
    if leb (length t.transmits) new_rt
    then (assert (length t.transmits == new_rt)
        >> some (record { transmits = t.transmits ++ (now ∷ []); packet = packet }))
    else some (record {
      transmits = take new_rt t.transmits ++ (now ∷ drop (suc new_rt) t.transmits);
      packet = packet;
    })

-- The loop of `on_retransmit_timer`: the front of the queue, while it is due, goes to the back. A
-- packet that is sent again is not due, so each of the queue does once at most.
unfoldable pub retransmit_loop : ℕ → ℕ → ℕ → List Transmit → Option (List Transmit × List Effect)
retransmit_loop zero now delta q = none
retransmit_loop (suc fuel) now delta [] = none
retransmit_loop (suc fuel) now delta (t ∷ q) = last_transmit t >>= λ sent.
    elim (ltb now (sent + delta)) [
      | true ↦ some (t ∷ q, [])
      | false ↦ retransmit now t (seq_rt (seq_of t.packet)) >>= λ t'.
          retransmit_loop fuel now delta (q ++ (t' ∷ [])) >>= λ r.
          some (r.0, datagram t'.packet ∷ r.1)
    ]

unfoldable pub send_raw : List ℕ → Effect
send_raw view = datagram (udp_pipe ∷ view)

abbrev pub is_empty : List Transmit → Bool
is_empty [] = true
is_empty (_ ∷ _) = false

-- The nonce comes from the random generator.
unfoldable pub send_ping : List ℕ → Effect
send_ping nonce = datagram (mgmt_ping ∷ nonce)

module _ {E : Estimator} where
  unfoldable pub next_seq : State E → ℕ → ℕ × State E
  next_seq s n = (s.tx_seq, record s { tx_seq = add32 s.tx_seq (mul32 seq_rt_cnt n) })

  unfoldable pub queue_up : State E → ℕ → List (List ℕ) → State E
  queue_up s now ps = record s {
    transmit_queue = s.transmit_queue ++ map (λ p. record { transmits = now ∷ []; packet = p }) ps;
  }

  unfoldable pub send : Settings → State E → ℕ → List ℕ → Result E
  send c s now view = packet_count c view >>= λ n.
      let r = next_seq s n in
      fragment_loop (suc (length view)) r.0 n 0 view >>= λ ps.
      reset_retransmit_timer c (queue_up r.1 now ps) >>= λ s'. some (s', map datagram ps)

  unfoldable pub on_retransmit_timer : Settings → State E → ℕ → Result E
  on_retransmit_timer c s now =
      let q = s.transmit_queue in
      (if is_empty q
        then some (q, [])
        else retransmit_loop (suc (length q)) now (next_retransmit_delta c s) q)
      >>= λ r. reset_retransmit_timer c (record s { transmit_queue = r.0 }) >>= λ s'. some (s', r.1)

  unfoldable pub on_pong_timeout_timer : Settings → State E → ℕ → State E × List Effect
  on_pong_timeout_timer c s now = (
    reset_pong_timeout_timer c s,
    if ltb (s.last_pong_in + c.max_pong) now then close_socket ∷ [] else [],
  )
