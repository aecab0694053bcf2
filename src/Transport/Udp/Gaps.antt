-- ===== src/Transport/Udp/Gaps.antt =====
-- Two calls of common/transport/opt_udp.cpp that the other side does not understand: `sendRaw`, and
-- `send` of an empty packet.
use natbuster.Prelude.{
  ℕ, ◌+◌, ◌*◌, ◌%◌, ◌≡◌, ◌≢◌, refl, some, List, [], ◌∷◌, arith, u32_mod, append-nil, ◌++◌,
}
use natbuster.Transport.Udp.{
  Effect, datagram, raw, udp_pipe, Estimator, Settings, State, default_settings, on_receive,
  dispatch,
}
use natbuster.Transport.Udp.Send.{send, send_raw, packet_count, next_seq, queue_up, fragment_loop}
use natbuster.Transport.Udp.Sender.{AllTimed, IsValid, reset_retransmit_timer-some}

abbrev pub bytes_of : Effect → List ℕ
bytes_of (datagram p) = p
bytes_of _ = []

-- What `sendRaw` sends comes out as a raw packet with the byte of the header still in front.
pub on_receive-send_raw :
    {E : Estimator} (c : Settings) (s : State E) (now : ℕ) (view : List ℕ)
    → on_receive c s now (bytes_of (send_raw view)) ≡ some (s, raw (udp_pipe ∷ view) ∷ [])
unfolding on_receive dispatch send_raw
on_receive-send_raw c s now view = refl

count_empty : packet_count default_settings [] ≡ some 2964091
unfolding packet_count
count_empty = refl

-- An empty packet sends nothing, and yet uses up 2964091 numbers, which no frame will ever carry: a
-- receiver that waits for the first of them hands on nothing any more.
pub send-empty :
    {E : Estimator} (s : State E) (now : ℕ)
    → IsValid s
    → (s' : State E) × (send default_settings s now [] ≡ some (s', []))
      × (s'.tx_seq ≡ (s.tx_seq + 64 * 2964091) % u32_mod)
      × (s'.tx_seq ≢ s.tx_seq)
      × (s'.transmit_queue ≡ s.transmit_queue)
unfolding send next_seq queue_up fragment_loop
send-empty s now v =
    let s1 = (next_seq s 2964091).1 in
    let q : AllTimed (s.transmit_queue ++ []) = rw append-nil v.queued in
    let (d, reset) = reset_retransmit_timer-some default_settings (queue_up s1 now []) q in
    (
      record (queue_up s1 now []) { retransmit_timer = d },
      rw (count_empty, reset) refl,
      omega arith,
      λ e. absurd (omega (arith, e, v.word)),
      append-nil s.transmit_queue,
    )
