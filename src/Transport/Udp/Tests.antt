-- ===== src/Transport/Udp/Tests.antt =====
-- The theorems about common/transport/opt_udp.cpp, applied to two packets in three frames.
use natbuster.Prelude.{
  ℕ, zero, suc, ◌<◌, ◌≡◌, refl, Option, none, some, List, [], ◌∷◌, ◌++◌, arith, length, map,
}
use natbuster.Prelude.Bytes.{le32, read32}
use natbuster.Prelude.Assoc.{lookup}
use natbuster.Transport.Udp.{
  Effect, datagram, pkt_ack, Estimator, Settings, State, Transmit, init, default_settings, seq_of,
  next_retransmit_delta, reset_retransmit_timer, deadline, last_transmit, on_receive, on_ack,
  acknowledge, seq_rt,
}
use natbuster.Transport.Udp.Send.{
  send, packet_count, next_seq, queue_up, fragment_loop, fragment_type, on_retransmit_timer,
}
use natbuster.Transport.Udp.Sender.{IsValid, init-IsValid, Usable, Sent, send_lem, Timed}
use natbuster.Transport.Udp.Receive.{packets}
use natbuster.Transport.Udp.Delivery.{receive_all, Arrivals, arriving, Complete}
use natbuster.Transport.Udp.EndToEnd.{
  send_all, datagrams, packets_of, AllData, delivered_prefix, delivered_all,
}
use natbuster.Transport.Udp.Due.{Rounds, on_retransmit_timer_lem}
use natbuster.Transport.Udp.Ack.{without, on_ack_lem, retransmit_lost}
use mathlib.Core.List.{Memᴰ}

-- The last time of flight, in place of an average.
abbrev clock : Estimator
clock = record { Ping = ℕ; observe = λ tof ping. tof; estimate = λ ping. ping }

-- Two bytes of content in a frame.
abbrev narrow : Settings
narrow = record { max_mtu = 7; max_pong = 30000000; min_retransmit = 3000 }

narrow-Usable : Usable narrow
narrow-Usable = record { room = omega arith; word = omega arith }

abbrev contents_sent : List (ℕ × List ℕ)
contents_sent = (10, 1 ∷ 2 ∷ 3 ∷ []) ∷ (20, 9 ∷ []) ∷ []

abbrev first : List ℕ
first = 17 ∷ 0 ∷ 0 ∷ 0 ∷ 0 ∷ 1 ∷ 2 ∷ []

abbrev second : List ℕ
second = 18 ∷ 64 ∷ 0 ∷ 0 ∷ 0 ∷ 3 ∷ []

abbrev third : List ℕ
third = 19 ∷ 128 ∷ 0 ∷ 0 ∷ 0 ∷ 9 ∷ []

abbrev on_wire : List Effect
on_wire = datagram first ∷ datagram second ∷ datagram third ∷ []

abbrev sender : State clock
sender = record (init clock 0) {
  transmit_queue =
      record { transmits = 10 ∷ []; packet = first }
      ∷ record { transmits = 10 ∷ []; packet = second }
      ∷ record { transmits = 20 ∷ []; packet = third }
      ∷ [];
  tx_seq = 192;
  retransmit_timer = some 3010;
}

sent : send_all narrow (init clock 0) contents_sent ≡ some (sender, on_wire)
unfolding send_all send packet_count next_seq queue_up fragment_loop fragment_type
    reset_retransmit_timer deadline last_transmit next_retransmit_delta le32 read32
sent = refl

contents_sent-AllData : AllData contents_sent
contents_sent-AllData = (omega arith, omega arith, (omega arith, omega arith, tt))

three_frames : length (datagrams on_wire) ≡ 3
unfolding datagrams
three_frames = refl

-- The last frame comes first, and twice.
abbrev shuffled : Arrivals
shuffled = (30, 2) ∷ (31, 1) ∷ (32, 2) ∷ (33, 0) ∷ []

delivered_prefix_example :
    (s' : State clock) × (es' : List Effect) × (todo : List Effect) × (receive_all default_settings
        (init clock 0)
        (arriving (datagrams on_wire) ((30, 1) ∷ []))
      ≡ some (s', es'))
    × (packets es' ++ todo ≡ packets_of contents_sent)
delivered_prefix_example =
    delivered_prefix narrow default_settings 0 0 contents_sent sender on_wire ((30, 1) ∷ [])
      narrow-Usable contents_sent-AllData sent (omega (arith, three_frames))
      (omega (arith, three_frames), tt)

shuffled-Complete : Complete (length (datagrams on_wire)) shuffled
unfolding datagrams
shuffled-Complete zero h = Memᴰ.tail (Memᴰ.tail (Memᴰ.tail (Memᴰ.head refl)))
shuffled-Complete (suc zero) h = Memᴰ.tail (Memᴰ.head refl)
shuffled-Complete (suc (suc zero)) h = Memᴰ.head refl
shuffled-Complete (suc (suc (suc i))) h = absurd (omega arith)

delivered_all_example :
    (s' : State clock) × (es' : List Effect) × (receive_all default_settings
        (init clock 0)
        (arriving (datagrams on_wire) shuffled)
      ≡ some (s', es'))
    × (packets es' ≡ packets_of contents_sent)
delivered_all_example =
    delivered_all narrow default_settings 0 0 contents_sent sender on_wire shuffled narrow-Usable
      contents_sent-AllData sent (omega (arith, three_frames))
      (
        omega (arith, three_frames),
        (
          omega (arith, three_frames),
          (omega (arith, three_frames), (omega (arith, three_frames), tt)),
        ),
      )
      shuffled-Complete

send_lem_example :
    (s' : State clock) × (ps : List (List ℕ)) × (send narrow (init clock 0) 10 (1 ∷ 2 ∷ 3 ∷ [])
      ≡ some (s', map datagram ps))
    × Sent narrow (init clock 0) 10 (1 ∷ 2 ∷ 3 ∷ []) s' ps
send_lem_example =
    send_lem narrow (init clock 0) 10 (1 ∷ 2 ∷ 3 ∷ []) narrow-Usable init-IsValid (omega arith)
      (omega arith)

sender-IsValid : IsValid sender
unfolding read32
sender-IsValid = record {
  queued = (
    record { sized = omega arith; on_record = omega arith; few = omega arith; word = omega arith },
    (
      record {
        sized = omega arith;
        on_record = omega arith;
        few = omega arith;
        word = omega arith;
      },
      (
        record {
          sized = omega arith;
          on_record = omega arith;
          few = omega arith;
          word = omega arith;
        },
        tt,
      ),
    ),
  );
  aligned = refl;
  word = omega arith;
}

on_retransmit_timer_example :
    (q : List Transmit) × (d : Option ℕ) × (es : List Effect) × (on_retransmit_timer narrow sender
        5000
      ≡ some (record sender { transmit_queue = q; retransmit_timer = d }, es))
    × Rounds 5000 (next_retransmit_delta narrow sender) sender.transmit_queue q es
on_retransmit_timer_example =
    on_retransmit_timer_lem narrow sender 5000 sender-IsValid (omega arith) (omega arith)

abbrev ack_of_second : List ℕ
ack_of_second = 32 ∷ 64 ∷ 0 ∷ 0 ∷ 0 ∷ []

on_ack_example :
    (s' : State clock) × (on_ack narrow sender 50 ack_of_second ≡ some (s', []))
    × (s'.transmit_queue ≡ without (seq_of ack_of_second) sender.transmit_queue)
    × (s'.tx_seq ≡ sender.tx_seq)
    × IsValid s'
on_ack_example = on_ack_lem narrow sender 50 ack_of_second sender-IsValid refl

-- The third frame, sent a second time.
abbrev sent_again : Transmit
sent_again = record { transmits = 20 ∷ 4000 ∷ []; packet = 19 ∷ 129 ∷ 0 ∷ 0 ∷ 0 ∷ 9 ∷ [] }

sent_again-Timed : Timed sent_again
unfolding read32
sent_again-Timed = record {
  sized = omega arith;
  on_record = omega arith;
  few = omega arith;
  word = omega arith;
}

sent_again-rt : 0 < seq_rt (seq_of sent_again.packet)
unfolding read32
sent_again-rt = omega arith

nothing_waits : lookup 0 (init clock 0).receive_map ≡ none
unfolding lookup
nothing_waits = refl

retransmit_lost_example :
    (s' : State clock) × (on_receive narrow (init clock 0) 4010 sent_again.packet
      ≡ some (s', datagram (pkt_ack ∷ le32 (seq_of sent_again.packet)) ∷ []))
    × (s'.rx_seq ≡ 0)
    × (s'.reassemble_list ≡ [])
    × (lookup s'.rx_seq s'.receive_map ≡ none)
    × ((acknowledge clock 4020 (seq_of sent_again.packet) (sent_again ∷ []) 0).0 ≡ [])
retransmit_lost_example =
    retransmit_lost narrow (init clock 0) 4010 4020 sent_again 0 refl nothing_waits sent_again-Timed
      refl sent_again-rt
