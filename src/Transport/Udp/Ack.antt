-- ===== src/Transport/Udp/Ack.antt =====
-- The ACK of common/transport/opt_udp.cpp, at the sender and for a frame that was sent again.
use natbuster.Prelude.{
  ℕ, ◌%◌, ◌<◌, ◌^◌, ◌≡◌, inl, inr, refl, ap, ◌∙◌, Bool, true, ◌&&◌, none, some, List, [], ◌∷◌,
  arith, length, get_or, sub32, Bool-cases, ltb, ltb→lt, ◌==◌, if◌then◌else◌,
}
use natbuster.Prelude.Bytes.{le32}
use natbuster.Prelude.Assoc.{lookup, insert, insert_other}
use natbuster.Transport.Udp.{
  datagram, pkt_ack, Estimator, Settings, State, Transmit, seq_of, seq_rt, seq_num, acknowledge,
  on_ack, on_receive, is_data, try_reassemble,
}
use natbuster.Transport.Udp.Sender.{Timed, AllTimed, IsValid, reset_retransmit_timer-some}
use natbuster.Transport.Udp.Receive.{loop_none}
use natbuster.Transport.Udp.Refine.{on_receive_data, on_data_later, on_data_earlier}

-- An ACK means a frame if it has its number, and a re-transmit number that was used.
abbrev pub means : ℕ → Transmit → Bool
means seq t = seq_num (seq_of t.packet) == seq_num seq && ltb (seq_rt seq) (length t.transmits)

unfoldable pub without : ℕ → List Transmit → List Transmit
without seq [] = []
without seq (t ∷ q) = if means seq t then without seq q else t ∷ without seq q

without_self : (t : Transmit) → Timed t → without (seq_of t.packet) (t ∷ []) ≡ []
unfolding without
without_self t v =
    let hit : means (seq_of t.packet) t ≡ true = ground (arith, v.on_record) in rw hit refl

acknowledge_lem :
    (E : Estimator) (now seq : ℕ) (q : List Transmit) (ping : E.Ping)
    → (acknowledge E now seq q ping).0 ≡ without seq q
unfolding acknowledge without
acknowledge_lem E now seq [] ping = refl
acknowledge_lem E now seq (t ∷ q) ping = elim (Bool-cases (means seq t)) [
  | inl hit ↦ rw hit (acknowledge_lem E now seq q (E.observe _ ping))
  | inr miss ↦ rw miss (ap (λ k. t ∷ k) (acknowledge_lem E now seq q ping))
]

without-AllTimed : (seq : ℕ) (q : List Transmit) → AllTimed q → AllTimed (without seq q)
unfolding without
without-AllTimed seq [] v = tt
without-AllTimed seq (t ∷ q) v = elim (Bool-cases (means seq t)) [
  | inl hit ↦ rw hit (without-AllTimed seq q v.1)
  | inr miss ↦ rw miss (v.0, without-AllTimed seq q v.1)
]

-- An ACK of the right size takes the frames that it means off the queue, and no other; the queue
-- keeps its order, and each frame in it the time of its last transmission.
pub on_ack_lem :
    {E : Estimator} (c : Settings) (s : State E) (now : ℕ) (view : List ℕ)
    → IsValid s
    → length view ≡ 5
    → (s' : State E) × (on_ack c s now view ≡ some (s', []))
      × (s'.transmit_queue ≡ without (seq_of view) s.transmit_queue)
      × (s'.tx_seq ≡ s.tx_seq)
      × IsValid s'
unfolding on_ack
on_ack_lem {E} c s now view v h =
    let r = acknowledge E now (seq_of view) s.transmit_queue s.ping in
    let e = acknowledge_lem E now (seq_of view) s.transmit_queue s.ping in
    let s1 : State E = record s { transmit_queue = r.0; ping = r.1 } in
    let timed : AllTimed r.0 = rw e (without-AllTimed (seq_of view) s.transmit_queue v.queued) in
    let (d, reset) = reset_retransmit_timer-some c s1 timed in
    let size : (length view == 5) ≡ true = ground (arith, h) in
    (
      record s1 { retransmit_timer = d },
      rw (size, reset) refl,
      e,
      refl,
      record { queued = timed; aligned = v.aligned; word = v.word },
    )

-- A frame that comes only with a re-transmit number: the receiver answers with an ACK, hands nothing
-- on and still waits for the same frame; the ACK takes the frame off the sender's queue.
pub retransmit_lost :
    {E : Estimator} (c : Settings) (s : State E) (now now' : ℕ) (t : Transmit) (ping : E.Ping)
    → s.rx_seq % 64 ≡ 0
    → lookup s.rx_seq s.receive_map ≡ none
    → Timed t
    → is_data (get_or t.packet 0 0) ≡ true
    → 0 < seq_rt (seq_of t.packet)
    → (s' : State E) × (on_receive c s now t.packet
        ≡ some (s', datagram (pkt_ack ∷ le32 (seq_of t.packet)) ∷ []))
      × (s'.rx_seq ≡ s.rx_seq)
      × (s'.reassemble_list ≡ s.reassemble_list)
      × (lookup s'.rx_seq s'.receive_map ≡ none)
      × ((acknowledge E now' (seq_of t.packet) (t ∷ []) ping).0 ≡ [])
unfolding try_reassemble
retransmit_lost {E} c s now now' t ping a w v d h =
    let p = t.packet in
    let seq = seq_of p in
    let start = on_receive_data c s now p d in
    let gone = dropped E now' t ping v in
    elim (Bool-cases (ltb (sub32 seq s.rx_seq) (2 ^ 31))) [
      | inl later ↦
          let s1 : State E = record s { receive_map = insert seq p s.receive_map } in
          let stays : lookup s.rx_seq s1.receive_map ≡ none =
            insert_other seq s.rx_seq p s.receive_map (omega (arith, a, h)) ∙ w in
          (
            s1,
            start
                ∙ on_data_later s p seq v.sized refl (ltb→lt _ _ later) (s1, [])
                    (loop_none _ s1 stays),
            refl,
            refl,
            stays,
            gone,
          )
      | inr earlier ↦ (
        s,
        start ∙ on_data_earlier s p seq v.sized refl (ground (arith, earlier)),
        refl,
        refl,
        w,
        gone,
      )
    ]
  where
    dropped :
        (E : Estimator) (now : ℕ) (t : Transmit) (ping : E.Ping)
        → Timed t
        → (acknowledge E now (seq_of t.packet) (t ∷ []) ping).0 ≡ []
    dropped E now t ping v =
        acknowledge_lem E now (seq_of t.packet) (t ∷ []) ping ∙ without_self t v
