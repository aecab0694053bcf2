-- ===== src/Transport/Udp/Sender.antt =====
-- The packets that wait for their ACK in common/transport/opt_udp.cpp, and what `send` adds to them.
use natbuster.Prelude.{
  ℕ, zero, suc, ◌+◌, ◌*◌, ◌-◌, ◌/◌, ◌%◌, ◌≤◌, ◌<◌, ◌≡◌, refl, false, Option, none, some, List, [],
  ◌∷◌, ◌++◌, arith, length, u32_mod, add32, sub32, map, get_elem?-some, ◌==◌,
}
use natbuster.Transport.Udp.{
  datagram, packet, init, Settings, Estimator, State, Transmit, seq_of, seq_rt, last_transmit,
  deadline, contents, next_retransmit_delta, reset_retransmit_timer,
}
use natbuster.Transport.Udp.Send.{packet_count, send, next_seq, queue_up}
use natbuster.Transport.Udp.Frames.{Numbered, in_order}
use natbuster.Transport.Udp.Fragment.{AllShort, fragment_loop_lem}
use native.Mathlib.Omega.{div_any, mod_fact}

-- The time of the last transmission is on record.
pub record Timed (t : Transmit) : Type 0 where
  pub sized : 5 ≤ length t.packet
  pub on_record : seq_rt (seq_of t.packet) < length t.transmits
  pub few : length t.transmits ≤ 64
  pub word : seq_of t.packet < u32_mod

abbrev pub AllTimed : List Transmit → Type 0
AllTimed [] = Unit {0}
AllTimed (t ∷ q) = Timed t × AllTimed q

pub record IsValid {E : Estimator} (s : State E) : Type 0 where
  pub queued : AllTimed s.transmit_queue
  pub aligned : s.tx_seq % 64 ≡ 0
  pub word : s.tx_seq < u32_mod

pub init-IsValid : {E : Estimator} {ping : E.Ping} → IsValid (init E ping)
init-IsValid = record { queued = tt; aligned = refl; word = omega arith }

pub record Usable (c : Settings) : Type 0 where
  pub room : 6 ≤ c.max_mtu
  pub word : c.max_mtu < 65536

pub AllTimed-append : (q r : List Transmit) → AllTimed q → AllTimed r → AllTimed (q ++ r)
AllTimed-append [] r v w = w
AllTimed-append (t ∷ q) r v w = (v.0, AllTimed-append q r v.1 w)

pub last_transmit-some : (t : Transmit) → Timed t → (n : ℕ) × (last_transmit t ≡ some n)
unfolding last_transmit
last_transmit-some t v = get_elem?-some (seq_rt (seq_of t.packet)) t.transmits v.on_record

deadline-some :
    (delta : ℕ) (q : List Transmit) → AllTimed q → (d : Option ℕ) × (deadline delta q ≡ some d)
unfolding deadline
deadline-some delta [] v = (none, refl)
deadline-some delta (t ∷ q) v =
    let (n, e) = last_transmit-some t v.0 in (some (n + delta), rw e refl)

new_transmits : ℕ → List (List ℕ) → List Transmit
new_transmits now ps = map (λ p. record { transmits = now ∷ []; packet = p }) ps

new_transmits-AllTimed :
    (now seq : ℕ) (ps : List (List ℕ))
    → seq % 64 ≡ 0
    → seq < u32_mod
    → Numbered seq ps
    → AllTimed (new_transmits now ps)
unfolding new_transmits
new_transmits-AllTimed now seq [] a w f = tt
new_transmits-AllTimed now seq (p ∷ ps) a w f = (
  record {
    sized = f.0.sized;
    on_record = omega (arith, f.0.numbered);
    few = omega arith;
    word = omega (arith, f.0.numbered);
  },
  new_transmits-AllTimed now (add32 seq 64) ps (omega arith) (omega arith) f.1,
)

cover : (d m : ℕ) → 0 < d → 0 < m → ((d - 1) / m + 1 ≤ d) × (d ≤ ((d - 1) / m + 1) * m)
cover d zero h k = absurd (omega arith)
cover d (suc j) h k =
    let q = (d - 1) / suc j in
    let r = (d - 1) % suc j in
    let e : suc j * q + r ≡ d - 1 = div_any (d - 1) (suc j) in
    let low : r < suc j = mod_fact (d - 1) j in
    let s : suc j * q ≡ j * q + q = grind arith in
    let p : (q + 1) * suc j ≡ suc j * q + suc j = grind arith in
    (omega (arith, e, s), omega (arith, e, p))

pub packet_count_lem :
    (c : Settings) (view : List ℕ)
    → Usable c
    → 0 < length view
    → length view < u32_mod
    → (n : ℕ) × (packet_count c view ≡ some n)
      × (0 < n)
      × (n ≤ length view)
      × (length view ≤ n * (c.max_mtu - 5))
unfolding packet_count
packet_count_lem c view u h w =
    let m = c.max_mtu - 5 in
    let e : sub32 c.max_mtu 5 ≡ m = omega (arith, u) in
    let l : sub32 (length view) 1 ≡ length view - 1 = omega arith in
    let (few, fits) = cover (length view) m h (omega (arith, u)) in
    let n : add32 ((length view - 1) / m) 1 ≡ (length view - 1) / m + 1 = omega arith in
    let z : (m == 0) ≡ false = ground (arith, u.room) in
    ((length view - 1) / m + 1, rw (e, l, z, n) refl, omega arith, few, fits)

-- What `send` leaves: the frames stand at the end of the queue, and carry the numbers that `next_seq`
-- has given out, no other.
pub record Sent {E : Estimator} (c : Settings) (s : State E) (now : ℕ) (view : List ℕ)
    (s' : State E) (ps : List (List ℕ)) : Type 0 where
  pub numbered : Numbered s.tx_seq ps
  pub short : AllShort (c.max_mtu - 5) ps
  pub delivered : in_order [] ps ≡ some ([], packet view ∷ [])
  pub next : s'.tx_seq ≡ (s.tx_seq + 64 * length ps) % u32_mod
  pub queued :
      s'.transmit_queue
      ≡ s.transmit_queue ++ map (λ p. record { transmits = now ∷ []; packet = p }) ps
  pub kept : s'.rx_seq ≡ s.rx_seq
  pub valid : IsValid s'

module _ {E : Estimator} where
  pub reset_retransmit_timer-some :
      (c : Settings) (s : State E)
      → AllTimed s.transmit_queue
      → (d : Option ℕ) × (reset_retransmit_timer c s ≡ some (record s { retransmit_timer = d }))
  unfolding reset_retransmit_timer
  reset_retransmit_timer-some c s v =
      let (d, e) = deadline-some (next_retransmit_delta c s) s.transmit_queue v in (d, rw e refl)

  -- A packet that is not empty goes out in frames of at most the MTU, numbered from `_tx_seq` on, from
  -- which an ordered receiver makes the packet again.
  pub send_lem :
      (c : Settings) (s : State E) (now : ℕ) (view : List ℕ)
      → Usable c
      → IsValid s
      → 0 < length view
      → length view < u32_mod
      → (s' : State E) × (ps : List (List ℕ)) × (send c s now view ≡ some (s', map datagram ps))
        × Sent c s now view s' ps
  unfolding send queue_up next_seq contents new_transmits
  send_lem c s now view u v h w =
      let (n, count, pos, few, fits) = packet_count_lem c view u h w in
      let (ps, run, r) =
        fragment_loop_lem (suc (length view)) s.tx_seq n 0 (c.max_mtu - 5) [] view (omega arith) pos
          few fits v.word w in
      let s1 = queue_up (next_seq s n).1 now ps in
      let queue =
        AllTimed-append s.transmit_queue (new_transmits now ps) v.queued
          (new_transmits-AllTimed now s.tx_seq ps v.aligned v.word r.numbered) in
      let (d, reset) = reset_retransmit_timer-some c s1 queue in
      (
        record s1 { retransmit_timer = d },
        ps,
        rw (count, run, reset) refl,
        record {
          numbered = r.numbered;
          short = r.short;
          delivered = r.delivered;
          next = omega (arith, r.count);
          queued = refl;
          kept = refl;
          valid = record { queued = queue; aligned = omega (arith, v.aligned); word = omega arith };
        },
      )
