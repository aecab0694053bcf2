-- ===== src/Transport/Udp/Retransmit.antt =====
-- `on_retransmit_timer` of common/transport/opt_udp.cpp: which frames are sent again.
use natbuster.Prelude.{
  ℕ, suc, ◌+◌, ◌%◌, ◌≤◌, ◌<◌, ◌≡◌, inl, inr, refl, ap, sym, ◌∙◌, true, false, some, List, [], ◌∷◌,
  ◌++◌, arith, length, take, drop, get_elem?, u32_mod, Bool-cases, ltb, leb, ◌==◌, length-append,
  length-take, length-drop, ltb→lt,
}
use natbuster.Prelude.Bytes.{le32, read32-le32}
use natbuster.Transport.Udp.{Transmit, seq_of, set_seq, seq_rt, seq_num, last_transmit}
use natbuster.Transport.Udp.Send.{retransmit}
use natbuster.Transport.Udp.Sender.{Timed}

-- A frame that was sent again, now: the next re-transmit number, and everything else as it was.
pub record Resent (now : ℕ) (t t' : Transmit) : Type 0 where
  pub timed : Timed t'
  pub fresh : last_transmit t' ≡ some now
  pub same_num : seq_num (seq_of t'.packet) ≡ seq_num (seq_of t.packet)
  pub next_rt : seq_rt (seq_of t'.packet) ≡ (seq_rt (seq_of t.packet) + 1) % 64
  pub same_type : take 1 t'.packet ≡ take 1 t.packet
  pub same_content : drop 5 t'.packet ≡ drop 5 t.packet

set_seq_lem :
    (seq : ℕ) (p : List ℕ)
    → 5 ≤ length p
    → seq < u32_mod
    → (seq_of (set_seq seq p) ≡ seq)
      × (take 1 (set_seq seq p) ≡ take 1 p)
      × (drop 5 (set_seq seq p) ≡ drop 5 p)
      × (5 ≤ length (set_seq seq p))
unfolding le32
set_seq_lem seq [] h w = absurd (omega arith)
set_seq_lem seq (x ∷ p) h w = (read32-le32 seq (drop 5 (x ∷ p)) w, refl, refl, omega arith)

get_elem?-append :
    (xs : List ℕ) (y : ℕ) (ys : List ℕ) → get_elem? (xs ++ (y ∷ ys)) (length xs) ≡ some y
get_elem?-append [] y ys = refl
get_elem?-append (x ∷ xs) y ys = get_elem?-append xs y ys

get_elem?_at :
    (n : ℕ) (xs : List ℕ) (y : ℕ) (ys : List ℕ)
    → length xs ≡ n
    → get_elem? (xs ++ (y ∷ ys)) n ≡ some y
get_elem?_at n xs y ys e = rw (sym e) (get_elem?-append xs y ys)

abbrev new_rt : Transmit → ℕ
new_rt t = (seq_rt (seq_of t.packet) + 1) % 64

abbrev new_packet : Transmit → List ℕ
new_packet t = set_seq (seq_num (seq_of t.packet) + new_rt t) t.packet

new_packet-Resent :
    (now : ℕ) (t : Transmit) (ts : List ℕ)
    → Timed t
    → length ts ≤ 64
    → new_rt t < length ts
    → get_elem? ts (new_rt t) ≡ some now
    → Resent now t (record { transmits = ts; packet = new_packet t })
unfolding last_transmit
new_packet-Resent now t ts v few lt g =
    let seq = seq_of t.packet in
    let (s, ty, co, l) =
      set_seq_lem (seq_num seq + new_rt t) t.packet v.sized (omega (arith, v.word)) in
    let rt : seq_rt (seq_of (new_packet t)) ≡ new_rt t = omega (arith, s) in
    record {
      timed = record {
        sized = l;
        on_record = omega (arith, rt, lt);
        few = few;
        word = omega (arith, s, v.word);
      };
      fresh = ap (get_elem? ts) rt ∙ g;
      same_num = omega (arith, s);
      next_rt = rt;
      same_type = ty;
      same_content = co;
    }

retransmit_grows :
    (now : ℕ) (t : Transmit)
    → length t.transmits ≡ new_rt t
    → retransmit now t (seq_rt (seq_of t.packet))
      ≡ some (record { transmits = t.transmits ++ (now ∷ []); packet = new_packet t })
unfolding retransmit
retransmit_grows now t e =
    let le : leb (length t.transmits) (new_rt t) ≡ true = ground (arith, e) in
    let eq : (length t.transmits == new_rt t) ≡ true = ground (arith, e) in rw (le, eq) refl

retransmit_stays :
    (now : ℕ) (t : Transmit)
    → new_rt t < length t.transmits
    → retransmit now t (seq_rt (seq_of t.packet))
      ≡ some (record {
        transmits = take (new_rt t) t.transmits ++ (now ∷ drop (suc (new_rt t)) t.transmits);
        packet = new_packet t;
      })
unfolding retransmit
retransmit_stays now t h =
    let le : leb (length t.transmits) (new_rt t) ≡ false = ground (arith, h) in rw le refl

-- The vector of times grows by one, or the slot of the next number is overwritten.
pub retransmit_lem :
    (now : ℕ) (t : Transmit)
    → Timed t
    → (t' : Transmit) × (retransmit now t (seq_rt (seq_of t.packet)) ≡ some t') × Resent now t t'
retransmit_lem now t v =
    let n = new_rt t in
    let ts = t.transmits in
    elim (Bool-cases (ltb n (length ts))) [
      | inl stays ↦
          let lt : n < length ts = ltb→lt _ _ stays in
          let at : length (take n ts) ≡ n = omega (arith, length-take n ts, lt) in
          let ts' = take n ts ++ (now ∷ drop (suc n) ts) in
          let size : length ts' ≡ length ts = omega (
            arith,
            at,
            lt,
            length-append (take n ts) (now ∷ drop (suc n) ts),
            length-drop (suc n) ts,
          ) in
          (
            record { transmits = ts'; packet = new_packet t },
            retransmit_stays now t lt,
            new_packet-Resent now t ts' v (omega (arith, size, v.few)) (omega (arith, size, lt))
                (get_elem?_at n (take n ts) now (drop (suc n) ts) at),
          )
      | inr grows ↦
          let ge : length ts ≤ n = ground (arith, grows) in
          let eq : length ts ≡ n = omega (arith, ge, v.on_record) in
          let size = length-append ts (now ∷ []) in
          (
            record { transmits = ts ++ (now ∷ []); packet = new_packet t },
            retransmit_grows now t eq,
            new_packet-Resent now t (ts ++ (now ∷ [])) v (omega (arith, size, eq))
                (omega (arith, size, eq)) (get_elem?_at n ts now [] eq),
          )
    ]
