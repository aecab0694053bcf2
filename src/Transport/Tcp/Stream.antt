-- ===== src/Transport/Tcp/Stream.antt =====
-- Packets come out of `on_receive` as they were sent, however the stream between is cut.
use natbuster.Prelude.{
  ℕ, ◌+◌, ◌≤◌, ◌<◌, ◌≡◌, refl, ap, sym, ◌∙◌, true, some, inl, inr, List, [], ◌∷◌, ◌++◌, arith, ltb,
  length, take, drop, u32_mod, length-append, length-drop, Bool-cases, take-append_le,
  drop-append_le, take-append_at, drop-append_at, append_assoc, append-nil, add32,
}
use natbuster.Prelude.Bytes.{le32, length-le32, read32, read32-le32}
use natbuster.Transport.Tcp.{
  State, Event, packet, raw, Round, stop, round, dispatch, deliver, send, send_raw, wrap,
  pkt_normal, pkt_raw, max_packet_size,
}
use natbuster.Transport.Tcp.Buffer.{stream, IsValid, peek_from_lem, read_from_lem, read_from_short}

-- A call of `send` or of `sendRaw` by the peer.
pub data Call : Type 0 where
  send_call : List ℕ → Call
  send_raw_call : List ℕ → Call

abbrev pub payload : Call → List ℕ
payload (send_call d) = d
payload (send_raw_call d) = d

abbrev pub encode : Call → List ℕ
encode (send_call d) = send d
encode (send_raw_call d) = send_raw d

abbrev pub event_of : Call → Event
event_of (send_call d) = packet d
event_of (send_raw_call d) = raw d

abbrev pub wire : List Call → List ℕ
wire [] = []
wire (m ∷ ms) = encode m ++ wire ms

-- Every payload is below the size that the receiver takes.
abbrev pub AllFit : List Call → Type 0
AllFit [] = Unit {0}
AllFit (m ∷ ms) = (length (payload m) < max_packet_size) × AllFit ms

abbrev type_of : Call → ℕ
type_of (send_call d) = pkt_normal
type_of (send_raw_call d) = pkt_raw

encode-wrap : (m : Call) → encode m ≡ wrap (type_of m) (payload m)
unfolding send send_raw
encode-wrap (send_call d) = refl
encode-wrap (send_raw_call d) = refl

pub length-encode : (m : Call) → length (encode m) ≡ 5 + length (payload m)
unfolding wrap
length-encode m = rw (encode-wrap m) (
    omega (
      arith,
      length-append (le32 (length (payload m))) (payload m),
      length-le32 (length (payload m)),
    ))

drop-wrap : (t : ℕ) (d : List ℕ) → drop 5 (wrap t d) ≡ d
unfolding wrap le32
drop-wrap t d = refl

-- What is there is too short for the next packet.
abbrev pub IsShort : State → List Call → Type 0
IsShort s [] = stream s.frags ≡ []
IsShort s (m ∷ ms) = length (stream s.frags) < length (encode m)

module _ (s : State) (v : IsValid s) (m : Call) (rest more : List ℕ)
    (fits : length (payload m) < max_packet_size)
    (e : stream s.frags ++ more ≡ encode m ++ rest) where
  abbrev header : List ℕ
  header = take 5 (stream s.frags)

  header_lem : 5 ≤ length (stream s.frags) → header ≡ type_of m ∷ le32 (length (payload m))
  unfolding wrap
  header_lem h =
      let w : encode m ++ rest ≡ (type_of m ∷ le32 (length (payload m))) ++ (payload m ++ rest) =
        ap (λ k. k ++ rest) (encode-wrap m)
        ∙ append_assoc (type_of m ∷ le32 (length (payload m))) (payload m) rest in
      sym (take-append_le 5 (stream s.frags) more h)
      ∙ ap (take 5) (e ∙ w)
      ∙ take-append_at 5 (type_of m ∷ le32 (length (payload m))) (payload m ++ rest)
          (omega (arith, length-le32 (length (payload m))))

  -- The packet is read out, and the round goes on.
  deliver_lem :
      (f : List ℕ → Event)
      → length (encode m) ≤ length (stream s.frags)
      → (s' : State) × (deliver f s (length (payload m))
          ≡ some (record { state = s'; event = f (payload m) ∷ []; again = true }))
        × IsValid s'
        × (stream s'.frags ++ more ≡ rest)
        × (length (stream s'.frags) < length (stream s.frags))
  unfolding deliver
  deliver_lem f h =
      let n : ℕ = 5 + length (payload m) in
      let ln = length-encode m in
      let (out, r, p) = read_from_lem s n v (omega (arith, ln)) in
      let a : add32 5 (length (payload m)) ≡ n = omega arith in
      let got : out.0 ≡ encode m =
        p.bytes
        ∙ sym (take-append_le n (stream s.frags) more (omega (arith, ln)))
        ∙ ap (take n) e
        ∙ take-append_at n (encode m) rest (omega (arith, ln)) in
      let body : drop 5 out.0 ≡ payload m =
        ap (drop 5) (got ∙ encode-wrap m) ∙ drop-wrap (type_of m) (payload m) in
      (
        out.1,
        ground (arith, r, a, body),
        p.valid,
        ap (λ k. k ++ more) p.left
            ∙ sym (drop-append_le n (stream s.frags) more (omega (arith, ln)))
            ∙ ap (drop n) e
            ∙ drop-append_at n (encode m) rest (omega (arith, ln)),
        omega (arith, ap length p.left, length-drop n (stream s.frags), ln),
      )

  deliver_short :
      (f : List ℕ → Event)
      → length (stream s.frags) < length (encode m)
      → deliver f s (length (payload m)) ≡ some (stop s [])
  unfolding deliver
  deliver_short f h =
      let short = read_from_short s (5 + length (payload m)) v (omega (arith, length-encode m)) in
      let a : add32 5 (length (payload m)) ≡ 5 + length (payload m) = omega arith in
      ground (arith, short, a)

-- A round delivers the next packet if all of it is there, and waits if not.
pub data RoundResult (s : State) (more : List ℕ) : List Call → Round → Type 0 where
  waits : (ms : List Call) → IsShort s ms → RoundResult s more ms (stop s [])
  delivers :
      (m : Call) (ms : List Call) (s' : State)
      → IsValid s'
      → stream s'.frags ++ more ≡ wire ms
      → length (stream s'.frags) < length (stream s.frags)
      → RoundResult s more (m ∷ ms) (record { state = s'; event = event_of m ∷ []; again = true })

pub round_header :
    (s : State)
    → IsValid s
    → (t n : ℕ) → 5 ≤ length (stream s.frags)
    → n < u32_mod
    → take 5 (stream s.frags) ≡ t ∷ le32 n
    → round s ≡ dispatch s t n
unfolding round
round_header s v t n h w e =
    let len : read32 (drop 1 (t ∷ le32 n)) ≡ n =
      ap read32 (sym (append-nil (le32 n))) ∙ read32-le32 n [] w in
    rw (peek_from_lem s 5 v) (ground (arith, e, len))

pub round_short : (s : State) → IsValid s → length (stream s.frags) < 5 → round s ≡ some (stop s [])
unfolding round
round_short s v h = rw (peek_from_lem s 5 v) (ground arith)

dispatch-payload :
    (s : State) (m : Call)
    → length (payload m) < max_packet_size
    → dispatch s (type_of m) (length (payload m))
      ≡ deliver
          (λ d. elim m [ send_call _ ↦ packet d | send_raw_call _ ↦ raw d ])
          s
          (length (payload m))
unfolding dispatch
dispatch-payload s (send_call d) h = ground arith
dispatch-payload s (send_raw_call d) h = ground arith

abbrev callback_of : Call → List ℕ → Event
callback_of m = λ d. elim m [ send_call _ ↦ packet d | send_raw_call _ ↦ raw d ]

callback_of-payload : (m : Call) → callback_of m (payload m) ≡ event_of m
callback_of-payload (send_call d) = refl
callback_of-payload (send_raw_call d) = refl

pub round_lem :
    (s : State) (ms : List Call) (more : List ℕ)
    → IsValid s
    → AllFit ms
    → stream s.frags ++ more ≡ wire ms
    → (r : Round) × (round s ≡ some r) × RoundResult s more ms r
round_lem s [] more v fit e =
    let z : length (stream s.frags) ≡ 0 =
      omega (arith, ap length e, length-append (stream s.frags) more) in
    (stop s [], round_short s v (omega (arith, z)), waits [] (ground (arith, z)))
round_lem s (m ∷ ms) more v fit e = elim (Bool-cases (ltb (length (stream s.frags)) 5)) [
  | inl short ↦ (
    stop s [],
    round_short s v (ground (arith, short)),
    waits (m ∷ ms) (ground (arith, short, length-encode m)),
  )
  | inr enough ↦
      let h : 5 ≤ length (stream s.frags) = ground (arith, enough) in
      let hd =
        round_header s v (type_of m) (length (payload m)) h (omega (arith, fit))
          (header_lem s v m (wire ms) more fit.0 e h) in
      let disp = dispatch-payload s m fit.0 in
      elim (Bool-cases (ltb (length (stream s.frags)) (length (encode m)))) [
        | inl short ↦ (
          stop s [],
          hd
              ∙ disp
              ∙ deliver_short s v m (wire ms) more fit.0 e (callback_of m) (ground (arith, short)),
          waits (m ∷ ms) (ground (arith, short)),
        )
        | inr full ↦
            let (s', run, v', e', l) =
              deliver_lem s v m (wire ms) more fit.0 e (callback_of m) (ground (arith, full)) in
            (
              record { state = s'; event = event_of m ∷ []; again = true },
              hd
                  ∙ disp
                  ∙ run
                  ∙ ap (λ k. some (record { state = s'; event = k ∷ []; again = true }))
                      (callback_of-payload m),
              delivers m ms s' v' e' l,
            )
      ]
]
