-- ===== src/Transport/Tcp/Delivery.antt =====
-- The loop of `on_receive`, and a sequence of its calls.
use natbuster.Prelude.{
  ℕ, zero, suc, ◌+◌, ◌≤◌, ◌<◌, ◌≡◌, refl, ap, sym, ◌∙◌, true, false, Option, some, List, [], ◌∷◌,
  ◌++◌, map, arith, subst, length, take, u32_mod, length-append, take-append_at, append_assoc,
  append-nil, ◌>>=◌, add32,
}
use natbuster.Prelude.Bytes.{le32, length-le32}
use natbuster.Transport.Tcp.{
  State, Event, Round, stop, init, round, dispatch, receive_loop, on_receive, send, wrap,
  pkt_normal, max_packet_size, get_mtu_normal, closed,
}
use natbuster.Transport.Tcp.Buffer.{stream, IsValid}
use natbuster.Transport.Tcp.Stream.{
  Call, send_call, encode, event_of, wire, AllFit, IsShort, RoundResult, waits, delivers, round_lem,
  round_short, length-encode, round_header,
}

-- What a call of `on_receive` has done with the packets under way: it has delivered some, in
-- order, and holds the start of the others, which is too short for the next.
pub record Progress (ms : List Call) (more : List ℕ) (s' : State) (events : List Event)
    : Type 0 where
  pub done : List Call
  pub todo : List Call
  pub split : ms ≡ done ++ todo
  pub delivered : events ≡ map event_of done
  pub valid : IsValid s'
  pub remaining : stream s'.frags ++ more ≡ wire todo
  pub short : IsShort s' todo

-- With an empty list the loop does what a round would do.
loop_step :
    (fuel total : ℕ) (fs : List (List ℕ))
    → let s : State = record { total_len = total; frags = fs } in
      IsValid s
      → receive_loop (suc fuel) s ≡ (
          round s >>= λ r. elim r.again [
            | true ↦ receive_loop fuel r.state >>= λ t. some (t.0, r.event ++ t.1)
            | false ↦ some (r.state, r.event)
          ])
unfolding receive_loop
loop_step fuel total [] v =
    rw (round_short (record { total_len = total; frags = [] }) v (omega arith))
loop_step fuel total (f ∷ fs) v = refl

abbrev Outcome : (fuel : ℕ) (s : State) (ms : List Call) (more : List ℕ) → Type 0
Outcome fuel s ms more =
    (out : State × List Event) × (receive_loop fuel s ≡ some out) × Progress ms more out.0 out.1

after_round :
    (fuel : ℕ) (s : State) (ms : List Call) (more : List ℕ) (r : Round)
    → ((s' : State) (ms' : List Call)
        → length (stream s'.frags) < fuel
        → IsValid s'
        → AllFit ms'
        → stream s'.frags ++ more ≡ wire ms'
        → Outcome fuel s' ms' more)
    → length (stream s.frags) < suc fuel
    → IsValid s
    → AllFit ms
    → stream s.frags ++ more ≡ wire ms
    → round s ≡ some r
    → RoundResult s more ms r
    → Outcome (suc fuel) s ms more
after_round fuel s ms more r rec h v fit e run (waits _ short) = (
  (s, []),
  loop_step fuel s.total_len s.frags v ∙ rw run,
  record {
    done = [];
    todo = ms;
    split = refl;
    delivered = refl;
    valid = v;
    remaining = e;
    short = short;
  },
)
after_round fuel s ms more r rec h v fit e run (delivers m ms' s' v' e' l) =
    let (out, again, p) = rec s' ms' (omega arith) v' fit.1 e' in
    (
      (out.0, event_of m ∷ out.1),
      loop_step fuel s.total_len s.frags v ∙ rw (run, again),
      record {
        done = m ∷ p.done;
        todo = p.todo;
        split = ap (λ k. m ∷ k) p.split;
        delivered = ap (λ k. event_of m ∷ k) p.delivered;
        valid = p.valid;
        remaining = p.remaining;
        short = p.short;
      },
    )

receive_loop_lem :
    (fuel : ℕ) (s : State) (ms : List Call) (more : List ℕ)
    → length (stream s.frags) < fuel
    → IsValid s
    → AllFit ms
    → stream s.frags ++ more ≡ wire ms
    → Outcome fuel s ms more
receive_loop_lem zero s ms more h v fit e = absurd (omega arith)
receive_loop_lem (suc fuel) s ms more h v fit e =
    let (r, run, res) = round_lem s ms more v fit e in
    after_round fuel s ms more r (λ s' ms'. receive_loop_lem fuel s' ms' more) h v fit e run res

-- The calls of `on_receive` that a cut of the stream makes, with all their events.
unfoldable pub feed : State → List (List ℕ) → Option (State × List Event)
feed s [] = some (s, [])
feed s (c ∷ cs) = on_receive s c >>= λ t. feed t.0 cs >>= λ u. some (u.0, t.1 ++ u.1)

stream-snoc : (fs : List (List ℕ)) (c : List ℕ) → stream (fs ++ (c ∷ [])) ≡ stream fs ++ c
stream-snoc [] c = append-nil c
stream-snoc (f ∷ fs) c = ap (λ k. f ++ k) (stream-snoc fs c) ∙ sym (append_assoc f (stream fs) c)

AllFit-right : (xs ys : List Call) → AllFit (xs ++ ys) → AllFit ys
AllFit-right [] ys h = h
AllFit-right (x ∷ xs) ys h = AllFit-right xs ys h.1

map-done : (xs ys : List Call) → map event_of (xs ++ ys) ≡ map event_of xs ++ map event_of ys
map-done [] ys = refl
map-done (x ∷ xs) ys = ap (λ k. event_of x ∷ k) (map-done xs ys)

length-wire_right : (xs ys : List Call) → length (wire ys) ≤ length (wire (xs ++ ys))
length-wire_right [] ys = omega arith
length-wire_right (x ∷ xs) ys =
    omega (arith, length-append (encode x) (wire (xs ++ ys)), length-wire_right xs ys)

-- One call, on a chunk of a stream of packets.
pub on_receive_lem :
    (s : State) (c : List ℕ) (ms : List Call) (more : List ℕ)
    → IsValid s
    → AllFit ms
    → stream s.frags ++ (c ++ more) ≡ wire ms
    → length (wire ms) < u32_mod
    → (out : State × List Event) × (on_receive s c ≡ some out) × Progress ms more out.0 out.1
unfolding on_receive
on_receive_lem s c ms more v fit e w =
    let l : length (stream s.frags) + (length c + length more) ≡ length (wire ms) =
      omega
        (arith, ap length e, length-append (stream s.frags) (c ++ more), length-append c more) in
    let sn = stream-snoc s.frags c in
    let ls : length (stream (s.frags ++ (c ∷ []))) ≡ length (stream s.frags) + length c =
      omega (arith, ap length sn, length-append (stream s.frags) c) in
    receive_loop_lem (s.total_len + length c + 1)
      (record { total_len = add32 s.total_len (length c); frags = s.frags ++ (c ∷ []) }) ms more
      (omega (arith, ls, v)) (record { counted = omega (arith, ls, l, v); word = omega arith }) fit
      (ap (λ k. k ++ more) sn ∙ append_assoc (stream s.frags) c more ∙ e)

feed_lem :
    (cs : List (List ℕ)) (s : State) (ms : List Call)
    → IsValid s
    → IsShort s ms
    → AllFit ms
    → stream s.frags ++ stream cs ≡ wire ms
    → length (wire ms) < u32_mod
    → (s' : State) × (feed s cs ≡ some (s', map event_of ms)) × (stream s'.frags ≡ [])
unfolding feed
feed_lem [] s [] v short fit e w = (s, refl, short)
feed_lem [] s (m ∷ ms) v short fit e w = absurd (
    omega (
      arith,
      short,
      ap length e,
      length-append (encode m) (wire ms),
      length-append (stream s.frags) [],
    ))
feed_lem (c ∷ cs) s ms v short fit e w =
    let (out, run, p) = on_receive_lem s c ms (stream cs) v fit e w in
    let fit' : AllFit p.todo = AllFit-right p.done p.todo (subst AllFit p.split fit) in
    let shorter : length (wire p.todo) < u32_mod =
      omega (arith, ap (λ k. length (wire k)) p.split, length-wire_right p.done p.todo) in
    let (s', rest, z) = feed_lem cs out.0 p.todo p.valid p.short fit' p.remaining shorter in
    let same : map event_of p.done ++ map event_of p.todo ≡ map event_of ms =
      sym (map-done p.done p.todo) ∙ ap (map event_of) (sym p.split) in
    (
      s',
      ap (λ m. m >>= λ t. feed t.0 cs >>= λ u. some (u.0, t.1 ++ u.1)) run
          ∙ ap (λ m. m >>= λ u. some (u.0, out.1 ++ u.1)) rest
          ∙ ap (λ k. some (s', k ++ map event_of p.todo)) p.delivered
          ∙ ap (λ k. some (s', k)) same,
      z,
    )

-- Whatever calls of `send` and `sendRaw` the peer makes, with payloads below 2^24 bytes and less
-- than 2^32 bytes on the wire, and however the network cuts the stream into chunks, the calls of
-- `on_receive` on the chunks deliver exactly these packets in order and keep no byte back.
pub feed-wire :
    (ms : List Call) (cs : List (List ℕ))
    → AllFit ms
    → length (wire ms) < u32_mod
    → stream cs ≡ wire ms
    → (s : State) × (feed init cs ≡ some (s, map event_of ms)) × (stream s.frags ≡ [])
feed-wire ms cs fit w e = feed_lem cs init ms (omega arith) (empty_short ms) fit e w
  where
    empty_short : (ms : List Call) → IsShort init ms
    empty_short [] = refl
    empty_short (m ∷ ms) = omega (arith, length-encode m)

dispatch_big :
    (s : State) (t n : ℕ) → max_packet_size ≤ n → dispatch s t n ≡ some (stop s (closed ∷ []))
unfolding dispatch
dispatch_big s t n h = ground arith

header_of_send : (d : List ℕ) → take 5 (send d ++ []) ≡ pkt_normal ∷ le32 (length d)
unfolding send wrap
header_of_send d =
    ap (take 5) (append-nil (send d))
    ∙ take-append_at 5 (pkt_normal ∷ le32 (length d)) d (omega (arith, length-le32 (length d)))

-- A payload of `get_mtu_normal` bytes or more, up to 2^32 - 6, is not delivered: the receiver that
-- has all of the packet closes the connection.
pub on_receive-mtu :
    (d : List ℕ)
    → get_mtu_normal ≤ length d
    → length d + 5 < u32_mod
    → (s : State) × (on_receive init (send d) ≡ some (s, closed ∷ []))
unfolding on_receive
on_receive-mtu d h w =
    let ln = length-encode (send_call d) in
    let total : ℕ = add32 0 (length (send d)) in
    let s : State = record { total_len = total; frags = send d ∷ [] } in
    let v : IsValid s = record {
      counted = omega (arith, ln, length-append (send d) []);
      word = omega arith;
    } in
    let first : round s ≡ some (stop s (closed ∷ [])) =
      round_header s v pkt_normal (length d) (omega (arith, ln, length-append (send d) []))
        (omega arith) (header_of_send d)
      ∙ dispatch_big s pkt_normal (length d) h in
    let rounds : 0 + length (send d) + 1 ≡ suc (length (send d)) = omega arith in
    (
      s,
      ap (λ k. receive_loop k s) rounds
          ∙ loop_step (length (send d)) total (send d ∷ []) v
          ∙ rw first refl,
    )
