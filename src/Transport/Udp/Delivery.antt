-- ===== src/Transport/Udp/Delivery.antt =====
-- A sender and a receiver of common/transport/opt_udp.cpp with a network between them that loses,
-- repeats and reorders datagrams.
use natbuster.Prelude.{
  ℕ, zero, suc, ◌+◌, ◌*◌, ◌<◌, ◌^◌, ◌≡◌, ◌⊎◌, inl, inr, refl, ap, sym, ◌∙◌, Option, some, List, [],
  ◌∷◌, ◌++◌, arith, length, take, drop, get_elem?, get_or, map, ◌>>=◌, Option-cases, some_inj,
  append_assoc, append-nil, subst, get_elem?-some, take-append-drop, take_all, Bool-cases, ltb,
  ltb→lt,
}
use natbuster.Prelude.Bytes.{le32}
use natbuster.Prelude.Assoc.{lookup}
use natbuster.Transport.Udp.{
  Effect, datagram, Estimator, Settings, State, init, on_receive, pkt_ack,
}
use natbuster.Transport.Udp.Frames.{
  Output, then_in_order, IsFrame, in_order, in_order-append, Numbered, Numbered-get,
}
use natbuster.Transport.Udp.Receive.{packets, packets-append}
use natbuster.Transport.Udp.Refine.{Received, on_receive_frame}
use mathlib.Core.List.{Memᴰ}
use mathlib.Core.List.Memᴰ

-- Datagrams that come one after the other, each at its time.
pub receive_all :
    {E : Estimator} → Settings → State E → List (ℕ × List ℕ) → Option (State E × List Effect)
receive_all c s [] = some (s, [])
receive_all c s ((now, p) ∷ ps) =
    on_receive c s now p >>= λ r. receive_all c r.0 ps >>= λ t. some (t.0, r.1 ++ t.1)

-- What the network does: the time and the place in the stream of each datagram that it delivers.
abbrev pub Arrivals : Type 0
Arrivals = List (ℕ × ℕ)

abbrev pub arriving : List (List ℕ) → Arrivals → List (ℕ × List ℕ)
arriving fs net = map (λ a. (a.0, get_or fs a.1 [])) net

abbrev pub AllBelow : ℕ → Arrivals → Type 0
AllBelow n [] = Unit {0}
AllBelow n (a ∷ net) = (a.1 < n) × AllBelow n net

abbrev pub Complete : ℕ → Arrivals → Type 0
Complete n net = (i : ℕ) → i < n → Memᴰ i (map (λ a. a.1) net)

seen : List ℕ → Arrivals → List ℕ
seen arrived [] = arrived
seen arrived (a ∷ net) = seen (a.1 ∷ arrived) net

seen-mem :
    (i : ℕ) (arrived : List ℕ) (net : Arrivals)
    → Memᴰ i arrived ⊎ Memᴰ i (map (λ a. a.1) net)
    → Memᴰ i (seen arrived net)
unfolding seen
seen-mem i arrived [] (inl m) = m
seen-mem i arrived [] (inr m) = absurd (Memᴰ.not-nil m)
seen-mem i arrived (a ∷ net) (inl m) = seen-mem i (a.1 ∷ arrived) net (inl (Memᴰ.tail m))
seen-mem i arrived (a ∷ net) (inr m) = elim (Memᴰ.cases_cons m) [
  | inl e ↦ seen-mem i (a.1 ∷ arrived) net (inl (Memᴰ.head e))
  | inr l ↦ seen-mem i (a.1 ∷ arrived) net (inr l)
]

get_or-get_elem? :
    (fs : List (List ℕ)) (i : ℕ) → i < length fs → get_elem? fs i ≡ some (get_or fs i [])
get_or-get_elem? [] i h = absurd (omega arith)
get_or-get_elem? (x ∷ fs) zero h = refl
get_or-get_elem? (x ∷ fs) (suc i) h = get_or-get_elem? fs i (omega arith)

module _ {E : Estimator} (c : Settings) (fs : List (List ℕ)) (whole : Output)
    (makes : in_order [] fs ≡ some whole) (small : 64 * length fs < 2 ^ 31)
    (numbered : Numbered 0 fs) where
  Received-init : (ping : E.Ping) → Received fs [] [] (init E ping)
  unfolding in_order lookup
  Received-init ping = record {
    n = 0;
    held = record {
      bound = omega arith;
      next = omega arith;
      done = refl;
      known = λ q p e. absurd (ground (arith, e));
      kept = λ i m. absurd (Memᴰ.not-nil m);
    };
    waits = refl;
  }

  receive_all_lem :
      (net : Arrivals) (s : State E) (arrived : List ℕ) (out : List Effect)
      → AllBelow (length fs) net
      → Received fs arrived out s
      → (s' : State E) × (es : List Effect) × (receive_all c s (arriving fs net) ≡ some (s', es))
        × Received fs (seen arrived net) (out ++ packets es) s'
  unfolding receive_all seen packets
  receive_all_lem [] s arrived out h v = (s, [], refl, rw append-nil v)
  receive_all_lem (a ∷ net) s arrived out h v =
      let g = get_or-get_elem? fs a.1 h.0 in
      let f = Numbered-get 0 a.1 fs (get_or fs a.1 []) (omega (arith, small)) numbered g in
      let z : 0 + a.1 ≡ a.1 = omega arith in
      let (s1, new, run, only, v1) =
        on_receive_frame fs whole makes small c s a.0 a.1 (get_or fs a.1 []) arrived out v g
          (subst (λ k. IsFrame (64 * k) (get_or fs a.1 [])) z f) in
      let (s', es, runs, v') = receive_all_lem net s1 (a.1 ∷ arrived) (out ++ new) h.1 v1 in
      (
        s',
        (datagram (pkt_ack ∷ le32 (64 * a.1)) ∷ new) ++ es,
        rw (run, runs) refl,
        subst (λ o. Received fs (seen (a.1 ∷ arrived) net) o s')
            (append_assoc out new (packets es)
              ∙ ap (λ k. out ++ k) (sym (packets-append new es ∙ ap (λ k. k ++ packets es) only)))
            v',
      )

  -- Whatever comes, the receiver has handed on the first packets of the stream, in order.
  prefix :
      (s : State E) (arrived : List ℕ) (out : List Effect)
      → Received fs arrived out s
      → (todo : List Effect) × (out ++ todo ≡ whole.1)
  prefix s arrived out v =
      let n = v.n in
      let halves =
        sym makes
        ∙ ap (in_order []) (sym (take-append-drop n fs))
        ∙ in_order-append [] (take n fs) (drop n fs)
        ∙ ap (λ o. o >>= then_in_order (drop n fs)) v.held.done in
      elim (Option-cases (in_order s.reassemble_list (drop n fs))) [
        | inl e ↦ absurd (ground (arith, halves, e))
        | inr (t, e) ↦
            let r : Output = (t.0, out ++ t.1) in
            let full : some whole ≡ some r = halves ∙ rw e refl in
            (t.1, sym (ap (λ r. r.1) (some_inj whole r full)))
      ]

  -- When every frame has come, it has handed on all.
  all_out :
      (s : State E) (arrived : List ℕ) (out : List Effect)
      → Received fs arrived out s
      → ((i : ℕ) → i < length fs → Memᴰ i arrived)
      → out ≡ whole.1
  all_out s arrived out v came = elim (Bool-cases (ltb v.n (length fs))) [
    | inl more ↦
        let lt : v.n < length fs = ltb→lt _ _ more in
        let (p, g) = get_elem?-some v.n fs lt in
        elim (v.held.kept v.n (came v.n lt)) [
          | inl bad ↦ absurd (omega arith)
          | inr l ↦
              absurd (ground (arith, v.waits, ap (λ q. lookup q s.receive_map) v.held.next, l, g))
        ]
    | inr all ↦
        let e : take v.n fs ≡ fs = take_all v.n fs (ground (arith, all)) in
        sym (
          ap (λ r. r.1)
            (some_inj whole (s.reassemble_list, out)
              (sym makes ∙ ap (in_order []) (sym e) ∙ v.held.done)))
  ]

  -- From the start, for any behaviour of the network: what is handed on is the start of the stream.
  pub receive_all_prefix :
      (ping : E.Ping) (net : Arrivals)
      → AllBelow (length fs) net
      → (s' : State E) × (es : List Effect) × (todo : List Effect) × (receive_all c
            (init E ping)
            (arriving fs net)
          ≡ some (s', es))
        × (packets es ++ todo ≡ whole.1)
  receive_all_prefix ping net h =
      let (s', es, run, v) = receive_all_lem net (init E ping) [] [] h (Received-init ping) in
      let (todo, e) = prefix s' (seen [] net) (packets es) v in (s', es, todo, run, e)

  pub receive_all-Complete :
      (ping : E.Ping) (net : Arrivals)
      → AllBelow (length fs) net
      → Complete (length fs) net
      → (s' : State E) × (es : List Effect) × (receive_all c (init E ping) (arriving fs net)
          ≡ some (s', es))
        × (packets es ≡ whole.1)
  receive_all-Complete ping net h came =
      let (s', es, run, v) = receive_all_lem net (init E ping) [] [] h (Received-init ping) in
      (
        s',
        es,
        run,
        all_out s' (seen [] net) (packets es) v (λ i l. seen-mem i [] net (inr (came i l))),
      )
