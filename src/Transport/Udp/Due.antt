-- ===== src/Transport/Udp/Due.antt =====
-- The loop of `on_retransmit_timer` (common/transport/opt_udp.cpp): it ends, and sends what is due.
use natbuster.Prelude.{
  ℕ, zero, suc, ◌+◌, ◌≤◌, ◌<◌, ◌≡◌, inl, inr, refl, ap, sym, ◌∙◌, false, Option, some, List, [],
  ◌∷◌, ◌++◌, map, arith, length, length-append, Bool-cases, ltb, append-nil, append_assoc, ltb→lt,
  subst,
}
use natbuster.Transport.Udp.{
  Effect, datagram, Estimator, Settings, State, Transmit, seq_of, seq_rt, last_transmit,
  next_retransmit_delta, reset_retransmit_timer,
}
use natbuster.Transport.Udp.Send.{retransmit, retransmit_loop, is_empty, on_retransmit_timer}
use natbuster.Transport.Udp.Sender.{
  AllTimed, AllTimed-append, IsValid, last_transmit-some, reset_retransmit_timer-some,
}
use natbuster.Transport.Udp.Retransmit.{Resent, retransmit_lem}

-- The last transmission is `delta` or more ago, and it is not.
abbrev pub IsDue : ℕ → ℕ → Transmit → Type 0
IsDue now delta t = (sent : ℕ) × (last_transmit t ≡ some sent) × (sent + delta ≤ now)

abbrev pub AllDue : ℕ → ℕ → List Transmit → Type 0
AllDue now delta [] = Unit {0}
AllDue now delta (t ∷ q) = IsDue now delta t × AllDue now delta q

abbrev pub FrontWaits : ℕ → ℕ → List Transmit → Type 0
FrontWaits now delta [] = ⊥
FrontWaits now delta (t ∷ q) = (sent : ℕ) × (last_transmit t ≡ some sent) × (now < sent + delta)

abbrev pub AllResent : ℕ → List Transmit → List Transmit → Type 0
AllResent now [] [] = Unit {0}
AllResent now (t ∷ q) (t' ∷ q') = Resent now t t' × AllResent now q q'
AllResent now [] (_ ∷ _) = ⊥
AllResent now (_ ∷ _) [] = ⊥

abbrev AllFresh : ℕ → List Transmit → Type 0
AllFresh now [] = Unit {0}
AllFresh now (t ∷ q) = (last_transmit t ≡ some now) × AllFresh now q

abbrev pub datagrams_of : List Transmit → List Effect
datagrams_of q = map (λ t. datagram t.packet) q

-- The frames at the front that are due go to the back, sent again; the loop ends at one that waits.
pub record Rounds (now delta : ℕ) (q q' : List Transmit) (es : List Effect) : Type 0 where
  pub old : List Transmit
  pub rest : List Transmit
  pub new : List Transmit
  pub split : q ≡ old ++ rest
  pub due : AllDue now delta old
  pub resent : AllResent now old new
  pub final : q' ≡ rest ++ new
  pub sent : es ≡ datagrams_of new
  pub stops : FrontWaits now delta q'
  pub timed : AllTimed q'

loop_stops :
    (fuel now delta sent : ℕ) (t : Transmit) (q : List Transmit)
    → last_transmit t ≡ some sent
    → now < sent + delta
    → retransmit_loop (suc fuel) now delta (t ∷ q) ≡ some (t ∷ q, [])
unfolding retransmit_loop
loop_stops fuel now delta sent t q e h = ground (arith, e)

loop_goes_on :
    (fuel now delta sent : ℕ) (t t' : Transmit) (q : List Transmit)
    (r : List Transmit × List Effect)
    → last_transmit t ≡ some sent
    → sent + delta ≤ now
    → retransmit now t (seq_rt (seq_of t.packet)) ≡ some t'
    → retransmit_loop fuel now delta (q ++ (t' ∷ [])) ≡ some r
    → retransmit_loop (suc fuel) now delta (t ∷ q) ≡ some (r.0, datagram t'.packet ∷ r.1)
unfolding retransmit_loop
loop_goes_on fuel now delta sent t t' q r e h again run = ground (arith, e, again, run)

AllFresh-append :
    (now : ℕ) (q : List Transmit) (t : Transmit)
    → AllFresh now q
    → last_transmit t ≡ some now
    → AllFresh now (q ++ (t ∷ []))
AllFresh-append now [] t f e = (e, tt)
AllFresh-append now (x ∷ q) t f e = (f.0, AllFresh-append now q t f.1 e)

abbrev Outcome : ℕ → ℕ → ℕ → List Transmit → List Transmit → Type 0
Outcome fuel now delta q fresh =
    (old : List Transmit) × (rest : List Transmit) × (new : List Transmit) × (q ≡ old ++ rest)
    × AllDue now delta old
    × AllResent now old new
    × (retransmit_loop fuel now delta (q ++ fresh)
        ≡ some (rest ++ (fresh ++ new), datagrams_of new))
    × FrontWaits now delta (rest ++ (fresh ++ new))
    × AllTimed (rest ++ (fresh ++ new))

loop_lem :
    (fuel now delta : ℕ) (q fresh : List Transmit)
    → length q < fuel
    → 0 < delta
    → AllTimed q
    → AllTimed fresh
    → AllFresh now fresh
    → 0 < length q + length fresh
    → Outcome fuel now delta q fresh
loop_lem zero now delta q fresh f d v w a n = absurd (omega arith)
loop_lem (suc fuel) now delta [] [] f d v w a n = absurd (omega arith)
loop_lem (suc fuel) now delta [] (x ∷ fresh) f d v w a n =
    let e = append-nil (x ∷ fresh) in
    (
      [],
      [],
      [],
      refl,
      tt,
      tt,
      loop_stops fuel now delta now x fresh a.0 (omega arith) ∙ ap (λ k. some (k, [])) (sym e),
      (now, a.0, omega arith),
      subst AllTimed (sym e) w,
    )
loop_lem (suc fuel) now delta (t ∷ q) fresh f d v w a n =
    let (sent, e) = last_transmit-some t v.0 in
    elim (Bool-cases (ltb now (sent + delta))) [
      | inl waits ↦
          let lt = ltb→lt now (sent + delta) waits in
          let nil = ap (λ k. t ∷ (q ++ k)) (sym (append-nil fresh)) in
          (
            [],
            t ∷ q,
            [],
            refl,
            tt,
            tt,
            loop_stops fuel now delta sent t (q ++ fresh) e lt ∙ ap (λ k. some (k, [])) nil,
            (sent, e, lt),
            (v.0, AllTimed-append q (fresh ++ []) v.1 (subst AllTimed (sym (append-nil fresh)) w)),
          )
      | inr due ↦
          let ge : sent + delta ≤ now = ground (arith, due) in
          let (t', again, r) = retransmit_lem now t v.0 in
          let (old, rest, new, split, alldue, resent, run, stops, timed) =
            loop_lem fuel now delta q (fresh ++ (t' ∷ [])) (omega arith) d v.1
              (AllTimed-append fresh (t' ∷ []) w (r.timed, tt))
              (AllFresh-append now fresh t' a r.fresh)
              (omega (arith, length-append fresh (t' ∷ []))) in
          let e' = ap (λ k. rest ++ k) (append_assoc fresh (t' ∷ []) new) in
          (
            t ∷ old,
            rest,
            t' ∷ new,
            ap (λ k. t ∷ k) split,
            ((sent, e, ge), alldue),
            (r, resent),
            loop_goes_on fuel now delta sent t t' (q ++ fresh) _ e ge again
                  (ap (retransmit_loop fuel now delta) (append_assoc q fresh (t' ∷ [])) ∙ run)
                ∙ ap (λ k. some (k, datagrams_of (t' ∷ new))) e',
            subst (FrontWaits now delta) e' stops,
            subst AllTimed e' timed,
          )
    ]

next_retransmit_delta-pos :
    {E : Estimator} (c : Settings) (s : State E)
    → 0 < c.min_retransmit
    → 0 < next_retransmit_delta c s
unfolding next_retransmit_delta
next_retransmit_delta-pos {E} c s h = omega arith

not_empty : (q : List Transmit) → 0 < length q → is_empty q ≡ false
not_empty [] h = absurd (omega arith)
not_empty (t ∷ q) h = refl

timer_run :
    {E : Estimator} (c : Settings) (s s' : State E) (now : ℕ) (r : List Transmit × List Effect)
    → 0 < length s.transmit_queue
    → retransmit_loop
        (suc (length s.transmit_queue))
        now
        (next_retransmit_delta c s)
        s.transmit_queue
      ≡ some r
    → reset_retransmit_timer c (record s { transmit_queue = r.0 }) ≡ some s'
    → on_retransmit_timer c s now ≡ some (s', r.1)
unfolding on_retransmit_timer
timer_run c s s' now r h run reset = rw (not_empty s.transmit_queue h, run, reset) refl

-- With a frame in a queue of which each frame has the time of its last transmission, the timer's
-- loop ends. It sends again, with the next re-transmit number, exactly the frames at the front whose
-- delay is over, up to the first that waits, and moves them to the back; nothing else changes but the
-- time of the next call. (The shortest delay is not 0.)
pub on_retransmit_timer_lem :
    {E : Estimator} (c : Settings) (s : State E) (now : ℕ)
    → IsValid s
    → 0 < c.min_retransmit
    → 0 < length s.transmit_queue
    → (q : List Transmit) × (d : Option ℕ) × (es : List Effect) × (on_retransmit_timer c s now
        ≡ some (record s { transmit_queue = q; retransmit_timer = d }, es))
      × Rounds now (next_retransmit_delta c s) s.transmit_queue q es
on_retransmit_timer_lem c s now v h n =
    let delta = next_retransmit_delta c s in
    let (old, rest, new, split, due, resent, run, stops, timed) =
      loop_lem (suc (length s.transmit_queue)) now delta s.transmit_queue [] (omega arith)
        (next_retransmit_delta-pos c s h) v.queued tt tt (omega arith) in
    let s1 = record s { transmit_queue = rest ++ new } in
    let (d, reset) = reset_retransmit_timer-some c s1 timed in
    (
      rest ++ new,
      d,
      datagrams_of new,
      timer_run c s (record s1 { retransmit_timer = d }) now (rest ++ new, datagrams_of new) n
          (ap (retransmit_loop (suc (length s.transmit_queue)) now delta)
              (sym (append-nil s.transmit_queue))
            ∙ run)
          reset,
      record {
        old = old;
        rest = rest;
        new = new;
        split = split;
        due = due;
        resent = resent;
        final = refl;
        sent = refl;
        stops = stops;
        timed = timed;
      },
    )
