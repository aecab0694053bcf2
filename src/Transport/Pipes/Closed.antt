-- ===== src/Transport/Pipes/Closed.antt =====
-- A closed pipe of common/transport/opt_pipes.cpp stays closed, and its callbacks are silent.
use natbuster.Prelude.{
  ℕ, ◌<◌, ◌≡◌, ◌≢◌, inl, inr, refl, ap, sym, ◌∙◌, subst, some, List, [], ◌∷◌, ◌++◌, arith, some_inj,
  Option-cases, Bool-cases, ◌==◌, All-some,
}
use natbuster.Prelude.Assoc.{lookup}
use natbuster.Transport.Pipes.{
  OpenState, opened, closed, Pipe, State, Effect, pipe_opened, pipe_closed, pipe_packet, pipe_raw,
  all_closed, close, close_in,
}
use natbuster.Transport.Pipes.Recv.{on_close, each_pipe}
use natbuster.Transport.Pipes.Invariant.{
  Moves, stays, asks, is_answered, accepts, closes, IsValid, Evolves, At, Gone,
}
use natbuster.Transport.Pipes.Methods.{EffectOk, AllOk, StepOk}
use natbuster.Transport.Pipes.Steps.{
  Op, step, step-StepOk, Room, Run, begin, then_does, Run-IsValid,
}
use natbuster.Transport.Pipes.Calls.{each_some, each_none}
use mathlib.Core.List.{Memᴰ}
use mathlib.Core.List.Memᴰ

-- The reference was given out, and its pipe is closed or released.
pub record Dead (s : State) (r : ℕ) : Type 0 where
  pub given : r < s.next_ref
  pub gone : Gone s r

-- Not a callback of that pipe.
abbrev pub Silent : ℕ → Effect → Type 0
Silent r (pipe_packet q _) = q ≢ r
Silent r (pipe_raw q _) = q ≢ r
Silent r (pipe_opened q) = q ≢ r
Silent r (pipe_closed q) = q ≢ r
Silent r _ = Unit {0}

abbrev pub AllSilent : ℕ → List Effect → Type 0
AllSilent r [] = Unit {0}
AllSilent r (e ∷ es) = Silent r e × AllSilent r es

closed_stays : (a b : OpenState) → Moves a b → a ≡ closed → b ≡ closed
closed_stays a b (stays _) h = h
closed_stays a b asks h = cc
closed_stays a b is_answered h = cc
closed_stays a b accepts h = cc
closed_stays a b (closes _) h = refl

Evolves-Dead : (s s' : State) (r : ℕ) → Evolves s s' → Dead s r → Dead s' r
Evolves-Dead s s' r v d = record {
  given = omega (arith, v.refs, d.given);
  gone = λ p e. elim (Option-cases (lookup r s.objects)) [
    | inl n ↦ absurd (omega (arith, v.new r p e n, d.given))
    | inr (o, f) ↦ elim (v.pipe r o f) [
      | inl n ↦ absurd (ground (arith, n, e))
      | inr (p', e', _, m) ↦
          subst (λ k. k.open_state ≡ closed) (some_inj p' p (sym e' ∙ e))
            (closed_stays o.open_state p'.open_state m (d.gone o f))
    ]
  ];
}

At-Dead : (s : State) (r q : ℕ) → Dead s r → At s q opened → q ≢ r
At-Dead s r q d (p, e, h) g =
    let c : p.open_state ≡ closed = d.gone p (ap (λ k. lookup k s.objects) (sym g) ∙ e) in
    absurd (ground (arith, c, h))

EffectOk-Silent : (s s' : State) (r : ℕ) (e : Effect) → Dead s r → EffectOk s s' e → Silent r e
EffectOk-Silent s s' r (pipe_packet q _) d k = At-Dead s r q d k
EffectOk-Silent s s' r (pipe_raw q _) d k = At-Dead s r q d k
EffectOk-Silent s s' r (pipe_opened q) d ((p, e, h), _) = λ g.
    let c : p.open_state ≡ closed = d.gone p (ap (λ k. lookup k s.objects) (sym g) ∙ e) in
    absurd (ground (arith, c, h))
EffectOk-Silent s s' r (pipe_closed q) d ((p, e, h), _) =
    λ g. h (d.gone p (ap (λ k. lookup k s.objects) (sym g) ∙ e))
EffectOk-Silent s s' r _ d k = tt

AllOk-AllSilent :
    (s s' : State) (r : ℕ) (es : List Effect) → Dead s r → AllOk s s' es → AllSilent r es
AllOk-AllSilent s s' r [] d k = tt
AllOk-AllSilent s s' r (e ∷ es) d k =
    (EffectOk-Silent s s' r e d k.0, AllOk-AllSilent s s' r es d k.1)

AllSilent-append :
    (r : ℕ) (es fs : List Effect) → AllSilent r es → AllSilent r fs → AllSilent r (es ++ fs)
AllSilent-append r [] fs a b = b
AllSilent-append r (e ∷ es) fs a b = (a.0, AllSilent-append r es fs a.1 b)

-- A pipe that is closed or released stays so in every run of the calls that change the pipes, and none
-- of its callbacks is called any more.
pub closed_for_good :
    {s s' : State} {es : List Effect} (r : ℕ)
    → IsValid s
    → Dead s r
    → Run s s' es
    → Dead s' r × AllSilent r es
closed_for_good r v d begin = (d, tt)
closed_for_good r v d (then_does op {s1} {es} t run room e) =
    let (d1, quiet) = closed_for_good r v d run in
    let ok = All-some (StepOk s1) (step s1 op) t (step-StepOk s1 op (Run-IsValid v run) room) e in
    (
      Evolves-Dead s1 t.0 r ok.evolves d1,
      AllSilent-append r es t.1 quiet (AllOk-AllSilent s1 t.0 r t.1 d1 ok.effects),
    )

mem-AllOk :
    (s s' : State) (e : Effect) (es : List Effect) → Memᴰ e es → AllOk s s' es → EffectOk s s' e
mem-AllOk s s' e [] m k = absurd (Memᴰ.not-nil m)
mem-AllOk s s' e (x ∷ es) m k = elim (Memᴰ.cases_cons m) [
  | inl h ↦ subst (EffectOk s s') (sym h) k.0
  | inr l ↦ mem-AllOk s s' e es l k.1
]

-- When a call calls the close callback of a pipe, no later one of these calls calls a callback of it.
pub closes_once :
    {s' : State} {es : List Effect} (s : State) (op : Op) (t : State × List Effect) (r : ℕ)
    → IsValid s
    → Room s
    → step s op ≡ some t
    → Memᴰ (pipe_closed r) t.1
    → Run t.0 s' es
    → AllSilent r es
closes_once s op t r v room e m run =
    let ok = All-some (StepOk s) (step s op) t (step-StepOk s op v room) e in
    let ((p, f, _), gone) = mem-AllOk s t.0 (pipe_closed r) t.1 m ok.effects in
    let below = ok.evolves.refs in
    (closed_for_good r ok.valid
      (record { given = omega (arith, v.alive r p f, below); gone = gone }) run).1

each_pipe-mem :
    (objects : List (ℕ × Pipe)) (m : List (ℕ × ℕ)) (id r : ℕ) (p : Pipe)
    → lookup id m ≡ some r
    → lookup r objects ≡ some p
    → Memᴰ (pipe_closed r) (each_pipe pipe_closed objects m)
unfolding lookup
each_pipe-mem objects [] id r p e f = absurd (ground (arith, e))
each_pipe-mem objects ((j, q) ∷ m) id r p e f = elim (Bool-cases (j == id)) [
  | inl h ↦
      let same : q ≡ r = ground (arith, e, h) in
      let now = each_some pipe_closed objects m j r p f in
      subst (λ k. Memᴰ (pipe_closed r) (each_pipe pipe_closed objects ((j, k) ∷ m))) (sym same)
        (subst (Memᴰ (pipe_closed r)) (sym now) (Memᴰ.head refl))
  | inr h ↦
      let e' : lookup id m ≡ some r = ground (arith, e, h) in
      let later = each_pipe-mem objects m id r p e' f in
      elim (Option-cases (lookup q objects)) [
        | inl n ↦ subst (Memᴰ (pipe_closed r)) (sym (each_none pipe_closed objects m j q n)) later
        | inr (o, n) ↦
            subst (Memᴰ (pipe_closed r)) (sym (each_some pipe_closed objects m j q o n))
              (Memᴰ.tail later)
      ]
]

-- When the connection closes, `on_close` calls the close callback of an open pipe and leaves it open: a
-- `close` of the pipe calls it again.
pub on_close-close :
    (s : State) (id r : ℕ) (p : Pipe)
    → lookup id s.pipes ≡ some r
    → lookup r s.objects ≡ some p
    → p.open_state ≡ opened
    → Memᴰ (pipe_closed r) (on_close s).1
      × ((on_close s).0 ≡ s)
      × Memᴰ (pipe_closed r) (close (on_close s).0 r p).1
unfolding on_close close close_in
on_close-close s id r p e f h = (
  Memᴰ.append_left (all_closed ∷ []) (each_pipe-mem s.objects s.pipes id r p e f),
  refl,
  subst (λ k. Memᴰ (pipe_closed r) (close_in k s r p).1) (sym h) (closing s r p),
)
  where
    closing : (s : State) (r : ℕ) (p : Pipe) → Memᴰ (pipe_closed r) (close_in opened s r p).1
    closing s r p = Memᴰ.tail (Memᴰ.head refl)
