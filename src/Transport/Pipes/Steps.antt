-- ===== src/Transport/Pipes/Steps.antt =====
-- All calls of common/transport/opt_pipes.cpp that change the pipes, as steps, and what every run of them
-- keeps. `on_error` and `on_close` leave the pipes as they are, so they are no steps.
use natbuster.Prelude.{
  ℕ, ◌+◌, ◌%◌, ◌<◌, ◌≡◌, inl, inr, refl, Bool, true, false, none, some, List, [], ◌++◌, arith,
  Option-cases, u32_mod, add32, ◌>>=◌, All, All-bind, All-some,
}
use natbuster.Prelude.Assoc.{lookup}
use natbuster.Transport.Pipes.{
  unopened, Pipe, State, Effect, Result, init, open_pipe, close, drop_pipe, release, start_client,
  start, on_open_expired,
}
use natbuster.Transport.Pipes.Recv.{is_own, on_packet, on_raw}
use natbuster.Transport.Pipes.Invariant.{IsValid, create-IsValid, create-Evolves}
use natbuster.Transport.Pipes.Live.{Live, IsOpen, Each-map, create-Live}
use natbuster.Transport.Pipes.Methods.{
  StepOk, close-StepOk, drop_pipe-StepOk, release-StepOk, start_client-StepOk, start-StepOk,
  on_open_expired-StepOk,
}
use natbuster.Transport.Pipes.Handlers.{on_packet-StepOk, on_raw-StepOk}

-- What the program, the timers and the other side do to the pipes; a method needs an object.
pub data Op : Type 0 where
  does_open_pipe : Op
  does_start : ℕ → Op
  does_start_client : ℕ → List ℕ → Op
  does_close : ℕ → Op
  does_drop : ℕ → Op
  does_release : ℕ → Op
  expires : ℕ → Op
  packet_comes : List ℕ → Op
  raw_comes : List ℕ → Op

unfoldable pub with_pipe : State → ℕ → (Pipe → State × List Effect) → Result
with_pipe s r method = lookup r s.objects >>= λ p. some (method p)

unfoldable pub step : State → Op → Result
step s does_open_pipe = some ((open_pipe s).0, [])
step s (does_start r) = with_pipe s r (start s r)
step s (does_start_client r content) = with_pipe s r (λ p. start_client s r p content)
step s (does_close r) = with_pipe s r (close s r)
step s (does_drop r) = with_pipe s r (drop_pipe s r)
step s (does_release r) = with_pipe s r (release s r)
step s (expires r) = with_pipe s r (on_open_expired s r)
step s (packet_comes view) = on_packet s view
step s (raw_comes view) = on_raw s view

-- There is a number for one more pipe.
abbrev pub Room : State → Type 0
Room s = s.next_pipe_id + 2 < u32_mod

pub own_fresh : (s : State) → IsValid s → lookup s.next_pipe_id s.pipes ≡ none
own_fresh s v = elim (Option-cases (lookup s.next_pipe_id s.pipes)) [
  | inl e ↦ e
  | inr (r, e) ↦ absurd (omega (arith, v.given s.next_pipe_id r e v.parity))
]

open_pipe-StepOk : (s : State) → IsValid s → Room s → StepOk s ((open_pipe s).0, [])
unfolding open_pipe
open_pipe-StepOk s v room =
    let s1 = record s { next_pipe_id = add32 s.next_pipe_id 2 } in
    let even : (s.next_pipe_id + 2) % u32_mod % 2 ≡ s.next_pipe_id % 2 = omega arith in
    let v1 : IsValid s1 = record {
      alive = v.alive;
      listed = v.listed;
      named = v.named;
      given = λ id r e o. omega (arith, v.given id r e o);
      parity = rw even v.parity;
    } in
    let fresh : lookup s.next_pipe_id s.pipes ≡ none = own_fresh s v in
    let w = create-Evolves s1 v1 s.next_pipe_id unopened in
    record {
      valid = create-IsValid s1 v1 s.next_pipe_id unopened fresh (λ _. omega arith);
      evolves = record { side = w.side; refs = w.refs; new = w.new; pipe = w.pipe };
      effects = tt;
      keeps = λ w.
          create-Live s1 s.next_pipe_id unopened fresh (λ g. cc)
            (Each-map (IsOpen s) (IsOpen s1) s.pipes
              (λ i r h. record { given = h.given; object = h.object }) w);
    }

-- Each of these calls, if it does not fail, keeps the pipes valid, and the map free of closed ones,
-- moves each pipe that it does not release as the states allow, and calls the callbacks of a pipe in
-- their states only.
pub step-StepOk : (s : State) (op : Op) → IsValid s → Room s → All (StepOk s) (step s op)
unfolding step with_pipe
step-StepOk s does_open_pipe v room = open_pipe-StepOk s v room
step-StepOk s (does_start r) v room =
    All-bind (StepOk s) (lookup r s.objects) _ (start-StepOk s v r)
step-StepOk s (does_start_client r content) v room =
    All-bind (StepOk s) (lookup r s.objects) _ (λ p e. start_client-StepOk s v r p e content)
step-StepOk s (does_close r) v room =
    All-bind (StepOk s) (lookup r s.objects) _ (close-StepOk s v r)
step-StepOk s (does_drop r) v room =
    All-bind (StepOk s) (lookup r s.objects) _ (drop_pipe-StepOk s v r)
step-StepOk s (does_release r) v room =
    All-bind (StepOk s) (lookup r s.objects) _ (release-StepOk s v r)
step-StepOk s (expires r) v room =
    All-bind (StepOk s) (lookup r s.objects) _ (on_open_expired-StepOk s v r)
step-StepOk s (packet_comes view) v room = on_packet-StepOk s v view
step-StepOk s (raw_comes view) v room = on_raw-StepOk s v view

-- A run of calls, with what it has done.
pub data Run (s : State) : State → List Effect → Type 0 where
  begin : Run s s []
  then_does :
      (op : Op) {s1 : State} {es : List Effect} (t : State × List Effect)
      → Run s s1 es
      → Room s1
      → step s1 op ≡ some t
      → Run s t.0 (es ++ t.1)

init_parity : (is_client : Bool) → is_own (init is_client) (init is_client).next_pipe_id ≡ true
init_parity true = refl
init_parity false = refl

pub init-IsValid : (is_client : Bool) → IsValid (init is_client)
unfolding lookup
init-IsValid is_client = record {
  alive = λ r p e. absurd (ground (arith, e));
  listed = λ id r e. absurd (ground (arith, e));
  named = λ id r p e. absurd (ground (arith, e));
  given = λ id r e. absurd (ground (arith, e));
  parity = init_parity is_client;
}

pub Run-IsValid : {s s' : State} {es : List Effect} → IsValid s → Run s s' es → IsValid s'
Run-IsValid v begin = v
Run-IsValid v (then_does op t run room e) =
    (All-some (StepOk _) (step _ op) t (step-StepOk _ op (Run-IsValid v run) room) e).valid

pub init-Live : (is_client : Bool) → Live (init is_client)
init-Live is_client = tt

pub Run-Live : {s s' : State} {es : List Effect} → IsValid s → Live s → Run s s' es → Live s'
Run-Live v w begin = w
Run-Live v w (then_does op t run room e) =
    (All-some (StepOk _) (step _ op) t (step-StepOk _ op (Run-IsValid v run) room) e).keeps
      (Run-Live v w run)
