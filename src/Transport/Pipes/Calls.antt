-- ===== src/Transport/Pipes/Calls.antt =====
-- All calls that common/transport/opt_pipes.cpp serves: those that change the pipes, and `on_error` and
-- `on_close`, which tell every pipe and change none.
use natbuster.Prelude.{ℕ, ◌≡◌, none, some, List, [], ◌∷◌, ◌++◌, arith}
use natbuster.Prelude.Assoc.{lookup}
use natbuster.Transport.Pipes.{
  Pipe, State, Effect, Result, pipe_closed, pipe_error, error, all_closed,
}
use natbuster.Transport.Pipes.Recv.{each_pipe, on_error, on_close}
use natbuster.Transport.Pipes.Invariant.{NotClosed}
use natbuster.Transport.Pipes.Live.{Live}
use natbuster.Transport.Pipes.Methods.{StepOk}
use natbuster.Transport.Pipes.Steps.{Op, step}

pub data Call : Type 0 where
  does : Op → Call
  error_comes : Call
  close_comes : Call

unfoldable pub call : State → Call → Result
call s (does op) = step s op
call s error_comes = some (on_error s)
call s close_comes = some (on_close s)

-- The pipes of a map that are told, in order: exactly those that are there, and none of them closed.
pub data Tells (s : State) (callback : ℕ → Effect) : List (ℕ × ℕ) → List Effect → Type 0 where
  nobody : Tells s callback [] []
  gone :
      (id r : ℕ) {m : List (ℕ × ℕ)} {es : List Effect}
      → lookup r s.objects ≡ none
      → Tells s callback m es
      → Tells s callback ((id, r) ∷ m) es
  told :
      (id r : ℕ) {m : List (ℕ × ℕ)} {es : List Effect}
      → NotClosed s r
      → Tells s callback m es
      → Tells s callback ((id, r) ∷ m) (callback r ∷ es)

-- What a call that tells every pipe leaves: the state as it was.
pub record TellsAll (s : State) (callback : ℕ → Effect) (last : Effect) (t : State × List Effect)
    : Type 0 where
  pub unchanged : t.0 ≡ s
  pub before : List Effect
  pub tells : Tells s callback s.pipes before
  pub effects : t.1 ≡ before ++ (last ∷ [])

abbrev pub CallOk : State → Call → State × List Effect → Type 0
CallOk s (does op) t = StepOk s t
CallOk s error_comes t = TellsAll s pipe_error error t
CallOk s close_comes t = TellsAll s pipe_closed all_closed t

module _ (callback : ℕ → Effect) (objects : List (ℕ × Pipe)) (m : List (ℕ × ℕ)) (id r : ℕ) where
  pub each_some :
      (p : Pipe)
      → lookup r objects ≡ some p
      → each_pipe callback objects ((id, r) ∷ m) ≡ callback r ∷ each_pipe callback objects m
  unfolding each_pipe
  each_some p f = ground (arith, f)

  pub each_none :
      lookup r objects ≡ none
      → each_pipe callback objects ((id, r) ∷ m) ≡ each_pipe callback objects m
  unfolding each_pipe
  each_none f = ground (arith, f)
