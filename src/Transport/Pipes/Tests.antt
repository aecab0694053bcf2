-- ===== src/Transport/Pipes/Tests.antt =====
-- The theorems about common/transport/opt_pipes.cpp, applied to one pipe of a client.
use natbuster.Prelude.{ℕ, ◌≡◌, refl, true, false, none, some, List, [], ◌∷◌, arith}
use natbuster.Prelude.Bytes.{le32, read32}
use natbuster.Prelude.Assoc.{lookup, erase, assign}
use natbuster.Transport.Pipes.{
  OpenState, unopened, open_request_recv, opened, closed, State, sent, expiry_timer, on_pipe,
  pipe_opened, pipe_closed, pipe_packet, message, pipe_open_req, pipe_open_resp, pipe_close, init,
  open_pipe, start_client, start, send, find, erase_pipe, close, close_in,
}
use natbuster.Transport.Pipes.Recv.{on_packet, dispatch, on_pipe_close, closed_in}
use natbuster.Transport.Pipes.Invariant.{IsValid}
use natbuster.Transport.Pipes.Steps.{
  does_close, packet_comes, step, with_pipe, begin, then_does, init-IsValid,
}
use natbuster.Transport.Pipes.Closed.{Dead, AllSilent, closed_for_good}
use natbuster.Transport.Pipes.Handshake.{bytes_of, at_number, open_pipe-Handshake}

abbrev one_pipe : OpenState → State
one_pipe state = record {
  is_client = true;
  pipes = (1, 0) ∷ [];
  next_pipe_id = 3;
  objects = (0, record { id = 1; open_state = state }) ∷ [];
  next_ref = 1;
}

one_pipe-IsValid : (state : OpenState) → IsValid (one_pipe state)
unfolding lookup
one_pipe-IsValid state = record {
  alive = λ r p e. ground (arith, e);
  listed = λ id r e. ground (arith, e);
  named = λ id r p e f. ground (arith, e, f);
  given = λ id r e o. ground (arith, e);
  parity = refl;
}

-- The pipe that the other side asks for, and the end of the connection after that.
abbrev asked : State
asked = record {
  is_client = true;
  pipes = (2, 0) ∷ [];
  next_pipe_id = 1;
  objects = (0, record { id = 2; open_state = open_request_recv }) ∷ [];
  next_ref = 1;
}

abbrev shut : State
shut = record (one_pipe closed) { pipes = [] }

close_again : step (one_pipe closed) (does_close 0) ≡ some (shut, [])
unfolding step with_pipe close close_in erase_pipe lookup erase
close_again = refl

one_pipe-Dead : Dead (one_pipe closed) 0
unfolding lookup
one_pipe-Dead = record { given = omega arith; gone = λ p e. ground (arith, e) }

closed_for_good_example : Dead shut 0 × AllSilent 0 []
closed_for_good_example =
    closed_for_good 0 (one_pipe-IsValid closed) one_pipe-Dead
      (then_does (does_close 0) (shut, []) begin (omega arith) close_again)

close_packet :
    step (one_pipe opened) (packet_comes (message pipe_close 1 []))
    ≡ some (shut, pipe_closed 0 ∷ [])
unfolding step on_packet dispatch on_pipe_close closed_in find erase_pipe lookup erase assign le32
    read32
close_packet = refl

close_after : step shut (does_close 0) ≡ some (shut, [])
unfolding step with_pipe close close_in erase_pipe lookup erase
close_after = refl

pipe_at_1 : lookup 1 (one_pipe opened).pipes ≡ some 0
unfolding lookup
pipe_at_1 = refl

object_at_0 : lookup 0 (one_pipe opened).objects ≡ some (record { id = 1; open_state = opened })
unfolding lookup
object_at_0 = refl

no_pipe : lookup 1 (init false).pipes ≡ none
unfolding lookup
no_pipe = refl

handshake_example :
    (s2 : State) × (d1 : State) × (d2 : State) × (s3 : State) × (lookup 0
        (open_pipe (init true)).0.objects
      ≡ some (at_number 1 unopened))
    × (start_client (open_pipe (init true)).0 0 (at_number 1 unopened) (8 ∷ [])
        ≡ (s2, sent (message pipe_open_req 1 (8 ∷ [])) ∷ expiry_timer 0 ∷ []))
    × (on_packet (init false) (message pipe_open_req 1 (8 ∷ []))
        ≡ some (d1, on_pipe 0 (8 ∷ []) ∷ []))
    × (lookup 0 d1.objects ≡ some (at_number 1 open_request_recv))
    × (start d1 0 (at_number 1 open_request_recv) ≡ (d2, sent (message pipe_open_resp 1 []) ∷ []))
    × (on_packet s2 (message pipe_open_resp 1 []) ≡ some (s3, pipe_opened 0 ∷ []))
    × ((out : List ℕ)
        → on_packet d2 (bytes_of (send (at_number 1 opened) out))
          ≡ some (d2, pipe_packet 0 out ∷ []))
    × ((back : List ℕ)
        → on_packet s3 (bytes_of (send (at_number 1 opened) back))
          ≡ some (s3, pipe_packet 0 back ∷ []))
unfolding open_pipe
handshake_example =
    open_pipe-Handshake (init true) (init false) (8 ∷ []) (init-IsValid true) refl (omega arith)
      no_pipe

abbrev five_bytes : List ℕ
five_bytes = 1 ∷ 2 ∷ 3 ∷ 4 ∷ 5 ∷ []
