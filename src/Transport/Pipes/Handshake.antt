-- ===== src/Transport/Pipes/Handshake.antt =====
-- Two sides of common/transport/opt_pipes.cpp open a pipe between them and use it.
use natbuster.Prelude.{
  ℕ, ◌%◌, ◌<◌, ◌≡◌, refl, ap, ◌∙◌, Bool, true, false, not, none, some, List, [], ◌∷◌, arith,
  u32_mod, length, drop, leb, le→leb, ◌==◌, if◌then◌else◌,
}
use natbuster.Prelude.Bytes.{le32, read32-le32}
use natbuster.Prelude.Assoc.{lookup, insert_self, assign_self}
use natbuster.Transport.Pipes.{
  OpenState, unopened, open_request_sent, open_request_recv, opened, Pipe, State, Effect, sent,
  sent_raw, expiry_timer, on_pipe, pipe_opened, pipe_packet, raw, message, find, set_state, create,
  open_pipe, start_client, start_client_in, start, start_in, send, self_send, pipe_open_req,
  pipe_open_resp, pipe_data,
}
use natbuster.Transport.Pipes.Recv.{
  is_own, same, on_open_req, on_open_resp, answered, data_in, dispatch, on_packet, on_raw,
  dispatch_raw,
}
use natbuster.Transport.Pipes.Invariant.{IsValid}
use natbuster.Transport.Pipes.Handlers.{at_pipe-some}
use natbuster.Transport.Pipes.Steps.{own_fresh}

-- What the other side reads of a message.
on_packet-message :
    (s : State) (type id : ℕ) (content : List ℕ)
    → id < u32_mod
    → on_packet s (message type id content) ≡ some (dispatch s type id content)
unfolding on_packet le32
on_packet-message s type id content h =
    let long : leb 5 (length (message type id content)) ≡ true = le→leb 5 _ (omega arith) in
    rw (long, read32-le32 id content h) refl

find_created :
    (s : State) (id : ℕ) (state : OpenState)
    → lookup id s.pipes ≡ none
    → find (create s id state) id ≡ some (s.next_ref, record { id = id; open_state = state })
unfolding find create
find_created s id state e =
    rw
      (
        insert_self id s.next_ref s.pipes e,
        assign_self s.next_ref (record { id = id; open_state = state }) s.objects,
      )
      refl

find_set :
    (s : State) (id r : ℕ) (p : Pipe) (state : OpenState)
    → lookup id s.pipes ≡ some r
    → find (set_state s r p state) id ≡ some (r, record p { open_state = state })
unfolding find
find_set s id r p state e = rw (e, assign_self r (record p { open_state = state }) s.objects) refl

flips : (b c d : Bool) → d ≡ not c → same b c ≡ true → same b d ≡ false
flips true true d e h = e
flips true false d e h = cc
flips false true d e h = cc
flips false false d e h = ap not e

is_own_flip :
    (s d : State) (id : ℕ)
    → d.is_client ≡ not s.is_client
    → is_own s id ≡ true
    → is_own d id ≡ false
is_own_flip s d id e h = flips (id % 2 == 1) s.is_client d.is_client e h

-- The messages of the handshake, each at the side that gets it.
request_comes :
    (d : State) (id : ℕ) (content : List ℕ)
    → is_own d id ≡ false
    → lookup id d.pipes ≡ none
    → dispatch d pipe_open_req id content
      ≡ (create d id open_request_recv, on_pipe d.next_ref content ∷ [])
unfolding dispatch on_open_req
request_comes d id content own e = ground (arith, own, e)

response_comes :
    (s : State) (id r : ℕ) (p : Pipe)
    → is_own s id ≡ true
    → find s id ≡ some (r, p)
    → p.open_state ≡ open_request_sent
    → dispatch s pipe_open_resp id [] ≡ (set_state s r p opened, pipe_opened r ∷ [])
unfolding dispatch on_open_resp answered
response_comes s id r p own e h =
    rw (own, at_pipe-some s id r p (λ r p. answered p.open_state s r p) e, h) refl

data_comes :
    (s : State) (id r : ℕ) (p : Pipe) (content : List ℕ)
    → find s id ≡ some (r, p)
    → p.open_state ≡ opened
    → dispatch s pipe_data id content ≡ (s, pipe_packet r content ∷ [])
unfolding dispatch data_in
data_comes s id r p content e h =
    rw (at_pipe-some s id r p (λ r p. data_in p.open_state s (pipe_packet r content)) e, h) refl

abbrev pub bytes_of : Effect → List ℕ
bytes_of (sent m) = m
bytes_of (sent_raw m) = m
bytes_of _ = []

abbrev pub at_number : ℕ → OpenState → Pipe
at_number id state = record { id = id; open_state = state }

-- A side opens a pipe and asks for it with `content`; the other side, of the other parity and with no
-- pipe of that number, is told of a new pipe with that content, and starts it; the answer opens the pipe
-- of the first side. From then on what either sends on the pipe comes out at the other side's pipe.
pub open_pipe-Handshake :
    (s d : State) (content : List ℕ)
    → IsValid s
    → d.is_client ≡ not s.is_client
    → s.next_pipe_id < u32_mod
    → lookup s.next_pipe_id d.pipes ≡ none
    → let id = s.next_pipe_id in
      let r = (open_pipe s).1 in
      let q = d.next_ref in
      (s2 : State) × (d1 : State) × (d2 : State) × (s3 : State) × (lookup r (open_pipe s).0.objects
        ≡ some (at_number id unopened))
      × (start_client (open_pipe s).0 r (at_number id unopened) content
          ≡ (s2, sent (message pipe_open_req id content) ∷ expiry_timer r ∷ []))
      × (on_packet d (message pipe_open_req id content) ≡ some (d1, on_pipe q content ∷ []))
      × (lookup q d1.objects ≡ some (at_number id open_request_recv))
      × (start d1 q (at_number id open_request_recv)
          ≡ (d2, sent (message pipe_open_resp id []) ∷ []))
      × (on_packet s2 (message pipe_open_resp id []) ≡ some (s3, pipe_opened r ∷ []))
      × ((out : List ℕ)
          → on_packet d2 (bytes_of (send (at_number id opened) out))
            ≡ some (d2, pipe_packet q out ∷ []))
      × ((back : List ℕ)
          → on_packet s3 (bytes_of (send (at_number id opened) back))
            ≡ some (s3, pipe_packet r back ∷ []))
unfolding open_pipe start_client start_client_in start start_in send create
open_pipe-Handshake s d content v flip w none_there =
    let id = s.next_pipe_id in
    let r = s.next_ref in
    let s1 = (open_pipe s).0 in
    let fresh = own_fresh s v in
    let s2 = set_state s1 r (at_number id unopened) open_request_sent in
    let s3 = set_state s2 r (at_number id open_request_sent) opened in
    let d1 = create d id open_request_recv in
    let d2 = set_state d1 d.next_ref (at_number id open_request_recv) opened in
    let listed : lookup id s1.pipes ≡ some r = insert_self id r s.pipes fresh in
    let there : lookup id d1.pipes ≡ some d.next_ref =
      insert_self id d.next_ref d.pipes none_there in
    (
      s2,
      d1,
      d2,
      s3,
      assign_self r (at_number id unopened) s.objects,
      refl,
      on_packet-message d pipe_open_req id content w
          ∙ ap some (request_comes d id content (is_own_flip s d id flip v.parity) none_there),
      assign_self d.next_ref (at_number id open_request_recv) d.objects,
      refl,
      on_packet-message s2 pipe_open_resp id [] w
          ∙ ap some (
              response_comes s2 id r (at_number id open_request_sent) v.parity
                (find_set s1 id r (at_number id unopened) open_request_sent listed) refl),
      λ out.
          on_packet-message d2 pipe_data id out w
          ∙ ap some (
              data_comes d2 id d.next_ref (at_number id opened) out
                (find_set d1 id d.next_ref (at_number id open_request_recv) opened there) refl),
      λ back.
          on_packet-message s3 pipe_data id back w
          ∙ ap some (
              data_comes s3 id r (at_number id opened) back
                (find_set s2 id r (at_number id open_request_sent) opened listed) refl),
    )

-- What `OPTPipes::send` sends, the other side cuts at five bytes: four of the packet are lost, and a
-- packet that is shorter stops the program.
pub on_raw-self_send :
    (s : State) (content : List ℕ)
    → on_raw s (bytes_of (self_send content))
      ≡ (if leb 4 (length content) then some (s, raw (drop 4 content) ∷ []) else none)
unfolding on_raw dispatch_raw self_send
on_raw-self_send s content = ground arith
