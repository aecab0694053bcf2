-- ===== src/Transport/Pipes/Handlers.antt =====
-- The handlers of common/transport/opt_pipes.cpp for what comes from below move the pipes as the states
-- allow.
use natbuster.Prelude.{
  ℕ, ◌≡◌, inl, inr, refl, sym, subst, Bool, true, false, none, some, List, [], ◌∷◌, arith,
  Option-cases, Bool-cases, All, All-bind, assert, leb, length, ◌==◌, if◌then◌else◌,
}
use natbuster.Prelude.Assoc.{lookup, assign_self}
use natbuster.Transport.Pipes.{
  OpenState, unopened, open_request_sent, open_request_recv, opened, closed, Pipe, State, Effect,
  on_pipe, pipe_packet, pipe_raw, packet, raw, close_below, erase_pipe, create, find, pipe_open_req,
  pipe_open_resp, pipe_close, pipe_data, self_data,
}
use natbuster.Transport.Pipes.Recv.{
  is_own, on_open_req, answered, at_pipe, on_open_resp, closed_in, on_pipe_close, data_in, dispatch,
  on_packet, dispatch_raw, on_raw,
}
use natbuster.Transport.Pipes.Invariant.{
  Moves, is_answered, IsValid, At, create-IsValid, create-Evolves,
}
use natbuster.Transport.Pipes.Live.{create-Live, set_state-Live}
use natbuster.Transport.Pipes.Methods.{
  EffectOk, StepOk, nothing_done, only_erased, becomes, now-At, closes_with, Evolves-refl,
}

pub unused : (s : State) → IsValid s → lookup s.next_ref s.objects ≡ none
unused s v = elim (Option-cases (lookup s.next_ref s.objects)) [
  | inl e ↦ e
  | inr (p, e) ↦ absurd (omega (arith, v.alive s.next_ref p e))
]

module _ (s : State) where
  at_pipe-none :
      (id : ℕ) (handler : ℕ → Pipe → State × List Effect)
      → find s id ≡ none
      → at_pipe s id handler ≡ (s, [])
  unfolding at_pipe
  at_pipe-none id handler e = ground (arith, e)

  pub at_pipe-some :
      (id r : ℕ) (p : Pipe) (handler : ℕ → Pipe → State × List Effect)
      → find s id ≡ some (r, p)
      → at_pipe s id handler ≡ handler r p
  unfolding at_pipe
  at_pipe-some id r p handler e = ground (arith, e)

  on_pipe_close-none : (id : ℕ) → find s id ≡ none → on_pipe_close s id ≡ (erase_pipe s id, [])
  unfolding on_pipe_close
  on_pipe_close-none id e = ground (arith, e)

  on_pipe_close-some :
      (id r : ℕ) (p : Pipe)
      → find s id ≡ some (r, p)
      → on_pipe_close s id ≡ closed_in p.open_state (erase_pipe s id) r p
  unfolding on_pipe_close
  on_pipe_close-some id r p e = ground (arith, e)

if_StepOk :
    {s : State} (b : Bool) {t u : State × List Effect}
    → StepOk s t
    → StepOk s u
    → StepOk s (if b then t else u)
if_StepOk true h k = h
if_StepOk false h k = k

module _ (s : State) (v : IsValid s) where
  found : (id r : ℕ) (p : Pipe) → find s id ≡ some (r, p) → lookup r s.objects ≡ some p
  unfolding find
  found id r p e = ground (arith, e)

  listed : (id r : ℕ) (p : Pipe) → find s id ≡ some (r, p) → lookup id s.pipes ≡ some r
  unfolding find
  listed id r p e = ground (arith, e)

  at_pipe-StepOk :
      (id : ℕ) (handler : ℕ → Pipe → State × List Effect)
      → ((r : ℕ) (p : Pipe) → lookup r s.objects ≡ some p → StepOk s (handler r p))
      → StepOk s (at_pipe s id handler)
  at_pipe-StepOk id handler h = elim (Option-cases (find s id)) [
    | inl e ↦ subst (StepOk s) (sym (at_pipe-none s id handler e)) (nothing_done s v)
    | inr ((r, p), e) ↦
        subst (StepOk s) (sym (at_pipe-some s id r p handler e)) (h r p (found id r p e))
  ]

  data_in-StepOk :
      (state : OpenState) (e : Effect)
      → (state ≡ opened → EffectOk s s e)
      → StepOk s (data_in state s e)
  unfolding data_in
  data_in-StepOk opened e h = record {
    valid = v;
    evolves = Evolves-refl s;
    effects = (h refl, tt);
    keeps = λ w. w;
  }
  data_in-StepOk unopened e h = nothing_done s v
  data_in-StepOk open_request_sent e h = nothing_done s v
  data_in-StepOk open_request_recv e h = nothing_done s v
  data_in-StepOk closed e h = nothing_done s v

  answered-StepOk :
      (r : ℕ) (p : Pipe) (state : OpenState)
      → lookup r s.objects ≡ some p
      → p.open_state ≡ state
      → StepOk s (answered state s r p)
  unfolding answered
  answered-StepOk r p open_request_sent e h =
      becomes s v r p e opened _ (subst (λ k. Moves k opened) (sym h) is_answered)
        (((p, e, h), now-At s v r p e opened), tt) (set_state-Live s r p e opened (λ g. cc))
  answered-StepOk r p unopened e h = nothing_done s v
  answered-StepOk r p open_request_recv e h = nothing_done s v
  answered-StepOk r p opened e h = nothing_done s v
  answered-StepOk r p closed e h = nothing_done s v

  closed_in-StepOk :
      (id r : ℕ) (p : Pipe) (state : OpenState)
      → lookup r s.objects ≡ some p
      → p.open_state ≡ state
      → p.id ≡ id
      → StepOk s (closed_in state (erase_pipe s id) r p)
  unfolding closed_in
  closed_in-StepOk id r p closed e h i = only_erased s v id
  closed_in-StepOk id r p unopened e h i = closes_with s v r p e id [] (λ g. cc) i tt
  closed_in-StepOk id r p open_request_sent e h i = closes_with s v r p e id [] (λ g. cc) i tt
  closed_in-StepOk id r p open_request_recv e h i = closes_with s v r p e id [] (λ g. cc) i tt
  closed_in-StepOk id r p opened e h i = closes_with s v r p e id [] (λ g. cc) i tt

  on_pipe_close-StepOk : (id : ℕ) → StepOk s (on_pipe_close s id)
  on_pipe_close-StepOk id = elim (Option-cases (find s id)) [
    | inl e ↦ subst (StepOk s) (sym (on_pipe_close-none s id e)) (only_erased s v id)
    | inr ((r, p), e) ↦ subst (StepOk s) (sym (on_pipe_close-some s id r p e)) (
        closed_in-StepOk id r p p.open_state (found id r p e) refl
          (v.named id r p (listed id r p e) (found id r p e)))
  ]

  on_open_resp-StepOk : (id : ℕ) → StepOk s (on_open_resp s id)
  unfolding on_open_resp
  on_open_resp-StepOk id = elim (Bool-cases (is_own s id)) [
    | inl own ↦ rw own (at_pipe-StepOk id _ (λ r p e. answered-StepOk r p p.open_state e refl))
    | inr other ↦ rw other (nothing_done s v)
  ]

  created :
      (id : ℕ) (content : List ℕ)
      → lookup id s.pipes ≡ none
      → is_own s id ≡ false
      → StepOk s (create s id open_request_recv, on_pipe s.next_ref content ∷ [])
  unfolding create
  created id content e other = record {
    valid = create-IsValid s v id open_request_recv e (λ own. absurd (ground (arith, own, other)));
    evolves = create-Evolves s v id open_request_recv;
    effects = (
      (
        unused s v,
        (
          record { id = id; open_state = open_request_recv },
          assign_self s.next_ref (record { id = id; open_state = open_request_recv }) s.objects,
          refl,
        ),
      ),
      tt,
    );
    keeps = create-Live s id open_request_recv e (λ g. cc);
  }

  on_open_req-StepOk : (id : ℕ) (content : List ℕ) → StepOk s (on_open_req s id content)
  unfolding on_open_req
  on_open_req-StepOk id content = elim (Bool-cases (is_own s id)) [
    | inl own ↦ rw own (nothing_done s v)
    | inr other ↦ elim (Option-cases (lookup id s.pipes)) [
      | inl e ↦ rw (other, e) (created id content e other)
      | inr (r, e) ↦ rw (other, e) (nothing_done s v)
    ]
  ]

  data-StepOk :
      (id : ℕ) (content : List ℕ) (callback : ℕ → List ℕ → Effect)
      → ((r : ℕ) → At s r opened → EffectOk s s (callback r content))
      → StepOk s (at_pipe s id (λ r p. data_in p.open_state s (callback r content)))
  data-StepOk id content callback ok =
      at_pipe-StepOk id _
        (λ r p e. data_in-StepOk p.open_state (callback r content) (λ h. ok r (p, e, h)))

  only : (e : Effect) → EffectOk s s e → StepOk s (s, e ∷ [])
  only e ok = record { valid = v; evolves = Evolves-refl s; effects = (ok, tt); keeps = λ w. w }

  dispatch-StepOk : (type id : ℕ) (content : List ℕ) → StepOk s (dispatch s type id content)
  unfolding dispatch
  dispatch-StepOk type id content =
      if_StepOk (type == pipe_open_req) (on_open_req-StepOk id content) (
        if_StepOk (type == pipe_open_resp) (on_open_resp-StepOk id) (
          if_StepOk (type == pipe_close) (on_pipe_close-StepOk id) (
            if_StepOk (type == pipe_data) (data-StepOk id content pipe_packet (λ r a. a))
              (if_StepOk (type == self_data) (only (packet content) tt) (only close_below tt)))))

  dispatch_raw-StepOk : (type id : ℕ) (content : List ℕ) → StepOk s (dispatch_raw s type id content)
  unfolding dispatch_raw
  dispatch_raw-StepOk type id content =
      if_StepOk (type == pipe_data) (data-StepOk id content pipe_raw (λ r a. a))
        (if_StepOk (type == self_data) (only (raw content) tt) (only close_below tt))

  pub on_packet-StepOk : (view : List ℕ) → All (StepOk s) (on_packet s view)
  unfolding on_packet
  on_packet-StepOk view =
      All-bind (StepOk s) (assert (leb 5 (length view))) _ (λ _ _. dispatch-StepOk _ _ _)

  pub on_raw-StepOk : (view : List ℕ) → All (StepOk s) (on_raw s view)
  unfolding on_raw
  on_raw-StepOk view =
      All-bind (StepOk s) (assert (leb 5 (length view))) _ (λ _ _. dispatch_raw-StepOk _ _ _)
