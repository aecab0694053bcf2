-- ===== src/Transport/Pipes/Methods.antt =====
-- The methods of a pipe (`OPTPipe`, common/transport/opt_pipes.cpp) move it as the states allow, and each
-- callback is called in its state only.
use natbuster.Prelude.{
  ℕ, ◌≡◌, ◌≢◌, ◌⊎◌, inl, inr, refl, ap, sym, ◌∙◌, subst, none, some, List, [], ◌∷◌, ◌++◌, arith,
  some_inj, Option-cases,
}
use natbuster.Prelude.Assoc.{lookup, erase, assign_self, erase-some, erase_other, erase_self}
use natbuster.Transport.Pipes.{
  OpenState, sent, unopened, open_request_sent, open_request_recv, opened, closed, Pipe, State,
  Effect, on_pipe, pipe_opened, pipe_closed, pipe_packet, pipe_raw, expiry_timer, set_state,
  erase_pipe, close_in, close, drop_in, drop_pipe, release, start_client_in, start_client, start_in,
  start, expired_in, on_open_expired,
}
use natbuster.Transport.Pipes.Invariant.{
  Moves, stays, asks, accepts, closes, IsValid, Evolves, At, NotClosed, Gone, set_state-IsValid,
  set_state-Evolves, erase_pipe-IsValid, release-IsValid,
}
use natbuster.Transport.Pipes.Live.{Live, erase_pipe-Live, release-Live, set_state-Live, close-Live}
use native.Mathlib.Decide.{ℕ_discrete}

-- When a callback may be called: data comes to an open pipe only, a pipe opens once its request is
-- answered, and it closes if it was not closed.
abbrev pub EffectOk : State → State → Effect → Type 0
EffectOk s s' (pipe_packet r _) = At s r opened
EffectOk s s' (pipe_raw r _) = At s r opened
EffectOk s s' (pipe_opened r) = At s r open_request_sent × At s' r opened
EffectOk s s' (pipe_closed r) = NotClosed s r × Gone s' r
EffectOk s s' (on_pipe r _) = (lookup r s.objects ≡ none) × At s' r open_request_recv
EffectOk s s' (expiry_timer r) = At s r unopened × At s' r open_request_sent
EffectOk s s' _ = Unit {0}

abbrev pub AllOk : State → State → List Effect → Type 0
AllOk s s' [] = Unit {0}
AllOk s s' (e ∷ es) = EffectOk s s' e × AllOk s s' es

-- What a call from `s` may leave.
pub record StepOk (s : State) (t : State × List Effect) : Type 0 where
  pub valid : IsValid t.0
  pub evolves : Evolves s t.0
  pub effects : AllOk s t.0 t.1
  pub keeps : Live s → Live t.0

pub Evolves-refl : (s : State) → Evolves s s
Evolves-refl s = record {
  side = refl;
  refs = omega arith;
  new = λ r p e n. absurd (ground (arith, e, n));
  pipe = λ r p e. inr (p, e, refl, stays p.open_state);
}

AllOk-append :
    (s s' : State) (es fs : List Effect) → AllOk s s' es → AllOk s s' fs → AllOk s s' (es ++ fs)
AllOk-append s s' [] fs a b = b
AllOk-append s s' (e ∷ es) fs a b = (a.0, AllOk-append s s' es fs a.1 b)

-- What `drop` may do: the packet for the other side, and the callback.
abbrev Closes : Effect → Type 0
Closes (sent _) = Unit {0}
Closes (pipe_closed _) = Unit {0}
Closes _ = ⊥

abbrev OnlyCloses : List Effect → Type 0
OnlyCloses [] = Unit {0}
OnlyCloses (e ∷ es) = Closes e × OnlyCloses es

Closes-EffectOk :
    (s s' : State) (r : ℕ) (e : Effect)
    → Closes e
    → EffectOk s s' e
    → EffectOk s (record s' { objects = erase r s'.objects }) e
Closes-EffectOk s s' r (sent _) c k = tt
Closes-EffectOk s s' r (pipe_closed q) c k = (k.0, λ p f. k.1 p (erase-some r q p s'.objects f))
Closes-EffectOk s s' r _ c k = absurd c

OnlyCloses-AllOk :
    (s s' : State) (r : ℕ) (es : List Effect)
    → OnlyCloses es
    → AllOk s s' es
    → AllOk s (record s' { objects = erase r s'.objects }) es
OnlyCloses-AllOk s s' r [] c k = tt
OnlyCloses-AllOk s s' r (e ∷ es) c k =
    (Closes-EffectOk s s' r e c.0 k.0, OnlyCloses-AllOk s s' r es c.1 k.1)

abbrev Kept : List (ℕ × Pipe) → ℕ → Pipe → Type 0
Kept objects q o =
    (lookup q objects ≡ none)
    ⊎ ((p' : Pipe) × (lookup q objects ≡ some p')
        × (p'.id ≡ o.id)
        × Moves o.open_state p'.open_state)

erase_keeps :
    (s' : State) (r q : ℕ) (o : Pipe) → Kept s'.objects q o → Kept (erase r s'.objects) q o
erase_keeps s' r q o (inl e) = elim (Option-cases (lookup q (erase r s'.objects))) [
  | inl f ↦ inl f
  | inr (p, f) ↦ absurd (ground (arith, e, erase-some r q p s'.objects f))
]
erase_keeps s' r q o (inr (p', e, i, m)) = elim (ℕ_discrete r q) [
  | yes h ↦ inl (subst (λ k. lookup k (erase r s'.objects) ≡ none) h (erase_self r s'.objects))
  | no h ↦ inr (p', erase_other r q s'.objects h ∙ e, i, m)
]

module _ (s : State) (v : IsValid s) where
  pub nothing_done : StepOk s (s, [])
  nothing_done = record { valid = v; evolves = Evolves-refl s; effects = tt; keeps = λ w. w }

  pub only_erased : (id : ℕ) → StepOk s (erase_pipe s id, [])
  unfolding erase_pipe
  only_erased id = record {
    valid = erase_pipe-IsValid s v id;
    evolves = record {
      side = refl;
      refs = omega arith;
      new = (Evolves-refl s).new;
      pipe = (Evolves-refl s).pipe;
    };
    effects = tt;
    keeps = erase_pipe-Live s id;
  }

  module _ (r : ℕ) (p : Pipe) (e : lookup r s.objects ≡ some p) where
    pub becomes :
        (state : OpenState) (es : List Effect)
        → Moves p.open_state state
        → AllOk s (set_state s r p state) es
        → (Live s → Live (set_state s r p state))
        → StepOk s (set_state s r p state, es)
    becomes state es m ok keeps = record {
      valid = set_state-IsValid s v r p state e;
      evolves = set_state-Evolves s v r p state e m;
      effects = ok;
      keeps = keeps;
    }

    pub now-At : (state : OpenState) → At (set_state s r p state) r state
    now-At state =
        let p' = record p { open_state = state } in (p', assign_self r p' s.objects, refl)

    pub now-Gone : Gone (set_state s r p closed) r
    now-Gone o f =
        let p' = record p { open_state = closed } in
        sym (ap (λ k. k.open_state) (some_inj p' o (sym (assign_self r p' s.objects) ∙ f)))

module _ (s : State) (v : IsValid s) (r : ℕ) (p : Pipe) (e : lookup r s.objects ≡ some p) where
  -- Closing, with the number taken off the map first.
  closes_it :
      (id : ℕ) (es : List Effect)
      → p.open_state ≢ closed
      → p.id ≡ id
      → AllOk s (set_state (erase_pipe s id) r p closed) es
      → StepOk s (set_state (erase_pipe s id) r p closed, es)
  unfolding erase_pipe
  closes_it id es n h ok =
      let s1 = erase_pipe s id in
      let v1 = erase_pipe-IsValid s v id in
      let w = set_state-Evolves s1 v1 r p closed e (closes p.open_state) in
      record {
        valid = set_state-IsValid s1 v1 r p closed e;
        evolves = record { side = w.side; refs = w.refs; new = w.new; pipe = w.pipe };
        effects = ok;
        keeps = close-Live s r p e id h;
      }

  pub closes_with :
      (id : ℕ) (es : List Effect)
      → p.open_state ≢ closed
      → p.id ≡ id
      → AllOk s (set_state (erase_pipe s id) r p closed) es
      → StepOk s (set_state (erase_pipe s id) r p closed, es ++ (pipe_closed r ∷ []))
  unfolding erase_pipe
  closes_with id es n h ok = closes_it id (es ++ (pipe_closed r ∷ [])) n h (
      AllOk-append s (set_state (erase_pipe s id) r p closed) es (pipe_closed r ∷ []) ok
        (((p, e, n), now-Gone (erase_pipe s id) (erase_pipe-IsValid s v id) r p e), tt))

  OnlyCloses-close_in : (state : OpenState) → OnlyCloses (close_in state s r p).1
  unfolding close_in
  OnlyCloses-close_in closed = tt
  OnlyCloses-close_in unopened = (tt, (tt, tt))
  OnlyCloses-close_in open_request_sent = (tt, (tt, tt))
  OnlyCloses-close_in open_request_recv = (tt, (tt, tt))
  OnlyCloses-close_in opened = (tt, (tt, tt))

  close_in-StepOk : (state : OpenState) → p.open_state ≡ state → StepOk s (close_in state s r p)
  unfolding close_in
  close_in-StepOk closed h = only_erased s v p.id
  close_in-StepOk unopened h = closes_with p.id (_ ∷ []) (λ g. cc) refl (tt, tt)
  close_in-StepOk open_request_sent h = closes_with p.id (_ ∷ []) (λ g. cc) refl (tt, tt)
  close_in-StepOk open_request_recv h = closes_with p.id (_ ∷ []) (λ g. cc) refl (tt, tt)
  close_in-StepOk opened h = closes_with p.id (_ ∷ []) (λ g. cc) refl (tt, tt)

  pub close-StepOk : StepOk s (close s r p)
  unfolding close
  close-StepOk = close_in-StepOk p.open_state refl

  drop_in-StepOk : (state : OpenState) → p.open_state ≡ state → StepOk s (drop_in state s r p)
  unfolding drop_in
  drop_in-StepOk opened h = close-StepOk
  drop_in-StepOk open_request_sent h = close-StepOk
  drop_in-StepOk unopened h = only_erased s v p.id
  drop_in-StepOk open_request_recv h = only_erased s v p.id
  drop_in-StepOk closed h = only_erased s v p.id

  pub drop_pipe-StepOk : StepOk s (drop_pipe s r p)
  unfolding drop_pipe
  drop_pipe-StepOk = drop_in-StepOk p.open_state refl

  expired_in-StepOk : (state : OpenState) → p.open_state ≡ state → StepOk s (expired_in state s r p)
  unfolding expired_in
  expired_in-StepOk open_request_sent h = close-StepOk
  expired_in-StepOk unopened h = nothing_done s v
  expired_in-StepOk open_request_recv h = nothing_done s v
  expired_in-StepOk opened h = nothing_done s v
  expired_in-StepOk closed h = nothing_done s v

  pub on_open_expired-StepOk : StepOk s (on_open_expired s r p)
  unfolding on_open_expired
  on_open_expired-StepOk = expired_in-StepOk p.open_state refl

  start_client_in-StepOk :
      (state : OpenState) (content : List ℕ)
      → p.open_state ≡ state
      → StepOk s (start_client_in state s r p content)
  unfolding start_client_in
  start_client_in-StepOk unopened content h =
      becomes s v r p e open_request_sent _ (subst (λ k. Moves k open_request_sent) (sym h) asks)
        (tt, (((p, e, h), now-At s v r p e open_request_sent), tt))
        (set_state-Live s r p e open_request_sent (λ g. cc))
  start_client_in-StepOk open_request_sent content h = nothing_done s v
  start_client_in-StepOk open_request_recv content h = nothing_done s v
  start_client_in-StepOk opened content h = nothing_done s v
  start_client_in-StepOk closed content h = nothing_done s v

  pub start_client-StepOk : (content : List ℕ) → StepOk s (start_client s r p content)
  unfolding start_client
  start_client-StepOk content = start_client_in-StepOk p.open_state content refl

  start_in-StepOk : (state : OpenState) → p.open_state ≡ state → StepOk s (start_in state s r p)
  unfolding start_in
  start_in-StepOk unopened h = start_client-StepOk []
  start_in-StepOk open_request_recv h =
      becomes s v r p e opened _ (subst (λ k. Moves k opened) (sym h) accepts) (tt, tt)
        (set_state-Live s r p e opened (λ g. cc))
  start_in-StepOk open_request_sent h = nothing_done s v
  start_in-StepOk opened h = nothing_done s v
  start_in-StepOk closed h = nothing_done s v

  pub start-StepOk : StepOk s (start s r p)
  unfolding start
  start-StepOk = start_in-StepOk p.open_state refl

  OnlyCloses-drop_in : (state : OpenState) → OnlyCloses (drop_in state s r p).1
  unfolding drop_in close
  OnlyCloses-drop_in opened = OnlyCloses-close_in p.open_state
  OnlyCloses-drop_in open_request_sent = OnlyCloses-close_in p.open_state
  OnlyCloses-drop_in unopened = tt
  OnlyCloses-drop_in open_request_recv = tt
  OnlyCloses-drop_in closed = tt

  -- The object goes last, after what `drop` does.
  pub release-StepOk : StepOk s (release s r p)
  unfolding release drop_pipe
  release-StepOk =
      let d = drop_pipe s r p in
      let k = drop_pipe-StepOk in
      record {
        valid = release-IsValid d.0 k.valid r;
        evolves = record {
          side = k.evolves.side;
          refs = k.evolves.refs;
          new = λ q o f. k.evolves.new q o (erase-some r q o d.0.objects f);
          pipe = λ q o f. erase_keeps d.0 r q o (k.evolves.pipe q o f);
        };
        effects = OnlyCloses-AllOk s d.0 r d.1 (OnlyCloses-drop_in p.open_state) k.effects;
        keeps = λ w. release-Live d.0 r (k.keeps w);
      }
