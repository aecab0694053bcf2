-- ===== src/Transport/Pipes/Invariant.antt =====
-- What holds of the pipes of common/transport/opt_pipes.cpp between calls, and how one call may move a
-- pipe.
use natbuster.Prelude.{
  ℕ, ◌≤◌, ◌<◌, ◌≡◌, ◌≢◌, ◌⊎◌, inl, inr, refl, ap, sym, ◌∙◌, subst, true, none, some, arith,
  some_inj,
}
use natbuster.Prelude.Assoc.{
  lookup, erase, assign, assign_self, assign_other, assign_cases, insert_cases, erase-some,
}
use natbuster.Transport.Pipes.{
  OpenState, unopened, open_request_sent, open_request_recv, opened, closed, Pipe, State, set_state,
  create, erase_pipe,
}
use natbuster.Transport.Pipes.Recv.{is_own}
use native.Mathlib.Decide.{ℕ_discrete}

-- How the state of a pipe moves in one call.
pub data Moves : OpenState → OpenState → Type 0 where
  stays : (a : OpenState) → Moves a a
  asks : Moves unopened open_request_sent
  is_answered : Moves open_request_sent opened
  accepts : Moves open_request_recv opened
  closes : (a : OpenState) → Moves a closed

pub record IsValid (s : State) : Type 0 where
  pub alive : (r : ℕ) (p : Pipe) → lookup r s.objects ≡ some p → r < s.next_ref
  pub listed : (id r : ℕ) → lookup id s.pipes ≡ some r → r < s.next_ref
  pub named :
      (id r : ℕ) (p : Pipe) → lookup id s.pipes ≡ some r → lookup r s.objects ≡ some p → p.id ≡ id
  pub given : (id r : ℕ) → lookup id s.pipes ≡ some r → is_own s id ≡ true → id < s.next_pipe_id
  pub parity : is_own s s.next_pipe_id ≡ true

-- A pipe that was there keeps its number and moves, unless it is released, and a new one has a
-- reference that was never used.
pub record Evolves (s s' : State) : Type 0 where
  pub side : s'.is_client ≡ s.is_client
  pub refs : s.next_ref ≤ s'.next_ref
  pub new :
      (r : ℕ) (p : Pipe) → lookup r s'.objects ≡ some p → lookup r s.objects ≡ none → r ≡ s.next_ref
  pub pipe :
      (r : ℕ) (p : Pipe)
      → lookup r s.objects ≡ some p
      → (lookup r s'.objects ≡ none)
        ⊎ ((p' : Pipe) × (lookup r s'.objects ≡ some p')
            × (p'.id ≡ p.id)
            × Moves p.open_state p'.open_state)

abbrev pub At : State → ℕ → OpenState → Type 0
At s r state = (p : Pipe) × (lookup r s.objects ≡ some p) × (p.open_state ≡ state)

abbrev pub NotClosed : State → ℕ → Type 0
NotClosed s r = (p : Pipe) × (lookup r s.objects ≡ some p) × (p.open_state ≢ closed)

abbrev pub Gone : State → ℕ → Type 0
Gone s r = (p : Pipe) → lookup r s.objects ≡ some p → p.open_state ≡ closed

module _ (s : State) (v : IsValid s) where
  pub set_state-IsValid :
      (r : ℕ) (p : Pipe) (state : OpenState)
      → lookup r s.objects ≡ some p
      → IsValid (set_state s r p state)
  set_state-IsValid r p state e =
      let p' = record p { open_state = state } in
      record {
        alive = λ q o f. elim (assign_cases r q p' o s.objects f) [
          | inl (h, _) ↦ subst (λ k. k < s.next_ref) h (v.alive r p e)
          | inr f' ↦ v.alive q o f'
        ];
        listed = v.listed;
        named = λ id q o f g. elim (assign_cases r q p' o s.objects g) [
          | inl (h, w) ↦ sym (ap (λ k. k.id) w) ∙ v.named id r p (f ∙ ap some (sym h)) e
          | inr g' ↦ v.named id q o f g'
        ];
        given = v.given;
        parity = v.parity;
      }

  pub set_state-Evolves :
      (r : ℕ) (p : Pipe) (state : OpenState)
      → lookup r s.objects ≡ some p
      → Moves p.open_state state
      → Evolves s (set_state s r p state)
  set_state-Evolves r p state e m =
      let p' = record p { open_state = state } in
      record {
        side = refl;
        refs = omega arith;
        new = λ q o f n. elim (assign_cases r q p' o s.objects f) [
          | inl (h, _) ↦ absurd (ground (arith, e, n, ap (λ k. lookup k s.objects) h))
          | inr f' ↦ absurd (ground (arith, f', n))
        ];
        pipe = λ q o f. elim (ℕ_discrete r q) [
          | yes h ↦
              let same : p ≡ o = some_inj p o (sym e ∙ ap (λ k. lookup k s.objects) h ∙ f) in
              inr (
                p',
                subst (λ k. lookup k (assign r p' s.objects) ≡ some p') h
                    (assign_self r p' s.objects),
                ap (λ k. k.id) same,
                subst (λ k. Moves k.open_state state) same m,
              )
          | no h ↦ inr (o, assign_other r q p' s.objects h ∙ f, refl, stays o.open_state)
        ];
      }

  pub erase_pipe-IsValid : (id : ℕ) → IsValid (erase_pipe s id)
  unfolding erase_pipe
  erase_pipe-IsValid id = record {
    alive = v.alive;
    listed = λ i r e. v.listed i r (erase-some id i r s.pipes e);
    named = λ i r p e f. v.named i r p (erase-some id i r s.pipes e) f;
    given = λ i r e o. v.given i r (erase-some id i r s.pipes e) o;
    parity = v.parity;
  }

  pub release-IsValid : (r : ℕ) → IsValid (record s { objects = erase r s.objects })
  release-IsValid r = record {
    alive = λ q p e. v.alive q p (erase-some r q p s.objects e);
    listed = v.listed;
    named = λ i q p e f. v.named i q p e (erase-some r q p s.objects f);
    given = v.given;
    parity = v.parity;
  }

  pub create-IsValid :
      (id : ℕ) (state : OpenState)
      → lookup id s.pipes ≡ none
      → (is_own s id ≡ true → id < s.next_pipe_id)
      → IsValid (create s id state)
  unfolding create
  create-IsValid id state e o =
      let p' : Pipe = record { id = id; open_state = state } in
      record {
        alive = λ q p f. elim (assign_cases s.next_ref q p' p s.objects f) [
          | inl (h, _) ↦ omega (arith, h)
          | inr f' ↦ omega (arith, v.alive q p f')
        ];
        listed = λ i r f. elim (insert_cases id i s.next_ref r s.pipes e f) [
          | inl (_, w) ↦ omega (arith, w)
          | inr f' ↦ omega (arith, v.listed i r f')
        ];
        named = λ i r p f g. elim (insert_cases id i s.next_ref r s.pipes e f) [
          | inl (h, w) ↦ elim (assign_cases s.next_ref r p' p s.objects g) [
            | inl (_, w') ↦ sym (ap (λ k. k.id) w') ∙ h
            | inr g' ↦ absurd (omega (arith, w, v.alive r p g'))
          ]
          | inr f' ↦ elim (assign_cases s.next_ref r p' p s.objects g) [
            | inl (h, _) ↦ absurd (omega (arith, h, v.listed i r f'))
            | inr g' ↦ v.named i r p f' g'
          ]
        ];
        given = λ i r f own. elim (insert_cases id i s.next_ref r s.pipes e f) [
          | inl (h, _) ↦
              subst (λ k. k < s.next_pipe_id) h (o (subst (λ k. is_own s k ≡ true) (sym h) own))
          | inr f' ↦ v.given i r f' own
        ];
        parity = v.parity;
      }

  pub create-Evolves : (id : ℕ) (state : OpenState) → Evolves s (create s id state)
  unfolding create
  create-Evolves id state =
      let p' : Pipe = record { id = id; open_state = state } in
      record {
        side = refl;
        refs = omega arith;
        new = λ q o f n. elim (assign_cases s.next_ref q p' o s.objects f) [
          | inl (h, _) ↦ sym h
          | inr f' ↦ absurd (ground (arith, f', n))
        ];
        pipe = λ q o f.
            let other : s.next_ref ≢ q = λ h. absurd (omega (arith, h, v.alive q o f)) in
            inr (o, assign_other s.next_ref q p' s.objects other ∙ f, refl, stays o.open_state);
      }
