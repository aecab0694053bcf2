-- ===== src/Transport/Pipes/Live.antt =====
-- The map of pipes of common/transport/opt_pipes.cpp leads to no closed pipe.
use natbuster.Prelude.{
  ℕ, ◌<◌, ◌≡◌, ◌≢◌, inl, inr, ap, sym, ◌∙◌, subst, Bool-cases, none, some, List, [], ◌∷◌, arith,
  ◌==◌, some_inj,
}
use natbuster.Prelude.Assoc.{lookup, erase, assign_self, assign_cases, insert_absent, erase-some}
use natbuster.Transport.Pipes.{OpenState, closed, Pipe, State, set_state, create, erase_pipe}

-- What holds of every entry of a map.
abbrev pub Each : (ℕ → ℕ → Type 0) → List (ℕ × ℕ) → Type 0
Each P [] = Unit {0}
Each P ((id, r) ∷ m) = P id r × Each P m

pub Each-map :
    (P Q : ℕ → ℕ → Type 0) (m : List (ℕ × ℕ)) → ((id r : ℕ) → P id r → Q id r) → Each P m → Each Q m
Each-map P Q [] f h = tt
Each-map P Q ((id, r) ∷ m) f h = (f id r h.0, Each-map P Q m f h.1)

Each-erase :
    (P : ℕ → ℕ → Type 0) (id : ℕ) (m : List (ℕ × ℕ))
    → Each P m
    → Each (λ i r. P i r × (i ≢ id)) (erase id m)
unfolding erase
Each-erase P id [] h = tt
Each-erase P id ((i, r) ∷ m) h = elim (Bool-cases (i == id)) [
  | inl e ↦ rw e (Each-erase P id m h.1)
  | inr e ↦ rw e ((h.0, λ same. absurd (ground (arith, e, same))), Each-erase P id m h.1)
]

-- The reference was given out, and the object, if there, has the number and is not closed.
pub record IsOpen (s : State) (id r : ℕ) : Type 0 where
  pub given : r < s.next_ref
  pub object : (p : Pipe) → lookup r s.objects ≡ some p → (p.id ≡ id) × (p.open_state ≢ closed)

-- Every entry of the map of pipes leads to a pipe that is not closed, or to none.
abbrev pub Live : State → Type 0
Live s = Each (IsOpen s) s.pipes

pub erase_pipe-Live : (s : State) (id : ℕ) → Live s → Live (erase_pipe s id)
unfolding erase_pipe
erase_pipe-Live s id w =
    Each-map (λ i r. IsOpen s i r × (i ≢ id)) (IsOpen (record s { pipes = erase id s.pipes }))
      (erase id s.pipes) (λ i r h. record { given = h.0.given; object = h.0.object })
      (Each-erase (IsOpen s) id s.pipes w)

pub release-Live : (s : State) (r : ℕ) → Live s → Live (record s { objects = erase r s.objects })
release-Live s r w =
    Each-map (IsOpen s) (IsOpen (record s { objects = erase r s.objects })) s.pipes
      (λ i q h. record {
        given = h.given;
        object = λ p e. h.object p (erase-some r q p s.objects e);
      })
      w

module _ (s : State) (r : ℕ) (p : Pipe) (there : lookup r s.objects ≡ some p) where
  -- The number of the pipe that a reference leads to.
  number : (i q : ℕ) → r ≡ q → IsOpen s i q → p.id ≡ i
  number i q same h = (h.object p (ap (λ k. lookup k s.objects) (sym same) ∙ there)).0

  pub set_state-Live : (state : OpenState) → state ≢ closed → Live s → Live (set_state s r p state)
  set_state-Live state n w =
      Each-map (IsOpen s) (IsOpen (set_state s r p state)) s.pipes
        (λ i q h. record {
          given = h.given;
          object = λ o f. elim (assign_cases r q (record p { open_state = state }) o s.objects f) [
            | inl (same, e) ↦
                (sym (ap (λ k. k.id) e) ∙ number i q same h, λ g. n (ap (λ k. k.open_state) e ∙ g))
            | inr f' ↦ h.object o f'
          ];
        })
        w

  -- A pipe that is closed after its number was taken off the map.
  pub close-Live : (id : ℕ) → p.id ≡ id → Live s → Live (set_state (erase_pipe s id) r p closed)
  unfolding erase_pipe
  close-Live id named w =
      Each-map (λ i q. IsOpen s i q × (i ≢ id))
        (IsOpen (set_state (record s { pipes = erase id s.pipes }) r p closed)) (erase id s.pipes)
        (λ i q (h, other). record {
          given = h.given;
          object = λ o f. elim (assign_cases r q (record p { open_state = closed }) o s.objects f) [
            | inl (same, e) ↦ absurd (other (sym (number i q same h) ∙ named))
            | inr f' ↦ h.object o f'
          ];
        })
        (Each-erase (IsOpen s) id s.pipes w)

pub create-Live :
    (s : State) (id : ℕ) (state : OpenState)
    → lookup id s.pipes ≡ none
    → state ≢ closed
    → Live s
    → Live (create s id state)
unfolding create
create-Live s id state e n w =
    let p' : Pipe = record { id = id; open_state = state } in
    let Q = IsOpen (create s id state) in
    subst (Each Q) (sym (insert_absent id s.next_ref s.pipes e)) (
      record {
        given = omega arith;
        object = λ p f.
            let h : p' ≡ p = some_inj p' p (sym (assign_self s.next_ref p' s.objects) ∙ f) in
            (sym (ap (λ k. k.id) h), λ c. n (ap (λ k. k.open_state) h ∙ c));
      },
      Each-map (IsOpen s) Q s.pipes
          (λ i r h. record {
            given = omega (arith, h.given);
            object = λ p f. elim (assign_cases s.next_ref r p' p s.objects f) [
              | inl (same, _) ↦ absurd (omega (arith, same, h.given))
              | inr f' ↦ h.object p f'
            ];
          })
          w,
    )
