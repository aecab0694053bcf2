-- ===== src/Endpoint/Table.antt =====
-- The lookup table of common/endpoint/c2_server.cpp names the connection of each client that is logged in.
use natbuster.Prelude.{
  ℕ, true, ◌≡◌, ◌≢◌, inl, inr, refl, ap, sym, ◌∙◌, subst, Option, none, some, [], ◌∷◌, arith, ◌==◌,
  Option-cases, some_inj,
}
use natbuster.Prelude.Assoc.{
  lookup, erase, assign, erase_self, erase_other, erase-some, assign_self, assign_other,
  assign_cases,
}
use natbuster.Endpoint.Connections.{
  Place, unset, at_end, at_key, C2ServerEndpoint, C2Server, closes, set_self_lu, eject, enter,
  on_open, connect, leave, on_close, IsValid,
}
use native.Mathlib.Decide.{ℕ_discrete}

abbrev pub with_place : Place → C2ServerEndpoint
with_place place = record { self_lu = place }

abbrev ejected : C2Server → ℕ → ℕ → C2Server
ejected s f o = record (set_self_lu s o at_end) { connection_lookup = erase f s.connection_lookup }

eject-none : (s : C2Server) (f : ℕ) → lookup f s.connection_lookup ≡ none → eject s f ≡ (s, [])
unfolding eject
eject-none s f e = ground (arith, e)

eject-some :
    (s : C2Server) (f o : ℕ)
    → lookup f s.connection_lookup ≡ some o
    → eject s f ≡ (ejected s f o, closes o ∷ [])
unfolding eject
eject-some s f o e = ground (arith, e)

module _ (s : C2Server) (v : IsValid s) where
  -- One place for each object, and one object for each key.
  same_place :
      (f g r : ℕ)
      → lookup f s.connection_lookup ≡ some r
      → lookup g s.connection_lookup ≡ some r
      → f ≡ g
  same_place f g r p q = ground (arith, v.listed f r p, v.listed g r q)

  not_erased : (f g r : ℕ) → lookup g (erase f s.connection_lookup) ≡ some r → f ≢ g
  not_erased f g r e h = absurd (
      ground (
        arith,
        e,
        subst (λ k. lookup k (erase f s.connection_lookup) ≡ none) h
            (erase_self f s.connection_lookup),
      ))

  ejected-IsValid : (f o : ℕ) → lookup f s.connection_lookup ≡ some o → IsValid (ejected s f o)
  ejected-IsValid f o e = record {
    listed = λ g r p.
        let q = erase-some f g r s.connection_lookup p in
        let other : o ≢ r = λ h. not_erased f g r p (same_place f g r (e ∙ ap some h) q) in
        assign_other o r (with_place at_end) s.endpoints other ∙ v.listed g r q;
    placed = λ r g p. elim (ℕ_discrete o r) [
      | yes h ↦
          let q = assign_self o (with_place at_end) s.endpoints in
          absurd
            (ground (arith, p, q, ap (λ k. lookup k (assign o (with_place at_end) s.endpoints)) h))
      | no h ↦
          let q = v.placed r g (sym (assign_other o r (with_place at_end) s.endpoints h) ∙ p) in
          let other : f ≢ g =
            λ k. absurd (h (some_inj o r (sym e ∙ ap (λ j. lookup j s.connection_lookup) k ∙ q))) in
          erase_other f g s.connection_lookup other ∙ q
    ];
  }

  entered-IsValid :
      (r f : ℕ)
      → lookup r s.endpoints ≡ some (with_place unset)
      → lookup f s.connection_lookup ≡ none
      → IsValid (record (set_self_lu s r (at_key f)) {
        connection_lookup = assign f r s.connection_lookup;
      })
  entered-IsValid r f e n = record {
    listed = λ g q p. elim (assign_cases f g r q s.connection_lookup p) [
      | inl (h, k) ↦
          ap (λ j. lookup j (assign r (with_place (at_key f)) s.endpoints)) (sym k)
          ∙ assign_self r (with_place (at_key f)) s.endpoints
          ∙ ap (λ j. some (with_place (at_key j))) h
      | inr p' ↦
          let there = v.listed g q p' in
          let other : r ≢ q =
            λ h. absurd (ground (arith, there, e, ap (λ j. lookup j s.endpoints) h)) in
          assign_other r q (with_place (at_key f)) s.endpoints other ∙ there
    ];
    placed = λ q g p. elim (ℕ_discrete r q) [
      | yes h ↦
          let self = assign_self r (with_place (at_key f)) s.endpoints in
          let same : f ≡ g =
            ground (
              arith,
              p,
              self,
              ap (λ j. lookup j (assign r (with_place (at_key f)) s.endpoints)) h,
            ) in
          ap (λ j. lookup j (assign f r s.connection_lookup)) (sym same)
          ∙ assign_self f r s.connection_lookup
          ∙ ap some h
      | no h ↦
          let there =
            v.placed q g (sym (assign_other r q (with_place (at_key f)) s.endpoints h) ∙ p) in
          let other : f ≢ g =
            λ k. absurd (ground (arith, there, n, ap (λ j. lookup j s.connection_lookup) k)) in
          assign_other f g r s.connection_lookup other ∙ there
    ];
  }

  gone-IsValid :
      (r : ℕ)
      → lookup r s.endpoints ≡ some (with_place at_end)
      → IsValid (record s { endpoints = erase r s.endpoints })
  gone-IsValid r e = record {
    listed = λ g q p.
        let there = v.listed g q p in
        let other : r ≢ q =
          λ h. absurd (ground (arith, there, e, ap (λ j. lookup j s.endpoints) h)) in
        erase_other r q s.endpoints other ∙ there;
    placed = λ q g p. v.placed q g (erase-some r q (with_place (at_key g)) s.endpoints p);
  }

  left-IsValid :
      (r f : ℕ)
      → lookup r s.endpoints ≡ some (with_place (at_key f))
      → IsValid (record {
        connection_lookup = erase f s.connection_lookup;
        endpoints = erase r s.endpoints;
      })
  left-IsValid r f e = record {
    listed = λ g q p.
        let p' = erase-some f g q s.connection_lookup p in
        let there = v.listed g q p' in
        let other : r ≢ q =
          λ h. not_erased f g q p (same_place f g q (v.placed r f e ∙ ap some h) p') in
        erase_other r q s.endpoints other ∙ there;
    placed = λ q g p.
        let p' = erase-some r q (with_place (at_key g)) s.endpoints p in
        let there = v.placed q g p' in
        let other : f ≢ g = λ h.
          let same : r ≡ q =
            some_inj r q
              (sym (v.placed r f e) ∙ ap (λ j. lookup j s.connection_lookup) h ∙ there) in
          let gone = erase_self r s.endpoints in
          absurd (ground (arith, p, gone, ap (λ j. lookup j (erase r s.endpoints)) same)) in
        erase_other f g s.connection_lookup other ∙ there;
  }

-- What ejecting leaves: a table with no such key, and the objects with no place as they were.
record Ejected (s s' : C2Server) (f : ℕ) : Type 0 where
  valid : IsValid s'
  free : lookup f s'.connection_lookup ≡ none
  same :
      (r : ℕ)
      → lookup r s.endpoints ≡ some (with_place unset)
      → lookup r s'.endpoints ≡ some (with_place unset)

eject-Ejected : (s : C2Server) (f : ℕ) → IsValid s → Ejected s (eject s f).0 f
eject-Ejected s f v = elim (Option-cases (lookup f s.connection_lookup)) [
  | inl e ↦
      subst (λ t. Ejected s t.0 f) (sym (eject-none s f e))
        (record { valid = v; free = e; same = λ r p. p })
  | inr (o, e) ↦
      subst (λ t. Ejected s t.0 f) (sym (eject-some s f o e))
        (record {
          valid = ejected-IsValid s v f o e;
          free = erase_self f s.connection_lookup;
          same = λ r p.
              let other : o ≢ r =
                λ h. absurd (ground (arith, p, v.listed f o e, ap (λ k. lookup k s.endpoints) h)) in
              assign_other o r (with_place at_end) s.endpoints other ∙ p;
        })
]

pub enter-IsValid :
    (s : C2Server) (r f : ℕ)
    → IsValid s
    → lookup r s.endpoints ≡ some (with_place unset)
    → IsValid (enter s r f).0 × (lookup f (enter s r f).0.connection_lookup ≡ some r)
unfolding enter
enter-IsValid s r f v e =
    let w = eject-Ejected s f v in
    (
      entered-IsValid (eject s f).0 w.valid r f (w.same r e) w.free,
      assign_self f r (eject s f).0.connection_lookup,
    )

-- A client that opens its session, anonymous or not, leaves the table and the places in agreement.
pub on_open-IsValid :
    (s : C2Server) (r : ℕ) (user : Option ℕ)
    → IsValid s
    → lookup r s.endpoints ≡ some (with_place unset)
    → IsValid (on_open s r user).0
unfolding on_open
on_open-IsValid s r none v e = (enter-IsValid s r 1 v e).0
on_open-IsValid s r (some f) v e = (enter-IsValid s r f v e).0

pub connect-IsValid :
    (s : C2Server) (r : ℕ) → IsValid s → lookup r s.endpoints ≡ none → IsValid (connect s r)
unfolding connect
connect-IsValid s r v e = record {
  listed = λ g q p.
      let there = v.listed g q p in
      let other : r ≢ q =
        λ h. absurd (ground (arith, there, e, ap (λ j. lookup j s.endpoints) h)) in
      assign_other r q (with_place unset) s.endpoints other ∙ there;
  placed = λ q g p.
      elim (assign_cases r q (with_place unset) (with_place (at_key g)) s.endpoints p) [
        | inl (_, h) ↦ absurd (ground (arith, h))
        | inr p' ↦ v.placed q g p'
      ];
}

pub closes_at :
    (s : C2Server) (r : ℕ) (place : Place)
    → IsValid s
    → lookup r s.endpoints ≡ some (with_place place)
    → place ≢ unset
    → (s' : C2Server) × (on_close s r ≡ some s') × IsValid s' × (lookup r s'.endpoints ≡ none)
unfolding on_close leave
closes_at s r unset v e n = absurd (n refl)
closes_at s r at_end v e n = (
  record s { endpoints = erase r s.endpoints },
  rw e refl,
  gone-IsValid s v r e,
  erase_self r s.endpoints,
)
closes_at s r (at_key f) v e n =
    let own : (r == r) ≡ true = ground arith in
    (
      record { connection_lookup = erase f s.connection_lookup; endpoints = erase r s.endpoints },
      rw (e, v.placed r f e, own) refl,
      left-IsValid s v r f e,
      erase_self r s.endpoints,
    )
