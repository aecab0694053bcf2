-- ===== src/Transport/Udp/Receive.antt =====
-- The receiving side of common/transport/opt_udp.cpp, against a channel that is reliable and ordered.
use natbuster.Prelude.{
  ℕ, zero, suc, ◌*◌, ◌≤◌, ◌<◌, ◌^◌, ◌≡◌, ◌⊎◌, inl, inr, refl, ap, ap₂, sym, ◌∙◌, none, some, List,
  [], ◌∷◌, ◌++◌, arith, length, take, drop, get_elem?, add32, ◌>>=◌, Option-cases, All-some, All-if,
  All-bind, take-append-drop, drop-get_elem?, take-get_elem?, get_elem?-lt, append_assoc,
  append-nil,
}
use natbuster.Prelude.Assoc.{lookup, erase, erase-some, erase_other, length-erase}
use natbuster.Transport.Udp.{
  Effect, append_packet, Estimator, State, reassemble_loop, assembled, ends_frame, packet,
}
use natbuster.Transport.Udp.Frames.{Output, in_order, in_order-append}
use mathlib.Core.List.{Memᴰ}
use native.Mathlib.Decide.{ℕ_discrete}

-- The receiver has taken the first `n` frames in order, and keeps others of those that came.
pub record Held {E : Estimator} (fs : List (List ℕ)) (arrived : List ℕ) (out : List Effect)
    (s : State E) (n : ℕ) : Type 0 where
  pub bound : n ≤ length fs
  pub next : s.rx_seq ≡ 64 * n
  pub done : in_order [] (take n fs) ≡ some (s.reassemble_list, out)
  pub known :
      (q : ℕ) (p : List ℕ)
      → lookup q s.receive_map ≡ some p
      → (i : ℕ) × (q ≡ 64 * i) × (get_elem? fs i ≡ some p)
  pub kept : (i : ℕ) → Memᴰ i arrived → (i < n) ⊎ (lookup (64 * i) s.receive_map ≡ get_elem? fs i)

split_at :
    (n : ℕ) (p : List ℕ) (fs : List (List ℕ))
    → get_elem? fs n ≡ some p
    → fs ≡ take n fs ++ (p ∷ drop (suc n) fs)
split_at n p fs g =
    sym (ap (λ r. take n fs ++ r) (sym (drop-get_elem? n fs p g)) ∙ take-append-drop n fs)

-- What a call hands to the layer above.
unfoldable pub packets : List Effect → List Effect
packets [] = []
packets (packet d ∷ es) = packet d ∷ packets es
packets (_ ∷ es) = packets es

pub packets-append : (es fs : List Effect) → packets (es ++ fs) ≡ packets es ++ packets fs
unfolding packets
packets-append [] fs = refl
packets-append (packet d ∷ es) fs = ap (λ r. packet d ∷ r) (packets-append es fs)
packets-append (_ ∷ es) fs = packets-append es fs

append_packet-packets :
    (list : List (List ℕ)) (p : List ℕ) (r : Output)
    → append_packet list p ≡ some r
    → packets r.1 ≡ r.1
unfolding append_packet packets
append_packet-packets list p r e =
    let P : Output → Type 0 = λ r. packets r.1 ≡ r.1 in
    All-some P (append_packet list p) r
      (All-if P (ends_frame p) (assembled (list ++ (p ∷ [])) >>= λ d. some ([], packet d ∷ []))
        (some (list ++ (p ∷ []), []))
        (λ _.
          All-bind P (assembled (list ++ (p ∷ []))) (λ d. some ([], packet d ∷ [])) (λ a _. refl))
        (λ _. refl))
      e

-- The next frame can be taken, if the whole stream makes sense.
next_frame :
    (fs list : List (List ℕ)) (n : ℕ) (p : List ℕ) (out : List Effect) (whole : Output)
    → in_order [] fs ≡ some whole
    → get_elem? fs n ≡ some p
    → in_order [] (take n fs) ≡ some (list, out)
    → (r : Output) × (append_packet list p ≡ some r)
      × (in_order [] (take (suc n) fs) ≡ some (r.0, out ++ r.1))
unfolding in_order
next_frame fs list n p out whole w g e = elim (Option-cases (append_packet list p)) [
  | inl bad ↦
      let none_of : in_order [] (take n fs ++ (p ∷ drop (suc n) fs)) ≡ none =
        in_order-append [] (take n fs) (p ∷ drop (suc n) fs) ∙ rw (e, in_order, bad) refl in
      absurd (ground (arith, sym w ∙ ap (in_order []) (split_at n p fs g) ∙ none_of))
  | inr (r, a) ↦ (
    r,
    a,
    ap (in_order []) (take-get_elem? n fs p g)
        ∙ in_order-append [] (take n fs) (p ∷ [])
        ∙ rw (e, in_order, a) (ap (λ k. some (r.0, out ++ k)) (append-nil r.1)),
  )
]

module _ {E : Estimator} where
  pub loop_none :
      (fuel : ℕ) (s : State E)
      → lookup s.rx_seq s.receive_map ≡ none
      → reassemble_loop (suc fuel) s ≡ some (s, [])
  unfolding reassemble_loop
  loop_none fuel s e = ground (arith, e)

  loop_some :
      (fuel : ℕ) (s : State E) (p : List ℕ) (r : Output) (t : State E × List Effect)
      → lookup s.rx_seq s.receive_map ≡ some p
      → append_packet s.reassemble_list p ≡ some r
      → reassemble_loop fuel (record s {
        receive_map = erase s.rx_seq s.receive_map;
        reassemble_list = r.0;
        rx_seq = add32 s.rx_seq 64;
      })
        ≡ some t
      → reassemble_loop (suc fuel) s ≡ some (t.0, r.1 ++ t.1)
  unfolding reassemble_loop
  loop_some fuel s p r t e a run = ground (arith, e, a, run)

module _ {E : Estimator} (fs : List (List ℕ)) (arrived : List ℕ) (whole : Output)
    (makes : in_order [] fs ≡ some whole) (small : 64 * length fs < 2 ^ 31) where
  -- One round of the loop.
  reassemble_round :
      (s : State E) (n : ℕ) (p : List ℕ) (out : List Effect)
      → Held fs arrived out s n
      → lookup s.rx_seq s.receive_map ≡ some p
      → (r : Output) × (append_packet s.reassemble_list p ≡ some r)
        × Held fs arrived
            (out ++ r.1)
            (record s {
              receive_map = erase s.rx_seq s.receive_map;
              reassemble_list = r.0;
              rx_seq = add32 s.rx_seq 64;
            })
            (suc n)
  reassemble_round s n p out v e =
      let (i, at, g) = v.known s.rx_seq p e in
      let same : i ≡ n = omega (arith, v.next) in
      let g' : get_elem? fs n ≡ some p = rw (sym same) g in
      let (r, a, d) = next_frame fs s.reassemble_list n p out whole makes g' v.done in
      (
        r,
        a,
        record {
          bound = get_elem?-lt n fs p g';
          next = omega (arith, v.next, v.bound);
          done = d;
          known = λ q p' f. v.known q p' (erase-some s.rx_seq q p' s.receive_map f);
          kept = λ j m. elim (v.kept j m) [
            | inl l ↦ inl (omega arith)
            | inr l ↦ elim (ℕ_discrete j n) [
              | yes h ↦ inl (omega arith)
              | no h ↦
                  inr (erase_other s.rx_seq (64 * j) s.receive_map (omega (arith, v.next, h)) ∙ l)
            ]
          ];
        },
      )

  abbrev pub Taken : State E → List Effect → ℕ → Type 0
  Taken s out fuel =
      (s' : State E) × (new : List Effect) × (n : ℕ) × (reassemble_loop fuel s ≡ some (s', new))
      × (packets new ≡ new)
      × Held fs arrived (out ++ new) s' n
      × (lookup s'.rx_seq s'.receive_map ≡ none)

  pub reassemble_loop_lem :
      (fuel : ℕ) (s : State E) (n : ℕ) (out : List Effect)
      → length s.receive_map < fuel
      → Held fs arrived out s n
      → Taken s out fuel
  unfolding packets
  reassemble_loop_lem zero s n out h v = absurd (omega arith)
  reassemble_loop_lem (suc fuel) s n out h v = elim (Option-cases (lookup s.rx_seq s.receive_map)) [
    | inl e ↦ (s, [], n, loop_none fuel s e, refl, rw append-nil v, e)
    | inr (p, e) ↦
        let (r, a, v') = reassemble_round s n p out v e in
        let s1 : State E = record s {
          receive_map = erase s.rx_seq s.receive_map;
          reassemble_list = r.0;
          rx_seq = add32 s.rx_seq 64;
        } in
        let less = length-erase s.rx_seq s.receive_map (λ z. absurd (ground (arith, z, e))) in
        let (s', new, n', run, only, v'', waits) =
          reassemble_loop_lem fuel s1 (suc n) (out ++ r.1) (omega (arith, less)) v' in
        (
          s',
          r.1 ++ new,
          n',
          loop_some fuel s p r (s', new) e a run,
          packets-append r.1 new
              ∙ ap₂ (λ a b. a ++ b) (append_packet-packets s.reassemble_list p r a) only,
          rw (sym (append_assoc out r.1 new)) v'',
          waits,
        )
  ]
