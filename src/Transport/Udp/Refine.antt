-- ===== src/Transport/Udp/Refine.antt =====
-- `on_receive` of common/transport/opt_udp.cpp, on the frames of a stream that come in any order, more
-- than once or not at all.
use natbuster.Prelude.{
  ℕ, suc, ◌*◌, ◌≤◌, ◌<◌, ◌^◌, ◌≡◌, ◌≢◌, ◌⊎◌, inl, inr, refl, ap, sym, ◌∙◌, true, false, none, some,
  List, [], ◌∷◌, ◌++◌, arith, length, get_elem?, get_or, sub32, Option-cases, append-nil, subst,
  ltb, leb, leb→le, lt→ltb, get_elem?-lt, Bool-cases,
}
use natbuster.Prelude.Bytes.{le32}
use natbuster.Prelude.Assoc.{lookup, insert, insert_self, insert_other, insert_present}
use natbuster.Transport.Udp.{
  Effect, datagram, Estimator, Settings, State, try_reassemble, on_data, on_receive, dispatch,
  seq_of, is_data, pkt_ack,
}
use natbuster.Transport.Udp.Frames.{Output, in_order, IsFrame}
use natbuster.Transport.Udp.Receive.{Held, packets, reassemble_loop_lem}
use mathlib.Core.List.{Memᴰ}
use mathlib.Core.List.Memᴰ
use native.Mathlib.Decide.{ℕ_discrete}

-- The state between calls: the next frame has not come.
pub record Received {E : Estimator} (fs : List (List ℕ)) (arrived : List ℕ) (out : List Effect)
    (s : State E) : Type 0 where
  pub n : ℕ
  pub held : Held fs arrived out s n
  pub waits : lookup s.rx_seq s.receive_map ≡ none

not_head : (i j : ℕ) (arrived : List ℕ) → i ≢ j → Memᴰ j (i ∷ arrived) → Memᴰ j arrived
not_head i j arrived h m = elim (Memᴰ.cases_cons m) [ inl e ↦ absurd (h (sym e)) | inr l ↦ l ]

pub on_receive_data :
    {E : Estimator} (c : Settings) (s : State E) (now : ℕ) (p : List ℕ)
    → is_data (get_or p 0 0) ≡ true
    → on_receive c s now p ≡ on_data s p
unfolding on_receive dispatch
on_receive_data c s now [] e = absurd (ground (arith, e))
on_receive_data c s now (type ∷ rest) e = ground (arith, e)

nothing : packets [] ≡ []
unfolding packets
nothing = refl

pub on_data_later :
    {E : Estimator} (s : State E) (p : List ℕ) (seq : ℕ)
    → 5 ≤ length p
    → seq_of p ≡ seq
    → sub32 seq s.rx_seq < 2 ^ 31
    → (t : State E × List Effect)
    → try_reassemble (record s { receive_map = insert seq p s.receive_map }) ≡ some t
    → on_data s p ≡ some (t.0, datagram (pkt_ack ∷ le32 seq) ∷ t.1)
unfolding on_data
on_data_later s p seq h n w t e =
    let long : ltb (length p) 5 ≡ false = ground (arith, h) in
    let ahead : ltb (sub32 seq s.rx_seq) (2 ^ 31) ≡ true = lt→ltb _ _ w in
    rw (long, n, ahead, e) refl

pub on_data_earlier :
    {E : Estimator} (s : State E) (p : List ℕ) (seq : ℕ)
    → 5 ≤ length p
    → seq_of p ≡ seq
    → 2 ^ 31 ≤ sub32 seq s.rx_seq
    → on_data s p ≡ some (s, datagram (pkt_ack ∷ le32 seq) ∷ [])
unfolding on_data
on_data_earlier s p seq h n w =
    let long : ltb (length p) 5 ≡ false = ground (arith, h) in
    let behind : ltb (sub32 seq s.rx_seq) (2 ^ 31) ≡ false = ground (arith, w) in
    rw (long, n, behind) refl

module _ {E : Estimator} (fs : List (List ℕ)) (whole : Output) (makes : in_order [] fs ≡ some whole)
    (small : 64 * length fs < 2 ^ 31) where
  more_arrived :
      (arrived : List ℕ) (out : List Effect) (s : State E) (n i : ℕ)
      → Held fs arrived out s n
      → (i < n) ⊎ (lookup (64 * i) s.receive_map ≡ get_elem? fs i)
      → Held fs (i ∷ arrived) out s n
  more_arrived arrived out s n i v here = record {
    bound = v.bound;
    next = v.next;
    done = v.done;
    known = v.known;
    kept = λ j m. elim (Memᴰ.cases_cons m) [
      | inl e ↦ subst (λ k. (k < n) ⊎ (lookup (64 * k) s.receive_map ≡ get_elem? fs k)) (sym e) here
      | inr l ↦ v.kept j l
    ];
  }

  inserted :
      (arrived : List ℕ) (out : List Effect) (s : State E) (n i : ℕ) (p : List ℕ)
      → Held fs arrived out s n
      → get_elem? fs i ≡ some p
      → Held fs (i ∷ arrived) out (record s { receive_map = insert (64 * i) p s.receive_map }) n
  inserted arrived out s n i p v g = elim (Option-cases (lookup (64 * i) s.receive_map)) [
    | inl e ↦ record {
      bound = v.bound;
      next = v.next;
      done = v.done;
      known = λ q r l. elim (ℕ_discrete (64 * i) q) [
        | yes h ↦ (
          i,
          sym h,
          g
              ∙ sym (insert_self (64 * i) p s.receive_map e)
              ∙ ap (λ k. lookup k (insert (64 * i) p s.receive_map)) h
              ∙ l,
        )
        | no h ↦ v.known q r (sym (insert_other (64 * i) q p s.receive_map h) ∙ l)
      ];
      kept = λ j m. elim (ℕ_discrete i j) [
        | yes h ↦
            subst
              (λ k. (k < n) ⊎ (lookup (64 * k) (insert (64 * i) p s.receive_map) ≡ get_elem? fs k))
              h (inr (insert_self (64 * i) p s.receive_map e ∙ sym g))
        | no h ↦ elim (v.kept j (not_head i j arrived h m)) [
          | inl l ↦ inl l
          | inr l ↦ inr (insert_other (64 * i) (64 * j) p s.receive_map (omega (arith, h)) ∙ l)
        ]
      ];
    }
    | inr (w, e) ↦
        let (j, at, g') = v.known (64 * i) w e in
        let same : j ≡ i = omega (arith, at) in
        rw (insert_present (64 * i) p w s.receive_map e) (
          more_arrived arrived out s n i v
            (inr (e ∙ sym (subst (λ k. get_elem? fs k ≡ some w) same g'))))
  ]

  pub on_receive_frame :
      (c : Settings) (s : State E) (now i : ℕ) (p : List ℕ) (arrived : List ℕ) (out : List Effect)
      → Received fs arrived out s
      → get_elem? fs i ≡ some p
      → IsFrame (64 * i) p
      → (s' : State E) × (new : List Effect) × (on_receive c s now p
          ≡ some (s', datagram (pkt_ack ∷ le32 (64 * i)) ∷ new))
        × (packets new ≡ new)
        × Received fs (i ∷ arrived) (out ++ new) s'
  unfolding try_reassemble
  on_receive_frame c s now i p arrived out v g f =
      let start = on_receive_data c s now p f.typed in
      let inside = get_elem?-lt i fs p g in
      elim (Bool-cases (leb v.n i)) [
        | inl later ↦
            let le : v.n ≤ i = leb→le v.n i later in
            let s1 : State E = record s { receive_map = insert (64 * i) p s.receive_map } in
            let (s', new, n', run, only, held, waits) =
              reassemble_loop_lem fs (i ∷ arrived) whole makes small (suc (length s1.receive_map))
                s1 v.n out (omega arith) (inserted arrived out s v.n i p v.held g) in
            (
              s',
              new,
              start
                  ∙ on_data_later s p (64 * i) f.sized f.numbered
                      (omega (arith, v.held.next, le, inside)) (s', new) run,
              only,
              record { n = n'; held = held; waits = waits },
            )
        | inr earlier ↦
            let lt : i < v.n = ground (arith, earlier) in
            (
              s,
              [],
              start
                  ∙ on_data_earlier s p (64 * i) f.sized f.numbered
                      (omega (arith, v.held.next, lt, inside, v.held.bound)),
              nothing,
              record {
                n = v.n;
                held = rw append-nil (more_arrived arrived out s v.n i v.held (inl lt));
                waits = v.waits;
              },
            )
      ]
