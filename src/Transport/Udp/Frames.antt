-- ===== src/Transport/Udp/Frames.antt =====
-- What the frames of common/transport/opt_udp.cpp mean: those of a stream, numbered in order, and
-- what a receiver hands on that takes each of them once and in order.
use natbuster.Prelude.{
  ℕ, zero, suc, ◌+◌, ◌*◌, ◌%◌, ◌≤◌, ◌<◌, ◌≡◌, refl, ap, sym, true, Option, none, some, List, [],
  ◌∷◌, ◌++◌, arith, length, get_or, get_elem?, u32_mod, add32, ◌>>=◌, append_assoc, Option-cases,
  some_inj, subst, inl, inr,
}
use natbuster.Transport.Udp.{Effect, append_packet, seq_of, is_data, seq_rt_cnt, contents}

-- A data frame that carries the number.
pub record IsFrame (seq : ℕ) (p : List ℕ) : Type 0 where
  pub sized : 5 ≤ length p
  pub numbered : seq_of p ≡ seq
  pub typed : is_data (get_or p 0 0) ≡ true

abbrev pub Numbered : ℕ → List (List ℕ) → Type 0
Numbered seq [] = Unit {0}
Numbered seq (p ∷ ps) = IsFrame seq p × Numbered (add32 seq seq_rt_cnt) ps

-- A reliable ordered channel: the packets that its frames make up, and the frames of one begun.
unfoldable pub in_order : List (List ℕ) → List (List ℕ) → Option (List (List ℕ) × List Effect)
in_order list [] = some (list, [])
in_order list (p ∷ ps) =
    append_packet list p >>= λ r. in_order r.0 ps >>= λ t. some (t.0, r.1 ++ t.1)

abbrev pub Output : Type 0
Output = List (List ℕ) × List Effect

abbrev join : List Effect → Output → Output
join es t = (t.0, es ++ t.1)

abbrev pub then_in_order : List (List ℕ) → Output → Option Output
then_in_order qs r = in_order r.0 qs >>= λ t. some (join r.1 t)

join_assoc :
    (es : List Effect) (qs : List (List ℕ)) (o : Option Output)
    → ((o >>= then_in_order qs) >>= λ t. some (join es t))
      ≡ ((o >>= λ t. some (join es t)) >>= then_in_order qs)
join_assoc es qs none = refl
join_assoc es qs (some (l, fs)) = elim (Option-cases (in_order l qs)) [
  | inl e ↦ rw e refl
  | inr (t, e) ↦ rw e (ap (λ k. some (t.0, k)) (sym (append_assoc es fs t.1)))
]

pub in_order-append :
    (list ps qs : List (List ℕ))
    → in_order list (ps ++ qs) ≡ (in_order list ps >>= then_in_order qs)
unfolding in_order
in_order-append list [] qs = elim (Option-cases (in_order list qs)) [
  | inl e ↦ rw e refl
  | inr (t, e) ↦ rw e refl
]
in_order-append list (p ∷ ps) qs = elim (Option-cases (append_packet list p)) [
  | inl e ↦ rw e refl
  | inr (r, e) ↦ rw (e, in_order-append r.0 ps qs) (join_assoc r.1 qs (in_order r.0 ps))
]

pub contents-append : (xs ys : List (List ℕ)) → contents (xs ++ ys) ≡ contents xs ++ contents ys
unfolding contents
contents-append [] ys = refl
contents-append (x ∷ xs) ys = simp (contents-append xs ys, append_assoc)

-- The number of a frame is its place, while numbers do not wrap around.
pub Numbered-get :
    (k i : ℕ) (ps : List (List ℕ)) (p : List ℕ)
    → 64 * (k + length ps) < u32_mod
    → Numbered (64 * k) ps
    → get_elem? ps i ≡ some p
    → IsFrame (64 * (k + i)) p
Numbered-get k i [] p h f e = cc
Numbered-get k zero (q ∷ ps) p h f e =
    let n : k + 0 ≡ k = omega arith in rw (n, sym (some_inj q p e)) f.0
Numbered-get k (suc i) (q ∷ ps) p h f e =
    let n : k + suc i ≡ suc k + i = omega arith in
    let s : add32 (64 * k) 64 ≡ 64 * suc k = omega arith in
    rw n (Numbered-get (suc k) i ps p (omega arith) (subst (λ s. Numbered s ps) s f.1) e)

pub Numbered-append :
    (seq : ℕ) (ps qs : List (List ℕ))
    → seq < u32_mod
    → Numbered seq ps
    → Numbered ((seq + 64 * length ps) % u32_mod) qs
    → Numbered seq (ps ++ qs)
Numbered-append seq [] qs h f g =
    let n : (seq + 64 * 0) % u32_mod ≡ seq = omega arith in subst (λ s. Numbered s qs) n g
Numbered-append seq (p ∷ ps) qs h f g =
    let n : (seq + 64 * suc (length ps)) % u32_mod ≡ (add32 seq 64 + 64 * length ps) % u32_mod =
      omega arith in
    (f.0, Numbered-append (add32 seq 64) ps qs (omega arith) f.1 (subst (λ s. Numbered s qs) n g))
