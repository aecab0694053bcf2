-- ===== src/Transport/Tcp/Buffer.antt =====
-- The reassembly list is a queue of bytes, however it is cut.
use natbuster.Prelude.{
  ℕ, zero, suc, ◌-◌, ◌≤◌, ◌<◌, ◌≡◌, refl, ap, sym, ◌∙◌, none, some, inl, inr, List, [], ◌∷◌, ◌++◌,
  arith, leb, ◌==◌, length, take, drop, min, u32_mod, length-append, Bool-cases, drop_all,
  length-drop, append-nil, if◌then◌else◌,
}
use natbuster.Transport.Tcp.{State, peek_loop, read_loop, peek_from, read_from}

abbrev pub stream : List (List ℕ) → List ℕ
stream [] = []
stream (f ∷ fs) = f ++ stream fs

-- The counter says how many bytes the list holds, and that is a word.
pub record IsValid (s : State) : Type 0 where
  pub counted : s.total_len ≡ length (stream s.frags)
  pub word : s.total_len < u32_mod

-- Taking `need` bytes of two pieces.
take-pieces :
    (f r : List ℕ) (need : ℕ)
    → take need (f ++ r) ≡ take (min need (length f)) f ++ take (need - min need (length f)) r
take-pieces [] r need =
    let e : min need 0 ≡ 0 = omega arith in let e' : need - 0 ≡ need = omega arith in rw (e, e')
take-pieces (x ∷ f) r zero = let e : min 0 (suc (length f)) ≡ 0 = omega arith in rw e
take-pieces (x ∷ f) r (suc need) =
    let e : min (suc need) (suc (length f)) ≡ suc (min need (length f)) = omega arith in
    let e' : suc need - suc (min need (length f)) ≡ need - min need (length f) = omega arith in
    rw (e, e') (ap (λ k. x ∷ k) (take-pieces f r need))

drop-pieces :
    (f r : List ℕ) (need : ℕ)
    → drop need (f ++ r) ≡ drop (min need (length f)) f ++ drop (need - min need (length f)) r
drop-pieces [] r need =
    let e : min need 0 ≡ 0 = omega arith in let e' : need - 0 ≡ need = omega arith in rw (e, e')
drop-pieces (x ∷ f) r zero = let e : min 0 (suc (length f)) ≡ 0 = omega arith in rw e
drop-pieces (x ∷ f) r (suc need) =
    let e : min (suc need) (suc (length f)) ≡ suc (min need (length f)) = omega arith in
    let e' : suc need - suc (min need (length f)) ≡ need - min need (length f) = omega arith in
    rw (e, e') (drop-pieces f r need)

peek_loop_lem :
    (fs : List (List ℕ)) (need : ℕ)
    → need ≤ length (stream fs)
    → peek_loop fs need ≡ some (take need (stream fs))
unfolding peek_loop
peek_loop_lem [] need h = ground arith
peek_loop_lem (f ∷ fs) need h = ground (
  arith,
  take-pieces f (stream fs) need,
  length-append f (stream fs),
  peek_loop_lem fs (need - min need (length f)),
)

-- What a read of `need` bytes returns and leaves.
record Took (fs : List (List ℕ)) (total need : ℕ) (out : List ℕ × State) : Type 0 where
  bytes : out.0 ≡ take need (stream fs)
  left : stream out.1.frags ≡ drop need (stream fs)
  counts : out.1.total_len ≡ total - need

read_loop_lem :
    (fs : List (List ℕ)) (total need : ℕ)
    → need ≤ length (stream fs)
    → need ≤ total
    → total < u32_mod
    → (out : List ℕ × State) × (read_loop fs total need ≡ some out) × Took fs total need out
unfolding read_loop
read_loop_lem [] total need h k w =
    let e : need ≡ 0 = omega arith in
    (
      ([], record { total_len = total; frags = [] }),
      ground arith,
      record { bytes = ground arith; left = ground arith; counts = omega arith },
    )
read_loop_lem (f ∷ fs) total need h k w =
    let n : ℕ = min need (length f) in
    let la = length-append f (stream fs) in
    let (r, e, p) =
      read_loop_lem fs (total - n) (need - n) (omega (arith, la)) (omega arith) (omega arith) in
    let tp = take-pieces f (stream fs) need in
    let dp = drop-pieces f (stream fs) need in
    elim (Bool-cases (need == 0)) [
      | inl stopped ↦
          let z : need ≡ 0 = ground arith in
          (
            ([], record { total_len = total; frags = f ∷ fs }),
            ground (arith, stopped),
            rw z (record { bytes = refl; left = refl; counts = omega arith }),
          )
      | inr more ↦ elim (Bool-cases (length (drop n f) == 0)) [
        | inl spent ↦ (
          (take n f ++ r.0, r.1),
          ground (arith, more, spent, e),
          record {
            bytes = ap (λ k. take n f ++ k) p.bytes ∙ sym tp;
            left =
                p.left
                ∙ ap (λ k. k ++ drop (need - n) (stream fs))
                    (sym (drop_all n f (ground (arith, length-drop n f))))
                ∙ sym dp;
            counts = omega (arith, p.counts);
          },
        )
        | inr some_left ↦
            let z : need - n ≡ 0 = ground (arith, length-drop n f) in
            (
              (take n f, record { total_len = total - n; frags = drop n f ∷ fs }),
              ground (arith, more, some_left, z),
              record {
                bytes =
                    sym (tp ∙ ap (λ k. take n f ++ take k (stream fs)) z ∙ append-nil (take n f));
                left = sym (dp ∙ ap (λ k. drop n f ++ drop k (stream fs)) z);
                counts = omega (arith, z);
              },
            )
      ]
    ]

-- A peek returns the first bytes and changes nothing; it fails exactly if there are too few.
pub peek_from_lem :
    (s : State) (need : ℕ)
    → IsValid s
    → peek_from s need
      ≡ some
          (if leb need (length (stream s.frags)) then some (take need (stream s.frags)) else none)
unfolding peek_from
peek_from_lem s need v = ground (arith, v, peek_loop_lem s.frags need)

pub record Reads (s : State) (need : ℕ) (out : List ℕ × State) : Type 0 where
  pub bytes : out.0 ≡ take need (stream s.frags)
  pub left : stream out.1.frags ≡ drop need (stream s.frags)
  pub valid : IsValid out.1

-- A read of what is there takes the first bytes off, whatever the cut of the list.
pub read_from_lem :
    (s : State) (need : ℕ)
    → IsValid s
    → need ≤ length (stream s.frags)
    → (out : List ℕ × State) × (read_from s need ≡ some (some out)) × Reads s need out
unfolding read_from
read_from_lem s need v h =
    let (out, e, p) = read_loop_lem s.frags s.total_len need h (omega (arith, v)) v.word in
    (
      out,
      ground (arith, v, e),
      record {
        bytes = p.bytes;
        left = p.left;
        valid = record {
          counted =
              omega
                (arith, p.counts, ap length p.left, length-drop need (stream s.frags), v.counted);
          word = omega (arith, p.counts, v.word);
        };
      },
    )

pub read_from_short :
    (s : State) (need : ℕ)
    → IsValid s
    → length (stream s.frags) < need
    → read_from s need ≡ some none
unfolding read_from
read_from_short s need v h = ground (arith, v)
