-- ===== src/Blob/Edit/Copy.antt =====
-- `copy_from` of a blob: bytes written over its own.
use natbuster.Prelude.{
  ℕ, zero, suc, [], ◌∷◌, leb→le, ◌+◌, ◌-◌, ◌*◌, ◌≤◌, ◌<◌, ◌≡◌, ap, sym, ◌∙◌, inl, inr, some, List,
  ◌++◌, arith, length, take, drop, u32_mod, Bool-cases, leb, min, max, take-take, take_all,
  drop_all,
}
use natbuster.Prelude.Bytes.{splice, length-splice}
use natbuster.Blob.{Blob, IsValid, Holds, bytes}
use natbuster.Blob.Grow.{length-bytes}
use natbuster.Blob.Edit.{resize_min, copy_from}
use natbuster.Blob.Edit.Splices.{put_bytes_lem, window-splice}
use natbuster.Blob.Edit.Resize.{Resized, resize_min_lem}

-- `xs` with `src` written over it from an index on.
abbrev pub overwrite : List ℕ → ℕ → List ℕ → List ℕ
overwrite xs off src = take off xs ++ (src ++ drop (off + length src) xs)

splice-overwrite :
    (xs : List ℕ) (off : ℕ) (src : List ℕ)
    → off ≤ length xs
    → splice xs off src ≡ overwrite xs off src
unfolding splice
splice-overwrite xs zero src h = ap (λ k. src ++ drop k xs) (omega arith)
splice-overwrite [] (suc off) src h = absurd (omega arith)
splice-overwrite (x ∷ xs) (suc off) src h =
    let e : suc off + length src ≡ suc (off + length src) = omega arith in
    rw e (ap (λ r. x ∷ r) (splice-overwrite xs off src (omega arith)))

module _ (b r : Blob) (v : IsValid b) (off : ℕ) (src : List ℕ) (h : off ≤ b.size)
    (p : Resized b r 0 (max b.size (off + length src))) where
  abbrev written : Blob
  written = record r { buffer = splice r.buffer (r.pre_gap + off) src }

  starts : take b.size (bytes r) ≡ bytes b
  starts =
      let e : min b.size (max b.size (off + length src)) - 0 ≡ b.size = omega arith in
      ap (λ k. take k (bytes r)) (sym e)
      ∙ p.kept
      ∙ take_all (max b.size (off + length src)) (bytes b) (omega (arith, length-bytes b v))

  -- The bytes behind the written ones are the old blob's, if there are any.
  tail_same : drop (off + length src) (bytes r) ≡ drop (off + length src) (bytes b)
  tail_same = elim (Bool-cases (leb b.size (off + length src))) [
    | inl past ↦
        drop_all (off + length src) (bytes r)
          (omega (arith, leb→le b.size (off + length src) past, length-bytes r p.valid, p.sized))
        ∙ sym (
            drop_all (off + length src) (bytes b)
              (omega (arith, leb→le b.size (off + length src) past, length-bytes b v)))
    | inr inside ↦
        let s : length (bytes r) ≤ b.size = ground (arith, length-bytes r p.valid, p.sized) in
        ap (drop (off + length src)) (sym (take_all b.size (bytes r) s) ∙ starts)
  ]

  written-Holds : Holds written (overwrite (bytes b) off src)
  written-Holds = record {
    valid = record {
      allocated =
          length-splice r.buffer (r.pre_gap + off) src (omega (arith, p.valid, p.sized))
          ∙ p.valid.allocated;
      within = p.valid.within;
      word = p.valid.word;
    };
    content =
        window-splice r.buffer r.pre_gap off src r.size (omega (arith, p.sized))
          (omega (arith, p.valid))
        ∙ splice-overwrite (bytes r) off src (omega (arith, length-bytes r p.valid, p.sized))
        ∙ ap (λ k. k ++ (src ++ drop (off + length src) (bytes r)))
            (sym (take-take off b.size (bytes r) h) ∙ ap (take off) starts)
        ∙ ap (λ k. take off (bytes b) ++ (src ++ k)) tail_same;
  }

-- `copy_from` at an offset inside a valid blob, or at its end, succeeds while the sizes stay below
-- 2^32; the result shows the old bytes with those of `src` written over them, and is longer if they
-- reach past the end.
pub copy_from_lem :
    (b : Blob) (src : List ℕ) (dst_offset : ℕ)
    → IsValid b
    → dst_offset ≤ b.size
    → b.capacity + 2 * (dst_offset + length src) < u32_mod
    → (b' : Blob) × (copy_from b src dst_offset ≡ some b')
      × Holds b' (overwrite (bytes b) dst_offset src)
unfolding copy_from
copy_from_lem b src off v h w =
    let (r, e, p) = resize_min_lem b (off + length src) v w in
    (
      written b r v off src h p,
      ground (
        arith,
        e,
        p.sized,
        p.valid,
        put_bytes_lem r (off + r.pre_gap) src p.valid.allocated p.valid.word
            (omega (arith, p.valid, p.sized)),
      ),
      written-Holds b r v off src h p,
    )

-- A copy that stays inside the active area moves and reallocates nothing.
pub copy_from_inside :
    (b : Blob) (src : List ℕ) (dst_offset : ℕ)
    → IsValid b
    → dst_offset + length src ≤ b.size
    → copy_from b src dst_offset
      ≡ some (record b { buffer = splice b.buffer (b.pre_gap + dst_offset) src })
unfolding copy_from resize_min
copy_from_inside b src off v h =
    let e : off + b.pre_gap ≡ b.pre_gap + off = omega arith in
    ground (
      arith,
      put_bytes_lem b (off + b.pre_gap) src v.allocated v.word (omega (arith, v.within)),
      ap (λ k. splice b.buffer k src) e,
    )

-- What a blob shows after bytes were written inside its active area.
pub splice-Holds :
    (b : Blob) (src : List ℕ) (off : ℕ)
    → IsValid b
    → off + length src ≤ b.size
    → Holds
        (record b { buffer = splice b.buffer (b.pre_gap + off) src })
        (overwrite (bytes b) off src)
splice-Holds b src off v h = record {
  valid = record {
    allocated = length-splice b.buffer (b.pre_gap + off) src (omega (arith, v)) ∙ v.allocated;
    within = v.within;
    word = v.word;
  };
  content =
      window-splice b.buffer b.pre_gap off src b.size h (omega (arith, v))
      ∙ splice-overwrite (bytes b) off src (omega (arith, length-bytes b v));
}
