-- ===== src/Blob/Edit/Splices.antt =====
-- How a write into the buffer of a blob shows in its bytes.
use natbuster.Prelude.{
  ℕ, zero, suc, ◌+◌, ◌-◌, ◌≤◌, ◌<◌, ◌≡◌, refl, ap, sym, ◌∙◌, some, List, [], ◌∷◌, ◌++◌, arith,
  length, take, drop, u32_mod, length-drop, length-take, take-append_ge, take_all, append-nil,
  drop_all, take-take, drop-drop,
}
use natbuster.Prelude.Bytes.{splice, drop-splice, take-splice}
use natbuster.Blob.{Blob}
use natbuster.Blob.Grow.{bufcpy_fits}
use natbuster.Blob.Edit.{put_bytes}

-- `put_bytes` writes inside the allocation.
pub put_bytes_lem :
    (b : Blob) (off : ℕ) (src : List ℕ)
    → length b.buffer ≡ b.capacity
    → b.capacity < u32_mod
    → off + length src ≤ b.capacity
    → put_bytes b off src ≡ some (record b { buffer = splice b.buffer off src })
unfolding put_bytes
put_bytes_lem b off src a w h =
    rw
      (bufcpy_fits b.buffer b.capacity off src (length src) 0 (length src) h (sym a) w (omega arith)
        refl (omega arith))
      (ap (λ k. some (record b { buffer = splice b.buffer off k }))
        (take_all (length src) src (omega arith)))

-- A write that starts a window of the buffer.
pub take-splice_zero :
    (buf : List ℕ) (n : ℕ) (src : List ℕ)
    → length src ≤ n
    → take n (splice buf 0 src) ≡ src ++ take (n - length src) (drop (length src) buf)
unfolding splice
take-splice_zero buf n src h = take-append_ge n src (drop (length src) buf) h

-- A write behind the first `n` items appends.
pub splice_end :
    (buf : List ℕ) (n : ℕ) (src : List ℕ)
    → n + length src ≡ length buf
    → splice buf n src ≡ take n buf ++ src
unfolding splice
splice_end buf zero src h = rw (drop_all (length src) buf (omega arith)) (append-nil src)
splice_end [] (suc n) src h = absurd (omega arith)
splice_end (x ∷ buf) (suc n) src h = ap (λ r. x ∷ r) (splice_end buf n src (omega arith))

module _ (buf : List ℕ) (pre size : ℕ) (src : List ℕ) where
  -- Writing behind the window, and widening it by as much, appends.
  pub window-append :
      pre + size + length src ≤ length buf
      → take (size + length src) (drop pre (splice buf (pre + size) src))
        ≡ take size (drop pre buf) ++ src
  window-append h =
      let e : pre + size - pre ≡ size = omega arith in
      ap (take (size + length src))
        (drop-splice pre buf (pre + size) src (omega arith) (omega arith))
      ∙ ap (λ k. take (size + length src) (splice (drop pre buf) k src)) e
      ∙ take-splice (size + length src) (drop pre buf) size src (omega arith)
      ∙ splice_end (take (size + length src) (drop pre buf)) size src
          (omega (arith, length-take (size + length src) (drop pre buf), length-drop pre buf))
      ∙ ap (λ k. k ++ src) (take-take size (size + length src) (drop pre buf) (omega arith))

  -- Writing before the window, and widening it by as much, prepends.
  pub window-prepend :
      length src ≤ pre
      → pre ≤ length buf
      → take (length src + size) (drop (pre - length src) (splice buf (pre - length src) src))
        ≡ src ++ take size (drop pre buf)
  window-prepend h l =
      let o : ℕ = pre - length src in
      let e : pre - length src - (pre - length src) ≡ 0 = omega arith in
      let e' : length src + size - length src ≡ size = omega arith in
      let e'' : pre - length src + length src ≡ pre = omega arith in
      ap (take (length src + size)) (drop-splice o buf o src (omega arith) (omega arith))
      ∙ ap (λ k. take (length src + size) (splice (drop o buf) k src)) e
      ∙ take-splice_zero (drop o buf) (length src + size) src (omega arith)
      ∙ ap (λ k. src ++ take k (drop (length src) (drop o buf))) e'
      ∙ ap (λ k. src ++ take size k) (drop-drop (length src) o buf)
      ∙ ap (λ k. src ++ take size (drop k buf)) e''

  -- Writing inside the window overwrites there.
  pub window-splice :
      (n : ℕ)
      → size + length src ≤ n
      → pre + n ≤ length buf
      → take n (drop pre (splice buf (pre + size) src)) ≡ splice (take n (drop pre buf)) size src
  window-splice n h l =
      let e : pre + size - pre ≡ size = omega arith in
      ap (take n) (drop-splice pre buf (pre + size) src (omega arith) (omega arith))
      ∙ ap (λ k. take n (splice (drop pre buf) k src)) e
      ∙ take-splice n (drop pre buf) size src h
