-- ===== src/Blob/Edit/Resize.antt =====
-- The active area of a blob: `resize`, `resize_min`, `capacity_min`, and `copy_from` into it.
use natbuster.Prelude.{
  ℕ, ◌+◌, ◌-◌, ◌*◌, ◌≤◌, ◌<◌, ◌≡◌, refl, ap, sym, ◌∙◌, true, inl, inr, some, arith, take, drop,
  u32_mod, Bool-cases, ltb, min, max, take-take-min, take_all, drop-drop, subst, drop-take, ◌^◌,
}
use natbuster.Blob.{Blob, IsValid, Holds, bytes}
use natbuster.Blob.Grow.{Grown, grow_gap_lem, dbg_self_test_of_IsValid, length-bytes}
use natbuster.Blob.Edit.{resize_from, resize, resize_min, capacity_min}

-- A blob whose window now runs from `start` to `end`, counted in the old one: the bytes that lie in
-- both windows are the same.
pub record Resized (b b' : Blob) (start end : ℕ) : Type 0 where
  pub valid : IsValid b'
  pub sized : b'.size ≡ end - start
  pub pre_bound : b'.pre_gap ≤ b.pre_gap + start
  pub bound : b'.capacity ≤ max b.capacity (b.pre_gap + b.size + 2 * (end - b.size))
  pub kept : take (min b.size end - start) (bytes b') ≡ drop start (take end (bytes b))

module _ (b g : Blob) (start end : ℕ) (v : IsValid b) (p : Grown b g 0 (end - b.size))
    (h : start ≤ end) where
  abbrev rewindowed : Blob
  rewindowed = record g { pre_gap = g.pre_gap + start; size = end - start }

  window : take (min b.size end - start) (bytes rewindowed) ≡ drop start (take end (bytes g))
  window =
      let e : min (min b.size end - start) (end - start) ≡ min end b.size - start = omega arith in
      let e' : min end g.size ≡ min end b.size = omega (arith, p.same_size) in
      take-take-min (min b.size end - start) (end - start) (drop (g.pre_gap + start) g.buffer)
      ∙ ap (λ k. take k (drop (g.pre_gap + start) g.buffer)) e
      ∙ ap (take (min end b.size - start)) (sym (drop-drop start g.pre_gap g.buffer))
      ∙ sym (drop-take start (min end b.size) (drop g.pre_gap g.buffer))
      ∙ ap (λ k. drop start (take k (drop g.pre_gap g.buffer))) (sym e')
      ∙ ap (drop start) (sym (take-take-min end g.size (drop g.pre_gap g.buffer)))

  rewindowed-Resized : Resized b rewindowed start end
  rewindowed-Resized = record {
    valid = record {
      allocated = p.valid.allocated;
      within = omega (arith, p.end_room, p.same_size);
      word = p.valid.word;
    };
    sized = refl;
    pre_bound = omega (arith, p.pre_bound);
    bound = omega (arith, p.bound);
    kept = window ∙ ap (λ k. drop start (take end k)) p.same_bytes;
  }

-- `resize(new_start, new_end)` with `0 ≤ new_start ≤ new_end` on a valid blob succeeds while the
-- sizes stay below 2^32, and shows the window from `new_start` to `new_end` of the old bytes.
pub resize_from_lem :
    (b : Blob) (new_start new_end : ℕ)
    → IsValid b
    → new_start ≤ new_end
    → new_start < 2 ^ 31
    → b.capacity + 2 * new_end < u32_mod
    → (b' : Blob) × (resize_from b new_start new_end ≡ some b') × Resized b b' new_start new_end
unfolding resize_from
resize_from_lem b new_start new_end v h s w =
    let (g, e, p) = grow_gap_lem b 0 (new_end - b.size) true v (omega arith) in
    let done = rewindowed-Resized b g new_start new_end v p h in
    (
      rewindowed b g new_start new_end v p h,
      ground (
        arith,
        e,
        p.same_size,
        p.end_room,
        p.valid.word,
        dbg_self_test_of_IsValid b v,
        dbg_self_test_of_IsValid (rewindowed b g new_start new_end v p h) done.valid,
      ),
      done,
    )

pub resize_lem :
    (b : Blob) (new_end : ℕ)
    → IsValid b
    → b.capacity + 2 * new_end < u32_mod
    → (b' : Blob) × (resize b new_end ≡ some b') × Resized b b' 0 new_end
unfolding resize
resize_lem b new_end v w = resize_from_lem b 0 new_end v (omega arith) (omega arith) w

-- `resize_min` on a valid blob succeeds while the sizes stay below 2^32; the blob has at least
-- `min_len` bytes then, and its first bytes are the old ones.
pub resize_min_lem :
    (b : Blob) (min_len : ℕ)
    → IsValid b
    → b.capacity + 2 * min_len < u32_mod
    → (b' : Blob) × (resize_min b min_len ≡ some b') × Resized b b' 0 (max b.size min_len)
unfolding resize_min
resize_min_lem b min_len v h = elim (Bool-cases (ltb b.size min_len)) [
  | inl more ↦
      let (g, e, p) = grow_gap_lem b 0 (min_len - b.size) true v (omega arith) in
      let r : min_len ≡ max b.size min_len = ground arith in
      (
        rewindowed b g 0 min_len v p (omega arith),
        ground (arith, e, more),
        subst (λ k. Resized b (rewindowed b g 0 min_len v p (omega arith)) 0 k) r
            (rewindowed-Resized b g 0 min_len v p (omega arith)),
      )
  | inr less ↦
      let r : b.size ≤ max b.size min_len = omega arith in
      let s : max b.size min_len ≡ b.size = ground arith in
      (
        b,
        ground (arith, less),
        record {
          valid = v;
          sized = omega (arith, s);
          pre_bound = omega arith;
          bound = omega arith;
          kept =
              take_all (min b.size (max b.size min_len) - 0) (bytes b)
                (omega (arith, s, length-bytes b v))
              ∙ sym (take_all (max b.size min_len) (bytes b) (omega (arith, s, length-bytes b v)));
        },
      )
]

-- After `capacity_min` the allocation has at least `min_cap` bytes, and the blob shows what it did.
pub capacity_min_lem :
    (b : Blob) (min_cap : ℕ)
    → IsValid b
    → b.capacity + 2 * min_cap < u32_mod
    → (b' : Blob) × (capacity_min b min_cap ≡ some b')
      × Holds b' (bytes b)
      × (min_cap ≤ b'.capacity)
unfolding capacity_min
capacity_min_lem b min_cap v h = elim (Bool-cases (ltb b.capacity min_cap)) [
  | inl more ↦
      let (g, e, p) = grow_gap_lem b 0 (min_cap - b.size) true v (omega arith) in
      (
        g,
        ground (arith, e, more),
        record { valid = p.valid; content = p.same_bytes },
        omega (arith, p.end_room, p.same_size),
      )
  | inr less ↦ (b, ground (arith, less), record { valid = v; content = refl }, ground arith)
]
