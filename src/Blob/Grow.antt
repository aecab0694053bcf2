-- ===== src/Blob/Grow.antt =====
-- `Blob::grow_gap`: room is made, and the bytes in use stay.
use mathlib.Core.Logic.{◌⊎◌}
use natbuster.Prelude.{
  ℕ, ◌+◌, ◌-◌, ◌*◌, ◌≤◌, ◌<◌, ◌≡◌, refl, ap, sym, ◌∙◌, Bool, true, false, some, inl, inr, List, [],
  ◌∷◌, arith, Bool-cases, ltb, length, take, drop, u32_mod, max, length-take, length-drop,
  length-replicate, take-append_at,
}
use natbuster.Prelude.Bytes.{splice, length-splice, drop-splice}
use natbuster.Blob.{
  Blob, IsValid, bytes, is_null, dbg_self_test, get_end_gap, grow_gap, regrow, new_gap, bufcpy,
  memcpy, alloc,
}

is_null-length : (xs : List ℕ) → (is_null xs ≡ false) ⊎ (length xs ≡ 0)
unfolding is_null
is_null-length [] = inr refl
is_null-length (x ∷ xs) = inl refl

pub dbg_self_test_of_IsValid : (b : Blob) → IsValid b → dbg_self_test b ≡ true
unfolding dbg_self_test
dbg_self_test_of_IsValid b v = ground (arith, is_null-length b.buffer)

pub get_end_gap-eq : (b : Blob) → IsValid b → b.pre_gap + b.size + get_end_gap b ≡ b.capacity
unfolding get_end_gap
get_end_gap-eq b v = omega arith

pub length-bytes : (b : Blob) → IsValid b → length (bytes b) ≡ b.size
length-bytes b v =
    omega (arith, length-take b.size (drop b.pre_gap b.buffer), length-drop b.pre_gap b.buffer)

-- A copy inside both buffers goes through, if the sums of the assertions do not wrap.
pub bufcpy_fits :
    (dst : List ℕ) (dst_cap dst_off : ℕ) (src : List ℕ) (src_cap src_off n : ℕ)
    → dst_off + n ≤ dst_cap
    → dst_cap ≡ length dst
    → dst_cap < u32_mod
    → src_off + n ≤ src_cap
    → src_cap ≡ length src
    → src_cap < u32_mod
    → bufcpy dst dst_cap dst_off src src_cap src_off n
      ≡ some (splice dst dst_off (take n (drop src_off src)))
unfolding bufcpy memcpy
bufcpy_fits dst dst_cap dst_off src src_cap src_off n p q r s t u = ground arith

-- What `grow_gap` leaves: the new blob is as the old, with room at both ends.
pub record Grown (b b' : Blob) (min_pre min_end : ℕ) : Type 0 where
  pub valid : IsValid b'
  pub same_bytes : bytes b' ≡ bytes b
  pub same_size : b'.size ≡ b.size
  pub pre_room : min_pre ≤ b'.pre_gap
  pub end_room : b'.pre_gap + b'.size + min_end ≤ b'.capacity
  pub pre_bound : b'.pre_gap ≤ max b.pre_gap (2 * min_pre)
  pub bound :
      b'.capacity
      ≤ max (b.capacity + 2 * min_pre) (max b.pre_gap (2 * min_pre) + b.size + 2 * min_end)

module _ (b : Blob) (v : IsValid b) (np ne nc : ℕ) (sum : np + b.size + ne ≡ nc)
    (word : nc < u32_mod) where
  abbrev regrown : Blob
  regrown = record b { buffer = splice (alloc nc) np (bytes b); capacity = nc; pre_gap = np }

  length-alloc : length (alloc nc) ≡ nc
  unfolding alloc
  length-alloc = length-replicate nc 0

  fits : np + length (bytes b) ≤ length (alloc nc)
  fits = omega (arith, length-bytes b v, length-alloc)

  regrown-IsValid : IsValid regrown
  regrown-IsValid = record {
    allocated = length-splice (alloc nc) np (bytes b) fits ∙ length-alloc;
    within = omega arith;
    word = word;
  }

  bytes-regrown : bytes regrown ≡ bytes b
  unfolding splice
  bytes-regrown =
      let e : np - np ≡ 0 = omega arith in
      ap (take b.size) (drop-splice np (alloc nc) np (bytes b) (omega arith) (omega (arith, fits)))
      ∙ ap (λ k. take b.size (splice (drop np (alloc nc)) k (bytes b))) e
      ∙ take-append_at b.size (bytes b) _ (sym (length-bytes b v))

  regrow_lem : regrow b np ne nc ≡ some regrown
  unfolding regrow get_end_gap
  regrow_lem =
      rw
        (bufcpy_fits (alloc nc) nc np b.buffer b.capacity b.pre_gap b.size (omega arith)
          (sym length-alloc) word v.within (sym v.allocated) v.word)
        (ground arith)

-- A gap grows to what is asked for, and by at most twice that.
new_gap_bounds :
    (gap m : ℕ) (smart : Bool)
    → gap < u32_mod
    → 2 * m < u32_mod
    → (m ≤ new_gap gap m smart)
      × (gap ≤ new_gap gap m smart)
      × (new_gap gap m smart ≤ max gap (2 * m))
unfolding new_gap
new_gap_bounds gap m smart h k = ground arith

grow_gap_checks :
    (b b' : Blob) (min_pre min_end : ℕ)
    → Grown b b' min_pre min_end
    → (dbg_self_test b' ≡ true) × (min_pre ≤ b'.pre_gap) × (min_end ≤ get_end_gap b')
grow_gap_checks b b' min_pre min_end g = (
  dbg_self_test_of_IsValid b' g.valid,
  g.pre_room,
  omega (arith, g.end_room, get_end_gap-eq b' g.valid),
)

module _ (b : Blob) (min_pre min_end : ℕ) (smart : Bool) (v : IsValid b)
    (h : b.capacity + 2 * min_pre + 2 * min_end < u32_mod) where
  abbrev np : ℕ
  np = new_gap b.pre_gap min_pre smart

  abbrev ne : ℕ
  ne = new_gap (get_end_gap b) min_end smart

  gaps :
      (min_pre ≤ np)
      × (b.pre_gap ≤ np)
      × (min_end ≤ ne)
      × (get_end_gap b ≤ ne)
      × (np + b.size + ne < u32_mod)
      × (np ≤ max b.pre_gap (2 * min_pre))
      × (ne ≤ max (get_end_gap b) (2 * min_end))
  gaps = omega (
    arith,
    get_end_gap-eq b v,
    new_gap_bounds b.pre_gap min_pre smart (omega arith) (omega arith),
    new_gap_bounds (get_end_gap b) min_end smart (omega (arith, get_end_gap-eq b v)) (omega arith),
  )

  abbrev big : Blob
  big = regrown b v np ne (np + b.size + ne) refl gaps.4

  big-Grown : Grown b big min_pre min_end
  big-Grown = record {
    valid = regrown-IsValid b v np ne (np + b.size + ne) refl gaps.4;
    same_bytes = bytes-regrown b v np ne (np + b.size + ne) refl gaps.4;
    same_size = refl;
    pre_room = gaps.0;
    end_room = omega (arith, gaps);
    pre_bound = gaps.5;
    bound = omega (arith, gaps, get_end_gap-eq b v);
  }

  same-Grown : ltb b.capacity (np + b.size + ne) ≡ false → Grown b b min_pre min_end
  same-Grown less = record {
    valid = v;
    same_bytes = refl;
    same_size = refl;
    pre_room = ground (arith, gaps, get_end_gap-eq b v);
    end_room = ground (arith, gaps, get_end_gap-eq b v);
    pre_bound = omega arith;
    bound = omega arith;
  }

  -- `grow_gap` runs without a failing assertion while the sizes stay below 2^32, and leaves the
  -- bytes in use as they were, with room for as many bytes before and after them as were asked for.
  pub grow_gap_lem :
      (b' : Blob) × (grow_gap b min_pre min_end smart ≡ some b') × Grown b b' min_pre min_end
  unfolding grow_gap
  grow_gap_lem = elim (Bool-cases (ltb b.capacity (np + b.size + ne))) [
    | inl more ↦ (
      big,
      ground (
        arith,
        more,
        gaps,
        dbg_self_test_of_IsValid b v,
        regrow_lem b v np ne (np + b.size + ne) refl gaps.4,
        grow_gap_checks b big min_pre min_end big-Grown,
      ),
      big-Grown,
    )
    | inr less ↦ (
      b,
      ground (
        arith,
        less,
        gaps,
        dbg_self_test_of_IsValid b v,
        grow_gap_checks b b min_pre min_end (same-Grown less),
      ),
      same-Grown less,
    )
  ]
