-- ===== src/Blob/Packed/Read.antt =====
-- What `next_record` makes of bytes: it stays inside them, and it reads what was written.
use natbuster.Prelude.{
  ℕ, zero, suc, ◌+◌, ◌-◌, ◌≤◌, ◌<◌, ◌≡◌, refl, ap, sym, ◌∙◌, Option, some, none, inl, inr, List, [],
  ◌∷◌, ◌++◌, arith, length, take, drop, u32_mod, length-append, append_assoc, append-nil,
  take-append_at, drop-append_at, Bool-cases, ltb, ◌>>=◌,
}
use natbuster.Prelude.Bytes.{le32, read32, length-le32, read32-le32}
use natbuster.Blob.Packed.{Reader, next_record, cslice}

-- The bytes of one record, and of several.
abbrev pub frame : List ℕ → List ℕ
frame d = le32 (length d) ++ d

abbrev pub pack : List (List ℕ) → List ℕ
pack [] = []
pack (d ∷ ds) = frame d ++ pack ds

-- The two ways in which a call of `next_record` can end.
pub data Read (r : Reader) : Reader × Option (List ℕ) → Type 0 where
  refused : Read r (r, none)
  found :
      (n : ℕ)
      → n ≡ read32 (drop r.read_cursor r.src)
      → r.read_cursor + 4 + n ≤ length r.src
      → Read r (
        record r { read_cursor = r.read_cursor + 4 + n },
        some (take n (drop (r.read_cursor + 4) r.src)),
      )

-- On any bytes, of whatever sender, `next_record` fails no assertion: it refuses and stays where
-- it is, or it returns the bytes that the size field announces, all of them inside the source, and
-- stands behind them. (The source has fewer than 2^32 - 4 bytes.)
pub next_record_safe :
    (r : Reader)
    → length r.src + 4 < u32_mod
    → r.read_cursor ≤ length r.src
    → (out : Reader × Option (List ℕ)) × (next_record r ≡ some out) × Read r out
unfolding next_record cslice
next_record_safe r w h = elim (Bool-cases (ltb (length r.src) (r.read_cursor + 4))) [
  | inl short ↦ ((r, none), ground (arith, short), refused)
  | inr room ↦
      let n : ℕ = read32 (drop r.read_cursor r.src) in
      elim (Bool-cases (ltb (length r.src - (4 + r.read_cursor)) n)) [
        | inl long ↦ ((r, none), ground (arith, room, long), refused)
        | inr fits ↦ (_, ground (arith, room, fits), found n refl (ground (arith, room, fits)))
      ]
]

module _ (before d after : List ℕ) where
  abbrev src : List ℕ
  src = before ++ (frame d ++ after)

  length-src : length src ≡ length before + 4 + length d + length after
  length-src = omega (
    arith,
    length-append before (frame d ++ after),
    length-append (frame d) after,
    length-append (le32 (length d)) d,
    length-le32 (length d),
  )

  size_field : length d < u32_mod → read32 (drop (length before) src) ≡ length d
  size_field h =
      ap read32 (drop-append_at (length before) before (frame d ++ after) refl)
      ∙ ap read32 (append_assoc (le32 (length d)) d after)
      ∙ read32-le32 (length d) (d ++ after) h

  content_field : take (length d) (drop (length before + 4) src) ≡ d
  content_field =
      ap (λ k. take (length d) (drop (length before + 4) k))
        (sym (append_assoc before (frame d) after))
      ∙ ap (λ k. take (length d) (drop (length before + 4) (k ++ after)))
          (sym (append_assoc before (le32 (length d)) d))
      ∙ ap (λ k. take (length d) (drop (length before + 4) k))
          (append_assoc (before ++ le32 (length d)) d after)
      ∙ ap (take (length d)) (
          drop-append_at (length before + 4) (before ++ le32 (length d)) (d ++ after)
            (omega (arith, length-append before (le32 (length d)), length-le32 (length d))))
      ∙ take-append_at (length d) d after refl

  -- `next_record` at the size field of a record returns its content, whatever stands around it.
  pub next_record-frame :
      length src + 4 < u32_mod
      → next_record (record { read_cursor = length before; src = src })
        ≡ some (record { read_cursor = length before + 4 + length d; src = src }, some d)
  unfolding next_record cslice
  next_record-frame w =
      ground (arith, length-src, size_field (omega (arith, length-src)), content_field)

-- Calls of `next_record` until it returns false.
unfoldable pub read_all : ℕ → Reader → Option (List (List ℕ) × Reader)
read_all zero r = none
read_all (suc fuel) r = next_record r >>= λ step. elim step.1 [
  | none ↦ some ([], step.0)
  | some d ↦ read_all fuel step.0 >>= λ rest. some (d ∷ rest.0, rest.1)
]

next_record_end :
    (src : List ℕ)
    → length src + 4 < u32_mod
    → next_record (record { read_cursor = length src; src = src })
      ≡ some (record { read_cursor = length src; src = src }, none)
unfolding next_record
next_record_end src w = ground arith

pub read_all-pack :
    (ds : List (List ℕ)) (fuel : ℕ) (before : List ℕ)
    → length ds < fuel
    → length (before ++ pack ds) + 4 < u32_mod
    → read_all fuel (record { read_cursor = length before; src = before ++ pack ds })
      ≡ some (ds, record { read_cursor = length (before ++ pack ds); src = before ++ pack ds })
unfolding read_all
read_all-pack ds zero before h w = absurd (omega arith)
read_all-pack [] (suc fuel) before h w =
    let e : before ++ [] ≡ before = append-nil before in
    rw (e, next_record_end before (omega (arith, ap length e)))
read_all-pack (d ∷ ds) (suc fuel) before h w =
    let next : List ℕ = before ++ frame d in
    let e : before ++ (frame d ++ pack ds) ≡ next ++ pack ds =
      sym (append_assoc before (frame d) (pack ds)) in
    let l : length before + 4 + length d ≡ length next = omega (
      arith,
      length-append before (frame d),
      length-append (le32 (length d)) d,
      length-le32 (length d),
    ) in
    rw (
      next_record-frame before d (pack ds) w,
      e,
      l,
      read_all-pack ds fuel next (omega arith) (omega (arith, ap length e)),
    )
