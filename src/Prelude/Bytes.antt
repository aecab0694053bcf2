-- ===== src/Prelude/Bytes.antt =====
-- Byte buffers: overwriting a range, and the little-endian words that the program stores by a cast.
use natbuster.Prelude.{
  ℕ, zero, suc, ◌+◌, ◌-◌, ◌*◌, ◌/◌, ◌%◌, ◌≤◌, ◌<◌, ◌≡◌, refl, ap, List, [], ◌∷◌, ◌++◌, arith,
  length, get_or, take, drop, length-append, length-drop, take-append_ge, drop_all, drop-take,
  append-nil, u32_mod, ◌∙◌, sym,
}

-- `memcpy(buf + off, src, length src)` inside the buffer; past its end nothing is written.
unfoldable pub splice : List ℕ → ℕ → List ℕ → List ℕ
splice buf zero src = src ++ drop (length src) buf
splice [] (suc off) src = []
splice (x ∷ buf) (suc off) src = x ∷ splice buf off src

pub length-splice :
    (buf : List ℕ) (off : ℕ) (src : List ℕ)
    → off + length src ≤ length buf
    → length (splice buf off src) ≡ length buf
unfolding splice
length-splice buf zero src h =
    omega (arith, length-append src (drop (length src) buf), length-drop (length src) buf)
length-splice [] (suc off) src h = refl
length-splice (x ∷ buf) (suc off) src h = ap suc (length-splice buf off src (omega arith))

-- A splice at or after the cut is a splice of what the cut leaves.
pub drop-splice :
    (m : ℕ) (buf : List ℕ) (off : ℕ) (src : List ℕ)
    → m ≤ off
    → off ≤ length buf
    → drop m (splice buf off src) ≡ splice (drop m buf) (off - m) src
unfolding splice
drop-splice zero buf off src h l = ap (λ k. splice buf k src) (omega arith)
drop-splice (suc m) buf zero src h l = absurd (omega arith)
drop-splice (suc m) [] (suc off) src h l = absurd (omega arith)
drop-splice (suc m) (x ∷ buf) (suc off) src h l =
    let e : suc off - suc m ≡ off - m = omega arith in
    rw e (drop-splice m buf off src (omega arith) (omega arith))

-- A splice that ends before the cut is a splice of what stands before the cut.
pub take-splice :
    (n : ℕ) (buf : List ℕ) (off : ℕ) (src : List ℕ)
    → off + length src ≤ n
    → take n (splice buf off src) ≡ splice (take n buf) off src
unfolding splice
take-splice n buf zero src h =
    take-append_ge n src (drop (length src) buf) (omega arith)
    ∙ ap (λ r. src ++ r) (sym (drop-take (length src) n buf))
take-splice zero buf (suc off) src h = absurd (omega arith)
take-splice (suc n) [] (suc off) src h = refl
take-splice (suc n) (x ∷ buf) (suc off) src h =
    ap (λ r. x ∷ r) (take-splice n buf off src (omega arith))

-- A splice that starts inside the buffer and reaches its end, and one that starts it.
pub splice-append :
    (xs : List ℕ) (src rest : List ℕ)
    → length rest ≤ length src
    → splice (xs ++ rest) (length xs) src ≡ xs ++ src
unfolding splice
splice-append [] src rest h = rw (drop_all (length src) rest h) (append-nil src)
splice-append (x ∷ xs) src rest h = ap (λ r. x ∷ r) (splice-append xs src rest h)

abbrev pub IsByte : ℕ → Type 0
IsByte b = b < 256

-- `*(uint32_t*)p = n` and `*(uint16_t*)p = n` on a little-endian machine.
unfoldable pub le32 : ℕ → List ℕ
le32 n = n % 256 ∷ (n / 256) % 256 ∷ (n / 65536) % 256 ∷ (n / 16777216) % 256 ∷ []

unfoldable pub le16 : ℕ → List ℕ
le16 n = n % 256 ∷ (n / 256) % 256 ∷ []

-- `*(uint32_t*)p` and `*(uint16_t*)p`.
unfoldable pub read32 : List ℕ → ℕ
read32 p = get_or p 0 0 + get_or p 1 0 * 256 + get_or p 2 0 * 65536 + get_or p 3 0 * 16777216

unfoldable pub read16 : List ℕ → ℕ
read16 p = get_or p 0 0 + get_or p 1 0 * 256

pub length-le32 : (n : ℕ) → length (le32 n) ≡ 4
unfolding le32
length-le32 n = refl

pub read32-le32 : (n : ℕ) (rest : List ℕ) → n < u32_mod → read32 (le32 n ++ rest) ≡ n
unfolding read32 le32
read32-le32 n rest h = omega arith

pub read16-le16 : (n : ℕ) (rest : List ℕ) → n < 65536 → read16 (le16 n ++ rest) ≡ n
unfolding read16 le16
read16-le16 n rest h = omega arith
