-- ===== src/Utils/Hex.antt =====
-- common/utils/hex.cpp: bytes as hexadecimal digits.
mod Tests
use Prim.Native.String.{String}
use natbuster.Prelude.{
  ℕ, suc, ◌+◌, ◌*◌, ◌/◌, ◌%◌, ◌≤◌, ◌<◌, ◌≡◌, ◌≢◌, refl, inl, inr, Bool, true, false, Bool-cases,
  ◌&&◌, not, Option, none, some, List, [], ◌∷◌, ◌++◌, arith, leb, ltb, ◌==◌, if◌then◌else◌, length,
  get_or, assert, ◌>>=◌, ◌>>◌,
}

abbrev pub hex_chars : List ℕ
hex_chars =
    b'0' ∷ b'1' ∷ b'2' ∷ b'3' ∷ b'4' ∷ b'5' ∷ b'6' ∷ b'7' ∷ b'8' ∷ b'9' ∷ b'A' ∷ b'B' ∷ b'C' ∷ b'D'
    ∷ b'E' ∷ b'F' ∷ []

abbrev pub digits : ℕ → List ℕ
digits byte = get_or hex_chars (byte / 16) 0 ∷ get_or hex_chars (byte % 16) 0 ∷ []

-- The separator stands before every byte but the first, unless it is 0.
abbrev pub separator : ℕ → ℕ → List ℕ
separator i sep = if ltb 0 i && not (sep == 0) then sep ∷ [] else []

unfoldable pub print_from : ℕ → ℕ → List ℕ → List ℕ
print_from i sep [] = []
print_from i sep (byte ∷ rest) = separator i sep ++ (digits byte ++ print_from (suc i) sep rest)

-- What `print_hex` puts out.
unfoldable pub print_hex : List ℕ → ℕ → List ℕ
print_hex view sep = print_from 0 sep view

-- The loop of `to_hex` from the byte `i` on: `j` characters are written, and then, after each byte, it is
-- asserted that they are no more than the bytes of the data.
unfoldable pub to_hex_loop : ℕ → ℕ → ℕ → ℕ → List ℕ → Option (List ℕ)
to_hex_loop size sep i j [] = some []
to_hex_loop size sep i j (byte ∷ rest) = do
  let out = separator i sep ++ digits byte
  assert (leb (j + length out) size)
  more ← to_hex_loop size sep (suc i) (j + length out) rest
  some (out ++ more)

-- The characters that `to_hex` writes into the buffer.
unfoldable pub to_hex : List ℕ → ℕ → Option (List ℕ)
to_hex view sep = to_hex_loop (length view) sep 0 0 view

two_digits : (i sep byte : ℕ) → 2 ≤ length (separator i sep ++ digits byte)
two_digits i sep byte = elim (Bool-cases (ltb 0 i && not (sep == 0))) [
  | inl b ↦ rw b (omega arith)
  | inr b ↦ rw b (omega arith)
]

to_hex_loop-none :
    (size sep i j : ℕ) (view : List ℕ)
    → view ≢ []
    → size < j + 2 * length view
    → to_hex_loop size sep i j view ≡ none
unfolding to_hex_loop
to_hex_loop-none size sep i j [] h l = absurd (h refl)
to_hex_loop-none size sep i j (byte ∷ []) h l =
    let over : leb (j + length (separator i sep ++ digits byte)) size ≡ false =
      ground (arith, two_digits i sep byte, l) in
    rw over refl
to_hex_loop-none size sep i j (byte ∷ next ∷ rest) h l =
    let j' = j + length (separator i sep ++ digits byte) in
    let fails =
      to_hex_loop-none size sep (suc i) j' (next ∷ rest) (λ e. cc)
        (omega (arith, two_digits i sep byte, l)) in
    elim (Bool-cases (leb j' size)) [ inl b ↦ rw (b, fails) refl | inr b ↦ rw b refl ]

-- The assertion of `to_hex` fails on every data but the empty one, with any separator.
pub to_hex-none : (view : List ℕ) (sep : ℕ) → view ≢ [] → to_hex view sep ≡ none
unfolding to_hex
to_hex-none [] sep h = absurd (h refl)
to_hex-none (byte ∷ rest) sep h = to_hex_loop-none _ sep 0 0 (byte ∷ rest) h (omega arith)
