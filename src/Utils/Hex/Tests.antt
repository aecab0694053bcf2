-- ===== src/Utils/Hex/Tests.antt =====
-- Tests of Utils/Hex.
use natbuster.Prelude.{◌≡◌, refl, [], ◌∷◌}
use natbuster.Utils.Hex.{print_from, print_hex}

three_bytes :
    print_hex (0 ∷ 171 ∷ 255 ∷ []) b':' ≡ b'0' ∷ b'0' ∷ b':' ∷ b'A' ∷ b'B' ∷ b':' ∷ b'F' ∷ b'F' ∷ []
unfolding print_hex print_from
three_bytes = refl
