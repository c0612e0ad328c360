-- ===== src/Strings/Examples.antt =====
-- Comparisons.
use libi.Base.{ℕ, ◌≡◌, refl, List, [], ◌∷◌, map, ◌↔◌, arith}
use libi.Video.{pos, negsuc}
use libi.Strings.{tolower, stricmp}
use libi.Strings.Order.{opposite, stricmp_iff}

abbrev upper : List ℕ
upper = b'A' ∷ b'b' ∷ []

abbrev lower : List ℕ
lower = b'a' ∷ b'B' ∷ b'c' ∷ []

stricmp_shorter : stricmp upper lower ≡ negsuc 98
unfolding stricmp
stricmp_shorter = refl

stricmp_iff_example :
    ((stricmp upper lower ≡ pos 0) ↔ (map tolower upper ≡ map tolower lower))
    × (stricmp lower upper ≡ opposite (stricmp upper lower))
stricmp_iff_example = stricmp_iff upper lower (omega arith) (omega arith)
