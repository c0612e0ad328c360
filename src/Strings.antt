-- ===== src/Strings.antt =====
-- Comparison without case: common/string/stricmp.c, where the C library has no strcasecmp, and
-- common/string/fstricmp.c. `tolower` is that of the C locale.
pub mod Order
pub mod Examples
use libi.Base.{ℕ, ◌+◌, ◌-◌, ◌≡◌, Bool, true, false, ◌&&◌, List, [], ◌∷◌}
use libi.Base.{leb, ltb, ◌==◌, if◌then◌else◌}
use libi.Video.{ℤ, pos, negsuc}

unfoldable pub tolower : ℕ → ℕ
tolower c = if leb b'A' c && leb c b'Z' then c + 32 else c

-- `lc1 - lc2`
unfoldable pub difference : ℕ → ℕ → ℤ
difference a b = if leb b a then pos (a - b) else negsuc (b - a - 1)

-- `_stricmp`; the NUL of a string that ends is compared with the byte of the other.
unfoldable pub stricmp : List ℕ → List ℕ → ℤ
unfolding tolower difference
stricmp [] [] = pos 0
stricmp [] (d ∷ q) = difference 0 (tolower d)
stricmp (c ∷ p) [] = difference (tolower c) 0
stricmp (c ∷ p) (d ∷ q) =
    let rest = stricmp p q in
    if tolower c == tolower d then rest else difference (tolower c) (tolower d)

-- `_fstricmp`, the same through far pointers.
unfoldable pub fstricmp : List ℕ → List ℕ → ℤ
unfolding stricmp
fstricmp s1 s2 = stricmp s1 s2
