-- ===== src/Process/Shell.antt =====
-- The tests of common/process/spawnve.c that tell which program is a shell, on the base name and
-- extension of a parsed file control block, both padded with blanks.
use libi.Base.{ℕ, Bool, false, ◌&&◌, ◌||◌, List, [], ◌∷◌, ◌==◌, str_eq, if◌then◌else◌, get_or}

unfoldable pub is_dos_shell : List ℕ → List ℕ → Bool
is_dos_shell name ext =
    let c = get_or name 0 0 in
    (if c == b'C'
      then str_eq name (b'C' ∷ b'O' ∷ b'M' ∷ b'M' ∷ b'A' ∷ b'N' ∷ b'D' ∷ b' ' ∷ [])
      else if c == b'4'
      then str_eq name (b'4' ∷ b'D' ∷ b'O' ∷ b'S' ∷ b' ' ∷ b' ' ∷ b' ' ∷ b' ' ∷ [])
      else if c == b'N'
      then str_eq name (b'N' ∷ b'D' ∷ b'O' ∷ b'S' ∷ b' ' ∷ b' ' ∷ b' ' ∷ b' ' ∷ [])
      else false)
    && str_eq ext (b'C' ∷ b'O' ∷ b'M' ∷ [])

-- `swchr` is what `_getswitchar` returned.
unfoldable pub is_opt_c : ℕ → List ℕ → Bool
is_opt_c swchr [] = false
is_opt_c swchr (a0 ∷ []) = false
is_opt_c swchr (a0 ∷ a1 ∷ []) = a0 == swchr && (a1 == b'c' || a1 == b'C')
is_opt_c swchr (a0 ∷ a1 ∷ a2 ∷ arg) = false

unfoldable pub is_unix_shell : List ℕ → List ℕ → Bool
is_unix_shell name ext =
    let c = get_or name 2 0 in
    (if c == b' '
      then str_eq name (b'S' ∷ b'H' ∷ b' ' ∷ b' ' ∷ b' ' ∷ b' ' ∷ b' ' ∷ b' ' ∷ [])
      else if c == b'H'
      then str_eq name (b'-' ∷ b'S' ∷ b'H' ∷ b' ' ∷ b' ' ∷ b' ' ∷ b' ' ∷ b' ' ∷ [])
      else if c == b'1'
      then str_eq name (b'S' ∷ b'H' ∷ b'1' ∷ b'6' ∷ b' ' ∷ b' ' ∷ b' ' ∷ b' ' ∷ [])
      else if c == b'3'
      then str_eq name (b'S' ∷ b'H' ∷ b'3' ∷ b'2' ∷ b' ' ∷ b' ' ∷ b' ' ∷ b' ' ∷ [])
      else if c == b'S'
      then (str_eq name (b'T' ∷ b'C' ∷ b'S' ∷ b'H' ∷ b' ' ∷ b' ' ∷ b' ' ∷ b' ' ∷ [])
          || str_eq name (b'B' ∷ b'A' ∷ b'S' ∷ b'H' ∷ b' ' ∷ b' ' ∷ b' ' ∷ b' ' ∷ []))
      else if c == b'C'
      then str_eq name (b'-' ∷ b'T' ∷ b'C' ∷ b'S' ∷ b'H' ∷ b' ' ∷ b' ' ∷ b' ' ∷ [])
      else if c == b'A'
      then str_eq name (b'-' ∷ b'B' ∷ b'A' ∷ b'S' ∷ b'H' ∷ b' ' ∷ b' ' ∷ b' ' ∷ [])
      else false)
    && str_eq ext (b'E' ∷ b'X' ∷ b'E' ∷ [])
