-- ===== src/Errors/Examples.antt =====
-- A block of DOS with two variables, and the theorems at it.
use libi.Base.{ℕ, ◌-◌, ◌≡◌, refl, List, [], ◌∷◌, ◌++◌, arith, take, some, none}
use libi.Path.Chars.{max_path, has_drive_spec_p, path_sep_p, dbcs_lead_p}
use libi.Path.Splitpath.{Parts, splitpath}
use libi.Path.Splitpath.Shape.{IsSplit}
use libi.Errors.{get_progname}
use libi.Errors.Progname.{variables, get_progname-IsSplit}

-- "A=B" and "C="
abbrev vars : List (List ℕ)
vars = (b'A' ∷ b'=' ∷ b'B' ∷ []) ∷ (b'C' ∷ b'=' ∷ []) ∷ []

-- "C:\P.EXE"
abbrev program : List ℕ
program = b'C' ∷ b':' ∷ 0x5c ∷ b'P' ∷ b'.' ∷ b'E' ∷ b'X' ∷ b'E' ∷ []

abbrev block : List ℕ
block = variables vars ++ (1 ∷ 0 ∷ (program ++ (0 ∷ b'?' ∷ [])))

found_p : get_progname none 5 block ≡ some (b'P' ∷ [])
unfolding get_progname splitpath has_drive_spec_p path_sep_p dbcs_lead_p
found_p = refl

get_progname-IsSplit_example :
    (s : Parts (List ℕ)) × IsSplit none (take (max_path - 1) program) s
    × (get_progname none 5 block ≡ some (take 8 s.fname))
get_progname-IsSplit_example =
    get_progname-IsSplit none 5 1 0 vars program (b'?' ∷ []) (omega arith)
      ((omega arith, (refl, (refl, (refl, tt)))), ((omega arith, (refl, (refl, tt))), tt))
      (refl, (refl, (refl, (refl, (refl, (refl, (refl, (refl, tt))))))))
