-- ===== src/Errors.antt =====
-- The name of the program in messages: common/err/libi86-progname.c, for MS-DOS without `__argv`.
-- What stands behind the environment segment that the PSP names is a list of bytes.
pub mod Progname
pub mod Messages
pub mod Examples
use libi.Base.{
  ℕ, ◌-◌, Bool, true, false, ◌&&◌, ◌||◌, not, Option, none, some, List, [], ◌∷◌, drop, leb, ◌==◌,
  if◌then◌else◌,
}
use libi.Path.Chars.{max_path, LeadTable}
use libi.Path.Splitpath.{Parts, splitpath}

-- `none` is a read behind the bytes there are.
infixl 5 ◌>>=◌
abbrev ◌>>=◌ : {A B : Type 0} → Option A → (A → Option B) → Option B
none >>= f = none
some a >>= f = f a

-- The two loops over the variables; the first argument says whether the inner one runs.
unfoldable pub past_vars : Bool → List ℕ → Option (List ℕ)
past_vars inner [] = none
past_vars inner (c ∷ fp) =
    let rest = past_vars (not (c == 0)) fp in if not inner && c == 0 then some fp else rest

-- The loop that copies the name, with what is left of `fullname`.
unfoldable pub copy_fullname : ℕ → List ℕ → Option (List ℕ)
copy_fullname room [] = none
copy_fullname room (c ∷ fp) =
    let rest = copy_fullname (room - 1) fp in
    if c == 0 || room == 0 then some [] else (do p ← rest; some (c ∷ p))

unfoldable pub find_fullname : ℕ → List ℕ → Option (List ℕ)
unfolding past_vars copy_fullname
find_fullname osmajor env =
    if leb 3 osmajor
    then (do fp ← past_vars false env; copy_fullname (max_path - 1) (drop 2 fp))
    else some []

abbrev pub fname_only : Parts Bool
fname_only = record { drive = false; dir = false; fname = true; ext = false }

-- `__libi86_get_progname`
unfoldable pub get_progname : LeadTable → ℕ → List ℕ → Option (List ℕ)
unfolding find_fullname
get_progname dbcs osmajor env = do
  fullname ← find_fullname osmajor env
  (splitpath dbcs fullname fname_only).fname
