-- ===== src/Path/Makepath.antt =====
-- common/stdlib/makepath.c: `_makepath`. A `const char *` argument that may be null is an
-- `Option`, and the text that is built stands in place of `path[0 .. p)`.
pub mod Bounds
pub mod Ascii
pub mod Exact
pub mod Doubled
use libi.Base.{ℕ, ◌-◌, Bool, true, false, not, ◌&&◌, Option, none, some, List, [], ◌∷◌, ◌++◌}
use libi.Base.{length, ◌==◌, if◌then◌else◌}
use libi.Path.Chars.{LeadTable, dbcs_lead_p, path_sep_p, drive_letter_p, max_path}

-- The variables of the function: `out` is what `p` has passed.
pub record Build : Type 0 where
  pub out : List ℕ
  pub lead : Bool
  pub at_sep : Bool
  pub sep : ℕ

-- `bogus` and `overflow` are the jumps to those labels, the latter with what `path` holds then.
pub data Result (A : Type 0) : Type 0 where
  ok : A → Result A
  bogus : Result A
  overflow : List ℕ → Result A

infixl 5 ◌>>=◌
abbrev pub ◌>>=◌ : {A B : Type 0} → Result A → (A → Result B) → Result B
ok a >>= f = f a
bogus >>= f = bogus
overflow out >>= f = overflow out

-- ADD_CHAR: `p == e` leaves the last byte of `path` for the NUL.
unfoldable pub add_char : ℕ → Build → Result Build
add_char x s =
    if length s.out == max_path - 1
    then overflow s.out
    else ok (record s { out = s.out ++ (x ∷ []) })

-- The rest of a round of ADD's loop. Behind a lead byte, and at one, `at_sep` stays as it was.
unfoldable pub track : LeadTable → Bool → ℕ → Build → Build
track dbcs add_sep c s =
    if s.lead
    then record s { lead = false }
    else if dbcs_lead_p c dbcs
    then record s { lead = true }
    else if add_sep
    then (if path_sep_p c then record s { sep = c; at_sep = true } else record s { at_sep = false })
    else s

unfoldable pub add_loop : LeadTable → Bool → List ℕ → Build → Result Build
add_loop dbcs add_sep [] s = ok s
add_loop dbcs add_sep (c ∷ comp) s = do
  s' ← add_char c s
  add_loop dbcs add_sep comp (track dbcs add_sep c s')

-- ADD
unfoldable pub add : LeadTable → Bool → Option (List ℕ) → Build → Result Build
add dbcs add_sep none s = ok s
add dbcs add_sep (some []) s = ok s
add dbcs add_sep (some (c ∷ comp)) s = if s.lead then bogus else (do
  s' ← add_loop dbcs add_sep (c ∷ comp) s
  if add_sep && not s'.at_sep then add_char s'.sep s' else ok s')

unfoldable pub put_drive : Option (List ℕ) → Result (List ℕ)
put_drive none = ok []
put_drive (some []) = ok []
put_drive (some (d0 ∷ [])) = if drive_letter_p d0 then ok (d0 ∷ b':' ∷ []) else bogus
put_drive (some (d0 ∷ d1 ∷ [])) =
    if drive_letter_p d0 then (if d1 == b':' then ok (d0 ∷ d1 ∷ []) else bogus) else bogus
put_drive (some (d0 ∷ d1 ∷ d2 ∷ more)) = bogus

unfoldable pub add_ext : LeadTable → Option (List ℕ) → Build → Result Build
add_ext dbcs none s = ok s
add_ext dbcs (some []) s = ok s
add_ext dbcs (some (c ∷ ext)) s = do
  s' ← (if c == b'.' then ok s else add_char b'.' s)
  add dbcs false (some (c ∷ ext)) s'

abbrev pub start : List ℕ → Build
start out = record { out = out; lead = false; at_sep = false; sep = 0x5c }

-- What `_makepath` did: it returned 0 with `path`, or -1. `null_path` left everything alone,
-- `invalid` has set `errno` to EINVAL and `path` to "", `too_long` has set `errno` to
-- ENAMETOOLONG (or E2BIG) and left the text in `path`.
pub data Outcome : Type 0 where
  done : List ℕ → Outcome
  null_path invalid : Outcome
  too_long : List ℕ → Outcome

unfoldable pub finish : Result Build → Outcome
finish (ok s) = done s.out
finish bogus = invalid
finish (overflow out) = too_long out

unfoldable pub build :
    LeadTable → Option (List ℕ) → Option (List ℕ) → Option (List ℕ) → Option (List ℕ) → Result Build
unfolding put_drive add add_loop add_ext add_char track
build dbcs drive dir fname ext = do
  text ← put_drive drive
  s ← add dbcs true dir (start text)
  s' ← add dbcs false fname s
  add_ext dbcs ext s'

-- The first argument says whether `path` is not null.
unfoldable pub makepath :
    Bool
    → LeadTable
    → Option (List ℕ)
    → Option (List ℕ)
    → Option (List ℕ)
    → Option (List ℕ)
    → Outcome
unfolding build finish
makepath has_path dbcs drive dir fname ext =
    if has_path then finish (build dbcs drive dir fname ext) else null_path
