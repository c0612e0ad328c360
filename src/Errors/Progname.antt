-- ===== src/Errors/Progname.antt =====
-- Which name a program finds behind its environment.
use libi.Base.{
  ℕ, zero, suc, ◌-◌, ◌≤◌, ◌<◌, ◌≡◌, refl, ap, ◌∙◌, true, false, Option, some, List, [], ◌∷◌, ◌++◌,
  All, arith, take, length, leb, ◌==◌, append_assoc,
}
use libi.Path.Chars.{max_path, LeadTable, has_drive_spec_p}
use libi.Path.Splitpath.{Parts, splitpath, split_name, find_dir_end, find_name_end, drive_len}
use libi.Path.Splitpath.Shape.{IsSplit, splitpath-IsSplit}
use libi.Errors.{past_vars, copy_fullname, find_fullname, get_progname, fname_only}

-- A text without a NUL.
abbrev pub NoNul : List ℕ → Type 0
NoNul = All (λ c. (c == 0) ≡ false)

-- A variable: a text that is not empty.
abbrev pub Var : List ℕ → Type 0
Var p = (0 < length p) × NoNul p

-- The variables, each with its NUL, and one more NUL.
abbrev pub variables : List (List ℕ) → List ℕ
variables [] = 0 ∷ []
variables (p ∷ envp) = p ++ (0 ∷ variables envp)

past_value : (p fp : List ℕ) → NoNul p → past_vars true (p ++ (0 ∷ fp)) ≡ past_vars false fp
unfolding past_vars
past_value [] fp h = refl
past_value (c ∷ p) fp (e, h) = rw e (past_value p fp h)

past_vars-variables :
    (envp : List (List ℕ)) (fp : List ℕ)
    → All Var envp
    → past_vars false (variables envp ++ fp) ≡ some fp
unfolding past_vars
past_vars-variables [] fp h = refl
past_vars-variables ([] ∷ envp) fp ((none_there, k), h) = absurd (omega (arith, none_there))
past_vars-variables ((c ∷ p) ∷ envp) fp ((some_there, (e, k)), h) =
    rw (e, append_assoc p (0 ∷ variables envp) fp)
      (past_value p (variables envp ++ fp) k ∙ past_vars-variables envp fp h)

copy_fullname-take :
    (room : ℕ) (name more : List ℕ)
    → NoNul name
    → copy_fullname room (name ++ (0 ∷ more)) ≡ some (take room name)
unfolding copy_fullname
copy_fullname-take zero [] more h = refl
copy_fullname-take (suc room) [] more h = refl
copy_fullname-take zero (c ∷ name) more (e, h) = rw e refl
copy_fullname-take (suc room) (c ∷ name) more (e, h) =
    let back : suc room - 1 ≡ room = omega arith in
    let room_left : (suc room == 0) ≡ false = ground arith in
    rw (e, room_left, back, copy_fullname-take room name more h) refl

find_fullname-take :
    (osmajor lo hi : ℕ) (envp : List (List ℕ)) (name more : List ℕ)
    → 3 ≤ osmajor
    → All Var envp
    → NoNul name
    → find_fullname osmajor (variables envp ++ (lo ∷ hi ∷ (name ++ (0 ∷ more))))
      ≡ some (take (max_path - 1) name)
unfolding find_fullname
find_fullname-take osmajor lo hi envp name more h vars k =
    let recent : leb 3 osmajor ≡ true = ground arith in
    rw (recent, past_vars-variables envp (lo ∷ hi ∷ (name ++ (0 ∷ more))) vars)
      (copy_fullname-take (max_path - 1) name more k)

-- Where DOS is of version 3 or later, and its block for the program holds variables that are not
-- empty, each with its NUL, one more NUL, two bytes of a count, and a path with its NUL, the name
-- of the program is the name that `_splitpath` cuts out of the first `_MAX_PATH` - 1 bytes of this
-- path, cut off at eight bytes, whatever stands behind.
pub get_progname-IsSplit :
    (dbcs : LeadTable) (osmajor lo hi : ℕ) (envp : List (List ℕ)) (path more : List ℕ)
    → 3 ≤ osmajor
    → All Var envp
    → NoNul path
    → (s : Parts (List ℕ)) × IsSplit dbcs (take (max_path - 1) path) s
      × (get_progname dbcs osmajor (variables envp ++ (lo ∷ hi ∷ (path ++ (0 ∷ more))))
          ≡ some (take 8 s.fname))
unfolding get_progname
get_progname-IsSplit dbcs osmajor lo hi envp path more h vars k =
    let (s, split, e) = splitpath-IsSplit dbcs (take (max_path - 1) path) fname_only in
    (
      s,
      split,
      rw (find_fullname-take osmajor lo hi envp path more h vars k)
          (ap (λ (r : Parts (Option (List ℕ))). r.fname) e),
    )

-- Where the program has no variables, so that DOS's block starts with two NULs, and the count is
-- below 256, the name of the program is empty, whatever its path is.
get_progname_empty :
    (dbcs : LeadTable) (osmajor lo : ℕ) (path : List ℕ)
    → 3 ≤ osmajor
    → get_progname dbcs osmajor (0 ∷ 0 ∷ lo ∷ 0 ∷ path) ≡ some []
unfolding get_progname find_fullname past_vars copy_fullname splitpath split_name find_dir_end
    find_name_end drive_len has_drive_spec_p
get_progname_empty dbcs osmajor lo path h =
    let recent : leb 3 osmajor ≡ true = ground arith in rw recent refl
