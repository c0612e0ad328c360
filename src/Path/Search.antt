-- ===== src/Path/Search.antt =====
-- Looking for a file along a list of directories: common/dir/searchpath.c,
-- common/stdlib/searchenv.c, and host-gcc/stdlib/fullpath.c, which they end in.
pub mod Walk
pub mod Order
use libi.Base.{
  ℕ, zero, suc, Bool, true, false, ◌&&◌, not, Option, none, some, List, [], ◌∷◌, length,
}
use libi.Base.{leb, ltb, ◌==◌, if◌then◌else◌}
use libi.Path.Chars.{LeadTable, max_path}
use libi.Path.Itr.{
  Error, no_entry, Result, ok, err, Itr, pathed_next, pathed_first, searchenv_first,
}

-- How a loop over path names ends: at a name that it wants, at an error, or without fuel.
pub data Found : Type 0 where
  found : List ℕ → Found
  ended : Error → Found
  stuck : Found

-- _LIBI86_FOR_EACH_PATHED_PATHNAME and _LIBI86_FOR_EACH_SEARCHENV_PATHNAME, with a body that
-- leaves the loop at the first name that `wanted` accepts.
unfoldable pub walk : (List ℕ → Bool) → ℕ → Result (List ℕ × Itr) → Found
walk wanted fuel (err e) = ended e
walk wanted zero (ok (pathname, itr)) = stuck
walk wanted (suc fuel) (ok (pathname, itr)) =
    let rest = walk wanted fuel (pathed_next itr) in
    if wanted pathname then found pathname else rest

-- The bytes that are left, and one: no more path names than that can follow.
abbrev pub rounds : Option (List ℕ) → ℕ
rounds none = 0
rounds (some path) = suc (length path)

abbrev pub rounds_of : Result (List ℕ × Itr) → ℕ
rounds_of (err e) = 0
rounds_of (ok (pathname, itr)) = suc (rounds itr.next_path)

-- What a call of `_fullpath` returned, and whether it set `errno` to ENAMETOOLONG itself.
pub data Full : Type 0 where
  path_of : List ℕ → Full
  failed too_long : Full

-- `realpath` and `getenv` are the C library's, and `getfileattr` is the error code of
-- `_dos_getfileattr`, which is 0 for a file that is there.
module _ (realpath : List ℕ → Option (List ℕ)) where
  unfoldable pub resolve : Option (List ℕ) → Full
  resolve none = failed
  resolve (some res) = path_of res

  -- A null or empty path is the current directory.
  unfoldable pub or_current : Option (List ℕ) → List ℕ
  or_current none = b'.' ∷ []
  or_current (some []) = b'.' ∷ []
  or_current (some (c ∷ path)) = c ∷ path

  -- `_fullpath`; the first argument says whether `out_path` is not null.
  unfoldable pub fullpath : Bool → Option (List ℕ) → ℕ → Full
  unfolding resolve or_current
  fullpath has_out path size =
      if not has_out
      then resolve (realpath (or_current path))
      else if leb max_path size
      then resolve (realpath (or_current path))
      else elim (realpath (or_current path)) [
        | none ↦ failed
        | some res ↦ if leb size (length res) then too_long else path_of res
      ]

  module _ (getenv : List ℕ → Option (List ℕ)) (getfileattr : List ℕ → ℕ) (dbcs : LeadTable) where
    abbrev exists : List ℕ → Bool
    exists path = getfileattr path == 0

    -- What is returned behind the loop, `none` for null; there is nothing without fuel.
    unfoldable pub full_or_null : Found → Option (Option (List ℕ))
    full_or_null (found pathname) =
        some (elim (fullpath true (some pathname) max_path) [ path_of path ↦ some path | _ ↦ none ])
    full_or_null (ended e) = some none
    full_or_null stuck = none

    -- `_searchpath`: the full path name, or `none` for null; there is nothing where the loop does
    -- not end.
    unfoldable pub searchpath : List ℕ → Option (Option (List ℕ))
    unfolding full_or_null fullpath
    searchpath name =
        if exists name
        then some
            (elim (fullpath true (some name) max_path) [ path_of path ↦ some path | _ ↦ none ])
        else (let first = pathed_first getenv name none dbcs in
            full_or_null (walk exists (rounds_of first) first))

    abbrev pub or_empty : Option (Option (List ℕ)) → Option (List ℕ)
    or_empty none = none
    or_empty (some none) = some []
    or_empty (some (some path)) = some path

    -- `_searchenv`: what `full_pathname` holds in the end, "" if nothing was found;
    -- there is nothing where the loop does not end.
    unfoldable pub searchenv : List ℕ → List ℕ → Option (List ℕ)
    unfolding full_or_null fullpath
    searchenv name env_var =
        if exists name
        then some (elim (fullpath true (some name) max_path) [ path_of path ↦ path | _ ↦ [] ])
        else (let first = searchenv_first getenv name env_var dbcs in
            or_empty (full_or_null (walk exists (rounds_of first) first)))
