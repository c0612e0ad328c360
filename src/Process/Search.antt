-- ===== src/Process/Search.antt =====
-- common/process/spawnvpe.c: `_spawnvpe`, which looks for the program along PATH. `_spawnve` of a
-- path name, with the other arguments, is a parameter, and so is `getenv`.
pub mod Order
use libi.Base.{
  ℕ, Bool, true, false, ◌&&◌, ◌||◌, not, Option, none, some, List, [], ◌∷◌, if◌then◌else◌,
}
use libi.Base.{◌⊎◌, inl, inr, ◌==◌}
use libi.Path.Chars.{LeadTable, dbcs_lead_p, path_sep_p, has_drive_spec_p}
use libi.Path.Itr.{Error, no_entry, name_too_long, bad_sequence, pathed_first}
use libi.Path.Search.{Found, found, ended, stuck, walk, rounds_of}
use libi.Process.Spawn.{Errno, enoent, einval, eacces, e2big, enametoolong, enomem, other}
use libi.Process.Spawn.{Outcome, fails, launched}

unfoldable pub sep_loop : LeadTable → Bool → List ℕ → Bool
sep_loop dbcs led [] = false
sep_loop dbcs led (c ∷ p) =
    let rest = sep_loop dbcs (not led && dbcs_lead_p c dbcs) p in
    if not led && path_sep_p c then true else rest

unfoldable pub is_specific_path : List ℕ → LeadTable → Bool
unfolding sep_loop
is_specific_path path dbcs = has_drive_spec_p path || sep_loop dbcs false path

unfoldable pub is_enoent : Errno → Bool
is_enoent enoent = true
is_enoent einval = false
is_enoent eacces = false
is_enoent e2big = false
is_enoent enametoolong = false
is_enoent enomem = false
is_enoent (other e) = false

-- `res == -1 && errno == ENOENT`
unfoldable pub not_found : Outcome → Bool
unfolding is_enoent
not_found (fails e) = is_enoent e
not_found (launched l (inl e)) = is_enoent e
not_found (launched l (inr status)) = false

-- `errno` of a walk that fails or ends: `EILSEQ` is `other` with its number here.
unfoldable pub errno_of : ℕ → Error → Errno
errno_of eilseq no_entry = enoent
errno_of eilseq name_too_long = enametoolong
errno_of eilseq bad_sequence = other eilseq

module _ (spawnve : Option (List ℕ) → Outcome) (getenv : List ℕ → Option (List ℕ))
    (eilseq : ℕ) where
  -- What is returned behind the loop; there is nothing without fuel.
  unfoldable pub res_of : Found → Option Outcome
  unfolding errno_of
  res_of (found full) = some (spawnve (some full))
  res_of (ended e) = some (fails (errno_of eilseq e))
  res_of stuck = none

  unfoldable pub wanted : List ℕ → Bool
  unfolding not_found
  wanted full = not (not_found (spawnve (some full)))

  -- `_spawnvpe`; there is nothing where the loop does not end.
  unfoldable pub spawnvpe : LeadTable → Option (List ℕ) → Option (List (List ℕ)) → Option Outcome
  unfolding is_specific_path not_found res_of walk pathed_first wanted
  spawnvpe dbcs none envp = some (fails einval)
  spawnvpe dbcs (some []) envp = some (fails einval)
  spawnvpe dbcs (some (c ∷ path)) envp =
      if not (not_found (spawnve (some (c ∷ path))))
      then some (spawnve (some (c ∷ path)))
      else if is_specific_path (c ∷ path) dbcs
      then some (spawnve (some (c ∷ path)))
      else (let first = pathed_first getenv (c ∷ path) envp dbcs in
          res_of (walk wanted (rounds_of first) first))
