-- ===== src/Process/Search/Order.antt =====
-- `_spawnvpe` runs the first program that is there.
use libi.Base.{
  ℕ, ◌≡◌, refl, ap, Bool, true, false, ◌⊎◌, inl, inr, Option, none, some, List, [], ◌∷◌, not,
}
use libi.Base.{if◌then◌else◌}
use libi.Path.Itr.{
  Error, no_entry, name_too_long, bad_sequence, pathed_first, pathed_start, find_var, path_eq,
}
use libi.Path.Search.{walk, rounds_of}
use libi.Path.Search.Walk.{hit_rest, as_found, walk_enough}
use libi.Process.Spawn.{Outcome, fails, launched, Errno, enoent, enametoolong, other}
use libi.Process.Search.{is_enoent, errno_of, is_specific_path, not_found, res_of, wanted, spawnvpe}

-- The errno that a call has failed with.
abbrev pub failed : Outcome → Option Errno
failed (fails e) = some e
failed (launched l (inl e)) = some e
failed (launched l (inr status)) = none

-- Whether this is ENOENT.
abbrev pub missing : Option Errno → Bool
missing none = false
missing (some e) = is_enoent e

not_found-failed : (o : Outcome) → not_found o ≡ missing (failed o)
unfolding not_found
not_found-failed (fails e) = refl
not_found-failed (launched l (inl e)) = refl
not_found-failed (launched l (inr status)) = refl

module _ (spawnve : Option (List ℕ) → Outcome) (getenv : List ℕ → Option (List ℕ))
    (eilseq : ℕ) where
  -- The list of directories.
  abbrev pub path_value : Option (List (List ℕ)) → Option (List ℕ)
  path_value none = getenv (b'P' ∷ b'A' ∷ b'T' ∷ b'H' ∷ [])
  path_value (some envp) = find_var path_eq envp

  -- Whether a path name is run, or fails in another way.
  abbrev pub there : List ℕ → Bool
  there full = not (missing (failed (spawnve (some full))))

  wanted-there : wanted spawnve getenv eilseq ≡ there
  unfolding wanted
  wanted-there i full = ap not (not_found-failed (spawnve (some full))) i

  -- The result for what the search gives.
  abbrev pub outcome : List ℕ ⊎ Error → Outcome
  outcome (inl full) = spawnve (some full)
  outcome (inr no_entry) = fails enoent
  outcome (inr name_too_long) = fails enametoolong
  outcome (inr bad_sequence) = fails (other eilseq)

  res_of-as_found :
      (hit : List ℕ ⊎ Error) → res_of spawnve getenv eilseq (as_found hit) ≡ some (outcome hit)
  unfolding res_of errno_of
  res_of-as_found (inl full) = refl
  res_of-as_found (inr no_entry) = refl
  res_of-as_found (inr name_too_long) = refl
  res_of-as_found (inr bad_sequence) = refl

  walk-first :
      (name : List ℕ) (envp : Option (List (List ℕ)))
      → let first = pathed_first getenv name envp none in
        walk (wanted spawnve getenv eilseq) (rounds_of first) first
        ≡ as_found (hit_rest (wanted spawnve getenv eilseq) name (path_value envp))
  unfolding pathed_first pathed_start
  walk-first name none = walk_enough (wanted spawnve getenv eilseq) name (path_value none)
  walk-first name (some envp) =
      walk_enough (wanted spawnve getenv eilseq) name (path_value (some envp))

  -- Without a table of lead bytes `_spawnvpe` ends on every environment, with the result of
  -- `_spawnve` for the path itself, if that is anything but ENOENT or the path has a drive or a
  -- separator. Else it gives the result for the first path name in the directories of PATH that
  -- is anything but ENOENT. Where there is none before the end or before the first directory that
  -- makes too long a name, it gives -1 with ENOENT or ENAMETOOLONG.
  pub spawnvpe-first_hit :
      (c : ℕ) (path : List ℕ) (envp : Option (List (List ℕ)))
      → spawnvpe spawnve getenv eilseq none (some (c ∷ path)) envp
        ≡ some (
            if there (c ∷ path)
            then spawnve (some (c ∷ path))
            else if is_specific_path (c ∷ path) none
            then spawnve (some (c ∷ path))
            else outcome (hit_rest there (c ∷ path) (path_value envp)))
  unfolding spawnvpe
  spawnvpe-first_hit c path envp =
      rw
        (
          walk-first (c ∷ path) envp,
          res_of-as_found,
          wanted-there,
          not_found-failed (spawnve (some (c ∷ path))),
        )
        (some-if (there (c ∷ path)) (is_specific_path (c ∷ path) none))
    where
      some-if :
          (a b : Bool)
          → (if a
              then some (spawnve (some (c ∷ path)))
              else if b
              then some (spawnve (some (c ∷ path)))
              else some (outcome (hit_rest there (c ∷ path) (path_value envp))))
            ≡ some (
                if a
                then spawnve (some (c ∷ path))
                else if b
                then spawnve (some (c ∷ path))
                else outcome (hit_rest there (c ∷ path) (path_value envp)))
      some-if true b = refl
      some-if false true = refl
      some-if false false = refl
