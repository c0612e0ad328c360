-- ===== src/Process/Run.antt =====
-- common/process/spawnve.c: which file `_spawnve` runs, and how; common/process/system.c.
pub mod Locate
pub mod System
use libi.Base.{ℕ, ◌+◌, ◌-◌, ◌^◌, ◌⊎◌, inl, inr, Bool, true, false, ◌||◌}
use libi.Base.{Option, none, some, List, [], ◌∷◌, ◌++◌, length, ltb, ◌==◌, if◌then◌else◌}
use libi.Path.Chars.{max_path}
use libi.Process.Find.{find_raw_base_name, find_raw_ext, Spawner, direct, comspec, error}
use libi.Process.Find.{find_spawner}
use libi.Process.Spawn.{Dos, Errno, enoent, einval, eacces, enametoolong, Outcome, fails}
use libi.Process.Spawn.{has_bit, clear_bit, bit_restrict_ext, bit_interp, bit_opt_c_special}
use libi.Process.Spawn.{libi86_comspec, direct_spawn, comspec_spawn}

module _ (dos : Dos) where
  -- The file that is there, with which extension, or the error of the last attempt.
  unfoldable pub with_ext : List ℕ → List (List ℕ) → Errno → List ℕ ⊎ Errno
  with_ext path [] e = inr e
  with_ext path (ext ∷ exts) e = elim (dos.getfileattr (path ++ ext)) [
    | none ↦ inl (path ++ ext)
    | some e' ↦ with_ext path exts e'
  ]

  -- ".COM", ".EXE", ".BAT", ".BTM", and without `restrict_ext` none.
  unfoldable pub extensions : Bool → List (List ℕ)
  extensions restrict_ext =
      (b'.' ∷ b'C' ∷ b'O' ∷ b'M' ∷ [])
      ∷ (b'.' ∷ b'E' ∷ b'X' ∷ b'E' ∷ [])
      ∷ (b'.' ∷ b'B' ∷ b'A' ∷ b'T' ∷ [])
      ∷ (b'.' ∷ b'B' ∷ b'T' ∷ b'M' ∷ [])
      ∷ (if restrict_ext then [] else [] ∷ [])

  unfoldable pub locate : ℕ → List ℕ → List ℕ ⊎ Errno
  unfolding has_bit find_raw_base_name find_raw_ext with_ext extensions
  locate mode path =
      if has_bit bit_interp mode
        || (elim (find_raw_ext (find_raw_base_name path dos.dbcs) dos.dbcs) [
          | none ↦ false
          | some e ↦ true
        ])
      then elim (dos.getfileattr path) [ none ↦ inl path | some e ↦ inr e ]
      else if ltb (max_path - 5) (length path)
      then inr enametoolong
      else with_ext path (extensions (has_bit bit_restrict_ext mode)) enoent

  unfoldable pub run :
      Spawner → ℕ → List ℕ → List ℕ × List ℕ → List (List ℕ) → List (List ℕ) → Outcome
  unfolding direct_spawn comspec_spawn
  run direct mode path fcb args envp = direct_spawn dos mode path fcb.0 fcb.1 args envp
  run comspec mode path fcb args envp = comspec_spawn dos mode path args envp
  run error mode path fcb args envp = fails eacces

  -- With what `_parsfnm` made of the base name.
  unfoldable pub run_parsed :
      ℕ → List ℕ → List (List ℕ) → List (List ℕ) → Option (List ℕ × List ℕ) → Outcome
  unfolding run find_spawner has_bit
  run_parsed mode path args envp none = fails einval
  run_parsed mode path args envp (some fcb) =
      run (find_spawner fcb.1 (has_bit bit_restrict_ext mode) (has_bit bit_interp mode)) mode path
        fcb args envp

  unfoldable pub run_located : ℕ → List (List ℕ) → List (List ℕ) → List ℕ ⊎ Errno → Outcome
  unfolding run_parsed find_raw_base_name
  run_located mode args envp (inr e) = fails e
  run_located mode args envp (inl path) =
      run_parsed mode path args envp (dos.parsfnm (find_raw_base_name path dos.dbcs))

  unfoldable pub or_environ : Option (List (List ℕ)) → List (List ℕ)
  or_environ none = dos.environ
  or_environ (some envp) = envp

  -- `_spawnve`; null pointers are `none`, and `argv` is all of it.
  unfoldable pub spawnve :
      ℕ → Option (List ℕ) → Option (List (List ℕ)) → Option (List (List ℕ)) → Outcome
  unfolding locate run_located or_environ clear_bit
  spawnve mode none argv envp = fails einval
  spawnve mode (some []) argv envp = fails einval
  spawnve mode (some (c ∷ path)) none envp = fails einval
  spawnve mode (some (c ∷ path)) (some []) envp = fails einval
  spawnve mode (some (c ∷ path)) (some (a0 ∷ args)) envp =
      if clear_bit bit_opt_c_special (clear_bit bit_interp (clear_bit bit_restrict_ext mode)) == 0
      then run_located mode args (or_environ envp) (locate mode (c ∷ path))
      else fails einval

  -- `system` with a command.
  unfoldable pub system_run : List ℕ → Outcome
  unfolding libi86_comspec spawnve
  system_run command =
      let interpreter = libi86_comspec dos dos.environ in
      spawnve (2 ^ bit_opt_c_special + 2 ^ bit_interp) (some interpreter)
        (some (interpreter ∷ (dos.swchr ∷ b'c' ∷ []) ∷ command ∷ [])) (some dos.environ)

  -- `system` without one says whether there is an interpreter.
  unfoldable pub system_null : Bool
  unfolding libi86_comspec
  system_null = elim (dos.getfileattr (libi86_comspec dos dos.environ)) [
    | none ↦ true
    | some e ↦ false
  ]
