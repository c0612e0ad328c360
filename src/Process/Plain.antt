-- ===== src/Process/Plain.antt =====
-- common/process/spawnv.c and spawnvp.c: `_spawnv` and `_spawnvp`, which give the child the
-- environment of the program.
use libi.Base.{ℕ, ◌≡◌, refl, Option, none, some, List, ◌∷◌, false}
use libi.Process.Spawn.{Dos, Outcome}
use libi.Process.Run.{spawnve}
use libi.Process.Search.{spawnvpe, not_found}

module _ (dos : Dos) where
  unfoldable pub spawnv : ℕ → Option (List ℕ) → Option (List (List ℕ)) → Outcome
  unfolding spawnve
  spawnv mode path argv = spawnve dos mode path argv none

  unfoldable pub spawnvp :
      (List ℕ → Option (List ℕ)) → ℕ → ℕ → Option (List ℕ) → Option (List (List ℕ)) → Option Outcome
  unfolding spawnve spawnvpe
  spawnvp getenv eilseq mode path argv =
      spawnvpe (λ p. spawnve dos mode p argv none) getenv eilseq dos.dbcs path none

  -- Where the program is there by its path as it is given, `_spawnvp` does what `_spawnv` does.
  spawnvp-spawnv :
      (getenv : List ℕ → Option (List ℕ)) (eilseq mode c : ℕ) (path : List ℕ)
      (argv : Option (List (List ℕ)))
      → not_found (spawnv mode (some (c ∷ path)) argv) ≡ false
      → spawnvp getenv eilseq mode (some (c ∷ path)) argv
        ≡ some (spawnv mode (some (c ∷ path)) argv)
  unfolding spawnvp spawnv spawnvpe
  spawnvp-spawnv getenv eilseq mode c path argv h = rw h refl
