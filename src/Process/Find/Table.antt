-- ===== src/Process/Find/Table.antt =====
-- Which extensions run how.
use libi.Base.{ℕ, ◌≡◌, Bool, true, false, ◌||◌}
use libi.Base.{List, [], ◌∷◌, arith}
use libi.Base.{if◌then◌else◌, str_eq}
use libi.Process.Find.{direct, comspec, error, by_ext, interpreted, find_spawner}

unfoldable pub is_batch : List ℕ → Bool
unfolding str_eq
is_batch ext = str_eq ext (b'B' ∷ b'A' ∷ b'T' ∷ []) || str_eq ext (b'B' ∷ b'T' ∷ b'M' ∷ [])

unfoldable pub is_binary : List ℕ → Bool
unfolding str_eq
is_binary ext = str_eq ext (b'C' ∷ b'O' ∷ b'M' ∷ []) || str_eq ext (b'E' ∷ b'X' ∷ b'E' ∷ [])

-- Batch files go to the command interpreter, unless the program is itself to be taken for one,
-- .COM and .EXE files run, and so does any other file unless the extensions are restricted.
pub find_spawner-table :
    (e0 e1 e2 : ℕ) (restrict_ext interp : Bool)
    → find_spawner (e0 ∷ e1 ∷ e2 ∷ []) restrict_ext interp ≡ (
        if is_batch (e0 ∷ e1 ∷ e2 ∷ [])
        then (if interp then direct else comspec)
        else if is_binary (e0 ∷ e1 ∷ e2 ∷ [])
        then direct
        else if restrict_ext
        then error
        else direct)
unfolding find_spawner by_ext interpreted is_batch is_binary str_eq
find_spawner-table e0 e1 e2 true true = ground arith
find_spawner-table e0 e1 e2 true false = ground arith
find_spawner-table e0 e1 e2 false true = ground arith
find_spawner-table e0 e1 e2 false false = ground arith
