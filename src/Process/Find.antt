-- ===== src/Process/Find.antt =====
-- common/process/spawnve.c: the base name and the extension of a path, what runs a file with an
-- extension, and the slashes that command.com cannot read.
pub mod Table
use libi.Base.{ℕ, Bool, true, false, ◌&&◌, ◌||◌, not, Option, none, some, List, [], ◌∷◌}
use libi.Base.{◌==◌, if◌then◌else◌, get_or, str_eq}
use libi.Path.Chars.{LeadTable, dbcs_lead_p, path_sep_p}

-- The part of the path behind the last separator or colon.
unfoldable pub base_loop : LeadTable → Bool → List ℕ → List ℕ → List ℕ
base_loop dbcs lead base [] = base
base_loop dbcs lead base (c ∷ p) =
    base_loop dbcs (not lead && dbcs_lead_p c dbcs)
      (if not lead && (not (dbcs_lead_p c dbcs) && (path_sep_p c || c == b':')) then p else base) p

unfoldable pub find_raw_base_name : List ℕ → LeadTable → List ℕ
unfolding base_loop
find_raw_base_name path dbcs = base_loop dbcs false path path

-- The part from the last dot on.
unfoldable pub ext_loop : LeadTable → Bool → Option (List ℕ) → List ℕ → Option (List ℕ)
ext_loop dbcs lead ext [] = ext
ext_loop dbcs lead ext (c ∷ p) =
    ext_loop dbcs (not lead && dbcs_lead_p c dbcs)
      (if not lead && (not (dbcs_lead_p c dbcs) && c == b'.') then some (c ∷ p) else ext) p

unfoldable pub find_raw_ext : List ℕ → LeadTable → Option (List ℕ)
unfolding ext_loop
find_raw_ext raw_base dbcs = ext_loop dbcs false none raw_base

-- `spawner_t`: `direct_spawn`, `comspec_spawn` and `error_spawn`.
pub data Spawner : Type 0 where
  direct comspec error : Spawner

-- The extension is the one of a parsed file control block.
unfoldable pub by_ext : List ℕ → Spawner → Spawner
by_ext ext spawner =
    let e0 = get_or ext 0 0 in
    let e1 = get_or ext 1 0 in
    let e2 = get_or ext 2 0 in
    if e1 == b'A'
    then (if e0 == b'B' && e2 == b'T' then comspec else spawner)
    else if e1 == b'O'
    then (if e0 == b'C' && e2 == b'M' then direct else spawner)
    else if e1 == b'T'
    then (if e0 == b'B' && e2 == b'M' then comspec else spawner)
    else if e1 == b'X'
    then (if e0 == b'E' && e2 == b'E' then direct else spawner)
    else spawner

unfoldable pub interpreted : Bool → Spawner → Spawner
interpreted interp comspec = if interp then direct else comspec
interpreted interp direct = direct
interpreted interp error = error

unfoldable pub find_spawner : List ℕ → Bool → Bool → Spawner
unfolding by_ext interpreted
find_spawner ext restrict_ext interp =
    interpreted interp (by_ext ext (if restrict_ext then error else direct))

-- `strchr (path, '/')`
unfoldable pub has_slash : List ℕ → Bool
has_slash [] = false
has_slash (c ∷ path) = c == b'/' || has_slash path

-- The loop of `comspec_spawn` over a path with slashes.
unfoldable pub unslash : LeadTable → Bool → List ℕ → List ℕ
unslash dbcs lead [] = []
unslash dbcs lead (c ∷ p) =
    (if not lead && c == b'/' then 0x5c else c)
    ∷ unslash dbcs (not lead && (not (c == b'/') && dbcs_lead_p c dbcs)) p
