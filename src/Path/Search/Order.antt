-- ===== src/Path/Search/Order.antt =====
-- `_searchpath` and `_searchenv` give the first file in the order of the directories.
use libi.Base.{ℕ, ◌≡◌, refl, ap, Bool, true, Option, none, some, List, [], ◌∷◌, ◌==◌}
use libi.Base.{if◌then◌else◌, Bool-cases, ◌⊎◌, inl, inr}
use libi.Path.Chars.{max_path}
use libi.Path.Itr.{Error, pathed_first, searchenv_first, pathed_start}
use libi.Path.Search.{Full, path_of, fullpath, full_or_null, or_empty}
use libi.Path.Search.{searchpath, searchenv}
use libi.Path.Search.Walk.{hit_rest, as_found, walk_enough}

module _ (realpath : List ℕ → Option (List ℕ)) (getenv : List ℕ → Option (List ℕ))
    (getfileattr : List ℕ → ℕ) where
  -- The full path name of a file that is there.
  abbrev pub located : List ℕ → Option (List ℕ)
  located name = elim (fullpath realpath true (some name) max_path) [
    | path_of path ↦ some path
    | _ ↦ none
  ]

  abbrev pub is_there : List ℕ → Bool
  is_there path = getfileattr path == 0

  -- The name itself, or else its first hit in the directories of a variable's value.
  abbrev pub looked_up : List ℕ → Option (List ℕ) → Option (List ℕ)
  looked_up name value =
      if is_there name
      then located name
      else (elim (hit_rest is_there name value) [ inl path ↦ located path | inr e ↦ none ])

  full_or_null-as_found :
      (hit : List ℕ ⊎ Error)
      → full_or_null realpath getenv getfileattr none (as_found hit)
        ≡ some (elim hit [ inl path ↦ located path | inr e ↦ none ])
  unfolding full_or_null
  full_or_null-as_found (inl path) = refl
  full_or_null-as_found (inr e) = refl

  -- Without a table of lead bytes `_searchpath` ends on every environment. It gives the full name
  -- of the file itself if there is one, or else of the first file of that name in the directories
  -- of PATH, each with a backslash behind it. It gives null where there is none before the end or
  -- before the first directory that makes too long a name, and where `realpath` fails.
  pub searchpath-first_hit :
      (name : List ℕ)
      → searchpath realpath getenv getfileattr none name
        ≡ some (looked_up name (getenv (b'P' ∷ b'A' ∷ b'T' ∷ b'H' ∷ [])))
  unfolding searchpath pathed_first pathed_start
  searchpath-first_hit name = elim (Bool-cases (is_there name)) [
    | inl there ↦ rw there refl
    | inr absent ↦
        rw (walk_enough is_there name (getenv (b'P' ∷ b'A' ∷ b'T' ∷ b'H' ∷ [])), absent)
          (full_or_null-as_found (hit_rest is_there name (getenv (b'P' ∷ b'A' ∷ b'T' ∷ b'H' ∷ []))))
  ]

  -- What is stored for a path name or null.
  abbrev pub stored : Option (List ℕ) → List ℕ
  stored none = []
  stored (some path) = path

  or_empty-some :
      (o : Option (List ℕ)) → or_empty realpath getenv getfileattr none (some o) ≡ some (stored o)
  or_empty-some none = refl
  or_empty-some (some path) = refl

  stored-full :
      (f : Full)
      → ◌≡◌ {A = List ℕ}
          (elim f [ path_of path ↦ path | _ ↦ [] ])
          (stored (elim f [ path_of path ↦ some path | _ ↦ none ]))
  stored-full (path_of path) = refl
  stored-full Full.failed = refl
  stored-full Full.too_long = refl

  -- Without a table of lead bytes `_searchenv` ends on every environment. It stores the full name
  -- of the file itself if there is one, or else of the first file of that name in the directories
  -- of the variable, each with a backslash behind it. It stores "" where there is none before the
  -- end or before the first directory that makes too long a name, and where `realpath` fails.
  pub searchenv-first_hit :
      (name env_var : List ℕ)
      → searchenv realpath getenv getfileattr none name env_var
        ≡ some (stored (looked_up name (getenv env_var)))
  unfolding searchenv searchenv_first
  searchenv-first_hit name env_var = elim (Bool-cases (is_there name)) [
    | inl there ↦ rw there (ap some (stored-full (fullpath realpath true (some name) max_path)))
    | inr absent ↦
        rw
          (
            walk_enough is_there name (getenv env_var),
            absent,
            full_or_null-as_found (hit_rest is_there name (getenv env_var)),
          )
          (or_empty-some (elim (hit_rest is_there name (getenv env_var)) [
            | inl path ↦ located path
            | inr e ↦ none
          ]))
  ]
