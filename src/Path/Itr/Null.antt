-- ===== src/Path/Itr/Null.antt =====
-- The walk over %PATH% where the system has no table of lead bytes.
use libi.Base.{ℕ, ◌≡◌, refl, ap, ◌∙◌, Bool, true, false}
use libi.Base.{none, some, List, [], ◌∷◌, ◌++◌, arith}
use libi.Base.{if◌then◌else◌}
use libi.Path.Itr.{ok, ◌>>=◌, Itr, Scan}
use libi.Path.Itr.{track, scan_start}
use libi.Path.Itr.{pathed_next}
use libi.Path.Itr.Next.{first_dir, other_dirs, track_all, track_all-out, pathed_next-joined}
use libi.Path.Itr.Next.{bounded_name, returned}

abbrev is_empty : List ℕ → Bool
is_empty [] = true
is_empty (c ∷ dir) = false

-- Without a table of lead bytes no separator is noticed.
track_all-null :
    (dir : List ℕ) (s : Scan)
    → s.lead ≡ false
    → ((track_all none dir s).lead ≡ false)
      × ((track_all none dir s).at_sep ≡ (if is_empty dir then s.at_sep else false))
      × ((track_all none dir s).last_sep ≡ s.last_sep)
unfolding track
track_all-null [] s h = (h, refl, refl)
track_all-null (c ∷ []) s h = ground arith
track_all-null (c ∷ d ∷ dir) s h = ground (arith, track_all-null (d ∷ dir) (track none c s))

-- A directory and a backslash, or nothing.
abbrev pub backslashed : List ℕ → List ℕ
backslashed [] = []
backslashed (c ∷ dir) = (c ∷ dir) ++ (0x5c ∷ [])

-- Where there is no table of lead bytes, each path name is the first directory that is left, then
-- a backslash, then the name: also where the directory ends in a separator, or is a drive
-- specifier alone. An empty directory gives the bare name. The path name has to be shorter than
-- `_MAX_PATH`, or the call fails.
pub pathed_next-null :
    (name p : List ℕ)
    → let itr : Itr = record { name = name; next_path = some p; dbcs = none } in
      pathed_next itr ≡ returned itr p (backslashed (first_dir p) ++ name)
pathed_next-null name p =
    pathed_next-joined name p none (track_all-null (first_dir p) scan_start refl).0
    ∙ ap
        (λ path. bounded_name (path ++ name) >>= λ path.
          ok (path, record { name = name; next_path = other_dirs p; dbcs = none }))
        (text (first_dir p))
  where
    text :
        (dir : List ℕ)
        → (let s = track_all none dir scan_start in
            if s.at_sep then s.out else s.out ++ (s.last_sep ∷ []))
          ≡ backslashed dir
    text [] = refl
    text (c ∷ dir) =
        let (a, b, l) = track_all-null (c ∷ dir) scan_start refl in
        rw (b, l, track_all-out none (c ∷ dir) scan_start) refl
