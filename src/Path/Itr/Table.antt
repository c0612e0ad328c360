-- ===== src/Path/Itr/Table.antt =====
-- The walk over %PATH% with a table of lead bytes, on directories without double-byte characters.
use libi.Base.{ℕ, ◌≡◌, refl, ap, ◌∙◌, false}
use libi.Base.{some, List, [], ◌∷◌, ◌++◌, arith}
use libi.Base.{if◌then◌else◌, All}
use libi.Path.Chars.{path_sep_p, dbcs_lead_p}
use libi.Path.Itr.{ok, ◌>>=◌, Itr, Scan}
use libi.Path.Itr.{track, scan_start}
use libi.Path.Itr.{pathed_next}
use libi.Path.Itr.Next.{first_dir, other_dirs, track_all, track_all-out, pathed_next-joined}
use libi.Path.Itr.Next.{bounded_name, returned}
use libi.Path.Makepath.Ascii.{ends_in_sep, last_sep, dir_text}

abbrev pub Single : List ℕ → List ℕ → Type 0
Single table = All (λ c. dbcs_lead_p c (some table) ≡ false)

track_single :
    (table : List ℕ) (c : ℕ) (s : Scan)
    → s.lead ≡ false
    → dbcs_lead_p c (some table) ≡ false
    → ((track (some table) c s).lead ≡ false)
      × ((track (some table) c s).at_sep ≡ path_sep_p c)
      × ((track (some table) c s).last_sep ≡ (if path_sep_p c then c else s.last_sep))
unfolding track
track_single table c s h e = ground arith

track_all-Single :
    (table : List ℕ) (c : ℕ) (dir : List ℕ) (s : Scan)
    → s.lead ≡ false
    → Single table (c ∷ dir)
    → let t : Scan = track_all (some table) (c ∷ dir) s in
      (t.lead ≡ false)
      × (t.at_sep ≡ ends_in_sep (c ∷ dir))
      × (t.last_sep ≡ last_sep s.last_sep (c ∷ dir))
unfolding ends_in_sep last_sep
track_all-Single table c [] s h (e, r) = track_single table c s h e
track_all-Single table c (d ∷ dir) s h (e, r) =
    let (lead, at, sep) = track_single table c s h e in
    let (a, b, l) = track_all-Single table d dir (track (some table) c s) lead r in
    (a, b, l ∙ ap (λ t. last_sep t (d ∷ dir)) sep)

-- Where there is a table, and the first directory that is left has no lead bytes, each path name
-- is that directory, a separator unless it ends in one (like the last in it, or a backslash), and
-- the name: also where the directory is a drive specifier alone. An empty directory gives the
-- bare name. The path name has to be shorter than `_MAX_PATH`, or the call fails.
pub pathed_next-table :
    (table name p : List ℕ)
    → Single table (first_dir p)
    → let itr : Itr = record { name = name; next_path = some p; dbcs = some table } in
      pathed_next itr ≡ returned itr p (dir_text (some (first_dir p)) ++ name)
pathed_next-table table name p single =
    pathed_next-joined name p (some table) (lead (first_dir p) single)
    ∙ ap
        (λ path. bounded_name (path ++ name) >>= λ path.
          ok (path, record { name = name; next_path = other_dirs p; dbcs = some table }))
        (text (first_dir p) single)
  where
    lead : (dir : List ℕ) → Single table dir → (track_all (some table) dir scan_start).lead ≡ false
    lead [] r = refl
    lead (c ∷ dir) r = (track_all-Single table c dir scan_start refl r).0

    text :
        (dir : List ℕ)
        → Single table dir
        → (let s = track_all (some table) dir scan_start in
            if s.at_sep then s.out else s.out ++ (s.last_sep ∷ []))
          ≡ dir_text (some dir)
    text [] r = unfold dir_text in refl
    text (c ∷ dir) r =
        let (a, b, l) = track_all-Single table c dir scan_start refl r in
        unfold dir_text in rw (b, l, track_all-out (some table) (c ∷ dir) scan_start) refl
