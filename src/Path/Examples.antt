-- ===== src/Path/Examples.antt =====
-- Concrete paths, and the theorems about path names at them.
use libi.Base.{ℕ, ◌≡◌, refl, true, Option, arith}
use libi.Base.{none, some, List, [], ◌∷◌, ◌++◌, str_eq, if◌then◌else◌}
use libi.Path.Chars.{dbcs_lead_p, path_sep_p, has_drive_spec_p, drive_letter_p}
use libi.Path.Makepath.{done, invalid, makepath}
use libi.Path.Makepath.Exact.{bounded, path_text, makepath-eq-path_text}
use libi.Path.Makepath.Doubled.{makepath_joins_double}
use libi.Path.Splitpath.{Parts, splitpath, drive_len, find_dir_end, find_name_end}
use libi.Path.Splitpath.Lossless.{buffers, parts}
use libi.Path.Splitpath.Shape.{IsSplit, splitpath-IsSplit}
use libi.Path.RoundTrip.{every, join, makepath-splitpath}
use libi.Path.Itr.{pathed_next}
use libi.Path.Itr.Next.{first_dir, returned}
use libi.Path.Itr.Null.{backslashed, pathed_next-null}
use libi.Path.Itr.Table.{pathed_next-table}
use libi.Path.Makepath.Ascii.{dir_text}
use libi.Path.Itr.{pathed_first}
use libi.Path.Search.{walk, searchpath, searchenv}
use libi.Path.Search.Order.{looked_up, stored, searchpath-first_hit, searchenv-first_hit}

-- "C", "DOS/BIN", "EDIT", "EXE"
abbrev drive_c : List ℕ
drive_c = b'C' ∷ []

abbrev bin : List ℕ
bin = b'D' ∷ b'/' ∷ b'B' ∷ []

abbrev edit : List ℕ
edit = b'E' ∷ b'D' ∷ []

abbrev exe : List ℕ
exe = b'E' ∷ b'X' ∷ b'E' ∷ []

-- "C:D/B/ED.EXE"
abbrev edit_path : List ℕ
edit_path = b'C' ∷ b':' ∷ b'D' ∷ b'/' ∷ b'B' ∷ b'/' ∷ b'E' ∷ b'D' ∷ b'.' ∷ b'E' ∷ b'X' ∷ b'E' ∷ []

-- The ranges of lead bytes of Shift-JIS: 0x81 to 0x9f and 0xe0 to 0xfc.
abbrev shift_jis : List ℕ
shift_jis = 0x9f81 ∷ 0xfce0 ∷ []

makepath-edit : makepath true none (some drive_c) (some bin) (some edit) (some exe) ≡ done edit_path
unfolding makepath path_sep_p dbcs_lead_p drive_letter_p
makepath-edit = refl

makepath-eq-path_text_example :
    makepath true none (some drive_c) (some bin) (some edit) (some exe)
    ≡ elim (path_text (some drive_c) (some bin) (some edit) (some exe)) [
      | none ↦ invalid
      | some path ↦ bounded path
    ]
makepath-eq-path_text_example =
    makepath-eq-path_text (some drive_c) (some bin) (some edit) (some exe)

makepath_joins_double_example :
    makepath true (some shift_jis) none (some (0x5c ∷ 0x81 ∷ 0x41 ∷ [])) (some edit) none
    ≡ done (0x5c ∷ 0x81 ∷ 0x41 ∷ b'E' ∷ b'D' ∷ [])
unfolding dbcs_lead_p path_sep_p
makepath_joins_double_example =
    makepath_joins_double (some shift_jis) 0x5c ((0x81, 0x41) ∷ []) edit refl refl (refl, tt)
      (omega arith)

splitpath-edit : splitpath none edit_path every ≡ record {
  drive = some (b'C' ∷ b':' ∷ []);
  dir = some (b'D' ∷ b'/' ∷ b'B' ∷ b'/' ∷ []);
  fname = some edit;
  ext = some (b'.' ∷ exe);
}
unfolding splitpath has_drive_spec_p path_sep_p dbcs_lead_p find_name_end
splitpath-edit = refl

splitpath-IsSplit_example :
    (s : Parts (List ℕ)) × IsSplit (some shift_jis) edit_path s
    × (splitpath (some shift_jis) edit_path every ≡ buffers every s)
splitpath-IsSplit_example = splitpath-IsSplit (some shift_jis) edit_path every

makepath-splitpath_example : join none (splitpath none edit_path every) ≡ done edit_path
unfolding parts find_dir_end drive_len has_drive_spec_p path_sep_p dbcs_lead_p find_name_end
makepath-splitpath_example = makepath-splitpath edit_path (omega arith) (omega arith) (omega arith)

-- "C:;D/B;"
abbrev two_dirs : List ℕ
two_dirs = b'C' ∷ b':' ∷ b';' ∷ b'D' ∷ b'/' ∷ b'B' ∷ b';' ∷ []

pathed_next-null_example :
    pathed_next (record { name = edit; next_path = some two_dirs; dbcs = none })
    ≡ returned
        (record { name = edit; next_path = some two_dirs; dbcs = none })
        two_dirs
        (backslashed (first_dir two_dirs) ++ edit)
pathed_next-null_example = pathed_next-null edit two_dirs

pathed_next-table_example :
    pathed_next (record { name = edit; next_path = some bin; dbcs = some shift_jis })
    ≡ returned
        (record { name = edit; next_path = some bin; dbcs = some shift_jis })
        bin
        (dir_text (some (first_dir bin)) ++ edit)
unfolding first_dir dbcs_lead_p
pathed_next-table_example = pathed_next-table shift_jis edit bin (refl, (refl, (refl, tt)))

-- One file, "D/B\ED", and PATH alone.
abbrev real : List ℕ → Option (List ℕ)
real path = some (b'C' ∷ b':' ∷ 0x5c ∷ path)

abbrev env : List ℕ → Option (List ℕ)
env var = if str_eq var (b'P' ∷ b'A' ∷ b'T' ∷ b'H' ∷ []) then some two_dirs else none

abbrev attr : List ℕ → ℕ
attr path = if str_eq path (bin ++ (0x5c ∷ edit)) then 0 else 2

searchpath-first_hit_example :
    searchpath real env attr none edit
    ≡ some (looked_up real env attr edit (env (b'P' ∷ b'A' ∷ b'T' ∷ b'H' ∷ [])))
searchpath-first_hit_example = searchpath-first_hit real env attr edit

searchenv-first_hit_example :
    searchenv real env attr none edit (b'P' ∷ b'A' ∷ b'T' ∷ b'H' ∷ [])
    ≡ some
        (stored real env attr (looked_up real env attr edit (env (b'P' ∷ b'A' ∷ b'T' ∷ b'H' ∷ []))))
searchenv-first_hit_example =
    searchenv-first_hit real env attr edit (b'P' ∷ b'A' ∷ b'T' ∷ b'H' ∷ [])

searchpath_finds :
    searchpath real env attr none edit ≡ some (some (b'C' ∷ b':' ∷ 0x5c ∷ (bin ++ (0x5c ∷ edit))))
unfolding searchpath str_eq walk pathed_first
searchpath_finds = refl
