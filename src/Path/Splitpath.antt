-- ===== src/Path/Splitpath.antt =====
-- common/stdlib/splitpath.c: `_splitpath`. A pointer into `path` is the text from there on, and
-- a buffer is the string it holds afterwards, or `none` where the caller gave a null pointer.
pub mod Lossless
pub mod Last
pub mod Shape
use libi.Base.{ℕ, suc, ◌+◌, ◌-◌, Bool, true, false, ◌&&◌, Option, none, some, List, [], ◌∷◌}
use libi.Base.{length, take, drop, ltb, ◌==◌, if◌then◌else◌}
use libi.Path.Chars.{LeadTable, dbcs_lead_p, path_sep_p, has_drive_spec_p, max_path}

abbrev pub max_drive : ℕ
max_drive = 3

abbrev pub max_dir : ℕ
max_dir = max_path

abbrev pub max_fname : ℕ
max_fname = 9

abbrev pub max_ext : ℕ
max_ext = 5

-- What is written to a buffer of `bn` bytes; the first argument says whether it is not null.
-- `copy_component` also returns `p + pn`, which is `drop pn p`.
unfoldable pub copy_component : Bool → List ℕ → ℕ → ℕ → Option (List ℕ)
copy_component false p pn bn = none
copy_component true p pn bn = some (take ((if ltb pn bn then pn + 1 else bn) - 1) p)

unfoldable pub skip_component : Bool → Option (List ℕ)
skip_component false = none
skip_component true = some []

-- `dir_end - p` after the first loop, if that is not null: `i` is `q - p` and `found` the value
-- so far. A lead byte takes the byte behind it along, unless that is the NUL.
unfoldable pub find_dir_end : LeadTable → List ℕ → ℕ → Option ℕ → Option ℕ
find_dir_end dbcs [] i found = found
find_dir_end dbcs (c ∷ []) i found = if path_sep_p c then some (i + 1) else found
find_dir_end dbcs (c ∷ d ∷ q) i found =
    let past_both = find_dir_end dbcs q (i + 2) found in
    let past_sep = find_dir_end dbcs (d ∷ q) (i + 1) (some (i + 1)) in
    let past_one = find_dir_end dbcs (d ∷ q) (i + 1) found in
    if path_sep_p c then past_sep else if dbcs_lead_p c dbcs then past_both else past_one

-- `name_end - p` after the second loop: the last dot that is a character of its own.
unfoldable pub find_name_end : LeadTable → List ℕ → ℕ → Option ℕ → Option ℕ
find_name_end dbcs [] i found = found
find_name_end dbcs (c ∷ []) i found = if c == b'.' then some i else found
find_name_end dbcs (c ∷ d ∷ q) i found =
    let past_both = find_name_end dbcs q (i + 2) found in
    let past_dot = find_name_end dbcs (d ∷ q) (i + 1) (some i) in
    let past_one = find_name_end dbcs (d ∷ q) (i + 1) found in
    if c == b'.' then past_dot else if dbcs_lead_p c dbcs then past_both else past_one

-- The four buffers, or which of them are not null.
pub record Parts (A : Type 0) : Type 0 where
  pub drive : A
  pub dir : A
  pub fname : A
  pub ext : A

-- How many bytes of `path` each component takes: the `pn` of the calls of `copy_component`.
unfoldable pub drive_len : List ℕ → ℕ
drive_len path = if has_drive_spec_p path then 2 else 0

abbrev pub or_zero : Option ℕ → ℕ
or_zero none = 0
or_zero (some n) = n

unfoldable pub copy_found : Bool → List ℕ → Option ℕ → ℕ → Option (List ℕ)
unfolding copy_component skip_component
copy_found has p none bn = skip_component has
copy_found has p (some pn) bn = copy_component has p pn bn

unfoldable pub split_name : LeadTable → List ℕ → Bool → Bool → Option (List ℕ) × Option (List ℕ)
unfolding copy_component skip_component find_name_end
split_name dbcs p has_fname has_ext = elim (find_name_end dbcs p 0 none) [
  | some n ↦
      let rest = drop n p in
      (copy_component has_fname p n max_fname, copy_component has_ext rest (length rest) max_ext)
  | none ↦ (copy_component has_fname p (length p) max_fname, skip_component has_ext)
]

unfoldable pub splitpath : LeadTable → List ℕ → Parts Bool → Parts (Option (List ℕ))
unfolding copy_component skip_component copy_found find_dir_end split_name drive_len
splitpath dbcs path has =
    let drive =
      (if has_drive_spec_p path
        then copy_component has.drive path 2 max_drive
        else skip_component has.drive) in
    let p = drop (drive_len path) path in
    let dir_end = find_dir_end dbcs p 0 none in
    let (fname, ext) = split_name dbcs (drop (or_zero dir_end) p) has.fname has.ext in
    record { drive = drive; dir = copy_found has.dir p dir_end max_dir; fname = fname; ext = ext }
