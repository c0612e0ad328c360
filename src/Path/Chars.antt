-- ===== src/Path/Chars.antt =====
-- Characters of path names: the tests of common/libi86/internal/dos.h, and
-- host-gcc/dos-dbcs/libi86-msdos-dbcs-lead-p.c.
use libi.Base.{ℕ, ◌/◌, ◌%◌, Bool, true, false, ◌&&◌, ◌||◌, Option, none, some, List, [], ◌∷◌}
use libi.Base.{leb, ◌==◌, if◌then◌else◌}

-- `_dos_dbcs_lead_table_t`: a null pointer, or the 16-bit words up to the end of the table.
abbrev pub LeadTable : Type 0
LeadTable = Option (List ℕ)

-- Each word holds a range of lead bytes, its start in the low byte; a zero word ends the table.
unfoldable pub lead_scan : ℕ → List ℕ → Bool
lead_scan ch [] = false
lead_scan ch (range ∷ dbcs) =
    let rest = lead_scan ch dbcs in
    if range == 0
    then false
    else if leb (range % 256) ch && leb ch (range / 256 % 256)
    then true
    else rest

unfoldable pub dbcs_lead_p : ℕ → LeadTable → Bool
unfolding lead_scan
dbcs_lead_p ch none = false
dbcs_lead_p ch (some dbcs) = lead_scan ch dbcs

unfoldable pub path_sep_p : ℕ → Bool
path_sep_p c = c == b'/' || c == 0x5c

unfoldable pub drive_letter_p : ℕ → Bool
drive_letter_p c = (leb b'A' c && leb c b'Z') || (leb b'a' c && leb c b'z')

unfoldable pub has_drive_spec_p : List ℕ → Bool
unfolding drive_letter_p
has_drive_spec_p [] = false
has_drive_spec_p (c0 ∷ []) = false
has_drive_spec_p (c0 ∷ c1 ∷ path) = c1 == b':' && drive_letter_p c0

-- `_MAX_PATH` of common/libi86/stdlib.h where the C library has no `PATH_MAX`.
abbrev pub max_path : ℕ
max_path = 144
