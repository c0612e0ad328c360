-- ===== src/Path/Itr.antt =====
-- Walking the directories of %PATH%: common/dos/libi86-msdos-pathed-first.c,
-- libi86-msdos-pathed-next.c and libi86-msdos-searchenv-first.c. The names are GCC's, which
-- defines `__FAR`.
pub mod Next
pub mod Null
pub mod Table
use libi.Base.{ℕ, ◌+◌, ◌-◌, Bool, true, false, not, ◌&&◌, ◌||◌, Option, none, some}
use libi.Base.{List, [], ◌∷◌, ◌++◌, length, leb, ◌==◌, if◌then◌else◌}
use libi.Path.Chars.{LeadTable, dbcs_lead_p, path_sep_p, has_drive_spec_p, max_path}

-- `errno` values of this part; `name_too_long` is ENAMETOOLONG, or E2BIG without it.
pub data Error : Type 0 where
  no_entry name_too_long bad_sequence : Error

pub data Result {ℓ} (A : Type ℓ) : Type ℓ where
  ok : A → Result A
  err : Error → Result A

infixl 5 ◌>>=◌
abbrev pub ◌>>=◌ {ℓ κ} : {A : Type ℓ} {B : Type κ} → Result A → (A → Result B) → Result B
ok a >>= f = f a
err e >>= f = err e

-- `__libi86_msdos_path_itr_t`. `__pathname_` is the string that a call returns. What is left of
-- the variable's value stands for the pointer `__next_path_` into it.
pub record Itr : Type 0 where
  pub name : List ℕ
  pub next_path : Option (List ℕ)
  pub dbcs : LeadTable

-- The variables of the first loop: `out` is what `q` has passed.
pub record Scan : Type 0 where
  pub out : List ℕ
  pub lead : Bool
  pub at_sep : Bool
  pub last_sep : ℕ

-- One round on a byte, once there is room for it. A null table takes the branch of its own that
-- comes before the test for a separator.
unfoldable pub track : LeadTable → ℕ → Scan → Scan
track dbcs c s =
    let s' : Scan = record s { out = s.out ++ (c ∷ []); at_sep = false } in
    if s.lead then record s' { lead = false } else elim dbcs [
      | none ↦ s'
      | some table ↦
          if dbcs_lead_p c (some table)
          then record s' { lead = true }
          else if path_sep_p c
          then record s' { at_sep = true; last_sep = c }
          else s'
    ]

abbrev pub full : List ℕ → Bool
full out = length out == max_path - 1

-- The first loop: it stops at a semicolon, with what comes behind it, or at the NUL.
unfoldable pub copy_dir : LeadTable → List ℕ → Scan → Result (Scan × Option (List ℕ))
copy_dir dbcs [] s = ok (s, none)
copy_dir dbcs (c ∷ p) s =
    if c == b';'
    then ok (s, some p)
    else if full s.out
    then err name_too_long
    else copy_dir dbcs p (track dbcs c s)

-- `p == next_path + 3`, where `p` points to `rest` and `next_path` has its new value already.
-- A null `next_path` is no such pointer.
unfoldable pub three_past : Option (List ℕ) → List ℕ → Bool
three_past none rest = false
three_past (some next) rest = leb 3 (length next) && (length next == length rest + 3)

unfoldable pub spec_at : Option (List ℕ) → Bool
spec_at none = false
spec_at (some next) = has_drive_spec_p next

-- The separator behind the directory.
unfoldable pub separate : Scan → Option (List ℕ) → Result (List ℕ)
unfolding three_past spec_at
separate s next =
    if s.at_sep
    then ok s.out
    else if not (three_past next (elim next [ none ↦ [] | some p ↦ p ])) || not (spec_at next)
    then (if full s.out then err name_too_long else ok (s.out ++ (s.last_sep ∷ [])))
    else ok s.out

unfoldable pub append_name : List ℕ → List ℕ → Result (List ℕ)
append_name out [] = ok out
append_name out (c ∷ name) =
    if full out then err name_too_long else append_name (out ++ (c ∷ [])) name

abbrev pub scan_start : Scan
scan_start = record { out = []; lead = false; at_sep = true; last_sep = 0x5c }

-- `__libi86_msdos_pathed_next`: the path name and the iterator after the call. An error leaves
-- the iterator's `__next_path_` as it was.
unfoldable pub pathed_next : Itr → Result (List ℕ × Itr)
unfolding copy_dir track separate append_name
pathed_next itr = elim itr.next_path [
  | none ↦ err no_entry
  | some next_path ↦ do
    (s, next) ← copy_dir itr.dbcs next_path scan_start
    out ← (if s.lead then err bad_sequence else separate s next)
    pathname ← append_name out itr.name
    ok (pathname, record itr { next_path = next })
]

-- The first variable whose entry starts with `prefix`, less that.
unfoldable pub strip_prefix : List ℕ → List ℕ → Option (List ℕ)
strip_prefix [] s = some s
strip_prefix (x ∷ prefix) [] = none
strip_prefix (x ∷ prefix) (c ∷ s) =
    let rest = strip_prefix prefix s in if x == c then rest else none

unfoldable pub find_var : List ℕ → List (List ℕ) → Option (List ℕ)
unfolding strip_prefix
find_var prefix [] = none
find_var prefix (p ∷ envp) =
    let rest = find_var prefix envp in
    elim (strip_prefix prefix p) [ some value ↦ some value | none ↦ rest ]

-- "PATH="
abbrev pub path_eq : List ℕ
path_eq = b'P' ∷ b'A' ∷ b'T' ∷ b'H' ∷ b'=' ∷ []

-- `getenv` is the C library's.
module _ (getenv : List ℕ → Option (List ℕ)) where
  unfoldable pub pathed_start : List ℕ → Option (List (List ℕ)) → LeadTable → Itr
  unfolding find_var
  pathed_start name none dbcs = record {
    name = name;
    next_path = getenv (b'P' ∷ b'A' ∷ b'T' ∷ b'H' ∷ []);
    dbcs = dbcs;
  }
  pathed_start name (some envp) dbcs = record {
    name = name;
    next_path = find_var path_eq envp;
    dbcs = dbcs;
  }

  -- `__libi86_msdos_pathed_first`
  unfoldable pub pathed_first : List ℕ → Option (List (List ℕ)) → LeadTable → Result (List ℕ × Itr)
  unfolding pathed_start pathed_next
  pathed_first name envp dbcs = pathed_next (pathed_start name envp dbcs)

  -- `__libi86_msdos_searchenv_first`
  unfoldable pub searchenv_first : List ℕ → List ℕ → LeadTable → Result (List ℕ × Itr)
  unfolding pathed_next
  searchenv_first name env_var dbcs =
      pathed_next (record { name = name; next_path = getenv env_var; dbcs = dbcs })
