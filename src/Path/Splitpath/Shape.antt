-- ===== src/Path/Splitpath/Shape.antt =====
-- Where `_splitpath` cuts: after the last separator and before the last dot.
use libi.Base.{ℕ, ◌≡◌, refl, sym, ap, ◌∙◌, Bool, true, Option}
use libi.Base.{none, some, List, [], ◌∷◌, ◌++◌, append-nil, append_assoc, arith}
use libi.Base.{length, length-append, take, drop, take-append-drop, if◌then◌else◌}
use libi.Base.{Bool-cases, inl, inr, ◌⊎◌, take_prefix}
use mathlib.Core.Path.{subst₂}
use libi.Base.{==_iff}
use libi.Path.Chars.{LeadTable, path_sep_p, has_drive_spec_p}
use libi.Path.Splitpath.{find_dir_end, find_name_end, Parts, drive_len, or_zero, splitpath}
use libi.Path.Splitpath.Lossless.{parts, cut_name, name_parts, buffers, splitpath-buffers}
use libi.Path.Splitpath.Last.{
  free, whole_chars, is_dot, Found, find_dir_end-last, find_name_end-last, find_last-Found,
}

take-append_length : (xs ys : List ℕ) → take (length xs) (xs ++ ys) ≡ xs
take-append_length xs ys = take_prefix (length xs) xs ys refl

drop-append_length : (xs ys : List ℕ) → drop (length xs) (xs ++ ys) ≡ ys
drop-append_length [] ys = refl
drop-append_length (x ∷ xs) ys = drop-append_length xs ys

-- The text ends in a separator that is a character of its own, behind whole characters.
abbrev pub EndsInSep : LeadTable → List ℕ → Type 0
EndsInSep dbcs dir =
    (before : List ℕ) × (c : ℕ) × (dir ≡ before ++ (c ∷ []))
    × (path_sep_p c ≡ true)
    × (whole_chars path_sep_p dbcs before ≡ true)

-- A dot with an extension behind it, which has no other dot, behind whole characters.
abbrev pub StartsAtDot : LeadTable → List ℕ → List ℕ → Type 0
StartsAtDot dbcs fname ext =
    (rest : List ℕ) × (ext ≡ b'.' ∷ rest)
    × (free is_dot dbcs rest ≡ true)
    × (whole_chars is_dot dbcs fname ≡ true)

-- What the components are: `path` cut after its last separator and before the last dot behind it.
pub record IsSplit (dbcs : LeadTable) (path : List ℕ) (s : Parts (List ℕ)) : Type 0 where
  pub whole : path ≡ s.drive ++ (s.dir ++ (s.fname ++ s.ext))
  pub drive_form : s.drive ≡ (if has_drive_spec_p path then take 2 path else [])
  pub dir_form : (s.dir ≡ []) ⊎ EndsInSep dbcs s.dir
  pub name_form : free path_sep_p dbcs (s.fname ++ s.ext) ≡ true
  pub ext_form : ((s.ext ≡ []) × (free is_dot dbcs s.fname ≡ true)) ⊎ StartsAtDot dbcs s.fname s.ext

-- Where a text is cut behind its last separator.
record DirCut (dbcs : LeadTable) (p : List ℕ) (n : ℕ) : Type 0 where
  form : (take n p ≡ []) ⊎ EndsInSep dbcs (take n p)
  rest : free path_sep_p dbcs (drop n p) ≡ true

DirCut-at :
    (dbcs : LeadTable) (before : List ℕ) (c : ℕ) (behind : List ℕ)
    → path_sep_p c ≡ true
    → whole_chars path_sep_p dbcs before ≡ true
    → free path_sep_p dbcs behind ≡ true
    → DirCut dbcs ((before ++ (c ∷ [])) ++ behind) (length (before ++ (c ∷ [])))
DirCut-at dbcs before c behind hit w f = record {
  form = inr (before, c, take-append_length (before ++ (c ∷ [])) behind, hit, w);
  rest = rw (drop-append_length (before ++ (c ∷ [])) behind) f;
}

dir_cut : (dbcs : LeadTable) (p : List ℕ) → DirCut dbcs p (or_zero (find_dir_end dbcs p 0 none))
dir_cut dbcs p = rw find_dir_end-last (elim (find_last-Found path_sep_p 1 dbcs p 0 none) [
  | inl (f, e) ↦ rw e (record { form = inl refl; rest = f })
  | inr (h, e) ↦ rw e (
      subst₂ (DirCut dbcs) (append_assoc h.before (h.c ∷ []) h.behind ∙ sym h.whole)
        (omega (arith, length-append h.before (h.c ∷ [])))
        (DirCut-at dbcs h.before h.c h.behind h.hit h.chars h.rest))
])

-- Where a name is cut before its last dot.
abbrev NameCut : LeadTable → List ℕ → List ℕ → List ℕ → Type 0
NameCut dbcs q fname ext =
    (fname ++ ext ≡ q)
    × (((ext ≡ []) × (free is_dot dbcs fname ≡ true)) ⊎ StartsAtDot dbcs fname ext)

name_cut :
    (dbcs : LeadTable) (q : List ℕ) → NameCut dbcs q (name_parts dbcs q).0 (name_parts dbcs q).1
unfolding name_parts
name_cut dbcs q =
    cut (find_name_end dbcs q 0 none)
      (rw find_name_end-last (find_last-Found is_dot 0 dbcs q 0 none))
  where
    cut :
        (o : Option ℕ)
        → Found is_dot 0 dbcs q 0 none o
        → NameCut dbcs q (cut_name q o).0 (cut_name q o).1
    cut o (inl (f, e)) = rw e (append-nil q, inl (refl, f))
    cut o (inr (h, e)) = rw (e ∙ ap some {y = length h.before} (omega arith)) (
      take-append-drop (length h.before) q,
      inr (
        h.behind,
        ap (drop (length h.before)) h.whole
            ∙ drop-append_length h.before (h.c ∷ h.behind)
            ∙ ap (λ t. t ∷ h.behind) ((==_iff h.c b'.').0 h.hit),
        h.rest,
        rw (ap (take (length h.before)) h.whole ∙ take-append_length h.before (h.c ∷ h.behind))
            h.chars,
      ),
    )

drive_form_lem :
    (path : List ℕ)
    → take (drive_len path) path ≡ (if has_drive_spec_p path then take 2 path else [])
unfolding drive_len
drive_form_lem path = elim (Bool-cases (has_drive_spec_p path)) [
  | inl spec ↦ rw spec refl
  | inr plain ↦ rw plain refl
]

pub parts-IsSplit : (dbcs : LeadTable) (path : List ℕ) → IsSplit dbcs path (parts dbcs path)
unfolding parts
parts-IsSplit dbcs path =
    let p : List ℕ = drop (drive_len path) path in
    let n : ℕ = or_zero (find_dir_end dbcs p 0 none) in
    let dir : DirCut dbcs p n = dir_cut dbcs p in
    let (joined, dots) = name_cut dbcs (drop n p) in
    record {
      whole =
          sym (take-append-drop (drive_len path) path)
          ∙ ap (λ t. take (drive_len path) path ++ t)
              (sym (take-append-drop n p) ∙ ap (λ t. take n p ++ t) (sym joined));
      drive_form = drive_form_lem path;
      dir_form = dir.form;
      name_form = rw joined dir.rest;
      ext_form = dots;
    }

-- `_splitpath` cuts a path into a drive specifier if it has one, a directory that is empty or ends
-- in the last separator, a name, and an extension that is empty or starts at the last dot behind
-- the directory. A separator or dot is a character of its own here, with whole characters before
-- it, and no byte of a double-byte character. Together these are the path;
-- each buffer that is not null gets its component, cut off at the buffer's size.
pub splitpath-IsSplit :
    (dbcs : LeadTable) (path : List ℕ) (has : Parts Bool)
    → (s : Parts (List ℕ)) × IsSplit dbcs path s × (splitpath dbcs path has ≡ buffers has s)
splitpath-IsSplit dbcs path has =
    (parts dbcs path, parts-IsSplit dbcs path, splitpath-buffers dbcs path has)
