-- ===== src/Path/RoundTrip.antt =====
-- `_makepath` puts together what `_splitpath` took apart.
use libi.Base.{ℕ, ◌≤◌, ◌<◌, ◌≡◌, refl, sym, ap, Bool, true, Option}
use libi.Base.{none, some, List, [], ◌∷◌, ◌++◌, arith, ◌==◌}
use libi.Base.{length, length-append, take, take_all, length-take, if◌then◌else◌}
use libi.Base.{Bool-cases, inl, inr, ◌⊎◌, ltb_of_lt, str_eq}
use mathlib.Core.Path.{subst}
use libi.Base.{==_iff}
use libi.Path.Chars.{LeadTable, max_path, path_sep_p, has_drive_spec_p, drive_letter_p}
use libi.Path.Makepath.{Outcome, done, makepath}
use libi.Path.Makepath.Ascii.{ends_in_sep, dir_text, ext_text}
use libi.Path.Makepath.Exact.{drive_text, path_text, makepath-eq-path_text}
use libi.Path.Splitpath.{Parts, splitpath, max_fname, max_ext}
use libi.Path.Splitpath.Lossless.{parts, splitpath-buffers}
use libi.Path.Splitpath.Last.{free, is_dot}
use libi.Path.Splitpath.Shape.{EndsInSep, StartsAtDot, IsSplit, parts-IsSplit}

ends_in_sep-append :
    (before : List ℕ) (c : ℕ) → path_sep_p c ≡ true → ends_in_sep (before ++ (c ∷ [])) ≡ true
unfolding ends_in_sep
ends_in_sep-append [] c h = h
ends_in_sep-append (x ∷ []) c h = h
ends_in_sep-append (x ∷ y ∷ before) c h = ends_in_sep-append (y ∷ before) c h

-- A directory that is empty or ends in a separator is taken as it stands.
dir_text_whole : (dir : List ℕ) → (dir ≡ []) ⊎ EndsInSep none dir → dir_text (some dir) ≡ dir
unfolding dir_text
dir_text_whole [] h = refl
dir_text_whole (c ∷ dir) (inl e) = cc
dir_text_whole (c ∷ dir) (inr (before, x, e, h, w)) =
    let ends : ends_in_sep (c ∷ dir) ≡ true =
      subst (λ t. ends_in_sep t ≡ true) (sym e) (ends_in_sep-append before x h) in
    rw ends refl

ext_text_whole : (ext rest : List ℕ) → (ext ≡ []) ⊎ (ext ≡ b'.' ∷ rest) → ext_text (some ext) ≡ ext
unfolding ext_text
ext_text_whole [] rest h = refl
ext_text_whole (c ∷ ext) rest (inl e) = cc
ext_text_whole (c ∷ ext) rest (inr e) = ground arith

drive_text_spec :
    (path : List ℕ)
    → drive_text (some (if has_drive_spec_p path then take 2 path else []))
      ≡ some (if has_drive_spec_p path then take 2 path else [])
unfolding drive_text has_drive_spec_p str_eq
drive_text_spec [] = refl
drive_text_spec (c0 ∷ []) = refl
drive_text_spec (c0 ∷ c1 ∷ path) = elim (Bool-cases (c1 == b':')) [
  | inl colon ↦ elim (Bool-cases (drive_letter_p c0)) [
    | inl letter ↦
        subst
          (λ t.
            drive_text (some (if has_drive_spec_p (c0 ∷ t ∷ path) then c0 ∷ t ∷ [] else []))
            ≡ some (if has_drive_spec_p (c0 ∷ t ∷ path) then c0 ∷ t ∷ [] else []))
          (sym ((==_iff c1 b':').0 colon)) (rw letter (rw letter refl))
    | inr other ↦ rw (colon, other) refl
  ]
  | inr other ↦ rw other refl
]

-- All four buffers are there.
abbrev pub every : Parts Bool
every = record { drive = true; dir = true; fname = true; ext = true }

-- `_makepath` of four buffers.
abbrev pub join : LeadTable → Parts (Option (List ℕ)) → Outcome
join dbcs s = makepath true dbcs s.drive s.dir s.fname s.ext

length-drive : (path : List ℕ) → length (if has_drive_spec_p path then take 2 path else []) ≤ 2
length-drive path = elim (Bool-cases (has_drive_spec_p path)) [
  | inl spec ↦ rw spec (omega (arith, length-take 2 path))
  | inr plain ↦ rw plain (omega arith)
]

-- The text of untruncated components is the path that they came from.
path_text-IsSplit :
    (path : List ℕ) (s : Parts (List ℕ))
    → IsSplit none path s
    → path_text (some s.drive) (some s.dir) (some s.fname) (some s.ext) ≡ some path
unfolding path_text
path_text-IsSplit path s cut =
    let drive : drive_text (some s.drive) ≡ some s.drive =
      subst (λ t. drive_text (some t) ≡ some t) (sym cut.drive_form) (drive_text_spec path) in
    rw (drive, dir_text_whole s.dir cut.dir_form, ext s.ext cut.ext_form) (ap some (sym cut.whole))
  where
    ext :
        (e : List ℕ)
        → (((e ≡ []) × (free is_dot none s.fname ≡ true)) ⊎ StartsAtDot none s.fname e)
        → ext_text (some e) ≡ e
    ext e (inl (empty, f)) = ext_text_whole e [] (inl empty)
    ext e (inr (rest, dot, f, w)) = ext_text_whole e rest (inr dot)

length-whole :
    (path : List ℕ) (s : Parts (List ℕ)) → IsSplit none path s → length s.dir ≤ length path
length-whole path s cut = omega (
  arith,
  ap length cut.whole,
  length-append s.drive (s.dir ++ (s.fname ++ s.ext)),
  length-append s.dir (s.fname ++ s.ext),
)

-- Without double-byte characters, what `_splitpath` stores `_makepath` joins to the same path
-- again, if the path is shorter than `_MAX_PATH`, and its name and its extension fit their buffers.
pub makepath-splitpath :
    (path : List ℕ)
    → length path < max_path
    → length (parts none path).fname < max_fname
    → length (parts none path).ext < max_ext
    → join none (splitpath none path every) ≡ done path
makepath-splitpath path hp hf he =
    let s : Parts (List ℕ) = parts none path in
    let cut : IsSplit none path s = parts-IsSplit none path in
    let drive_fits : length s.drive ≤ 2 = rw cut.drive_form (length-drive path) in
    rw
      (
        splitpath-buffers none path every,
        makepath-eq-path_text,
        take_all 2 s.drive drive_fits,
        take_all 143 s.dir (omega (arith, length-whole path s cut)),
        take_all 8 s.fname (omega arith),
        take_all 4 s.ext (omega arith),
        path_text-IsSplit path s cut,
        ltb_of_lt (length path) max_path hp,
      )
      refl
