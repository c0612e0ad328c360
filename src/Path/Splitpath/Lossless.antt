-- ===== src/Path/Splitpath/Lossless.antt =====
-- `_splitpath` loses nothing but what does not fit a buffer.
use libi.Base.{ℕ, suc, zero, ◌-◌, ◌≤◌, ◌<◌, ◌≡◌, refl, sym, ap, ◌∙◌, Bool, true, false, Option}
use libi.Base.{none, some, List, [], ◌∷◌, arith, ltb}
use libi.Base.{length, take, drop, take_all, if◌then◌else◌}
use libi.Base.{Bool-cases, inl, inr}
use mathlib.Core.Path.{ap₂}
use libi.Path.Chars.{LeadTable, has_drive_spec_p}
use libi.Path.Splitpath.{copy_component, skip_component, find_dir_end, find_name_end, Parts}
use libi.Path.Splitpath.{drive_len, or_zero, copy_found, split_name, splitpath}
use libi.Path.Splitpath.{max_drive, max_dir, max_fname, max_ext}

-- A buffer of `bn` bytes that was given the text `s`.
abbrev pub held : Bool → ℕ → List ℕ → Option (List ℕ)
held has bn s = if has then some (take (bn - 1) s) else none

take_min : {A : Type 0} (m n : ℕ) (xs : List A) → m ≤ n → take m (take n xs) ≡ take m xs
take_min zero n xs h = refl
take_min (suc m) zero xs h = absurd (omega arith)
take_min (suc m) (suc n) [] h = refl
take_min (suc m) (suc n) (x ∷ xs) h = ap (λ t. x ∷ t) (take_min m n xs (omega arith))

length-take_le : {A : Type 0} (n : ℕ) (xs : List A) → length (take n xs) ≤ n
length-take_le zero xs = omega arith
length-take_le (suc n) [] = omega arith
length-take_le (suc n) (x ∷ xs) = omega (arith, length-take_le n xs)

-- `copy_component` of the first `pn` bytes.
copy_component-held :
    (has : Bool) (p : List ℕ) (pn bn : ℕ)
    → 0 < bn
    → copy_component has p pn bn ≡ held has bn (take pn p)
unfolding copy_component
copy_component-held false p pn bn h = refl
copy_component-held true p pn bn h = elim (Bool-cases (ltb pn bn)) [
  | inl shorter ↦ rw shorter (
      ap some (
        ap (λ k. take k p) (omega arith)
        ∙ sym (take_all (bn - 1) (take pn p) (ground (arith, length-take_le pn p)))))
  | inr longer ↦ rw longer (ap some (sym (take_min (bn - 1) pn p (ground arith))))
]

take_nil : {A : Type 0} (n : ℕ) → take {A = A} n [] ≡ []
take_nil zero = refl
take_nil (suc n) = refl

skip_component-held : (has : Bool) (bn : ℕ) → skip_component has ≡ held has bn []
unfolding skip_component
skip_component-held false bn = refl
skip_component-held true bn = ap some (sym (take_nil (bn - 1)))

-- The components in full, by the offsets that the loops find.
unfoldable pub cut_name : List ℕ → Option ℕ → List ℕ × List ℕ
cut_name q none = (q, [])
cut_name q (some n) = (take n q, drop n q)

unfoldable pub name_parts : LeadTable → List ℕ → List ℕ × List ℕ
unfolding cut_name
name_parts dbcs q = cut_name q (find_name_end dbcs q 0 none)

unfoldable pub parts : LeadTable → List ℕ → Parts (List ℕ)
unfolding name_parts
parts dbcs path =
    let p = drop (drive_len path) path in
    let n = or_zero (find_dir_end dbcs p 0 none) in
    let (fname, ext) = name_parts dbcs (drop n p) in
    record { drive = take (drive_len path) path; dir = take n p; fname = fname; ext = ext }

-- What the buffers hold of given components.
abbrev pub buffers : Parts Bool → Parts (List ℕ) → Parts (Option (List ℕ))
buffers has s = record {
  drive = held has.drive max_drive s.drive;
  dir = held has.dir max_dir s.dir;
  fname = held has.fname max_fname s.fname;
  ext = held has.ext max_ext s.ext;
}

copy_whole :
    (has : Bool) (p : List ℕ) (bn : ℕ) → 0 < bn → copy_component has p (length p) bn ≡ held has bn p
copy_whole has p bn h =
    copy_component-held has p (length p) bn h
    ∙ ap (held has bn) (take_all (length p) p (omega arith))

split_name-parts :
    (dbcs : LeadTable) (q : List ℕ) (has_fname has_ext : Bool)
    → split_name dbcs q has_fname has_ext
      ≡ (held has_fname max_fname (name_parts dbcs q).0, held has_ext max_ext (name_parts dbcs q).1)
unfolding split_name name_parts
split_name-parts dbcs q has_fname has_ext = go (find_name_end dbcs q 0 none)
  where
    go :
        (o : Option ℕ)
        → ◌≡◌ {A = Option (List ℕ) × Option (List ℕ)}
            (elim o [
              | some n ↦ (
                copy_component has_fname q n max_fname,
                copy_component has_ext (drop n q) (length (drop n q)) max_ext,
              )
              | none ↦ (copy_component has_fname q (length q) max_fname, skip_component has_ext)
            ])
            (held has_fname max_fname (cut_name q o).0, held has_ext max_ext (cut_name q o).1)
    go (some n) =
        ap₂ (λ a b. (a, b)) (copy_component-held has_fname q n max_fname (omega arith))
          (copy_whole has_ext (drop n q) max_ext (omega arith))
    go none =
        ap₂ (λ a b. (a, b)) (copy_whole has_fname q max_fname (omega arith))
          (skip_component-held has_ext max_ext)

copy_found-held :
    (has : Bool) (p : List ℕ) (end_ : Option ℕ) (bn : ℕ)
    → 0 < bn
    → copy_found has p end_ bn ≡ held has bn (take (or_zero end_) p)
unfolding copy_found
copy_found-held has p none bn h = skip_component-held has bn
copy_found-held has p (some n) bn h = copy_component-held has p n bn h

drive-held :
    (has : Bool) (path : List ℕ)
    → (if has_drive_spec_p path then copy_component has path 2 max_drive else skip_component has)
      ≡ held has max_drive (take (drive_len path) path)
unfolding drive_len
drive-held has path = elim (Bool-cases (has_drive_spec_p path)) [
  | inl spec ↦ rw spec (copy_component-held has path 2 max_drive (omega arith))
  | inr plain ↦ rw plain (skip_component-held has max_drive)
]

-- Each buffer gets its component, cut off at the buffer's size.
pub splitpath-buffers :
    (dbcs : LeadTable) (path : List ℕ) (has : Parts Bool)
    → splitpath dbcs path has ≡ buffers has (parts dbcs path)
unfolding splitpath parts
splitpath-buffers dbcs path has =
    let p : List ℕ = drop (drive_len path) path in
    let end_ : Option ℕ = find_dir_end dbcs p 0 none in
    let name = split_name-parts dbcs (drop (or_zero end_) p) has.fname has.ext in
    λ i. record {
      drive = drive-held has.drive path i;
      dir = copy_found-held has.dir p end_ max_dir (omega arith) i;
      fname = (name i).0;
      ext = (name i).1;
    }
