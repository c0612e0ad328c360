-- ===== src/Path/Makepath/Exact.antt =====
-- `_makepath` where the code page has no double-byte characters, as an equation.
use libi.Base.{ℕ, ◌<◌, ◌≡◌, refl, sym, ap, ◌∙◌, Bool, true, false, Option, none, some}
use libi.Base.{List, [], ◌∷◌, ◌++◌, append-nil, append_assoc, arith, not, ◌&&◌, ◌==◌, ltb}
use libi.Base.{
  length, length-append, take, take_prefix, take-append_le, if◌then◌else◌, str_eq, ◌||◌, ltb_of_lt,
  ltb_of_le,
}
use mathlib.Core.Option
use libi.Base.{Bool-cases, inl, inr, ==_iff}
use mathlib.Core.Path.{subst, ap₂}
use libi.Path.Chars.{max_path, drive_letter_p}
use libi.Path.Makepath.{Build, Result, ok, bogus, overflow, ◌>>=◌, add_char, add_loop, add}
use libi.Path.Makepath.{add_ext, start, Outcome, done, invalid, too_long}
use libi.Path.Makepath.{finish, build, makepath}
use libi.Path.Makepath.Ascii.{
  ends_in_sep, last_sep, dir_text, fname_text, ext_text, Emits, Room, Tracked,
}
use libi.Path.Makepath.Ascii.{add_char_full, add_char_room, add_loop-Emits, add_loop-Tracked}

Emits-more : (w t kept : List ℕ) → Emits w (overflow kept) → Emits (w ++ t) (overflow kept)
Emits-more w t kept (e, h) =
    (e ∙ sym (take-append_le 143 w t (omega arith)), omega (arith, length-append w t))

Emits-bind :
    (w t : List ℕ) (r : Result Build) (f : Build → Result Build)
    → Emits w r
    → ((s : Build) → Room s → s.out ≡ w → Emits (w ++ t) (f s))
    → Emits (w ++ t) (r >>= f)
Emits-bind w t (ok s) f (e, l, h) k = k s (rw e h, l) e
Emits-bind w t bogus f h k = h
Emits-bind w t (overflow kept) f h k = Emits-more w t kept h

add_char-Emits : (x : ℕ) (s : Build) → Room s → Emits (s.out ++ (x ∷ [])) (add_char x s)
add_char-Emits x s (h, k) = elim (Bool-cases (length s.out == 143)) [
  | inl full ↦ rw (add_char_full x s (ground arith)) (
    sym (take_prefix 143 s.out (x ∷ []) (ground arith)),
    ground (arith, length-append s.out (x ∷ [])),
  )
  | inr room ↦
      rw (add_char_room x s (ground arith)) (refl, k, ground (arith, length-append s.out (x ∷ [])))
]

add_fname-Emits :
    (fname : Option (List ℕ)) (s : Build)
    → Room s
    → Emits (s.out ++ fname_text fname) (add none false fname s)
unfolding add
add_fname-Emits none s (h, k) = rw append-nil (refl, k, h)
add_fname-Emits (some []) s (h, k) = rw append-nil (refl, k, h)
add_fname-Emits (some (c ∷ comp)) s (h, k) = simp k (
    rw append-nil at (
      Emits-bind (s.out ++ (c ∷ comp)) [] (add_loop none false (c ∷ comp) s) ok
        (add_loop-Emits false (c ∷ comp) s (h, k))
        (λ s' r e. rw append-nil (e, r.1, rw (← e) (r.0)))))

add_dir-Emits :
    (dir : Option (List ℕ)) (out : List ℕ)
    → length out < max_path
    → Emits (out ++ dir_text dir) (add none true dir (start out))
unfolding add dir_text
add_dir-Emits none out h = rw append-nil (refl, refl, h)
add_dir-Emits (some []) out h = rw append-nil (refl, refl, h)
add_dir-Emits (some (c ∷ comp)) out h =
    separated (add_loop none true (c ∷ comp) (start out))
      (add_loop-Emits true (c ∷ comp) (start out) (h, refl))
      (add_loop-Tracked (c ∷ comp) (start out) refl)
  where
    whole : List ℕ
    whole = out ++ (c ∷ comp)

    separated :
        (r : Result Build)
        → Emits whole r
        → Tracked false 0x5c (c ∷ comp) r
        → Emits
            (out ++ dir_text (some (c ∷ comp)))
            (r >>= λ s'. if true && not s'.at_sep then add_char s'.sep s' else ok s')
    separated (ok s') (e, l, k) (a, b) = closed s'.at_sep (ends_in_sep (c ∷ comp)) a
      where
        closed :
            (x y : Bool)
            → x ≡ y
            → Emits
                (out ++ (if y then c ∷ comp else (c ∷ comp) ++ (last_sep 0x5c (c ∷ comp) ∷ [])))
                (if true && not x then add_char s'.sep s' else ok s')
        closed true true q = (e, l, k)
        closed true false q = cc
        closed false true q = cc
        closed false false q =
            subst (λ t. Emits t (add_char s'.sep s'))
              (ap₂ (λ t u. t ++ (u ∷ [])) e b ∙ append_assoc out (c ∷ comp) _)
              (add_char-Emits s'.sep s' (rw e k, l))
    separated bogus e t = e
    separated (overflow kept) (e, k) t = elim (Bool-cases (ends_in_sep (c ∷ comp))) [
      | inl ends ↦ rw ends (e, k)
      | inr more ↦
          rw (more, ← append_assoc out (c ∷ comp) (last_sep 0x5c (c ∷ comp) ∷ []))
            (Emits-more whole (last_sep 0x5c (c ∷ comp) ∷ []) kept (e, k))
    ]

add_ext-Emits :
    (ext : Option (List ℕ)) (s : Build)
    → Room s
    → Emits (s.out ++ ext_text ext) (add_ext none ext s)
unfolding add_ext ext_text
add_ext-Emits none s (h, k) = rw append-nil (refl, k, h)
add_ext-Emits (some []) s (h, k) = rw append-nil (refl, k, h)
add_ext-Emits (some (c ∷ ext)) s (h, k) = elim (Bool-cases (c == b'.')) [
  | inl dot ↦ rw dot (add_fname-Emits (some (c ∷ ext)) s (h, k))
  | inr other ↦
      rw (other, ← append_assoc s.out (b'.' ∷ []) (c ∷ ext))
        (Emits-bind (s.out ++ (b'.' ∷ [])) (c ∷ ext) (add_char b'.' s) _
          (add_char-Emits b'.' s (h, k))
          (λ s' r e. rw (← e) (add_fname-Emits (some (c ∷ ext)) s' r)))
]

abbrev body : Option (List ℕ) → Option (List ℕ) → Option (List ℕ) → List ℕ → Result Build
body dir fname ext text = do
  s ← add none true dir (start text)
  s' ← add none false fname s
  add_ext none ext s'

body-Emits :
    (dir fname ext : Option (List ℕ)) (text : List ℕ)
    → length text < max_path
    → Emits (text ++ (dir_text dir ++ (fname_text fname ++ ext_text ext))) (body dir fname ext text)
body-Emits dir fname ext text h =
    rw (← append_assoc text (dir_text dir) (fname_text fname ++ ext_text ext)) (
      Emits-bind (text ++ dir_text dir) (fname_text fname ++ ext_text ext)
        (add none true dir (start text)) _ (add_dir-Emits dir text h)
        λ s r e.
          rw (← e, ← append_assoc s.out (fname_text fname) (ext_text ext))
            (Emits-bind (s.out ++ fname_text fname) (ext_text ext) (add none false fname s) _
              (add_fname-Emits fname s r) λ s' r' e'. rw (← e') (add_ext-Emits ext s' r')))

-- The text `path`, or as much of it as there is room for.
abbrev pub bounded : List ℕ → Outcome
bounded path = if ltb (length path) max_path then done path else too_long (take 143 path)

finish-bounded : (whole : List ℕ) (r : Result Build) → Emits whole r → finish r ≡ bounded whole
unfolding finish
finish-bounded whole (ok s) (e, l, h) = rw (ltb_of_lt _ _ h) (ap done e)
finish-bounded whole bogus h = absurd h
finish-bounded whole (overflow kept) (e, h) = rw (ltb_of_le _ _ h) (ap too_long e)

-- A drive is nothing, a letter, or a letter and a colon.
unfoldable pub drive_text : Option (List ℕ) → Option (List ℕ)
drive_text none = some []
drive_text (some []) = some []
drive_text (some (d0 ∷ rest)) =
    if drive_letter_p d0 && (str_eq rest [] || str_eq rest (b':' ∷ []))
    then some (d0 ∷ b':' ∷ [])
    else none

-- The path that the components stand for.
unfoldable pub path_text :
    Option (List ℕ) → Option (List ℕ) → Option (List ℕ) → Option (List ℕ) → Option (List ℕ)
unfolding drive_text dir_text ext_text
path_text drive dir fname ext =
    Option.map (λ d. d ++ (dir_text dir ++ (fname_text fname ++ ext_text ext))) (drive_text drive)

-- Without double-byte characters, `_makepath` to a path that is not null gives the drive with a
-- colon, the directory with a separator behind it (one more like the last in it, if it ends in
-- none), the name, and the extension with a dot before it: whole where that is shorter than
-- `_MAX_PATH`, else its first `_MAX_PATH` - 1 bytes and an error. It is EINVAL for any other drive.
pub makepath-eq-path_text :
    (drive dir fname ext : Option (List ℕ))
    → makepath true none drive dir fname ext
      ≡ elim (path_text drive dir fname ext) [ none ↦ invalid | some path ↦ bounded path ]
unfolding makepath path_text str_eq
makepath-eq-path_text drive dir fname ext = parts drive
  where
    rest :
        (text : List ℕ)
        → length text < max_path
        → finish (body dir fname ext text)
          ≡ bounded (text ++ (dir_text dir ++ (fname_text fname ++ ext_text ext)))
    rest text h = finish-bounded _ (body dir fname ext text) (body-Emits dir fname ext text h)

    parts :
        (drive : Option (List ℕ))
        → finish (build none drive dir fname ext)
          ≡ elim (path_text drive dir fname ext) [ none ↦ invalid | some path ↦ bounded path ]
    parts none = rest [] (omega arith)
    parts (some []) = rest [] (omega arith)
    parts (some (d0 ∷ [])) = elim (Bool-cases (drive_letter_p d0)) [
      | inl letter ↦ rw letter (rest (d0 ∷ b':' ∷ []) (omega arith))
      | inr other ↦ rw other refl
    ]
    parts (some (d0 ∷ d1 ∷ [])) = elim (Bool-cases (drive_letter_p d0)) [
      | inl letter ↦ elim (Bool-cases (d1 == b':')) [
        | inl colon ↦
            rw (letter, colon) (rw ((==_iff d1 b':').0 colon) (rest (d0 ∷ b':' ∷ []) (omega arith)))
        | inr more ↦ rw (letter, more) refl
      ]
      | inr other ↦ rw other refl
    ]
    parts (some (d0 ∷ d1 ∷ d2 ∷ more)) = elim (Bool-cases (drive_letter_p d0)) [
      | inl letter ↦ elim (Bool-cases (d1 == b':')) [
        | inl colon ↦ rw (letter, colon) refl
        | inr more ↦ rw (letter, more) refl
      ]
      | inr other ↦ rw other refl
    ]
