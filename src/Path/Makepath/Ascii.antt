-- ===== src/Path/Makepath/Ascii.antt =====
-- What `_makepath` builds where the code page has no double-byte characters.
use libi.Base.{ℕ, ◌≤◌, ◌<◌, ◌≡◌, refl, sym, Bool, true, false, Option, none, some}
use libi.Base.{List, [], ◌∷◌, ◌++◌, append-nil, append_assoc, arith, ◌==◌}
use libi.Base.{length, length-append, take, take_prefix, if◌then◌else◌}
use libi.Base.{Bool-cases, inl, inr}
use mathlib.Core.Path.{subst₂}
use libi.Path.Chars.{max_path, path_sep_p, dbcs_lead_p}
use libi.Path.Makepath.{Build, Result, ok, bogus, overflow, add_char, track, add_loop}

-- The last byte is a path separator.
unfoldable pub ends_in_sep : List ℕ → Bool
ends_in_sep [] = false
ends_in_sep (c ∷ []) = path_sep_p c
ends_in_sep (c ∷ d ∷ dir) = ends_in_sep (d ∷ dir)

-- The last path separator of a text, or `sep` where it has none.
unfoldable pub last_sep : ℕ → List ℕ → ℕ
last_sep sep [] = sep
last_sep sep (c ∷ dir) = last_sep (if path_sep_p c then c else sep) dir

-- A directory with a separator behind it: its own, or one more like the last in it.
unfoldable pub dir_text : Option (List ℕ) → List ℕ
unfolding ends_in_sep last_sep
dir_text none = []
dir_text (some []) = []
dir_text (some (c ∷ dir)) =
    if ends_in_sep (c ∷ dir) then c ∷ dir else (c ∷ dir) ++ (last_sep 0x5c (c ∷ dir) ∷ [])

abbrev pub fname_text : Option (List ℕ) → List ℕ
fname_text none = []
fname_text (some fname) = fname

-- An extension behind a dot.
unfoldable pub ext_text : Option (List ℕ) → List ℕ
ext_text none = []
ext_text (some []) = []
ext_text (some (c ∷ ext)) = if c == b'.' then c ∷ ext else b'.' ∷ c ∷ ext

-- `whole` is in `out`, or as much of it as there is room for.
abbrev pub Emits : List ℕ → Result Build → Type 0
Emits whole (ok s) = (s.out ≡ whole) × (s.lead ≡ false) × (length whole < max_path)
Emits whole bogus = ⊥
Emits whole (overflow kept) = (kept ≡ take 143 whole) × (max_path ≤ length whole)

abbrev pub Room : Build → Type 0
Room s = (length s.out < max_path) × (s.lead ≡ false)

pub add_char_full : (x : ℕ) (s : Build) → length s.out ≡ 143 → add_char x s ≡ overflow s.out
unfolding add_char
add_char_full x s h = ground arith

pub add_char_room :
    (x : ℕ) (s : Build)
    → length s.out < 143
    → add_char x s ≡ ok (record s { out = s.out ++ (x ∷ []) })
unfolding add_char
add_char_room x s h = ground arith

pub track-Room : (p : Bool) (c : ℕ) (s : Build) → Room s → Room (track none p c s)
unfolding track dbcs_lead_p
track-Room p c s h = ground arith

pub track-out : (p : Bool) (c : ℕ) (s : Build) → (track none p c s).out ≡ s.out
unfolding track
track-out p c s = ground arith

pub add_loop-Emits :
    (p : Bool) (comp : List ℕ) (s : Build) → Room s → Emits (s.out ++ comp) (add_loop none p comp s)
unfolding add_loop track
add_loop-Emits p [] s (h, k) = rw append-nil (refl, k, h)
add_loop-Emits p (c ∷ comp) s (h, k) = elim (Bool-cases (length s.out == 143)) [
  | inl full ↦ rw (add_char_full c s (ground arith)) (
    sym (take_prefix 143 s.out (c ∷ comp) (ground arith)),
    ground (arith, length-append s.out (c ∷ comp)),
  )
  | inr room ↦ rw (add_char_room c s (ground arith)) (
      let s' : Build = record s { out = s.out ++ (c ∷ []) } in
      let room' : Room s' = (ground (arith, length-append s.out (c ∷ [])), k) in
      rw (append_assoc s.out (c ∷ []) comp) at (
        rw (track-out p c s') at
          (add_loop-Emits p comp (track none p c s') (track-Room p c s' room'))))
]

-- What the loop knows of separators behind `comp`, when it gets there.
abbrev pub Tracked : Bool → ℕ → List ℕ → Result Build → Type 0
Tracked at_sep sep [] (ok s) = (s.at_sep ≡ at_sep) × (s.sep ≡ sep)
Tracked at_sep sep (c ∷ comp) (ok s) =
    (s.at_sep ≡ ends_in_sep (c ∷ comp)) × (s.sep ≡ last_sep sep (c ∷ comp))
Tracked at_sep sep comp bogus = Unit
Tracked at_sep sep comp (overflow kept) = Unit

pub track_sep :
    (c : ℕ) (s : Build)
    → s.lead ≡ false
    → ((track none true c s).at_sep ≡ path_sep_p c)
      × ((track none true c s).sep ≡ (if path_sep_p c then c else s.sep))
      × ((track none true c s).lead ≡ false)
unfolding track dbcs_lead_p
track_sep c s h = ground arith

pub Tracked-cons :
    (a : Bool) (sep c : ℕ) (comp : List ℕ) (r : Result Build)
    → Tracked (path_sep_p c) (if path_sep_p c then c else sep) comp r
    → Tracked a sep (c ∷ comp) r
unfolding ends_in_sep last_sep
Tracked-cons a sep c [] (ok s) h = h
Tracked-cons a sep c (d ∷ comp) (ok s) h = h
Tracked-cons a sep c [] bogus h = tt
Tracked-cons a sep c (d ∷ comp) bogus h = tt
Tracked-cons a sep c [] (overflow kept) h = tt
Tracked-cons a sep c (d ∷ comp) (overflow kept) h = tt

pub add_loop-Tracked :
    (comp : List ℕ) (s : Build)
    → s.lead ≡ false
    → Tracked s.at_sep s.sep comp (add_loop none true comp s)
unfolding add_loop add_char
add_loop-Tracked [] s h = (refl, refl)
add_loop-Tracked (c ∷ comp) s h = elim (Bool-cases (length s.out == 143)) [
  | inl full ↦ rw full tt
  | inr room ↦ rw room (
      let s' : Build = record s { out = s.out ++ (c ∷ []) } in
      let (a, b, l) = track_sep c s' h in
      Tracked-cons s.at_sep s.sep c comp _ (
        subst₂ (λ x y. Tracked x y comp (add_loop none true comp (track none true c s'))) a b
          (add_loop-Tracked comp (track none true c s') l)))
]
