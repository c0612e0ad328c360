-- ===== src/Path/Makepath/Bounds.antt =====
-- `_makepath` stays inside `path`, whatever it is given.
use libi.Base.{ℕ, ◌<◌, ◌≡◌, Bool, true, false, Option, none, some, List, [], ◌∷◌, arith}
use libi.Base.{◌++◌, not, ◌&&◌, length, length-append, ◌==◌, if◌then◌else◌}
use libi.Path.Chars.{LeadTable, max_path}
use libi.Path.Makepath.{Build, Result, ok, bogus, overflow, add_char, track, add_loop, add}
use libi.Path.Makepath.{put_drive, add_ext, start, Outcome, done, null_path, invalid, too_long}
use libi.Path.Makepath.{◌>>=◌, finish, build, makepath}

-- The text fits `path` with its NUL.
abbrev pub Fits : List ℕ → Type 0
Fits out = length out < max_path

abbrev Safe : Result Build → Type 0
Safe (ok s) = Fits s.out
Safe bogus = Unit
Safe (overflow out) = Fits out

abbrev pub FitsPath : Outcome → Type 0
FitsPath (done path) = Fits path
FitsPath null_path = Unit
FitsPath invalid = Unit
FitsPath (too_long path) = Fits path

add_char-Safe : (x : ℕ) (s : Build) → Fits s.out → Safe (add_char x s)
unfolding add_char
add_char-Safe x s h = ground (arith, length-append s.out (x ∷ []))

track-out : (dbcs : LeadTable) (p : Bool) (c : ℕ) (s : Build) → (track dbcs p c s).out ≡ s.out
unfolding track
track-out dbcs p c s = ground arith

add_loop-Safe :
    (dbcs : LeadTable) (p : Bool) (comp : List ℕ) (s : Build)
    → Fits s.out
    → Safe (add_loop dbcs p comp s)
unfolding add_loop add_char
add_loop-Safe dbcs p [] s h = h
add_loop-Safe dbcs p (c ∷ comp) s h = ground (
  arith,
  length-append s.out (c ∷ []),
  track-out dbcs p c (record s { out = s.out ++ (c ∷ []) }),
  add_loop-Safe dbcs p comp (track dbcs p c (record s { out = s.out ++ (c ∷ []) })),
)

add-Safe :
    (dbcs : LeadTable) (p : Bool) (comp : Option (List ℕ)) (s : Build)
    → Fits s.out
    → Safe (add dbcs p comp s)
unfolding add
add-Safe dbcs p none s h = h
add-Safe dbcs p (some []) s h = h
add-Safe dbcs p (some (c ∷ comp)) s h =
    separated s.lead (add_loop dbcs p (c ∷ comp) s) (add_loop-Safe dbcs p (c ∷ comp) s h)
  where
    separated :
        (lead : Bool) (r : Result Build)
        → Safe r
        → Safe (
            if lead
            then bogus
            else (r >>= λ s'. if p && not s'.at_sep then add_char s'.sep s' else ok s'))
    separated true r k = tt
    separated false (ok s') k = ground (arith, add_char-Safe s'.sep s')
    separated false bogus k = tt
    separated false (overflow out) k = k

bind-Safe :
    (r : Result Build) (f : Build → Result Build)
    → Safe r
    → ((s : Build) → Fits s.out → Safe (f s))
    → Safe (r >>= f)
bind-Safe (ok s) f h k = k s h
bind-Safe bogus f h k = tt
bind-Safe (overflow out) f h k = h

add_ext-Safe :
    (dbcs : LeadTable) (ext : Option (List ℕ)) (s : Build) → Fits s.out → Safe (add_ext dbcs ext s)
unfolding add_ext
add_ext-Safe dbcs none s h = h
add_ext-Safe dbcs (some []) s h = h
add_ext-Safe dbcs (some (c ∷ ext)) s h =
    bind-Safe (if c == b'.' then ok s else add_char b'.' s) _ (ground (arith, add_char-Safe b'.' s))
      (λ s' k. add-Safe dbcs false (some (c ∷ ext)) s' k)

drive-Safe :
    (drive : Option (List ℕ)) (f : List ℕ → Result Build)
    → ((text : List ℕ) → Fits text → Safe (f text))
    → Safe (put_drive drive >>= f)
unfolding put_drive
drive-Safe none f k = k [] (omega arith)
drive-Safe (some []) f k = k [] (omega arith)
drive-Safe (some (d0 ∷ [])) f k = ground (arith, k (d0 ∷ b':' ∷ []))
drive-Safe (some (d0 ∷ d1 ∷ [])) f k = ground (arith, k (d0 ∷ d1 ∷ []))
drive-Safe (some (d0 ∷ d1 ∷ d2 ∷ more)) f k = tt

build-Safe :
    (dbcs : LeadTable) (drive dir fname ext : Option (List ℕ))
    → Safe (build dbcs drive dir fname ext)
build-Safe dbcs drive dir fname ext =
    unfold build in
    drive-Safe drive _ λ text h.
      bind-Safe (add dbcs true dir (start text)) _ (add-Safe dbcs true dir (start text) h) λ s k.
        bind-Safe (add dbcs false fname s) _ (add-Safe dbcs false fname s k)
          λ s' k'. add_ext-Safe dbcs ext s' k'

finish-FitsPath : (r : Result Build) → Safe r → FitsPath (finish r)
unfolding finish
finish-FitsPath (ok s) h = h
finish-FitsPath bogus h = tt
finish-FitsPath (overflow out) h = h

-- Whatever the components and the table of lead bytes, what `_makepath` leaves in `path`, on
-- success and when the path is too long, fits its `_MAX_PATH` bytes together with the NUL.
makepath-FitsPath :
    (has_path : Bool) (dbcs : LeadTable) (drive dir fname ext : Option (List ℕ))
    → FitsPath (makepath has_path dbcs drive dir fname ext)
unfolding makepath
makepath-FitsPath true dbcs drive dir fname ext =
    finish-FitsPath (build dbcs drive dir fname ext) (build-Safe dbcs drive dir fname ext)
makepath-FitsPath false dbcs drive dir fname ext = tt
