-- ===== src/Path/Itr/Next.antt =====
-- One step of the walk over %PATH%, as an equation.
use libi.Base.{ℕ, suc, ◌+◌, ◌≤◌, ◌<◌, ◌≡◌, refl, sym, ap, ◌∙◌, Bool, true, false, Option}
use libi.Base.{none, some, List, [], ◌∷◌, ◌++◌, append-nil, append_assoc, arith, ◌==◌, ltb}
use libi.Base.{length, length-append, if◌then◌else◌}
use libi.Base.{Bool-cases, inl, inr, ltb_of_lt, ltb_of_le}
use libi.Path.Chars.{LeadTable, max_path}
use libi.Path.Itr.{name_too_long, bad_sequence, Result, ok, err, ◌>>=◌, Itr, Scan}
use libi.Path.Itr.{track, full, copy_dir, separate, append_name, scan_start}
use libi.Path.Itr.{pathed_next}

-- The text up to the first semicolon, and what is behind it.
unfoldable pub first_dir : List ℕ → List ℕ
first_dir [] = []
first_dir (c ∷ p) = let rest = first_dir p in if c == b';' then [] else c ∷ rest

unfoldable pub other_dirs : List ℕ → Option (List ℕ)
other_dirs [] = none
other_dirs (c ∷ p) = let rest = other_dirs p in if c == b';' then some p else rest

abbrev pub track_all : LeadTable → List ℕ → Scan → Scan
track_all dbcs [] s = s
track_all dbcs (c ∷ dir) s = track_all dbcs dir (track dbcs c s)

pub track-out : (dbcs : LeadTable) (c : ℕ) (s : Scan) → (track dbcs c s).out ≡ s.out ++ (c ∷ [])
unfolding track
track-out none c s = ground arith
track-out (some table) c s = ground arith

pub full_iff : (out : List ℕ) → length out < max_path → full out ≡ ltb 142 (length out)
full_iff out h = ground arith

pub copy_dir-exact :
    (dbcs : LeadTable) (p : List ℕ) (s : Scan)
    → length s.out < max_path
    → copy_dir dbcs p s ≡ (
        if ltb (length s.out + length (first_dir p)) max_path
        then ok (track_all dbcs (first_dir p) s, other_dirs p)
        else err name_too_long)
unfolding copy_dir first_dir other_dirs
copy_dir-exact dbcs [] s h = rw (ltb_of_lt (length s.out + 0) max_path (omega arith)) refl
copy_dir-exact dbcs (c ∷ p) s h = elim (Bool-cases (c == b';')) [
  | inl semi ↦ rw (semi, ltb_of_lt (length s.out + 0) max_path (omega arith)) refl
  | inr other ↦ rw other (elim (Bool-cases (full s.out)) [
    | inl f ↦
        rw (f, ltb_of_le (length s.out + suc (length (first_dir p))) max_path (ground arith)) refl
    | inr room ↦
        let grown : length (track dbcs c s).out ≡ length s.out + 1 =
          rw track-out (length-append s.out (c ∷ [])) in
        let shift : length (track dbcs c s).out + length (first_dir p)
            ≡ length s.out + suc (length (first_dir p)) =
          omega arith in
        rw (room, ← shift) (copy_dir-exact dbcs p (track dbcs c s) (ground arith))
  ])
]

pub append_name-exact :
    (out name : List ℕ)
    → length out < max_path
    → append_name out name
      ≡ (if ltb (length out + length name) max_path then ok (out ++ name) else err name_too_long)
unfolding append_name
append_name-exact out [] h = rw (ltb_of_lt (length out + 0) max_path (omega arith), append-nil) refl
append_name-exact out (c ∷ name) h = elim (Bool-cases (full out)) [
  | inl f ↦ rw (f, ltb_of_le (length out + suc (length name)) max_path (ground arith)) refl
  | inr room ↦
      let grown : length (out ++ (c ∷ [])) ≡ length out + 1 = length-append out (c ∷ []) in
      let shift : length (out ++ (c ∷ [])) + length name ≡ length out + suc (length name) =
        omega arith in
      rw (room, ← shift, ← append_assoc out (c ∷ []) name)
        (append_name-exact (out ++ (c ∷ [])) name (ground arith))
]

-- The test for a bare drive specifier never passes: `next_path` has moved already.
pub separate-exact :
    (s : Scan) (next : Option (List ℕ))
    → separate s next ≡ (
        if s.at_sep
        then ok s.out
        else if full s.out
        then err name_too_long
        else ok (s.out ++ (s.last_sep ∷ [])))
unfolding separate
separate-exact s none = ground arith
separate-exact s (some p) = ground arith

pub track_all-out :
    (dbcs : LeadTable) (dir : List ℕ) (s : Scan) → (track_all dbcs dir s).out ≡ s.out ++ dir
track_all-out dbcs [] s = sym (append-nil s.out)
track_all-out dbcs (c ∷ dir) s =
    track_all-out dbcs dir (track dbcs c s)
    ∙ ap (λ o. o ++ dir) (track-out dbcs c s)
    ∙ append_assoc s.out (c ∷ []) dir

abbrev pub bounded_name : List ℕ → Result (List ℕ)
bounded_name path = if ltb (length path) max_path then ok path else err name_too_long

-- The path name of a directory that has been scanned, and how the iterator goes on.
abbrev pub joined : Scan → List ℕ → Result (List ℕ)
joined s name = bounded_name ((if s.at_sep then s.out else s.out ++ (s.last_sep ∷ [])) ++ name)

pub separated-joined :
    (s : Scan) (next : Option (List ℕ)) (name : List ℕ)
    → length s.out < max_path
    → (separate s next >>= λ out. append_name out name) ≡ joined s name
separated-joined s next name h = rw separate-exact (elim (Bool-cases s.at_sep) [
  | inl at ↦ simp (at, append_name-exact s.out name h, ← length-append s.out name) refl
  | inr off ↦ elim (Bool-cases (full s.out)) [
    | inl f ↦
        let whole : List ℕ = (s.out ++ (s.last_sep ∷ [])) ++ name in
        let long : max_path ≤ length whole = ground (
          arith,
          length-append (s.out ++ (s.last_sep ∷ [])) name,
          length-append s.out (s.last_sep ∷ []),
        ) in
        simp (off, f, ltb_of_le (length whole) max_path long) refl
    | inr room ↦
        let out : List ℕ = s.out ++ (s.last_sep ∷ []) in
        let short : length out < max_path = ground (arith, length-append s.out (s.last_sep ∷ [])) in
        simp (off, room, append_name-exact out name short, ← length-append out name) refl
  ]
])

pub joined_long :
    (s : Scan) (name : List ℕ) → max_path ≤ length s.out → joined s name ≡ err name_too_long
joined_long s name h =
    rw
      (ltb_of_le (length ((if s.at_sep then s.out else s.out ++ (s.last_sep ∷ [])) ++ name))
        max_path
        (omega (
          arith,
          length-append (if s.at_sep then s.out else s.out ++ (s.last_sep ∷ [])) name,
          grown s.at_sep,
        )))
      refl
  where
    grown : (b : Bool) → length s.out ≤ length (if b then s.out else s.out ++ (s.last_sep ∷ []))
    grown true = omega arith
    grown false = omega (arith, length-append s.out (s.last_sep ∷ []))

>>=_assoc :
    {A B C : Type 0} (m : Result A) (f : A → Result B) (g : B → Result C)
    → (m >>= λ a. f a >>= g) ≡ ((m >>= f) >>= g)
>>=_assoc (ok a) f g = refl
>>=_assoc (err e) f g = refl

-- One call on a variable with a value, by the state behind its first directory.
pub pathed_next-joined :
    (name p : List ℕ) (dbcs : LeadTable)
    → (track_all dbcs (first_dir p) scan_start).lead ≡ false
    → pathed_next (record { name = name; next_path = some p; dbcs = dbcs }) ≡ (
        joined (track_all dbcs (first_dir p) scan_start) name >>= λ path.
        ok (path, record { name = name; next_path = other_dirs p; dbcs = dbcs }))
unfolding pathed_next
pathed_next-joined name p dbcs single =
    elim (Bool-cases (ltb (0 + length (first_dir p)) max_path)) [
      | inl fits ↦
          copied
          ∙ ap (λ b. (if b then ok (s, next) else err name_too_long) >>= rest) fits
          ∙ scanned
          ∙ >>=_assoc (separate s next) (λ out. append_name out name) (λ path. ok (path, itr))
          ∙ ap (λ r. r >>= λ path. ok (path, itr))
              (separated-joined s next name (rw whole (ground arith)))
      | inr long ↦
          copied
          ∙ ap (λ b. (if b then ok (s, next) else err name_too_long) >>= rest) long
          ∙ ap (λ r. r >>= λ path. ok (path, itr))
              (sym (joined_long s name (rw whole (ground arith))))
    ]
  where
    s : Scan
    s = track_all dbcs (first_dir p) scan_start

    next : Option (List ℕ)
    next = other_dirs p

    itr : Itr
    itr = record { name = name; next_path = next; dbcs = dbcs }

    rest : Scan × Option (List ℕ) → Result (List ℕ × Itr)
    rest (t, others) = (if t.lead then err bad_sequence else separate t others) >>= λ out.
        append_name out name >>= λ path.
        ok (path, record { name = name; next_path = others; dbcs = dbcs })

    whole : s.out ≡ first_dir p
    whole = track_all-out dbcs (first_dir p) scan_start

    copied : (copy_dir dbcs p scan_start >>= rest) ≡ (
        (if ltb (0 + length (first_dir p)) max_path then ok (s, next) else err name_too_long)
        >>= rest)
    copied = ap (λ r. r >>= rest) (copy_dir-exact dbcs p scan_start (omega arith))

    scanned :
        rest (s, next)
        ≡ (separate s next >>= λ out. append_name out name >>= λ path. ok (path, itr))
    scanned =
        ap
          (λ b. (if b then err bad_sequence else separate s next) >>= λ out.
            append_name out name >>= λ path. ok (path, itr))
          single

-- `path` for a caller that has it, and the iterator behind it, at the directories that are left.
abbrev pub returned : Itr → List ℕ → List ℕ → Result (List ℕ × Itr)
returned itr p path =
    bounded_name path >>= λ pathname. ok (pathname, record itr { next_path = other_dirs p })
