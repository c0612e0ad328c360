-- ===== src/Path/Search/Walk.antt =====
-- The walk ends on every list of directories, and looks at them in their order.
use libi.Base.{ℕ, suc, zero, ◌≤◌, ◌≡◌, refl, sym, ap, ◌∙◌, Bool, true, false, Option}
use libi.Base.{none, some, List, [], ◌∷◌, ◌++◌, arith, ◌==◌, ltb}
use libi.Base.{length, if◌then◌else◌}
use libi.Base.{Bool-cases, ◌⊎◌, inl, inr}
use libi.Path.Chars.{max_path}
use libi.Path.Itr.{Error, no_entry, name_too_long, Result, ok, err, Itr, pathed_next}
use libi.Path.Itr.Next.{first_dir, other_dirs, returned}
use libi.Path.Itr.Null.{backslashed, pathed_next-null}
use libi.Path.Search.{Found, found, ended, walk, rounds, rounds_of}

length-other_dirs : (p : List ℕ) → rounds (other_dirs p) ≤ length p
unfolding other_dirs
length-other_dirs [] = omega arith
length-other_dirs (c ∷ p) = ground (arith, length-other_dirs p)

abbrev grow : ℕ → List (List ℕ) → List (List ℕ)
grow c [] = []
grow c (dir ∷ dirs) = (c ∷ dir) ∷ dirs

-- The texts between the semicolons.
unfoldable pub split_dirs : List ℕ → List (List ℕ)
split_dirs [] = [] ∷ []
split_dirs (c ∷ p) = let rest = split_dirs p in if c == b';' then [] ∷ rest else grow c rest

abbrev pub split_rest : Option (List ℕ) → List (List ℕ)
split_rest none = []
split_rest (some p) = split_dirs p

split_dirs-first : (p : List ℕ) → split_dirs p ≡ first_dir p ∷ split_rest (other_dirs p)
unfolding split_dirs first_dir other_dirs
split_dirs-first [] = refl
split_dirs-first (c ∷ p) = elim (Bool-cases (c == b';')) [
  | inl semi ↦ rw semi refl
  | inr other ↦ rw other (ap (grow c) (split_dirs-first p))
]

-- The first wanted file of that name in the directories, tried in their order, up to one with
-- which the path name is too long, or why there is none.
unfoldable pub first_hit : (List ℕ → Bool) → List ℕ → List (List ℕ) → List ℕ ⊎ Error
first_hit wanted name [] = inr no_entry
first_hit wanted name (dir ∷ dirs) =
    let path = backslashed dir ++ name in
    let rest = first_hit wanted name dirs in
    if ltb (length path) max_path
    then (if wanted path then inl path else rest)
    else inr name_too_long

-- A walk with this result, which has not run out of fuel.
abbrev pub as_found : List ℕ ⊎ Error → Found
as_found (inl path) = found path
as_found (inr e) = ended e

abbrev start_at : List ℕ → Option (List ℕ) → Itr
start_at name path = record { name = name; next_path = path; dbcs = none }

abbrev pub hit_rest : (List ℕ → Bool) → List ℕ → Option (List ℕ) → List ℕ ⊎ Error
hit_rest wanted name path = first_hit wanted name (split_rest path)

walk_err : (wanted : List ℕ → Bool) (fuel : ℕ) (e : Error) → walk wanted fuel (err e) ≡ ended e
unfolding walk
walk_err wanted zero e = refl
walk_err wanted (suc fuel) e = refl

pathed_next_end : (name : List ℕ) → pathed_next (start_at name none) ≡ err no_entry
unfolding pathed_next
pathed_next_end name = refl

-- The walk from a name that has been computed on, when the walk from there is known.
walk-returned :
    (wanted : List ℕ → Bool) (fuel : ℕ) (name p : List ℕ)
    → walk wanted fuel (pathed_next (start_at name (other_dirs p)))
      ≡ as_found (hit_rest wanted name (other_dirs p))
    → walk wanted
        (suc fuel)
        (returned (start_at name (some p)) p (backslashed (first_dir p) ++ name))
      ≡ as_found (hit_rest wanted name (some p))
unfolding walk
walk-returned wanted fuel name p next = rw split_dirs-first (
    unfold first_hit in
    elim (Bool-cases (ltb (length (backslashed (first_dir p) ++ name)) max_path)) [
      | inl short ↦ elim (Bool-cases (wanted (backslashed (first_dir p) ++ name))) [
        | inl hit ↦ rw (short, hit) refl
        | inr miss ↦ rw (short, miss, next) refl
      ]
      | inr long ↦ rw long refl
    ])

walk_from :
    (wanted : List ℕ → Bool) (fuel : ℕ) (name : List ℕ) (path : Option (List ℕ))
    → rounds path ≤ fuel
    → walk wanted fuel (pathed_next (start_at name path)) ≡ as_found (hit_rest wanted name path)
walk_from wanted fuel name none h =
    rw pathed_next_end (walk_err wanted fuel no_entry ∙ unfold first_hit in refl)
walk_from wanted zero name (some p) h = absurd (omega arith)
walk_from wanted (suc fuel) name (some p) h = rw (pathed_next-null name p) (
    walk-returned wanted fuel name p
      (walk_from wanted fuel name (other_dirs p) (omega (arith, length-other_dirs p))))

abbrev long_or : Bool → Itr → List ℕ → Option (List ℕ) → Result (List ℕ × Itr)
long_or true itr path next = ok (path, record itr { next_path = next })
long_or false itr path next = err name_too_long

returned-long_or :
    (itr : Itr) (p path : List ℕ)
    → returned itr p path ≡ long_or (ltb (length path) max_path) itr path (other_dirs p)
returned-long_or itr p path = elim (Bool-cases (ltb (length path) max_path)) [
  | inl short ↦ rw short refl
  | inr long ↦ rw long refl
]

-- The fuel that the searches take is enough.
pub walk_enough :
    (wanted : List ℕ → Bool) (name : List ℕ) (path : Option (List ℕ))
    → let first = pathed_next (record { name = name; next_path = path; dbcs = none }) in
      walk wanted (rounds_of first) first ≡ as_found (hit_rest wanted name path)
walk_enough wanted name none =
    rw pathed_next_end (walk_err wanted 0 no_entry ∙ unfold first_hit in refl)
walk_enough wanted name (some p) = rw (pathed_next-null name p) (
    settled (ltb (length path) max_path) refl
    ∙ walk-returned wanted (rounds (other_dirs p)) name p
        (walk_from wanted (rounds (other_dirs p)) name (other_dirs p) (omega arith)))
  where
    path : List ℕ
    path = backslashed (first_dir p) ++ name

    settled :
        (b : Bool)
        → ltb (length path) max_path ≡ b
        → walk wanted
            (rounds_of (returned (start_at name (some p)) p path))
            (returned (start_at name (some p)) p path)
          ≡ walk wanted (suc (rounds (other_dirs p))) (returned (start_at name (some p)) p path)
    settled true e = rw (returned-long_or, e) refl
    settled false e =
        rw (returned-long_or, e)
          (walk_err wanted 0 _ ∙ sym (walk_err wanted (suc (rounds (other_dirs p))) _))
