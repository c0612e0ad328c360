-- ===== src/Console/Scan.antt =====
-- common/conio/vcscanf.c: formatted input from a line of the console. The C library's `vsscanf`,
-- with the format and the arguments, is a parameter.
use libi.Base.{ℕ, ◌≡◌, refl, ap, ◌∙◌, Option, none, some, List, ◌∷◌, ◌++◌, take}
use libi.Console.{Got, invalid, end_of_file, line, cgets}
use libi.Console.Line.{Plain, text_of, cgets-take}

-- `none` is EOF.
unfoldable pub scanned : {A : Type 0} → (List ℕ → A) → Got → Option A
scanned vsscanf invalid = none
scanned vsscanf end_of_file = none
scanned vsscanf (line text echo) = some (vsscanf text)

-- `vcscanf`, whose buffer has room for `UCHAR_MAX` - 1 characters.
unfoldable pub vcscanf : {A : Type 0} → (List ℕ → A) → List ℕ → Option A
unfolding scanned
vcscanf vsscanf keys = scanned vsscanf (cgets 255 keys)

abbrev pub mapped : {A : Type 0} → (List ℕ → A) → Option (List ℕ) → Option A
mapped f none = none
mapped f (some text) = some (f text)

scanned-text_of :
    {A : Type 0} (vsscanf : List ℕ → A) (got : Got)
    → scanned vsscanf got ≡ mapped vsscanf (text_of got)
unfolding scanned
scanned-text_of vsscanf invalid = refl
scanned-text_of vsscanf end_of_file = refl
scanned-text_of vsscanf (line text echo) = refl

-- Keys that are no control characters and then a carriage return are scanned up to 254 of them,
-- whatever keys come behind.
pub vcscanf-take :
    {A : Type 0} (vsscanf : List ℕ → A) (keys rest : List ℕ)
    → Plain keys
    → vcscanf vsscanf (keys ++ (13 ∷ rest)) ≡ some (vsscanf (take 254 keys))
unfolding vcscanf
vcscanf-take vsscanf keys rest h =
    scanned-text_of vsscanf (cgets 255 (keys ++ (13 ∷ rest)))
    ∙ ap (mapped vsscanf) (cgets-take 254 keys rest h)
