-- ===== src/Process/Cmdline.antt =====
-- common/process/spawnve.c: how `direct_spawn` lays out the command line in `argb`, 128 bytes of
-- which the first is the length. The text that is written from `argb + 1` on is a list, also
-- where it has left the array: `q - argb` is one more than its length.
pub mod Fit
pub mod Words
pub mod Overflow
use libi.Base.{ℕ, ◌+◌, ◌-◌, Bool, true, false, ◌&&◌, ◌||◌, not, Option, none, some}
use libi.Base.{List, [], ◌∷◌, ◌++◌, length, ltb, ◌==◌, if◌then◌else◌}
use libi.Path.Chars.{LeadTable, dbcs_lead_p}

-- `none` is the return with `errno` set to E2BIG.
infixl 5 ◌>>=◌
abbrev pub ◌>>=◌ : {A B : Type 0} → Option A → (A → Option B) → Option B
none >>= f = none
some a >>= f = f a

-- COPY, COPY1, COPY2, COPY3
unfoldable pub copy : List ℕ → List ℕ → Option (List ℕ)
copy out chrs =
    if ltb 127 (length chrs) || ltb (127 - length chrs) (1 + length out)
    then none
    else some (out ++ chrs)

unfoldable pub copy1 : List ℕ → ℕ → Option (List ℕ)
copy1 out chr = if 1 + length out == 127 then none else some (out ++ (chr ∷ []))

unfoldable pub copy2 : List ℕ → ℕ → ℕ → Option (List ℕ)
copy2 out chr1 chr2 = if 1 + length out == 126 then none else some (out ++ (chr1 ∷ chr2 ∷ []))

unfoldable pub copy3 : List ℕ → ℕ → ℕ → ℕ → Option (List ℕ)
copy3 out chr1 chr2 chr3 =
    if 1 + length out == 125 then none else some (out ++ (chr1 ∷ chr2 ∷ chr3 ∷ []))

-- `*p != 0 && ! strpbrk (p, set)`
unfoldable pub none_of : (ℕ → Bool) → List ℕ → Bool
none_of set [] = true
none_of set (c ∷ p) = not (set c) && none_of set p

unfoldable pub bare : (ℕ → Bool) → List ℕ → Bool
unfolding none_of
bare set [] = false
bare set (c ∷ p) = none_of set (c ∷ p)

-- " \t" and " \t<>|'\"%"
unfoldable pub blank : ℕ → Bool
blank c = c == b' ' || c == 9

unfoldable pub dos_special : ℕ → Bool
unfolding blank
dos_special c =
    blank c || (c == b'<' || (c == b'>' || (c == b'|' || (c == 0x27 || (c == b'"' || c == b'%')))))

-- What a character needs before it, outside of double-byte characters.
unfoldable pub escaped : Bool → ℕ → Bool
escaped unix_shell c = if c == b'"' then true else c == 0x5c && unix_shell

-- The loop over a quoted argument for a program that is not a DOS shell, without the quotes.
unfoldable pub quote_loop : LeadTable → Bool → Bool → List ℕ → List ℕ → Option (List ℕ)
unfolding copy1 escaped
quote_loop dbcs unix_shell lead out [] = some out
quote_loop dbcs unix_shell lead out (c ∷ p) =
    let next_lead = (if lead || (c == b'"' || c == 0x5c) then false else dbcs_lead_p c dbcs) in
    do
      out' ← (if not lead && escaped unix_shell c then copy1 out 0x5c else some out)
      out'' ← copy1 out' c
      quote_loop dbcs unix_shell next_lead out'' p

-- One argument with the blank before it.
unfoldable pub put_arg : LeadTable → Bool → List ℕ → List ℕ → Option (List ℕ)
unfolding copy copy1 quote_loop bare blank
put_arg dbcs unix_shell out p = do
  out' ← copy1 out b' '
  if bare blank p then copy out' p else (do
    out1 ← copy1 out' b'"'
    out2 ← quote_loop dbcs unix_shell false out1 p
    copy1 out2 b'"')

-- The text so far and `outside_quote`.
abbrev pub DosOut : Type 0
DosOut = List ℕ × Bool

-- One character of a quoted argument for a DOS shell, no trail byte.
unfoldable pub dos_char : LeadTable → ℕ → DosOut → Option DosOut
unfolding copy1 copy2 copy3
dos_char dbcs c (out, outside) =
    if c == b'"'
    then (copy2 out 0x5c b'"' >>= λ o. some (o, not outside))
    else if c == b'%'
    then (copy2 out b'%' b'%' >>= λ o. some (o, outside))
    else if (c == b'<' || (c == b'>' || c == b'|')) && outside
    then (copy3 out b'"' c b'"' >>= λ o. some (o, outside))
    else (copy1 out c >>= λ o. some (o, outside))

-- Which characters of the `switch` reach its default.
unfoldable pub dos_plain : ℕ → Bool
dos_plain c = not (c == b'"' || (c == b'%' || (c == b'<' || (c == b'>' || c == b'|'))))

unfoldable pub dos_loop : LeadTable → Bool → DosOut → List ℕ → Option DosOut
unfolding dos_char copy1 dos_plain
dos_loop dbcs lead s [] = some s
dos_loop dbcs lead (out, outside) (c ∷ p) = do
  s ← (if lead then (copy1 out c >>= λ o. some (o, outside)) else dos_char dbcs c (out, outside))
  dos_loop dbcs (not lead && (dos_plain c && dbcs_lead_p c dbcs)) s p

unfoldable pub put_dos_arg : LeadTable → DosOut → List ℕ → Option DosOut
unfolding copy copy1 dos_loop bare dos_special
put_dos_arg dbcs (out, outside) p = do
  out' ← copy1 out b' '
  if bare dos_special p then (copy out' p >>= λ o. some (o, outside)) else (do
    out1 ← copy1 out' b'"'
    (out2, outside') ← dos_loop dbcs false (out1, not outside) p
    out3 ← copy1 out2 b'"'
    some (out3, not outside'))

unfoldable pub put_args : LeadTable → Bool → List ℕ → List (List ℕ) → Option (List ℕ)
unfolding put_arg
put_args dbcs unix_shell out [] = some out
put_args dbcs unix_shell out (p ∷ pp) = do
  out' ← put_arg dbcs unix_shell out p
  put_args dbcs unix_shell out' pp

unfoldable pub put_dos_args : LeadTable → DosOut → List (List ℕ) → Option DosOut
unfolding put_dos_arg
put_dos_args dbcs s [] = some s
put_dos_args dbcs s (p ∷ pp) = do s' ← put_dos_arg dbcs s p; put_dos_args dbcs s' pp

-- `opt_c_special`: the arguments go as they are.
unfoldable pub put_raw_args : List ℕ → List (List ℕ) → Option (List ℕ)
unfolding copy copy1
put_raw_args out [] = some out
put_raw_args out (p ∷ pp) = do out' ← copy1 out b' '; out'' ← copy out' p; put_raw_args out'' pp

-- The arguments behind `argv[0]`, for which kind of program.
unfoldable pub layout : LeadTable → Bool → Bool → Bool → List (List ℕ) → Option (List ℕ)
unfolding put_args put_dos_args put_raw_args
layout dbcs opt_c_special dos_shell unix_shell args =
    if opt_c_special
    then put_raw_args [] args
    else if not dos_shell
    then put_args dbcs unix_shell [] args
    else (put_dos_args dbcs ([], true) args >>= λ s. some s.0)
