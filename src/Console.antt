-- ===== src/Console.antt =====
-- Lines and text on the console: common/conio/cgets.c, common/conio/getpass.c and
-- host-gcc/conio/cputs.c. What `_getch` returns is a list of bytes with EOF behind it; `_getch`
-- itself is in Keys, and the handles are in Handles.
pub mod Line
pub mod Text
pub mod Scan
pub mod Keys
pub mod Handles
pub mod Examples
use libi.Base.{
  ℕ, ◌+◌, ◌-◌, Bool, true, false, ◌&&◌, ◌||◌, not, Option, none, some, List, [], ◌∷◌, ◌++◌, length,
  ltb, ◌==◌, if◌then◌else◌,
}

-- `cputs`: the calls of `write`, a line and its end in turn, and the rest.
unfoldable pub chunks : List ℕ → List ℕ → List (List ℕ)
chunks out [] = out ∷ []
chunks out (c ∷ text) =
    let line_end = chunks [] text in
    let more = chunks (out ++ (c ∷ [])) text in
    if c == 10 then out ∷ (13 ∷ 10 ∷ []) ∷ line_end else more

-- Whether the result of `write`, which is `none` for an error, is the length.
unfoldable pub written : Option ℕ → ℕ → Bool
written none len = false
written (some n) len = n == len

-- How many bytes each call of `write` takes; `none` is an error.
unfoldable pub write_all : (List ℕ → Option ℕ) → List (List ℕ) → Bool
unfolding written
write_all write [] = true
write_all write (chunk ∷ rest) =
    let more = write_all write rest in if written (write chunk) (length chunk) then more else false

unfoldable pub joined : List (List ℕ) → List ℕ
joined [] = []
joined (c ∷ rest) = c ++ joined rest

-- What these calls write.
unfoldable pub cputs_text : List ℕ → List ℕ
unfolding chunks joined
cputs_text text = joined (chunks [] text)

-- Whether `cputs` returns 0, and not EOF.
unfoldable pub cputs : (List ℕ → Option ℕ) → List ℕ → Bool
unfolding chunks write_all
cputs write text = write_all write (chunks [] text)

unfoldable pub iscntrl : ℕ → Bool
iscntrl c = ltb c 0x20 || c == 0x7f

unfoldable pub but_last : List ℕ → List ℕ
but_last [] = []
but_last (c ∷ []) = []
but_last (c ∷ d ∷ text) = c ∷ but_last (d ∷ text)

-- The text so far, which `i` counts, and what was written to the console.
pub record Input : Type 0 where
  pub typed : List ℕ
  pub echo : List ℕ

-- A backspace, with the text again; `echoes` tells `cgets` from `getpass`.
unfoldable pub rub : Bool → List ℕ → Input → Input
unfolding but_last
rub echoes [] s = s
rub echoes (c ∷ cs) s = record {
  typed = but_last (c ∷ cs);
  echo = (if echoes then s.echo ++ (8 ∷ b' ' ∷ 8 ∷ []) else s.echo);
}

-- What a key does that neither ends the line nor starts an extended key code. `len` is how long
-- the text may get.
unfoldable pub key_step : ℕ → Bool → ℕ → Input → Input
unfolding iscntrl rub
key_step len echoes ch s =
    if ch == 8
    then rub echoes s.typed s
    else if ltb (length s.typed) len && not (iscntrl ch)
    then record {
      typed = s.typed ++ (ch ∷ []);
      echo = (if echoes then s.echo ++ (ch ∷ []) else s.echo);
    }
    else s

-- The loop; `skip` is set for the second byte of an extended key code. The result says whether a
-- carriage return has ended it, and not EOF.
unfoldable pub line_loop : ℕ → Bool → Bool → Input → List ℕ → Bool × Input
unfolding key_step
line_loop len echoes skip s [] = (false, s)
line_loop len echoes skip s (ch ∷ keys) =
    let rest =
      line_loop len echoes (not skip && ch == 0)
        (if skip || ch == 0 then s else key_step len echoes ch s) keys in
    if not skip && ch == 13 then (true, s) else rest

abbrev pub no_input : List ℕ → Input
no_input echo = record { typed = []; echo = echo }

-- What `cgets` returns, for `buf[0]`: null with EINVAL, null at EOF without any text, or the
-- text, which `buf` holds behind its two counts and with a NUL, and the text on the console.
pub data Got : Type 0 where
  invalid end_of_file : Got
  line : List ℕ → List ℕ → Got

unfoldable pub finish_line : Bool → List ℕ → List ℕ → Got
finish_line true typed echo = line typed (echo ++ (13 ∷ []))
finish_line false [] echo = end_of_file
finish_line false (c ∷ cs) echo = line (c ∷ cs) echo

unfoldable pub cgets : ℕ → List ℕ → Got
unfolding line_loop finish_line
cgets size keys =
    let r = line_loop (size - 1) true false (no_input []) keys in
    if size == 0 then invalid else finish_line r.0 (r.1.typed) (r.1.echo)

-- `getpass`: the password and the text on the console.
unfoldable pub getpass : List ℕ → List ℕ → List ℕ × List ℕ
unfolding line_loop cputs_text
getpass prompt keys =
    let s = (line_loop 8 false false (no_input (cputs_text prompt)) keys).1 in
    (s.typed, s.echo ++ (13 ∷ 10 ∷ []))
