-- ===== src/Console/Examples.antt =====
-- Runs of the console functions.
use libi.Base.{none, ℕ, ◌≡◌, refl, Option, some, List, [], ◌∷◌, length}
use libi.Base.{◌+◌, ◌*◌, ◌/◌, ◌%◌, ◌==◌, if◌then◌else◌}
use libi.Console.Keys.{Read, failed, key, eof, Keys, ungetch, getch, kbhit, putch}
use libi.Console.Keys.Queue.{Op, get, hit, unget, calls, answers, console, view, calls-answers}
use libi.Console.Handles.{Setter, in_fd_init, in_fd_fini}
use libi.Console.Handles.Restore.{TakesLow, fresh, in_fd_fini-in_fd_init}
use libi.Console.{iscntrl, cgets, getpass, line}
use libi.Console.Line.{CleanGot, Clean, text_of, cgets-CleanGot, cgets-take}

-- "ab", a backspace and "c", an arrow key and a carriage return.
abbrev edited_keys : List ℕ
edited_keys = b'a' ∷ b'b' ∷ 8 ∷ b'c' ∷ 0 ∷ 72 ∷ 13 ∷ []

cgets_edited :
    cgets 80 edited_keys ≡ line (b'a' ∷ b'c' ∷ []) (b'a' ∷ b'b' ∷ 8 ∷ b' ' ∷ 8 ∷ b'c' ∷ 13 ∷ [])
unfolding cgets
cgets_edited = refl

cgets-CleanGot_example :
    CleanGot 3 (cgets 3 edited_keys) × Clean 8 ((getpass (b'?' ∷ []) edited_keys).0)
cgets-CleanGot_example = cgets-CleanGot 3 edited_keys (b'?' ∷ [])

cgets-take_example :
    text_of (cgets 3 (b'a' ∷ b'b' ∷ b'c' ∷ 13 ∷ b'd' ∷ [])) ≡ some (b'a' ∷ b'b' ∷ [])
unfolding iscntrl
cgets-take_example = cgets-take 2 (b'a' ∷ b'b' ∷ b'c' ∷ []) (b'd' ∷ []) (refl, (refl, (refl, tt)))

-- A console that takes everything.
abbrev write_whole : List ℕ → Option ℕ
write_whole c = some (length c)

-- A key that is put back in front of the next keys, and a second one that is refused.
abbrev key_calls : List Op
key_calls = get ∷ unget b'a' ∷ unget b'b' ∷ hit ∷ get ∷ get ∷ []

abbrev next_key : ℕ → ℕ
next_key n = b'p' + n

abbrev at_start : Keys
at_start = record { ungetch_buf = 0; con_in_fd = 0; taken = 0 }

abbrev never : ℕ → Read
never n = failed

key_calls_run :
    (calls next_key never next_key key_calls at_start).0
    ≡ key b'p' ∷ key b'a' ∷ eof ∷ key 0xffff ∷ key b'a' ∷ key b'q' ∷ []
unfolding getch ungetch kbhit
key_calls_run = refl

calls-answers_example :
    ((calls next_key never next_key key_calls at_start).0
      ≡ (answers next_key never next_key
          (console next_key never next_key 0)
          key_calls
          (view next_key never next_key at_start)).0)
    × (view next_key never next_key (calls next_key never next_key key_calls at_start).1
        ≡ (answers next_key never next_key
            (console next_key never next_key 0)
            key_calls
            (view next_key never next_key at_start)).1)
calls-answers_example = calls-answers next_key never next_key key_calls at_start

-- A line feed.
putch_line : putch write_whole 10 ≡ ((13 ∷ []) ∷ (10 ∷ []) ∷ [], some 10)
unfolding putch
putch_line = refl

-- DOS takes the low byte.
abbrev take_low : Setter
take_low fd w info h = elim (info h) [
  | none ↦ none
  | some dw ↦ if h == fd then some (dw / 256 * 256 + w % 256) else some dw
]

take_low-TakesLow : TakesLow take_low
take_low-TakesLow fd w info h dw e = rw (e, take_low) refl

-- Two files, and the console as handle 5.
abbrev two_files : ℕ → Option ℕ
two_files h = if h == 5 then some 0x80d3 else some 0x42

in_fd_fini-in_fd_init_example :
    (in_fd_fini take_low (in_fd_init take_low (some 5) (fresh two_files))).info 5 ≡ some 0x80d3
in_fd_fini-in_fd_init_example =
    in_fd_fini-in_fd_init take_low take_low-TakesLow two_files (some 5) 5 0x80d3 refl
