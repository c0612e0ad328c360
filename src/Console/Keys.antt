-- ===== src/Console/Keys.antt =====
-- Keys: common/conio/getch.c, common/conio/getche.c, host-gcc/conio/ungetch.S,
-- host-gcc/conio/kbhit.c and host-gcc/conio/putch.c. What DOS gives is one answer for each call.
pub mod Queue
use libi.Base.{
  ℕ, ◌+◌, ◌-◌, ◌%◌, ◌≡◌, Bool, true, false, not, Option, none, some, List, [], ◌∷◌, ◌++◌,
}
use libi.Base.{ltb, ◌==◌, if◌then◌else◌}
use libi.Console.{written}

-- What `read` of one byte returns: 1 with the byte, 0, or -1.
pub data Read : Type 0 where
  byte : ℕ → Read
  short failed : Read

-- What a function for keys returns: a byte, EOF with EIO, or EOF with the errno that there is.
pub data Key : Type 0 where
  key : ℕ → Key
  io_error eof : Key

-- `__libi86_ungetch_buf`, `__libi86_con_in_fd`, and how many bytes were read so far.
pub record Keys : Type 0 where
  pub ungetch_buf : ℕ
  pub con_in_fd : ℕ
  pub taken : ℕ

unfoldable pub key_of : Read → Key
key_of (byte c) = key c
key_of short = io_error
key_of failed = eof

-- `_ungetch`: `lahf` behind a comparison that finds zero gives 0x46, and so the buffer is not
-- zero.
unfoldable pub ungetch : ℕ → Keys → Key × Keys
ungetch c s =
    if not (s.ungetch_buf == 0)
    then (eof, s)
    else (key (c % 256), record s { ungetch_buf = 0x4600 + c % 256 })

-- The service 07h of DOS, `read`, the status byte of service 0bh or 4406h, and `write`.
module _ (service_07 : ℕ → ℕ) (read : ℕ → Read) (status : ℕ → ℕ) where
  unfoldable pub getch : Keys → Key × Keys
  unfolding key_of
  getch s =
      if not (s.ungetch_buf == 0)
      then (key (s.ungetch_buf % 256), record s { ungetch_buf = 0 })
      else if s.con_in_fd == 0
      then (key (service_07 s.taken), record s { taken = s.taken + 1 })
      else (key_of (read s.taken), record s { taken = s.taken + 1 })

  -- The `int` that `_kbhit` returns, by its 16 bits.
  unfoldable pub kbhit : Keys → ℕ
  kbhit s =
      if not (s.ungetch_buf == 0)
      then 0xffff
      else if ltb (status s.taken) 128
      then status s.taken
      else 0xff00 + status s.taken

-- `putch`: the calls of `write` that it makes, and the byte, or none for EOF.
unfoldable pub putch : (List ℕ → Option ℕ) → ℕ → List (List ℕ) × Option ℕ
unfolding written
putch write ch =
    let ch2 = ch % 256 in
    let last = if written (write (ch2 ∷ [])) 1 then some ch2 else none in
    if not (ch2 == 10)
    then ((ch2 ∷ []) ∷ [], last)
    else if written (write (13 ∷ [])) 1
    then ((13 ∷ []) ∷ (ch2 ∷ []) ∷ [], last)
    else ((13 ∷ []) ∷ [], none)

module _ (service_07 : ℕ → ℕ) (read : ℕ → Read) (status : ℕ → ℕ) (write : List ℕ → Option ℕ) where
  unfoldable pub echoed : Key → List (List ℕ) × Option ℕ
  unfolding putch
  echoed (key c) = putch write c
  echoed io_error = ([], none)
  echoed eof = ([], none)

  -- `_getche`
  unfoldable pub getche : Keys → (List (List ℕ) × Option ℕ) × Keys
  unfolding getch echoed
  getche s = let r = getch service_07 read status s in (echoed r.0, r.1)
