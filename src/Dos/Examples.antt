-- ===== src/Dos/Examples.antt =====
-- Calls of DOS and the BIOS at concrete values.
use libi.Base.{ℕ, ◌+◌, ◌*◌, ◌^◌, ◌<◌, false, Option, some, List, [], ◌∷◌, arith}
use libi.Dos.Disk.{DiskInfo}
use libi.Dos.Segments.{Cache}
use libi.Dos.Tables.{Answer}
use libi.Dos.Lines.{cmd_line_len}

abbrev disk : DiskInfo
disk = record {
  drive = 128;
  head = 3;
  track = 600;
  sector = 17;
  nsectors = 1;
  buffer_seg = 0x1000;
  buffer_off = 0;
}

abbrev descriptor : ℕ → Option ℕ
descriptor rm = some (rm * 8 + 7)

abbrev no_cache : Cache
no_cache = record { seg_pm = 0; seg_rm = 0 }

-- DOS's table of lead bytes at 0x50:0x10, which starts with 0x81 and 0x9f.
abbrev answer : Answer
answer = record { carry = false; ax = 0x6300; si = 0x10; ds = 0x50 }

abbrev lead_word : ℕ → ℕ → ℕ
lead_word seg off = 0x9f81

abbrev two_lines : List ℕ
two_lines = b'A' ∷ b' ' ∷ b'B' ∷ 13 ∷ 10 ∷ b'C' ∷ []

two_lines-len : cmd_line_len two_lines + 37 < 2 ^ 16
unfolding cmd_line_len
two_lines-len = omega arith
