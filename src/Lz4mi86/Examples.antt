-- ===== src/Lz4mi86/Examples.antt =====
-- Runs of lz4mi86 on small files.
use libi.Base.{◌≤◌, length, true, arith, ℕ, ◌≡◌, refl, none, List, [], ◌∷◌, ◌++◌}
use libi.Lz4mi86.{State, Outcome, codes}
use libi.Lz4mi86.Pipe.{Pipe, pipe, memory_at, pipe_streams}
use libi.Lz4mi86.Main.{
  lz4mi86, convert, set_options, set_in_path, open_input, read_header, read_xlen, read_block,
  take_block, read_end, find_xlen, open_output, output_module, close_output, output_bytes, far_word,
  fatal_if, fatal_or, program_name,
}
use libi.Lz4mi86.Header.{le32, version_ok, features_ok, has_xlen, has_bcksum}
use libi.Lz4mi86.Files.{
  input, far_input, fmemcpy, fatal, errputs, ouch, outputs, outputu, output_fd, output_loop,
  decimal, moved_count, moved_bytes,
}
use libi.Lz4mi86.Ends.{Ended}
use libi.Lz4mi86.Finish.{lz4mi86_ends}
use libi.Lz4mi86.Decimal.{read-decimal, Leads}
use libi.Lz4mi86.Converted.{lz4mi86-module_text}
use libi.Lz4mi86.Frame.{frame, module_text}
use libi.Number.RoundTrip.{read}
use libi.Lz4.Format.{Block, encode, expand}
use libi.Lz4.Len.{lz4len}
use libi.Endian.{leh32}
use libi.Path.Splitpath.{splitpath}
use libi.Path.Chars.{has_drive_spec_p, path_sep_p, dbcs_lead_p}

abbrev start : List ℕ → State Pipe
start file = record {
  os = record { left = file; out = []; err = []; errno = 0 };
  mem = λ a. 0;
  in_fd = 0;
  out_fd = 1;
}

-- The exit status, the output and the messages.
abbrev seen : Outcome Pipe ℕ → ℕ × List ℕ × List ℕ
seen (Outcome.done c s) = (c, s.os.out, s.os.err)
seen (Outcome.exited c s) = (c, s.os.out, s.os.err)
seen Outcome.stuck = (99, [], [])

-- A frame with the one literal "a".
abbrev a_frame : List ℕ
a_frame = 4 ∷ 34 ∷ 77 ∷ 24 ∷ 96 ∷ 64 ∷ 0 ∷ 2 ∷ 0 ∷ 0 ∷ 0 ∷ 16 ∷ 97 ∷ 0 ∷ 0 ∷ 0 ∷ 0 ∷ []

a_module :
    seen (
      lz4mi86 pipe none
        (codes "C:\\LZ4MI86.EXE")
        ((b'F', []) ∷ [])
        []
        (codes "x.c")
        (start a_frame))
    ≡ (
      0,
      codes
          "/* Automatically generated by x.c. */\r\nunsigned char __far data_file[1];\r\nunsigned char __far data_file_lz4[]\r\n  = {\r\n      16,\r\n      97,\r\n    };\r\n",
      [],
    )
unfolding lz4mi86 convert set_options set_in_path open_input read_header read_xlen read_block
    take_block read_end find_xlen open_output output_module close_output output_bytes far_word
    fatal_if fatal_or input far_input fmemcpy outputs outputu output_fd output_loop decimal
    moved_count moved_bytes le32 leh32 version_ok features_ok has_xlen has_bcksum lz4len
a_module = refl

not_lz4 :
    seen (
      lz4mi86 pipe none
        (codes "C:\\LZ4MI86.EXE")
        []
        []
        (codes "x.c")
        (start (codes "abcdefghijkl")))
    ≡ (2, [], codes "LZ4MI86: input is not LZ4: EOF or disk full\r\n")
unfolding lz4mi86 convert set_options set_in_path open_input read_header fatal_if fatal_or fatal
    input output_fd errputs ouch output_loop moved_count moved_bytes le32 leh32 program_name
    splitpath has_drive_spec_p path_sep_p dbcs_lead_p
not_lz4 = refl

-- "ab", five more bytes from two before, and "c"
abbrev short_block : Block
short_block = record {
  sequences = record { literals = 97 ∷ 98 ∷ []; back = 2; count = 5 } ∷ [];
  last = 99 ∷ [];
}

-- A frame for it with both fields.
abbrev short_frame : List ℕ
short_frame = frame 120 64 7 short_block (1 ∷ 2 ∷ 3 ∷ 4 ∷ []) (5 ∷ [])

lz4mi86-module_text_example :
    (s' : State Pipe) × (lz4mi86 pipe none
        (codes "C:\\LZ4MI86.EXE")
        ((b'F', []) ∷ [])
        []
        (codes "x.c")
        (start short_frame)
      ≡ Outcome.done 0 s')
    × (s'.os.out
        ≡ []
          ++ module_text
              (codes "x.c")
              (codes "data_file")
              true
              (length (expand short_block))
              (encode short_block))
    × (s'.os.left ≡ 5 ∷ [])
unfolding expand encode set_options version_ok features_ok
lz4mi86-module_text_example =
    lz4mi86-module_text pipe memory_at pipe_streams none (codes "C:\\LZ4MI86.EXE") ((b'F', []) ∷ [])
      (codes "data_file") true (codes "x.c") 120 64 7 short_block (1 ∷ 2 ∷ 3 ∷ 4 ∷ []) (5 ∷ [])
      (start short_frame) refl refl refl refl (omega arith, tt) (omega arith) (omega arith)
      (omega arith) refl refl refl

lz4mi86_ends_example :
    Ended
      (λ c. c ≡ 0)
      (lz4mi86 pipe none (codes "C:\\LZ4MI86.EXE") [] [] (codes "x.c") (start (codes "abc")))
lz4mi86_ends_example =
    lz4mi86_ends pipe none (codes "C:\\LZ4MI86.EXE") [] [] (codes "x.c") (start (codes "abc"))

read-decimal_example :
    (read 10 0 (decimal 6 65535 []) ≡ 65535)
    × (length (decimal 6 65535 []) ≤ 6)
    × Leads (decimal 6 65535 [])
read-decimal_example = read-decimal 65535 (omega arith) (omega arith)
