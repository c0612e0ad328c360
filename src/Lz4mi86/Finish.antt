-- ===== src/Lz4mi86/Finish.antt =====
-- `main` of lz4mi86.c ends, whatever the system does.
use libi.Base.{ℕ, zero, suc, ◌+◌, ◌%◌, ◌^◌, ◌≡◌, false, none, List, []}
use libi.Memory.{Far}
use libi.Path.Chars.{LeadTable}
use libi.Lz4mi86.{Io, Options, State, codes}
use libi.Lz4mi86.Files.{outputu}
use libi.Lz4mi86.Main.{
  output_bytes, far_word, output_module, close_output, convert, lz4mi86, set_options, set_in_path,
  program_name,
}
use libi.Lz4mi86.Ends.{
  Ended, Any, Ends, Ends-bind, Ends-then, Ends-if, Ends-return, outputs-Ends, usage-Ends,
}
use libi.Lz4mi86.Files.{decimal}
use libi.Memory.{at}
use libi.Lz4mi86.ReadEnds.{
  read_header-Ends, Ends-option, fatal_or-Ends, read_block-Ends, call-Ends, read_end-Ends,
  return_zero-Ends, open_input-Ends, open_output-Ends, find_xlen-Ends,
}

module _ {S : Type 0} (io : Io S) (o : Options) where
  outputu-Ends : (u : ℕ) → Ends Any (outputu io o u)
  unfolding outputu
  outputu-Ends u = outputs-Ends io o (decimal 6 u [])

  output_bytes-Ended : (n : ℕ) (p : Far) (s : State S) → Ended Any (output_bytes io o n p s)
  unfolding output_bytes
  output_bytes-Ended zero p s = tt
  output_bytes-Ended (suc n) p s =
      let rest : Ends Any
          (output_bytes io o n (record { seg = p.seg; off = (p.off + 1) % 2 ^ 16 })) =
        record {
          from = output_bytes-Ended n (record { seg = p.seg; off = (p.off + 1) % 2 ^ 16 });
        } in
      (Ends-then (outputs-Ends io o (codes "      ")) (
          Ends-then (outputu-Ends (s.mem (at p 0)))
            (Ends-then (outputs-Ends io o (codes ",\r\n")) rest))).from
        s

  far_word-Ends : Ends Any (far_word io o)
  unfolding far_word
  far_word-Ends = Ends-if o.is_far (outputs-Ends io o (codes "__far ")) (Ends-return tt)

  output_module-Ends :
      (xlen : ℕ) (blk : Far) (blk_sz : ℕ) → Ends Any (output_module io o xlen blk blk_sz)
  unfolding output_module
  output_module-Ends xlen blk blk_sz =
      let put = outputs-Ends io o in
      Ends-then (put _) (
        Ends-then far_word-Ends (
          Ends-then (put o.symbol) (
            Ends-then (put _) (
              Ends-then (outputu-Ends xlen) (
                Ends-then (put _) (
                  Ends-then far_word-Ends (
                    Ends-then (put o.symbol) (
                      Ends-then (put _) (
                        Ends-then (record { from = output_bytes-Ended blk_sz blk }) (put _))))))))))

  close_output-Ends : Ends (λ c. c ≡ 0) (close_output io o)
  unfolding close_output
  close_output-Ends = Ends-option io o {P = λ c. c ≡ 0} o.out_path (return_zero-Ends io o) (λ path.
      Ends-bind (call-Ends io o (λ s. io.close s.out_fd))
        (λ r. fatal_or-Ends io o r "cannot close output file" (λ n. (return_zero-Ends io o))))

  convert-Ends : Ends (λ c. c ≡ 0) (convert io o)
  unfolding convert
  convert-Ends = Ends-then (open_input-Ends io o) (
      Ends-bind (read_header-Ends io o) (λ h. Ends-bind (read_block-Ends io o) (λ b.
        Ends-then (read_end-Ends io o h.0) (
          Ends-bind (find_xlen-Ends io o h.1 b.0 b.1) (λ xlen.
            Ends-then (open_output-Ends io o)
              (Ends-then (output_module-Ends xlen b.0 b.1) close_output-Ends))))))

-- Whatever the system does at every call, `read` and `write` moving at most the bytes that they
-- were asked to move, lz4mi86 ends: `main` returns 0, or there is a call of `exit` with 1 or 2.
pub lz4mi86_ends :
    {S : Type 0} (io : Io S) (dbcs : LeadTable) (argv0 : List ℕ) (opts : List (ℕ × List ℕ))
    (operands : List (List ℕ)) (file : List ℕ) (s : State S)
    → Ended (λ c. c ≡ 0) (lz4mi86 io dbcs argv0 opts operands file s)
unfolding lz4mi86
lz4mi86_ends io dbcs argv0 opts operands file s =
    let start : Options = record {
      me = program_name dbcs argv0;
      in_path = none;
      out_path = none;
      symbol = codes "data_file";
      is_far = false;
      file = file;
    } in
    (Ends-bind {P = λ c. c ≡ 0} (call-Ends io start (λ s. io.binmode 2)) (λ r.
        Ends-option io start {P = λ c. c ≡ 0} (set_options opts start)
          (usage-Ends io start (λ c. c ≡ 0))
          (λ o.
            Ends-option io start {P = λ c. c ≡ 0} (set_in_path operands o)
              (usage-Ends io o (λ c. c ≡ 0)) (λ o'. convert-Ends io o')))).from
      s
