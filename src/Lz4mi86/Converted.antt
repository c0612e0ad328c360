-- ===== src/Lz4mi86/Converted.antt =====
-- lz4mi86 as a filter from a frame to a C module.
use libi.Base.{
  ℕ, zero, suc, ◌+◌, ◌^◌, ◌<◌, ◌≡◌, ◌∙◌, refl, ap, Bool, true, false, Option, none, some, List, [],
  ◌++◌, arith, if_holds,
}
use libi.Base.{length, leb, if◌then◌else◌}
use libi.Memory.{Far, Memory}
use libi.Lz4mi86.{Io, Options, State, Outcome, Run, codes}
use libi.Lz4mi86.Files.{fatal, fmemcpy}
use libi.Base.{All}
use libi.Lz4.Format.{Block, encode, expand}
use libi.Lz4.Len.{lz4len}
use libi.Memory.{linear_addr_rm}
use libi.Lz4.Size.{LongMatch, lz4len-expand}
use libi.Lz4mi86.Streams.{Streams, View, Yields, Yields-bind, Yields-then}
use libi.Lz4mi86.Shown.{filter, output_module-Yields}
use libi.Lz4mi86.Frame.{bytes32, cksum_field, frame, module_text}
use libi.Lz4mi86.Main.{
  lz4mi86, set_options, set_in_path, program_name, find_xlen, close_output, convert,
}
use libi.Lz4mi86.Header.{version_ok, features_ok, has_xlen}
use libi.Lz4mi86.Fields.{fmemcpy-Held, sequences_few, encode_some}
use libi.Lz4mi86.Received.{
  open_input-Yields, open_output-Yields, read_header-Yields, read_end-Yields,
}
use libi.Lz4mi86.BlockTaken.{read_block-Yields}
use libi.Lz4mi86.Files.{usage}
use libi.Path.Chars.{LeadTable}

module _ {S : Type 0} (io : Io S) (blk : Far) (st : Streams io blk) (me symbol : List ℕ)
    (is_far : Bool) (file : List ℕ) where
  abbrev o : Options
  o = filter me symbol is_far file

  abbrev Gets : {A : Type 0} → Run S A → View → A → View → Type 0
  Gets m v a w = Yields io o blk st m v a w

  find_xlen_given :
      (n : ℕ) (p : Far) (size : ℕ) (v : View) → 0 < n → Gets (find_xlen io o n p size) v n v
  unfolding find_xlen
  find_xlen_given zero p size v h = absurd (omega (arith, h))
  find_xlen_given (suc n) p size v h = record { from = λ s now. (s, refl, now) }

  find_xlen_counted :
      (n : ℕ) (p : Far) (size : ℕ) (v : View)
      → 0 < n
      → lz4len (2 ^ 14) p size v.mem ≡ some n
      → Gets (find_xlen io o 0 p size) v n v
  unfolding find_xlen
  find_xlen_counted zero p size v h e = absurd (omega (arith, h))
  find_xlen_counted (suc n) p size v h e = record {
    from = λ s now.
        let next : State S → Option ℕ → Outcome S ℕ = λ s' r. elim r [
          | none ↦ Outcome.stuck
          | some zero ↦ fatal io o (codes "LZ4 input too large") s'
          | some (suc k) ↦ Outcome.done (suc k) s'
        ] in
        (s, ap (next s) (ap (lz4len (2 ^ 14) p size) now.mem_is ∙ e), now);
  }

  find_xlen-Yields :
      (flg n : ℕ) (p : Far) (size : ℕ) (v : View)
      → 0 < n
      → lz4len (2 ^ 14) p size v.mem ≡ some n
      → Gets (find_xlen io o (if has_xlen flg then n else 0) p size) v n v
  find_xlen-Yields flg n p size v h e =
      if_holds (λ k. Gets (find_xlen io o k p size) v n v) (has_xlen flg) n 0
        (λ b. find_xlen_given n p size v h) (λ b. find_xlen_counted n p size v h e)

  close_output-Yields : (v : View) → Gets (close_output io o) v 0 v
  unfolding close_output
  close_output-Yields v = record { from = λ s now. (s, refl, now) }

  convert-Yields :
      (flg bd hc : ℕ) (b : Block) (sum more out : List ℕ) (mem : Memory)
      → version_ok flg ≡ true
      → features_ok flg bd ≡ true
      → length sum ≡ 4
      → All LongMatch b.sequences
      → 0 < length (expand b)
      → length (expand b) < 2 ^ 16
      → blk.off + length (encode b) < 2 ^ 16
      → Gets
          (convert io o)
          (record { inp = frame flg bd hc b sum more; out = out; mem = mem })
          0
          (record {
            inp = more;
            out = out ++ module_text file symbol is_far (length (expand b)) (encode b);
            mem = fmemcpy blk (encode b) mem;
          })
  unfolding convert linear_addr_rm
  convert-Yields flg bd hc b sum more out mem hv hf hs long pos fits room =
      let n = length (expand b) in
      let e = encode b in
      let start : View = record { inp = frame flg bd hc b sum more; out = out; mem = mem } in
      let tail = cksum_field flg sum ++ (bytes32 0 ++ more) in
      let v1 : View = record start { inp = bytes32 (length e) ++ (e ++ tail) } in
      let mem' = fmemcpy blk e mem in
      let v2 : View = record { inp = tail; out = out; mem = mem' } in
      let v3 : View = record { inp = more; out = out; mem = mem' } in
      let held = fmemcpy-Held blk e mem room in
      let size_fits : leb (2 ^ 16) n ≡ false = ground (arith, fits) in
      let counted : lz4len (2 ^ 14) blk (length e) mem' ≡ some n =
        lz4len-expand b (2 ^ 14) blk mem' long (sequences_few b long fits) room held
        ∙ ap (λ t. some (if t then 0 else n)) size_fits in
      Yields-then io o blk st (open_input-Yields io blk st me symbol is_far file start) (
        Yields-bind io o blk st _
          (read_header-Yields io blk st me symbol is_far file flg bd hc n
            (bytes32 (length e) ++ (e ++ tail)) start fits hv hf refl)
          (Yields-bind io o blk st _
            (read_block-Yields io blk st me symbol is_far file e tail v1 (encode_some b)
              (omega (arith, room)) (omega (arith, room)) refl)
            (Yields-then io o blk st
              (read_end-Yields io blk st me symbol is_far file flg sum more v2 hs refl)
              (Yields-bind io o blk st _ (find_xlen-Yields flg n blk (length e) v3 pos counted) (
                Yields-then io o blk st (open_output-Yields io blk st me symbol is_far file v3) (
                  Yields-then io o blk st
                    (output_module-Yields io blk st me symbol is_far file n e v3 room held)
                    (close_output-Yields _)))))))

-- Where the system reads and writes in order, if only a part at a time, and gives memory: for a
-- frame with one block of the LZ4 format, whose matches have four bytes or more, with or without
-- the length of its contents and a checksum of the block, on the standard input, where the contents
-- are not empty and have less than 2 ^ 16 bytes, and the block ends in the segment of that memory,
-- lz4mi86 without file names returns 0. It has printed the C module with the length of the contents
-- and the bytes of the block, and has left what is behind the frame.
pub lz4mi86-module_text :
    {S : Type 0} (io : Io S) (blk : Far) (st : Streams io blk) (dbcs : LeadTable) (argv0 : List ℕ)
    (opts : List (ℕ × List ℕ)) (symbol : List ℕ) (is_far : Bool) (file : List ℕ) (flg bd hc : ℕ)
    (b : Block) (sum more : List ℕ) (s : State S)
    → set_options opts (filter (program_name dbcs argv0) (codes "data_file") false file)
      ≡ some (filter (program_name dbcs argv0) symbol is_far file)
    → version_ok flg ≡ true
    → features_ok flg bd ≡ true
    → length sum ≡ 4
    → All LongMatch b.sequences
    → 0 < length (expand b)
    → length (expand b) < 2 ^ 16
    → blk.off + length (encode b) < 2 ^ 16
    → st.left s.os ≡ frame flg bd hc b sum more
    → s.in_fd ≡ 0
    → s.out_fd ≡ 1
    → (s' : State S) × (lz4mi86 io dbcs argv0 opts [] file s ≡ Outcome.done 0 s')
      × (st.sent s'.os
          ≡ st.sent s.os ++ module_text file symbol is_far (length (expand b)) (encode b))
      × (st.left s'.os ≡ more)
unfolding lz4mi86 set_in_path
lz4mi86-module_text {S = S} io blk st dbcs argv0 opts symbol is_far file flg bd hc b sum more s ho
      hv hf hs long pos fits room inp fi fo =
    let me = program_name dbcs argv0 in
    let start = filter me (codes "data_file") false file in
    let (m, os', e, l, t) = st.binmode_ok 2 s.os in
    let run =
      convert-Yields io blk st me symbol is_far file flg bd hc b sum more (st.sent s.os) s.mem hv hf
        hs long pos fits room in
    let (s', f, now) =
      run.from (record s { os = os' })
        (record { inp_is = l ∙ inp; out_is = t; mem_is = refl; in_is = fi; out_fd_is = fo }) in
    let after : Option Options → State S → Outcome S ℕ = λ r. elim r [
      | none ↦ usage io start
      | some o' ↦ elim (set_in_path [] o') [ none ↦ usage io o' | some o'' ↦ convert io o'' ]
    ] in
    (
      s',
      ap (λ r. after (set_options opts start) (record s { os = r.1 })) e
          ∙ (ap (λ r. after r (record s { os = os' })) ho ∙ f),
      now.out_is,
      now.inp_is,
    )
