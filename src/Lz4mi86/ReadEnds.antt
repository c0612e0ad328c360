-- ===== src/Lz4mi86/ReadEnds.antt =====
-- The opening of the files and the reading of the frame in lz4mi86.c end, whatever the system
-- does.
use libi.Base.{ℕ, zero, suc, ◌^◌, ◌≡◌, refl, sym, Bool, Option, none, some, [], arith}
use libi.Base.{ltb, get_or}
use Prim.Native.String.{String}
use mathlib.Core.Path.{subst}
use libi.Memory.{Far}
use libi.Endian.{leh32, leh64}
use libi.Lz4.Ends.{lz4len_ends}
use libi.Lz4mi86.{Io, Options, State, Outcome, Run, return, call, minus_one, codes}
use libi.Lz4mi86.Files.{fatal}
use libi.Lz4mi86.Main.{
  fatal_or, fatal_if, open_input, read_xlen, read_header, read_block, take_block, read_end,
  find_xlen, open_output,
}
use libi.Lz4mi86.Header.{has_xlen, has_bcksum, le32, le64}
use libi.Lz4mi86.Ends.{
  Ended, Any, Ends, Ends-bind, Ends-then, Ends-if, Ends-return, Ends-call, fatal-Ends, input-Ends,
  far_input-Ended,
}

module _ {S : Type 0} (io : Io S) (o : Options) where
  fatal_if-Ends : (b : Bool) (msg : String) → Ends Any (fatal_if io o b msg)
  unfolding fatal_if
  fatal_if-Ends b msg = Ends-if b (fatal-Ends io o Any (codes msg)) (record { from = λ s. tt })

  read_xlen-Ends : (flg : ℕ) → Ends Any (read_xlen io o flg)
  unfolding read_xlen
  read_xlen-Ends flg =
      Ends-if (has_xlen flg)
        (Ends-bind (input-Ends io o 8) (λ xlen.
          Ends-then (fatal_if-Ends (ltb 0xffff (leh64 (le64 xlen))) "LZ4 input too large")
            (Ends-return (leh64 (le64 xlen)))))
        (Ends-return 0)

  pub read_header-Ends : Ends Any (read_header io o)
  unfolding read_header
  read_header-Ends = Ends-bind (input-Ends io o 6) (λ hdr.
      Ends-then (fatal_if-Ends _ "input is not LZ4") (
        Ends-then (fatal_if-Ends _ "bad LZ4 version number") (
          Ends-then (fatal_if-Ends _ "LZ4 input uses unsupported feature") (
            Ends-bind (read_xlen-Ends (get_or hdr 4 0))
              (λ xlen. Ends-then (input-Ends io o 1) (Ends-return (get_or hdr 4 0, xlen)))))))

  -- A result that decides between two ways on.
  pub Ends-option :
      {A B : Type 0} {P : B → Type 0} {m : Run S B} {f : A → Run S B} (r : Option A)
      → Ends P m
      → ((a : A) → Ends P (f a))
      → Ends P (elim r [ none ↦ m | some a ↦ f a ])
  Ends-option none h k = h
  Ends-option (some a) h k = k a

  pub fatal_or-Ends :
      {A B : Type 0} {P : B → Type 0} {f : A → Run S B} (r : Option A) (msg : String)
      → ((a : A) → Ends P (f a))
      → Ends P (fatal_or io o r msg f)
  unfolding fatal_or
  fatal_or-Ends {P = P} none msg h = fatal-Ends io o P (codes msg)
  fatal_or-Ends (some a) msg h = h a

  take_block-Ends : (n : ℕ) → Ends Any (take_block io o n)
  unfolding take_block
  take_block-Ends n = Ends-then (fatal_if-Ends _ "LZ4 uncompressed block unsupported") (
      Ends-then (fatal_if-Ends _ "unexpected LZ4 end mark") (
        Ends-then (fatal_if-Ends _ "LZ4 input too large") (
          Ends-bind (Ends-call (io.fmalloc n)) (λ blk.
            fatal_or-Ends blk "cannot get memory for LZ4 input" (λ p.
              Ends-then (record { from = λ s. far_input-Ended io o n p n s (omega arith) })
                (Ends-return (p, n)))))))

  pub read_block-Ends : Ends Any (read_block io o)
  unfolding read_block
  read_block-Ends = Ends-bind (input-Ends io o 4) (λ size. take_block-Ends (leh32 (le32 size)))

  pub call-Ends : {A : Type 0} (f : State S → S → A × S) → Ends Any (λ s. call (f s) s)
  call-Ends f = record { from = λ s. tt }

  pub read_end-Ends : (flg : ℕ) → Ends Any (read_end io o flg)
  unfolding read_end
  read_end-Ends flg =
      Ends-bind (Ends-if (has_bcksum flg) (input-Ends io o 4) (Ends-return [])) (λ sum.
        Ends-bind (input-Ends io o 4) (λ size.
          Ends-then (fatal_if-Ends _ "multiple LZ4 blocks unsupported") (
            Ends-option o.in_path (Ends-return tt)
              (λ path. Ends-then (call-Ends (λ s. io.close s.in_fd)) (Ends-return tt)))))

  set_in_fd-Ends : (fd : ℕ) → Ends {S = S} Any (λ s. Outcome.done tt (record s { in_fd = fd }))
  set_in_fd-Ends fd = record { from = λ s. tt }

  set_out_fd-Ends : (fd : ℕ) → Ends {S = S} Any (λ s. Outcome.done tt (record s { out_fd = fd }))
  set_out_fd-Ends fd = record { from = λ s. tt }

  pub return_zero-Ends : Ends {S = S} {A = ℕ} (λ c. c ≡ 0) (return 0)
  return_zero-Ends = record { from = λ s. refl }

  pub open_input-Ends : Ends Any (open_input io o)
  unfolding open_input
  open_input-Ends =
      Ends-then
        (Ends-option o.in_path (Ends-return tt) (λ path.
          Ends-bind (Ends-call (io.open_rdonly path)) (λ fd.
            Ends-option fd
              (record {
                from = λ s.
                    (fatal-Ends io o Any (codes "cannot open input file")).from
                      (record s { in_fd = minus_one });
              })
              set_in_fd-Ends)))
        (Ends-bind (call-Ends (λ s. io.binmode s.in_fd))
          (λ r. fatal_or-Ends r "cannot open input file in binary mode" (λ m. Ends-return tt)))

  pub open_output-Ends : Ends Any (open_output io o)
  unfolding open_output
  open_output-Ends =
      Ends-then
        (Ends-option o.out_path (Ends-return tt) (λ path.
          Ends-bind (Ends-call (io.open_wronly path)) (λ fd.
            Ends-option fd
              (record {
                from = λ s.
                    (fatal-Ends io o Any (codes "cannot open output file")).from
                      (record s { out_fd = minus_one });
              })
              set_out_fd-Ends)))
        (Ends-bind (call-Ends (λ s. io.binmode s.out_fd))
          (λ r. fatal_or-Ends r "cannot open output file in binary mode" (λ m. Ends-return tt)))

  pub find_xlen-Ends :
      (xlen : ℕ) (blk : Far) (blk_sz : ℕ) → Ends Any (find_xlen io o xlen blk blk_sz)
  unfolding find_xlen
  find_xlen-Ends (suc xlen) blk blk_sz = record { from = λ s. tt }
  find_xlen-Ends zero blk blk_sz = record {
    from = λ s.
        let (n, e, l) = lz4len_ends (2 ^ 14) blk_sz blk s.mem (omega arith) in
        subst
          (λ r. Ended {S = S} {A = ℕ} Any (elim r [
            | none ↦ Outcome.stuck
            | some zero ↦ fatal io o (codes "LZ4 input too large") s
            | some (suc n') ↦ Outcome.done (suc n') s
          ]))
          (sym e) (known n s);
  }
    where
      known :
          (n : ℕ) (s : State S)
          → Ended {S = S} {A = ℕ} Any (elim (some n) [
            | none ↦ Outcome.stuck
            | some zero ↦ fatal io o (codes "LZ4 input too large") s
            | some (suc n') ↦ Outcome.done (suc n') s
          ])
      known zero s = (fatal-Ends io o Any (codes "LZ4 input too large")).from s
      known (suc n) s = tt
