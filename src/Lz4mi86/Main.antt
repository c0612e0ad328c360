-- ===== src/Lz4mi86/Main.antt =====
-- `main` of lz4mi86.c. What `getopt` gives is a list of option characters with their arguments,
-- and of operands behind them.
use libi.Base.{
  ℕ, zero, suc, ◌+◌, ◌/◌, ◌%◌, ◌^◌, Bool, true, false, not, Option, none, some, List, [], ◌∷◌, ◌++◌,
}
use libi.Base.{get_or, ltb, ◌==◌, if◌then◌else◌}
use Prim.Native.String.{String}
use libi.Endian.{leh32, leh64}
use libi.Memory.{Far, at}
use libi.Lz4.Len.{lz4len}
use libi.Path.Chars.{LeadTable}
use libi.Path.Splitpath.{splitpath}
use libi.Errors.{fname_only}
use libi.Lz4mi86.{Io, Options, Outcome, Run, ◌>>=◌, ◌>>◌, return, call, minus_one, codes}
use libi.Lz4mi86.Header.{le32, le64, fh_mag, version_ok, features_ok, has_xlen, has_bcksum}
use libi.Lz4mi86.Files.{fatal, outputs, outputu, usage, input, far_input}

-- The options, one by one; `none` is the call of `usage`.
unfoldable pub set_options : List (ℕ × List ℕ) → Options → Option Options
set_options [] o = some o
set_options ((opt, optarg) ∷ rest) o =
    let far = set_options rest (record o { is_far = true }) in
    let out = set_options rest (record o { out_path = some optarg }) in
    let named = set_options rest (record o { symbol = optarg }) in
    if opt == b'F' then far else if opt == b'o' then out else if opt == b's' then named else none

-- The operands.
unfoldable pub set_in_path : List (List ℕ) → Options → Option Options
set_in_path [] o = some o
set_in_path (path ∷ []) o = some (record o { in_path = some path })
set_in_path (path ∷ more ∷ rest) o = none

module _ {S : Type 0} (io : Io S) (o : Options) where
  -- `if (test) fatal (msg);`
  unfoldable pub fatal_if : Bool → String → Run S Unit
  fatal_if test msg = if test then fatal io o (codes msg) else return tt

  -- The same for a call that returns -1 or a null pointer.
  unfoldable pub fatal_or : {A B : Type 0} → Option A → String → (A → Run S B) → Run S B
  fatal_or none msg f = fatal io o (codes msg)
  fatal_or (some a) msg f = f a

  -- The input file.
  unfoldable pub open_input : Run S Unit
  open_input = do
    elim o.in_path [
      | none ↦ return tt
      | some path ↦ do
        fd ← call (io.open_rdonly path)
        elim fd [
          | none ↦ λ s. fatal io o (codes "cannot open input file") (record s { in_fd = minus_one })
          | some fd' ↦ λ s. Outcome.done tt (record s { in_fd = fd' })
        ]
    ]
    r ← (λ s. call (io.binmode s.in_fd) s)
    fatal_or r "cannot open input file in binary mode" (λ m. return tt)

  -- The length of the contents that the header gives, or 0.
  unfoldable pub read_xlen : ℕ → Run S ℕ
  read_xlen flg =
      if has_xlen flg
      then (do
        xlen ← input io o 8 8
        fatal_if (ltb 0xffff (leh64 (le64 xlen))) "LZ4 input too large"
        return (leh64 (le64 xlen)))
      else return 0

  -- The frame header: the flags and this length.
  unfoldable pub read_header : Run S (ℕ × ℕ)
  read_header = do
    hdr ← input io o 6 6
    let flg = get_or hdr 4 0
    let bd = get_or hdr 5 0
    fatal_if (not (leh32 (le32 hdr) == fh_mag)) "input is not LZ4"
    fatal_if (not (version_ok flg)) "bad LZ4 version number"
    fatal_if (not (features_ok flg bd)) "LZ4 input uses unsupported feature"
    xlen ← read_xlen flg
    hc ← input io o 1 1
    return (flg, xlen)

  -- The block of this size: where it is.
  unfoldable pub take_block : ℕ → Run S (Far × ℕ)
  take_block blk_sz = do
    fatal_if (blk_sz / 2 ^ 31 % 2 == 1) "LZ4 uncompressed block unsupported"
    fatal_if (blk_sz == 0) "unexpected LZ4 end mark"
    fatal_if (ltb 0xffff blk_sz) "LZ4 input too large"
    blk ← call (io.fmalloc blk_sz)
    fatal_or blk "cannot get memory for LZ4 input"
        (λ p. do far_input io o blk_sz p blk_sz; return (p, blk_sz))

  unfoldable pub read_block : Run S (Far × ℕ)
  read_block = do size ← input io o 4 4; take_block (leh32 (le32 size))

  -- What is behind the block.
  unfoldable pub read_end : ℕ → Run S Unit
  read_end flg = do
    sum ← (if has_bcksum flg then input io o 4 4 else return [])
    size ← input io o 4 4
    fatal_if (not (leh32 (le32 size) == 0)) "multiple LZ4 blocks unsupported"
    elim o.in_path [
      | none ↦ return tt
      | some path ↦ do r ← (λ s. call (io.close s.in_fd) s); return tt
    ]

  -- `_lz4len`, where the header gives no length.
  unfoldable pub find_xlen : ℕ → Far → ℕ → Run S ℕ
  find_xlen zero blk blk_sz s = elim (lz4len (2 ^ 14) blk blk_sz s.mem) [
    | none ↦ Outcome.stuck
    | some zero ↦ fatal io o (codes "LZ4 input too large") s
    | some (suc n) ↦ Outcome.done (suc n) s
  ]
  find_xlen (suc xlen) blk blk_sz s = Outcome.done (suc xlen) s

  -- The output file.
  unfoldable pub open_output : Run S Unit
  open_output = do
    elim o.out_path [
      | none ↦ return tt
      | some path ↦ do
        fd ← call (io.open_wronly path)
        elim fd [
          | none ↦
              λ s. fatal io o (codes "cannot open output file") (record s { out_fd = minus_one })
          | some fd' ↦ λ s. Outcome.done tt (record s { out_fd = fd' })
        ]
    ]
    r ← (λ s. call (io.binmode s.out_fd) s)
    fatal_or r "cannot open output file in binary mode" (λ m. return tt)

  -- The loop over the bytes of the block.
  unfoldable pub output_bytes : ℕ → Far → Run S Unit
  output_bytes zero p s = Outcome.done tt s
  output_bytes (suc i) p s =
      let b = s.mem (at p 0) in
      (do
        outputs io o (codes "      ")
        outputu io o b
        outputs io o (codes ",\r\n")
        output_bytes i (record { seg = p.seg; off = (p.off + 1) % 2 ^ 16 }))
        s

  unfoldable pub far_word : Run S Unit
  far_word = if o.is_far then outputs io o (codes "__far ") else return tt

  -- The C module.
  unfoldable pub output_module : ℕ → Far → ℕ → Run S Unit
  output_module xlen blk blk_sz = do
    outputs io o
        (codes "/* Automatically generated by " ++ (o.file ++ codes ". */\r\nunsigned char "))
    far_word
    outputs io o o.symbol
    outputs io o (codes "[")
    outputu io o xlen
    outputs io o (codes "];\r\nunsigned char ")
    far_word
    outputs io o o.symbol
    outputs io o (codes "_lz4[]\r\n  = {\r\n")
    output_bytes blk_sz blk
    outputs io o (codes "    };\r\n")

  -- The end, with what `main` returns.
  unfoldable pub close_output : Run S ℕ
  close_output = elim o.out_path [
    | none ↦ return 0
    | some path ↦ do
      r ← (λ s. call (io.close s.out_fd) s)
      fatal_or r "cannot close output file" (λ m. return 0)
  ]

  -- `main` behind the options.
  unfoldable pub convert : Run S ℕ
  convert = do
    open_input
    (flg, xlen0) ← read_header
    (blk, blk_sz) ← read_block
    read_end flg
    xlen ← find_xlen xlen0 blk blk_sz
    open_output
    output_module xlen blk blk_sz
    close_output

-- `me`
unfoldable pub program_name : LeadTable → List ℕ → List ℕ
program_name dbcs argv0 = name_in (splitpath dbcs argv0 fname_only).fname
  where
    name_in : Option (List ℕ) → List ℕ
    name_in none = []
    name_in (some name) = name

-- `main`
unfoldable pub lz4mi86 :
    {S : Type 0} → Io S → LeadTable → List ℕ → List (ℕ × List ℕ) → List (List ℕ) → List ℕ → Run S ℕ
lz4mi86 io dbcs argv0 opts operands file =
    let start : Options = record {
      me = program_name dbcs argv0;
      in_path = none;
      out_path = none;
      symbol = codes "data_file";
      is_far = false;
      file = file;
    } in
    do
      r ← (λ s. call (io.binmode 2) s)
      elim (set_options opts start) [
        | none ↦ usage io start
        | some o ↦ elim (set_in_path operands o) [ none ↦ usage io o | some o' ↦ convert io o' ]
      ]
