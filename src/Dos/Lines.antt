-- ===== src/Dos/Lines.antt =====
-- host-gcc/dos/makefcb.c: how much of a command line is copied out.
use libi.Base.{
  ℕ, suc, ◌+◌, ◌≤◌, ◌≡◌, refl, ◌||◌, List, [], ◌∷◌, ◌++◌, arith, take, leb, Option, none, some, ◌*◌,
  ◌/◌, ◌%◌, ◌^◌, ◌<◌, ◌-◌, ◌==◌, if◌then◌else◌, if_holds,
}

-- `cmd_line_len`, for a string with its NUL behind it.
unfoldable pub cmd_line_len : List ℕ → ℕ
cmd_line_len [] = 1
cmd_line_len (c ∷ line) =
    let rest = suc (cmd_line_len line) in if c == 13 || c == 10 then 1 else rest

-- The paragraphs that `_makefcb` takes in base memory for a line of `len` bytes behind a file
-- control block, with 16-bit sizes; none where the size overflows.
unfoldable pub fcb_paras : ℕ → ℕ → Option ℕ
fcb_paras fcb_size len =
    if leb ((len + fcb_size) % 2 ^ 16) fcb_size
    then none
    else some (((len + fcb_size) % 2 ^ 16 - 1) / 16 + 1)

-- The line up to its end.
abbrev pub ends_at : List ℕ → List ℕ
ends_at [] = 0 ∷ []
ends_at (c ∷ line) = let rest = c ∷ ends_at line in if c == 13 || c == 10 then c ∷ [] else rest

cmd_line_len-pos : (line : List ℕ) → 1 ≤ cmd_line_len line
unfolding cmd_line_len
cmd_line_len-pos [] = omega arith
cmd_line_len-pos (c ∷ line) =
    if_holds (λ n. 1 ≤ n) (c == 13 || c == 10) 1 (suc (cmd_line_len line)) (λ e. omega arith)
      (λ e. omega arith)

take-ends_at : (line : List ℕ) → take (cmd_line_len line) (line ++ (0 ∷ [])) ≡ ends_at line
unfolding cmd_line_len
take-ends_at [] = refl
take-ends_at (c ∷ line) = ground (arith, take-ends_at line)

-- What `_makefcb` copies of a line is the line up to and with its first line end, or its NUL, and
-- the base memory that it takes holds this behind the file control block, with less than 16 bytes
-- to spare, unless both together have 64 KiB or more.
cmd_line_len-fits :
    (line : List ℕ) (fcb_size : ℕ)
    → 1 ≤ fcb_size
    → cmd_line_len line + fcb_size < 2 ^ 16
    → (take (cmd_line_len line) (line ++ (0 ∷ [])) ≡ ends_at line)
      × ((paras : ℕ) × (fcb_paras fcb_size (cmd_line_len line) ≡ some paras)
          × (cmd_line_len line + fcb_size ≤ paras * 16)
          × (paras * 16 < cmd_line_len line + fcb_size + 16))
unfolding fcb_paras
cmd_line_len-fits line fcb_size h k =
    let paras = ((cmd_line_len line + fcb_size) % 2 ^ 16 - 1) / 16 + 1 in
    let len : 1 ≤ cmd_line_len line = cmd_line_len-pos line in
    (
      take-ends_at line,
      (paras, ground (arith, len, h, k), omega (arith, len, h, k), omega (arith, len, h, k)),
    )
