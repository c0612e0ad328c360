-- ===== src/Lz4.antt =====
-- Blocks of LZ4: host-gcc/kompress/lz4cpy.S and lz4len.S. The registers that live from one pass
-- of the loop to the next are arguments: the offsets in SI, DI and BX, with the segments in DS and
-- ES. A loop that need not end is on fuel.
pub mod Len
pub mod Format
pub mod Held
pub mod Lengths
pub mod Pass
pub mod Steps
pub mod LenSteps
pub mod Room
pub mod Ends
pub mod Moved
pub mod Parts
pub mod Writes
pub mod Expand
pub mod Size
pub mod Examples
use libi.Base.{ℕ, zero, suc, ◌+◌, ◌-◌, ◌*◌, ◌/◌, ◌%◌, ◌^◌, true, false, Option, none, some}
use libi.Base.{ltb, leb, ◌==◌, if◌then◌else◌}
use libi.Memory.{Far, Memory, at, move_byte}

infixl 5 ◌>>=◌
abbrev pub ◌>>=◌ : {A B : Type 0} → Option A → (A → Option B) → Option B
none >>= f = none
some x >>= f = f x

-- `lodsb`, without the step of SI.
unfoldable pub lodsb : Memory → ℕ → ℕ → ℕ
unfolding at
lodsb mem ds si = mem (at (record { seg = ds; off = si }) 0)

-- `lodsw`
unfoldable pub lodsw : Memory → ℕ → ℕ → ℕ
unfolding at
lodsw mem ds si =
    mem (at (record { seg = ds; off = si }) 0) + 256 * mem (at (record { seg = ds; off = si }) 1)

-- An addition to a 16-bit register.
unfoldable pub addw : ℕ → ℕ → ℕ
addw a b = (a + b) % 2 ^ 16

-- `rep movsb` from the bytes `i`, with CX left to move.
unfoldable pub rep_movsb : Far → Far → ℕ → ℕ → Memory → Memory
unfolding move_byte
rep_movsb dest src i zero mem = mem
rep_movsb dest src i (suc cx) mem = rep_movsb dest src (i + 1) cx (move_byte dest src i mem)

-- The loop of `.full_len`: SI and CX behind it.
unfoldable pub add_bytes : ℕ → Memory → ℕ → ℕ → ℕ → Option (ℕ × ℕ)
unfolding lodsb addw
add_bytes zero mem ds si cx = none
add_bytes (suc fuel) mem ds si cx =
    let al = lodsb mem ds si in
    let rest = add_bytes fuel mem ds (addw si 1) (addw cx al) in
    if al == 0xff then rest else some (addw si 1, addw cx al)

-- `.full_len`. A segment without a byte other than 0xff is the only one that 2 ^ 16 rounds do not
-- see through.
unfoldable pub full_len : Memory → ℕ → ℕ → ℕ → Option (ℕ × ℕ)
full_len mem ds si cx = if cx == 0x0f then add_bytes (2 ^ 16) mem ds si cx else some (si, cx)

-- The literals of one pass of `.loopy`: SI, DI and the memory behind them.
unfoldable pub copy_literals : ℕ → ℕ → ℕ → ℕ → ℕ → Memory → Option (ℕ × ℕ × Memory)
unfolding full_len rep_movsb addw
copy_literals ds es dl si di mem = do
  (si', cx) ← full_len mem ds si (dl / 2 ^ 4)
  let dest : Far = record { seg = es; off = di }
  let src : Far = record { seg = ds; off = si' }
  some (addw si' cx, addw di cx, rep_movsb dest src 0 cx mem)

-- The match of one pass of `.loopy`, from `lodsw`.
unfoldable pub copy_match : ℕ → ℕ → ℕ → ℕ → ℕ → Memory → Option (ℕ × ℕ × Memory)
unfolding full_len rep_movsb addw lodsw
copy_match ds es dl si di mem = do
  let ax = lodsw mem ds si
  (si', cx) ← full_len mem ds (addw si 2) (dl % 2 ^ 4)
  let dest : Far = record { seg = es; off = di }
  let src : Far = record { seg = es; off = (di + (2 ^ 16 - ax)) % 2 ^ 16 }
  some (si', addw di (addw cx 4), rep_movsb dest src 0 (addw cx 4) mem)

-- The loop from `.loopy` to `.done`: DI and the memory behind it.
unfoldable pub copy_loop : ℕ → ℕ → ℕ → ℕ → ℕ → ℕ → Memory → Option (ℕ × Memory)
unfolding copy_literals copy_match lodsb addw
copy_loop zero ds es bx si di mem = none
copy_loop (suc fuel) ds es bx si di mem = elim (ltb si bx) [
  | false ↦ some (di, mem)
  | true ↦ do
    let dl = lodsb mem ds si
    (si', di', mem') ← copy_literals ds es dl (addw si 1) di mem
    elim (ltb si' bx) [
      | false ↦ some (di', mem')
      | true ↦ do
        (si'', di'', mem'') ← copy_match ds es dl si' di' mem'
        copy_loop fuel ds es bx si'' di'' mem''
    ]
]

-- `_lz4cpy`, with fuel for the passes of the loop.
unfoldable pub lz4cpy : ℕ → Far → Far → ℕ → Memory → Option (Far × Memory)
unfolding copy_loop addw
lz4cpy fuel dest blk_src blk_sz mem = do
  (di, mem') ←
      (copy_loop fuel blk_src.seg dest.seg (addw blk_src.off blk_sz) blk_src.off dest.off mem)
  some (record { seg = dest.seg; off = di }, mem')
