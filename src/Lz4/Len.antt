-- ===== src/Lz4/Len.antt =====
-- host-gcc/kompress/lz4len.S: the length of what a block of LZ4 stands for, with the checks of the
-- carry.
use libi.Base.{ℕ, zero, suc, ◌+◌, ◌/◌, ◌%◌, ◌^◌, true, false, Option, none, some}
use libi.Base.{ltb, leb, ◌==◌, if◌then◌else◌}
use libi.Memory.{Far, Memory}
use libi.Lz4.{lodsb, addw}

-- `ouch` is the jump to that label, for a carry; `stuck` is a loop that is out of fuel.
pub data Checked (A : Type 0) : Type 0 where
  ok : A → Checked A
  ouch : Checked A
  stuck : Checked A

infixl 5 ◌>>=◌
abbrev pub ◌>>=◌ : {A B : Type 0} → Checked A → (A → Checked B) → Checked B
Checked.ok x >>= f = f x
Checked.ouch >>= f = Checked.ouch
Checked.stuck >>= f = Checked.stuck

-- An addition to a 16-bit register, and `jc .ouch`.
unfoldable pub add_ckd : ℕ → ℕ → Checked ℕ
add_ckd a b = if leb (2 ^ 16) (a + b) then Checked.ouch else Checked.ok (a + b)

-- The loop of `.full_len_ckd`: SI and CX behind it.
unfoldable pub add_bytes_ckd : ℕ → Memory → ℕ → ℕ → ℕ → Checked (ℕ × ℕ)
unfolding lodsb addw add_ckd
add_bytes_ckd zero mem ds si cx = Checked.stuck
add_bytes_ckd (suc fuel) mem ds si cx = do
  let al = lodsb mem ds si
  cx' ← add_ckd cx al
  elim (al == 0xff) [
    | true ↦ add_bytes_ckd fuel mem ds (addw si 1) cx'
    | false ↦ Checked.ok (addw si 1, cx')
  ]

-- `.full_len_ckd`, on the fuel of `.full_len`.
unfoldable pub full_len_ckd : Memory → ℕ → ℕ → ℕ → Checked (ℕ × ℕ)
full_len_ckd mem ds si cx =
    if cx == 0x0f then add_bytes_ckd (2 ^ 16) mem ds si cx else Checked.ok (si, cx)

-- The literals of one pass of `.loopy`: SI and DI behind them.
unfoldable pub skip_literals : Memory → ℕ → ℕ → ℕ → ℕ → Checked (ℕ × ℕ)
unfolding full_len_ckd addw add_ckd
skip_literals mem ds dl si di = do
  (si', cx) ← full_len_ckd mem ds si (dl / 2 ^ 4)
  di' ← add_ckd di cx
  Checked.ok (addw si' cx, di')

-- The match of one pass of `.loopy`, from `lodsw`.
unfoldable pub skip_match : Memory → ℕ → ℕ → ℕ → ℕ → Checked (ℕ × ℕ)
unfolding full_len_ckd addw add_ckd
skip_match mem ds dl si di = do
  (si', cx) ← full_len_ckd mem ds (addw si 2) (dl % 2 ^ 4)
  cx' ← add_ckd cx 4
  di' ← add_ckd di cx'
  Checked.ok (si', di')

-- The loop from `.loopy` to `.done`: DI behind it.
unfoldable pub len_loop : ℕ → Memory → ℕ → ℕ → ℕ → ℕ → Checked ℕ
unfolding skip_literals skip_match lodsb addw
len_loop zero mem ds bx si di = Checked.stuck
len_loop (suc fuel) mem ds bx si di = elim (ltb si bx) [
  | false ↦ Checked.ok di
  | true ↦ do
    let dl = lodsb mem ds si
    (si', di') ← skip_literals mem ds dl (addw si 1) di
    elim (ltb si' bx) [
      | false ↦ Checked.ok di'
      | true ↦ do (si'', di'') ← skip_match mem ds dl si' di'; len_loop fuel mem ds bx si'' di''
    ]
]

-- What `.done` and `.ouch` leave in AX.
unfoldable pub unpack_len : Checked ℕ → Option ℕ
unpack_len (Checked.ok di) = some di
unpack_len Checked.ouch = some 0
unpack_len Checked.stuck = none

-- `_lz4len`, with fuel for the passes of the loop.
unfoldable pub lz4len : ℕ → Far → ℕ → Memory → Option ℕ
unfolding len_loop unpack_len addw
lz4len fuel blk_src blk_sz mem =
    unpack_len (len_loop fuel mem blk_src.seg (addw blk_src.off blk_sz) blk_src.off 0)
