-- ===== src/Memory.antt =====
-- Far memory: common/string/fmemmove.c, with host-gcc/string/fmemcpy.S and
-- host-gcc/string/libi86-fmemmove-backward.S, which copy by words.
pub mod Copies
pub mod Move
pub mod Examples
use libi.Base.{ℕ, zero, suc, ◌+◌, ◌-◌, ◌*◌, ◌/◌, ◌%◌, ◌^◌, ◌≡◌, Bool, true, false, ◌&&◌, ◌||◌}
use libi.Base.{ltb, ◌==◌, if◌then◌else◌}

-- `FP_SEG` and `FP_OFF`
pub record Far : Type 0 where
  pub seg : ℕ
  pub off : ℕ

-- The bytes by their linear addresses in real mode.
abbrev pub Memory : Type 0
Memory = ℕ → ℕ

-- `linear_addr_rm`, and the address of the byte `i` behind a far pointer.
unfoldable pub linear_addr_rm : Far → ℕ
linear_addr_rm p = p.seg * 16 + p.off

unfoldable pub at : Far → ℕ → ℕ
at p i = p.seg * 16 + (p.off + i) % 2 ^ 16

unfoldable pub store : Memory → ℕ → ℕ → Memory
store mem a v b = if a == b then v else mem b

-- `movsb` and `movsw` for the byte `i`, and `i + 1`.
unfoldable pub move_byte : Far → Far → ℕ → Memory → Memory
unfolding store at
move_byte dest src i mem = store mem (at dest i) (mem (at src i))

unfoldable pub move_word : Far → Far → ℕ → Memory → Memory
unfolding store at
move_word dest src i mem =
    store (store mem (at dest i) (mem (at src i))) (at dest (i + 1)) (mem (at src (i + 1)))

-- `rep movsw` upwards from the byte `i`, and downwards to the byte `i`.
unfoldable pub words_up : Far → Far → ℕ → ℕ → Memory → Memory
unfolding move_word
words_up dest src i zero mem = mem
words_up dest src i (suc words) mem = words_up dest src (i + 2) words (move_word dest src i mem)

unfoldable pub words_down : Far → Far → ℕ → ℕ → Memory → Memory
unfolding move_word
words_down dest src i zero mem = mem
words_down dest src i (suc words) mem =
    words_down dest src i words (move_word dest src (i + words * 2) mem)

-- `__libi86_fmemmove_forward` and `__libi86_fmemmove_backward`
unfoldable pub fmemmove_forward : Far → Far → ℕ → Memory → Memory
unfolding words_up move_byte
fmemmove_forward dest src n mem =
    let moved = words_up dest src 0 (n / 2) mem in
    if n % 2 == 1 then move_byte dest src (n - 1) moved else moved

unfoldable pub fmemmove_backward : Far → Far → ℕ → Memory → Memory
unfolding words_down move_byte
fmemmove_backward dest src n mem =
    let moved = words_down dest src (n % 2) (n / 2) mem in
    if n % 2 == 1 then move_byte dest src 0 moved else moved

-- Whether `_fmemmove` copies backward, where the pointers differ.
unfoldable pub backward : Far → Far → ℕ → Bool
unfolding linear_addr_rm
backward dest src n =
    let d = linear_addr_rm dest in
    let s = linear_addr_rm src in
    let d' = d % 2 ^ 20 in
    let s' = s % 2 ^ 20 in
    if dest.seg == src.seg
    then ltb src.off dest.off
    else if ltb s d && ltb d (s + n)
    then true
    else if ltb 0xfffff s || ltb 0xfffff d
    then ltb s' d' && ltb d' (s' + n)
    else false

unfoldable pub fmemmove : Far → Far → ℕ → Memory → Memory
unfolding backward fmemmove_forward fmemmove_backward
fmemmove dest src n mem =
    if n == 0 || (dest.off == src.off && dest.seg == src.seg)
    then mem
    else if backward dest src n
    then fmemmove_backward dest src n mem
    else fmemmove_forward dest src n mem
