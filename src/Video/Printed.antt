-- ===== src/Video/Printed.antt =====
-- Text output in the style of Borland: common/conio/libi86-bc-cputs.c, libi86-bc-putch.c and
-- libi86-bc-vcprintf.c. The C library's `vsnprintf` is a parameter.
use libi.Base.{ℕ, ◌+◌, ◌%◌, true, List, [], ◌∷◌, take, ◌==◌, if◌then◌else◌, if_holds}
use libi.Video.{ℤ, pos, negsuc, Vid}
use libi.Video.Output.{bc_outmem_do, outmem_do}
use libi.Video.Output.Bounds.{Sane, outmem_do-Sane}

unfoldable pub bc_cputs : List ℕ → Vid → ℕ × Vid
unfolding bc_outmem_do
bc_cputs text v = (0, bc_outmem_do text v)

unfoldable pub bc_putch : ℕ → Vid → ℕ × Vid
unfolding bc_outmem_do
bc_putch ch v = (0, bc_outmem_do (ch % 256 ∷ []) v)

-- What `vsnprintf` returns for a buffer of so many bytes, and what it puts there.
abbrev pub Formatter : Type 0
Formatter = ℕ → ℤ × List ℕ

-- The result of the second call, which fills the buffer, and the text if there is any.
unfoldable pub bc_printed : ℤ × List ℕ → Vid → ℤ × Vid
unfolding bc_outmem_do
bc_printed (negsuc n, buf) v = (negsuc n, v)
bc_printed (pos res, buf) v = (pos res, (if res == 0 then v else bc_outmem_do (take res buf) v))

-- What is done with the size that the first call returns.
unfoldable pub bc_sized : Formatter → ℤ → Vid → ℤ × Vid
unfolding bc_printed
bc_sized vsnprintf (negsuc n) v = (negsuc n, v)
bc_sized vsnprintf (pos res) v = bc_printed (vsnprintf (res + 1)) v

unfoldable pub bc_vcprintf : Formatter → Vid → ℤ × Vid
unfolding bc_sized
bc_vcprintf vsnprintf v = bc_sized vsnprintf ((vsnprintf 0).0) v

bc_printed-Sane : (r : ℤ × List ℕ) (v : Vid) → Sane v → Sane ((bc_printed r v).1)
unfolding bc_printed bc_outmem_do
bc_printed-Sane (negsuc n, buf) v h = h
bc_printed-Sane (pos res, buf) v h =
    if_holds Sane (res == 0) v (outmem_do true true (take res buf) v) (λ e. h)
      (λ e. outmem_do-Sane true true (take res buf) v h)

bc_sized-Sane :
    (vsnprintf : Formatter) (res : ℤ) (v : Vid) → Sane v → Sane ((bc_sized vsnprintf res v).1)
unfolding bc_sized
bc_sized-Sane vsnprintf (negsuc n) v h = h
bc_sized-Sane vsnprintf (pos res) v h = bc_printed-Sane (vsnprintf (res + 1)) v h

-- Formatted output, texts and characters stay within the text window too, whatever `vsnprintf`
-- does.
pub bc_vcprintf-Sane :
    (vsnprintf : Formatter) (text : List ℕ) (ch : ℕ) (v : Vid)
    → Sane v
    → Sane ((bc_vcprintf vsnprintf v).1) × (Sane ((bc_cputs text v).1) × Sane ((bc_putch ch v).1))
unfolding bc_vcprintf bc_cputs bc_putch bc_outmem_do
bc_vcprintf-Sane vsnprintf text ch v h = (
  bc_sized-Sane vsnprintf ((vsnprintf 0).0) v h,
  (outmem_do-Sane true true text v h, outmem_do-Sane true true (ch % 256 ∷ []) v h),
)
