-- ===== src/Lz4/Steps.antt =====
-- The passes of the loop of `_lz4cpy`, one by one.
use libi.Base.{ℕ, suc, ◌+◌, ◌≡◌, refl, true, false, Option, some, arith, ltb}
use libi.Memory.{Far, Memory}
use libi.Lz4.{◌>>=◌, lodsb, addw, copy_literals, copy_match, copy_loop, lz4cpy}

bind_some :
    {A B : Type 0} (o : Option A) (f : A → Option B) (x : A) (y : Option B)
    → o ≡ some x
    → f x ≡ y
    → (o >>= f) ≡ y
bind_some o f x y a p = rw a p

module _ (fuel ds es bx si di : ℕ) (m : Memory) where
  pub copy_loop_over : ltb si bx ≡ false → copy_loop (suc fuel) ds es bx si di m ≡ some (di, m)
  unfolding copy_loop
  copy_loop_over e = rw (e, copy_loop) refl

  pub copy_loop_last :
      (si' di' : ℕ) (m' : Memory)
      → ltb si bx ≡ true
      → copy_literals ds es (lodsb m ds si) (addw si 1) di m ≡ some (si', di', m')
      → ltb si' bx ≡ false
      → copy_loop (suc fuel) ds es bx si di m ≡ some (di', m')
  unfolding copy_loop
  copy_loop_last si' di' m' e a f = rw (e, copy_loop) (bind_some _ _ _ _ a (rw f refl))

  pub copy_loop_more :
      (si' di' : ℕ) (m' : Memory) (si'' di'' : ℕ) (m'' : Memory)
      → ltb si bx ≡ true
      → copy_literals ds es (lodsb m ds si) (addw si 1) di m ≡ some (si', di', m')
      → ltb si' bx ≡ true
      → copy_match ds es (lodsb m ds si) si' di' m' ≡ some (si'', di'', m'')
      → copy_loop (suc fuel) ds es bx si di m ≡ copy_loop fuel ds es bx si'' di'' m''
  unfolding copy_loop
  copy_loop_more si' di' m' si'' di'' m'' e a f b =
      rw (e, copy_loop) (bind_some _ _ _ _ a (rw f (bind_some _ _ _ _ b refl)))

pub lz4cpy-copy_loop :
    (fuel blk_sz di : ℕ) (dest blk_src : Far) (mem m : Memory)
    → copy_loop fuel blk_src.seg dest.seg (addw blk_src.off blk_sz) blk_src.off (dest.off + 0) mem
      ≡ some (di, m)
    → lz4cpy fuel dest blk_src blk_sz mem ≡ some (record { seg = dest.seg; off = di }, m)
unfolding lz4cpy
lz4cpy-copy_loop fuel blk_sz di dest blk_src mem m h =
    let start : dest.off + 0 ≡ dest.off = omega arith in
    let k = rw start at h in rw (k, lz4cpy) refl
