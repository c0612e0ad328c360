-- ===== src/Lz4/LenSteps.antt =====
-- The passes of the loop of `_lz4len`, one by one, from what the two halves of a pass give.
use libi.Base.{ℕ, suc, ◌≡◌, refl, true, false, ltb}
use libi.Memory.{Memory}
use libi.Lz4.{lodsb, addw}
use libi.Lz4.Len.{Checked, ◌>>=◌, skip_literals, skip_match, len_loop}

bind_to :
    {A B : Type 0} (m : Checked A) (f : A → Checked B) (x : A) (y : Checked B)
    → m ≡ Checked.ok x
    → f x ≡ y
    → (m >>= f) ≡ y
bind_to m f x y a p = rw a p

bind_ouch :
    {A B : Type 0} (m : Checked A) (f : A → Checked B) → m ≡ Checked.ouch → (m >>= f) ≡ Checked.ouch
bind_ouch m f a = rw a refl

-- One pass of the loop, by where it ends.
module _ (fuel : ℕ) (mem : Memory) (ds bx si u si' u' : ℕ) (begun : ltb si bx ≡ true) where
  abbrev Literals : Checked (ℕ × ℕ) → Type 0
  Literals r = skip_literals mem ds (lodsb mem ds si) (addw si 1) u ≡ r

  pub len_loop-ouch : Literals Checked.ouch → len_loop (suc fuel) mem ds bx si u ≡ Checked.ouch
  unfolding len_loop
  len_loop-ouch a = rw (begun, len_loop) (bind_ouch _ _ a)

  pub len_loop_last :
      Literals (Checked.ok (si', u'))
      → ltb si' bx ≡ false
      → len_loop (suc fuel) mem ds bx si u ≡ Checked.ok u'
  unfolding len_loop
  len_loop_last a f = rw (begun, len_loop) (bind_to _ _ _ _ a (rw f refl))

  pub len_loop-ouch_match :
      Literals (Checked.ok (si', u'))
      → ltb si' bx ≡ true
      → skip_match mem ds (lodsb mem ds si) si' u' ≡ Checked.ouch
      → len_loop (suc fuel) mem ds bx si u ≡ Checked.ouch
  unfolding len_loop
  len_loop-ouch_match a f b = rw (begun, len_loop) (bind_to _ _ _ _ a (rw f (bind_ouch _ _ b)))

  pub len_loop_more :
      (si'' u'' : ℕ)
      → Literals (Checked.ok (si', u'))
      → ltb si' bx ≡ true
      → skip_match mem ds (lodsb mem ds si) si' u' ≡ Checked.ok (si'', u'')
      → len_loop (suc fuel) mem ds bx si u ≡ len_loop fuel mem ds bx si'' u''
  unfolding len_loop
  len_loop_more si'' u'' a f b =
      rw (begun, len_loop) (bind_to _ _ _ _ a (rw f (bind_to _ _ _ _ b refl)))
