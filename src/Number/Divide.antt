-- ===== src/Number/Divide.antt =====
-- `ulldiv` is the division, and never a divide error.
use libi.Base.{
  ℕ, ◌+◌, ◌*◌, ◌/◌, ◌%◌, ◌^◌, ◌<◌, ◌≡◌, refl, sym, ap, ◌∙◌, Bool, true, false, ◌||◌, not, Option,
  some, arith,
}
use libi.Base.{◌==◌}
use native.Mathlib.Nat.{
  div-add-mod, mul-add-div, mod-lt, div-eq_of_lt, mul-add-mod_self_left, mod-eq_of_lt,
  div-lt_iff_lt-mul,
}
use libi.Number.{divw, div_step, ulldiv, ◌>>=◌}

-- `quot` and `rem` are the result of a division.
abbrev Divides : ℕ → ℕ → ℕ × ℕ → Type 0
Divides n d r = (d * r.0 + r.1 ≡ n) × (r.1 < d)

next :
    (d q r lo q' r' : ℕ)
    → d * q' + r' ≡ r * 2 ^ 16 + lo
    → d * (q * 2 ^ 16 + q') + r' ≡ (d * q + r) * 2 ^ 16 + lo
next d q r lo q' r' h = omega (arith, h)

unique : (n d : ℕ) (r : ℕ × ℕ) → Divides n d r → (n / d ≡ r.0) × (n % d ≡ r.1)
unique n d r h = (
  ap (λ m. m / d) (sym h.0)
      ∙ (mul-add-div (omega (arith, h)) (r.0) (r.1)
          ∙ (ap (λ x. r.0 + x) (div-eq_of_lt h.1) ∙ omega arith)),
  ap (λ m. m % d) (sym h.0) ∙ (mul-add-mod_self_left d (r.0) (r.1) ∙ mod-eq_of_lt h.1),
)

quot_small : (dx ax d : ℕ) → dx < d → ax < 2 ^ 16 → (dx * 2 ^ 16 + ax) / d < 2 ^ 16
quot_small dx ax d h k =
    (div-lt_iff_lt-mul {k = d} {x = dx * 2 ^ 16 + ax} {y = 2 ^ 16} (omega (arith, h))).1
      (omega (arith, h, k))

divw-Divides :
    (dx ax d : ℕ)
    → dx < d
    → ax < 2 ^ 16
    → divw dx ax d ≡ some ((dx * 2 ^ 16 + ax) / d, (dx * 2 ^ 16 + ax) % d)
unfolding divw
divw-Divides dx ax d h k = ground (arith, h, quot_small dx ax d h k)

-- What one step gives, whether it is jumped over or not.
Steps : Bool → ℕ → ℕ → ℕ → Type 0
Steps b hi lo d = (r : ℕ × ℕ) × ((div_step b hi lo d ≡ some r) × Divides (hi * 2 ^ 16 + lo) d r)

div_step-Divides :
    (b : Bool) (hi lo d : ℕ)
    → hi < d
    → lo < 2 ^ 16
    → (b ≡ false → hi * 2 ^ 16 + lo ≡ 0)
    → Steps b hi lo d
unfolding div_step Steps
div_step-Divides true hi lo d h k z = (
  ((hi * 2 ^ 16 + lo) / d, (hi * 2 ^ 16 + lo) % d),
  (
    divw-Divides hi lo d h k,
    (div-add-mod (hi * 2 ^ 16 + lo) d, mod-lt (hi * 2 ^ 16 + lo) (omega (arith, h))),
  ),
)
div_step-Divides false hi lo d h k z = ((0, 0), (refl, (omega (arith, z refl), omega (arith, h))))

pub bind_some :
    {A B : Type 0} (o : Option A) (a : A) (f : A → Option B) → o ≡ some a → (o >>= f) ≡ f a
bind_some o a f h = ap (λ p. p >>= f) h

-- For a 64-bit dividend and any divisor but 0, `ulldiv` gives quotient and remainder, with no
-- divide error in any of its steps.
pub ulldiv-division :
    (dividend divisor : ℕ)
    → dividend < 2 ^ 64
    → 0 < divisor
    → ulldiv dividend divisor ≡ some (dividend / divisor, dividend % divisor)
unfolding ulldiv Steps
ulldiv-division n d h k =
    bind_some _ s3.0 _ s3.1.0
    ∙ (bind_some _ s2.0 _ s2.1.0
        ∙ (bind_some _ s1.0 _ s1.1.0
            ∙ (bind_some _ s0.0 _ s0.1.0
                ∙ ap some
                    (ap (λ x. (x, s0.0.1)) (sym whole.0) ∙ ap (λ y. (n / d, y)) (sym whole.1)))))
  where
    s3 : Steps (not (n / 2 ^ 48 == 0)) 0 (n / 2 ^ 48) d
    s3 = div_step-Divides _ 0 (n / 2 ^ 48) d k (omega (arith, h)) (λ e. ground (arith, e))

    s2 :
        Steps
          (not (n / 2 ^ 48 == 0) || not (n / 2 ^ 32 % 2 ^ 16 == 0))
          (s3.0.1)
          (n / 2 ^ 32 % 2 ^ 16)
          d
    s2 =
        div_step-Divides _ (s3.0.1) (n / 2 ^ 32 % 2 ^ 16) d (s3.1.1.1) (omega arith)
          (λ e. ground (arith, e, s3.1.1.0))

    s1 :
        Steps
          ((not (n / 2 ^ 48 == 0) || not (n / 2 ^ 32 % 2 ^ 16 == 0))
            || not (n / 2 ^ 16 % 2 ^ 16 == 0))
          (s2.0.1)
          (n / 2 ^ 16 % 2 ^ 16)
          d
    s1 =
        div_step-Divides _ (s2.0.1) (n / 2 ^ 16 % 2 ^ 16) d (s2.1.1.1) (omega arith)
          (λ e. ground (arith, e, s3.1.1.0, s2.1.1.0))

    s0 : Steps true (s1.0.1) (n % 2 ^ 16) d
    s0 =
        div_step-Divides true (s1.0.1) (n % 2 ^ 16) d (s1.1.1.1) (omega arith)
          (λ e. absurd (ground (arith, e)))

    quot : ℕ
    quot = ((s3.0.0 * 2 ^ 16 + s2.0.0) * 2 ^ 16 + s1.0.0) * 2 ^ 16 + s0.0.0

    whole : (n / d ≡ quot) × (n % d ≡ s0.0.1)
    whole =
        unique n d (quot, s0.0.1) (omega (arith, s3.1.1.0, s2.1.1.0, s1.1.1.0, s0.1.1.0), s0.1.1.1)
