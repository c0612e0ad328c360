-- ===== src/Number/Digits.antt =====
-- The digits of a number, least first, and what they are worth.
use libi.Base.{
  ℕ, zero, suc, ◌+◌, ◌-◌, ◌*◌, ◌/◌, ◌%◌, ◌^◌, ◌≤◌, ◌<◌, ◌≡◌, ap, ◌∙◌, Bool, true, false, Option,
  some, arith,
}
use libi.Base.{List, [], ◌∷◌, length, All, ltb, ◌==◌, if◌then◌else◌, Bool-cases, inl, inr}
use native.Mathlib.Nat.{div-add-mod, mod-lt, div-lt_iff_lt-mul, div-le_self, mul-le-mul_left}
use libi.Number.{ulldiv, digit_map, digit_loop, ◌>>=◌}
use libi.Number.Divide.{ulldiv-division, bind_some}

-- The worth of a digit, and of digits with the least one first.
unfoldable pub worth : ℕ → ℕ
worth c = if ltb c 0x3a then c - 0x30 else c - 0x57

unfoldable pub low_first : ℕ → List ℕ → ℕ
unfolding worth
low_first radix [] = 0
low_first radix (c ∷ cs) = worth c + radix * low_first radix cs

worth-digit_map : (g : ℕ) → g < 36 → worth (digit_map g) ≡ g
unfolding worth digit_map
worth-digit_map g h = ground (arith, h)

-- A power of two, by doubling.
abbrev pub two_to : ℕ → ℕ
two_to zero = 1
two_to (suc n) = 2 * two_to n

-- The loop ends within the fuel, on digits of the radix that are worth the value.
abbrev pub Printed : ℕ → ℕ → ℕ → Type 0
Printed fuel value radix =
    (ds : List ℕ) × ((digit_loop fuel value radix ≡ some ds)
      × ((low_first radix ds ≡ value) × ((length ds ≤ fuel) × All (λ c. worth c < radix) ds)))

half : (value radix m : ℕ) → 2 ≤ radix → value < 2 * m → value / radix < m
half value radix m h k =
    (div-lt_iff_lt-mul {k = radix} {x = value} {y = m} (omega (arith, h))).1
      (omega (arith, k, mul-le-mul_left m h))

abbrev pub digits_from : Bool → Option (List ℕ) → ℕ → Option (List ℕ)
digits_from over more digit =
    (if over then some [] else more) >>= λ rest. some (digit_map digit ∷ rest)

pub digit_loop-step :
    (fuel value radix : ℕ)
    → 2 ≤ radix
    → value < 2 ^ 64
    → digit_loop (suc fuel) value radix
      ≡ digits_from (value / radix == 0) (digit_loop fuel (value / radix) radix) (value % radix)
unfolding digit_loop
digit_loop-step fuel value radix h v =
    bind_some (ulldiv value radix) (value / radix, value % radix) _
      (ulldiv-division value radix v (omega (arith, h)))

digit-worth :
    (value radix : ℕ) → 2 ≤ radix → radix ≤ 36 → worth (digit_map (value % radix)) ≡ value % radix
digit-worth value radix h k =
    worth-digit_map (value % radix) (omega (arith, k, mod-lt value {m = radix} (omega (arith, h))))

over : (value radix : ℕ) → (value / radix == 0) ≡ true → value / radix ≡ 0
over value radix e = ground (arith, e)

-- The last digit, behind which nothing is left.
last-Printed :
    (fuel value radix : ℕ)
    → 2 ≤ radix
    → radix ≤ 36
    → value < 2 ^ 64
    → (value / radix == 0) ≡ true
    → Printed (suc fuel) value radix
unfolding low_first
last-Printed fuel value radix h k v e = (
  digit_map (value % radix) ∷ [],
  (
    digit_loop-step fuel value radix h v
        ∙ ap (λ b. digits_from b (digit_loop fuel (value / radix) radix) (value % radix)) e,
    (
      omega (
        arith,
        digit-worth value radix h k,
        ap (λ q. radix * q) (over value radix e),
        div-add-mod value radix,
      ),
      (
        omega arith,
        (
          omega (arith, digit-worth value radix h k, mod-lt value {m = radix} (omega (arith, h))),
          tt,
        ),
      ),
    ),
  ),
)

more-Printed :
    (fuel value radix : ℕ)
    → 2 ≤ radix
    → radix ≤ 36
    → value < 2 ^ 64
    → (value / radix == 0) ≡ false
    → Printed fuel (value / radix) radix
    → Printed (suc fuel) value radix
unfolding low_first
more-Printed fuel value radix h k v e (ds, (run, (total, (long, valid)))) = (
  digit_map (value % radix) ∷ ds,
  (
    digit_loop-step fuel value radix h v
        ∙ (ap (λ b. digits_from b (digit_loop fuel (value / radix) radix) (value % radix)) e
            ∙ ap (λ o. digits_from false o (value % radix)) run),
    (
      ap (λ q. worth (digit_map (value % radix)) + radix * q) total
          ∙ omega (arith, digit-worth value radix h k, div-add-mod value radix),
      (
        omega (arith, long),
        (
          omega (arith, digit-worth value radix h k, mod-lt value {m = radix} (omega (arith, h))),
          valid,
        ),
      ),
    ),
  ),
)

pub digit_loop-Printed :
    (fuel value radix : ℕ)
    → 2 ≤ radix
    → radix ≤ 36
    → value < 2 ^ 64
    → value < two_to (suc fuel)
    → Printed (suc fuel) value radix
digit_loop-Printed zero value radix h k v f =
    last-Printed zero value radix h k v (ground (arith, half value radix 1 h f))
digit_loop-Printed (suc fuel) value radix h k v f = elim (Bool-cases (value / radix == 0)) [
  | inl e ↦ last-Printed (suc fuel) value radix h k v e
  | inr e ↦ more-Printed (suc fuel) value radix h k v e (
      digit_loop-Printed fuel (value / radix) radix h k (omega (arith, v, div-le_self value radix))
        (half value radix (two_to (suc fuel)) h f))
]
