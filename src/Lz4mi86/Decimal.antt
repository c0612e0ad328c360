-- ===== src/Lz4mi86/Decimal.antt =====
-- The digits of `outputu`.
use libi.Base.{
  ℕ, zero, suc, ◌+◌, ◌*◌, ◌/◌, ◌%◌, ◌^◌, ◌≤◌, ◌<◌, ◌≡◌, ◌∙◌, ap, List, [], ◌∷◌, arith, if_holds,
  length, ◌==◌,
}
use libi.Number.Digits.{worth}
use libi.Number.RoundTrip.{read}
use libi.Lz4mi86.Files.{decimal}

-- Powers of ten.
abbrev ten_to : ℕ → ℕ
ten_to zero = 1
ten_to (suc n) = 10 * ten_to n

worth-digit : (g : ℕ) → g < 10 → worth (g + b'0') ≡ g
unfolding worth
worth-digit g h = ground (arith, h)

read-decimal_from :
    (fuel u : ℕ) (p : List ℕ) → u < ten_to fuel → read 10 0 (decimal fuel u p) ≡ read 10 u p
unfolding read decimal
read-decimal_from zero u p h =
    let z : u ≡ 0 = omega (arith, h) in ap (λ n. read 10 n p) (omega (arith, z))
read-decimal_from (suc fuel) u p h =
    let digit = worth-digit (u % 10) (omega arith) in
    if_holds (λ t. read 10 0 t ≡ read 10 u p) (u / 10 == 0) ((u % 10 + b'0') ∷ p)
      (decimal fuel (u / 10) ((u % 10 + b'0') ∷ p))
      (λ e. ap (λ n. read 10 n p) (ground (arith, e, digit)))
      (λ e.
        read-decimal_from fuel (u / 10) ((u % 10 + b'0') ∷ p) (omega (arith, h))
        ∙ ap (λ n. read 10 n p) (omega (arith, digit)))

length-decimal : (fuel u : ℕ) (p : List ℕ) → length (decimal fuel u p) ≤ fuel + length p
unfolding decimal
length-decimal zero u p = omega arith
length-decimal (suc fuel) u p =
    if_holds (λ t. length t ≤ suc fuel + length p) (u / 10 == 0) ((u % 10 + b'0') ∷ p)
      (decimal fuel (u / 10) ((u % 10 + b'0') ∷ p)) (λ e. omega arith)
      (λ e. omega (arith, length-decimal fuel (u / 10) ((u % 10 + b'0') ∷ p)))

-- A text that begins with a digit other than 0.
abbrev pub Leads : List ℕ → Type 0
Leads [] = ⊥
Leads (c ∷ text) = (b'1' ≤ c) × (c ≤ b'9')

decimal-Leads : (fuel u : ℕ) (p : List ℕ) → 0 < u → u < ten_to fuel → Leads (decimal fuel u p)
unfolding decimal
decimal-Leads zero u p h k = absurd (omega (arith, h, k))
decimal-Leads (suc fuel) u p h k =
    if_holds Leads (u / 10 == 0) ((u % 10 + b'0') ∷ p) (decimal fuel (u / 10) ((u % 10 + b'0') ∷ p))
      (λ e. (ground (arith, e, h), omega arith))
      (λ e.
        decimal-Leads fuel (u / 10) ((u % 10 + b'0') ∷ p) (ground (arith, e)) (omega (arith, k)))

-- A 16-bit number above 0 is printed in decimal digits that read as the number, in 6 of them at
-- most, and the first is not 0, which in C would make it octal.
pub read-decimal :
    (u : ℕ)
    → 0 < u
    → u < 2 ^ 16
    → (read 10 0 (decimal 6 u []) ≡ u) × (length (decimal 6 u []) ≤ 6) × Leads (decimal 6 u [])
unfolding read
read-decimal u h k = (
  read-decimal_from 6 u [] (omega (arith, k)),
  length-decimal 6 u [],
  decimal-Leads 6 u [] h (omega (arith, k)),
)
