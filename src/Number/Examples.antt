-- ===== src/Number/Examples.antt =====
-- Numbers printed, and the theorems at them.
use libi.Base.{ℕ, ◌/◌, ◌%◌, ◌≡◌, refl, some, [], ◌∷◌}
use libi.Number.{ultoa}

ultoa-hex : ultoa 0xbeef 16 ≡ some (b'b' ∷ b'e' ∷ b'e' ∷ b'f' ∷ [])
unfolding ultoa
ultoa-hex = refl

-- The division of the machine.
abbrev machine_uldiv : ℕ → ℕ → ℕ × ℕ
machine_uldiv n d = (n / d, n % d)
