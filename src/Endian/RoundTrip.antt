-- ===== src/Endian/RoundTrip.antt =====
-- What is stored is read back.
use libi.Base.{ℕ, ◌/◌, ◌%◌, ◌<◌, ◌≡◌, arith}
use libi.Endian.{hle16, hle32, hle64, leh16, leh32, leh32lo, leh32hi, leh64, leh64lo, leh64hi}

-- Any 32-bit number is read back from its octets, and so are its halves; the low one has the same
-- value as a 16-bit number.
pub leh32-hle32 :
    (x : ℕ)
    → x < 4294967296
    → (leh32 (hle32 x) ≡ x)
      × ((leh32hi (hle32 x) ≡ x / 65536)
          × ((leh32lo (hle32 x) ≡ x % 65536) × (leh16 (hle16 (x % 65536)) ≡ leh32lo (hle32 x))))
unfolding leh32 leh32hi leh32lo hle32 leh16 hle16
leh32-hle32 x h = (omega (arith, h), (omega (arith, h), (omega arith, omega arith)))

-- Any 64-bit number is read back from its octets, and so are its halves.
pub leh64-hle64 :
    (x : ℕ)
    → x < 18446744073709551616
    → (leh64 (hle64 x) ≡ x)
      × ((leh64hi (hle64 x) ≡ x / 4294967296) × (leh64lo (hle64 x) ≡ x % 4294967296))
unfolding leh64 leh64hi leh64lo hle64
leh64-hle64 x h = (omega (arith, h), (omega (arith, h), omega arith))
