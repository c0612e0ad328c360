-- ===== src/Endian.antt =====
-- Little-endian numbers: common/nexgen/mzendian.h, where the byte order is not known. What `|`
-- joins there has no bit in common while the octets are bytes, and is added here.
pub mod RoundTrip
use libi.Base.{ℕ, ◌+◌, ◌*◌, ◌/◌, ◌%◌}

-- `uint_le16_t`
pub record Le16 : Type 0 where
  pub o0 : ℕ
  pub o1 : ℕ

-- `uint_le32_t`
pub record Le32 : Type 0 where
  pub o0 : ℕ
  pub o1 : ℕ
  pub o2 : ℕ
  pub o3 : ℕ

-- `uint_le64_t`
pub record Le64 : Type 0 where
  pub o0 : ℕ
  pub o1 : ℕ
  pub o2 : ℕ
  pub o3 : ℕ
  pub o4 : ℕ
  pub o5 : ℕ
  pub o6 : ℕ
  pub o7 : ℕ

unfoldable pub hle16 : ℕ → Le16
hle16 x = record { o0 = x % 256; o1 = x / 256 % 256 }

unfoldable pub hle32 : ℕ → Le32
hle32 x = record { o0 = x % 256; o1 = x / 256 % 256; o2 = x / 65536 % 256; o3 = x / 16777216 % 256 }

unfoldable pub hle64 : ℕ → Le64
hle64 x = record {
  o0 = x % 256;
  o1 = x / 256 % 256;
  o2 = x / 65536 % 256;
  o3 = x / 16777216 % 256;
  o4 = x / 4294967296 % 256;
  o5 = x / 1099511627776 % 256;
  o6 = x / 281474976710656 % 256;
  o7 = x / 72057594037927936 % 256;
}

unfoldable pub leh16 : Le16 → ℕ
leh16 x = x.o1 * 256 + x.o0

unfoldable pub leh32 : Le32 → ℕ
leh32 x = x.o3 * 16777216 + (x.o2 * 65536 + (x.o1 * 256 + x.o0))

unfoldable pub leh32lo : Le32 → ℕ
leh32lo x = x.o1 * 256 + x.o0

unfoldable pub leh32hi : Le32 → ℕ
leh32hi x = x.o3 * 256 + x.o2

unfoldable pub leh64 : Le64 → ℕ
leh64 x =
    x.o7 * 72057594037927936
    + (x.o6 * 281474976710656
        + (x.o5 * 1099511627776
            + (x.o4 * 4294967296 + (x.o3 * 16777216 + (x.o2 * 65536 + (x.o1 * 256 + x.o0))))))

unfoldable pub leh64lo : Le64 → ℕ
leh64lo x = x.o3 * 16777216 + (x.o2 * 65536 + (x.o1 * 256 + x.o0))

unfoldable pub leh64hi : Le64 → ℕ
leh64hi x = x.o7 * 16777216 + (x.o6 * 65536 + (x.o5 * 256 + x.o4))
