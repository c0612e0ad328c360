-- ===== src/Lz4mi86/Header.antt =====
-- The fields of a frame header as lz4mi86.c reads them.
use libi.Base.{ℕ, ◌/◌, ◌%◌, ◌^◌, Bool, ◌&&◌, List}
use libi.Base.{get_or, ◌==◌}
use libi.Endian.{Le32, Le64}

-- A number from its bytes in the file.
unfoldable pub le32 : List ℕ → Le32
le32 b = record { o0 = get_or b 0 0; o1 = get_or b 1 0; o2 = get_or b 2 0; o3 = get_or b 3 0 }

unfoldable pub le64 : List ℕ → Le64
le64 b = record {
  o0 = get_or b 0 0;
  o1 = get_or b 1 0;
  o2 = get_or b 2 0;
  o3 = get_or b 3 0;
  o4 = get_or b 4 0;
  o5 = get_or b 5 0;
  o6 = get_or b 6 0;
  o7 = get_or b 7 0;
}

abbrev pub fh_mag : ℕ
fh_mag = 0x184d2204

-- A mask of bits is written by divisions: `(flg & FLG_VER) == FLG_VER_CURR`, `(flg & FLG_DICTID) == 0 && (bd & BD_MASK) == BD_EXPECT`,
-- and the flags `FLG_XLEN` and `FLG_BCKSUM`.
unfoldable pub version_ok : ℕ → Bool
version_ok flg = flg / 2 ^ 6 % 4 == 1

unfoldable pub features_ok : ℕ → ℕ → Bool
features_ok flg bd = flg % 2 == 0 && (bd / 2 ^ 6 % 4 == 1 && bd % 2 ^ 4 == 0)

unfoldable pub has_xlen : ℕ → Bool
has_xlen flg = flg / 2 ^ 3 % 2 == 1

unfoldable pub has_bcksum : ℕ → Bool
has_bcksum flg = flg / 2 ^ 4 % 2 == 1
