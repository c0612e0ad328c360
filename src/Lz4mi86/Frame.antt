-- ===== src/Lz4mi86/Frame.antt =====
-- An LZ4 frame with one block, and the C module for it.
use libi.Base.{ℕ, ◌/◌, ◌%◌, Bool, List, [], ◌∷◌, ◌++◌, length, if◌then◌else◌}
use libi.Lz4.Format.{Block, encode, expand}
use libi.Lz4mi86.{codes}
use libi.Lz4mi86.Files.{decimal}
use libi.Lz4mi86.Header.{has_xlen, has_bcksum}

abbrev pub bytes32 : ℕ → List ℕ
bytes32 n = (n % 256) ∷ (n / 256 % 256) ∷ (n / 65536 % 256) ∷ (n / 16777216 % 256) ∷ []

abbrev pub bytes64 : ℕ → List ℕ
bytes64 n =
    (n % 256)
    ∷ (n / 256 % 256)
    ∷ (n / 65536 % 256)
    ∷ (n / 16777216 % 256)
    ∷ (n / 4294967296 % 256)
    ∷ (n / 1099511627776 % 256)
    ∷ (n / 281474976710656 % 256)
    ∷ (n / 72057594037927936 % 256)
    ∷ []

-- The fields that the flags tell of: the length of the contents and the checksum of the block.
abbrev pub xlen_field : ℕ → Block → List ℕ
xlen_field flg b = if has_xlen flg then bytes64 (length (expand b)) else []

abbrev pub cksum_field : ℕ → List ℕ → List ℕ
cksum_field flg sum = if has_bcksum flg then sum else []

-- The frame, with the magic number 0x184d2204 first and the end mark last, and `more` behind.
abbrev pub frame : ℕ → ℕ → ℕ → Block → List ℕ → List ℕ → List ℕ
frame flg bd hc b sum more =
    (4 ∷ 0x22 ∷ 0x4d ∷ 0x18 ∷ flg ∷ bd ∷ [])
    ++ (xlen_field flg b
        ++ ((hc ∷ [])
            ++ (bytes32 (length (encode b))
                ++ (encode b ++ (cksum_field flg sum ++ (bytes32 0 ++ more))))))

-- A line for each byte.
unfoldable pub rows : List ℕ → List ℕ
rows [] = []
rows (b ∷ bs) = codes "      " ++ (decimal 6 b [] ++ (codes ",\r\n" ++ rows bs))

abbrev pub far_text : Bool → List ℕ
far_text is_far = if is_far then codes "__far " else []

unfoldable pub module_text : List ℕ → List ℕ → Bool → ℕ → List ℕ → List ℕ
unfolding rows
module_text file symbol is_far n block =
    (codes "/* Automatically generated by " ++ (file ++ codes ". */\r\nunsigned char "))
    ++ (far_text is_far
        ++ (symbol
            ++ (codes "["
                ++ (decimal 6 n []
                    ++ (codes "];\r\nunsigned char "
                        ++ (far_text is_far
                            ++ (symbol
                                ++ (codes "_lz4[]\r\n  = {\r\n"
                                    ++ (rows block ++ codes "    };\r\n")))))))))
