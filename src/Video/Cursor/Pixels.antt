-- ===== src/Video/Cursor/Pixels.antt =====
-- common/graph/libi86-displaycursor-on.c: the pixels of the software cursor, which is the lowest
-- row of pixels of a character cell.
use libi.Base.{ℕ, zero, suc, ◌+◌, ◌-◌, ◌*◌, ◌%◌, ◌&&◌, List, [], ◌∷◌, ◌==◌, if◌then◌else◌}
use libi.Video.{Vid, adjusted, mem}
use Prim.Native.Nat.{bit_xor}

-- The colours by the coordinates of the pixels.
abbrev pub Pixels : Type 0
Pixels = ℕ → ℕ → ℕ

unfoldable pub set_pixel : ℕ → ℕ → ℕ → Pixels → Pixels
set_pixel gx gy colour pixels x y = if x == gx && y == gy then colour else pixels x y

-- `__libi86_vid_get_cell_height`, for the byte in the BIOS data area.
unfoldable pub cell_height : ℕ → ℕ
cell_height bda = if bda == 0 then 8 else bda

-- The loop over `left_x` pixels, with what a pixel becomes.
unfoldable pub pixel_row : (ℕ → ℕ) → ℕ → ℕ → ℕ → Pixels → Pixels
unfolding set_pixel
pixel_row change gy zero gx pixels = pixels
pixel_row change gy (suc left_x) gx pixels =
    pixel_row change gy left_x (gx + 1) (set_pixel gx gy (change (pixels gx gy)) pixels)

abbrev pub sub256_modes : List ℕ
sub256_modes = 6 ∷ 0xb ∷ 0xf ∷ 0x11 ∷ 4 ∷ 5 ∷ 0xd ∷ 0xe ∷ 0x12 ∷ 0x10 ∷ 0x102 ∷ 0x104 ∷ 0x106 ∷ []

abbrev pub modes256 : List ℕ
modes256 = 0x13 ∷ 0x100 ∷ 0x101 ∷ 0x103 ∷ 0x105 ∷ 0x107 ∷ 0x11c ∷ []

-- `__libi86_vid_do_xor_sw_cursor`. What a pixel of some colour becomes is the BIOS's, by the mode
-- and the colour that is plotted; `attr | 1 << 7` is a byte.
unfoldable pub do_xor_sw_cursor : (ℕ → ℕ → ℕ → ℕ) → ℕ → Vid → Pixels → Pixels
unfolding pixel_row cell_height adjusted mem
do_xor_sw_cursor plot bda v pixels =
    let gy = ((adjusted v).y + 1) * cell_height bda - 1 in
    let gx = (adjusted v).x * 8 in
    if mem v.mode_num sub256_modes
    then pixel_row (plot v.mode_num (v.attribute % 128 + 128)) gy 8 gx pixels
    else if mem v.mode_num modes256
    then pixel_row (λ was. plot v.mode_num (bit_xor v.attribute was) was) gy 8 gx pixels
    else pixels

-- `__libi86_vid_xor_sw_cursor`
unfoldable pub xor_pixels : (ℕ → ℕ → ℕ → ℕ) → ℕ → Vid → Pixels → Pixels
unfolding do_xor_sw_cursor
xor_pixels plot bda v pixels = if v.curs_p then do_xor_sw_cursor plot bda v pixels else pixels
