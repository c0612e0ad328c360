-- ===== src/Video/Colour.antt =====
-- Colours and attributes: common/graph/settextcolor.c, libi86-setbkcolor-indexed.c and
-- libi86-setbkcolor-rgb.c, and common/conio/textattr.c, textcolor.c, textbackground.c,
-- highvideo.c and lowvideo.c. A byte's bits are written out by division.
pub mod Text
pub mod Rgb
use libi.Base.{
  ℕ, ◌+◌, ◌-◌, ◌*◌, ◌/◌, ◌%◌, ◌^◌, Bool, true, false, ◌&&◌, ◌||◌, List, [], ◌∷◌, get_elem?,
}
use libi.Base.{◌==◌, if◌then◌else◌, Option, none, some}
use libi.Base.{not, ltb}
use libi.Video.{Vid, Bios, emit, cga_background, ega_pal_reg, vga_dac_reg}

-- `attr & FG_MASK`, where `FG_MASK` is 0x8f, and `attr & ~FG_MASK`, of a byte.
unfoldable pub fg_part : ℕ → ℕ
fg_part attr = attr / 0x80 % 2 * 0x80 + attr % 0x10

unfoldable pub bg_part : ℕ → ℕ
bg_part attr = attr / 0x10 % 8 * 0x10

-- `textattr`
unfoldable pub textattr : ℕ → Vid → Vid
textattr new_attr v = record v { attribute = new_attr % 0x100 }

-- `textcolor`
unfoldable pub textcolor : ℕ → Vid → Vid
unfolding fg_part bg_part
textcolor new_colour v =
    if v.graph_p
    then record v { attribute = new_colour % 0x100 }
    else record v { attribute = bg_part v.attribute + fg_part new_colour }

-- `textbackground`
unfoldable pub textbackground : ℕ → Vid → Vid
unfolding fg_part bg_part
textbackground new_colour v =
    if v.graph_p
    then v
    else record v { attribute = fg_part v.attribute + bg_part (new_colour * 0x10) }

-- `highvideo` and `lowvideo`, which set and clear bit 3.
unfoldable pub highvideo : Vid → Vid
highvideo v =
    if v.graph_p
    then v
    else record v { attribute = v.attribute / 0x10 * 0x10 + 8 + v.attribute % 8 }

unfoldable pub lowvideo : Vid → Vid
lowvideo v =
    if v.graph_p then v else record v { attribute = v.attribute / 0x10 * 0x10 + v.attribute % 8 }

-- `_settextcolor`, with the old colour. Bit 4 of a colour is for blinking, bit 7 of an attribute.
abbrev pub text_settextcolor : ℕ → Vid → ℕ × Vid
text_settextcolor pixval v = (
  v.attribute % 0x10 + v.attribute / 0x80 % 2 * 0x10,
  record v { attribute = bg_part v.attribute + (pixval % 0x10 + pixval / 0x10 % 2 * 0x80) },
)

unfoldable pub settextcolor : ℕ → Vid → ℕ × Vid
unfolding bg_part
settextcolor pixval v =
    if v.graph_p
    then (v.attribute, record v { attribute = pixval % 0x100 })
    else text_settextcolor pixval v

-- `_CGA`, `_MCGA`, `_EGA`, `_VGA` and `_SVGA` are 2, 4, 5, 6 and 7. Another adapter is `none`.
unfoldable pub background_call : ℕ → ℕ → Option Bios
background_call adapter pixval =
    if adapter == 2
    then some (cga_background (pixval % 0x100))
    else if adapter == 5 || adapter == 4 || adapter == 6 || adapter == 7
    then some (ega_pal_reg 0 (pixval % 0x100))
    else none

-- The old colour and the new state, where there was a call; else -1, which is `none`.
unfoldable pub background_set : ℕ → Option Bios → Vid → Option ℕ × Vid
background_set pixval none v = (none, v)
background_set pixval (some call) v = (some v.bk_colr, record (emit call v) { bk_colr = pixval })

-- `__libi86_setbkcolor_indexed`
unfoldable pub setbkcolor_indexed : ℕ → Vid → Option ℕ × Vid
unfolding fg_part bg_part background_call background_set
setbkcolor_indexed pixval v =
    if v.graph_p then background_set pixval (background_call v.adapter pixval) v else (
      some (bg_part v.attribute / 0x10),
      record v {
        attribute = fg_part v.attribute + bg_part (pixval % 0x100 * 0x10);
        bk_colr = pixval;
      },
    )

-- `__libi86_vid_rgb_to_ega_color`: the upper two bits of each 6-bit component.
unfoldable pub rgb_to_ega_color : ℕ → ℕ
rgb_to_ega_color pixval =
    pixval / 2 ^ 21 % 2
    + pixval / 2 ^ 20 % 2 * 8
    + (pixval / 2 ^ 13 % 2 * 2 + pixval / 2 ^ 12 % 2 * 0x10)
    + (pixval / 2 ^ 5 % 2 * 4 + pixval / 2 ^ 4 % 2 * 0x20)

abbrev pub ega_to_cga_colr_map : List ℕ
ega_to_cga_colr_map =
    0 ∷ 1 ∷ 2 ∷ 3 ∷ 4 ∷ 5 ∷ 6 ∷ 7 ∷ 0 ∷ 1 ∷ 2 ∷ 3 ∷ 4 ∷ 5 ∷ 7 ∷ 7 ∷ 0 ∷ 1 ∷ 2 ∷ 3 ∷ 6 ∷ 5 ∷ 14 ∷ 7
    ∷ 8 ∷ 9 ∷ 10 ∷ 11 ∷ 12 ∷ 13 ∷ 14 ∷ 15 ∷ 0 ∷ 1 ∷ 2 ∷ 3 ∷ 4 ∷ 5 ∷ 6 ∷ 7 ∷ 8 ∷ 9 ∷ 10 ∷ 11 ∷ 12
    ∷ 13 ∷ 14 ∷ 15 ∷ 8 ∷ 9 ∷ 10 ∷ 11 ∷ 12 ∷ 13 ∷ 14 ∷ 15 ∷ 8 ∷ 9 ∷ 10 ∷ 11 ∷ 12 ∷ 13 ∷ 14 ∷ 15 ∷ []

-- `__libi86_vid_rgb_to_cga_color`; `none` would be a read out of bounds.
unfoldable pub rgb_to_cga_color : ℕ → Option ℕ
unfolding rgb_to_ega_color
rgb_to_cga_color pixval = get_elem? ega_to_cga_colr_map (rgb_to_ega_color pixval)

-- What `__libi86_setbkcolor_rgb` does on an adapter but a CGA. In the modes 13 and 14 an EGA
-- takes CGA colours.
unfoldable pub rgb_call : ℕ → ℕ → ℕ → Option Bios
unfolding rgb_to_ega_color rgb_to_cga_color
rgb_call adapter mode pixval =
    if adapter == 5
    then (if mode == 0xd || mode == 0xe
        then elim (rgb_to_cga_color pixval) [ none ↦ none | some colr ↦ some (ega_pal_reg 0 colr) ]
        else some (ega_pal_reg 0 (rgb_to_ega_color pixval)))
    else if adapter == 4 || adapter == 6 || adapter == 7
    then some (vga_dac_reg 0 pixval)
    else none

unfoldable pub cga_then : Option ℕ → Vid → Option ℕ × Vid
unfolding setbkcolor_indexed
cga_then none v = (none, v)
cga_then (some colr) v = setbkcolor_indexed colr v

-- `__libi86_setbkcolor_rgb`
unfoldable pub setbkcolor_rgb : ℕ → Vid → Option ℕ × Vid
unfolding rgb_call cga_then background_set rgb_to_cga_color
setbkcolor_rgb pixval v =
    if not v.graph_p || v.adapter == 2
    then cga_then (rgb_to_cga_color pixval) v
    else background_set pixval (rgb_call v.adapter v.mode_num pixval) v

-- `__libi86_rgb_color_p`, which is true for negative numbers too, and `__libi86_setbkcolor`
unfoldable pub rgb_color_p : ℕ → Bool
rgb_color_p color = ltb 0xff color

unfoldable pub setbkcolor : ℕ → Vid → Option ℕ × Vid
unfolding rgb_color_p setbkcolor_rgb setbkcolor_indexed
setbkcolor color v =
    if rgb_color_p color then setbkcolor_rgb color v else setbkcolor_indexed color v
