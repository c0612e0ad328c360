-- ===== src/Video/Mode.antt =====
-- A change of the video mode: `__libi86_con_mode_changed` of common/graph/libi86-vid-state.c,
-- `__libi86_graph_mode_changed` of common/graph/libi86-graph-state.c, common/graph/setcolor.c,
-- and common/conio/gettextinfo.c. What the BIOS answers is a parameter.
pub mod Screen
use libi.Base.{
  ℕ, ◌+◌, ◌-◌, ◌*◌, ◌/◌, ◌%◌, Bool, true, false, ◌&&◌, ◌||◌, not, Option, none, some, List, [], ◌∷◌,
  ltb, leb, ◌==◌, if◌then◌else◌,
}
use libi.Video.{Vid, mem}
use libi.Video.Window.{Coord, gettextposition}

-- The columns and the rows less one in the BIOS data area, the shape of the cursor, CL and BX of
-- the call for EGA information, the display code of a VGA BIOS, and the colour of the background
-- in the palette and in the colour registers.
pub record Query : Type 0 where
  pub columns : ℕ
  pub last_row : ℕ
  pub shape : ℕ
  pub ega_cl : ℕ
  pub ega_bx : ℕ
  pub vga_code : Option ℕ
  pub pal_reg : ℕ
  pub dac_reg : ℕ

abbrev pub text_modes : List ℕ
text_modes = 0 ∷ 1 ∷ 2 ∷ 3 ∷ 7 ∷ 0x108 ∷ 0x109 ∷ 0x10a ∷ 0x10b ∷ 0x10c ∷ []

-- The SuperVGA modes that are supported are 0x100 to 0x11f.
unfoldable pub svga_mode : ℕ → Bool
svga_mode mode = leb 0x100 mode && leb mode 0x11f

-- `(bx & ~0x0301U) == 0`
unfoldable pub adapter_ega_p : Query → Bool
adapter_ega_p q = leb q.ega_cl 0xb && (q.ega_bx / 2 % 0x80 == 0 && q.ega_bx / 0x400 == 0)

-- `_MDPA`, `_CGA`, `_HERCULES`, `_MCGA`, `_EGA`, `_VGA` and `_SVGA` are 1 to 7.
unfoldable pub get_adapter_nonvga : Query → ℕ → ℕ
unfolding mem adapter_ega_p
get_adapter_nonvga q mode =
    if mem mode (0xd ∷ 0xe ∷ 0x12 ∷ 0xf ∷ 0x10 ∷ 0x11 ∷ [])
    then 5
    else if adapter_ega_p q
    then 5
    else if mem mode (4 ∷ 5 ∷ 6 ∷ [])
    then 2
    else if mode == 0xb
    then 3
    else 1

-- The display codes; 255 is the byte for `_NODISPLAY`, and 0 is `_UNKNOWN`.
unfoldable pub adapter_of_code : ℕ → ℕ
unfolding mem
adapter_of_code code =
    if code == 0
    then 255
    else if code == 1
    then 1
    else if code == 2
    then 2
    else if mem code (3 ∷ 4 ∷ 5 ∷ [])
    then 5
    else if mem code (7 ∷ 8 ∷ [])
    then 6
    else if mem code (0xa ∷ 0xb ∷ 0xc ∷ [])
    then 4
    else if mem code (0xd ∷ 0xe ∷ 0xf ∷ [])
    then 3
    else if mem code (0x10 ∷ 0x11 ∷ [])
    then 7
    else 0

unfoldable pub get_adapter : Query → ℕ → ℕ
unfolding svga_mode get_adapter_nonvga adapter_of_code
get_adapter q mode =
    if svga_mode mode
    then 7
    else (elim q.vga_code [ none ↦ get_adapter_nonvga q mode | some code ↦ adapter_of_code code ])

unfoldable pub get_bk_colr : Query → ℕ → ℕ
unfolding mem
get_bk_colr q adapter =
    if adapter == 5 then q.pal_reg else if mem adapter (4 ∷ 6 ∷ 7 ∷ []) then q.dac_reg else 0

-- `__libi86_graph_mode_changed`: `max_colr`, which `draw_colr` is set to as well.
unfoldable pub max_colr : Query → ℕ → ℕ
unfolding mem
max_colr q mode =
    if mem mode (6 ∷ 0xb ∷ 0xf ∷ 0x11 ∷ [])
    then 1
    else if mem mode (4 ∷ 5 ∷ [])
    then 3
    else if mem mode (0xd ∷ 0xe ∷ 0x12 ∷ 0x102 ∷ 0x104 ∷ 0x106 ∷ [])
    then 0xf
    else if mode == 0x10
    then (if q.ega_bx % 0x100 == 0 then 3 else 0xf)
    else 0xff

-- The rows and columns, in bytes; no row count means 25 rows.
unfoldable pub screen_max_x : Query → ℕ
screen_max_x q = (q.columns + 0xff) % 0x100

unfoldable pub screen_max_y : Query → ℕ
screen_max_y q = if q.last_row == 0 then 24 else q.last_row

-- `__libi86_con_mode_changed`, with the number of rows that it returns. The cursor position and
-- the calls so far are the BIOS's.
unfoldable pub con_mode_changed : Query → ℕ → Vid → ℕ × Vid
unfolding get_adapter get_bk_colr screen_max_x screen_max_y mem
con_mode_changed q mode v = (
  screen_max_y q + 1,
  record v {
    mode_num = mode;
    adapter = get_adapter q mode;
    max_x = screen_max_x q;
    max_y = screen_max_y q;
    graph_p = not (mem mode text_modes);
    curs_p = mem mode text_modes && q.shape / 0x2000 % 2 == 0;
    bk_colr = (if mem mode text_modes then v.bk_colr else get_bk_colr q (get_adapter q mode));
    attribute = 7;
    x1z = 0;
    y1z = 0;
    x2z = screen_max_x q;
    y2z = screen_max_y q;
    shape = q.shape;
  },
)

-- `_setcolor` with the drawing colour and the largest one; `none` is -1. `max_colr` is one less
-- than a power of two, so that the mask is a remainder.
unfoldable pub setcolor : ℕ → ℕ → ℕ → Vid → Option ℕ × ℕ
setcolor pixval draw_colr max_colr v =
    if v.graph_p then (some draw_colr, pixval % 0x100 % (max_colr + 1)) else (none, draw_colr)

-- `struct text_info`
pub record TextInfo : Type 0 where
  pub winleft : ℕ
  pub wintop : ℕ
  pub winright : ℕ
  pub winbottom : ℕ
  pub attribute : ℕ
  pub currmode : ℕ
  pub screenheight : ℕ
  pub screenwidth : ℕ
  pub curx : ℕ
  pub cury : ℕ

-- `gettextinfo`, whose fields are bytes, without the attribute for `normvideo`.
unfoldable pub gettextinfo : Vid → TextInfo
unfolding gettextposition
gettextinfo v = record {
  winleft = (v.x1z + 1) % 0x100;
  wintop = (v.y1z + 1) % 0x100;
  winright = (v.x2z + 1) % 0x100;
  winbottom = (v.y2z + 1) % 0x100;
  attribute = v.attribute;
  currmode = (if ltb v.mode_num 0xff then v.mode_num else 0xff);
  screenheight = (v.max_y + 1) % 0x100;
  screenwidth = (v.max_x + 1) % 0x100;
  curx = (gettextposition v).col % 0x100;
  cury = (gettextposition v).row % 0x100;
}
