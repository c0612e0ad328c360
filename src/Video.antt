-- ===== src/Video.antt =====
-- The state of text output: common/libi86/internal/graph.h and common/graph/libi86-vid-state.c,
-- with what the BIOS keeps for the current display page.
pub mod Window
pub mod Output
pub mod Printed
pub mod Colour
pub mod Mode
pub mod Switch
pub mod Cursor
pub mod Examples
use libi.Base.{ℕ, ◌≤◌, ◌<◌, Bool, true, false, ◌&&◌, ◌||◌, not, Option, none, some, List, [], ◌∷◌}
use libi.Base.{ltb, leb, ◌==◌, if◌then◌else◌}

-- A `short` or `int`: `negsuc n` is -(n + 1).
pub data ℤ : Type 0 where
  pos negsuc : ℕ → ℤ

-- Calls of the BIOS: move the cursor, plot a character with an attribute at the cursor, scroll or
-- clear an area (zero rows clear it), beep, and draw or take away the software cursor in a cell; set
-- the background colour, a palette or colour register, and the shape of the hardware cursor.
pub data Bios : Type 0 where
  go : ℕ → ℕ → Bios
  plot : ℕ → ℕ → ℕ → ℕ → Bios
  scroll : ℕ → ℕ → ℕ → ℕ → ℕ → Bool → ℕ → Bios
  beep : ℕ → Bios
  toggle : ℕ → ℕ → ℕ → Bios
  cga_background : ℕ → Bios
  ega_pal_reg vga_dac_reg : ℕ → ℕ → Bios
  curs_shape : ℕ → Bios

-- `__libi86_vid_state`, the shape of the hardware cursor and the cursor position that the BIOS
-- has, and the calls so far, the last one first.
pub record Vid : Type 0 where
  pub mode_num : ℕ
  pub max_x : ℕ
  pub max_y : ℕ
  pub x1z : ℕ
  pub y1z : ℕ
  pub x2z : ℕ
  pub y2z : ℕ
  pub attribute : ℕ
  pub adapter : ℕ
  pub bk_colr : ℕ
  pub graph_p : Bool
  pub curs_p : Bool
  pub shape : ℕ
  pub cursor_x : ℕ
  pub cursor_y : ℕ
  pub calls : List Bios

-- `struct __libi86_vid_rccoord_t`
pub record Pos : Type 0 where
  pub x : ℕ
  pub y : ℕ

abbrev pub emit : Bios → Vid → Vid
emit call v = record v { calls = call ∷ v.calls }

abbrev pub outside : Vid → ℕ → ℕ → Bool
outside v x y = ltb x v.x1z || (ltb v.x2z x || (ltb y v.y1z || ltb v.y2z y))

-- `__libi86_vid_get_and_adjust_rccoord`
unfoldable pub adjusted : Vid → Pos
adjusted v =
    if outside v v.cursor_x v.cursor_y
    then record { x = v.x1z; y = v.y1z }
    else record { x = v.cursor_x; y = v.cursor_y }

unfoldable pub mem : ℕ → List ℕ → Bool
mem n [] = false
mem n (k ∷ ks) = n == k || mem n ks

-- The graphics modes with at most 256 colours, in which the software cursor is drawn.
unfoldable pub draws_cursor : ℕ → Bool
unfolding mem
draws_cursor mode =
    mem mode (4 ∷ 5 ∷ 6 ∷ 0xb ∷ 0xd ∷ 0xe ∷ 0xf ∷ 0x10 ∷ 0x11 ∷ 0x12 ∷ 0x13 ∷ [])
    || mem mode (0x100 ∷ 0x101 ∷ 0x102 ∷ 0x103 ∷ 0x104 ∷ 0x105 ∷ 0x106 ∷ 0x107 ∷ 0x11c ∷ [])

-- `__libi86_vid_xor_sw_cursor`, which both stops and resumes the software cursor.
unfoldable pub xor_sw_cursor : Vid → Vid
unfolding adjusted draws_cursor
xor_sw_cursor v =
    if v.curs_p && draws_cursor v.mode_num
    then emit (toggle (adjusted v).x (adjusted v).y v.attribute) v
    else v

-- `__libi86_vid_set_rccoord_only` and `__libi86_vid_go_rccoord`
abbrev pub set_rccoord_only : Pos → Vid → Vid
set_rccoord_only p v = record v { cursor_x = p.x; cursor_y = p.y }

abbrev pub go_rccoord : Pos → Vid → Vid
go_rccoord p v = record v { cursor_x = p.x; cursor_y = p.y; calls = go p.x p.y ∷ v.calls }

-- `__libi86_vid_scroll`
unfoldable pub vid_scroll : ℕ → ℕ → ℕ → ℕ → ℕ → Bool → Vid → Vid
vid_scroll sx1z sy1z sx2z sy2z rows scroll_up_p v =
    emit (scroll sx1z sy1z sx2z sy2z rows scroll_up_p (if v.graph_p then 0 else v.attribute)) v

-- The text window is an area of the screen.
abbrev pub WellFormed : Vid → Type 0
WellFormed v = (v.x1z ≤ v.x2z) × ((v.x2z ≤ v.max_x) × ((v.y1z ≤ v.y2z) × (v.y2z ≤ v.max_y)))

abbrev pub Inside : Vid → ℕ → ℕ → Type 0
Inside v x y = ((v.x1z ≤ x) × (x ≤ v.x2z)) × ((v.y1z ≤ y) × (y ≤ v.y2z))
