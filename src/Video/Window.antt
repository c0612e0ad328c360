-- ===== src/Video/Window.antt =====
-- The text window and positions in it: common/graph/settextwindow.c, settextposition.c,
-- gettextposition.c, scrolltextwindow.c and clearscreen.c, and what stands on them in
-- common/conio.
pub mod Position
pub mod Bounds
use libi.Base.{
  ℕ, ◌+◌, ◌-◌, Bool, true, false, ◌&&◌, ◌||◌, List, [], ◌∷◌, ltb, leb, ◌==◌, if◌then◌else◌,
}
use libi.Video.{ℤ, pos, negsuc, Vid, Pos, outside, adjusted, xor_sw_cursor, go_rccoord, vid_scroll}

-- `struct rccoord`
pub record Coord : Type 0 where
  pub row : ℕ
  pub col : ℕ

unfoldable pub gettextposition : Vid → Coord
gettextposition v =
    if outside v v.cursor_x v.cursor_y
    then record { row = 1; col = 1 }
    else record { row = v.cursor_y - v.y1z + 1; col = v.cursor_x - v.x1z + 1 }

-- Whether a row and a column, counted from 1, are in the window.
unfoldable pub in_window : ℕ → ℕ → Vid → Bool
in_window row col v =
    (leb 1 row && leb 1 col) && (leb (row - 1) (v.y2z - v.y1z) && leb (col - 1) (v.x2z - v.x1z))

unfoldable pub moved : ℕ → ℕ → Vid → Vid
unfolding xor_sw_cursor
moved row col v =
    xor_sw_cursor
      (go_rccoord (record { x = col - 1 + v.x1z; y = row - 1 + v.y1z }) (xor_sw_cursor v))

-- The move that `_settextposition` makes; a negative number is less than 1.
unfoldable pub move_to : ℤ → ℤ → Vid → Vid
unfolding in_window moved
move_to (negsuc row) col v = v
move_to (pos row) (negsuc col) v = v
move_to (pos row) (pos col) v = if in_window row col v then moved row col v else v

-- `_settextposition`, which returns the old position.
unfoldable pub settextposition : ℤ → ℤ → Vid → Coord × Vid
unfolding gettextposition move_to
settextposition row col v = (gettextposition v, move_to row col v)

abbrev pub framed : ℕ → ℕ → ℕ → ℕ → Vid → Vid
framed y1 x1 y2 x2 v = record v { x1z = x1 - 1; y1z = y1 - 1; x2z = x2 - 1; y2z = y2 - 1 }

-- `_settextwindow`; a negative number fails one of its tests.
unfoldable pub settextwindow : ℤ → ℤ → ℤ → ℤ → Vid → Vid
unfolding settextposition
settextwindow (negsuc y1) x1 y2 x2 v = v
settextwindow (pos y1) (negsuc x1) y2 x2 v = v
settextwindow (pos y1) (pos x1) (negsuc y2) x2 v = v
settextwindow (pos y1) (pos x1) (pos y2) (negsuc x2) v = v
settextwindow (pos y1) (pos x1) (pos y2) (pos x2) v =
    if ltb x1 1 || (ltb y1 1 || (ltb x2 x1 || ltb y2 y1))
    then v
    else if ltb v.max_x (x2 - 1) || ltb v.max_y (y2 - 1)
    then v
    else (settextposition (pos 1) (pos 1) (framed y1 x1 y2 x2 v)).1

-- `_scrolltextwindow`
unfoldable pub scrolltextwindow : ℤ → Vid → Vid
unfolding vid_scroll
scrolltextwindow (pos rows) v =
    if rows == 0
    then v
    else vid_scroll v.x1z v.y1z v.x2z v.y2z (if ltb (v.y2z - v.y1z) rows then 0 else rows) true v
scrolltextwindow (negsuc rows) v =
    vid_scroll v.x1z v.y1z v.x2z v.y2z (if ltb (v.y2z - v.y1z) (rows + 1) then 0 else rows + 1)
      false v

-- `_clearscreen`: `_GVIEWPORT` is 1 and `_GWINDOW` 2.
unfoldable pub clearscreen : ℕ → Vid → Vid
unfolding vid_scroll settextposition
clearscreen area v =
    if area == 2
    then (settextposition (pos 1) (pos 1) (vid_scroll v.x1z v.y1z v.x2z v.y2z 0 true v)).1
    else if area == 1
    then (if v.graph_p then vid_scroll 0 0 v.max_x v.max_y 0 true v else v)
    else (settextposition (pos 1) (pos 1) (vid_scroll 0 0 v.max_x v.max_y 0 true v)).1

-- `__libi86_vid_bc_insdelline` (`insline` and `delline`) and `clreol`
unfoldable pub insdelline : Bool → Vid → Vid
unfolding adjusted vid_scroll
insdelline del_p v = vid_scroll v.x1z (adjusted v).y v.x2z v.y2z 1 del_p v

unfoldable pub insline : Vid → Vid
unfolding insdelline
insline v = insdelline false v

unfoldable pub delline : Vid → Vid
unfolding insdelline
delline v = insdelline true v

-- `clrscr`
unfoldable pub clrscr : Vid → Vid
unfolding clearscreen
clrscr v = clearscreen 2 v

unfoldable pub clreol : Vid → Vid
unfolding adjusted vid_scroll
clreol v = vid_scroll (adjusted v).x (adjusted v).y v.x2z (adjusted v).y 0 true v

-- `window`, `gotoxy`, `wherex` and `wherey`
unfoldable pub window : ℤ → ℤ → ℤ → ℤ → Vid → Vid
unfolding settextwindow
window left top right bottom v = settextwindow top left bottom right v

unfoldable pub gotoxy : ℤ → ℤ → Vid → Vid
unfolding settextposition
gotoxy x y v = (settextposition y x v).1

unfoldable pub wherex : Vid → ℕ
unfolding gettextposition
wherex v = (gettextposition v).col

unfoldable pub wherey : Vid → ℕ
unfolding gettextposition
wherey v = (gettextposition v).row
