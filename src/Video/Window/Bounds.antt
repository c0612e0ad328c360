-- ===== src/Video/Window/Bounds.antt =====
-- The text window is always an area of the screen.
use libi.Base.{◌+◌, ◌-◌, ◌&&◌, ◌||◌, arith}
use libi.Base.{ltb, if_holds}
use libi.Video.{ℤ, pos, negsuc, Vid, WellFormed, draws_cursor, go_rccoord, xor_sw_cursor}
use libi.Video.Window.{settextwindow, settextposition, in_window, framed, moved, move_to}

xor-WellFormed : (v : Vid) → WellFormed v → WellFormed (xor_sw_cursor v)
unfolding xor_sw_cursor
xor-WellFormed v h = if_holds WellFormed (v.curs_p && draws_cursor v.mode_num) _ _ (λ e. h) (λ e. h)

move_to-WellFormed : (row col : ℤ) (v : Vid) → WellFormed v → WellFormed (move_to row col v)
unfolding move_to moved
move_to-WellFormed (negsuc row) col v h = h
move_to-WellFormed (pos row) (negsuc col) v h = h
move_to-WellFormed (pos row) (pos col) v h =
    if_holds WellFormed (in_window row col v) _ _
      (λ e.
        xor-WellFormed
          (go_rccoord (record { x = col - 1 + v.x1z; y = row - 1 + v.y1z }) (xor_sw_cursor v))
          (xor-WellFormed v h))
      (λ e. h)

-- Whatever `_settextwindow` is given, the text window is an area of the screen if it was.
pub settextwindow-WellFormed :
    (y1 x1 y2 x2 : ℤ) (v : Vid) → WellFormed v → WellFormed (settextwindow y1 x1 y2 x2 v)
unfolding settextwindow settextposition
settextwindow-WellFormed (negsuc y1) x1 y2 x2 v h = h
settextwindow-WellFormed (pos y1) (negsuc x1) y2 x2 v h = h
settextwindow-WellFormed (pos y1) (pos x1) (negsuc y2) x2 v h = h
settextwindow-WellFormed (pos y1) (pos x1) (pos y2) (negsuc x2) v h = h
settextwindow-WellFormed (pos y1) (pos x1) (pos y2) (pos x2) v h =
    if_holds WellFormed (ltb x1 1 || (ltb y1 1 || (ltb x2 x1 || ltb y2 y1))) _ _ (λ e. h)
      (λ e.
        if_holds WellFormed (ltb v.max_x (x2 - 1) || ltb v.max_y (y2 - 1)) _ _ (λ e'. h)
          (λ e'. move_to-WellFormed (pos 1) (pos 1) (framed y1 x1 y2 x2 v) (ground (arith, e, e'))))
