-- ===== src/Video/Window/Position.antt =====
-- Positions that are set are read back.
use libi.Base.{ℕ, ◌+◌, ◌-◌, ◌≤◌, ◌≡◌, refl, ap, ◌∙◌, true, false, ◌&&◌, ◌||◌, arith}
use libi.Base.{ltb, if◌then◌else◌, if_holds}
use libi.Video.{
  pos, Vid, outside, draws_cursor, emit, toggle, adjusted, go_rccoord, xor_sw_cursor, Inside,
}
use libi.Video.Window.{
  gettextposition, settextposition, settextwindow, in_window, framed, moved, move_to,
}

xor-gettextposition : (v : Vid) → gettextposition (xor_sw_cursor v) ≡ gettextposition v
unfolding xor_sw_cursor gettextposition
xor-gettextposition v =
    if_holds (λ w. gettextposition w ≡ gettextposition v) (v.curs_p && draws_cursor v.mode_num) _ _
      (λ e. refl) (λ e. refl)

Inside-outside :
    (v : Vid) → Inside v v.cursor_x v.cursor_y → outside v v.cursor_x v.cursor_y ≡ false
Inside-outside v h = ground (arith, h)

-- Where the cursor is in the window, its position is read as it is.
Inside-gettextposition :
    (v : Vid)
    → Inside v v.cursor_x v.cursor_y
    → gettextposition v ≡ record { row = v.cursor_y - v.y1z + 1; col = v.cursor_x - v.x1z + 1 }
unfolding gettextposition
Inside-gettextposition v h =
    ap
      (λ b.
        if b
        then record { row = 1; col = 1 }
        else record { row = v.cursor_y - v.y1z + 1; col = v.cursor_x - v.x1z + 1 })
      (Inside-outside v h)

moved-gettextposition :
    (row col : ℕ) (v : Vid)
    → (1 ≤ row) × (row + v.y1z ≤ v.y2z + 1)
    → (1 ≤ col) × (col + v.x1z ≤ v.x2z + 1)
    → gettextposition (moved row col v) ≡ record { row = row; col = col }
unfolding moved xor_sw_cursor
moved-gettextposition row col v hr hc =
    xor-gettextposition
      (go_rccoord (record { x = col - 1 + v.x1z; y = row - 1 + v.y1z }) (xor_sw_cursor v))
    ∙ if_holds
        (λ w.
          gettextposition (go_rccoord (record { x = col - 1 + v.x1z; y = row - 1 + v.y1z }) w)
          ≡ record { row = row; col = col })
        (v.curs_p && draws_cursor v.mode_num) _ _
        (λ e. there (emit (toggle ((adjusted v).x) ((adjusted v).y) v.attribute) v) hr hc)
        (λ e. there v hr hc)
  where
    there :
        (w : Vid)
        → (1 ≤ row) × (row + w.y1z ≤ w.y2z + 1)
        → (1 ≤ col) × (col + w.x1z ≤ w.x2z + 1)
        → gettextposition (go_rccoord (record { x = col - 1 + w.x1z; y = row - 1 + w.y1z }) w)
          ≡ record { row = row; col = col }
    there w kr kc =
        Inside-gettextposition (go_rccoord (record { x = col - 1 + w.x1z; y = row - 1 + w.y1z }) w)
          (ground (arith, kr, kc))
        ∙ (ap (λ r. record { row = r; col = col - 1 + w.x1z - w.x1z + 1 }) (omega (arith, kr))
            ∙ ap (λ c. record { row = row; col = c }) (omega (arith, kc)))

in_window-true :
    (row col : ℕ) (v : Vid)
    → (1 ≤ row) × (row + v.y1z ≤ v.y2z + 1)
    → (1 ≤ col) × (col + v.x1z ≤ v.x2z + 1)
    → in_window row col v ≡ true
unfolding in_window
in_window-true row col v hr hc = ground (arith, hr, hc)

-- A position in the window that is set is read back.
pub gettextposition-settextposition :
    (row col : ℕ) (v : Vid)
    → (1 ≤ row) × (row + v.y1z ≤ v.y2z + 1)
    → (1 ≤ col) × (col + v.x1z ≤ v.x2z + 1)
    → gettextposition ((settextposition (pos row) (pos col) v).1) ≡ record { row = row; col = col }
unfolding settextposition move_to
gettextposition-settextposition row col v hr hc =
    ap (λ b. gettextposition (if b then moved row col v else v)) (in_window-true row col v hr hc)
    ∙ moved-gettextposition row col v hr hc

-- The window has these corners, counted from 1.
abbrev pub WindowIs : ℕ → ℕ → ℕ → ℕ → Vid → Type 0
WindowIs y1 x1 y2 x2 w =
    ((w.x1z + 1 ≡ x1) × (w.x2z + 1 ≡ x2)) × ((w.y1z + 1 ≡ y1) × (w.y2z + 1 ≡ y2))

xor-WindowIs :
    (y1 x1 y2 x2 : ℕ) (w : Vid) → WindowIs y1 x1 y2 x2 w → WindowIs y1 x1 y2 x2 (xor_sw_cursor w)
unfolding xor_sw_cursor
xor-WindowIs y1 x1 y2 x2 w h =
    if_holds (WindowIs y1 x1 y2 x2) (w.curs_p && draws_cursor w.mode_num) _ _ (λ e. h) (λ e. h)

moved-WindowIs :
    (y1 x1 y2 x2 row col : ℕ) (w : Vid)
    → WindowIs y1 x1 y2 x2 w
    → WindowIs y1 x1 y2 x2 (moved row col w)
unfolding moved
moved-WindowIs y1 x1 y2 x2 row col w h =
    xor-WindowIs y1 x1 y2 x2
      (go_rccoord (record { x = col - 1 + w.x1z; y = row - 1 + w.y1z }) (xor_sw_cursor w))
      (xor-WindowIs y1 x1 y2 x2 w h)

-- A window that is an area of the screen is set, and the position in it is its first one.
pub gettextposition-settextwindow :
    (y1 x1 y2 x2 : ℕ) (v : Vid)
    → (1 ≤ x1) × ((x1 ≤ x2) × (x2 ≤ v.max_x + 1))
    → (1 ≤ y1) × ((y1 ≤ y2) × (y2 ≤ v.max_y + 1))
    → WindowIs y1 x1 y2 x2 (settextwindow (pos y1) (pos x1) (pos y2) (pos x2) v)
      × (gettextposition (settextwindow (pos y1) (pos x1) (pos y2) (pos x2) v)
          ≡ record { row = 1; col = 1 })
unfolding settextwindow settextposition move_to in_window
gettextposition-settextwindow y1 x1 y2 x2 v hx hy =
    if_holds Set (ltb x1 1 || (ltb y1 1 || (ltb x2 x1 || ltb y2 y1))) _ _
      (λ e. absurd (ground (arith, e, hx, hy)))
      (λ e.
        if_holds Set (ltb v.max_x (x2 - 1) || ltb v.max_y (y2 - 1)) _ _
          (λ e'. absurd (ground (arith, e', hx, hy)))
          (λ e'.
            if_holds Set (in_window 1 1 w) _ _
              (λ k. (
                moved-WindowIs y1 x1 y2 x2 1 1 w (ground (arith, hx, hy)),
                moved-gettextposition 1 1 w (ground (arith, hx, hy)) (ground (arith, hx, hy)),
              ))
              (λ k. absurd (ground (arith, k, hx, hy)))))
  where
    w : Vid
    w = framed y1 x1 y2 x2 v

    Set : Vid → Type 0
    Set u = WindowIs y1 x1 y2 x2 u × (gettextposition u ≡ record { row = 1; col = 1 })
