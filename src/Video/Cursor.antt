-- ===== src/Video/Cursor.antt =====
-- Whether the cursor is displayed: common/graph/displaycursor.c, libi86-displaycursor-off.c and
-- libi86-displaycursor-on.c. `_GCURSOROFF` and `_GCURSORON` are 0 and 1.
pub mod State
pub mod Pixels
pub mod Twice
use libi.Base.{ℕ, ◌+◌, ◌*◌, ◌/◌, ◌%◌, Bool, true, false, not, List, [], ◌∷◌, ◌==◌, if◌then◌else◌}
use libi.Video.{Vid, Bios, curs_shape, emit, xor_sw_cursor}

-- `__libi86_vid_set_curs_shape`
abbrev pub set_curs_shape : ℕ → Vid → Vid
set_curs_shape s v = record v { shape = s; calls = curs_shape s ∷ v.calls }

-- The shape with and without bit 13, which hides the cursor.
unfoldable pub hidden : ℕ → ℕ
hidden s = s / 0x4000 * 0x4000 + 0x2000 + s % 0x2000

unfoldable pub shown : ℕ → ℕ
shown s = s / 0x4000 * 0x4000 + s % 0x2000

unfoldable pub displaycursor_off : Vid → ℕ × Vid
unfolding hidden xor_sw_cursor
displaycursor_off v =
    if v.curs_p
    then (
      1,
      record (if v.graph_p then xor_sw_cursor v else set_curs_shape (hidden v.shape) v) {
        curs_p = false;
      },
    )
    else (0, v)

abbrev pub cursor_on : Vid → Vid
cursor_on v = record v { curs_p = true }

unfoldable pub displaycursor_on : Vid → ℕ × Vid
unfolding shown xor_sw_cursor
displaycursor_on v = if v.curs_p then (1, v) else (
  0,
  (if v.graph_p then xor_sw_cursor (cursor_on v) else set_curs_shape (shown v.shape) (cursor_on v)),
)

-- `_displaycursor`
unfoldable pub displaycursor : ℕ → Vid → ℕ × Vid
unfolding displaycursor_off displaycursor_on
displaycursor curs_mode v = if curs_mode == 0 then displaycursor_off v else displaycursor_on v
