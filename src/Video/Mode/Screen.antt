-- ===== src/Video/Mode/Screen.antt =====
-- What a change of the mode leaves.
use libi.Base.{ℕ, ◌≤◌, ◌<◌, ◌≡◌, refl, arith}
use libi.Video.{Vid, WellFormed}
use libi.Video.Mode.{Query, screen_max_x, screen_max_y, con_mode_changed, gettextinfo}

-- Whatever the state was, and whatever the BIOS answers, the text window is the whole screen
-- behind a change of the mode. With a column count that is not 0 and at most 255 rows, all of it
-- bytes, `gettextinfo` then tells the size of the screen and of the window as the BIOS does.
pub gettextinfo-con_mode_changed :
    (q : Query) (mode : ℕ) (v : Vid)
    → (1 ≤ q.columns) × (q.columns < 0x100)
    → q.last_row < 0xff
    → let w = (con_mode_changed q mode v).1 in
      let rows = (con_mode_changed q mode v).0 in
      WellFormed w
      × (((gettextinfo w).winleft ≡ 1)
          × (((gettextinfo w).wintop ≡ 1)
              × (((gettextinfo w).winright ≡ q.columns)
                  × (((gettextinfo w).winbottom ≡ rows)
                      × (((gettextinfo w).screenwidth ≡ q.columns)
                          × ((gettextinfo w).screenheight ≡ rows))))))
unfolding con_mode_changed gettextinfo screen_max_x screen_max_y
gettextinfo-con_mode_changed q mode v hc hr = (
  (omega arith, (omega arith, (omega arith, omega arith))),
  (
    refl,
    (refl, (omega (arith, hc), (ground (arith, hr), (omega (arith, hc), ground (arith, hr))))),
  ),
)
