-- ===== src/Video/Output/Bounds.antt =====
-- Output stays in the text window.
use libi.Base.{ℕ, ◌≤◌, Bool, ◌&&◌, List, [], ◌∷◌, All, arith}
use libi.Base.{ltb, leb, ◌==◌, if_holds}
use libi.Video.{
  pos, Vid, Pos, Bios, go, plot, scroll, beep, toggle, cga_background, ega_pal_reg, vga_dac_reg,
  curs_shape, emit, outside, draws_cursor, adjusted, xor_sw_cursor,
}
use libi.Video.{go_rccoord, vid_scroll, WellFormed, Inside}
use libi.Video.Window.{scrolltextwindow}
use libi.Video.Output.{At, next_line, show, bell, settle, put, out_loop, outmem_do}

-- A call of the BIOS that touches nothing outside the window.
abbrev pub Within : Vid → Bios → Type 0
Within v (go x y) = Inside v x y
Within v (plot x y ch attr) = Inside v x y
Within v (scroll sx1z sy1z sx2z sy2z rows up attr) =
    ((v.x1z ≤ sx1z) × (sx2z ≤ v.x2z)) × ((v.y1z ≤ sy1z) × (sy2z ≤ v.y2z))
Within v (beep attr) = Unit
Within v (toggle x y attr) = Inside v x y
Within v (cga_background colour) = Unit
Within v (ega_pal_reg reg colour) = Unit
Within v (vga_dac_reg reg colour) = Unit
Within v (curs_shape shape) = Unit

-- All calls so far were within the window that is set now.
abbrev pub Sane : Vid → Type 0
Sane v = WellFormed v × All (Within v) v.calls

abbrev Good : At → Type 0
Good (p, v) = Inside v p.x p.y × Sane v

adjusted-Inside : (v : Vid) → WellFormed v → Inside v ((adjusted v).x) ((adjusted v).y)
unfolding adjusted
adjusted-Inside v h =
    if_holds (λ p. Inside v (Pos.x p) (Pos.y p)) (outside v v.cursor_x v.cursor_y) _ _
      (λ e. ground arith) (λ e. ground (arith, e))

xor-Sane : (v : Vid) → Sane v → Sane (xor_sw_cursor v)
unfolding xor_sw_cursor
xor-Sane v (w, hs) =
    if_holds Sane (v.curs_p && draws_cursor v.mode_num) _ _ (λ e. (w, (adjusted-Inside v w, hs)))
      (λ e. (w, hs))

-- Moving the window's contents up by a line, or clearing it where it has one line.
scroll-Sane : (v : Vid) → Sane v → Sane (scrolltextwindow (pos 1) v)
unfolding scrolltextwindow vid_scroll
scroll-Sane v (w, hs) = (w, (ground arith, hs))

next_line-Good : (s : At) → Good s → Good (next_line s)
unfolding next_line
next_line-Good (p, v) (h, (w, hs)) =
    if_holds Good (ltb p.y v.y2z) _ _ (λ e. (ground (arith, e), (w, hs)))
      (λ e. (ground (arith, h), scroll-Sane v (w, hs)))

show-Good : (ch : ℕ) (s : At) → Good s → Good (show ch s)
unfolding show
show-Good ch (p, v) (h, (w, hs)) =
    if_holds Good (leb v.x2z p.x) _ _ (λ e. next_line-Good (p, _) (h, (w, (h, hs))))
      (λ e. (ground (arith, e), (w, (h, hs))))

settle-Sane : (s : At) → Good s → Sane (settle s)
unfolding settle
settle-Sane (p, v) (h, (w, hs)) = xor-Sane (go_rccoord p v) (w, (h, hs))

bell-Sane : (s : At) → Good s → Sane (bell s)
unfolding bell
bell-Sane (p, v) (h, (w, hs)) = let k = xor-Sane (go_rccoord p v) (w, (h, hs)) in (k.0, (tt, k.1))

xor-Good : (p : Pos) (v : Vid) → Good (p, v) → Good (p, xor_sw_cursor v)
unfolding xor_sw_cursor
xor-Good p v (h, (w, hs)) =
    if_holds (λ u. Good (p, u)) (v.curs_p && draws_cursor v.mode_num) _ _
      (λ e. (h, (w, (adjusted-Inside v w, hs)))) (λ e. (h, (w, hs)))

bell-Good : (s : At) → Good s → Good (s.0, xor_sw_cursor (bell s))
unfolding bell
bell-Good (p, v) (h, (w, hs)) =
    let k = xor-Good p (go_rccoord p v) (h, (w, (h, hs))) in
    xor-Good p (emit (beep v.attribute) (xor_sw_cursor (go_rccoord p v)))
      (k.0, (k.1.0, (tt, k.1.1)))

put-Good : (cr_lf bel_bs : Bool) (ch : ℕ) (s : At) → Good s → Good (put cr_lf bel_bs ch s)
unfolding put
put-Good cr_lf bel_bs ch (p, v) (h, (w, hs)) =
    if_holds Good (cr_lf && ch == 13) _ _ (λ e. (ground (arith, h, w), (w, hs)))
      λ e.
        if_holds Good (cr_lf && ch == 10) _ _ (λ e'. next_line-Good (p, v) (h, (w, hs)))
          λ e'.
            if_holds Good (bel_bs && ch == 8) _ _
              (λ k. (
                if_holds (λ q. Inside v (Pos.x q) (Pos.y q)) (ltb v.x1z p.x) _ _
                    (λ l. ground (arith, h, l)) (λ l. h),
                (w, hs),
              ))
              (λ k. show-Good ch (p, v) (h, (w, hs)))

out_loop-Sane :
    (cr_lf bel_bs : Bool) (text : List ℕ) (s : At) → Good s → Sane (out_loop cr_lf bel_bs text s)
unfolding out_loop
out_loop-Sane cr_lf bel_bs [] s h = settle-Sane s h
out_loop-Sane cr_lf bel_bs (ch ∷ []) s h =
    if_holds Sane (bel_bs && ch == 7) _ _ (λ e. bell-Sane s h)
      (λ e. settle-Sane (put cr_lf bel_bs ch s) (put-Good cr_lf bel_bs ch s h))
out_loop-Sane cr_lf bel_bs (ch ∷ c ∷ text) s h =
    if_holds Sane (bel_bs && ch == 7)
      (out_loop cr_lf bel_bs (c ∷ text) (s.0, xor_sw_cursor (bell s)))
      (out_loop cr_lf bel_bs (c ∷ text) (put cr_lf bel_bs ch s))
      (λ e. out_loop-Sane cr_lf bel_bs (c ∷ text) (s.0, xor_sw_cursor (bell s)) (bell-Good s h))
      (λ e.
        out_loop-Sane cr_lf bel_bs (c ∷ text) (put cr_lf bel_bs ch s)
          (put-Good cr_lf bel_bs ch s h))

-- Where all calls of the BIOS so far were within the text window that is set, which is an area
-- of the screen, this is still so behind `_outmem`, `_outtext` and the output in the style of
-- Borland: they plot, scroll, move the cursor and draw it nowhere else, whatever the text.
pub outmem_do-Sane :
    (cr_lf bel_bs : Bool) (text : List ℕ) (v : Vid) → Sane v → Sane (outmem_do cr_lf bel_bs text v)
unfolding outmem_do
outmem_do-Sane cr_lf bel_bs [] v h = h
outmem_do-Sane cr_lf bel_bs (ch ∷ text) v h =
    let k = xor-Sane v h in
    out_loop-Sane cr_lf bel_bs (ch ∷ text) (adjusted (xor_sw_cursor v), xor_sw_cursor v)
      (adjusted-Inside (xor_sw_cursor v) k.0, k)
