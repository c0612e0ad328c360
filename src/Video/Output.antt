-- ===== src/Video/Output.antt =====
-- common/libi86/internal/graph.h: `__libi86_vid_outmem_do`, which `_outmem`, `_outtext` and the
-- console output in the style of Borland end in.
pub mod Bounds
use libi.Base.{
  ℕ, ◌+◌, ◌-◌, Bool, true, false, ◌&&◌, ◌||◌, List, [], ◌∷◌, ltb, leb, ◌==◌, if◌then◌else◌,
}
use libi.Video.{
  ℤ, pos, Vid, Pos, Bios, plot, beep, emit, adjusted, xor_sw_cursor, go_rccoord, set_rccoord_only,
}
use libi.Video.Window.{scrolltextwindow}

-- A cursor position that the loop has in mind, and the state.
abbrev pub At : Type 0
At = Pos × Vid

-- `__libi86_vid_next_line`
unfoldable pub next_line : At → At
unfolding scrolltextwindow
next_line (p, v) =
    if ltb p.y v.y2z
    then (record { x = v.x1z; y = p.y + 1 }, v)
    else (record { x = v.x1z; y = p.y }, scrolltextwindow (pos 1) v)

-- A character that is shown.
unfoldable pub show : ℕ → At → At
unfolding next_line
show ch (p, v) =
    let v' = emit (plot p.x p.y ch v.attribute) (set_rccoord_only p v) in
    if leb v.x2z p.x then next_line (p, v') else (record { x = p.x + 1; y = p.y }, v')

-- Moving the cursor and beeping, with the software cursor stopped again.
unfoldable pub bell : At → Vid
unfolding xor_sw_cursor
bell (p, v) = emit (beep v.attribute) (xor_sw_cursor (go_rccoord p v))

unfoldable pub settle : At → Vid
unfolding xor_sw_cursor
settle (p, v) = xor_sw_cursor (go_rccoord p v)

-- What one character does, but for a beep.
unfoldable pub put : Bool → Bool → ℕ → At → At
unfolding show next_line
put cr_lf bel_bs ch (p, v) =
    if cr_lf && ch == 13
    then (record { x = v.x1z; y = p.y }, v)
    else if cr_lf && ch == 10
    then next_line (p, v)
    else if bel_bs && ch == 8
    then ((if ltb v.x1z p.x then record { x = p.x - 1; y = p.y } else p), v)
    else show ch (p, v)

-- The loop, with the return behind a beep that is the last character.
unfoldable pub out_loop : Bool → Bool → List ℕ → At → Vid
unfolding put bell settle
out_loop cr_lf bel_bs [] s = settle s
out_loop cr_lf bel_bs (ch ∷ text) s =
    let rest = out_loop cr_lf bel_bs text in
    if bel_bs && ch == 7
    then elim text [ [] ↦ bell s | c ∷ cs ↦ rest (s.0, xor_sw_cursor (bell s)) ]
    else rest (put cr_lf bel_bs ch s)

unfoldable pub outmem_do : Bool → Bool → List ℕ → Vid → Vid
unfolding out_loop adjusted xor_sw_cursor
outmem_do cr_lf bel_bs [] v = v
outmem_do cr_lf bel_bs (ch ∷ text) v =
    out_loop cr_lf bel_bs (ch ∷ text) (adjusted (xor_sw_cursor v), xor_sw_cursor v)

-- `_outmem`, `_outtext` and `__libi86_vid_bc_outmem_do`
unfoldable pub outmem : List ℕ → Vid → Vid
unfolding outmem_do
outmem text v = outmem_do false false text v

unfoldable pub outtext : List ℕ → Vid → Vid
unfolding outmem_do
outtext text v = outmem_do true false text v

unfoldable pub bc_outmem_do : List ℕ → Vid → Vid
unfolding outmem_do
bc_outmem_do text v = outmem_do true true text v
