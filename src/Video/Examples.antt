-- ===== src/Video/Examples.antt =====
-- A concrete screen, and the theorems about text output at it.
use libi.Base.{
  ℕ, ◌≡◌, refl, true, false, none, some, [], ◌∷◌, arith, map, inl, ◌%◌, ◌+◌, leb, if◌then◌else◌,
}
use libi.Video.{mem, pos, Vid, go, plot, scroll, WellFormed}
use libi.Video.Window.{settextwindow}
use libi.Video.Window.Bounds.{settextwindow-WellFormed}
use libi.Video.Output.{outmem_do, outtext}
use libi.Video.Output.Bounds.{Sane, outmem_do-Sane}
use libi.Video.Colour.{rgb_to_cga_color}
use libi.Video.Mode.{svga_mode, Query}
use libi.Video.Switch.{
  new_mode, set_mode, vesa_mode, VideoBios, Session, default_mode, supported, get_mode,
  setvideomode, vid_state_init,
}
use libi.Video.Switch.Outcome.{Outcome, Changed, issued, takes, wanted_mode, setvideomode-Outcome}
use libi.Video.Switch.Startup.{vid_state_init-setvideomode}
use libi.Video.Cursor.Pixels.{modes256, sub256_modes, xor_pixels}
use libi.Video.Cursor.Twice.{Plots, xor_pixels_twice}
use Prim.Native.Nat.{bit_xor}

-- Text mode 3 on a VGA, with a window of 3 columns and 2 rows.
abbrev small : Vid
small = record {
  mode_num = 3;
  max_x = 79;
  max_y = 24;
  x1z = 10;
  y1z = 5;
  x2z = 12;
  y2z = 6;
  attribute = 7;
  adapter = 6;
  bk_colr = 0;
  graph_p = false;
  curs_p = true;
  shape = 0x607;
  cursor_x = 11;
  cursor_y = 6;
  calls = [];
}

-- Two characters reach the end of the last row, so that the window scrolls.
outtext-scrolls :
    (outtext (b'a' ∷ b'b' ∷ []) small).calls
    ≡ go 10 6 ∷ scroll 10 5 12 6 1 true 7 ∷ plot 12 6 b'b' 7 ∷ plot 11 6 b'a' 7 ∷ []
unfolding outtext
outtext-scrolls = refl

small-WellFormed : WellFormed small
small-WellFormed = (omega arith, (omega arith, (omega arith, omega arith)))

settextwindow-WellFormed_example :
    WellFormed (settextwindow (pos 1) (pos 1) (pos 25) (pos 80) small)
settextwindow-WellFormed_example =
    settextwindow-WellFormed (pos 1) (pos 1) (pos 25) (pos 80) small small-WellFormed

outmem_do-Sane_example : Sane (outmem_do true true (b'a' ∷ 10 ∷ 7 ∷ b'b' ∷ 8 ∷ []) small)
outmem_do-Sane_example =
    outmem_do-Sane true true (b'a' ∷ 10 ∷ 7 ∷ b'b' ∷ 8 ∷ []) small (small-WellFormed, tt)

-- The colours by name of common/graph.h from black to bright white.
named-colours :
    map rgb_to_cga_color (
      0x800000 ∷ 0xaa0000 ∷ 0x802a00 ∷ 0xaa2a00 ∷ 0x80002a ∷ 0xaa002a ∷ 0x80152a ∷ 0xaa2a2a
      ∷ 0x951515 ∷ 0xbf1515 ∷ 0x953f15 ∷ 0xbf3f15 ∷ 0x95153f ∷ 0xbf153f ∷ 0x953f3f ∷ 0xbf3f3f ∷ [])
    ≡ map some (0 ∷ 1 ∷ 2 ∷ 3 ∷ 4 ∷ 5 ∷ 6 ∷ 7 ∷ 8 ∷ 9 ∷ 10 ∷ 11 ∷ 12 ∷ 13 ∷ 14 ∷ 15 ∷ [])
unfolding rgb_to_cga_color
named-colours = refl

abbrev vga : Query
vga = record {
  columns = 80;
  last_row = 24;
  shape = 0x607;
  ega_cl = 9;
  ega_bx = 3;
  vga_code = some 8;
  pal_reg = 0;
  dac_reg = 0;
}

-- A VGA without VESA that is in mode 0x13 at the start, and takes the modes up to 0x13.
abbrev plain_vga : VideoBios
plain_vga = record {
  vesa_get = λ sets. none;
  get =
      λ sets. elim sets [ [] ↦ 0x13 | set_mode mode ∷ more ↦ mode | vesa_mode mode ∷ more ↦ 0x13 ];
  query = λ sets. vga;
  cell = λ sets. 7;
  vesa_set = λ sets mode. false;
}

abbrev session : Session
session = record { vid = small; startup = 3; norm_attr = 7; sets = [] }

setvideomode-Outcome_example :
    (r : ℕ × Session) × (setvideomode plain_vga 0x100 session ≡ some r)
    × Outcome plain_vga (wanted_mode 0x100 session) session r
setvideomode-Outcome_example = setvideomode-Outcome plain_vga 0x100 session refl

starts_supported : supported (get_mode plain_vga []) ≡ true
unfolding supported get_mode mem svga_mode
starts_supported = refl

takes_again :
    takes plain_vga
      (vid_state_init plain_vga session).vid.mode_num
      (vid_state_init plain_vga session).sets
    ≡ true
unfolding vid_state_init supported get_mode mem svga_mode new_mode
takes_again = refl

vid_state_init-setvideomode_example :
    let t = vid_state_init plain_vga session in
    (supported (t.vid.mode_num) ≡ true)
    × (WellFormed (t.vid)
        × ((r : ℕ × Session) × (setvideomode plain_vga default_mode t ≡ some r)
            × Changed plain_vga (t.vid.mode_num) (issued (t.vid.mode_num) t) r))
vid_state_init-setvideomode_example =
    vid_state_init-setvideomode plain_vga session (inl starts_supported) takes_again

-- A BIOS with two bits for a pixel in the modes with fewer than 256 colours.
abbrev plot_pixel : ℕ → ℕ → ℕ → ℕ
plot_pixel mode colour was =
    if mem mode modes256
    then colour
    else if leb 128 colour
    then bit_xor (colour % 4) was
    else colour

few_colours : (mode : ℕ) → mem mode sub256_modes ≡ true → mem mode modes256 ≡ false
unfolding mem
few_colours mode e = ground (arith, e)

plot_pixel-Plots : Plots plot_pixel (λ mode. 2)
plot_pixel-Plots = record {
  xored = λ mode attr was e.
      let few : mem mode modes256 ≡ false = few_colours mode e in
      let bit7 : leb 128 (attr % 128 + 128) ≡ true = ground arith in
      let low : (attr % 128 + 128) % 4 ≡ attr % 4 = omega arith in rw (few, bit7, low) refl;
  plain = λ mode colour was e. rw e refl;
}

abbrev in_mode : ℕ → Vid
in_mode mode = record small { mode_num = mode; graph_p = true }

xor_pixels_twice_example :
    xor_pixels plot_pixel 8 (in_mode 4) (xor_pixels plot_pixel 8 (in_mode 4) (λ x y. 1)) 89 55 ≡ 1
xor_pixels_twice_example =
    xor_pixels_twice plot_pixel (λ mode. 2) 8 (in_mode 4) (λ x y. 1) 89 55 plot_pixel-Plots
