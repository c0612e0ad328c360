-- ===== src/Video/Switch.antt =====
-- Choice of a video mode: host-gcc/graph/setvideomode.c, common/graph/getvideomode.c,
-- `__libi86_vid_get_mode` and `__libi86_vid_state_init` of common/graph/libi86-vid-state.c, and
-- common/conio/textmode.c and normvideo.c. A mode is given by its 16 bits.
pub mod Outcome
pub mod Startup
use libi.Base.{
  ℕ, ◌%◌, Bool, true, false, ◌||◌, not, Option, none, some, List, [], ◌∷◌, ◌==◌, if◌then◌else◌,
}
use libi.Video.{Vid, mem}
use libi.Video.Mode.{Query, svga_mode, con_mode_changed}

-- The calls that set a mode: service 00h, and service 4f02h of VESA.
pub data Setting : Type 0 where
  set_mode vesa_mode : ℕ → Setting

-- The video BIOS. Its answers depend on the calls that set a mode so far, the last one first: the
-- mode by VESA, if VESA gives one, and by service 0fh, what `con_mode_changed` asks, and the
-- attribute of the cell at the cursor; and whether VESA takes a mode.
pub record VideoBios : Type 0 where
  pub vesa_get : List Setting → Option ℕ
  pub get : List Setting → ℕ
  pub query : List Setting → Query
  pub cell : List Setting → ℕ
  pub vesa_set : List Setting → ℕ → Bool

-- The state, with `startup_mode_num`, `__libi86_vid_norm_attr` and these calls.
pub record Session : Type 0 where
  pub vid : Vid
  pub startup : ℕ
  pub norm_attr : ℕ
  pub sets : List Setting

abbrev pub default_mode : ℕ
default_mode = 0xffff

abbrev pub nonsvga_modes : List ℕ
nonsvga_modes =
    0 ∷ 1 ∷ 2 ∷ 3 ∷ 7 ∷ 6 ∷ 0xb ∷ 0xf ∷ 0x11 ∷ 4 ∷ 5 ∷ 0xd ∷ 0xe ∷ 0x12 ∷ 0x10 ∷ 0x13 ∷ []

unfoldable pub supported : ℕ → Bool
unfolding mem svga_mode
supported mode = mem mode nonsvga_modes || svga_mode mode

-- `__libi86_con_mode_changed` with `__libi86_vid_get_norm_attr`, and the number of rows.
unfoldable pub mode_changed : VideoBios → ℕ → Session → ℕ × Session
unfolding con_mode_changed
mode_changed bios mode s =
    let (rows, v) = con_mode_changed (bios.query s.sets) mode s.vid in
    (rows, record s { vid = v; norm_attr = (if v.graph_p then 7 else bios.cell s.sets) })

-- The mode that the BIOS says behind a call to set one.
unfoldable pub new_mode : VideoBios → List Setting → ℕ
new_mode bios sets = elim (bios.vesa_get sets) [ some m ↦ m | none ↦ bios.get sets % 0x100 ]

-- `_setvideomode`, but for `_DEFAULTMODE`. The call to set a mode is made before its result is
-- tested.
unfoldable pub set_known : VideoBios → ℕ → Session → ℕ × Session
unfolding mode_changed new_mode mem svga_mode
set_known bios mode s =
    let t : Session = record s { sets = set_mode mode ∷ s.sets } in
    let u : Session = record s { sets = vesa_mode mode ∷ s.sets } in
    if mem mode nonsvga_modes
    then (if new_mode bios t.sets == mode then mode_changed bios mode t else (0, t))
    else if svga_mode mode
    then (if bios.vesa_set s.sets mode then mode_changed bios mode u else (0, u))
    else (0, s)

-- `_setvideomode`; `none` is a recursion without end.
unfoldable pub setvideomode : VideoBios → ℕ → Session → Option (ℕ × Session)
unfolding set_known
setvideomode bios mode s =
    if not (mode == default_mode)
    then some (set_known bios mode s)
    else if s.startup == default_mode
    then none
    else some (set_known bios s.startup s)

unfoldable pub getvideomode : Session → ℕ
getvideomode s = s.vid.mode_num

-- `__libi86_vid_get_mode`
unfoldable pub get_mode : VideoBios → List Setting → ℕ
get_mode bios sets = elim (bios.vesa_get sets) [ some m ↦ m % 0x8000 | none ↦ bios.get sets % 0x80 ]

-- `_setvideomode (_TEXTC80)` and, if it fails, `_setvideomode (_TEXTMONO)`.
unfoldable pub fall_back : VideoBios → ℕ × Session → Session
unfolding set_known
fall_back bios (rows, s) = if rows == 0 then (set_known bios 7 s).1 else s

-- `__libi86_vid_state_init`
unfoldable pub vid_state_init : VideoBios → Session → Session
unfolding get_mode supported mode_changed set_known fall_back
vid_state_init bios s =
    let s' : Session =
      (if supported (get_mode bios s.sets)
        then (mode_changed bios (get_mode bios s.sets) s).1
        else fall_back bios (set_known bios 3 s)) in
    record s' { startup = s'.vid.mode_num }

unfoldable pub normvideo : Session → Session
normvideo s = record s { vid = record (s.vid) { attribute = s.norm_attr } }

-- What `textmode` makes of the result of `_setvideomode`.
unfoldable pub normal : Option (ℕ × Session) → Option Session
unfolding normvideo
normal none = none
normal (some (rows, s)) = some (normvideo s)

unfoldable pub textmode : VideoBios → ℕ → Session → Option Session
unfolding getvideomode setvideomode normal
textmode bios mode s =
    if not (getvideomode s == mode) then normal (setvideomode bios mode s) else some (normvideo s)
