-- ===== src/Video/Switch/Outcome.antt =====
-- What `_setvideomode` leaves.
use libi.Base.{
  ℕ, ◌+◌, ◌%◌, ◌<◌, List, ◌∷◌, ◌≡◌, refl, Bool, true, false, ◌⊎◌, inl, inr, not, none, some, arith,
  ◌==◌, if◌then◌else◌, if_holds,
}
use libi.Video.{WellFormed, mem}
use libi.Video.Mode.{svga_mode, con_mode_changed, screen_max_x, screen_max_y}
use libi.Video.Switch.{
  Setting, set_mode, vesa_mode, VideoBios, Session, default_mode, nonsvga_modes, mode_changed,
  new_mode, set_known, setvideomode,
}

-- The state behind the call of the BIOS for a mode, which is made for a supported mode.
abbrev pub issued : ℕ → Session → Session
issued mode s =
    if mem mode nonsvga_modes
    then record s { sets = set_mode mode ∷ s.sets }
    else if svga_mode mode
    then record s { sets = vesa_mode mode ∷ s.sets }
    else s

-- The mode is set in a state: the window is the whole screen, from its first column and row to
-- its last ones, by the columns and rows that the BIOS now gives, with 25 rows where it gives none.
pub record Changed (bios : VideoBios) (mode : ℕ) (s : Session) (r : ℕ × Session) : Type 0 where
  pub number : (r.1).vid.mode_num ≡ mode
  pub window : WellFormed ((r.1).vid)
  pub origin : ((r.1).vid.x1z ≡ 0) × ((r.1).vid.y1z ≡ 0)
  pub corner : ((r.1).vid.x2z ≡ (r.1).vid.max_x) × ((r.1).vid.y2z ≡ (r.1).vid.max_y)
  pub columns : ((r.1).vid.x2z + 1) % 0x100 ≡ (bios.query s.sets).columns % 0x100
  pub byte : (r.1).vid.x2z < 0x100
  pub rows : r.0 ≡ (r.1).vid.y2z + 1
  pub height :
      r.0 ≡ (if (bios.query s.sets).last_row == 0 then 25 else (bios.query s.sets).last_row + 1)
  pub same_startup : (r.1).startup ≡ s.startup
  pub same_sets : (r.1).sets ≡ s.sets

-- 0 is returned, and nothing is done but this call.
abbrev pub Refused : ℕ → Session → ℕ × Session → Type 0
Refused mode s r = r ≡ (0, issued mode s)

pub mode_changed-Changed :
    (bios : VideoBios) (mode : ℕ) (s : Session) → Changed bios mode s (mode_changed bios mode s)
unfolding mode_changed con_mode_changed screen_max_x screen_max_y
mode_changed-Changed bios mode s = record {
  number = refl;
  window = (omega arith, (omega arith, (omega arith, omega arith)));
  origin = (refl, refl);
  corner = (refl, refl);
  columns = omega arith;
  byte = omega arith;
  rows = refl;
  height = ground arith;
  same_startup = refl;
  same_sets = refl;
}

-- The condition on which a mode is set.
abbrev pub takes : VideoBios → ℕ → List Setting → Bool
takes bios mode sets =
    if mem mode nonsvga_modes
    then new_mode bios (set_mode mode ∷ sets) == mode
    else if svga_mode mode
    then bios.vesa_set sets mode
    else false

nested_if :
    (a x b y : Bool) (f : Session → ℕ × Session) (t u s : Session)
    → (if a then (if x then f t else (0, t)) else if b then (if y then f u else (0, u)) else (0, s))
      ≡ (if (if a then x else if b then y else false)
          then f (if a then t else if b then u else s)
          else (0, (if a then t else if b then u else s)))
nested_if true true b y f t u s = refl
nested_if true false b y f t u s = refl
nested_if false x true true f t u s = refl
nested_if false x true false f t u s = refl
nested_if false x false y f t u s = refl

pub set_known-takes :
    (bios : VideoBios) (mode : ℕ) (s : Session)
    → set_known bios mode s ≡ (
        if takes bios mode s.sets
        then mode_changed bios mode (issued mode s)
        else (0, issued mode s))
unfolding set_known
set_known-takes bios mode s =
    nested_if (mem mode nonsvga_modes) (new_mode bios (set_mode mode ∷ s.sets) == mode)
      (svga_mode mode) (bios.vesa_set s.sets mode) (mode_changed bios mode)
      (record s { sets = set_mode mode ∷ s.sets }) (record s { sets = vesa_mode mode ∷ s.sets }) s

-- The mode that an argument stands for.
abbrev pub wanted_mode : ℕ → Session → ℕ
wanted_mode mode s = if mode == default_mode then s.startup else mode

picked :
    {A : Type 0} (f : ℕ → A) (is_default endless : Bool) (mode startup : ℕ)
    → endless ≡ false
    → (if not is_default then some (f mode) else if endless then none else some (f startup))
      ≡ some (f (if is_default then startup else mode))
picked f true endless mode startup h = rw h refl
picked f false endless mode startup h = refl

setvideomode-set_known :
    (bios : VideoBios) (mode : ℕ) (s : Session)
    → (s.startup == default_mode) ≡ false
    → setvideomode bios mode s ≡ some (set_known bios (wanted_mode mode s) s)
unfolding setvideomode
setvideomode-set_known bios mode s h =
    picked (λ m. set_known bios m s) (mode == default_mode) (s.startup == default_mode) mode
      s.startup h

-- What `_setvideomode` does with a mode that the BIOS takes, and with another one.
abbrev pub Outcome : VideoBios → ℕ → Session → ℕ × Session → Type 0
Outcome bios mode s r =
    ((takes bios mode s.sets ≡ true) × Changed bios mode (issued mode s) r)
    ⊎ ((takes bios mode s.sets ≡ false) × Refused mode s r)

pub set_known-Outcome :
    (bios : VideoBios) (mode : ℕ) (s : Session) → Outcome bios mode s (set_known bios mode s)
set_known-Outcome bios mode s = rw (set_known-takes bios mode s) (
    if_holds (Outcome bios mode s) (takes bios mode s.sets) (mode_changed bios mode (issued mode s))
      (0, issued mode s) (λ e. inl (e, mode_changed-Changed bios mode (issued mode s)))
      (λ e. inr (e, refl)))

-- Where the mode at startup was not -1, `_setvideomode` ends, `_DEFAULTMODE` standing for the mode
-- at startup. For a supported mode it calls the BIOS to set it. Where the BIOS takes it, the mode
-- is then the current one, the text window is the whole screen, from its first column and row to
-- the last ones of the screen that the BIOS then tells, and the number of the rows is returned. For
-- any other mode 0 is returned, and the state is as before but for the call.
pub setvideomode-Outcome :
    (bios : VideoBios) (mode : ℕ) (s : Session)
    → (s.startup == default_mode) ≡ false
    → (r : ℕ × Session) × (setvideomode bios mode s ≡ some r)
      × Outcome bios (wanted_mode mode s) s r
setvideomode-Outcome bios mode s h = (
  set_known bios (wanted_mode mode s) s,
  setvideomode-set_known bios mode s h,
  set_known-Outcome bios (wanted_mode mode s) s,
)
