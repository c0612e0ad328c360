-- ===== src/Video/Switch/Startup.antt =====
-- What the start of a program leaves.
use libi.Base.{
  ℕ, ◌≡◌, ◌≢◌, refl, sym, ap, ◌∙◌, true, false, ◌⊎◌, inl, inr, some, arith, List, ◌∷◌, ==_iff, ◌==◌,
  if◌then◌else◌, if_holds, Bool-cases,
}
use libi.Video.{WellFormed, mem}
use libi.Video.Mode.{svga_mode}
use libi.Video.Switch.{
  Setting, set_mode, VideoBios, Session, default_mode, mode_changed, set_known, setvideomode,
  supported, get_mode, fall_back, vid_state_init,
}
use libi.Video.Switch.Outcome.{
  issued, Changed, Outcome, takes, mode_changed-Changed, set_known-takes, setvideomode-Outcome,
  set_known-Outcome,
}
use mathlib.Core.Path.{subst}

-- A state with a supported mode.
record Good (s : Session) : Type 0 where
  known : supported (s.vid.mode_num) ≡ true
  window : WellFormed (s.vid)

Changed-Good :
    (bios : VideoBios) (mode : ℕ) (s : Session) (r : ℕ × Session)
    → supported mode ≡ true
    → Changed bios mode s r
    → Good (r.1)
Changed-Good bios mode s r h c = record { known = ap supported (c.number) ∙ h; window = c.window }

taken-Good :
    (bios : VideoBios) (mode : ℕ) (s : Session)
    → supported mode ≡ true
    → takes bios mode s.sets ≡ true
    → Good ((set_known bios mode s).1)
taken-Good bios mode s h e =
    rw (set_known-takes bios mode s, e)
      (Changed-Good bios mode (issued mode s) (mode_changed bios mode (issued mode s)) h
        (mode_changed-Changed bios mode (issued mode s)))

clash : true ≢ false
clash e = cc

three : supported 3 ≡ true
unfolding supported mem
three = refl

seven : supported 7 ≡ true
unfolding supported mem
seven = refl

fall_back-changed :
    (bios : VideoBios) (rows : ℕ) (s : Session)
    → (rows == 0) ≡ false
    → Good s
    → Good (fall_back bios (rows, s))
unfolding fall_back
fall_back-changed bios rows s h g = rw h g

fall_back-refused :
    (bios : VideoBios) (s : Session) → Good ((set_known bios 7 s).1) → Good (fall_back bios (0, s))
unfolding fall_back
fall_back-refused bios s g = g

three-issued : (s : Session) → (issued 3 s).sets ≡ set_mode 3 ∷ s.sets
unfolding mem
three-issued s = refl

-- The BIOS takes the text mode 3, or mode 7 behind the call for mode 3.
abbrev pub TakesText : VideoBios → List Setting → Type 0
TakesText bios sets = (takes bios 3 sets ≡ true) ⊎ (takes bios 7 (set_mode 3 ∷ sets) ≡ true)

fall_back-Good :
    (bios : VideoBios) (s : Session) (r : ℕ × Session)
    → TakesText bios s.sets
    → Outcome bios 3 s r
    → Good (fall_back bios r)
fall_back-Good bios s (rows, t) h (inl (e, c)) =
    let some_rows : (rows == 0) ≡ false = ground (arith, c.rows) in
    fall_back-changed bios rows t some_rows (Changed-Good bios 3 (issued 3 s) (rows, t) three c)
fall_back-Good bios s r (inl e) (inr (f, same)) = absurd (clash (sym e ∙ f))
fall_back-Good bios s r (inr e) (inr (f, same)) =
    subst (λ x. Good (fall_back bios x)) (sym same)
      (fall_back-refused bios (issued 3 s)
        (taken-Good bios 7 (issued 3 s) seven (ap (takes bios 7) (three-issued s) ∙ e)))

-- The state before the mode at startup is recorded.
begun-Good :
    (bios : VideoBios) (s : Session)
    → (supported (get_mode bios s.sets) ≡ true) ⊎ TakesText bios s.sets
    → Good (
        if supported (get_mode bios s.sets)
        then (mode_changed bios (get_mode bios s.sets) s).1
        else fall_back bios (set_known bios 3 s))
begun-Good bios s h =
    let mode : ℕ = get_mode bios s.sets in
    if_holds Good (supported mode) ((mode_changed bios mode s).1)
      (fall_back bios (set_known bios 3 s))
      (λ e.
        Changed-Good bios mode s (mode_changed bios mode s) e (mode_changed-Changed bios mode s))
      (λ e. fall_back-Good bios s (set_known bios 3 s) (other e h) (set_known-Outcome bios 3 s))
  where
    other :
        supported (get_mode bios s.sets) ≡ false
        → (supported (get_mode bios s.sets) ≡ true) ⊎ TakesText bios s.sets
        → TakesText bios s.sets
    other e (inl f) = absurd (clash (sym f ∙ e))
    other e (inr k) = k

unsupported : supported default_mode ≡ false
unfolding supported mem svga_mode
unsupported = refl

not_default : (mode : ℕ) → supported mode ≡ true → (mode == default_mode) ≡ false
not_default mode h = elim (Bool-cases (mode == default_mode)) [
  | inl e ↦ absurd (clash (sym h ∙ ap supported ((==_iff mode default_mode).0 e) ∙ unsupported))
  | inr e ↦ e
]

-- An outcome where the BIOS takes the mode.
Outcome-Changed :
    (bios : VideoBios) (mode : ℕ) (s : Session) (r : ℕ × Session)
    → takes bios mode s.sets ≡ true
    → Outcome bios mode s r
    → Changed bios mode (issued mode s) r
Outcome-Changed bios mode s r e (inl (h, c)) = c
Outcome-Changed bios mode s r e (inr (f, same)) = absurd (clash (sym e ∙ f))

-- Where the BIOS says that a supported mode is set, or it takes the text mode 3, or mode 7 behind
-- the call for mode 3, a program starts in a supported mode, with the text window on the screen.
-- Where the BIOS then takes this mode again, `_setvideomode (_DEFAULTMODE)` ends with it as the
-- current mode, the whole screen as the window, and the number of its rows.
pub vid_state_init-setvideomode :
    (bios : VideoBios) (s : Session)
    → (supported (get_mode bios s.sets) ≡ true) ⊎ TakesText bios s.sets
    → takes bios (vid_state_init bios s).vid.mode_num (vid_state_init bios s).sets ≡ true
    → let t = vid_state_init bios s in
      (supported (t.vid.mode_num) ≡ true)
      × (WellFormed (t.vid)
          × ((r : ℕ × Session) × (setvideomode bios default_mode t ≡ some r)
              × Changed bios (t.vid.mode_num) (issued (t.vid.mode_num) t) r))
unfolding vid_state_init
vid_state_init-setvideomode bios s h again =
    let good = begun-Good bios s h in
    let t : Session = vid_state_init bios s in
    let (r, e, out) = setvideomode-Outcome bios default_mode t (not_default t.startup good.known) in
    (good.known, (good.window, (r, e, Outcome-Changed bios t.vid.mode_num t r again out)))
