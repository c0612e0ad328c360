-- ===== src/Video/Cursor/State.antt =====
-- Whether the cursor is displayed is kept and given back.
use libi.Base.{ℕ, ◌≡◌, refl, ap, sym, ◌∙◌, Bool, true, false, not, ◌==◌, ◌&&◌, if_holds}
use libi.Video.{Vid, xor_sw_cursor, draws_cursor}
use libi.Video.Cursor.{displaycursor_off, displaycursor_on, displaycursor, cursor_on}

-- 1 for a cursor that is displayed.
abbrev pub on_off : Bool → ℕ
on_off true = 1
on_off false = 0

xor-curs_p : (v : Vid) → (xor_sw_cursor v).curs_p ≡ v.curs_p
unfolding xor_sw_cursor
xor-curs_p v =
    if_holds (λ w. Vid.curs_p w ≡ v.curs_p) (v.curs_p && draws_cursor v.mode_num) _ _ (λ e. refl)
      (λ e. refl)

-- A result with the old state of `v`, and the new state `on`.
abbrev Told : Vid → Bool → ℕ × Vid → Type 0
Told v on r = (r.0 ≡ on_off v.curs_p) × (Vid.curs_p r.1 ≡ on)

displaycursor_off-Told : (v : Vid) → Told v false (displaycursor_off v)
unfolding displaycursor_off
displaycursor_off-Told v =
    if_holds (Told v false) v.curs_p _ _ (λ e. (ap on_off (sym e), refl))
      (λ e. (ap on_off (sym e), e))

displaycursor_on-Told : (v : Vid) → Told v true (displaycursor_on v)
unfolding displaycursor_on
displaycursor_on-Told v =
    if_holds (Told v true) v.curs_p _ _ (λ e. (ap on_off (sym e), e))
      (λ e. (
        ap on_off (sym e),
        if_holds (λ w. Vid.curs_p w ≡ true) v.graph_p _ _ (λ g. xor-curs_p (cursor_on v))
            (λ g. refl),
      ))

-- Switching the cursor off or on gives its old state, whatever the mode, and the new state is
-- what was asked for.
pub displaycursor-on_off :
    (curs_mode : ℕ) (v : Vid)
    → ((displaycursor curs_mode v).0 ≡ on_off v.curs_p)
      × (((displaycursor curs_mode v).1).curs_p ≡ not (curs_mode == 0))
unfolding displaycursor
displaycursor-on_off curs_mode v =
    if_holds (Told v (not (curs_mode == 0))) (curs_mode == 0) _ _
      (λ e. let k = displaycursor_off-Told v in (k.0, k.1 ∙ ap not (sym e)))
      (λ e. let k = displaycursor_on-Told v in (k.0, k.1 ∙ ap not (sym e)))
