-- ===== src/Video/Colour/Text.antt =====
-- Colours of text: what is set is read back, and the rest of the attribute stays.
use libi.Base.{ℕ, ◌+◌, ◌*◌, ◌/◌, ◌%◌, ◌<◌, ◌≡◌, ap, ◌∙◌, false, some, arith, if◌then◌else◌}
use libi.Video.{Vid}
use libi.Video.Colour.{
  fg_part, bg_part, textcolor, textbackground, text_settextcolor, settextcolor, background_set,
  background_call, setbkcolor_indexed,
}

colour :
    (a attr : ℕ)
    → a < 32
    → (bg_part attr + (a % 0x10 + a / 0x10 % 2 * 0x80)) % 0x10
        + (bg_part attr + (a % 0x10 + a / 0x10 % 2 * 0x80)) / 0x80 % 2 * 0x10
      ≡ a
unfolding bg_part
colour a attr h = omega arith

ground_of : (a attr : ℕ) → bg_part (bg_part attr + (a % 0x10 + a / 0x10 % 2 * 0x80)) ≡ bg_part attr
unfolding bg_part
ground_of a attr = omega arith

settextcolor-text : (a : ℕ) (v : Vid) → v.graph_p ≡ false → settextcolor a v ≡ text_settextcolor a v
unfolding settextcolor
settextcolor-text a v h =
    ap (λ g. if g then (v.attribute, record v { attribute = a % 0x100 }) else text_settextcolor a v)
      h

-- In a text mode, `_settextcolor` gives back the colour that it set before, one of 32 with the
-- blinking ones, and leaves the background as it was.
pub settextcolor-settextcolor :
    (a b : ℕ) (v : Vid)
    → v.graph_p ≡ false
    → a < 32
    → v.attribute < 0x100
    → ((settextcolor b ((settextcolor a v).1)).0 ≡ a)
      × (bg_part (((settextcolor a v).1).attribute) ≡ bg_part v.attribute)
settextcolor-settextcolor a b v h ha hv = (
  ap (λ s. (settextcolor b s.1).0) (settextcolor-text a v h)
      ∙ (ap (λ s. s.0) (settextcolor-text b ((text_settextcolor a v).1) h)
          ∙ colour a v.attribute ha),
  ap (λ s. bg_part (Vid.attribute s.1)) (settextcolor-text a v h) ∙ ground_of a v.attribute,
)

abbrev with_fg : ℕ → Vid → Vid
with_fg c v = record v { attribute = bg_part v.attribute + fg_part c }

abbrev with_bg : ℕ → Vid → Vid
with_bg a v = record v { attribute = fg_part v.attribute + bg_part (a * 0x10) }

textcolor-text : (c : ℕ) (v : Vid) → v.graph_p ≡ false → textcolor c v ≡ with_fg c v
unfolding textcolor
textcolor-text c v h = ap (λ g. if g then record v { attribute = c % 0x100 } else with_fg c v) h

textbackground-text : (a : ℕ) (v : Vid) → v.graph_p ≡ false → textbackground a v ≡ with_bg a v
unfolding textbackground
textbackground-text a v h = ap (λ g. if g then v else with_bg a v) h

setbkcolor-text :
    (b : ℕ) (v : Vid)
    → v.graph_p ≡ false
    → (setbkcolor_indexed b v).0 ≡ some (bg_part v.attribute / 0x10)
unfolding setbkcolor_indexed
setbkcolor-text b v h =
    ap
      (λ g.
        (if g then background_set b (background_call v.adapter b) v else (
          some (bg_part v.attribute / 0x10),
          record (with_bg (b % 0x100) v) { bk_colr = b },
        )).0)
      h

bg_kept :
    (a c attr : ℕ)
    → a < 8
    → bg_part (bg_part (fg_part attr + bg_part (a * 0x10)) + fg_part c) / 0x10 ≡ a
unfolding bg_part fg_part
bg_kept a c attr h = omega (arith, h)

fg_kept :
    (a c attr : ℕ) → fg_part (fg_part (bg_part attr + fg_part c) + bg_part (a * 0x10)) ≡ fg_part c
unfolding bg_part fg_part
fg_kept a c attr = omega arith

-- In a text mode, `__libi86_setbkcolor_indexed` gives back the background, one of eight, that
-- `textbackground` has set, whatever `textcolor` has set since, and `textbackground` leaves what
-- `textcolor` has set.
pub setbkcolor_indexed-textbackground :
    (a b c : ℕ) (v : Vid)
    → v.graph_p ≡ false
    → a < 8
    → ((setbkcolor_indexed b (textcolor c (textbackground a v))).0 ≡ some a)
      × (fg_part ((textbackground a (textcolor c v)).attribute) ≡ fg_part c)
setbkcolor_indexed-textbackground a b c v h ha = (
  ap (λ w. (setbkcolor_indexed b (textcolor c w)).0) (textbackground-text a v h)
      ∙ (ap (λ w. (setbkcolor_indexed b w).0) (textcolor-text c (with_bg a v) h)
          ∙ (setbkcolor-text b (with_fg c (with_bg a v)) h ∙ ap some (bg_kept a c v.attribute ha))),
  ap (λ w. fg_part (Vid.attribute (textbackground a w))) (textcolor-text c v h)
      ∙ (ap (λ w. fg_part (Vid.attribute w)) (textbackground-text a (with_fg c v) h)
          ∙ fg_kept a c v.attribute),
)
