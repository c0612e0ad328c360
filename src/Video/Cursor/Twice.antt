-- ===== src/Video/Cursor/Twice.antt =====
-- The software cursor is taken away by drawing it again.
use libi.Base.{
  ℕ, zero, suc, ◌+◌, ◌-◌, ◌*◌, ◌/◌, ◌%◌, ◌^◌, ◌<◌, ◌≡◌, refl, sym, ap, ◌∙◌, Bool, true, false, ◌&&◌,
  leb, ltb, ◌==◌, if◌then◌else◌, Bool-cases, inl, inr, arith,
}
use libi.Video.{Vid, adjusted, mem}
use libi.Video.Cursor.Pixels.{
  Pixels, set_pixel, cell_height, pixel_row, sub256_modes, modes256, do_xor_sw_cursor, xor_pixels,
}
use Prim.Native.Nat.{bit_xor, bit_xor-bitwise, digits, differ}

differ_twice : (x y : ℕ) → x < 2 → y < 2 → differ x (differ x y) ≡ y
differ_twice zero y h k = refl
differ_twice (suc zero) zero h k = refl
differ_twice (suc zero) (suc zero) h k = refl
differ_twice (suc zero) (suc (suc y)) h k = absurd (omega (arith, k))
differ_twice (suc (suc x)) y h k = absurd (omega (arith, h))

differ_bound : (x y : ℕ) → x < 2 → y < 2 → differ x y < 2
differ_bound zero y h k = k
differ_bound (suc zero) zero h k = omega arith
differ_bound (suc zero) (suc zero) h k = omega arith
differ_bound (suc zero) (suc (suc y)) h k = absurd (omega (arith, k))
differ_bound (suc (suc x)) y h k = absurd (omega (arith, h))

abbrev xor_digits : ℕ → ℕ → ℕ → ℕ
xor_digits n a b = digits (λ b. b) differ n a b

xor_digits_twice : (n a b : ℕ) → xor_digits n a (xor_digits n a b) ≡ b
xor_digits_twice zero a b = refl
xor_digits_twice (suc n) zero b = refl
xor_digits_twice (suc n) (suc a) b =
    let d : ℕ = differ (suc a % 2) (b % 2) in
    let rest : ℕ = xor_digits n (suc a / 2) (b / 2) in
    let low : d < 2 = differ_bound (suc a % 2) (b % 2) (omega arith) (omega arith) in
    let high : (rest * 2 + d) / 2 ≡ rest = omega (arith, low) in
    let digit : (rest * 2 + d) % 2 ≡ d = omega (arith, low) in
    let again : xor_digits n (suc a / 2) ((rest * 2 + d) / 2) ≡ b / 2 =
      ap (xor_digits n (suc a / 2)) high ∙ xor_digits_twice n (suc a / 2) (b / 2) in
    let same : differ (suc a % 2) ((rest * 2 + d) % 2) ≡ b % 2 =
      ap (differ (suc a % 2)) digit
      ∙ differ_twice (suc a % 2) (b % 2) (omega arith) (omega arith) in
    omega (arith, again, same)

bit_xor_twice : (a b : ℕ) → bit_xor a (bit_xor a b) ≡ b
bit_xor_twice a b =
    (λ i. bit_xor-bitwise a (bit_xor a b) i)
    ∙ (ap (xor_digits a a) (λ i. bit_xor-bitwise a b i) ∙ xor_digits_twice a a b)

-- Whether a pixel is in the row.
abbrev pub in_row : ℕ → ℕ → ℕ → ℕ → ℕ → Bool
in_row gy gx n x y = y == gy && (leb gx x && ltb x (gx + n))

in_row-past :
    (gy gx n x y : ℕ)
    → (x == gx && y == gy) ≡ false
    → in_row gy (gx + 1) n x y ≡ in_row gy gx (suc n) x y
in_row-past gy gx n x y e = elim (Bool-cases (in_row gy gx (suc n) x y)) [
  | inl h ↦ (let there : in_row gy (gx + 1) n x y ≡ true = ground (arith, e, h) in there) ∙ sym h
  | inr h ↦ (let away : in_row gy (gx + 1) n x y ≡ false = ground (arith, e, h) in away) ∙ sym h
]

pixel_row-in_row :
    (change : ℕ → ℕ) (gy n gx : ℕ) (pixels : Pixels) (x y : ℕ)
    → pixel_row change gy n gx pixels x y
      ≡ (if in_row gy gx n x y then change (pixels x y) else pixels x y)
unfolding pixel_row set_pixel
pixel_row-in_row change gy zero gx pixels x y =
    let none_hit : in_row gy gx 0 x y ≡ false = ground arith in rw none_hit refl
pixel_row-in_row change gy (suc n) gx pixels x y =
    let first : ℕ = change (pixels gx gy) in
    pixel_row-in_row change gy n (gx + 1) (set_pixel gx gy first pixels) x y
    ∙ elim (Bool-cases (x == gx && y == gy)) [
      | inl e ↦
          let here : in_row gy gx (suc n) x y ≡ true = ground (arith, e) in
          let past : in_row gy (gx + 1) n x y ≡ false = ground (arith, e) in
          let same_x : gx ≡ x = ground (arith, e) in
          let same_y : gy ≡ y = ground (arith, e) in
          rw (here, past, e) (ap change (ap (λ k. pixels k gy) same_x ∙ ap (pixels x) same_y))
      | inr e ↦
          let same : in_row gy (gx + 1) n x y ≡ in_row gy gx (suc n) x y =
            in_row-past gy gx n x y e in
          rw (e, same) refl
    ]

-- A row of pixels that is changed twice by changes of which the second undoes the first.
pixel_row_twice :
    (change : ℕ → ℕ) (gy n gx : ℕ) (pixels : Pixels) (x y : ℕ)
    → ((was : ℕ) → change (change was) ≡ was)
    → pixel_row change gy n gx (pixel_row change gy n gx pixels) x y ≡ pixels x y
pixel_row_twice change gy n gx pixels x y back =
    let once = pixel_row-in_row change gy n gx pixels x y in
    pixel_row-in_row change gy n gx (pixel_row change gy n gx pixels) x y
    ∙ elim (Bool-cases (in_row gy gx n x y)) [
      | inl e ↦ rw e (ap change (once ∙ rw e refl) ∙ back (pixels x y))
      | inr e ↦ rw e (once ∙ rw e refl)
    ]

-- The BIOS takes the exclusive or of a pixel and a colour with bit 7, by the bits that the mode
-- has for colours, except in modes with 256 colours, in which a pixel gets the colour.
pub record Plots (plot : ℕ → ℕ → ℕ → ℕ) (bits : ℕ → ℕ) : Type 0 where
  pub xored :
      (mode attr was : ℕ)
      → mem mode sub256_modes ≡ true
      → plot mode (attr % 128 + 128) was ≡ bit_xor (attr % 2 ^ bits mode) was
  pub plain : (mode colour was : ℕ) → mem mode modes256 ≡ true → plot mode colour was ≡ colour

-- What the two functions do, by the tests that they make.
abbrev toggled : Bool → Bool → Bool → (ℕ → ℕ) → (ℕ → ℕ) → ℕ → ℕ → Pixels → Pixels
toggled shown few full f g gy gx pixels =
    if shown
    then (if few
        then pixel_row f gy 8 gx pixels
        else if full
        then pixel_row g gy 8 gx pixels
        else pixels)
    else pixels

toggled_twice :
    (shown few full : Bool) (f g : ℕ → ℕ) (gy gx : ℕ) (pixels : Pixels) (x y : ℕ)
    → (few ≡ true → (was : ℕ) → f (f was) ≡ was)
    → (full ≡ true → (was : ℕ) → g (g was) ≡ was)
    → toggled shown few full f g gy gx (toggled shown few full f g gy gx pixels) x y ≡ pixels x y
toggled_twice false few full f g gy gx pixels x y h k = refl
toggled_twice true true full f g gy gx pixels x y h k =
    pixel_row_twice f gy 8 gx pixels x y (h refl)
toggled_twice true false true f g gy gx pixels x y h k =
    pixel_row_twice g gy 8 gx pixels x y (k refl)
toggled_twice true false false f g gy gx pixels x y h k = refl

-- Where the BIOS takes the exclusive or of a pixel and a colour with bit 7, and in modes with 256
-- colours gives a pixel the colour, `__libi86_vid_xor_sw_cursor` undoes itself: with the same cursor
-- position and attribute, every pixel of the screen is as before behind two calls of it, whatever
-- the mode is.
pub xor_pixels_twice :
    (plot : ℕ → ℕ → ℕ → ℕ) (bits : ℕ → ℕ) (bda : ℕ) (v : Vid) (pixels : Pixels) (x y : ℕ)
    → Plots plot bits
    → xor_pixels plot bda v (xor_pixels plot bda v pixels) x y ≡ pixels x y
unfolding xor_pixels do_xor_sw_cursor
xor_pixels_twice plot bits bda v pixels x y h =
    let mode : ℕ = v.mode_num in
    toggled_twice v.curs_p (mem mode sub256_modes) (mem mode modes256)
      (plot mode (v.attribute % 128 + 128)) (λ was. plot mode (bit_xor v.attribute was) was)
      (((adjusted v).y + 1) * cell_height bda - 1) ((adjusted v).x * 8) pixels x y
      (λ e was.
        h.xored mode v.attribute (plot mode (v.attribute % 128 + 128) was) e
        ∙ (ap (bit_xor (v.attribute % 2 ^ bits mode)) (h.xored mode v.attribute was e)
            ∙ bit_xor_twice (v.attribute % 2 ^ bits mode) was))
      (λ e was.
        h.plain mode (bit_xor v.attribute (plot mode (bit_xor v.attribute was) was))
          (plot mode (bit_xor v.attribute was) was) e
        ∙ (ap (bit_xor v.attribute) (h.plain mode (bit_xor v.attribute was) was e)
            ∙ bit_xor_twice v.attribute was))
