-- ===== src/Video/Colour/Rgb.antt =====
-- Colours given by their components.
use libi.Base.{ℕ, suc, zero, ◌<◌, ◌≡◌, refl, Bool, true, ◌&&◌, some, List, [], ◌∷◌, arith}
use libi.Base.{ltb, length, get_elem?}
use libi.Video.Colour.{rgb_to_ega_color, rgb_to_cga_color, ega_to_cga_colr_map}

rgb_to_ega_color_bound : (pixval : ℕ) → rgb_to_ega_color pixval < 64
unfolding rgb_to_ega_color
rgb_to_ega_color_bound pixval = omega arith

abbrev all : (ℕ → Bool) → List ℕ → Bool
all f [] = true
all f (x ∷ xs) = f x && all f xs

get_elem-all :
    (f : ℕ → Bool) (xs : List ℕ) (i : ℕ)
    → all f xs ≡ true
    → i < length xs
    → (c : ℕ) × ((get_elem? xs i ≡ some c) × (f c ≡ true))
get_elem-all f [] i h k = absurd (omega arith)
get_elem-all f (x ∷ xs) zero h k = (x, (refl, ground (arith, h)))
get_elem-all f (x ∷ xs) (suc i) h k = get_elem-all f xs i (ground (arith, h)) (omega (arith, k))

-- Whatever the components, the table of CGA colours is read within its bounds, and gives one of
-- the 16 colours.
pub rgb_to_cga_color_bound :
    (pixval : ℕ) → (c : ℕ) × ((rgb_to_cga_color pixval ≡ some c) × (c < 16))
unfolding rgb_to_cga_color
rgb_to_cga_color_bound pixval =
    let found =
      get_elem-all (λ c. ltb c 16) ega_to_cga_colr_map (rgb_to_ega_color pixval) refl
        (rgb_to_ega_color_bound pixval) in
    (found.0, (found.1.0, ground (arith, found.1.1)))
