-- ===== src/Number/Reverse.antt =====
-- The swaps from both ends reverse the digits.
use libi.Base.{ℕ, zero, suc, ◌/◌, ◌≡◌, refl, sym, ap, ◌∙◌, arith}
use libi.Base.{List, [], ◌∷◌, ◌++◌, length, reverse, append_assoc}
use mathlib.Core.List.{reverse-cons, reverse-append}
use libi.Number.{split_last, swaps}

split_last-parts :
    (c : ℕ) (mid : List ℕ)
    → ((split_last c mid).0 ++ ((split_last c mid).1 ∷ []) ≡ c ∷ mid)
      × (length ((split_last c mid).0) ≡ length mid)
unfolding split_last
split_last-parts c [] = (refl, refl)
split_last-parts c (d ∷ mid) = let k = split_last-parts d mid in (ap (λ xs. c ∷ xs) k.0, ap suc k.1)

reverse-ends :
    (c last : ℕ) (init : List ℕ)
    → reverse (c ∷ (init ++ (last ∷ []))) ≡ last ∷ (reverse init ++ (c ∷ []))
reverse-ends c last init =
    reverse-cons c (init ++ (last ∷ []))
    ∙ ap (λ xs. xs ++ (c ∷ [])) (reverse-append init (last ∷ []))

pub swaps-reverse :
    (reverses : ℕ) (front mid back : List ℕ)
    → length mid / 2 ≡ reverses
    → swaps reverses front mid back ≡ front ++ (reverse mid ++ back)
unfolding swaps
swaps-reverse zero front [] back h = refl
swaps-reverse zero front (c ∷ []) back h = refl
swaps-reverse zero front (c ∷ d ∷ mid) back h = absurd (omega (arith, h))
swaps-reverse (suc n) front [] back h = absurd (omega (arith, h))
swaps-reverse (suc n) front (c ∷ []) back h = absurd (omega (arith, h))
swaps-reverse (suc n) front (c ∷ d ∷ mid) back h =
    let ends = split_last d mid in
    let parts = split_last-parts d mid in
    swaps-reverse n (front ++ (ends.1 ∷ [])) ends.0 (c ∷ back) (omega (arith, h, parts.1))
    ∙ (append_assoc front (ends.1 ∷ []) (reverse ends.0 ++ (c ∷ back))
        ∙ ap (λ xs. front ++ xs)
            (ap (λ xs. ends.1 ∷ xs) (sym (append_assoc (reverse ends.0) (c ∷ []) back))
              ∙ (ap (λ xs. xs ++ back) (sym (reverse-ends c ends.1 ends.0))
                  ∙ ap (λ xs. reverse (c ∷ xs) ++ back) parts.0)))
