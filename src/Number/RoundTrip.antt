-- ===== src/Number/RoundTrip.antt =====
-- What is printed is read back.
use libi.Base.{ℕ, ◌+◌, ◌-◌, ◌*◌, ◌/◌, ◌^◌, ◌≤◌, ◌<◌, ◌≡◌, refl, ap, ◌∙◌, false, some, arith}
use libi.Base.{
  List, [], ◌∷◌, ◌++◌, length, length-append, reverse, append-nil, ltb, ltb_of_le, if◌then◌else◌,
  ◌||◌,
}
use mathlib.Core.List.{reverse-cons}
use libi.Number.{digit_loop, printed, ulltoa, lltoa, ltoa, ◌>>=◌}
use libi.Number.Divide.{bind_some}
use libi.Number.Digits.{worth, low_first, digit_loop-Printed}
use libi.Number.Reverse.{swaps-reverse}

-- A number as it is read, most significant digit first.
unfoldable pub read : ℕ → ℕ → List ℕ → ℕ
unfolding worth
read radix acc [] = acc
read radix acc (c ∷ text) = read radix (acc * radix + worth c) text

read-append :
    (radix acc : ℕ) (xs ys : List ℕ) → read radix acc (xs ++ ys) ≡ read radix (read radix acc xs) ys
unfolding read
read-append radix acc [] ys = refl
read-append radix acc (c ∷ xs) ys = read-append radix (acc * radix + worth c) xs ys

read-reverse : (radix : ℕ) (ds : List ℕ) → read radix 0 (reverse ds) ≡ low_first radix ds
unfolding read low_first
read-reverse radix [] = refl
read-reverse radix (c ∷ ds) =
    ap (λ t. read radix 0 t) (reverse-cons c ds)
    ∙ (read-append radix 0 (reverse ds) (c ∷ [])
        ∙ (ap (λ n. n * radix + worth c) (read-reverse radix ds) ∙ omega arith))

length-reverse : (ds : List ℕ) → length (reverse ds) ≡ length ds
length-reverse [] = refl
length-reverse (c ∷ ds) =
    ap (λ t. length t) (reverse-cons c ds)
    ∙ omega (arith, length-append (reverse ds) (c ∷ []), length-reverse ds)

printed-reverse :
    (fuel value radix : ℕ) (ds : List ℕ)
    → digit_loop fuel value radix ≡ some ds
    → printed fuel value radix ≡ some (reverse ds)
unfolding printed
printed-reverse fuel value radix ds h =
    bind_some (digit_loop fuel value radix) ds _ h
    ∙ ap some (swaps-reverse (length ds / 2) [] ds [] refl ∙ append-nil (reverse ds))

ulltoa-printed :
    (value radix : ℕ) → 2 ≤ radix → radix ≤ 36 → ulltoa value radix ≡ printed 64 value radix
unfolding ulltoa
ulltoa-printed value radix h k =
    ap (λ b. if b then some [] else printed 64 value radix) (in_range radix h k)
  where
    in_range : (radix : ℕ) → 2 ≤ radix → radix ≤ 36 → (ltb radix 2 || ltb 36 radix) ≡ false
    in_range radix h k = ground (arith, h, k)

pub read-ulltoa :
    (value radix : ℕ)
    → value < 2 ^ 64
    → 2 ≤ radix
    → radix ≤ 36
    → (text : List ℕ) × ((ulltoa value radix ≡ some text)
        × ((read radix 0 text ≡ value) × (length text ≤ 64)))
read-ulltoa value radix v h k =
    let run = digit_loop-Printed 63 value radix h k v v in
    (
      reverse run.0,
      (
        ulltoa-printed value radix h k ∙ printed-reverse 64 value radix run.0 run.1.0,
        (read-reverse radix run.0 ∙ run.1.1.0, omega (arith, length-reverse run.0, run.1.1.1.0)),
      ),
    )

twice : (n : ℕ) → n ≤ 2 ^ 63 → 2 ^ 64 - (2 ^ 64 - n) ≡ n
twice n k = omega (arith, k)

extended : (n : ℕ) → n ≤ 2 ^ 31 → 2 ^ 32 - n + (2 ^ 64 - 2 ^ 32) ≡ 2 ^ 64 - n
extended n k = omega (arith, k)

lltoa-negative :
    (n : ℕ) (text : List ℕ)
    → 0 < n
    → n ≤ 2 ^ 63
    → ulltoa n 10 ≡ some text
    → lltoa (2 ^ 64 - n) 10 ≡ some (b'-' ∷ text)
unfolding lltoa
lltoa-negative n text h k e =
    ap
      (λ b.
        if b
        then ulltoa (2 ^ 64 - n) 10
        else (ulltoa (2 ^ 64 - (2 ^ 64 - n)) 10 >>= λ t. some (b'-' ∷ t)))
      (negative n h k)
    ∙ bind_some (ulltoa (2 ^ 64 - (2 ^ 64 - n)) 10) text _ (ap (λ m. ulltoa m 10) (twice n k) ∙ e)
  where
    negative : (n : ℕ) → 0 < n → n ≤ 2 ^ 63 → ltb (2 ^ 64 - n) (2 ^ 63) ≡ false
    negative n h k = ltb_of_le (2 ^ 64 - n) (2 ^ 63) (omega (arith, k))

ltoa-negative : (n : ℕ) → 0 < n → n ≤ 2 ^ 31 → ltoa (2 ^ 32 - n) 10 ≡ lltoa (2 ^ 64 - n) 10
unfolding ltoa
ltoa-negative n h k =
    ap (λ b. lltoa (if b then 2 ^ 32 - n else 2 ^ 32 - n + (2 ^ 64 - 2 ^ 32)) 10)
      (ltb_of_le (2 ^ 32 - n) (2 ^ 31) (omega (arith, k)))
    ∙ ap (λ m. lltoa m 10) (extended n k)

-- A negative `long long`, given by its 64 bits, is printed in radix 10 as a minus sign and its
-- magnitude, the least one too, and a negative `long` by its 32 bits likewise.
pub read-lltoa :
    (n : ℕ)
    → 0 < n
    → n ≤ 2 ^ 63
    → (text : List ℕ) × ((read 10 0 text ≡ n)
        × ((lltoa (2 ^ 64 - n) 10 ≡ some (b'-' ∷ text))
            × (n ≤ 2 ^ 31 → ltoa (2 ^ 32 - n) 10 ≡ some (b'-' ∷ text))))
read-lltoa n h k =
    let shown = read-ulltoa n 10 (omega (arith, k)) (omega arith) (omega arith) in
    let negative = lltoa-negative n shown.0 h k shown.1.0 in
    (shown.0, (shown.1.1.0, (negative, λ l. ltoa-negative n h l ∙ negative)))
