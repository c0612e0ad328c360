-- ===== src/Number.antt =====
-- Printing of numbers: host-gcc/stdlib/ulltoa.c, lltoa.c, ltoa.c and ultoa.c; those of host-ack
-- are in Number/Ack.
pub mod Divide
pub mod Digits
pub mod Reverse
pub mod RoundTrip
pub mod Ack
pub mod Examples
use libi.Base.{
  ℕ, zero, suc, ◌+◌, ◌-◌, ◌*◌, ◌/◌, ◌%◌, ◌^◌, Bool, true, false, ◌||◌, not, Option, none, some,
  List, [], ◌∷◌, ◌++◌,
}
use libi.Base.{length, get_or, ltb, ◌==◌, if◌then◌else◌}

infixl 5 ◌>>=◌
abbrev pub ◌>>=◌ : {A B : Type 0} → Option A → (A → Option B) → Option B
none >>= f = none
some a >>= f = f a

-- The instruction `divw` with DX:AX and the divisor: quotient and remainder, or the divide error
-- that a quotient of more than 16 bits is.
unfoldable pub divw : ℕ → ℕ → ℕ → Option (ℕ × ℕ)
divw dx ax divisor =
    if divisor == 0 || ltb 0xffff ((dx * 2 ^ 16 + ax) / divisor)
    then none
    else some ((dx * 2 ^ 16 + ax) / divisor, (dx * 2 ^ 16 + ax) % divisor)

-- A division that `ulldiv` may jump over, which leaves 0 and 0.
unfoldable pub div_step : Bool → ℕ → ℕ → ℕ → Option (ℕ × ℕ)
unfolding divw
div_step started dx ax divisor = if started then divw dx ax divisor else some (0, 0)

-- `ulldiv`: the quotient and the remainder.
unfoldable pub ulldiv : ℕ → ℕ → Option (ℕ × ℕ)
unfolding div_step divw
ulldiv dividend divisor =
    let divid3 = dividend / 2 ^ 48 in
    let divid2 = dividend / 2 ^ 32 % 2 ^ 16 in
    let divid1 = dividend / 2 ^ 16 % 2 ^ 16 in
    let divid0 = dividend % 2 ^ 16 in
    let start3 = not (divid3 == 0) in
    let start2 = start3 || not (divid2 == 0) in
    let start1 = start2 || not (divid1 == 0) in
    do
      (quot3, rem3) ← div_step start3 0 divid3 divisor
      (quot2, rem2) ← div_step start2 rem3 divid2 divisor
      (quot1, rem1) ← div_step start1 rem2 divid1 divisor
      (quot0, rem0) ← divw rem1 divid0 divisor
      some (((quot3 * 2 ^ 16 + quot2) * 2 ^ 16 + quot1) * 2 ^ 16 + quot0, rem0)

-- "0123456789abcdefghijklmnopqrstuvwxyz"
unfoldable pub digit_map : ℕ → ℕ
digit_map digit = if ltb digit 10 then 0x30 + digit else 0x57 + digit

-- The loop of `_ulltoa`, least digit first. `none` is a divide error or an end of the fuel.
unfoldable pub digit_loop : ℕ → ℕ → ℕ → Option (List ℕ)
unfolding ulldiv digit_map
digit_loop zero value radix = none
digit_loop (suc fuel) value radix = do
  (quotient, digit) ← ulldiv value radix
  rest ← (let more = digit_loop fuel quotient radix in if quotient == 0 then some [] else more)
  some (digit_map digit ∷ rest)

-- The swaps that reverse the digits, with the bytes before `ptr1`, from there to `ptr2`, and from
-- there on.
unfoldable pub split_last : ℕ → List ℕ → List ℕ × ℕ
split_last c [] = ([], c)
split_last c (d ∷ mid) = let rest = split_last d mid in (c ∷ rest.0, rest.1)

unfoldable pub swaps : ℕ → List ℕ → List ℕ → List ℕ → List ℕ
unfolding split_last
swaps zero front mid back = front ++ (mid ++ back)
swaps (suc reverses) front [] back = front ++ back
swaps (suc reverses) front (c ∷ []) back = front ++ (c ∷ back)
swaps (suc reverses) front (c ∷ d ∷ mid) back =
    let ends = split_last d mid in swaps reverses (front ++ (ends.1 ∷ [])) ends.0 (c ∷ back)

-- The text for a value, with the fuel for its digits.
unfoldable pub printed : ℕ → ℕ → ℕ → Option (List ℕ)
unfolding digit_loop swaps
printed fuel value radix = do
  digits ← digit_loop fuel value radix
  some (swaps (length digits / 2) [] digits [])

-- `_ulltoa`: what `buffer` holds, with "" for the null result. 64 bits have 64 digits at most.
unfoldable pub ulltoa : ℕ → ℕ → Option (List ℕ)
unfolding printed
ulltoa value radix = if ltb radix 2 || ltb 36 radix then some [] else printed 64 value radix

-- A `long long` by its 64 bits. `-(value + 1) + 1` of a negative one is 2^64 less its bits.
unfoldable pub lltoa : ℕ → ℕ → Option (List ℕ)
unfolding ulltoa
lltoa value radix =
    if not (radix == 10) || ltb value (2 ^ 63)
    then ulltoa value radix
    else (do text ← ulltoa (2 ^ 64 - value) 10; some (b'-' ∷ text))

-- A `long` by its 32 bits, extended by its sign.
unfoldable pub ltoa : ℕ → ℕ → Option (List ℕ)
unfolding lltoa ulltoa
ltoa value radix =
    if radix == 10
    then lltoa (if ltb value (2 ^ 31) then value else value + (2 ^ 64 - 2 ^ 32)) radix
    else ulltoa value radix

unfoldable pub ultoa : ℕ → ℕ → Option (List ℕ)
unfolding ulltoa
ultoa value radix = ulltoa value radix
