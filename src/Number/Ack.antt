-- ===== src/Number/Ack.antt =====
-- Printing of numbers for ACK: host-ack/stdlib/ultoa.c and host-ack/stdlib/ltoa.c, against the
-- versions for GCC. `__libi86_ultoa_uldiv`, which is assembly, is a parameter.
use libi.Base.{
  ℕ, zero, suc, ◌+◌, ◌-◌, ◌/◌, ◌%◌, ◌^◌, ◌≤◌, ◌<◌, ◌≡◌, refl, sym, ap, ◌∙◌, Bool, ◌||◌, not, Option,
  none, some, List, [], ◌∷◌, arith,
}
use libi.Base.{length, ltb, ◌==◌, if◌then◌else◌, ltb_of_le, ltb_of_lt, Bool-cases, inl, inr}
use native.Mathlib.Nat.{div-le_self}
use libi.Number.{◌>>=◌, digit_map, digit_loop, swaps, printed, ulltoa, lltoa, ltoa, ultoa}
use libi.Number.Digits.{digits_from, digit_loop-step}

abbrev minus : Option (List ℕ) → Option (List ℕ)
minus r = r >>= λ text. some (b'-' ∷ text)

abbrev either : Bool → Option (List ℕ) → Option (List ℕ) → Option (List ℕ)
either b x y = if b then x else y

-- 32 bits as 64.
abbrev sign_extended : ℕ → ℕ
sign_extended value = if ltb value (2 ^ 31) then value else value + (2 ^ 64 - 2 ^ 32)

rest : (value : ℕ) → value < 2 ^ 32 → 2 ^ 64 - (value + (2 ^ 64 - 2 ^ 32)) ≡ 2 ^ 32 - value
rest value h = omega (arith, h)

ultoa-if : (value radix : ℕ) → ultoa value radix ≡ ulltoa value radix
unfolding ultoa
ultoa-if value radix = refl

ltoa-if :
    (value radix : ℕ)
    → ltoa value radix
      ≡ either (radix == 10) (lltoa (sign_extended value) radix) (ulltoa value radix)
unfolding ltoa
ltoa-if value radix = refl

ulltoa-if :
    (value radix : ℕ)
    → ulltoa value radix ≡ either (ltb radix 2 || ltb 36 radix) (some []) (printed 64 value radix)
unfolding ulltoa
ulltoa-if value radix = refl

lltoa-if :
    (value radix : ℕ)
    → lltoa value radix
      ≡ either
          (not (radix == 10) || ltb value (2 ^ 63))
          (ulltoa value radix)
          (minus (ulltoa (2 ^ 64 - value) 10))
unfolding lltoa
lltoa-if value radix = refl

module _ (uldiv : ℕ → ℕ → ℕ × ℕ) where
  -- The loop over the digits, least first, with fuel.
  unfoldable pub ack_loop : ℕ → ℕ → ℕ → Option (List ℕ)
  unfolding digit_map
  ack_loop zero value radix = none
  ack_loop (suc fuel) value radix =
      let quotient = (uldiv value radix).0 in
      let more = ack_loop fuel quotient radix in
      (if quotient == 0 then some [] else more) >>= λ rest.
      some (digit_map (uldiv value radix).1 ∷ rest)

  unfoldable pub ack_printed : ℕ → ℕ → ℕ → Option (List ℕ)
  unfolding ack_loop swaps
  ack_printed fuel value radix = do
    digits ← ack_loop fuel value radix
    some (swaps (length digits / 2) [] digits [])

  -- `_ultoa` for ACK; the fuel is more than the 32 digits that 32 bits have.
  unfoldable pub ack_ultoa : ℕ → ℕ → Option (List ℕ)
  unfolding ack_printed
  ack_ultoa value radix =
      if ltb radix 2 || ltb 36 radix then some [] else ack_printed 64 value radix

  -- `_ltoa` for ACK, with a `long` by its 32 bits; `-(value + 1) + 1` of a negative one is 2^32
  -- less its bits.
  unfoldable pub ack_ltoa : ℕ → ℕ → Option (List ℕ)
  unfolding ack_ultoa
  ack_ltoa value radix =
      if not (radix == 10) || ltb value (2 ^ 31)
      then ack_ultoa value radix
      else ack_ultoa (2 ^ 32 - value) 10 >>= λ text. some (b'-' ∷ text)

  ack_ultoa-if :
      (value radix : ℕ)
      → ack_ultoa value radix
        ≡ either (ltb radix 2 || ltb 36 radix) (some []) (ack_printed 64 value radix)
  unfolding ack_ultoa
  ack_ultoa-if value radix = refl

  ack_ltoa-if :
      (value radix : ℕ)
      → ack_ltoa value radix
        ≡ either
            (not (radix == 10) || ltb value (2 ^ 31))
            (ack_ultoa value radix)
            (minus (ack_ultoa (2 ^ 32 - value) 10))
  unfolding ack_ltoa
  ack_ltoa-if value radix = refl

  -- Quotient and remainder.
  abbrev pub Divides : Type 0
  Divides = (n d : ℕ) → uldiv n d ≡ (n / d, n % d)

  ack_loop-digit_loop :
      (fuel value radix : ℕ)
      → Divides
      → 2 ≤ radix
      → value < 2 ^ 64
      → ack_loop fuel value radix ≡ digit_loop fuel value radix
  unfolding ack_loop digit_loop
  ack_loop-digit_loop zero value radix hd h v = refl
  ack_loop-digit_loop (suc fuel) value radix hd h v =
      ap (λ (q : ℕ × ℕ). digits_from (q.0 == 0) (ack_loop fuel q.0 radix) q.1) (hd value radix)
      ∙ (ap (λ more. digits_from (value / radix == 0) more (value % radix))
            (ack_loop-digit_loop fuel (value / radix) radix hd h
              (omega (arith, v, div-le_self value radix)))
          ∙ sym (digit_loop-step fuel value radix h v))

  ack_printed-printed :
      (fuel value radix : ℕ)
      → Divides
      → 2 ≤ radix
      → value < 2 ^ 64
      → ack_printed fuel value radix ≡ printed fuel value radix
  unfolding ack_printed printed
  ack_printed-printed fuel value radix hd h v =
      ap (λ r. r >>= λ digits. some (swaps (length digits / 2) [] digits []))
        (ack_loop-digit_loop fuel value radix hd h v)

  ack_ultoa-ulltoa :
      (value radix : ℕ) → Divides → value < 2 ^ 64 → ack_ultoa value radix ≡ ulltoa value radix
  ack_ultoa-ulltoa value radix hd v =
      let mine = λ (b : Bool). either b (some []) (ack_printed 64 value radix) in
      let other = λ (b : Bool). either b (some []) (printed 64 value radix) in
      ack_ultoa-if value radix
      ∙ (elim (Bool-cases (ltb radix 2 || ltb 36 radix)) [
        | inl e ↦ ap mine e ∙ sym (ap other e)
        | inr e ↦
            ap mine e
            ∙ (ack_printed-printed 64 value radix hd (ground (arith, e)) v ∙ sym (ap other e))
      ]
          ∙ sym (ulltoa-if value radix))

  -- Where the division gives quotient and remainder, `_ultoa` and `_ltoa` for ACK print every
  -- 32-bit number in every radix as those for GCC do.
  ack_ltoa-ltoa :
      (value radix : ℕ)
      → Divides
      → value < 2 ^ 32
      → (ack_ultoa value radix ≡ ultoa value radix) × (ack_ltoa value radix ≡ ltoa value radix)
  ack_ltoa-ltoa value radix hd v =
      let same = λ (n : ℕ) (h : n < 2 ^ 64). ack_ultoa-ulltoa n 10 hd h in
      let plain = ack_ultoa-ulltoa value radix hd (omega (arith, v)) in
      (
        plain ∙ sym (ultoa-if value radix),
        elim (Bool-cases (radix == 10)) [
          | inr e ↦
              ack_ltoa-if value radix
              ∙ (ap
                    (λ b.
                      either (not b || ltb value (2 ^ 31)) (ack_ultoa value radix)
                        (minus (ack_ultoa (2 ^ 32 - value) 10)))
                    e
                  ∙ (plain
                      ∙ sym (
                          ltoa-if value radix
                          ∙ ap
                              (λ b.
                                either b (lltoa (sign_extended value) radix) (ulltoa value radix))
                              e)))
          | inl e ↦
              let mine = λ (b : Bool).
                either b (ack_ultoa value radix) (minus (ack_ultoa (2 ^ 32 - value) 10)) in
              let wide =
                λ (n : ℕ) (b : Bool). either b (ulltoa n radix) (minus (ulltoa (2 ^ 64 - n) 10)) in
              let left = ack_ltoa-if value radix ∙ ap (λ b. mine (not b || ltb value (2 ^ 31))) e in
              let right =
                ltoa-if value radix
                ∙ (ap (λ b. either b (lltoa (sign_extended value) radix) (ulltoa value radix)) e
                    ∙ (lltoa-if (sign_extended value) radix
                        ∙ ap
                            (λ b.
                              wide (sign_extended value)
                                (not b || ltb (sign_extended value) (2 ^ 63)))
                            e)) in
              elim (Bool-cases (ltb value (2 ^ 31))) [
                | inl k ↦
                    let kept : sign_extended value ≡ value =
                      ap (λ b. if b then value else value + (2 ^ 64 - 2 ^ 32)) k in
                    left
                    ∙ (ap mine k
                        ∙ (plain
                            ∙ sym (
                                right
                                ∙ (ap (λ n. wide n (ltb n (2 ^ 63))) kept
                                    ∙ ap (wide value)
                                        (ltb_of_lt value (2 ^ 63) (omega (arith, v)))))))
                | inr k ↦
                    let top : ℕ = value + (2 ^ 64 - 2 ^ 32) in
                    let kept : sign_extended value ≡ top =
                      ap (λ b. if b then value else value + (2 ^ 64 - 2 ^ 32)) k in
                    let large : 2 ^ 31 ≤ value = ground (arith, k) in
                    left
                    ∙ (ap mine k
                        ∙ (ap minus (same (2 ^ 32 - value) (omega (arith, v)))
                            ∙ sym (
                                right
                                ∙ (ap (λ n. wide n (ltb n (2 ^ 63))) kept
                                    ∙ (ap (wide top) (ltb_of_le top (2 ^ 63) (omega (arith, large)))
                                        ∙ ap (λ n. minus (ulltoa n 10)) (rest value v))))))
              ]
        ],
      )
