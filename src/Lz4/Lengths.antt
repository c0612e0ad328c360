-- ===== src/Lz4/Lengths.antt =====
-- What `.full_len` and `.full_len_ckd` make of an encoded length.
use libi.Base.{
  ℕ, zero, suc, ◌+◌, ◌-◌, ◌*◌, ◌/◌, ◌%◌, ◌^◌, ◌<◌, ◌≡◌, ◌∙◌, sym, refl, ap, true, false, some, [],
  length, arith, leb, if◌then◌else◌, if_holds, ◌==◌, Bool-cases, inl, inr,
}
use mathlib.Core.Path.{subst}
use libi.Memory.{Memory, at}
use libi.Lz4.{lodsb, addw, add_bytes, full_len}
use libi.Lz4.Len.{◌>>=◌, Checked, add_ckd, add_bytes_ckd, full_len_ckd}
use libi.Lz4.Format.{nibble, runs, more_len}
use libi.Lz4.Held.{Held}

pub lodsb-linear : (mem : Memory) (ds si : ℕ) → si < 2 ^ 16 → lodsb mem ds si ≡ mem (ds * 16 + si)
unfolding lodsb at
lodsb-linear mem ds si h = ap mem (omega (arith, h))

pub addw_fits : (a b : ℕ) → a + b < 2 ^ 16 → addw a b ≡ a + b
unfolding addw
addw_fits a b h = omega (arith, h)

pub length-runs : (q r : ℕ) → length (runs q r) ≡ q + 1
unfolding runs
length-runs zero r = refl
length-runs (suc q) r = omega (arith, length-runs q r)

add_bytes_ckd-runs :
    (mem : Memory) (ds : ℕ) (q r fuel si cx : ℕ)
    → r < 255
    → q < fuel
    → si + q + 1 < 2 ^ 16
    → Held mem (ds * 16 + si) (runs q r)
    → add_bytes_ckd fuel mem ds si cx ≡ (
        if leb (2 ^ 16) (cx + (q * 255 + r))
        then Checked.ouch
        else Checked.ok (si + (q + 1), cx + (q * 255 + r)))
unfolding add_bytes_ckd runs add_ckd
add_bytes_ckd-runs mem ds q r zero si cx hr hf hs held = absurd (omega (arith, hf))
add_bytes_ckd-runs mem ds zero r (suc fuel) si cx hr hf hs (e, held) =
    let al = lodsb-linear mem ds si (omega (arith, hs)) ∙ e in
    let last : (r == 0xff) ≡ false = ground (arith, hr) in
    let next = addw_fits si 1 (omega (arith, hs)) in
    let sum : cx + (zero * 255 + r) ≡ cx + r = omega arith in
    elim (Bool-cases (leb (2 ^ 16) (cx + r))) [
      | inl c ↦ rw (al, sum, c) refl
      | inr c ↦ rw (al, sum, c, last, next) refl
    ]
add_bytes_ckd-runs mem ds (suc q) r (suc fuel) si cx hr hf hs (e, held) =
    let al = lodsb-linear mem ds si (omega (arith, hs)) ∙ e in
    let next = addw_fits si 1 (omega (arith, hs)) in
    elim (Bool-cases (leb (2 ^ 16) (cx + 255))) [
      | inl c ↦
          let big : leb (2 ^ 16) (cx + (suc q * 255 + r)) ≡ true = ground (arith, c) in
          rw (al, c, big) refl
      | inr c ↦
          let rest =
            add_bytes_ckd-runs mem ds q r fuel (si + 1) (cx + 255) hr (omega (arith, hf))
              (omega (arith, hs)) (subst (λ e. Held mem e (runs q r)) (omega arith) held) in
          let sum : cx + 255 + (q * 255 + r) ≡ cx + (suc q * 255 + r) = omega arith in
          let off : si + 1 + (q + 1) ≡ si + (suc q + 1) = omega arith in
          rw (al, c, next, rest, sum, off) refl
    ]

-- A length of 15 or more, and a short one.
long :
    (n : ℕ)
    → leb 15 n ≡ true
    → (nibble n ≡ 15) × (more_len n ≡ runs ((n - 15) / 255) ((n - 15) % 255))
unfolding nibble more_len
long n c = (rw c refl, rw c refl)

short : (n : ℕ) → leb 15 n ≡ false → (nibble n ≡ n) × (more_len n ≡ [])
unfolding nibble more_len
short n c = (rw c refl, rw c refl)

-- The bytes behind a token.
pub full_len_ckd-more_len :
    (mem : Memory) (ds n si : ℕ)
    → si + length (more_len n) < 2 ^ 16
    → Held mem (ds * 16 + si) (more_len n)
    → full_len_ckd mem ds si (nibble n)
      ≡ (if leb (2 ^ 16) n then Checked.ouch else Checked.ok (si + length (more_len n), n))
unfolding full_len_ckd
full_len_ckd-more_len mem ds n si hs held = elim (Bool-cases (leb 15 n)) [
  | inl c ↦
      let (a, b) = long n c in
      let q = (n - 15) / 255 in
      let r = (n - 15) % 255 in
      let total : 15 + (q * 255 + r) ≡ n = ground (arith, c) in
      let held' = subst (Held mem (ds * 16 + si)) b held in
      let size = ap length b ∙ length-runs q r in
      let known =
        add_bytes_ckd-runs mem ds q r (2 ^ 16) si 15 (omega arith) (omega (arith, hs, size))
          (omega (arith, hs, size)) held' in
      rw (a, size) (known ∙ rw total refl)
  | inr c ↦
      let (a, b) = short n c in
      let few : (n == 0x0f) ≡ false = ground (arith, c) in
      let fits : leb (2 ^ 16) n ≡ false = ground (arith, c) in
      let here : si + 0 ≡ si = omega arith in rw (a, b, few, fits, here) refl
]

-- What must have been where a chain of steps has a result.
pub bind_ok :
    {A B : Type 0} (m : Checked A) (f : A → Checked B) (y : B)
    → (m >>= f) ≡ Checked.ok y
    → (x : A) × (m ≡ Checked.ok x) × (f x ≡ Checked.ok y)
bind_ok (Checked.ok x) f y h = (x, refl, h)
bind_ok Checked.ouch f y h = absurd cc
bind_ok Checked.stuck f y h = absurd cc

pub add_ckd_ok : (a b c : ℕ) → add_ckd a b ≡ Checked.ok c → (a + b < 2 ^ 16) × (c ≡ a + b)
unfolding add_ckd
add_ckd_ok a b c h =
    if_holds (λ m. m ≡ Checked.ok c → (a + b < 2 ^ 16) × (c ≡ a + b)) (leb (2 ^ 16) (a + b))
      Checked.ouch (Checked.ok (a + b)) (λ e k. absurd cc) (λ e k. (ground (arith, e), cc)) h

pub addw_ckd : (a b c : ℕ) → add_ckd a b ≡ Checked.ok c → addw a b ≡ c
addw_ckd a b c h = let (l, e) = add_ckd_ok a b c h in addw_fits a b l ∙ sym e

-- Where the checks find no carry, the length is the same without them.
add_bytes-ckd :
    (fuel : ℕ) (mem : Memory) (ds si cx : ℕ) (p : ℕ × ℕ)
    → add_bytes_ckd fuel mem ds si cx ≡ Checked.ok p
    → add_bytes fuel mem ds si cx ≡ some p
unfolding add_bytes_ckd add_bytes
add_bytes-ckd zero mem ds si cx p h = absurd cc
add_bytes-ckd (suc fuel) mem ds si cx p h =
    let al = lodsb mem ds si in
    let (cx', e, k) = bind_ok (add_ckd cx al) _ p h in
    let sum = addw_ckd cx al cx' e in
    elim (Bool-cases (al == 0xff)) [
      | inl d ↦
          let rest = add_bytes-ckd fuel mem ds (addw si 1) cx' p (rw d at k) in rw (d, sum) rest
      | inr d ↦ let last : (addw si 1, cx') ≡ p = cc in rw (d, sum, last) refl
    ]

pub full_len-ckd :
    (mem : Memory) (ds si cx : ℕ) (p : ℕ × ℕ)
    → full_len_ckd mem ds si cx ≡ Checked.ok p
    → full_len mem ds si cx ≡ some p
unfolding full_len_ckd full_len
full_len-ckd mem ds si cx p h = elim (Bool-cases (cx == 0x0f)) [
  | inl d ↦
      let k : add_bytes_ckd (2 ^ 16) mem ds si cx ≡ Checked.ok p = rw d at h in
      rw d (add_bytes-ckd (2 ^ 16) mem ds si cx p k)
  | inr d ↦
      let last : (si, cx) ≡ p = let k : Checked.ok (si, cx) ≡ Checked.ok p = rw d at h in cc in
      rw (d, last) refl
]

-- An encoded length below 2 ^ 16.
pub full_len-more_len :
    (mem : Memory) (ds n si : ℕ)
    → n < 2 ^ 16
    → si + length (more_len n) < 2 ^ 16
    → Held mem (ds * 16 + si) (more_len n)
    → full_len mem ds si (nibble n) ≡ some (si + length (more_len n), n)
full_len-more_len mem ds n si hn hs held =
    let fits : leb (2 ^ 16) n ≡ false = ground (arith, hn) in
    full_len-ckd mem ds si (nibble n) _ (full_len_ckd-more_len mem ds n si hs held ∙ rw fits refl)
