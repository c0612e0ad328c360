-- ===== src/Lz4/Pass.antt =====
-- The passes of the loop of `_lz4len`, one by one: what a result tells of them.
use libi.Base.{
  ℕ, zero, suc, ◌+◌, ◌/◌, ◌%◌, ◌^◌, ◌≤◌, ◌<◌, ◌≡◌, ◌∙◌, sym, true, false, arith, ltb, Bool-cases,
  inl, inr,
}
use mathlib.Core.Path.{subst}
use libi.Memory.{Memory}
use libi.Lz4.{lodsb, addw}
use libi.Lz4.Len.{Checked, add_ckd, full_len_ckd, skip_literals, skip_match, len_loop}
use libi.Lz4.Lengths.{bind_ok, add_ckd_ok}

-- The DI of `_lz4len` never falls.
pub skip_literals_grows :
    (mem : Memory) (ds dl si di si' di' : ℕ)
    → skip_literals mem ds dl si di ≡ Checked.ok (si', di')
    → (cx : ℕ) × (si0 : ℕ) × (full_len_ckd mem ds si (dl / 2 ^ 4) ≡ Checked.ok (si0, cx))
      × (addw si0 cx ≡ si')
      × (di + cx ≡ di')
      × (di' < 2 ^ 16)
unfolding skip_literals
skip_literals_grows mem ds dl si di si' di' h =
    let ((si0, cx), a, k) = bind_ok (full_len_ckd mem ds si (dl / 2 ^ 4)) _ (si', di') h in
    let (d, b, l) = bind_ok (add_ckd di cx) _ (si', di') k in
    let (r, s) = add_ckd_ok di cx d b in
    let e : addw si0 cx ≡ si' = cc in
    let f : d ≡ di' = cc in (cx, si0, a, e, sym s ∙ f, omega (arith, r, s, f))

pub skip_match_grows :
    (mem : Memory) (ds dl si di si' di' : ℕ)
    → skip_match mem ds dl si di ≡ Checked.ok (si', di')
    → (cx : ℕ) × (full_len_ckd mem ds (addw si 2) (dl % 2 ^ 4) ≡ Checked.ok (si', cx))
      × (cx + 4 < 2 ^ 16)
      × (di + (cx + 4) ≡ di')
      × (di' < 2 ^ 16)
unfolding skip_match
skip_match_grows mem ds dl si di si' di' h =
    let ((si0, cx), a, k) = bind_ok (full_len_ckd mem ds (addw si 2) (dl % 2 ^ 4)) _ (si', di') h in
    let (c, b, l) = bind_ok (add_ckd cx 4) _ (si', di') k in
    let (d, g, n) = bind_ok (add_ckd di c) _ (si', di') l in
    let (r, s) = add_ckd_ok cx 4 c b in
    let (u, v) = add_ckd_ok di c d g in
    let e : si0 ≡ si' = cc in
    let f : d ≡ di' = cc in
    (
      cx,
      subst (λ s. full_len_ckd mem ds (addw si 2) (dl % 2 ^ 4) ≡ Checked.ok (s, cx)) e a,
      r,
      omega (arith, s, v, f),
      omega (arith, u, v, f),
    )

-- The passes of the loop that a result tells of.
pub data Pass (fuel : ℕ) (mem : Memory) (ds bx si di n : ℕ) : Type 0 where
  over : ltb si bx ≡ false → di ≡ n → Pass fuel mem ds bx si di n
  last :
      ltb si bx ≡ true
      → (si' : ℕ) → skip_literals mem ds (lodsb mem ds si) (addw si 1) di ≡ Checked.ok (si', n)
      → ltb si' bx ≡ false
      → Pass fuel mem ds bx si di n
  more :
      ltb si bx ≡ true
      → (si' di' si'' di'' : ℕ)
      → skip_literals mem ds (lodsb mem ds si) (addw si 1) di ≡ Checked.ok (si', di')
      → ltb si' bx ≡ true
      → skip_match mem ds (lodsb mem ds si) si' di' ≡ Checked.ok (si'', di'')
      → len_loop fuel mem ds bx si'' di'' ≡ Checked.ok n
      → Pass fuel mem ds bx si di n

pub len_loop-Pass :
    (fuel : ℕ) (mem : Memory) (ds bx si di n : ℕ)
    → len_loop (suc fuel) mem ds bx si di ≡ Checked.ok n
    → Pass fuel mem ds bx si di n
unfolding len_loop
len_loop-Pass fuel mem ds bx si di n h = elim (Bool-cases (ltb si bx)) [
  | inl e ↦
      let k = rw (e, len_loop) at h in
      let ((si', di'), a, l) =
        bind_ok (skip_literals mem ds (lodsb mem ds si) (addw si 1) di) _ n k in
      elim (Bool-cases (ltb si' bx)) [
        | inl f ↦
            let g = rw f at l in
            let ((si'', di''), b, m) =
              bind_ok (skip_match mem ds (lodsb mem ds si) si' di') _ n g in
            Pass.more e si' di' si'' di'' a f b m
        | inr f ↦
            let g : Checked.ok di' ≡ Checked.ok n = rw f at l in
            let same : di' ≡ n = cc in
            Pass.last e si'
              (subst
                (λ d. skip_literals mem ds (lodsb mem ds si) (addw si 1) di ≡ Checked.ok (si', d))
                same a)
              f
      ]
  | inr e ↦ let k : Checked.ok di ≡ Checked.ok n = rw (e, len_loop) at h in Pass.over e cc
]

pub unrun : (mem : Memory) (ds bx si di n : ℕ) → len_loop zero mem ds bx si di ≡ Checked.ok n → ⊥
unfolding len_loop
unrun mem ds bx si di n h = cc

pub len_loop_grows :
    (fuel : ℕ) (mem : Memory) (ds bx si di n : ℕ)
    → len_loop fuel mem ds bx si di ≡ Checked.ok n
    → di ≤ n
len_loop_grows zero mem ds bx si di n h = absurd (unrun mem ds bx si di n h)
len_loop_grows (suc fuel) mem ds bx si di n h = elim (len_loop-Pass fuel mem ds bx si di n h) [
  | Pass.over e k ↦ omega (arith, k)
  | Pass.last e si' a f ↦
      let (cx, si0, b, c, d, r) =
        skip_literals_grows mem ds (lodsb mem ds si) (addw si 1) di si' n a in
      omega (arith, d)
  | Pass.more e si' di' si'' di'' a f b k ↦
      let (cx, si0, b', c, d, r) =
        skip_literals_grows mem ds (lodsb mem ds si) (addw si 1) di si' di' a in
      let (cx', b'', u, v, w) = skip_match_grows mem ds (lodsb mem ds si) si' di' si'' di'' b in
      let rest = len_loop_grows fuel mem ds bx si'' di'' n k in omega (arith, d, v, rest)
]
