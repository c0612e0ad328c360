-- ===== src/Lz4/Ends.antt =====
-- `_lz4len` ends on any bytes: each pass but the last adds 4 or more to DI, and each round of
-- `.full_len_ckd` but the last adds 255 to CX, until there is a carry.
use libi.Base.{
  ℕ, zero, suc, ◌+◌, ◌*◌, ◌/◌, ◌%◌, ◌^◌, ◌≤◌, ◌<◌, ◌≡◌, refl, some, arith, leb, ltb, if_holds, ◌==◌,
  Bool-cases, inl, inr,
}
use libi.Memory.{Far, Memory}
use libi.Lz4.{lodsb, addw}
use libi.Lz4.Len.{
  Checked, ◌>>=◌, add_ckd, add_bytes_ckd, full_len_ckd, skip_literals, skip_match, len_loop,
  unpack_len, lz4len,
}
use libi.Lz4.Lengths.{add_ckd_ok}
use libi.Lz4.Pass.{skip_literals_grows, skip_match_grows}

-- A result, of which `P` holds, or the jump for a carry.
abbrev Ended : {A : Type 0} → (A → Type 0) → Checked A → Type 0
Ended P (Checked.ok x) = P x
Ended P Checked.ouch = Unit
Ended P Checked.stuck = ⊥

Ended-bind :
    {A B : Type 0} (P : B → Type 0) (m : Checked A) (f : A → Checked B)
    → Ended (λ x. Unit) m
    → ((x : A) → m ≡ Checked.ok x → Ended P (f x))
    → Ended P (m >>= f)
Ended-bind P (Checked.ok x) f h k = k x refl
Ended-bind P Checked.ouch f h k = tt
Ended-bind P Checked.stuck f h k = h

add_ckd-Ended : (a b : ℕ) → Ended (λ x. Unit) (add_ckd a b)
unfolding add_ckd
add_ckd-Ended a b =
    if_holds (Ended (λ x. Unit)) (leb (2 ^ 16) (a + b)) Checked.ouch (Checked.ok (a + b)) (λ e. tt)
      (λ e. tt)

add_bytes_ckd-Ended :
    (fuel : ℕ) (mem : Memory) (ds si cx : ℕ)
    → 2 ^ 16 ≤ cx + 255 * fuel
    → cx < 2 ^ 16
    → Ended (λ x. Unit) (add_bytes_ckd fuel mem ds si cx)
unfolding add_bytes_ckd
add_bytes_ckd-Ended zero mem ds si cx h l = absurd (omega (arith, h, l))
add_bytes_ckd-Ended (suc fuel) mem ds si cx h l =
    let al = lodsb mem ds si in
    Ended-bind (λ x. Unit) (add_ckd cx al) _ (add_ckd-Ended cx al)
      (λ cx' e.
        let (r, s) = add_ckd_ok cx al cx' e in
        elim (Bool-cases (al == 0xff)) [
          | inl d ↦ rw d (
              add_bytes_ckd-Ended fuel mem ds (addw si 1) cx' (ground (arith, h, d, s))
                (omega (arith, r, s)))
          | inr d ↦ rw d tt
        ])

full_len_ckd-Ended : (mem : Memory) (ds si cx : ℕ) → Ended (λ x. Unit) (full_len_ckd mem ds si cx)
unfolding full_len_ckd
full_len_ckd-Ended mem ds si cx =
    if_holds (Ended (λ x. Unit)) (cx == 0x0f) (add_bytes_ckd (2 ^ 16) mem ds si cx)
      (Checked.ok (si, cx))
      (λ e. add_bytes_ckd-Ended (2 ^ 16) mem ds si cx (omega arith) (ground (arith, e))) (λ e. tt)

skip_literals-Ended :
    (mem : Memory) (ds dl si di : ℕ) → Ended (λ x. Unit) (skip_literals mem ds dl si di)
unfolding skip_literals
skip_literals-Ended mem ds dl si di =
    Ended-bind (λ x. Unit) (full_len_ckd mem ds si (dl / 2 ^ 4)) _
      (full_len_ckd-Ended mem ds si (dl / 2 ^ 4))
      (λ (si', cx) e. Ended-bind (λ x. Unit) (add_ckd di cx) _ (add_ckd-Ended di cx) (λ di' f. tt))

skip_match-Ended : (mem : Memory) (ds dl si di : ℕ) → Ended (λ x. Unit) (skip_match mem ds dl si di)
unfolding skip_match
skip_match-Ended mem ds dl si di =
    Ended-bind (λ x. Unit) (full_len_ckd mem ds (addw si 2) (dl % 2 ^ 4)) _
      (full_len_ckd-Ended mem ds (addw si 2) (dl % 2 ^ 4))
      (λ (si', cx) e.
        Ended-bind (λ x. Unit) (add_ckd cx 4) _ (add_ckd-Ended cx 4)
          (λ cx' f. Ended-bind (λ x. Unit) (add_ckd di cx') _ (add_ckd-Ended di cx') (λ di' g. tt)))

len_loop-Ended :
    (fuel : ℕ) (mem : Memory) (ds bx si di : ℕ)
    → 2 ^ 16 ≤ di + 4 * fuel
    → di < 2 ^ 16
    → Ended (λ n. n < 2 ^ 16) (len_loop fuel mem ds bx si di)
unfolding len_loop
len_loop-Ended zero mem ds bx si di h l = absurd (omega (arith, h, l))
len_loop-Ended (suc fuel) mem ds bx si di h l =
    let dl = lodsb mem ds si in
    elim (Bool-cases (ltb si bx)) [
      | inr e ↦ rw (e, len_loop) l
      | inl e ↦
          rw (e, len_loop)
            (Ended-bind (λ n. n < 2 ^ 16) (skip_literals mem ds dl (addw si 1) di) _
              (skip_literals-Ended mem ds dl (addw si 1) di)
              (λ (si', di') a.
                let (cx, si0, a', b, c, d) =
                  skip_literals_grows mem ds dl (addw si 1) di si' di' a in
                elim (Bool-cases (ltb si' bx)) [
                  | inr f ↦ rw f d
                  | inl f ↦ rw f (
                      Ended-bind (λ n. n < 2 ^ 16) (skip_match mem ds dl si' di') _
                        (skip_match-Ended mem ds dl si' di')
                        (λ (si'', di'') k.
                          let (cx', k', u, v, w) = skip_match_grows mem ds dl si' di' si'' di'' k in
                          len_loop-Ended fuel mem ds bx si'' di'' (omega (arith, h, c, v)) w))
                ]))
    ]

unpack_len-Ended :
    (c : Checked ℕ) → Ended (λ n. n < 2 ^ 16) c → (n : ℕ) × (unpack_len c ≡ some n) × (n < 2 ^ 16)
unfolding unpack_len
unpack_len-Ended (Checked.ok n) h = (n, refl, h)
unpack_len-Ended Checked.ouch h = (0, refl, omega arith)
unpack_len-Ended Checked.stuck h = absurd h

-- `_lz4len` ends within 2 ^ 14 passes of its loop, whatever the bytes of the block and its size
-- are, and its result is below 2 ^ 16.
pub lz4len_ends :
    (fuel blk_sz : ℕ) (blk_src : Far) (mem : Memory)
    → 2 ^ 14 ≤ fuel
    → (n : ℕ) × (lz4len fuel blk_src blk_sz mem ≡ some n) × (n < 2 ^ 16)
unfolding lz4len
lz4len_ends fuel blk_sz blk_src mem h =
    unpack_len-Ended (len_loop fuel mem blk_src.seg (addw blk_src.off blk_sz) blk_src.off 0) (
      len_loop-Ended fuel mem blk_src.seg (addw blk_src.off blk_sz) blk_src.off 0 (omega (arith, h))
        (omega arith))
