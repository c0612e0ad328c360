-- ===== src/Memory/Move.antt =====
-- `_fmemmove` chooses the copy that does not overwrite what is still to be read.
use libi.Base.{ℕ, ◌+◌, ◌-◌, ◌^◌, ◌≤◌, ◌<◌, ◌≡◌, ap, ◌∙◌, true, false, ◌&&◌, ◌||◌, arith, inl, inr}
use libi.Base.{ltb, leb, ◌==◌, if◌then◌else◌, if_holds, Bool-cases}
use libi.Memory.{
  Far, Memory, linear_addr_rm, fmemmove_forward, fmemmove_backward, backward, fmemmove,
}
use libi.Memory.Copies.{Moved, forward-Moved, backward-Moved}

-- A far pointer of real mode.
abbrev pub IsFar : Far → Type 0
IsFar p = (p.seg < 2 ^ 16) × (p.off < 2 ^ 16)

-- Where `_fmemmove` copies backward, the destination is behind the source or stands clear of it,
-- and elsewhere the other way round.
backward-true :
    (dest src : Far) (n : ℕ)
    → IsFar dest
    → IsFar src
    → n ≤ 2 ^ 16
    → backward dest src n ≡ true
    → leb (linear_addr_rm src) (linear_addr_rm dest) ≡ false
    → linear_addr_rm dest + n ≤ linear_addr_rm src
unfolding backward
backward-true dest src n hd hs hn h k = ground (arith, hd.0, hd.1, hs.0, hs.1, hn, h, k)

backward-false :
    (dest src : Far) (n : ℕ)
    → backward dest src n ≡ false
    → leb (linear_addr_rm dest) (linear_addr_rm src) ≡ false
    → linear_addr_rm src + n ≤ linear_addr_rm dest
unfolding backward
backward-false dest src n h k = ground (arith, h, k)

add-zero : (n : ℕ) → n + 0 ≡ n
add-zero n = omega arith

same_place :
    (dest src : Far) (n : ℕ) (mem : Memory) (x : ℕ)
    → (n == 0 || (dest.off == src.off && dest.seg == src.seg)) ≡ true
    → mem x ≡ (
        if leb (linear_addr_rm dest) x && ltb x (linear_addr_rm dest + n)
        then mem (linear_addr_rm src + (x - linear_addr_rm dest))
        else mem x)
unfolding linear_addr_rm
same_place dest src n mem x e = ground (arith, e)

-- With far pointers of real mode that have `n` bytes behind their offsets, and the A20 line
-- enabled, `_fmemmove` leaves in the `n` bytes of the destination what was in the source, however
-- the two overlap, and changes no other byte.
pub fmemmove_lem :
    (dest src : Far) (n : ℕ) (mem : Memory) (x : ℕ)
    → IsFar dest
    → IsFar src
    → dest.off + n ≤ 2 ^ 16
    → src.off + n ≤ 2 ^ 16
    → fmemmove dest src n mem x ≡ (
        if leb (linear_addr_rm dest) x && ltb x (linear_addr_rm dest + n)
        then mem (linear_addr_rm src + (x - linear_addr_rm dest))
        else mem x)
unfolding fmemmove
fmemmove_lem dest src n mem x hd hs nd ns =
    let d = linear_addr_rm dest in
    let s = linear_addr_rm src in
    let Done =
      λ (m : Memory). m x ≡ (if leb d x && ltb x (d + n) then mem (s + (x - d)) else mem x) in
    let from_start = λ (m : Memory) (k : Moved mem d s 0 n m).
      k x ∙ ap (λ a. if leb a x && ltb x (d + n) then mem (s + (x - d)) else mem x) (add-zero d) in
    if_holds Done (n == 0 || (dest.off == src.off && dest.seg == src.seg)) mem _
      (λ e. same_place dest src n mem x e)
      (λ e.
        if_holds Done (backward dest src n) (fmemmove_backward dest src n mem)
          (fmemmove_forward dest src n mem)
          (λ b. from_start (fmemmove_backward dest src n mem) (
            backward-Moved dest src n mem (nd, ns)
              (elim (Bool-cases (leb s d)) [
                | inl k ↦ inl (ground (arith, k))
                | inr k ↦ inr (backward-true dest src n hd hs (omega (arith, nd)) b k)
              ])))
          (λ b. from_start (fmemmove_forward dest src n mem) (
            forward-Moved dest src n mem (nd, ns)
              (elim (Bool-cases (leb d s)) [
                | inl k ↦ inl (ground (arith, k))
                | inr k ↦ inr (backward-false dest src n b k)
              ]))))
