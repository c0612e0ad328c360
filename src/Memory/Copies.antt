-- ===== src/Memory/Copies.antt =====
-- The copies by words: each moves every byte, as if the source stood elsewhere, where no byte is
-- overwritten before it is read.
use libi.Base.{
  ℕ, zero, suc, ◌+◌, ◌-◌, ◌*◌, ◌/◌, ◌%◌, ◌^◌, ◌≤◌, ◌<◌, ◌≡◌, sym, ◌&&◌, arith, ◌⊎◌, inl, inr,
}
use mathlib.Core.Path.{subst}
use libi.Base.{ltb, leb, ◌==◌, if◌then◌else◌, if_holds}
use libi.Memory.{
  Far, Memory, linear_addr_rm, at, store, move_byte, move_word, words_up, words_down,
  fmemmove_forward, fmemmove_backward,
}

-- The memory `m`, in which the bytes from `i` to `k` of `n` at `d` are those that were at `s`.
abbrev pub Moved : Memory → ℕ → ℕ → ℕ → ℕ → Memory → Type 0
Moved mem d s i k m =
    (x : ℕ) → m x ≡ (if leb (d + i) x && ltb x (d + k) then mem (s + (x - d)) else mem x)

up_step :
    (mem m : Memory) (d s i : ℕ)
    → (d ≤ s) ⊎ (s + i + 2 ≤ d)
    → Moved mem d s 0 i m
    → Moved mem d s 0 (i + 2) (store (store m (d + i) (m (s + i))) (d + (i + 1)) (m (s + (i + 1))))
unfolding store
up_step mem m d s i h k x = ground (arith, h, k x, k (s + i), k (s + (i + 1)))

down_step :
    (mem m : Memory) (d s i n : ℕ)
    → (s ≤ d) ⊎ (d + n ≤ s)
    → Moved mem d s (i + 2) n m
    → i + 2 ≤ n
    → Moved mem d s i n (store (store m (d + i) (m (s + i))) (d + (i + 1)) (m (s + (i + 1))))
unfolding store
down_step mem m d s i n h k l x = ground (arith, h, l, k x, k (s + i), k (s + (i + 1)))

up_last :
    (mem m : Memory) (d s i : ℕ)
    → (d ≤ s) ⊎ (s + i + 1 ≤ d)
    → Moved mem d s 0 i m
    → Moved mem d s 0 (i + 1) (store m (d + i) (m (s + i)))
unfolding store
up_last mem m d s i h k x = ground (arith, h, k x, k (s + i))

down_last :
    (mem m : Memory) (d s n : ℕ)
    → (s ≤ d) ⊎ (d + n ≤ s)
    → Moved mem d s 1 n m
    → 1 ≤ n
    → Moved mem d s 0 n (store m (d + 0) (m (s + 0)))
unfolding store
down_last mem m d s n h k l x = ground (arith, h, l, k x, k (s + 0))

at-linear : (p : Far) (i : ℕ) → p.off + i < 2 ^ 16 → at p i ≡ linear_addr_rm p + i
unfolding at linear_addr_rm
at-linear p i h = omega (arith, h)

module _ (dest src : Far) (n : ℕ) (mem : Memory) where
  abbrev pub d : ℕ
  d = linear_addr_rm dest

  abbrev pub s : ℕ
  s = linear_addr_rm src

  -- `n` bytes stand behind the offset of each pointer.
  abbrev InSegment : Type 0
  InSegment = (dest.off + n ≤ 2 ^ 16) × (src.off + n ≤ 2 ^ 16)

  move_word-linear :
      (i : ℕ) (m : Memory)
      → InSegment
      → i + 2 ≤ n
      → move_word dest src i m ≡ store (store m (d + i) (m (s + i))) (d + (i + 1)) (m (s + (i + 1)))
  unfolding move_word
  move_word-linear i m (hd, hs) h =
      let d0 = at-linear dest i (omega (arith, hd, h)) in
      let s0 = at-linear src i (omega (arith, hs, h)) in
      let d1 = at-linear dest (i + 1) (omega (arith, hd, h)) in
      let s1 = at-linear src (i + 1) (omega (arith, hs, h)) in
      λ j. store (store m (d0 j) (m (s0 j))) (d1 j) (m (s1 j))

  move_byte-linear :
      (i : ℕ) (m : Memory)
      → InSegment
      → i + 1 ≤ n
      → move_byte dest src i m ≡ store m (d + i) (m (s + i))
  unfolding move_byte
  move_byte-linear i m (hd, hs) h =
      let d0 = at-linear dest i (omega (arith, hd, h)) in
      let s0 = at-linear src i (omega (arith, hs, h)) in λ j. store m (d0 j) (m (s0 j))

  words_up-Moved :
      (words i : ℕ) (m : Memory)
      → InSegment
      → (d ≤ s) ⊎ (s + n ≤ d)
      → i + words * 2 ≤ n
      → Moved mem d s 0 i m
      → Moved mem d s 0 (i + words * 2) (words_up dest src i words m)
  unfolding words_up
  words_up-Moved zero i m hi h l k = subst (λ e. Moved mem d s 0 e m) (omega arith) k
  words_up-Moved (suc words) i m hi h l k =
      let rest = words_up-Moved words (i + 2) (move_word dest src i m) hi h (omega (arith, l)) (
        subst (Moved mem d s 0 (i + 2)) (sym (move_word-linear i m hi (omega (arith, l))))
          (up_step mem m d s i (elim h [ inl a ↦ inl a | inr b ↦ inr (omega (arith, l, b)) ]) k)) in
      subst (λ e. Moved mem d s 0 e (words_up dest src (i + 2) words (move_word dest src i m)))
        (omega arith) rest

  words_down-Moved :
      (words i : ℕ) (m : Memory)
      → InSegment
      → (s ≤ d) ⊎ (d + n ≤ s)
      → i + words * 2 ≤ n
      → Moved mem d s (i + words * 2) n m
      → Moved mem d s i n (words_down dest src i words m)
  unfolding words_down
  words_down-Moved zero i m hi h l k = subst (λ e. Moved mem d s e n m) (omega arith) k
  words_down-Moved (suc words) i m hi h l k =
      words_down-Moved words i (move_word dest src (i + words * 2) m) hi h (omega (arith, l)) (
        subst (Moved mem d s (i + words * 2) n)
          (sym (move_word-linear (i + words * 2) m hi (omega (arith, l))))
          (down_step mem m d s (i + words * 2) n h
            (subst (λ e. Moved mem d s e n m) (omega arith) k) (omega (arith, l))))

  pub forward-Moved :
      InSegment → (d ≤ s) ⊎ (s + n ≤ d) → Moved mem d s 0 n (fmemmove_forward dest src n mem)
  unfolding fmemmove_forward
  forward-Moved hi h =
      let m = words_up dest src 0 (n / 2) mem in
      let moved = words_up-Moved (n / 2) 0 mem hi h (omega arith) (λ x. ground arith) in
      if_holds (Moved mem d s 0 n) (n % 2 == 1) (move_byte dest src (n - 1) m) m
        (λ e.
          let before : Moved mem d s 0 (n - 1) m =
            subst (λ k. Moved mem d s 0 k m) (ground (arith, e)) moved in
          let last =
            up_last mem m d s (n - 1)
              (elim h [ inl a ↦ inl a | inr b ↦ inr (ground (arith, e, b)) ]) before in
          subst (Moved mem d s 0 n) (sym (move_byte-linear (n - 1) m hi (ground (arith, e)))) (
            subst (λ k. Moved mem d s 0 k (store m (d + (n - 1)) (m (s + (n - 1)))))
              (ground (arith, e)) last))
        (λ e. subst (λ k. Moved mem d s 0 k m) (ground (arith, e)) moved)

  pub backward-Moved :
      InSegment → (s ≤ d) ⊎ (d + n ≤ s) → Moved mem d s 0 n (fmemmove_backward dest src n mem)
  unfolding fmemmove_backward
  backward-Moved hi h =
      let m = words_down dest src (n % 2) (n / 2) mem in
      let moved = words_down-Moved (n / 2) (n % 2) mem hi h (omega arith) (λ x. ground arith) in
      if_holds (Moved mem d s 0 n) (n % 2 == 1) (move_byte dest src 0 m) m
        (λ e.
          let before : Moved mem d s 1 n m =
            subst (λ k. Moved mem d s k n m) (ground (arith, e)) moved in
          subst (Moved mem d s 0 n) (sym (move_byte-linear 0 m hi (ground (arith, e))))
            (down_last mem m d s n h before (ground (arith, e))))
        (λ e. subst (λ k. Moved mem d s k n m) (ground (arith, e)) moved)
