-- ===== src/Lz4/Room.antt =====
-- `_lz4cpy` against `_lz4len`, on any bytes: how far the copy goes, and what it writes.
use libi.Base.{
  ℕ, zero, suc, ◌+◌, ◌-◌, ◌*◌, ◌/◌, ◌%◌, ◌^◌, ◌≤◌, ◌<◌, ◌≡◌, ◌∙◌, refl, ap, false, some, arith,
  if◌then◌else◌, ◌==◌, ◌⊎◌, inl, inr,
}
use libi.Memory.{Far, Memory, linear_addr_rm, at, store, move_byte}
use libi.Lz4.{
  lodsb, lodsw, addw, rep_movsb, add_bytes, full_len, copy_literals, copy_match, copy_loop, lz4cpy,
}
use libi.Lz4.Len.{Checked, skip_literals, skip_match, len_loop, unpack_len, lz4len}
use libi.Lz4.Lengths.{addw_fits, full_len-ckd}
use libi.Lz4.Steps.{copy_loop_over, copy_loop_last, copy_loop_more, lz4cpy-copy_loop}
use libi.Lz4.Pass.{
  Pass, skip_literals_grows, skip_match_grows, len_loop_grows, len_loop-Pass, unrun,
}

-- Only the `n` bytes at `d` differ.
abbrev Clear : Memory → ℕ → ℕ → Memory → Type 0
Clear mem d n m = (x : ℕ) → (x < d) ⊎ (d + n ≤ x) → m x ≡ mem x

-- The same bytes in the segment `ds`.
abbrev Same : Memory → ℕ → Memory → Type 0
Same mem ds m = (si : ℕ) → lodsb m ds si ≡ lodsb mem ds si

Same-Clear :
    (mem m : Memory) (d n ds : ℕ)
    → (d + n ≤ ds * 16) ⊎ (ds * 16 + 2 ^ 16 ≤ d)
    → Clear mem d n m
    → Same mem ds m
unfolding lodsb at
Same-Clear mem m d n ds h k si =
    k (ds * 16 + (si + 0) % 2 ^ 16)
      (elim h [ inl a ↦ inr (omega (arith, a)) | inr a ↦ inl (omega (arith, a)) ])

add_bytes-Same :
    (fuel : ℕ) (mem m : Memory) (ds si cx : ℕ)
    → Same mem ds m
    → add_bytes fuel m ds si cx ≡ add_bytes fuel mem ds si cx
unfolding add_bytes
add_bytes-Same zero mem m ds si cx h = refl
add_bytes-Same (suc fuel) mem m ds si cx h =
    rw (h si, add_bytes-Same fuel mem m ds (addw si 1) (addw cx (lodsb mem ds si)) h) refl

full_len-Same :
    (mem m : Memory) (ds si cx : ℕ) → Same mem ds m → full_len m ds si cx ≡ full_len mem ds si cx
unfolding full_len
full_len-Same mem m ds si cx h =
    ap (λ r. if cx == 0x0f then r else some (si, cx)) (add_bytes-Same (2 ^ 16) mem m ds si cx h)

rep_movsb-Clear :
    (mem m : Memory) (d n : ℕ) (dest src : Far) (i cx : ℕ)
    → dest.off + i + cx ≤ 2 ^ 16
    → d ≤ linear_addr_rm dest
    → linear_addr_rm dest + i + cx ≤ d + n
    → Clear mem d n m
    → Clear mem d n (rep_movsb dest src i cx m)
unfolding rep_movsb store at linear_addr_rm
rep_movsb-Clear mem m d n dest src i zero ho hd hn k = k
rep_movsb-Clear mem m d n dest src i (suc cx) ho hd hn k =
    rep_movsb-Clear mem (move_byte dest src i m) d n dest src (i + 1) cx (omega (arith, ho)) hd
      (omega (arith, hn))
      (λ x out.
        let other : (at dest i == x) ≡ false = elim out [
          | inl l ↦ ground (arith, l, ho, hd)
          | inr l ↦ ground (arith, l, ho, hn)
        ] in
        rw other (k x out))

-- A length that is not zero is no carry.
unpack_len-ok : (c : Checked ℕ) (n : ℕ) → 0 < n → unpack_len c ≡ some n → c ≡ Checked.ok n
unfolding unpack_len
unpack_len-ok (Checked.ok di) n pos h = cc
unpack_len-ok Checked.ouch n pos h = absurd (let z : 0 ≡ n = cc in omega (arith, z, pos))
unpack_len-ok Checked.stuck n pos h = absurd cc

-- The copy into the `n` bytes behind `di0`, clear of the segment that is read.
module _ (mem : Memory) (ds es bx di0 n : ℕ)
    (apart : (es * 16 + di0 + n ≤ ds * 16) ⊎ (ds * 16 + 2 ^ 16 ≤ es * 16 + di0))
    (fits : di0 + n < 2 ^ 16) where
  abbrev Kept : Memory → Type 0
  Kept m = Clear mem (es * 16 + di0) n m

  literals-room :
      (m : Memory) (dl si u si' u' : ℕ)
      → skip_literals mem ds dl si u ≡ Checked.ok (si', u')
      → u' ≤ n
      → Kept m
      → (m' : Memory) × (copy_literals ds es dl si (di0 + u) m ≡ some (si', di0 + u', m')) × Kept m'
  unfolding copy_literals linear_addr_rm
  literals-room m dl si u si' u' h l k =
      let (cx, si0, a, b, c, d) = skip_literals_grows mem ds dl si u si' u' h in
      let found =
        full_len-Same mem m ds si (dl / 2 ^ 4) (Same-Clear mem m (es * 16 + di0) n ds apart k)
        ∙ full_len-ckd mem ds si (dl / 2 ^ 4) (si0, cx) a in
      let sum : addw (di0 + u) cx ≡ di0 + u' =
        addw_fits (di0 + u) cx (omega (arith, fits, l, c)) ∙ omega (arith, c) in
      let dest : Far = record { seg = es; off = di0 + u } in
      let src : Far = record { seg = ds; off = si0 } in
      (
        rep_movsb dest src 0 cx m,
        rw (found, b, sum) refl,
        rep_movsb-Clear mem m (es * 16 + di0) n dest src 0 cx (omega (arith, fits, l, c))
            (omega arith) (omega (arith, l, c)) k,
      )

  match-room :
      (m : Memory) (dl si u si' u' : ℕ)
      → skip_match mem ds dl si u ≡ Checked.ok (si', u')
      → u' ≤ n
      → Kept m
      → (m' : Memory) × (copy_match ds es dl si (di0 + u) m ≡ some (si', di0 + u', m')) × Kept m'
  unfolding copy_match linear_addr_rm
  match-room m dl si u si' u' h l k =
      let (cx, a, r, c, d) = skip_match_grows mem ds dl si u si' u' h in
      let found =
        full_len-Same mem m ds (addw si 2) (dl % 2 ^ 4)
          (Same-Clear mem m (es * 16 + di0) n ds apart k)
        ∙ full_len-ckd mem ds (addw si 2) (dl % 2 ^ 4) (si', cx) a in
      let four = addw_fits cx 4 r in
      let sum : addw (di0 + u) (cx + 4) ≡ di0 + u' =
        addw_fits (di0 + u) (cx + 4) (omega (arith, fits, l, c)) ∙ omega (arith, c) in
      let dest : Far = record { seg = es; off = di0 + u } in
      let src : Far = record { seg = es; off = (di0 + u + (2 ^ 16 - lodsw m ds si)) % 2 ^ 16 } in
      (
        rep_movsb dest src 0 (cx + 4) m,
        rw (found, four, sum) refl,
        rep_movsb-Clear mem m (es * 16 + di0) n dest src 0 (cx + 4) (omega (arith, fits, l, c))
            (omega arith) (omega (arith, l, c)) k,
      )

  copy_loop-room :
      (fuel : ℕ) (m : Memory) (si u : ℕ)
      → len_loop fuel mem ds bx si u ≡ Checked.ok n
      → Kept m
      → (m' : Memory) × (copy_loop fuel ds es bx si (di0 + u) m ≡ some (di0 + n, m')) × Kept m'
  copy_loop-room zero m si u h k = absurd (unrun mem ds bx si u n h)
  copy_loop-room (suc fuel) m si u h k =
      let token = Same-Clear mem m (es * 16 + di0) n ds apart k si in
      elim (len_loop-Pass fuel mem ds bx si u n h) [
        | Pass.over e same ↦ (m, copy_loop_over fuel ds es bx si (di0 + u) m e ∙ rw same refl, k)
        | Pass.last e si' a f ↦
            let (m', b, k') =
              literals-room m (lodsb mem ds si) (addw si 1) u si' n a (omega arith) k in
            (m', copy_loop_last fuel ds es bx si (di0 + u) m si' (di0 + n) m' e (rw token b) f, k')
        | Pass.more e si' u' si'' u'' a f b l ↦
            let low = len_loop_grows fuel mem ds bx si'' u'' n l in
            let (cx, le, c, d, r) = skip_match_grows mem ds (lodsb mem ds si) si' u' si'' u'' b in
            let (m', g, k') =
              literals-room m (lodsb mem ds si) (addw si 1) u si' u' a (omega (arith, low, d)) k in
            let (m'', g', k'') = match-room m' (lodsb mem ds si) si' u' si'' u'' b low k' in
            let (m3, g3, k3) = copy_loop-room fuel m'' si'' u'' l k'' in
            (
              m3,
              copy_loop_more fuel ds es bx si (di0 + u) m si' (di0 + u') m' si'' (di0 + u'') m'' e
                    (rw token g) f (rw token g')
                  ∙ g3,
              k3,
            )
      ]

-- Whatever the bytes of the block are: where `_lz4len` gives a length that is not zero, and that
-- many bytes at the destination end in its segment and are clear of the segment of the block,
-- `_lz4cpy` ends within the same number of passes, with a pointer to the end of these bytes, and no
-- byte outside them has changed.
pub lz4cpy-lz4len :
    (fuel blk_sz n : ℕ) (dest blk_src : Far) (mem : Memory)
    → (linear_addr_rm dest + n ≤ blk_src.seg * 16)
      ⊎ (blk_src.seg * 16 + 2 ^ 16 ≤ linear_addr_rm dest)
    → dest.off + n < 2 ^ 16
    → lz4len fuel blk_src blk_sz mem ≡ some n
    → 0 < n
    → (mem' : Memory) × (lz4cpy fuel dest blk_src blk_sz mem
        ≡ some (record { seg = dest.seg; off = dest.off + n }, mem'))
      × ((x : ℕ) → (x < linear_addr_rm dest) ⊎ (linear_addr_rm dest + n ≤ x) → mem' x ≡ mem x)
unfolding lz4cpy lz4len linear_addr_rm
lz4cpy-lz4len fuel blk_sz n dest blk_src mem apart fits h pos =
    let found =
      unpack_len-ok (len_loop fuel mem blk_src.seg (addw blk_src.off blk_sz) blk_src.off 0) n pos
        h in
    let (m, e, k) =
      copy_loop-room mem blk_src.seg dest.seg (addw blk_src.off blk_sz) dest.off n apart fits fuel
        mem blk_src.off 0 found (λ x out. refl) in
    (m, lz4cpy-copy_loop fuel blk_sz (dest.off + n) dest blk_src mem m e, k)
