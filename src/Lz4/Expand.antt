-- ===== src/Lz4/Expand.antt =====
-- `_lz4cpy` on the bytes of a block writes what the block stands for.
use libi.Base.{
  ℕ, zero, suc, ◌+◌, ◌-◌, ◌*◌, ◌%◌, ◌^◌, ◌≤◌, ◌<◌, ◌≡◌, ◌∙◌, sym, refl, ap, ◌⊎◌, inl, inr, some,
  ◌&&◌, List, [], ◌∷◌, ◌++◌, length, get_or, arith, length-append, leb, ltb, if◌then◌else◌,
  ltb_of_lt, ltb_of_le,
}
use mathlib.Core.Path.{subst}
use libi.Memory.{Far, Memory, linear_addr_rm}
use libi.Lz4.{lodsb, addw, copy_loop, lz4cpy}
use libi.Lz4.Format.{
  Sequence, Block, repeat, expand_from, expand, nibble, more_len, encode_match, encode_from, encode,
}
use libi.Lz4.Held.{Held, Wrote, untouched}
use libi.Lz4.Lengths.{addw_fits}
use libi.Lz4.Steps.{copy_loop_last, copy_loop_more, lz4cpy-copy_loop}
use libi.Lz4.Parts.{
  nibble_le, token-low, length-encode_literals, length-encode_match, Held-encode_literals,
  Held-encode_match, Valid, length-sequence, expand_from_grows,
}
use libi.Lz4.Moved.{length-repeat}
use libi.Lz4.Writes.{literals-step, match-step}

-- The output of `n` bytes behind `di0`, clear of the block, which ends at `bx`.
module _ (mem : Memory) (ds es bx s0 di0 n : ℕ)
    (apart : (es * 16 + di0 + n ≤ ds * 16 + s0) ⊎ (ds * 16 + bx ≤ es * 16 + di0))
    (fits : di0 + n < 2 ^ 16) (inside : bx < 2 ^ 16) where
  abbrev d : ℕ
  d = es * 16 + di0

  copy_loop-expand :
      (ss : List Sequence) (last : List ℕ) (fuel : ℕ) (m : Memory) (out : List ℕ) (si : ℕ)
      → length ss < fuel
      → Valid (length out) ss
      → length (expand_from out ss last) ≡ n
      → s0 ≤ si
      → si + length (encode_from ss last) ≡ bx
      → Wrote mem d out m
      → Held mem (ds * 16 + si) (encode_from ss last)
      → (m' : Memory) × (copy_loop fuel ds es bx si (di0 + length out) m ≡ some (di0 + n, m'))
        × Wrote mem d (expand_from out ss last) m'
  unfolding encode_from expand_from
  copy_loop-expand ss last zero m out si hf v hn hs hb w held = absurd (omega (arith, hf))
  copy_loop-expand [] last (suc fuel) m out si hf v hn hs hb w held =
      let size = length-encode_literals 0 last [] in
      let si' = si + 1 + length (more_len (length last)) + length last in
      let (m', e, t, w') =
        literals-step mem ds es bx s0 di0 n apart fits inside m out si 0 last [] (omega arith) hs
          (omega (arith, hb)) (omega (arith, hn, length-append out last)) w held in
      (
        m',
        copy_loop_last fuel ds es bx si (di0 + length out) m si' (di0 + length (out ++ last)) m'
              (ltb_of_lt si bx (omega (arith, hb, size))) e
              (ltb_of_le si' bx (omega (arith, hb, size)))
            ∙ ap (λ u. some (di0 + u, m')) hn,
        w',
      )
  copy_loop-expand (s ∷ ss) last (suc fuel) m out si hf (v1, v2, v3, v4) hn hs hb w held =
      let rest = encode_from ss last in
      let low = nibble (s.count - 4) in
      let out' = out ++ s.literals in
      let out'' = repeat s.back s.count out' in
      let size = length-encode_literals low s.literals (encode_match s.back s.count rest) in
      let size' = length-encode_match s.back s.count rest in
      let grown = expand_from_grows ss out'' last in
      let lo = length-append out s.literals in
      let lo' = length-repeat s.back s.count out' in
      let si' = si + 1 + length (more_len (length s.literals)) + length s.literals in
      let si'' = si' + 2 + length (more_len (s.count - 4)) in
      let (held0, held1, held2, held3) =
        Held-encode_literals mem (ds * 16 + si) low s.literals (encode_match s.back s.count rest)
          held in
      let heldm : Held mem (ds * 16 + si') (encode_match s.back s.count rest) =
        subst (λ p. Held mem p (encode_match s.back s.count rest)) (omega arith) held3 in
      let (helda, heldb, heldr) = Held-encode_match mem (ds * 16 + si') s.back s.count rest heldm in
      let (m', e, t, w') =
        literals-step mem ds es bx s0 di0 n apart fits inside m out si low s.literals
          (encode_match s.back s.count rest) (nibble_le (s.count - 4)) hs (omega (arith, hb))
          (omega (arith, hn, grown, lo, lo')) w held in
      let (m'', e', w'') =
        match-step mem ds es bx s0 di0 n apart fits inside m' out' si' (lodsb m ds si) s.back
          s.count rest v1 (omega (arith, v2, lo)) v3
          (ap (λ b. b % 2 ^ 4) t ∙ token-low (length s.literals) low (nibble_le (s.count - 4)))
          (omega (arith, hs)) (omega (arith, hb, size, size')) (omega (arith, hn, grown, lo')) w'
          heldm in
      let (m3, e3, w3) =
        copy_loop-expand ss last fuel m'' out'' si'' (omega (arith, hf))
          (subst (λ u. Valid u ss) (sym (length-sequence s out)) v4) hn (omega (arith, hs))
          (omega (arith, hb, size, size')) w'' (subst (λ p. Held mem p rest) (omega arith) heldr) in
      let step =
        copy_loop_more fuel ds es bx si (di0 + length out) m si' (di0 + length out') m' si''
          (di0 + length out'') m'' (ltb_of_lt si bx (omega (arith, hb, size))) e
          (ltb_of_lt si' bx (omega (arith, hb, size, size'))) e' in
      (m3, step ∙ e3, w3)

-- In real mode with the A20 line enabled: for every block whose matches have four bytes or more
-- and begin in what precedes them, where the bytes of the block stand at the source and end in its
-- segment, the output ends in the segment of the destination, and the two do not overlap, `_lz4cpy`
-- ends in one pass of its loop for each match and one more. The output then stands at the
-- destination, no other byte of the memory has changed, and the result points behind the output.
pub lz4cpy-expand :
    (b : Block) (fuel : ℕ) (dest blk_src : Far) (mem : Memory)
    → Valid 0 b.sequences
    → length b.sequences < fuel
    → blk_src.off + length (encode b) < 2 ^ 16
    → dest.off + length (expand b) < 2 ^ 16
    → (linear_addr_rm dest + length (expand b) ≤ linear_addr_rm blk_src)
      ⊎ (linear_addr_rm blk_src + length (encode b) ≤ linear_addr_rm dest)
    → Held mem (linear_addr_rm blk_src) (encode b)
    → (mem' : Memory) × (lz4cpy fuel dest blk_src (length (encode b)) mem
        ≡ some (record { seg = dest.seg; off = dest.off + length (expand b) }, mem'))
      × ((x : ℕ)
          → mem' x ≡ (
              if leb (linear_addr_rm dest) x && ltb x (linear_addr_rm dest + length (expand b))
              then get_or (expand b) (x - linear_addr_rm dest) 0
              else mem x))
unfolding expand encode linear_addr_rm
lz4cpy-expand b fuel dest blk_src mem v hf hs hd apart held =
    let size = length (encode_from b.sequences b.last) in
    let end : addw blk_src.off size ≡ blk_src.off + size = addw_fits blk_src.off size hs in
    let (m, e, w) =
      copy_loop-expand mem blk_src.seg dest.seg (addw blk_src.off size) blk_src.off dest.off
        (length (expand_from [] b.sequences b.last))
        (elim apart [ inl a ↦ inl a | inr a ↦ inr (omega (arith, a, end)) ]) hd
        (omega (arith, end, hs)) b.sequences b.last fuel mem [] blk_src.off hf v refl (omega arith)
        (sym end) (untouched mem (dest.seg * 16 + dest.off)) held in
    (
      m,
      lz4cpy-copy_loop fuel size (dest.off + length (expand_from [] b.sequences b.last)) dest
          blk_src mem m e,
      w,
    )
