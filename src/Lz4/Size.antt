-- ===== src/Lz4/Size.antt =====
-- `_lz4len` on the bytes of a block gives the length of what the block stands for.
use libi.Base.{
  ℕ, zero, suc, ◌+◌, ◌-◌, ◌*◌, ◌/◌, ◌%◌, ◌^◌, ◌≤◌, ◌<◌, ◌≡◌, ◌∙◌, sym, refl, ap, inl, inr, true,
  false, some, List, [], ◌∷◌, ◌++◌, length, arith, length-append, leb, if◌then◌else◌, ltb_of_lt,
  ltb_of_le,
}
use mathlib.Core.Path.{subst}
use libi.Memory.{Far, Memory, linear_addr_rm}
use libi.Lz4.{lodsb, addw}
use libi.Lz4.Format.{
  Sequence, Block, repeat, expand_from, expand, nibble, more_len, encode_match, encode_from, encode,
}
use libi.Lz4.Held.{Held}
use libi.Lz4.Lengths.{lodsb-linear, addw_fits}
use libi.Lz4.Parts.{
  nibble_le, token-high, token-low, length-encode_literals, length-encode_match,
  Held-encode_literals, Held-encode_match, length-sequence, expand_from_grows,
}
use libi.Lz4.Len.{
  Checked, add_ckd, full_len_ckd, skip_literals, skip_match, len_loop, unpack_len, lz4len,
}
use libi.Lz4.Lengths.{full_len_ckd-more_len}
use libi.Lz4.LenSteps.{len_loop-ouch, len_loop_last, len_loop-ouch_match, len_loop_more}
use libi.Base.{All, Bool-cases, if_holds}

-- A match of at least four bytes.
abbrev pub LongMatch : Sequence → Type 0
LongMatch s = 4 ≤ s.count

-- Where a sum needs 17 bits, there is a carry.
abbrev Sum : {A : Type 0} → ℕ → A → Checked A
Sum n x = if leb (2 ^ 16) n then Checked.ouch else Checked.ok x

literals-Sum :
    (mem : Memory) (ds dl si u ln : ℕ)
    → dl / 2 ^ 4 ≡ nibble ln
    → si + length (more_len ln) + ln < 2 ^ 16
    → Held mem (ds * 16 + si) (more_len ln)
    → skip_literals mem ds dl si u ≡ Sum (u + ln) (si + length (more_len ln) + ln, u + ln)
unfolding skip_literals add_ckd
literals-Sum mem ds dl si u ln high h held =
    let found = full_len_ckd-more_len mem ds ln si (omega (arith, h)) held in
    let few : leb (2 ^ 16) ln ≡ false = ground (arith, h) in
    let step = addw_fits (si + length (more_len ln)) ln h in
    let found' : full_len_ckd mem ds si (dl / 2 ^ 4) ≡ Checked.ok (si + length (more_len ln), ln) =
      rw high (found ∙ rw few refl) in
    elim (Bool-cases (leb (2 ^ 16) (u + ln))) [
      | inl c ↦ rw (found', c) refl
      | inr c ↦ rw (found', c, step) refl
    ]

match-Sum :
    (mem : Memory) (ds dl si u count : ℕ)
    → dl % 2 ^ 4 ≡ nibble (count - 4)
    → 4 ≤ count
    → si + 2 + length (more_len (count - 4)) < 2 ^ 16
    → Held mem (ds * 16 + (si + 2)) (more_len (count - 4))
    → skip_match mem ds dl si u
      ≡ Sum (u + count) (si + 2 + length (more_len (count - 4)), u + count)
unfolding skip_match add_ckd
match-Sum mem ds dl si u count low h4 h held =
    let found = full_len_ckd-more_len mem ds (count - 4) (si + 2) (omega (arith, h)) held in
    let next = addw_fits si 2 (omega (arith, h)) in
    let found' : full_len_ckd mem ds (addw si 2) (dl % 2 ^ 4)
        ≡ Sum (count - 4) (si + 2 + length (more_len (count - 4)), count - 4) =
      rw (low, next) found in
    let back : count - 4 + 4 ≡ count = omega (arith, h4) in
    elim (Bool-cases (leb (2 ^ 16) (u + count))) [
      | inl c ↦ elim (Bool-cases (leb (2 ^ 16) (count - 4))) [
        | inl e ↦ rw (found', e, c) refl
        | inr e ↦ elim (Bool-cases (leb (2 ^ 16) count)) [
          | inl f ↦ rw (found', e) (rw (back, f, c) refl)
          | inr f ↦ rw (found', e) (rw (back, f, c) refl)
        ]
      ]
      | inr c ↦
          let e : leb (2 ^ 16) (count - 4) ≡ false = ground (arith, c) in
          let f : leb (2 ^ 16) count ≡ false = ground (arith, c) in
          rw (found', e) (rw (back, f, c) refl)
    ]

literals_pass :
    (mem : Memory) (ds si dl u : ℕ) (r : Checked (ℕ × ℕ))
    → skip_literals mem ds dl (si + 1) u ≡ r
    → lodsb mem ds si ≡ dl
    → addw si 1 ≡ si + 1
    → skip_literals mem ds (lodsb mem ds si) (addw si 1) u ≡ r
literals_pass mem ds si dl u r go token next = rw (token, next) go

len_loop-Sum :
    (mem : Memory) (ds bx : ℕ) (ss : List Sequence) (last : List ℕ) (fuel : ℕ) (out : List ℕ)
    (si : ℕ)
    → length ss < fuel
    → All LongMatch ss
    → bx < 2 ^ 16
    → si + length (encode_from ss last) ≡ bx
    → Held mem (ds * 16 + si) (encode_from ss last)
    → len_loop fuel mem ds bx si (length out)
      ≡ Sum (length (expand_from out ss last)) (length (expand_from out ss last))
unfolding len_loop encode_from expand_from
len_loop-Sum mem ds bx ss last zero out si hf v hx hb held = absurd (omega (arith, hf))
len_loop-Sum mem ds bx [] last (suc fuel) out si hf v hx hb held =
    let size = length-encode_literals 0 last [] in
    let (t, a, b, c) = Held-encode_literals mem (ds * 16 + si) 0 last [] held in
    let token = lodsb-linear mem ds si (omega (arith, hx, hb, size)) ∙ t in
    let next = addw_fits si 1 (omega (arith, hx, hb, size)) in
    let high = token-high (length last) 0 (omega arith) in
    let si' = si + 1 + length (more_len (length last)) + length last in
    let go =
      literals-Sum mem ds (nibble (length last) * 16 + 0) (si + 1) (length out) (length last) high
        (omega (arith, hx, hb, size))
        (subst (λ p. Held mem p (more_len (length last))) (omega arith) a) in
    let e = ltb_of_lt si bx (omega (arith, hb, size)) in
    let f = ltb_of_le si' bx (omega (arith, hb, size)) in
    let total = length-append out last in
    let a' = literals_pass mem ds si (nibble (length last) * 16 + 0) (length out) _ go token next in
    elim (Bool-cases (leb (2 ^ 16) (length out + length last))) [
      | inl k ↦
          len_loop-ouch fuel mem ds bx si (length out) si' (length out + length last) e
            (a' ∙ rw k refl)
          ∙ rw (total, k) refl
      | inr k ↦
          len_loop_last fuel mem ds bx si (length out) si' (length out + length last) e
            (a' ∙ rw k refl) f
          ∙ rw (total, k) refl
    ]
len_loop-Sum mem ds bx (s ∷ ss) last (suc fuel) out si hf v hx hb held =
    let rest = encode_from ss last in
    let low = nibble (s.count - 4) in
    let ln = length s.literals in
    let out'' = repeat s.back s.count (out ++ s.literals) in
    let dl = nibble ln * 16 + low in
    let size = length-encode_literals low s.literals (encode_match s.back s.count rest) in
    let size' = length-encode_match s.back s.count rest in
    let grown = expand_from_grows ss out'' last in
    let total = length-sequence s out in
    let (t, a, b, c) =
      Held-encode_literals mem (ds * 16 + si) low s.literals (encode_match s.back s.count rest)
        held in
    let token = lodsb-linear mem ds si (omega (arith, hx, hb, size)) ∙ t in
    let next = addw_fits si 1 (omega (arith, hx, hb, size)) in
    let si' = si + 1 + length (more_len ln) + ln in
    let si'' = si' + 2 + length (more_len (s.count - 4)) in
    let heldm : Held mem (ds * 16 + si') (encode_match s.back s.count rest) =
      subst (λ p. Held mem p (encode_match s.back s.count rest)) (omega arith) c in
    let (helda, heldb, heldr) = Held-encode_match mem (ds * 16 + si') s.back s.count rest heldm in
    let go =
      literals_pass mem ds si dl (length out) _
        (literals-Sum mem ds dl (si + 1) (length out) ln
          (token-high ln low (nibble_le (s.count - 4))) (omega (arith, hx, hb, size))
          (subst (λ p. Held mem p (more_len ln)) (omega arith) a))
        token next in
    let go' =
      match-Sum mem ds (lodsb mem ds si) si' (length out + ln) s.count
        (ap (λ v. v % 2 ^ 4) token ∙ token-low ln low (nibble_le (s.count - 4))) v.0
        (omega (arith, hx, hb, size, size'))
        (subst (λ p. Held mem p (more_len (s.count - 4))) (omega arith) heldb) in
    let e = ltb_of_lt si bx (omega (arith, hb, size)) in
    let f = ltb_of_lt si' bx (omega (arith, hb, size, size')) in
    let big : leb (2 ^ 16) (length out'') ≡ true
        → Sum (length (expand_from out'' ss last)) (length (expand_from out'' ss last))
          ≡ Checked.ouch =
      λ k.
        let far : leb (2 ^ 16) (length (expand_from out'' ss last)) ≡ true =
          ground (arith, k, grown) in
        rw far refl in
    elim (Bool-cases (leb (2 ^ 16) (length out + ln))) [
      | inl k ↦
          len_loop-ouch fuel mem ds bx si (length out) si' (length out + ln) e (go ∙ rw k refl)
          ∙ sym (big (ground (arith, k, total)))
      | inr k ↦ elim (Bool-cases (leb (2 ^ 16) (length out + ln + s.count))) [
        | inl l ↦
            len_loop-ouch_match fuel mem ds bx si (length out) si' (length out + ln) e
              (go ∙ rw k refl) f (go' ∙ rw l refl)
            ∙ sym (big (ground (arith, l, total)))
        | inr l ↦
            let step =
              len_loop_more fuel mem ds bx si (length out) si' (length out + ln) e si''
                (length out + ln + s.count) (go ∙ rw k refl) f (go' ∙ rw l refl) in
            let again =
              len_loop-Sum mem ds bx ss last fuel out'' si'' (omega (arith, hf)) v.1 hx
                (omega (arith, hb, size, size'))
                (subst (λ p. Held mem p rest) (omega arith) heldr) in
            step ∙ (ap (len_loop fuel mem ds bx si'') (sym total) ∙ again)
      ]
    ]

-- For every block whose matches have four bytes or more, where its bytes stand at the source and
-- end in its segment, `_lz4len` ends in one pass of its loop for each match and one more, and gives
-- the length of what the block stands for where that needs 16 bits, and 0 where it needs more.
pub lz4len-expand :
    (b : Block) (fuel : ℕ) (blk_src : Far) (mem : Memory)
    → All LongMatch b.sequences
    → length b.sequences < fuel
    → blk_src.off + length (encode b) < 2 ^ 16
    → Held mem (linear_addr_rm blk_src) (encode b)
    → lz4len fuel blk_src (length (encode b)) mem
      ≡ some (if leb (2 ^ 16) (length (expand b)) then 0 else length (expand b))
unfolding lz4len unpack_len expand encode linear_addr_rm
lz4len-expand b fuel blk_src mem v hf hs held =
    let size = length (encode_from b.sequences b.last) in
    let end : addw blk_src.off size ≡ blk_src.off + size = addw_fits blk_src.off size hs in
    let found =
      len_loop-Sum mem blk_src.seg (addw blk_src.off size) b.sequences b.last fuel [] blk_src.off hf
        v (omega (arith, end, hs)) (sym end) held in
    ap unpack_len found
    ∙ if_holds
        (λ c.
          unpack_len c
          ≡ some (
              if leb (2 ^ 16) (length (expand_from [] b.sequences b.last))
              then 0
              else length (expand_from [] b.sequences b.last)))
        (leb (2 ^ 16) (length (expand_from [] b.sequences b.last))) Checked.ouch
        (Checked.ok (length (expand_from [] b.sequences b.last))) (λ e. rw e refl) (λ e. rw e refl)
