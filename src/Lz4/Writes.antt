-- ===== src/Lz4/Writes.antt =====
-- One pass of the loop of `_lz4cpy` over the bytes of a sequence.
use libi.Base.{
  ℕ, ◌+◌, ◌-◌, ◌*◌, ◌/◌, ◌%◌, ◌^◌, ◌≤◌, ◌<◌, ◌≡◌, ◌∙◌, refl, ◌⊎◌, inl, inr, some, List, [], ◌∷◌,
  ◌++◌, length, arith, length-append,
}
use mathlib.Core.Path.{subst}
use libi.Memory.{Far, Memory}
use libi.Lz4.{full_len, lodsb, lodsw, addw, copy_literals, copy_match, rep_movsb}
use libi.Lz4.Format.{repeat, nibble, more_len, encode_literals, encode_match}
use libi.Lz4.Held.{Held, Wrote, Wrote-Held}
use libi.Lz4.Lengths.{full_len-more_len, lodsb-linear, addw_fits}
use libi.Lz4.Parts.{
  token-high, length-encode_literals, length-encode_match, Held-encode_literals, Held-encode_match,
  lodsw-back,
}
use libi.Lz4.Moved.{length-repeat, literals-Wrote, match-Wrote}

-- The output of `n` bytes behind `di0`, clear of the block, which ends at `bx`.
module _ (mem : Memory) (ds es bx s0 di0 n : ℕ)
    (apart : (es * 16 + di0 + n ≤ ds * 16 + s0) ⊎ (ds * 16 + bx ≤ es * 16 + di0))
    (fits : di0 + n < 2 ^ 16) (inside : bx < 2 ^ 16) where
  abbrev d : ℕ
  d = es * 16 + di0

  copy_literals-full_len :
      (m : Memory) (dl si di si' cx : ℕ)
      → full_len m ds si (dl / 2 ^ 4) ≡ some (si', cx)
      → copy_literals ds es dl si di m
        ≡ some (
          addw si' cx,
          addw di cx,
          rep_movsb (record { seg = es; off = di }) (record { seg = ds; off = si' }) 0 cx m,
        )
  unfolding copy_literals
  copy_literals-full_len m dl si di si' cx h = rw h refl

  copy_match-full_len :
      (m : Memory) (dl si di back si' cx count : ℕ)
      → lodsw m ds si ≡ back
      → full_len m ds (addw si 2) (dl % 2 ^ 4) ≡ some (si', cx)
      → addw cx 4 ≡ count
      → copy_match ds es dl si di m
        ≡ some (
          si',
          addw di count,
          rep_movsb
              (record { seg = es; off = di })
              (record { seg = es; off = (di + (2 ^ 16 - back)) % 2 ^ 16 })
              0
              count
              m,
        )
  unfolding copy_match
  copy_match-full_len m dl si di back si' cx count b h c = rw (b, h, c) refl

  -- Bytes of the block stand in memory until the end.
  still-Held :
      (m : Memory) (out : List ℕ) (si : ℕ) (xs : List ℕ)
      → s0 ≤ si
      → si + length xs ≤ bx
      → length out ≤ n
      → Wrote mem d out m
      → Held mem (ds * 16 + si) xs
      → Held m (ds * 16 + si) xs
  still-Held m out si xs h l k w held =
      Wrote-Held mem m d out (ds * 16 + si) xs w
        (elim apart [ inl a ↦ inr (omega (arith, a, h, k)) | inr a ↦ inl (omega (arith, a, l)) ])
        held

  pub literals-step :
      (m : Memory) (out : List ℕ) (si low : ℕ) (lits rest : List ℕ)
      → low ≤ 15
      → s0 ≤ si
      → si + length (encode_literals low lits rest) ≤ bx
      → length out + length lits ≤ n
      → Wrote mem d out m
      → Held mem (ds * 16 + si) (encode_literals low lits rest)
      → (m' : Memory) × (copy_literals ds es (lodsb m ds si) (addw si 1) (di0 + length out) m
          ≡ some (
            si + 1 + length (more_len (length lits)) + length lits,
            di0 + length (out ++ lits),
            m',
          ))
        × (lodsb m ds si ≡ nibble (length lits) * 16 + low)
        × Wrote mem d (out ++ lits) m'
  literals-step m out si low lits rest hl hs he hn w held =
      let size = length-encode_literals low lits rest in
      let ln = length lits in
      let lm = length (more_len ln) in
      let (t, a, b, c) = Held-encode_literals mem (ds * 16 + si) low lits rest held in
      let (t', z) =
        still-Held m out si ((nibble ln * 16 + low) ∷ []) hs (omega (arith, he, size))
          (omega (arith, hn)) w (t, tt) in
      let a' =
        still-Held m out (si + 1) (more_len ln) (omega (arith, hs)) (omega (arith, he, size))
          (omega (arith, hn)) w (subst (λ p. Held mem p (more_len ln)) (omega arith) a) in
      let b' : Held mem (ds * 16 + (si + 1 + lm) + 0) lits =
        subst (λ p. Held mem p lits) (omega arith) b in
      let token = lodsb-linear m ds si (omega (arith, inside, he, size)) ∙ t' in
      let next = addw_fits si 1 (omega (arith, inside, he, size)) in
      let high = token-high ln low hl in
      let found =
        full_len-more_len m ds ln (si + 1) (omega (arith, inside, he, size))
          (omega (arith, inside, he, size)) a' in
      let moved =
        literals-Wrote mem es di0 n (length out) fits ds (si + 1 + lm) lits 0 out m (omega arith)
          (omega (arith, hn)) (omega (arith, inside, he, size))
          (elim apart [
            | inl k ↦ inl (omega (arith, k, hs))
            | inr k ↦ inr (omega (arith, k, he, size))
          ])
          b' w in
      let src : Far = record { seg = ds; off = si + 1 + lm } in
      let dest : Far = record { seg = es; off = di0 + length out } in
      let si_ok = addw_fits (si + 1 + lm) ln (omega (arith, inside, he, size)) in
      let di_ok : addw (di0 + length out) ln ≡ di0 + length (out ++ lits) =
        addw_fits (di0 + length out) ln (omega (arith, fits, hn))
        ∙ omega (arith, length-append out lits) in
      (
        rep_movsb dest src 0 ln m,
        copy_literals-full_len m (lodsb m ds si) (addw si 1) (di0 + length out) (si + 1 + lm) ln
              (rw (token, high, next) found)
            ∙ rw (si_ok, di_ok) refl,
        token,
        moved,
      )

  pub match-step :
      (m : Memory) (out : List ℕ) (si dl back count : ℕ) (rest : List ℕ)
      → 1 ≤ back
      → back ≤ length out
      → 4 ≤ count
      → dl % 2 ^ 4 ≡ nibble (count - 4)
      → s0 ≤ si
      → si + length (encode_match back count rest) ≤ bx
      → length out + count ≤ n
      → Wrote mem d out m
      → Held mem (ds * 16 + si) (encode_match back count rest)
      → (m' : Memory) × (copy_match ds es dl si (di0 + length out) m
          ≡ some (si + 2 + length (more_len (count - 4)), di0 + length (repeat back count out), m'))
        × Wrote mem d (repeat back count out) m'
  match-step m out si dl back count rest h1 hb h4 low hs he hn w held =
      let size = length-encode_match back count rest in
      let lm = length (more_len (count - 4)) in
      let (a, b, c) = Held-encode_match mem (ds * 16 + si) back count rest held in
      let a' =
        still-Held m out si (back % 256 ∷ (back / 256 ∷ [])) hs (omega (arith, he, size))
          (omega (arith, hn)) w a in
      let b' =
        still-Held m out (si + 2) (more_len (count - 4)) (omega (arith, hs))
          (omega (arith, he, size)) (omega (arith, hn)) w
          (subst (λ p. Held mem p (more_len (count - 4))) (omega arith) b) in
      let offset = lodsw-back m ds si back (omega (arith, inside, he, size)) a' in
      let next = addw_fits si 2 (omega (arith, inside, he, size)) in
      let found =
        full_len-more_len m ds (count - 4) (si + 2) (omega (arith, fits, hn))
          (omega (arith, inside, he, size)) b' in
      let four : addw (count - 4) 4 ≡ count =
        addw_fits (count - 4) 4 (omega (arith, fits, hn, h4)) ∙ omega (arith, h4) in
      let di_ok : addw (di0 + length out) count ≡ di0 + length (repeat back count out) =
        addw_fits (di0 + length out) count (omega (arith, fits, hn))
        ∙ omega (arith, length-repeat back count out) in
      let moved =
        match-Wrote mem es di0 n (length out) fits back count 0 out m (omega arith)
          (omega (arith, hn)) h1 hb w in
      let src : Far = record { seg = es; off = (di0 + length out + (2 ^ 16 - back)) % 2 ^ 16 } in
      let dest : Far = record { seg = es; off = di0 + length out } in
      (
        rep_movsb dest src 0 count m,
        copy_match-full_len m dl si (di0 + length out) back (si + 2 + lm) (count - 4) count offset
              (rw (low, next) found) four
            ∙ rw di_ok refl,
        moved,
      )
