-- ===== src/Lz4/Moved.antt =====
-- `rep movsb` in `_lz4cpy`: behind the output so far it writes literals, and what a match repeats.
use libi.Base.{
  ℕ, zero, suc, ◌+◌, ◌-◌, ◌*◌, ◌%◌, ◌^◌, ◌≤◌, ◌<◌, ◌≡◌, ◌∙◌, sym, ap, ◌⊎◌, inl, inr, List, [], ◌∷◌,
  ◌++◌, length, get_or, arith, length-append, append-nil, append_assoc,
}
use mathlib.Core.Path.{subst}
use libi.Memory.{Far, Memory, at, move_byte}
use libi.Lz4.{rep_movsb}
use libi.Lz4.Format.{repeat}
use libi.Lz4.Held.{Held, Wrote, Wrote-store, Wrote-get, Wrote-Held}

pub length-repeat : (back n : ℕ) (out : List ℕ) → length (repeat back n out) ≡ length out + n
unfolding repeat
length-repeat back zero out = omega arith
length-repeat back (suc n) out =
    let rest = length-repeat back n (out ++ (get_or out (length out - back) 0 ∷ [])) in
    omega (arith, rest, length-append out (get_or out (length out - back) 0 ∷ []))

at-off :
    (seg off i : ℕ) → off + i < 2 ^ 16 → at (record { seg = seg; off = off }) i ≡ seg * 16 + off + i
unfolding at
at-off seg off i h = omega (arith, h)

-- The `n` bytes behind `di0` in the segment `es`, of which `u` are written when the copy begins.
module _ (mem : Memory) (es di0 n u : ℕ) (fits : di0 + n < 2 ^ 16) where
  abbrev here : Far
  here = record { seg = es; off = di0 + u }

  step-Wrote :
      (src : Far) (i v : ℕ) (out : List ℕ) (m : Memory)
      → length out ≡ u + i
      → u + i < n
      → m (at src i) ≡ v
      → Wrote mem (es * 16 + di0) out m
      → Wrote mem (es * 16 + di0) (out ++ (v ∷ [])) (move_byte here src i m)
  unfolding move_byte
  step-Wrote src i v out m e l r h =
      let place = at-off es (di0 + u) i (omega (arith, fits, l)) in
      subst (λ b. Wrote mem (es * 16 + di0) (out ++ (b ∷ [])) (move_byte here src i m)) r
        (Wrote-store mem m (es * 16 + di0) out (at here i) (m (at src i)) (place ∙ omega (arith, e))
          h)

  pub literals-Wrote :
      (ds si : ℕ) (lits : List ℕ) (i : ℕ) (out : List ℕ) (m : Memory)
      → length out ≡ u + i
      → u + i + length lits ≤ n
      → si + i + length lits ≤ 2 ^ 16
      → (es * 16 + di0 + n ≤ ds * 16 + si) ⊎ (ds * 16 + si + i + length lits ≤ es * 16 + di0)
      → Held mem (ds * 16 + si + i) lits
      → Wrote mem (es * 16 + di0) out m
      → Wrote mem
          (es * 16 + di0)
          (out ++ lits)
          (rep_movsb here (record { seg = ds; off = si }) i (length lits) m)
  unfolding rep_movsb
  literals-Wrote ds si [] i out m e l s a held h =
      subst (λ o. Wrote mem (es * 16 + di0) o m) (sym (append-nil out)) h
  literals-Wrote ds si (x ∷ lits) i out m e l s a (b, held) h =
      let src : Far = record { seg = ds; off = si } in
      let place = at-off ds si i (omega (arith, s)) in
      let (now, z) =
        Wrote-Held mem m (es * 16 + di0) out (ds * 16 + si + i) (x ∷ []) h
          (elim a [ inl k ↦ inr (omega (arith, k, e, l)) | inr k ↦ inl (omega (arith, k)) ])
          (b, tt) in
      let next = step-Wrote src i x out m e (omega (arith, l)) (ap m place ∙ now) h in
      subst
        (λ o.
          Wrote mem (es * 16 + di0) o
            (rep_movsb here src (i + 1) (length lits) (move_byte here src i m)))
        (append_assoc out (x ∷ []) lits)
        (literals-Wrote ds si lits (i + 1) (out ++ (x ∷ [])) (move_byte here src i m)
          (omega (arith, e, length-append out (x ∷ []))) (omega (arith, l)) (omega (arith, s))
          (elim a [ inl k ↦ inl k | inr k ↦ inr (omega (arith, k)) ])
          (subst (λ p. Held mem p lits) (omega arith) held) next)

  pub match-Wrote :
      (back k i : ℕ) (out : List ℕ) (m : Memory)
      → length out ≡ u + i
      → u + i + k ≤ n
      → 1 ≤ back
      → back ≤ u
      → Wrote mem (es * 16 + di0) out m
      → Wrote mem
          (es * 16 + di0)
          (repeat back k out)
          (rep_movsb here (record { seg = es; off = (di0 + u + (2 ^ 16 - back)) % 2 ^ 16 }) i k m)
  unfolding rep_movsb repeat
  match-Wrote back zero i out m e l p q h = h
  match-Wrote back (suc k) i out m e l p q h =
      let src : Far = record { seg = es; off = (di0 + u + (2 ^ 16 - back)) % 2 ^ 16 } in
      let v = get_or out (length out - back) 0 in
      let place : at src i ≡ es * 16 + di0 + (length out - back) =
        at-off es ((di0 + u + (2 ^ 16 - back)) % 2 ^ 16) i (omega (arith, fits, l, p, q))
        ∙ omega (arith, e, fits, l, p, q) in
      let now =
        ap m place
        ∙ Wrote-get mem m (es * 16 + di0) out (length out - back) h (omega (arith, e, p, q)) in
      let next = step-Wrote src i v out m e (omega (arith, l)) now h in
      match-Wrote back k (i + 1) (out ++ (v ∷ [])) (move_byte here src i m)
        (omega (arith, e, length-append out (v ∷ []))) (omega (arith, l)) p q next
