-- ===== src/Lz4/Parts.antt =====
-- The parts of the bytes of a block, and the lengths of what its sequences stand for.
use libi.Base.{
  ℕ, ◌+◌, ◌-◌, ◌*◌, ◌/◌, ◌%◌, ◌^◌, ◌≤◌, ◌≡◌, ap, List, [], ◌∷◌, ◌++◌, length, arith, length-append,
}
use mathlib.Core.Path.{subst}
use libi.Memory.{Memory, at}
use libi.Lz4.{lodsw}
use libi.Lz4.Format.{Sequence, repeat, expand_from, nibble, more_len, encode_literals, encode_match}
use libi.Lz4.Held.{Held, Held-append}
use libi.Lz4.Moved.{length-repeat}

pub nibble_le : (n : ℕ) → nibble n ≤ 15
unfolding nibble
nibble_le n = ground arith

pub token-high : (n low : ℕ) → low ≤ 15 → (nibble n * 16 + low) / 2 ^ 4 ≡ nibble n
token-high n low h = omega (arith, h)

pub token-low : (n low : ℕ) → low ≤ 15 → (nibble n * 16 + low) % 2 ^ 4 ≡ low
token-low n low h = omega (arith, h)

-- The parts of the bytes of a sequence, and their sizes.
pub length-encode_literals :
    (low : ℕ) (lits rest : List ℕ)
    → length (encode_literals low lits rest)
      ≡ 1 + length (more_len (length lits)) + length lits + length rest
unfolding encode_literals
length-encode_literals low lits rest =
    omega (arith, length-append (more_len (length lits)) (lits ++ rest), length-append lits rest)

pub length-encode_match :
    (back count : ℕ) (rest : List ℕ)
    → length (encode_match back count rest) ≡ 2 + length (more_len (count - 4)) + length rest
unfolding encode_match
length-encode_match back count rest = omega (arith, length-append (more_len (count - 4)) rest)

pub Held-encode_literals :
    (mem : Memory) (a low : ℕ) (lits rest : List ℕ)
    → Held mem a (encode_literals low lits rest)
    → (mem a ≡ nibble (length lits) * 16 + low)
      × Held mem (a + 1) (more_len (length lits))
      × Held mem (a + 1 + length (more_len (length lits))) lits
      × Held mem (a + 1 + length (more_len (length lits)) + length lits) rest
unfolding encode_literals
Held-encode_literals mem a low lits rest (e, h) =
    let (hm, k) = Held-append mem (a + 1) (more_len (length lits)) (lits ++ rest) h in
    let (hl, hr) = Held-append mem (a + 1 + length (more_len (length lits))) lits rest k in
    (e, hm, hl, hr)

pub Held-encode_match :
    (mem : Memory) (a back count : ℕ) (rest : List ℕ)
    → Held mem a (encode_match back count rest)
    → Held mem a (back % 256 ∷ (back / 256 ∷ []))
      × Held mem (a + 2) (more_len (count - 4))
      × Held mem (a + 2 + length (more_len (count - 4))) rest
unfolding encode_match
Held-encode_match mem a back count rest (e, (f, h)) =
    let (hm, hr) = Held-append mem (a + 1 + 1) (more_len (count - 4)) rest h in
    let two : a + 1 + 1 ≡ a + 2 = omega arith in
    (
      (e, (f, tt)),
      subst (λ p. Held mem p (more_len (count - 4))) two hm,
      subst (λ p. Held mem (p + length (more_len (count - 4))) rest) two hr,
    )

pub lodsw-back :
    (mem : Memory) (ds si back : ℕ)
    → si + 2 ≤ 2 ^ 16
    → Held mem (ds * 16 + si) (back % 256 ∷ (back / 256 ∷ []))
    → lodsw mem ds si ≡ back
unfolding lodsw at
lodsw-back mem ds si back h (e, (f, z)) =
    let p : ds * 16 + (si + 0) % 2 ^ 16 ≡ ds * 16 + si = omega (arith, h) in
    let q : ds * 16 + (si + 1) % 2 ^ 16 ≡ ds * 16 + si + 1 = omega (arith, h) in
    omega (arith, ap mem p, ap mem q, e, f)

-- Matches of at least four bytes that have been written, where `u` bytes precede.
abbrev pub Valid : ℕ → List Sequence → Type 0
Valid u [] = Unit
Valid u (s ∷ ss) =
    (1 ≤ s.back)
    × (s.back ≤ u + length s.literals)
    × (4 ≤ s.count)
    × Valid (u + length s.literals + s.count) ss

pub length-sequence :
    (s : Sequence) (out : List ℕ)
    → length (repeat s.back s.count (out ++ s.literals)) ≡ length out + length s.literals + s.count
length-sequence s out =
    omega (arith, length-repeat s.back s.count (out ++ s.literals), length-append out s.literals)

pub expand_from_grows :
    (ss : List Sequence) (out last : List ℕ) → length out ≤ length (expand_from out ss last)
unfolding expand_from
expand_from_grows [] out last = omega (arith, length-append out last)
expand_from_grows (s ∷ ss) out last = omega (
  arith,
  expand_from_grows ss (repeat s.back s.count (out ++ s.literals)) last,
  length-sequence s out,
)
