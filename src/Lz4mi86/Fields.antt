-- ===== src/Lz4mi86/Fields.antt =====
-- The numbers and the block of a frame, as lz4mi86.c reads them.
use libi.Base.{
  ℕ, ◌+◌, ◌-◌, ◌*◌, ◌%◌, ◌^◌, ◌≤◌, ◌<◌, ◌≡◌, ◌∙◌, refl, ap, true, false, List, [], ◌∷◌, ◌++◌, arith,
}
use libi.Base.{length, length-append, ◌==◌, if◌then◌else◌}
use mathlib.Core.Path.{subst}
use libi.Memory.{Far, Memory}
use libi.Lz4mi86.Files.{fmemcpy}
use libi.Base.{All}
use libi.Endian.{leh32, leh64, hle32, hle64}
use libi.Endian.RoundTrip.{leh32-hle32, leh64-hle64}
use libi.Lz4.Format.{
  Block, Sequence, encode, expand, encode_from, encode_match, expand_from, repeat, nibble,
}
use libi.Lz4.Size.{LongMatch}
use libi.Lz4.Parts.{length-sequence, length-encode_literals}
use libi.Lz4.Held.{Held}
use libi.Lz4mi86.Frame.{bytes32, bytes64}
use libi.Lz4mi86.Header.{le32, le64}

pub leh32-bytes32 : (n : ℕ) → n < 2 ^ 16 → leh32 (le32 (bytes32 n)) ≡ n
unfolding le32 hle32
leh32-bytes32 n h = (leh32-hle32 n (omega (arith, h))).0

pub leh64-bytes64 : (n : ℕ) → n < 2 ^ 16 → leh64 (le64 (bytes64 n)) ≡ n
unfolding le64 hle64
leh64-bytes64 n h = (leh64-hle64 n (omega (arith, h))).0

-- What was copied stands in memory.
fmemcpy_below :
    (p : Far) (bs : List ℕ) (mem : Memory) (x : ℕ)
    → p.off + length bs < 2 ^ 16
    → x < p.seg * 16 + p.off
    → fmemcpy p bs mem x ≡ mem x
unfolding fmemcpy
fmemcpy_below p [] mem x h l = refl
fmemcpy_below p (b ∷ bs) mem x h l =
    let next : (p.off + 1) % 2 ^ 16 ≡ p.off + 1 = omega (arith, h) in
    let other : (p.seg * 16 + (p.off + 0) % 2 ^ 16 == x) ≡ false = ground (arith, h, l) in
    fmemcpy_below (record { seg = p.seg; off = (p.off + 1) % 2 ^ 16 }) bs _ x
      (omega (arith, h, next)) (omega (arith, l, next))
    ∙ ap (λ t. if t then b else mem x) other

pub fmemcpy-Held :
    (p : Far) (bs : List ℕ) (mem : Memory)
    → p.off + length bs < 2 ^ 16
    → Held (fmemcpy p bs mem) (p.seg * 16 + p.off) bs
unfolding fmemcpy
fmemcpy-Held p [] mem h = tt
fmemcpy-Held p (b ∷ bs) mem h =
    let next : (p.off + 1) % 2 ^ 16 ≡ p.off + 1 = omega (arith, h) in
    let p' : Far = record { seg = p.seg; off = (p.off + 1) % 2 ^ 16 } in
    let here : (p.seg * 16 + (p.off + 0) % 2 ^ 16 == p.seg * 16 + p.off) ≡ true =
      ground (arith, h) in
    (
      fmemcpy_below p' bs _ (p.seg * 16 + p.off) (omega (arith, h, next)) (omega (arith, next))
          ∙ ap (λ t. if t then b else mem (p.seg * 16 + p.off)) here,
      subst (λ a. Held (fmemcpy p (b ∷ bs) mem) a bs) (omega (arith, next))
          (fmemcpy-Held p' bs _ (omega (arith, h, next))),
    )

-- Each sequence stands for four bytes or more.
sequences_few_from :
    (ss : List Sequence) (out last : List ℕ)
    → All LongMatch ss
    → 4 * length ss + length out ≤ length (expand_from out ss last)
unfolding expand_from
sequences_few_from [] out last h = omega (arith, length-append out last)
sequences_few_from (s ∷ ss) out last (l, h) =
    let rest = sequences_few_from ss (repeat s.back s.count (out ++ s.literals)) last h in
    omega (arith, l, rest, length-sequence s out)

pub sequences_few :
    (b : Block)
    → All LongMatch b.sequences
    → length (expand b) < 2 ^ 16
    → length b.sequences < 2 ^ 14
unfolding expand
sequences_few b long h = omega (arith, h, sequences_few_from b.sequences [] b.last long)

pub encode_some : (b : Block) → 0 < length (encode b)
unfolding encode
encode_some b = go b.sequences
  where
    go : (ss : List Sequence) → 0 < length (encode_from ss b.last)
    go [] = omega (arith, length-encode_literals 0 b.last [])
    go (s ∷ ss) = omega (
      arith,
      length-encode_literals (nibble (s.count - 4)) s.literals
          (encode_match s.back s.count (encode_from ss b.last)),
    )
