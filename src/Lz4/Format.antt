-- ===== src/Lz4/Format.antt =====
-- The LZ4 block format, by itself: sequences of literals and a match, and literals at the end.
use libi.Base.{
  ℕ, zero, suc, ◌+◌, ◌-◌, ◌*◌, ◌/◌, ◌%◌, List, [], ◌∷◌, ◌++◌, length, get_or, leb, if◌then◌else◌,
}

-- Literals, and a match: `count` bytes that stood `back` bytes before.
pub record Sequence : Type 0 where
  pub literals : List ℕ
  pub back : ℕ
  pub count : ℕ

pub record Block : Type 0 where
  pub sequences : List Sequence
  pub last : List ℕ

-- What a block stands for: `out` with the literals, then with `n` more bytes, each from `back`
-- bytes before itself.
unfoldable pub repeat : ℕ → ℕ → List ℕ → List ℕ
repeat back zero out = out
repeat back (suc n) out = repeat back n (out ++ (get_or out (length out - back) 0 ∷ []))

unfoldable pub expand_from : List ℕ → List Sequence → List ℕ → List ℕ
unfolding repeat
expand_from out [] last = out ++ last
expand_from out (s ∷ ss) last = expand_from (repeat s.back s.count (out ++ s.literals)) ss last

unfoldable pub expand : Block → List ℕ
unfolding expand_from
expand b = expand_from [] b.sequences b.last

-- A length as a half of a token, and as the bytes that add to a half that is 15.
unfoldable pub nibble : ℕ → ℕ
nibble n = if leb 15 n then 15 else n

unfoldable pub runs : ℕ → ℕ → List ℕ
runs zero r = r ∷ []
runs (suc q) r = 255 ∷ runs q r

unfoldable pub more_len : ℕ → List ℕ
unfolding runs
more_len n = if leb 15 n then runs ((n - 15) / 255) ((n - 15) % 255) else []

unfoldable pub encode_literals : ℕ → List ℕ → List ℕ → List ℕ
unfolding nibble more_len
encode_literals low lits rest =
    (nibble (length lits) * 16 + low) ∷ (more_len (length lits) ++ (lits ++ rest))

unfoldable pub encode_match : ℕ → ℕ → List ℕ → List ℕ
unfolding more_len
encode_match back count rest = back % 256 ∷ (back / 256 ∷ (more_len (count - 4) ++ rest))

-- The bytes of a block.
unfoldable pub encode_from : List Sequence → List ℕ → List ℕ
unfolding encode_literals encode_match nibble
encode_from [] last = encode_literals 0 last []
encode_from (s ∷ ss) last =
    encode_literals (nibble (s.count - 4)) s.literals
      (encode_match s.back s.count (encode_from ss last))

unfoldable pub encode : Block → List ℕ
unfolding encode_from
encode b = encode_from b.sequences b.last
