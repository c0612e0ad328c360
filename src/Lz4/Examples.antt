-- ===== src/Lz4/Examples.antt =====
-- A block of one match that overlaps itself, in memory.
use libi.Base.{
  ℕ, ◌+◌, ◌-◌, ◌^◌, ◌≤◌, ◌<◌, ◌≡◌, refl, ◌&&◌, inr, ◌⊎◌, Option, none, some, List, [], ◌∷◌, length,
  get_or, arith, ltb, leb, if◌then◌else◌,
}
use libi.Memory.{Far, Memory, linear_addr_rm}
use libi.Lz4.{lz4cpy}
use libi.Lz4.Len.{lz4len, add_bytes_ckd}
use libi.Lz4.Format.{Block, encode, expand}
use libi.Lz4.Room.{lz4cpy-lz4len}
use libi.Lz4.Ends.{lz4len_ends}
use libi.Lz4.Expand.{lz4cpy-expand}
use libi.Lz4.Size.{lz4len-expand}

-- "ab", five more bytes from two before, and "c"
abbrev ab_block : Block
ab_block = record {
  sequences = record { literals = 97 ∷ 98 ∷ []; back = 2; count = 5 } ∷ [];
  last = 99 ∷ [];
}

abbrev ab_bytes : List ℕ
ab_bytes = 33 ∷ 97 ∷ 98 ∷ 2 ∷ 0 ∷ 16 ∷ 99 ∷ []

abbrev ab_src : Far
ab_src = record { seg = 16; off = 0 }

abbrev ab_dest : Far
ab_dest = record { seg = 0x2000; off = 3 }

abbrev ab_memory : Memory
ab_memory a = get_or ab_bytes (a - 256) 0

ab_encoded : encode ab_block ≡ ab_bytes
unfolding encode
ab_encoded = refl

ab_expanded : expand ab_block ≡ (97 ∷ 98 ∷ 97 ∷ 98 ∷ 97 ∷ 98 ∷ 97 ∷ 99 ∷ [])
unfolding expand
ab_expanded = refl

ab_len : lz4len 2 ab_src 7 ab_memory ≡ some 8
unfolding lz4len
ab_len = refl

-- The output as it is read back, with one byte before and one behind it.
abbrev read_back : Option (Far × Memory) → List ℕ
read_back none = []
read_back (some (p, m)) =
    p.off
    ∷ m 131074
    ∷ m 131075
    ∷ m 131076
    ∷ m 131077
    ∷ m 131078
    ∷ m 131079
    ∷ m 131080
    ∷ m 131081
    ∷ m 131082
    ∷ m 131083
    ∷ []

ab_copied :
    read_back (lz4cpy 2 ab_dest ab_src 7 ab_memory)
    ≡ (11 ∷ 0 ∷ 97 ∷ 98 ∷ 97 ∷ 98 ∷ 97 ∷ 98 ∷ 97 ∷ 99 ∷ 0 ∷ [])
unfolding lz4cpy
ab_copied = refl

lz4len_ends_example : (n : ℕ) × (lz4len 16384 ab_src 7 ab_memory ≡ some n) × (n < 2 ^ 16)
lz4len_ends_example = lz4len_ends 16384 7 ab_src ab_memory (omega arith)

lz4cpy-lz4len_example :
    (mem' : Memory) × (lz4cpy 2 ab_dest ab_src 7 ab_memory
      ≡ some (record { seg = 0x2000; off = 11 }, mem'))
    × ((x : ℕ) → (x < 131075) ⊎ (131083 ≤ x) → mem' x ≡ ab_memory x)
unfolding linear_addr_rm
lz4cpy-lz4len_example =
    lz4cpy-lz4len 2 7 8 ab_dest ab_src ab_memory (inr (omega arith)) (omega arith) ab_len
      (omega arith)

lz4cpy-expand_example :
    (mem' : Memory) × (lz4cpy 2 ab_dest ab_src (length (encode ab_block)) ab_memory
      ≡ some (record { seg = 0x2000; off = 3 + length (expand ab_block) }, mem'))
    × ((x : ℕ)
        → mem' x ≡ (
            if leb (linear_addr_rm ab_dest) x
              && ltb x (linear_addr_rm ab_dest + length (expand ab_block))
            then get_or (expand ab_block) (x - linear_addr_rm ab_dest) 0
            else ab_memory x))
unfolding linear_addr_rm encode expand
lz4cpy-expand_example =
    lz4cpy-expand ab_block 2 ab_dest ab_src ab_memory (omega arith, omega arith, omega arith, tt)
      (omega arith) (omega arith) (omega arith) (inr (omega arith))
      (refl, (refl, (refl, (refl, (refl, (refl, (refl, tt)))))))

lz4len-expand_example :
    lz4len 2 ab_src (length (encode ab_block)) ab_memory
    ≡ some (if leb (2 ^ 16) (length (expand ab_block)) then 0 else length (expand ab_block))
unfolding linear_addr_rm encode
lz4len-expand_example =
    lz4len-expand ab_block 2 ab_src ab_memory (omega arith, tt) (omega arith) (omega arith)
      (refl, (refl, (refl, (refl, (refl, (refl, (refl, tt)))))))

-- One byte and 300 more of it: a length in two more bytes.
run_bytes :
    encode
      (record { sequences = record { literals = 97 ∷ []; back = 1; count = 300 } ∷ []; last = [] })
    ≡ (31 ∷ 97 ∷ 1 ∷ 0 ∷ 255 ∷ 26 ∷ 0 ∷ [])
unfolding encode
run_bytes = refl

run_len :
    lz4len 2 ab_src 7 (λ a. get_or (31 ∷ 97 ∷ 1 ∷ 0 ∷ 255 ∷ 26 ∷ 0 ∷ []) (a - 256) 0) ≡ some 301
unfolding lz4len add_bytes_ckd
run_len = refl
