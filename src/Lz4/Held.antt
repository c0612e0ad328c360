-- ===== src/Lz4/Held.antt =====
-- Lists of bytes in memory, for the proofs about LZ4.
use libi.Base.{
  ℕ, zero, suc, ◌+◌, ◌-◌, ◌≤◌, ◌<◌, ◌≡◌, ◌∙◌, refl, true, ◌&&◌, ◌⊎◌, inl, inr, List, [], ◌∷◌, ◌++◌,
  length, get_or, arith, leb, ltb, if◌then◌else◌, ◌==◌, length-append,
}
use mathlib.Core.Path.{subst}
use libi.Memory.{Memory, store}

-- The bytes `xs` stand at the linear address `a`.
abbrev pub Held : Memory → ℕ → List ℕ → Type 0
Held mem a [] = Unit
Held mem a (x ∷ xs) = (mem a ≡ x) × Held mem (a + 1) xs

pub Held-append :
    (mem : Memory) (a : ℕ) (xs ys : List ℕ)
    → Held mem a (xs ++ ys)
    → Held mem a xs × Held mem (a + length xs) ys
Held-append mem a [] ys h = (tt, subst (λ e. Held mem e ys) (omega arith) h)
Held-append mem a (x ∷ xs) ys (e, h) =
    let (hx, hy) = Held-append mem (a + 1) xs ys h in
    ((e, hx), subst (λ e. Held mem e ys) (omega arith) hy)

-- The memory `m` is `mem` but for the bytes `out` at `d`.
abbrev pub Wrote : Memory → ℕ → List ℕ → Memory → Type 0
Wrote mem d out m =
    (x : ℕ) → m x ≡ (if leb d x && ltb x (d + length out) then get_or out (x - d) 0 else mem x)

pub get_or-append :
    (xs : List ℕ) (v i : ℕ)
    → get_or (xs ++ (v ∷ [])) i 0
      ≡ (if ltb i (length xs) then get_or xs i 0 else if i == length xs then v else 0)
get_or-append [] v zero = refl
get_or-append [] v (suc i) = ground arith
get_or-append (x ∷ xs) v zero = ground arith
get_or-append (x ∷ xs) v (suc i) = ground (arith, get_or-append xs v i)

pub untouched : (mem : Memory) (d : ℕ) → Wrote mem d [] mem
untouched mem d x = ground arith

-- One more byte.
pub Wrote-store :
    (mem m : Memory) (d : ℕ) (out : List ℕ) (a v : ℕ)
    → a ≡ d + length out
    → Wrote mem d out m
    → Wrote mem d (out ++ (v ∷ [])) (store m a v)
unfolding store
Wrote-store mem m d out a v e h x =
    ground (arith, e, h x, get_or-append out v (x - d), length-append out (v ∷ []))

-- A byte that was written, and bytes that stand clear of what was written.
pub Wrote-get :
    (mem m : Memory) (d : ℕ) (out : List ℕ) (i : ℕ)
    → Wrote mem d out m
    → i < length out
    → m (d + i) ≡ get_or out i 0
Wrote-get mem m d out i h l =
    let same : (d + i) - d ≡ i = omega arith in
    let inside : (leb d (d + i) && ltb (d + i) (d + length out)) ≡ true = ground (arith, l) in
    h (d + i) ∙ rw (inside, same) refl

pub Wrote-Held :
    (mem m : Memory) (d : ℕ) (out : List ℕ) (a : ℕ) (xs : List ℕ)
    → Wrote mem d out m
    → (a + length xs ≤ d) ⊎ (d + length out ≤ a)
    → Held mem a xs
    → Held m a xs
Wrote-Held mem m d out a [] h k held = tt
Wrote-Held mem m d out a (x ∷ xs) h k (e, held) = (
  ground (arith, h a, k, e),
  Wrote-Held mem m d out (a + 1) xs h
      (elim k [ inl l ↦ inl (omega (arith, l)) | inr l ↦ inr (omega (arith, l)) ]) held,
)
