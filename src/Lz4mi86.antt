-- ===== src/Lz4mi86.antt =====
-- examples/lz4mi86.c: an LZ4 frame on the standard input becomes a C module. What the system does
-- is a parameter; `int` and `size_t` have 16 bits.
pub mod Files
pub mod Header
pub mod Main
pub mod Ends
pub mod ReadEnds
pub mod Finish
pub mod Streams
pub mod Sent
pub mod Taken
pub mod FarTaken
pub mod Frame
pub mod Shown
pub mod Fields
pub mod Received
pub mod BlockTaken
pub mod Decimal
pub mod Converted
pub mod Pipe
pub mod Examples
use libi.Base.{
  ℕ, zero, suc, ◌+◌, ◌-◌, ◌*◌, ◌/◌, ◌%◌, ◌^◌, Bool, true, false, ◌&&◌, ◌||◌, not, Option, none,
  some, List, [], ◌∷◌, ◌++◌,
}
use libi.Base.{length, drop, ltb, leb, ◌==◌, if◌then◌else◌}
use libi.Memory.{Far, Memory, at, store}
use libi.Endian.{Le32, Le64, leh32, leh64}
use libi.Lz4.Len.{lz4len}
use libi.Path.Chars.{LeadTable}
use libi.Path.Splitpath.{splitpath}
use libi.Errors.{fname_only}
use Prim.Native.Nat.{min}
use Prim.Native.String.{String}
use Prim.Native.Char.{code}

-- `none` is -1, and what `open` gives is a file descriptor. As their contracts say, `read` gives no
-- more bytes than it was asked for, and `write` counts no more than it was given; the program
-- subtracts these counts without a test.
pub record Io (S : Type 0) : Type 0 where
  pub read : ℕ → ℕ → S → Option (List ℕ) × S
  pub write : ℕ → List ℕ → S → Option ℕ × S
  pub open_rdonly : List ℕ → S → Option ℕ × S
  pub open_wronly : List ℕ → S → Option ℕ × S
  pub close : ℕ → S → Option ℕ × S
  pub unlink : List ℕ → S → S
  pub binmode : ℕ → S → Option ℕ × S
  pub fmalloc : ℕ → S → Option Far × S
  pub errno : S → ℕ
  pub set_errno : ℕ → S → S
  pub strerror : ℕ → List ℕ

-- The static variables that the options set, with `__FILE__`.
pub record Options : Type 0 where
  pub me : List ℕ
  pub in_path : Option (List ℕ)
  pub out_path : Option (List ℕ)
  pub symbol : List ℕ
  pub is_far : Bool
  pub file : List ℕ

-- The other static variables, the memory and what the system keeps.
pub record State (S : Type 0) : Type 0 where
  pub os : S
  pub mem : Memory
  pub in_fd : ℕ
  pub out_fd : ℕ

-- `exited` is a call of `exit`; `stuck` is a loop that is out of fuel.
pub data Outcome (S A : Type 0) : Type 0 where
  done : A → State S → Outcome S A
  exited : ℕ → State S → Outcome S A
  stuck : Outcome S A

abbrev pub Run : Type 0 → Type 0 → Type 0
Run S A = State S → Outcome S A

infixl 5 ◌>>=◌
abbrev pub ◌>>=◌ : {S A B : Type 0} → Run S A → (A → Run S B) → Run S B
(m >>= f) s = elim (m s) [
  | Outcome.done a s' ↦ f a s'
  | Outcome.exited c s' ↦ Outcome.exited c s'
  | Outcome.stuck ↦ Outcome.stuck
]

infixl 5 ◌>>◌
abbrev pub ◌>>◌ : {S A B : Type 0} → Run S A → Run S B → Run S B
m >> n = m >>= λ a. n

abbrev pub return : {S A : Type 0} → A → Run S A
return a s = Outcome.done a s

-- A call of the system.
abbrev pub call : {S A : Type 0} → (S → A × S) → Run S A
call f s = let (a, os') = f s.os in Outcome.done a (record s { os = os' })

abbrev pub minus_one : ℕ
minus_one = 0xffff

-- The bytes of a string constant.
abbrev pub codes : String → List ℕ
codes String.[] = []
codes (String.◌∷◌ c s) = code c ∷ codes s
